-- ===== src/Images/Attach.antt =====
-- openvair/modules/image/service_layer/services.py: `attach_image` and `detach_image`.
pub mod Again
use openvair_rde_linter.Base.{
  ℕ, String, Bool, true, false, ◌||◌, Option, none, some, List, [], ◌∷◌, ◌++◌, ◌==◌, string_eq,
  if◌then◌else◌,
}
use openvair_rde_linter.Result.{Exn, Result, ok, err}
use openvair_rde_linter.Service.{return, raise_if, await, on_error, ◌>>=◌, ◌>>◌}
use openvair_rde_linter.Volumes.{Message, blank, failed_while, Attachment}
use openvair_rde_linter.Volumes.Attach.{detach_loop}
use openvair_rde_linter.Images.{
  Status, Image, World, Environment, Run, get_or_fail, save, to_domain, check_image_status,
}

-- What is compared: the attachments of a row have UUIDs, a message has texts.
pub data VmId : Type 0 where
  uuid : String → VmId
  text : String → VmId

-- `==`, which is never true of a UUID and a text
unfoldable pub same_id : VmId → VmId → Bool
same_id (uuid a) (uuid b) = a == b
same_id (text a) (text b) = a == b
same_id (uuid a) (text b) = false
same_id (text a) (uuid b) = false

-- the loop of `_check_image_has_same_attachment`
unfoldable pub has_same_attachment : List Attachment → VmId → Bool
unfolding same_id
has_same_attachment [] vm_id = false
has_same_attachment (a ∷ attachments) vm_id =
    same_id (uuid a.vm_id) vm_id || has_same_attachment attachments vm_id

unfoldable pub check_image_has_same_attachment : List Attachment → String → Run (Unit {0})
unfolding has_same_attachment
check_image_has_same_attachment attachments vm_id =
    raise_if (has_same_attachment attachments (text vm_id)) Exn.image_has_same_attachment

-- A block of `with self.uow()` that commits at its end: an exception rolls back what it wrote.
unfoldable pub committed : {A : Type 0} → Run A → Run A
committed block w = let (r, after) = block w in elim r [ ok a ↦ (ok a, after) | err e ↦ (err e, w) ]

unfoldable pub with_attachment : Attachment → Image → Image
with_attachment attachment image = record image {
  attachments = image.attachments ++ (attachment ∷ []);
  status = Status.available;
  information = blank;
}

-- The handlers write a status of `error` too, which is never committed.
unfoldable pub attach_image : Environment → String → Attachment → Run (Option ℕ)
unfolding committed get_or_fail check_image_status check_image_has_same_attachment to_domain save
    with_attachment
attach_image env image_id attachment = committed (do
  image ← get_or_fail image_id
  check_image_status image.status (Status.available ∷ [])
  check_image_has_same_attachment image.attachments attachment.vm_id
  attach_result ← await (env.domain_attach_info (to_domain image))
  save (with_attachment attachment image)
  return attach_result)

-- the exception that `detach_image` handles
unfoldable pub is_status_error : Exn → Bool
is_status_error Exn.image_status = true
is_status_error _ = false

-- The loop is that of `detach_volume`.
unfoldable pub detach_image : String → String → Run Image
unfolding get_or_fail check_image_status save detach_loop is_status_error
detach_image image_id vm_id = do
  image ← get_or_fail image_id
  on_error is_status_error
      (λ raised. save (record image {
        status = Status.error;
        information = failed_while "detaching image" raised;
      }))
      (check_image_status image.status (Status.available ∷ Status.error ∷ []))
  save (record image { attachments = detach_loop vm_id image.attachments })
  return (record image { attachments = detach_loop vm_id image.attachments })
