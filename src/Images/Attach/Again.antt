-- ===== src/Images/Attach/Again.antt =====
-- openvair/modules/image/service_layer/services.py: an image that is attached once more.
use openvair_rde_linter.Base.{ℕ, String, false, ◌≡◌, refl, Option, some, List, [], ◌∷◌, ◌++◌, arith}
use openvair_rde_linter.Result.{ok}
use openvair_rde_linter.Service.{answered}
use openvair_rde_linter.Service.Table.{find, find-written}
use openvair_rde_linter.Volumes.{blank, Attachment}
use openvair_rde_linter.Images.{
  Status, Status-discrete, Image, image_keyed, World, Environment, get_or_fail, save, to_domain,
  check_image_status, is_in,
}
use openvair_rde_linter.Images.Attach.{
  text, has_same_attachment, check_image_has_same_attachment, committed, with_attachment,
  attach_image,
}

-- No attachment is found to be that of a machine that a message names.
never_same :
    (attachments : List Attachment) (vm_id : String)
    → has_same_attachment attachments (text vm_id) ≡ false
unfolding has_same_attachment
never_same [] vm_id = refl
never_same (a ∷ attachments) vm_id = never_same attachments vm_id

-- An image that is `available` is attached to a machine whenever the domain layer answers, also to
-- one that it is attached to already: the attachment is added at the end of those that it has, and
-- the image stays `available`, with no information.
pub attach_image-again :
    (env : Environment) (id : String) (a : Attachment) (w : World) (v : Image) (size : Option ℕ)
    → find w.images id ≡ some v
    → v.status ≡ Status.available
    → env.domain_attach_info (to_domain v) ≡ answered size
    → ((attach_image env id a w).0 ≡ ok size)
      × (find (attach_image env id a w).1.images id
          ≡ some (record v {
            attachments = v.attachments ++ (a ∷ []);
            status = Status.available;
            information = blank;
          }))
unfolding attach_image committed get_or_fail check_image_status check_image_has_same_attachment save
    is_in Status-discrete with_attachment
attach_image-again env id a w v size h up answer =
    let written = find-written w.images id v (with_attachment a v) h refl in
    (
      ground (arith, never_same v.attachments a.vm_id),
      ground (arith, never_same v.attachments a.vm_id, written),
    )
