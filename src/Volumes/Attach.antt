-- ===== src/Volumes/Attach.antt =====
-- openvair/modules/volume/service_layer/services.py: `attach_volume` and `detach_volume`.
pub mod Detached
use openvair_rde_linter.Base.{
  String, Bool, true, false, not, Option, none, some, List, [], ◌∷◌, ◌++◌, ◌==◌, string_eq,
  or_default, if◌then◌else◌,
}
use openvair_rde_linter.Result.{Exn, Result, ok, err}
use openvair_rde_linter.Service.{return, await, on_error, is_rpc_error, ◌>>=◌, ◌>>◌}
use openvair_rde_linter.Volumes.{
  Status, Message, failed_while, Attachment, Volume, VolumeInfo, Environment, Run, get_or_fail,
  save, to_domain,
}
use openvair_rde_linter.Volumes.Checks.{check_volume_status}

-- the exception of a status check
unfoldable pub is_status_error : Exn → Bool
is_status_error Exn.volume_status = true
is_status_error _ = false

-- a handler with no event
unfoldable pub mark_silently : String → Volume → Exn → Run (Unit {0})
unfolding save
mark_silently doing volume raised =
    save (record volume { status = Status.error; information = failed_while doing raised })

unfoldable pub with_attachment : Attachment → Volume → Volume
with_attachment attachment volume = record volume {
  attachments = volume.attachments ++ (attachment ∷ []);
}

-- The attachment is in the session before the call, and stays if the call fails.
unfoldable pub attach_volume : Environment → Option String → Attachment → Run VolumeInfo
unfolding get_or_fail check_volume_status save mark_silently with_attachment to_domain
    is_status_error or_default
attach_volume env volume_id attachment = do
  volume ← get_or_fail (or_default volume_id "")
  on_error is_status_error (mark_silently "attaching volume" volume)
      (check_volume_status volume.status (Status.available ∷ []))
  save (with_attachment attachment volume)
  on_error is_rpc_error
      (mark_silently "calling the domain layer while attaching volume"
        (with_attachment attachment volume))
      (await (env.domain_attach_info (to_domain (with_attachment attachment volume))))

-- `for a in attachments: if str(a.vm_id) == vm_id: attachments.remove(a)`. The list grows shorter
-- under the loop, so the attachment after one that is removed is not looked at.
unfoldable pub detach_loop : String → List Attachment → List Attachment
detach_loop vm_id [] = []
detach_loop vm_id (a ∷ []) = if a.vm_id == vm_id then [] else a ∷ []
detach_loop vm_id (a ∷ b ∷ rest) =
    let skipped = b ∷ detach_loop vm_id rest in
    let looked_at = a ∷ detach_loop vm_id (b ∷ rest) in
    if a.vm_id == vm_id then skipped else looked_at

unfoldable pub detach_volume : Option String → Option String → Run Volume
unfolding get_or_fail check_volume_status save mark_silently detach_loop is_status_error or_default
detach_volume volume_id vm_id = do
  volume ← get_or_fail (or_default volume_id "")
  on_error is_status_error (mark_silently "detaching volume" volume)
      (check_volume_status volume.status (Status.available ∷ Status.error ∷ []))
  save (record volume { attachments = detach_loop (or_default vm_id "") volume.attachments })
  return (record volume { attachments = detach_loop (or_default vm_id "") volume.attachments })
