-- ===== src/Volumes/Delete.antt =====
-- openvair/modules/volume/service_layer/services.py: `delete_volume`, `_delete_volume` and
-- `edit_volume`.
pub mod Requests
use openvair_rde_linter.Base.{
  String, Bool, true, false, not, ◌&&◌, Option, none, some, List, [], ◌∷◌, ◌==◌, string_eq,
  is_empty, or_default, if◌then◌else◌,
}
use openvair_rde_linter.Result.{Exn, Result, ok, err}
use openvair_rde_linter.Service.{return, await, on_error, is_rpc_error, ◌>>=◌, ◌>>◌}
use openvair_rde_linter.Volumes.{
  Status, Message, said, Volume, cast_delete, Environment, Run, get_or_fail, save, delete_row, cast,
  add_event, to_domain, mark,
}
use openvair_rde_linter.Volumes.Checks.{
  check_volume_status, check_volume_has_not_attachment, check_volume_exists_on_storage,
}

-- the exceptions that `delete_volume` handles
unfoldable pub is_undeletable : Exn → Bool
is_undeletable Exn.volume_status = true
is_undeletable Exn.volume_has_attachment = true
is_undeletable _ = false

-- the `try` block of `delete_volume`
unfoldable pub start_deleting : Volume → Run (Unit {0})
unfolding check_volume_status check_volume_has_not_attachment save cast to_domain add_event
start_deleting volume = do
  check_volume_status volume.status (Status.available ∷ Status.error ∷ [])
  check_volume_has_not_attachment volume
  save (record volume { status = Status.deleting })
  cast (cast_delete (to_domain (record volume { status = Status.deleting })))
  add_event volume.id volume.user_id "delete_volume"
      (said "Volume successfully marked as deleting.")

unfoldable pub delete_volume : Option String → Run Volume
unfolding get_or_fail start_deleting mark is_undeletable or_default
delete_volume volume_id = do
  volume ← get_or_fail (or_default volume_id "")
  on_error is_undeletable (mark Status.error "delete_volume" "deleting the volume" volume)
      (start_deleting volume)
  return (record volume { status = Status.deleting })

-- the call of the domain layer, which a volume that has never been placed does not need
unfoldable pub delete_in_domain : Environment → Volume → Volume → Run (Unit {0})
unfolding is_empty
delete_in_domain env serialized volume =
    if is_empty volume.storage_type then return tt else await (env.domain_delete serialized)

-- `_delete_volume`, on the volume that was cast
unfoldable pub delete_volume_step : Environment → Volume → Run (Unit {0})
unfolding get_or_fail delete_in_domain delete_row add_event mark
delete_volume_step env serialized = do
  volume ← get_or_fail serialized.id
  on_error is_rpc_error
      (mark Status.error "_delete_volume" "calling the domain layer while deleting volume" volume)
      (do
        delete_in_domain env serialized volume
        delete_row volume
        add_event serialized.id volume.user_id "_delete_volume"
            (said "Volume successfully deleted from the system."))

-- the message of `edit_volume`
pub record EditRequest : Type 0 where
  pub volume_id : Option String
  pub name : Option String
  pub read_only : Option Bool
  pub description : Option String

-- the check on a new name
unfoldable pub check_new_name : String → Volume → Run (Unit {0})
unfolding check_volume_exists_on_storage is_empty
check_new_name new_volume_name volume =
    if not (is_empty new_volume_name) && not (new_volume_name == volume.name)
    then check_volume_exists_on_storage new_volume_name volume.storage_id
    else return tt

unfoldable pub edited : EditRequest → Volume → Volume
unfolding or_default
edited request volume = record volume {
  name = or_default request.name "";
  read_only = or_default request.read_only false;
  description = or_default request.description "";
}

unfoldable pub edit_volume : EditRequest → Run Volume
unfolding get_or_fail check_volume_status check_new_name save edited or_default
edit_volume request = do
  volume ← get_or_fail (or_default request.volume_id "")
  check_volume_status volume.status (Status.available ∷ [])
  check_new_name (or_default request.name "") volume
  save (edited request volume)
  return (edited request volume)
