-- ===== src/Storages/Delete.antt =====
-- openvair/modules/storage/service_layer/services.py: `delete_storage` and `_delete_storage`.
pub mod Outcome
use openvair_rde_linter.Base.{String, Bool, true, false, List, [], ◌∷◌, if◌then◌else◌}
use openvair_rde_linter.Result.{Exn, Result, ok, err}
use openvair_rde_linter.Service.{return, await, on_error, catch, is_rpc_error, ◌>>=◌, ◌>>◌}
use openvair_rde_linter.Volumes.{said, failed_while}
use openvair_rde_linter.Storages.{
  Status, Storage, cast_delete, Environment, Run, get_or_fail, save, delete_row, cast, add_event,
}
use openvair_rde_linter.Storages.Checks.{check_storage_has_no_objects}

-- the exception that `delete_storage` handles
unfoldable pub is_occupied : Exn → Bool
is_occupied Exn.storage_has_objects = true
is_occupied _ = false

-- The status is set whatever it was before.
unfoldable pub delete_storage : Environment → String → Run Storage
unfolding get_or_fail is_occupied check_storage_has_no_objects save cast add_event
delete_storage env storage_id = do
  storage ← get_or_fail storage_id
  on_error is_occupied
      (λ raised. add_event storage.id storage.user_id "delete_storage" (failed_while "" raised))
      (check_storage_has_no_objects env storage_id)
  save (record storage { status = Status.deleting })
  cast (cast_delete (record storage { status = Status.deleting }))
  return (record storage { status = Status.deleting })

-- what follows the answer of the domain layer
unfoldable pub drop_row : Storage → Run (Unit {0})
unfolding delete_row add_event
drop_row storage = do
  delete_row storage
  add_event storage.id storage.user_id "delete_storage"
      (said "Storage successfully deleted from the system and db.")

-- the `try` block of `_delete_storage`
unfoldable pub delete_in_domain : Environment → Storage → Storage → Run (Unit {0})
unfolding check_storage_has_no_objects drop_row
delete_in_domain env serialized storage = do
  check_storage_has_no_objects env serialized.id
  await (env.domain_delete serialized)
  drop_row storage

unfoldable pub fail_deleting : Storage → Exn → Run (Unit {0})
unfolding save add_event
fail_deleting storage raised = do
  save (record storage { status = Status.error; information = failed_while "" raised })
  add_event storage.id storage.user_id "_delete_storage" (failed_while "" raised)

-- `_delete_storage`, on the storage that was cast: what it handles it does not raise again.
unfoldable pub delete_storage_step : Environment → Storage → Run (Unit {0})
unfolding get_or_fail delete_in_domain fail_deleting
delete_storage_step env serialized = do
  storage ← get_or_fail serialized.id
  catch is_rpc_error (fail_deleting storage) (delete_in_domain env serialized storage)
