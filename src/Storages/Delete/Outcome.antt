-- ===== src/Storages/Delete/Outcome.antt =====
-- openvair/modules/storage/service_layer/services.py: what becomes of a storage that `_delete_storage`
-- is cast for.
use openvair_rde_linter.Base.{
  String, ◌≡◌, refl, ap, ◌∙◌, some, none, arith, string_eq, Option, if◌then◌else◌,
}
use openvair_rde_linter.Result.{Exn, Result, ok, err}
use openvair_rde_linter.Service.{Reply, answered, call_failed, timed_out, is_rpc_error, catch}
use openvair_rde_linter.Service.Runs.{bind-ok}
use openvair_rde_linter.Service.Table.{find, find-remove}
use openvair_rde_linter.Volumes.{failed_while}
use openvair_rde_linter.Storages.{
  Status, Storage, storage_keyed, World, Environment, get_or_fail, save, delete_row, add_event,
}
use openvair_rde_linter.Storages.Checks.{check_storage_has_no_objects, get_templates}
use openvair_rde_linter.Storages.Create.Outcome.{get_or_fail-found, save-found}
use openvair_rde_linter.Storages.Delete.{
  drop_row, delete_in_domain, fail_deleting, delete_storage_step,
}

-- what the checks of the other services come to
abbrev pub checked : Environment → String → World → Result {0} Unit
checked env id w = (check_storage_has_no_objects env id w).0

-- The check only asks.
check-state :
    (env : Environment) (id : String) (w : World)
    → check_storage_has_no_objects env id w ≡ (checked env id w, w)
unfolding check_storage_has_no_objects get_templates
check-state env id w = ground arith

-- The result of `_delete_storage` and the row that it leaves, by what the checks and the domain layer say.
abbrev pub failed : Storage → Exn → Storage
failed s raised = record s { status = Status.error; information = failed_while "" raised }

abbrev pub deleted : Result {0} Unit → Reply (Unit {0}) → Storage → Result {0} Unit × Option Storage
deleted (err e) reply s = if is_rpc_error e then (ok tt, some (failed s e)) else (err e, some s)
deleted (ok _) (answered _) s = (ok tt, none)
deleted (ok _) call_failed s = (ok tt, some (failed s Exn.rpc_call))
deleted (ok _) timed_out s = (ok tt, some (failed s Exn.rpc_call_timeout))

fail-found :
    (w : World) (s : Storage) (e : Exn)
    → find w.storages s.id ≡ some s
    → ((fail_deleting s e w).0 ≡ ok tt)
      × (find (fail_deleting s e w).1.storages s.id ≡ some (failed s e))
unfolding fail_deleting save add_event
fail-found w s e h = (refl, save-found w (failed s e) s h)

drop-found :
    (w : World) (s : Storage)
    → ((drop_row s w).0 ≡ ok tt) × (find (drop_row s w).1.storages s.id ≡ none)
unfolding drop_row delete_row add_event
drop-found w s = (refl, ground (arith, find-remove w.storages s.id s.id))

-- the `try` block with its handler, once the checks are done
after_check :
    (env : Environment) (serialized s : Storage) (w : World) (result : Result {0} Unit)
    (reply : Reply (Unit {0}))
    → find w.storages s.id ≡ some s
    → checked env serialized.id w ≡ result
    → env.domain_delete serialized ≡ reply
    → ((catch is_rpc_error (fail_deleting s) (delete_in_domain env serialized s) w).0
        ≡ (deleted result reply s).0)
      × (find
            (catch is_rpc_error (fail_deleting s) (delete_in_domain env serialized s) w).1.storages
            s.id
          ≡ (deleted result reply s).1)
unfolding delete_in_domain
after_check env serialized s w (err e) reply h c r =
    ground (arith, check-state env serialized.id w, fail-found w s e h)
after_check env serialized s w (ok _) (answered _) h c r =
    ground (arith, check-state env serialized.id w, drop-found w s)
after_check env serialized s w (ok _) call_failed h c r =
    ground (arith, check-state env serialized.id w, fail-found w s Exn.rpc_call h)
after_check env serialized s w (ok _) timed_out h c r =
    ground (arith, check-state env serialized.id w, fail-found w s Exn.rpc_call_timeout h)

-- A storage that is cast to `_delete_storage` is gone once the other services have nothing on it and
-- the domain layer has answered. If a call of one of them fails or times out the storage is in `error`,
-- with the exception as its information, and the method returns. If something is on the storage its
-- row stays as it is, and that exception is raised.
pub delete_storage_step-ending :
    (env : Environment) (serialized s : Storage) (w : World)
    → find w.storages s.id ≡ some s
    → serialized.id ≡ s.id
    → ((delete_storage_step env serialized w).0
        ≡ (deleted (checked env serialized.id w) (env.domain_delete serialized) s).0)
      × (find (delete_storage_step env serialized w).1.storages s.id
          ≡ (deleted (checked env serialized.id w) (env.domain_delete serialized) s).1)
unfolding delete_storage_step
delete_storage_step-ending env serialized s w h key =
    let run =
      bind-ok (get_or_fail serialized.id)
        (λ storage.
          catch is_rpc_error (fail_deleting storage) (delete_in_domain env serialized storage))
        s (ap (λ id. get_or_fail id w) key ∙ get_or_fail-found w s.id s h) in
    let done =
      after_check env serialized s w (checked env serialized.id w) (env.domain_delete serialized) h
        refl refl in
    (ap (λ x. x.0) run ∙ done.0, ap (λ x. find x.1.storages s.id) run ∙ done.1)
