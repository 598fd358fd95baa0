-- ===== src/Storages/Create/Outcome.antt =====
-- openvair/modules/storage/service_layer/services.py: what becomes of a storage that `_create_storage`
-- is cast for.
use openvair_rde_linter.Base.{
  String, Option, true, false, [], ◌∷◌, map, ◌==◌, if◌then◌else◌, String-discrete, ◌≡◌, refl, ap,
  ◌∙◌, some, arith, string_eq,
}
use openvair_rde_linter.Base.Dict.{Dict}
use openvair_rde_linter.Result.{Exn, Result, ok, err}
use openvair_rde_linter.Service.{Reply, answered, call_failed, timed_out, ◌>>=◌}
use openvair_rde_linter.Service.Runs.{bind-ok}
use openvair_rde_linter.Service.Table.{find, find-write, contains-find}
use openvair_rde_linter.Volumes.{failed_while}
use openvair_rde_linter.Storages.{
  Status, Status-discrete, Storage, storage_keyed, Created, World, Environment, get_or_fail, save,
  add_event,
}
use openvair_rde_linter.Storages.Checks.{is_in, check_storage_status}
use openvair_rde_linter.Storages.Create.{
  placed_specs, created, fail_creating, is_call_error, call_create, start_creating,
  create_storage_step,
}

pub get_or_fail-found :
    (w : World) (id : String) (s : Storage)
    → find w.storages id ≡ some s
    → get_or_fail id w ≡ (ok s, w)
unfolding get_or_fail
get_or_fail-found w id s h = ground arith

pub save-found :
    (w : World) (s t : Storage)
    → find w.storages s.id ≡ some t
    → find (save s w).1.storages s.id ≡ some s
unfolding save
save-found w s t h = ground (arith, find-write w.storages s s.id, contains-find w.storages s.id t h)

-- what the method ends with, by the answer of the domain layer
abbrev pub ending : Reply Created → Result {0} Unit
ending (answered _) = ok tt
ending call_failed = err Exn.rpc_call
ending timed_out = err Exn.rpc_call_timeout

-- the specs with the mount point and the file system of the answer, where they have such a key
abbrev pub filled : Created → Dict (Option String) → Dict (Option String)
filled answer specs =
    map
      (λ (spec : String × Option String). (
        spec.0,
        if spec.0 == "fs_uuid"
            then answer.fs_uuid
            else if spec.0 == "mount_point"
            then answer.mount_point
            else spec.1,
      ))
      specs

spec_keys_differ : ◌==◌ {A = String} "mount_point" "fs_uuid" ≡ false
unfolding String-discrete
spec_keys_differ = refl

placed_specs-filled :
    (answer : Created) (specs : Dict (Option String))
    → placed_specs answer specs ≡ filled answer specs
unfolding placed_specs
placed_specs-filled answer [] = refl
placed_specs-filled answer ((key, value) ∷ specs) =
    ground (arith, spec_keys_differ, placed_specs-filled answer specs)

-- the row that it leaves
abbrev pub row_after : Reply Created → Storage → Storage
row_after (answered answer) s = record s {
  status = Status.available;
  size = answer.size;
  available = answer.available;
  initialized = true;
  extra_specs = filled answer s.extra_specs;
}
row_after call_failed s = record s {
  status = Status.error;
  information = failed_while "creating storage in the system" Exn.rpc_call;
}
row_after timed_out s = record s { status = Status.creating }

start_creating-found :
    (w : World) (s : Storage)
    → find w.storages s.id ≡ some s
    → s.status ≡ Status.new
    → start_creating s.id w ≡ (ok tt, (save (record s { status = Status.creating }) w).1)
unfolding start_creating get_or_fail check_storage_status is_in Status-discrete save
start_creating-found w s h new = ground arith

call_create-ending :
    (env : Environment) (serialized s : Storage) (w : World) (reply : Reply Created)
    → find w.storages s.id ≡ some s
    → s.status ≡ Status.creating
    → env.domain_create serialized ≡ reply
    → ((call_create env serialized s w).0 ≡ ending reply)
      × (find (call_create env serialized s w).1.storages s.id ≡ some (row_after reply s))
unfolding call_create fail_creating is_call_error created save add_event
call_create-ending env serialized s w (answered a) h creating same =
    let filling = placed_specs-filled a s.extra_specs in
    (ground arith, ground (arith, filling, save-found w (created a s) s h))
call_create-ending env serialized s w call_failed h creating same =
    (ground arith, ground (arith, save-found w (row_after call_failed s) s h))
call_create-ending env serialized s w timed_out h creating same = (ground arith, ground arith)

-- A storage that is new and cast to `_create_storage`: once the domain layer has answered it is
-- `available` and initialized, with the sizes of the answer, and with its mount point and file system
-- under the keys `mount_point` and `fs_uuid` where the specs have them; if the call fails it
-- is in `error`, with the exception as its information, and the exception is raised; if the call times
-- out the exception is raised and the storage stays in `creating`.
pub create_storage_step-ending :
    (env : Environment) (serialized s : Storage) (w : World) (reply : Reply Created)
    → find w.storages s.id ≡ some s
    → serialized.id ≡ s.id
    → s.status ≡ Status.new
    → env.domain_create serialized ≡ reply
    → ((create_storage_step env serialized w).0 ≡ ending reply)
      × (find (create_storage_step env serialized w).1.storages s.id ≡ some (row_after reply s))
unfolding create_storage_step
create_storage_step-ending env serialized s w reply h key new same =
    let creating : Storage = record s { status = Status.creating } in
    let after = (save creating w).1 in
    let found : find after.storages s.id ≡ some creating = save-found w creating s h in
    let run : create_storage_step env serialized w ≡ call_create env serialized creating after =
      bind-ok (start_creating serialized.id)
        (λ _. get_or_fail serialized.id >>= call_create env serialized) tt
        (ap (λ id. start_creating id w) key ∙ start_creating-found w s h new)
      ∙ bind-ok (get_or_fail serialized.id) (call_create env serialized) creating
          (ap (λ id. get_or_fail id after) key ∙ get_or_fail-found after s.id creating found) in
    let done = call_create-ending env serialized creating after reply found refl same in
    (
      ap (λ x. x.0) run ∙ done.0,
      ap (λ x. find x.1.storages s.id) run ∙ done.1 ∙ ap some (settled reply),
    )
  where
    settled :
        (reply : Reply Created)
        → row_after reply (record s { status = Status.creating }) ≡ row_after reply s
    settled (answered a) = refl
    settled call_failed = refl
    settled timed_out = refl
