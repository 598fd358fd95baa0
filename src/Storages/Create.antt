-- ===== src/Storages/Create.antt =====
-- openvair/modules/storage/service_layer/services.py: `create_storage` and `_create_storage`.
pub mod Outcome
pub mod Specs
pub mod Paths
use openvair_rde_linter.Base.{
  String, Bool, true, false, Option, none, some, List, [], ◌∷◌, ◌==◌, string_eq, is_empty,
  or_default, if◌then◌else◌,
}
use openvair_rde_linter.Base.Dict
use openvair_rde_linter.Base.Dict.{Dict}
use openvair_rde_linter.Result.{Exn, Result, ok, err}
use openvair_rde_linter.Service.{return, raise, await, on_error, ◌>>=◌, ◌>>◌}
use openvair_rde_linter.Volumes.{blank, said, failed_while}
use openvair_rde_linter.Storages.{
  Status, Storage, Created, cast_create, Environment, Run, get_or_fail, save, insert, cast,
  add_event,
}
use openvair_rde_linter.Storages.Checks.{
  check_device, check_storage_exists_with_current_name, check_spec_exists_for_storage,
  check_storage_status,
}

-- the message of `create_storage`
pub record CreateRequest : Type 0 where
  pub name : String
  pub description : String
  pub storage_type : String
  pub specs : Dict String
  pub user_id : String

-- The specs by the type of the storage, after the check on the device of a local one.
unfoldable pub prepare_specs : Environment → CreateRequest → Run (Dict String)
unfolding check_device Dict.set Dict.get_or
prepare_specs env request =
    if request.storage_type == "localfs"
    then (do
      check_device env (Dict.get_or request.specs "path" "")
      return (Dict.set (Dict.set request.specs "fs_uuid" "") "mount_point" ""))
    else if request.storage_type == "nfs"
    then return (Dict.set request.specs "mount_point" "")
    else raise Exn.value_error

-- the rows of the specs: `str(value) if value else None`
unfoldable pub spec_rows : Dict String → Dict (Option String)
unfolding is_empty
spec_rows [] = []
spec_rows ((key, value) ∷ specs) =
    (key, if is_empty value then none else some value) ∷ spec_rows specs

-- `DataSerializer.to_db`, with what the table gives to the columns that are left out
unfoldable pub new_row : String → CreateRequest → Dict String → Storage
unfolding spec_rows
new_row id request specs = record {
  id = id;
  name = request.name;
  description = request.description;
  storage_type = request.storage_type;
  initialized = false;
  status = Status.new;
  information = blank;
  size = 0;
  available = 0;
  user_id = request.user_id;
  extra_specs = spec_rows specs;
}

-- what follows the checks
unfoldable pub accept : CreateRequest → Storage → Run Storage
unfolding insert cast add_event
accept request row = do
  insert row
  cast (cast_create row)
  add_event row.id request.user_id "create_storage" (said "Storage successfully inserted into db.")
  return row

unfoldable pub create_storage : Environment → CreateRequest → Run Storage
unfolding prepare_specs check_storage_exists_with_current_name check_spec_exists_for_storage new_row
    accept
create_storage env request = do
  specs ← prepare_specs env request
  check_storage_exists_with_current_name request.name
  check_spec_exists_for_storage specs request.storage_type
  accept request (new_row env.new_id request specs)

-- the loop over the specs after the domain layer has answered
unfoldable pub placed_specs : Created → Dict (Option String) → Dict (Option String)
placed_specs answer [] = []
placed_specs answer ((key, value) ∷ specs) =
    let rest = placed_specs answer specs in
    if key == "mount_point"
    then (key, answer.mount_point) ∷ rest
    else if key == "fs_uuid"
    then (key, answer.fs_uuid) ∷ rest
    else (key, value) ∷ rest

unfoldable pub created : Created → Storage → Storage
unfolding placed_specs
created answer storage = record storage {
  status = Status.available;
  size = answer.size;
  available = answer.available;
  initialized = true;
  extra_specs = placed_specs answer storage.extra_specs;
}

-- `except RpcCallException`, which a timeout is not
unfoldable pub is_call_error : Exn → Bool
is_call_error Exn.rpc_call = true
is_call_error _ = false

unfoldable pub fail_creating : Storage → Exn → Run (Unit {0})
unfolding save add_event
fail_creating storage raised = do
  save (record storage {
    status = Status.error;
    information = failed_while "creating storage in the system" raised;
  })
  add_event storage.id storage.user_id "create_storage"
      (failed_while "creating storage in the system" raised)

-- the second block
unfoldable pub call_create : Environment → Storage → Storage → Run (Unit {0})
unfolding save created add_event fail_creating is_call_error
call_create env storage_info storage = on_error is_call_error (fail_creating storage) (do
  answer ← await (env.domain_create storage_info)
  save (created answer storage)
  add_event storage.id storage.user_id "create_storage"
      (said "Storage successfully created in the system."))

-- the first block
unfoldable pub start_creating : String → Run (Unit {0})
unfolding get_or_fail check_storage_status save
start_creating storage_id = do
  storage ← get_or_fail storage_id
  check_storage_status storage.status (Status.new ∷ [])
  save (record storage { status = Status.creating })

-- `_create_storage`, on the storage that was cast
unfoldable pub create_storage_step : Environment → Storage → Run (Unit {0})
unfolding start_creating get_or_fail call_create
create_storage_step env storage_info = do
  start_creating storage_info.id
  storage ← get_or_fail storage_info.id
  call_create env storage_info storage
