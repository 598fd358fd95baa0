-- ===== src/Storages/Monitor.antt =====
-- openvair/modules/storage/service_layer/services.py: the periodic task `monitoring`.
use openvair_rde_linter.Base.{
  String, Bool, true, false, Option, none, some, List, [], ◌∷◌, ◌++◌, ◌==◌, string_eq, is_empty,
  or_default, if◌then◌else◌,
}
use openvair_rde_linter.Base.Dict
use openvair_rde_linter.Base.Dict.{Dict}
use openvair_rde_linter.Result.{Exn, ok, err}
use openvair_rde_linter.Service.{return, raise, await, is_rpc_error, ◌>>=◌, ◌>>◌}
use openvair_rde_linter.Service.Table.{find, write}
use openvair_rde_linter.Volumes.{Message, blank, failed_while}
use openvair_rde_linter.Storages.{Status, Storage, storage_keyed, SetUp, World, Environment, Run}
use openvair_rde_linter.Storages.Disks.{Disk, get_system_disks, get_local_partitions}
use openvair_rde_linter.Storages.Checks.{check_storage_status, same_value}

-- an entry of the bulk update: what the domain layer answered, or an error
pub data Update : Type 0 where
  refreshed : SetUp → Update
  broken : String → Message → Update

-- `_get_local_disk_by_fs_uuid`
unfoldable pub disk_by_fs_uuid : List Disk → Option String → Option Disk
unfolding same_value
disk_by_fs_uuid [] fs_uuid = none
disk_by_fs_uuid (disk ∷ disks) fs_uuid =
    if same_value disk.fs_uuid fs_uuid then some disk else disk_by_fs_uuid disks fs_uuid

-- A disk with a path gives its path to the storage as it is serialized.
unfoldable pub with_path_of : Storage → Option Disk → Storage
unfolding is_empty Dict.set
with_path_of storage none = storage
with_path_of storage (some disk) =
    if is_empty disk.path
    then storage
    else record storage { extra_specs = Dict.set storage.extra_specs "path" (some disk.path) }

-- one storage of `_collect_serialized_storages`
unfoldable pub serialized : List Disk → Storage → Storage
unfolding with_path_of disk_by_fs_uuid Dict.get_or
serialized disks storage =
    if storage.storage_type == "localfs"
    then with_path_of storage
        (disk_by_fs_uuid disks (Dict.get_or storage.extra_specs "fs_uuid" (some "")))
    else storage

unfoldable pub collect_serialized_storages : List Disk → List Storage → List Storage
unfolding serialized
collect_serialized_storages disks [] = []
collect_serialized_storages disks (s ∷ storages) =
    serialized disks s ∷ collect_serialized_storages disks storages

-- an empty dict is an error
unfoldable pub updated_info : Option SetUp → Run Update
updated_info none = raise Exn.empty_domain_storage
updated_info (some answer) = return (refreshed answer)

-- the `try` block for one storage
unfoldable pub check_storage : Environment → Storage → Run Update
unfolding check_storage_status updated_info
check_storage env storage = do
  check_storage_status storage.status (Status.available ∷ Status.error ∷ [])
  answer ← await (env.domain_do_setup storage)
  updated_info answer

-- the exceptions that become an update of the status
unfoldable pub is_breaking : Exn → Bool
is_breaking Exn.empty_domain_storage = true
is_breaking e = is_rpc_error e

-- `_get_monitoring_error_message`
unfoldable pub error_message : Exn → Message
error_message Exn.empty_domain_storage = failed_while "" Exn.empty_domain_storage
error_message e = failed_while "monitoring storage" e

-- The loop over the storages. A storage whose status is not monitored is passed over.
unfoldable pub process_storages : Environment → List Storage → World → List Update
unfolding check_storage is_breaking error_message
process_storages env [] w = []
process_storages env (storage ∷ storages) w =
    let rest = process_storages env storages w in
    elim ((check_storage env storage w).0) [
      | ok update ↦ update ∷ rest
      | err e ↦ if is_breaking e then broken storage.id (error_message e) ∷ rest else rest
    ]

-- `update_spec_by_key_for_storage`, which adds no row
unfoldable pub respec : String → String → Dict (Option String) → Dict (Option String)
respec key value [] = []
respec key value ((k, v) ∷ specs) =
    let rest = respec key value specs in if k == key then (k, some value) ∷ rest else (k, v) ∷ rest

-- a value that is missing or empty changes nothing
unfoldable pub respec_with : String → Option String → Dict (Option String) → Dict (Option String)
unfolding respec is_empty
respec_with key none specs = specs
respec_with key (some value) specs = if is_empty value then specs else respec key value specs

unfoldable pub refresh : SetUp → Storage → Storage
unfolding respec_with or_default
refresh answer storage = record storage {
  size = or_default answer.size 0;
  available = or_default answer.available 0;
  status = Status.available;
  initialized = or_default answer.initialized false;
  information = blank;
  extra_specs =
      respec_with "path" answer.path
        (respec_with "mount_point" answer.mount_point storage.extra_specs);
}

-- the row of that id, changed
unfoldable pub change_row : String → (Storage → Storage) → List Storage → List Storage
unfolding find write
change_row id change storages = elim (find storages id) [
  | none ↦ storages
  | some storage ↦ write storages (change storage)
]

unfoldable pub apply_update : Update → List Storage → List Storage
unfolding change_row refresh
apply_update (refreshed answer) storages = change_row answer.id (refresh answer) storages
apply_update (broken id message) storages =
    change_row id (λ s. record s { status = Status.error; information = message }) storages

-- `_update_all_storages`
unfoldable pub update_all_storages : List Update → List Storage → List Storage
unfolding apply_update
update_all_storages [] storages = storages
update_all_storages (update ∷ updates) storages =
    update_all_storages updates (apply_update update storages)

-- The entries of one run. The disks are those of `get_local_disks` without its flag.
unfoldable pub updates : Environment → World → List Update
unfolding collect_serialized_storages process_storages get_system_disks get_local_partitions
updates env w =
    let disks = get_system_disks env.block_devices ++ get_local_partitions env.block_devices in
    process_storages env (collect_serialized_storages disks w.storages) w

unfoldable pub monitoring : Environment → Run (Unit {0})
unfolding updates update_all_storages
monitoring env w = (ok tt, record w { storages = update_all_storages (updates env w) w.storages })
