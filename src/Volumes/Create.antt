-- ===== src/Volumes/Create.antt =====
-- openvair/modules/volume/service_layer/services.py: `create_volume` and `_create_volume`.
pub mod Blocks
pub mod Outcome
pub mod Request
use openvair_rde_linter.Base.{
  ℕ, String, Bool, true, false, not, ◌&&◌, ◌||◌, Option, none, some, List, [], ◌∷◌, ◌==◌, string_eq,
  nat_eq, is_empty, or_default, if◌then◌else◌,
}
use openvair_rde_linter.Result.{Exn, Result, ok, err}
use openvair_rde_linter.Service.{
  return, raise, raise_if, await, on_error, is_rpc_error, ◌>>=◌, ◌>>◌,
}
use openvair_rde_linter.Volumes.{
  Status, Message, blank, said, failed_while, Volume, StorageInfo, cast_create, Environment, Run,
  get_or_fail, save, insert, cast, add_event, to_domain, mark,
}
use openvair_rde_linter.Volumes.Checks.{
  check_volume_status, check_volume_exists_on_storage, get_storage_info,
  check_storage_on_availability, check_available_space_on_storage,
}

-- the message of `create_volume`: `others` tells whether it has more keys
pub record CreateRequest : Type 0 where
  pub name : Option String
  pub description : Option String
  pub format : Option String
  pub size : Option ℕ
  pub storage_id : Option String
  pub read_only : Option Bool
  pub user_id : Option String
  pub others : Bool

-- `VolumeData`
pub record VolumeData : Type 0 where
  pub name : String
  pub format : String
  pub size : ℕ
  pub description : String
  pub storage_id : String
  pub user_id : String
  pub read_only : Bool

unfoldable pub volume_data : CreateRequest → VolumeData
unfolding or_default
volume_data request = record {
  name = or_default request.name "";
  format = or_default request.format "qcow2";
  size = or_default request.size 0;
  description = or_default request.description "";
  storage_id = or_default request.storage_id "";
  user_id = or_default request.user_id "";
  read_only = or_default request.read_only false;
}

unfoldable pub prepare_volume_data : CreateRequest → Run VolumeData
unfolding volume_data is_empty
prepare_volume_data request =
    let volume = volume_data request in
    if request.others || not (nat_eq volume.size 0) || not (is_empty volume.storage_id)
    then return volume
    else raise Exn.unexpected_data_arguments

-- `DataSerializer.to_db` with the status that is set next, under the id that the insert gives.
unfoldable pub new_row : String → VolumeData → Volume
new_row id volume = record {
  id = id;
  name = volume.name;
  user_id = volume.user_id;
  format = volume.format;
  size = volume.size;
  used = none;
  status = Status.new;
  information = blank;
  path = "";
  template_id = none;
  description = volume.description;
  storage_id = volume.storage_id;
  storage_type = "";
  read_only = volume.read_only;
  attachments = [];
}

-- The exceptions that `create_volume` handles. Its row is not in the session then, so what the
-- handler writes into it is lost, and the event has no id.
unfoldable pub is_refused : Exn → Bool
is_refused Exn.volume_exists_on_storage = true
is_refused Exn.storage_unavailable = true
is_refused _ = false

unfoldable pub create_volume : Environment → CreateRequest → Run Volume
unfolding prepare_volume_data new_row is_refused check_volume_exists_on_storage get_storage_info
    insert cast add_event
create_volume env request = do
  volume ← prepare_volume_data request
  row ←
      on_error is_refused
        (λ raised.
          add_event "None" volume.user_id "create_volume" (failed_while "creating volume" raised))
        (do
          check_volume_exists_on_storage volume.name volume.storage_id
          _ ← get_storage_info env volume.storage_id
          insert (new_row env.new_id volume)
          return (new_row env.new_id volume))
  cast (cast_create row)
  add_event row.id (or_default request.user_id "") "create_volume"
      (said "Volume successfully inserted into db.")
  return row

-- the exceptions that the first block of `_create_volume` handles
unfoldable pub is_unfit : Exn → Bool
is_unfit Exn.volume_status = true
is_unfit Exn.validate_arguments = true
is_unfit Exn.storage_unavailable = true
is_unfit _ = false

-- the row as the first block of `_create_volume` leaves it
unfoldable pub placed : StorageInfo → Volume → Volume
placed storage volume = record volume {
  status = Status.creating;
  path = storage.mount_point;
  storage_type = storage.storage_type;
}

-- The checks on the storage, after the row has been changed.
unfoldable pub check_place : StorageInfo → Volume → Run (Unit {0})
unfolding placed mark save check_storage_on_availability check_available_space_on_storage is_unfit
check_place storage volume =
    on_error is_unfit (mark Status.error "create_volume" "creating volume" (placed storage volume))
      (do
        save (placed storage volume)
        check_storage_on_availability storage
        check_available_space_on_storage volume.size 0 storage)

-- the first block of `_create_volume`
unfoldable pub place : Environment → String → Volume → Run (Unit {0})
unfolding check_place get_storage_info check_volume_status mark is_unfit
place env storage_id volume = do
  storage ← get_storage_info env storage_id
  on_error is_unfit (mark Status.error "create_volume" "creating volume" volume)
      (check_volume_status volume.status (Status.new ∷ []))
  check_place storage volume

-- the second block
unfoldable pub call_create : Environment → Volume → Run (Unit {0})
unfolding mark save add_event to_domain
call_create env volume =
    on_error is_rpc_error
      (mark Status.error "create_volume" "calling the domain layer while creating volume" volume)
      (do
        await (env.domain_create (to_domain volume))
        save (record volume { status = Status.available })
        add_event volume.id volume.user_id "create_volume"
            (said "Volume successfully created in the system."))

-- `_create_volume`, on the id and the storage id of the volume that was cast
unfoldable pub create_volume_step : Environment → String → String → Run (Unit {0})
unfolding place call_create get_or_fail is_empty
create_volume_step env volume_id storage_id = do
  raise_if (is_empty volume_id) Exn.create_volume_data
  volume ← get_or_fail volume_id
  place env storage_id volume
  created ← get_or_fail volume_id
  call_create env created
