-- ===== src/System.antt =====
-- openvair/modules/volume and openvair/modules/storage together. Each calls the other over
-- openvair/libs/messaging: the volume service asks for a storage before it puts a volume there, and
-- the storage service asks for the volumes of a storage before it deletes it. One step is a whole method
-- of one of the two, so no call of the other service falls between the two halves of a method.
pub mod Placing
pub mod Calling
pub mod Naming
pub mod Held
use openvair_rde_linter.Base.{
  String, Option, none, some, List, map, ◌≡◌, or_default, contains, string_eq, All, Bool, true,
}
use openvair_rde_linter.Base.Dict
use openvair_rde_linter.Result.{ok}
use openvair_rde_linter.Service.{answered}
use openvair_rde_linter.Service.Table.{keys}
use openvair_rde_linter.Volumes
use openvair_rde_linter.Volumes.{Volume, StorageReply}
use openvair_rde_linter.Volumes.Operations as VolumeOperations
use openvair_rde_linter.Volumes.Queries.{get_all_volumes}
use openvair_rde_linter.Storages
use openvair_rde_linter.Storages.{Storage, Status, storage_keyed, get_storage}
use openvair_rde_linter.Storages.Operations as StorageOperations

-- the tables of both services with what they have cast
pub record World : Type 0 where
  pub volumes : Volumes.World
  pub storages : Storages.World

-- `StorageStatus(…).name`
unfoldable pub status_name : Status → String
status_name Status.new = "new"
status_name Status.creating = "creating"
status_name Status.available = "available"
status_name Status.error = "error"
status_name Status.deleting = "deleting"
status_name Status.disconnected = "disconnected"

-- `DataSerializer.to_web`, as the volume service reads it; a null `mount_point` counts as none
unfoldable pub to_web : Storage → StorageReply
unfolding status_name Dict.get_or
to_web storage = record {
  id = storage.id;
  name = storage.name;
  storage_type = storage.storage_type;
  status = status_name storage.status;
  available = some storage.available;
  mount_point = Dict.get_or storage.extra_specs "mount_point" none;
}

-- The volume service gets the answers of the storage service, or the call fails.
pub record StoragesAnswer (w : World) (env : Volumes.Environment) : Type 0 where
  pub from_storages :
      (id : String) (reply : StorageReply)
      → env.get_storage id ≡ answered reply
      → (storage : Storage) × ((get_storage id w.storages).0 ≡ ok storage)
        × (reply ≡ to_web storage)

-- The storage service gets the answers of the volume service, of which it reads the names, or the
-- call fails.
pub record VolumesAnswer (w : World) (env : Storages.Environment) : Type 0 where
  pub from_volumes :
      (id : String) (listed : List String)
      → env.get_volumes id ≡ answered listed
      → (volumes : List Volume) × ((get_all_volumes (some id) none w.volumes).0 ≡ ok volumes)
        × (listed ≡ map (λ v. v.name) volumes)

-- One method of one service, with the answers of the other at that time.
pub data Step (w : World) : World → Type 0 where
  volume_step :
      (env : Volumes.Environment) (op : VolumeOperations.Operation)
      → StoragesAnswer w env
      → Step w (record w { volumes = VolumeOperations.perform env op w.volumes })
  storage_step :
      (env : Storages.Environment) (op : StorageOperations.Operation)
      → VolumesAnswer w env
      → Step w (record w { storages = StorageOperations.perform env op w.storages })

pub data Reach (w : World) : World → Type 0 where
  here : Reach w w
  next : {v u : World} → Reach w v → Step v u → Reach w u

-- The storage of every volume is in the table of the storages.
abbrev pub IsHoused : World → Type 0
IsHoused w = All (λ v. contains (keys w.storages.storages) v.storage_id ≡ true) w.volumes.volumes
