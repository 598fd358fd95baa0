-- ===== src/Tests/Both.antt =====
-- The volume service and the storage service together: a volume is created on a storage, which is then
-- asked to go.
use openvair_rde_linter.Base.{String, ◌≡◌, refl, some, none, List, [], map, string_eq}
use openvair_rde_linter.Result.{Result, ok, err}
use openvair_rde_linter.Service.{Reply, answered, call_failed}
use openvair_rde_linter.Volumes
use openvair_rde_linter.Volumes.{Volume, StorageReply}
use openvair_rde_linter.Volumes.Operations as VolumeOperations
use openvair_rde_linter.Volumes.Queries.{get_all_volumes}
use openvair_rde_linter.Storages
use openvair_rde_linter.Storages.{Storage, Status, storage_keyed, get_storage, cast_delete}
use openvair_rde_linter.Storages.Operations as StorageOperations
use openvair_rde_linter.System.{
  World, to_web, StoragesAnswer, VolumesAnswer, volume_step, storage_step, here, next, IsHoused,
}
use openvair_rde_linter.System.Held.{Reach-IsHoused}
use openvair_rde_linter.Tests.Storage as Disks
use openvair_rde_linter.Tests.Stores as Stores

-- A call that raises in the other service fails.
abbrev storage_reply : Result Storage → Reply StorageReply
storage_reply (ok storage) = answered (to_web storage)
storage_reply (err _) = call_failed

abbrev volumes_reply : Result (List Volume) → Reply (List String)
volumes_reply (ok volumes) = answered (map (λ v. v.name) volumes)
volumes_reply (err _) = call_failed

storage_reply_lem :
    (r : Result Storage) (reply : StorageReply)
    → storage_reply r ≡ answered reply
    → (storage : Storage) × (r ≡ ok storage) × (reply ≡ to_web storage)
storage_reply_lem (ok s) reply h = (s, refl, cc)
storage_reply_lem (err e) reply h = cc

volumes_reply_lem :
    (r : Result (List Volume)) (listed : List String)
    → volumes_reply r ≡ answered listed
    → (volumes : List Volume) × (r ≡ ok volumes) × (listed ≡ map (λ v. v.name) volumes)
volumes_reply_lem (ok vs) listed h = (vs, refl, cc)
volumes_reply_lem (err e) listed h = cc

abbrev volume_env : World → Volumes.Environment
volume_env w = record Disks.env { get_storage = λ id. storage_reply (get_storage id w.storages).0 }

abbrev storage_env : World → Storages.Environment
storage_env w = record Stores.env {
  get_volumes = λ id. volumes_reply (get_all_volumes (some id) none w.volumes).0;
}

storages_answer : (w : World) → StoragesAnswer w (volume_env w)
storages_answer w = record {
  from_storages = λ id reply h. storage_reply_lem (get_storage id w.storages).0 reply h;
}

volumes_answer : (w : World) → VolumesAnswer w (storage_env w)
volumes_answer w = record {
  from_volumes =
      λ id listed h. volumes_reply_lem (get_all_volumes (some id) none w.volumes).0 listed h;
}

-- one storage, and no volume yet
abbrev empty_world : World
empty_world = record {
  volumes = record { volumes = []; casts = []; events = [] };
  storages = Stores.holding (Stores.share Status.available);
}

abbrev create_disk : VolumeOperations.Operation
create_disk = VolumeOperations.Operation.create Disks.request

abbrev delete_share : StorageOperations.Operation
delete_share = StorageOperations.Operation.deliver (cast_delete (Stores.share Status.deleting))

abbrev with_disk : World
with_disk = record empty_world {
  volumes = VolumeOperations.perform (volume_env empty_world) create_disk empty_world.volumes;
}

abbrev after_delete : World
after_delete = record with_disk {
  storages = StorageOperations.perform (storage_env with_disk) delete_share with_disk.storages;
}

Reach-IsHoused_example : IsHoused after_delete
Reach-IsHoused_example =
    Reach-IsHoused empty_world after_delete
      (next
        (next here (volume_step (volume_env empty_world) create_disk (storages_answer empty_world)))
        (storage_step (storage_env with_disk) delete_share (volumes_answer with_disk)))
      tt
