-- ===== src/Storages/Create/Paths.antt =====
-- openvair/modules/storage/service_layer/services.py: the paths of the storages, which the checks of
-- `create_storage` and of `delete_local_partition` look for in loops of their own.
use openvair_rde_linter.Base.{
  String, ◌<>◌, false, ◌≡◌, refl, sym, subst, ◌∙◌, none, some, [], ◌∷◌, ◌==◌, String-discrete,
  string_eq, arith,
}
use openvair_rde_linter.Base.Dict
use openvair_rde_linter.Base.Dict.{Dict}
use openvair_rde_linter.Result.{Exn, ok}
use openvair_rde_linter.Service.{return, gets, raise_if, ◌>>=◌, ◌>>◌}
use openvair_rde_linter.Service.Gives.{
  Gives, Any, reads-Gives, return-Gives, raise-Gives, gets-Known, raise_if-Gives, gets-Any,
  raise_if-Any, bind-Gives, then-Gives, weaken-Gives, if-Gives,
}
use openvair_rde_linter.Service.Ends.{Ends, bind-Ends, Ends-ok}
use openvair_rde_linter.Storages.{Storage, World, Environment, Run, insert, cast, add_event}
use openvair_rde_linter.Service.Table.{Distinct}
use openvair_rde_linter.Storages.Disks.{Child, BlockDevice, children_of}
use openvair_rde_linter.Storages.Disks.Mounts.{
  Among, IsSpared, device_names, child_names, is_system_partition-IsSpared,
}
use openvair_rde_linter.Storages.Checks.{
  any_clash, path_in_use, check_spec_exists_for_nfs_storage, check_specs_localfs_storage,
  check_spec_exists_for_storage, check_storage_exists_with_current_name, check_device, check_found,
  check_partition, get_local_disks,
}
use openvair_rde_linter.Storages.Create.{
  CreateRequest, prepare_specs, new_row, accept, create_storage,
}
use openvair_rde_linter.Storages.Partitions.{check_storages_on_partition, delete_local_partition}
use openvair_rde_linter.Storages.Create.Specs.{on_partition-path_in_use, unclashed-path_in_use}

localfs-Gives :
    (w : World) (specs : Dict String) (path : String)
    → Dict.get specs "path" ≡ some path
    → Gives
        (λ v. v ≡ w)
        (check_specs_localfs_storage specs)
        (λ _. path_in_use w.storages path ≡ false)
unfolding check_specs_localfs_storage
localfs-Gives w specs path h =
    subst
      (λ found.
        Gives (λ v. v ≡ w)
          (elim found as (λ _. Run (Unit {0})) [
            | none ↦ return tt
            | some path ↦
                gets (λ v. path_in_use v.storages path) >>= λ used. raise_if used Exn.storage_exists
          ])
          (λ _. path_in_use w.storages path ≡ false))
      (sym h)
      (bind-Gives (gets-Known (λ v. path_in_use v.storages path)) (λ used is.
        weaken-Gives (λ _ free. sym is ∙ free) (raise_if-Gives used Exn.storage_exists)))

-- The check on the specs reads the state, and passes only if no storage has the path.
check_spec-Gives :
    (w : World) (specs : Dict String) (storage_type path : String)
    → Dict.get specs "path" ≡ some path
    → Gives
        (λ v. v ≡ w)
        (check_spec_exists_for_storage specs storage_type)
        (λ _. path_in_use w.storages path ≡ false)
unfolding check_spec_exists_for_storage check_spec_exists_for_nfs_storage
    check_specs_localfs_storage Dict.get
check_spec-Gives w [] storage_type path h = cc
check_spec-Gives w (spec ∷ specs) storage_type path h =
    if-Gives (storage_type == "nfs")
      (bind-Gives (gets-Known (λ v. any_clash v.storages (spec ∷ specs) (spec ∷ specs)))
        (λ found is.
          weaken-Gives
            (λ _ free. unclashed-path_in_use w.storages (spec ∷ specs) path h (sym is ∙ free))
            (raise_if-Gives found Exn.storage_exists)))
      (if-Gives (storage_type == "localfs") (localfs-Gives w (spec ∷ specs) path h)
        (raise-Gives Exn.value_error))

check_device-state :
    (env : Environment) (path : String) (w : World) → (check_device env path w).1 ≡ w
unfolding check_device check_found check_partition get_local_disks
check_device-state env path w = ground arith

path_differs :
    (◌==◌ {A = String} "path" "mount_point" ≡ false) × (◌==◌ {A = String} "path" "fs_uuid" ≡ false)
unfolding String-discrete
path_differs = (refl, refl)

-- The check on the device reads the state, and the path is in the specs still.
prepare_specs-Gives :
    (w : World) (env : Environment) (request : CreateRequest) (path : String)
    → Dict.get request.specs "path" ≡ some path
    → Gives (λ v. v ≡ w) (prepare_specs env request) (λ specs. Dict.get specs "path" ≡ some path)
unfolding prepare_specs
prepare_specs-Gives w env request path h =
    if-Gives (request.storage_type == "localfs")
      (then-Gives (reads-Gives (check_device-state env (Dict.get_or request.specs "path" ""))) (λ _.
        return-Gives (Dict.set (Dict.set request.specs "fs_uuid" "") "mount_point" "") (
          ground (
            arith,
            path_differs,
            Dict.get-set (Dict.set request.specs "fs_uuid" "") "mount_point" "path" "",
            Dict.get-set request.specs "fs_uuid" "path" "",
          ))))
      (if-Gives (request.storage_type == "nfs")
        (return-Gives (Dict.set request.specs "mount_point" "")
          (ground (arith, path_differs, Dict.get-set request.specs "mount_point" "path" "")))
        (raise-Gives Exn.value_error))

check_name-Gives :
    (w : World) (name : String)
    → Gives (λ v. v ≡ w) (check_storage_exists_with_current_name name) Any
unfolding check_storage_exists_with_current_name
check_name-Gives w name = search (then-Gives, gets-Any, raise_if-Any)

create_storage-Ends :
    (w : World) (env : Environment) (request : CreateRequest) (path : String)
    → Dict.get request.specs "path" ≡ some path
    → Ends (λ v. v ≡ w) (create_storage env request) (λ _. path_in_use w.storages path ≡ false)
unfolding create_storage accept insert cast add_event
create_storage-Ends w env request path h =
    bind-Ends
      {f = λ specs.
        check_storage_exists_with_current_name request.name
        >> (check_spec_exists_for_storage specs request.storage_type
            >> accept request (new_row env.new_id request specs))}
      (prepare_specs-Gives w env request path h)
      (λ specs there.
        bind-Ends
          {f = λ _.
            check_spec_exists_for_storage specs request.storage_type
            >> accept request (new_row env.new_id request specs)}
          (check_name-Gives w request.name)
          (λ _ _.
            bind-Ends {f = λ _. accept request (new_row env.new_id request specs)}
              (check_spec-Gives w specs request.storage_type path there)
              (λ _ free. record { ended = λ v same. free })))

-- A request to create a storage, of either type, that names a path returns only if no storage has
-- that path among its specs.
pub create_storage-path :
    (env : Environment) (request : CreateRequest) (w : World) (path : String) (row : Storage)
    → Dict.get request.specs "path" ≡ some path
    → (create_storage env request w).0 ≡ ok row
    → path_in_use w.storages path ≡ false
create_storage-path env request w path row h returned =
    Ends-ok row (create_storage-Ends w env request path h) refl returned

-- Where `lsblk` lists a disk, and below it a partition whose name is that of the disk with the number
-- behind it, and the names of the block devices differ and those of the disk's partitions too: a
-- request to delete the partition returns only if it is not mounted in one of the directories of
-- `SYSTEM_MOUNTPOINTS` and no storage has its path among its specs.
pub delete_local_partition-safe :
    (env : Environment) (disk : BlockDevice) (part : Child) (part_num user_id : String) (w : World)
    → Among disk env.block_devices
    → disk.type ≡ some "disk"
    → Distinct (device_names env.block_devices)
    → Among part (children_of disk)
    → part.name ≡ disk.name <> part_num
    → Distinct (child_names (children_of disk))
    → (delete_local_partition env disk.name part_num user_id w).0 ≡ ok tt
    → IsSpared part.mountpoint × (path_in_use w.storages part.name ≡ false)
unfolding delete_local_partition check_storages_on_partition
delete_local_partition-safe env disk part part_num user_id w listed typed disks below named parts
      returned =
    (
      is_system_partition-IsSpared env.block_devices disk part part_num listed typed disks below
          named parts (ground arith),
      ground (arith, on_partition-path_in_use w.storages (disk.name <> part_num)),
    )
