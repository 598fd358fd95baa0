-- ===== src/Storages/Partitions.antt =====
-- openvair/modules/storage/service_layer/services.py: the partitions of the local disks.
use openvair_rde_linter.Base.{
  ℕ, String, ◌<>◌, Bool, false, not, ◌&&◌, ◌||◌, Option, List, [], ◌∷◌, ◌++◌, ◌==◌, string_eq,
  if◌then◌else◌,
}
use openvair_rde_linter.Base.Dict.{Dict}
use openvair_rde_linter.Result.{Exn, Result, ok, err}
use openvair_rde_linter.Service.{return, raise_if, gets, await, ◌>>=◌, ◌>>◌}
use openvair_rde_linter.Volumes.{said}
use openvair_rde_linter.Storages.{Storage, Environment, Run, add_event}
use openvair_rde_linter.Storages.Disks.{Disk, is_text, get_system_disks, is_system_partition}
use openvair_rde_linter.Storages.Checks.{lift, is_nil}

unfoldable pub has_path : List Disk → String → Bool
has_path [] path = false
has_path (disk ∷ disks) path = disk.path == path || has_path disks path

-- `next(filter(…))` over the partitions: none is `StopIteration`.
unfoldable pub next_partition : List Disk → String → Result Disk
next_partition [] path = err Exn.stop_iteration
next_partition (part ∷ parts) path =
    if part.path == path then ok part else next_partition parts path

-- The second listing of `lsblk` is the argument `parts`. The name of a partition is its path.
unfoldable pub create_local_partition :
    Environment → List Disk → String → ℕ → String → String → Run Disk
unfolding has_path get_system_disks next_partition add_event
create_local_partition env parts local_disk_path size_value size_unit user_id = do
  raise_if (not (has_path (get_system_disks env.block_devices) local_disk_path)) Exn.storage_exists
  new_part_num ← await (env.domain_create_partition local_disk_path size_value size_unit)
  new_part ← lift (next_partition parts (local_disk_path <> new_part_num))
  add_event "" user_id "create_local_partition"
      (said ("Partition " <> new_part.path <> " was created on disk " <> local_disk_path))
  return new_part

unfoldable pub get_local_disk_partitions_info : Environment → Option String → Run String
get_local_disk_partitions_info env disk_path = await (env.domain_partitions_info disk_path)

-- the inner loop: the name once for each spec that is the path
unfoldable pub names_for : String → String → Dict (Option String) → List String
unfolding is_text
names_for name path [] = []
names_for name path ((key, value) ∷ specs) =
    let rest = names_for name path specs in
    if key == "path" && is_text value path then name ∷ rest else rest

unfoldable pub get_storages_on_partition : List Storage → String → List String
unfolding names_for
get_storages_on_partition [] path = []
get_storages_on_partition (s ∷ storages) path =
    names_for s.name path s.extra_specs ++ get_storages_on_partition storages path

unfoldable pub check_storages_on_partition : String → String → Run (Unit {0})
unfolding get_storages_on_partition is_nil
check_storages_on_partition disk_path part_num = do
  names ← gets (λ w. get_storages_on_partition w.storages (disk_path <> part_num))
  raise_if (not (is_nil names)) Exn.partition_has_storage

-- The partition number has been popped when the event asks for it.
unfoldable pub delete_local_partition : Environment → String → String → String → Run (Unit {0})
unfolding is_system_partition check_storages_on_partition add_event
delete_local_partition env disk_path part_num user_id = do
  is_system ← lift (is_system_partition env.block_devices disk_path part_num)
  raise_if is_system Exn.delete_system_partition
  check_storages_on_partition disk_path part_num
  await (env.domain_delete_partition disk_path part_num)
  add_event "" user_id "delete_local_partition"
      (said ("Partition " <> part_num <> " was deleted from disk " <> disk_path))
