-- ===== src/Tests/Storages.antt =====
-- The storage service, and both services together, on one storage.
use openvair_rde_linter.Base.{
  inl, inr, false, ◌≡◌, refl, some, [], ◌∷◌, string_eq, String-discrete, is_empty, contains,
  keep_if, not,
}
use openvair_rde_linter.Base.Dict
use openvair_rde_linter.Result.{ok}
use openvair_rde_linter.Service.{answered}
use openvair_rde_linter.Service.Table.{find, keys}
use openvair_rde_linter.Storages.{Status, storage_keyed, cast_delete, add_event}
use openvair_rde_linter.Storages.Disks.{
  is_system_partition, is_text, disk_devices, next_disk, next_child,
}
use openvair_rde_linter.Storages.Disks.Mounts.{IsSpared}
use openvair_rde_linter.Storages.Checks.{
  path_in_use, check_storage_exists_with_current_name, name_is_taken, check_spec_exists_for_storage,
  check_spec_exists_for_nfs_storage, any_clash, clashes, with_spec, has_spec, is_nil,
}
use openvair_rde_linter.Storages.Partitions.{
  delete_local_partition, check_storages_on_partition, get_storages_on_partition, names_for,
}
use openvair_rde_linter.Storages.Create.{
  create_storage, create_storage_step, new_row, prepare_specs, accept,
}
use openvair_rde_linter.Storages.Create.Outcome.{ending, row_after, create_storage_step-ending}
use openvair_rde_linter.Storages.Create.Specs.{on_partition-path_in_use}
use openvair_rde_linter.Storages.Create.Paths.{create_storage-path, delete_local_partition-safe}
use openvair_rde_linter.Storages.Delete.{delete_storage_step}
use openvair_rde_linter.Storages.Delete.Outcome.{checked, deleted, delete_storage_step-ending}
use openvair_rde_linter.Storages.Operations.{Operation, perform, here, next, step}
use openvair_rde_linter.Storages.Operations.Labels.{labels, Change}
use openvair_rde_linter.Storages.Operations.Changes.{perform-Change}
use openvair_rde_linter.Storages.Operations.Unique.{IsUnique, Reach-IsUnique}
use openvair_rde_linter.Tests.Stores.{
  share, mounted, env, spare_disk, spare_partition, holding, request, found,
}

perform-Change_example :
    Change env
      (Operation.deliver (cast_delete (share Status.deleting)))
      (labels (holding (share Status.deleting)))
      (labels (
        perform env
          (Operation.deliver (cast_delete (share Status.deleting)))
          (holding (share Status.deleting))))
perform-Change_example =
    perform-Change env (Operation.deliver (cast_delete (share Status.deleting)))
      (holding (share Status.deleting))

create_storage_step-ending_example :
    ((create_storage_step env (share Status.new) (holding (share Status.new))).0
      ≡ ending (answered mounted))
    × (find
          (create_storage_step env (share Status.new) (holding (share Status.new))).1.storages
          "s1"
        ≡ some (row_after (answered mounted) (share Status.new)))
create_storage_step-ending_example =
    create_storage_step-ending env (share Status.new) (share Status.new)
      (holding (share Status.new)) (answered mounted) (found (share Status.new)) refl refl refl

delete_storage_step-ending_example :
    ((delete_storage_step env (share Status.deleting) (holding (share Status.deleting))).0
      ≡ (deleted
          (checked env "s1" (holding (share Status.deleting)))
          (answered tt)
          (share Status.deleting)).0)
    × (find
          (delete_storage_step env
            (share Status.deleting)
            (holding (share Status.deleting))).1.storages
          "s1"
        ≡ (deleted
            (checked env "s1" (holding (share Status.deleting)))
            (answered tt)
            (share Status.deleting)).1)
delete_storage_step-ending_example =
    delete_storage_step-ending env (share Status.deleting) (share Status.deleting)
      (holding (share Status.deleting)) (found (share Status.deleting)) refl

unique : IsUnique (labels (holding (share Status.new)))
unfolding is_empty Dict.keys
unique = record { ids_differ = (refl, tt); names_differ = (refl, tt); named = (refl, tt) }

new_id_free : contains (keys (share Status.new ∷ [])) env.new_id ≡ false
unfolding String-discrete
new_id_free = refl

Reach-IsUnique_example :
    IsUnique (labels (perform env (Operation.create request) (holding (share Status.new))))
Reach-IsUnique_example =
    Reach-IsUnique (holding (share Status.new))
      (perform env (Operation.create request) (holding (share Status.new)))
      (next here (step env (Operation.create request) new_id_free)) unique

added :
    (create_storage env request (holding (share Status.available))).0
    ≡ ok (
        new_row "s2" request (
          ("ip", "10.0.0.2")
          ∷ ("path", "/srv/backups")
          ∷ ("mount_version", "4")
          ∷ ("mount_point", "")
          ∷ []))
unfolding create_storage String-discrete prepare_specs Dict.set
    check_storage_exists_with_current_name is_empty name_is_taken check_spec_exists_for_storage
    check_spec_exists_for_nfs_storage any_clash clashes with_spec has_spec is_text accept
added = refl

path_given : Dict.get request.specs "path" ≡ some "/srv/backups"
unfolding Dict.get String-discrete
path_given = refl

create_storage-path_example :
    path_in_use (holding (share Status.available)).storages "/srv/backups" ≡ false
create_storage-path_example =
    create_storage-path env request (holding (share Status.available)) "/srv/backups" _ path_given
      added

spared :
    (delete_local_partition env "/dev/sdb" "1" "u1" (holding (share Status.available))).0 ≡ ok tt
unfolding delete_local_partition is_system_partition String-discrete disk_devices keep_if is_text
    next_disk next_child check_storages_on_partition get_storages_on_partition names_for is_nil
    add_event
spared = refl

delete_local_partition-safe_example :
    IsSpared (some "/mnt/spare")
    × (path_in_use (holding (share Status.available)).storages "/dev/sdb1" ≡ false)
unfolding String-discrete
delete_local_partition-safe_example =
    delete_local_partition-safe env spare_disk spare_partition "1" "u1"
      (holding (share Status.available)) (inr (inl refl)) refl (refl, (refl, tt)) (inl refl) refl
      (refl, tt) spared

on_partition-path_in_use_example :
    is_nil (get_storages_on_partition (share Status.available ∷ []) "/srv/disks")
    ≡ not (path_in_use (share Status.available ∷ []) "/srv/disks")
on_partition-path_in_use_example =
    on_partition-path_in_use (share Status.available ∷ []) "/srv/disks"
