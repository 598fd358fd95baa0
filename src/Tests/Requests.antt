-- ===== src/Tests/Requests.antt =====
-- Requests on a volume that is there, and the periodic task.
use openvair_rde_linter.Base.{
  keep_if, String, ◌≡◌, ◌<◌, refl, none, some, [], ◌∷◌, string_eq, String-discrete, or_default,
  arith,
}
use openvair_rde_linter.Base.Dict
use openvair_rde_linter.Result.{Exn, ok, err}
use openvair_rde_linter.Service.Table.{find, write}
use openvair_rde_linter.Volumes.{
  Status, Attachment, Volume, volume_keyed, cast_extend, failed_while, to_domain,
}
use openvair_rde_linter.Volumes.Checks.{storage_info, is_in, is_empty_list}
use openvair_rde_linter.Volumes.Delete.{delete_volume}
use openvair_rde_linter.Volumes.Delete.Requests.{
  delete_volume-decides, delete_volume-repeated, refusal,
}
use openvair_rde_linter.Volumes.Extend.{extend_volume, extend_volume_step}
use openvair_rde_linter.Volumes.Extend.Growth.{extend_volume-grows, extend_volume_step-any_space}
use openvair_rde_linter.Volumes.Attach.{detach_loop, detach_volume}
use openvair_rde_linter.Volumes.Attach.Detached.{others, others-detach_loop, detach_volume-others}
use openvair_rde_linter.Volumes.Clone.{CloneRequest, clone_volume}
use openvair_rde_linter.Volumes.Clone.Refused.{clone_volume-refused}
use openvair_rde_linter.Volumes.Monitor.{get_storages_dict, monitoring}
use openvair_rde_linter.Volumes.Monitor.Bulk.{IsAvailable}
use openvair_rde_linter.Volumes.Monitor.Statuses.{monitoring-IsAvailable}
use openvair_rde_linter.Tests.Storage.{storage, env, disk, holding, found}

delete_volume-decides_example :
    ((delete_volume (some "v1") (holding (disk Status.extending []))).0
      ≡ err (refusal (disk Status.extending [])))
    × ((delete_volume (some "v1") (holding (disk Status.extending []))).1.casts ≡ [])
    × (find (delete_volume (some "v1") (holding (disk Status.extending []))).1.volumes "v1"
        ≡ some (record (disk Status.error []) {
          information = failed_while "deleting the volume" (refusal (disk Status.extending []));
        }))
unfolding is_in
delete_volume-decides_example =
    delete_volume-decides "v1" (holding (disk Status.extending [])) (disk Status.extending [])
      (found (disk Status.extending []))

delete_volume-repeated_example :
    ((delete_volume (some "v1") (holding (disk Status.extending []))).0 ≡ err Exn.volume_status)
    × ((u : Volume) × ((delete_volume
            (some "v1")
            (delete_volume (some "v1") (holding (disk Status.extending []))).1).0
          ≡ ok u)
        × (u.status ≡ Status.deleting))
unfolding is_in is_empty_list
delete_volume-repeated_example =
    delete_volume-repeated "v1" (holding (disk Status.extending [])) (disk Status.extending [])
      (found (disk Status.extending [])) refl refl

extend_run :
    (extend_volume (some "v1") (some 30) (holding (disk Status.available []))).0
    ≡ ok (disk Status.extending [])
unfolding extend_volume find String-discrete
extend_run = refl

extend_volume-grows_example :
    (10 < 30)
    × (Status.available ≡ Status.available)
    × (disk Status.extending [] ≡ disk Status.extending [])
    × ((extend_volume (some "v1") (some 30) (holding (disk Status.available []))).1.volumes
        ≡ write ((disk Status.available []) ∷ []) (disk Status.extending []))
    × ((extend_volume (some "v1") (some 30) (holding (disk Status.available []))).1.casts
        ≡ cast_extend (to_domain (disk Status.extending [])) 30 ∷ [])
unfolding or_default
extend_volume-grows_example =
    extend_volume-grows (some "v1") (some 30) (holding (disk Status.available []))
      (disk Status.available []) (disk Status.extending []) (found (disk Status.available []))
      extend_run

-- 1000 where the storage has 100 left
extend_volume_step-any_space_example :
    ((extend_volume_step env (disk Status.extending []) 1000 (holding (disk Status.extending []))).0
      ≡ ok tt)
    × (find
          (extend_volume_step env
            (disk Status.extending [])
            1000
            (holding (disk Status.extending []))).1.volumes
          "v1"
        ≡ some (record (disk Status.available []) { size = 1000 }))
extend_volume_step-any_space_example =
    extend_volume_step-any_space env (disk Status.extending []) (disk Status.extending []) 1000
      (holding (disk Status.extending [])) storage (found (disk Status.extending [])) refl refl tt
      (omega arith) refl

abbrev on : String → Attachment
on vm_id = record { vm_id = vm_id; user_id = none; target = none }

others-detach_loop_example :
    others "a" (detach_loop "a" (on "a" ∷ on "a" ∷ on "b" ∷ []))
    ≡ others "a" (on "a" ∷ on "a" ∷ on "b" ∷ [])
others-detach_loop_example = others-detach_loop "a" (on "a" ∷ on "a" ∷ on "b" ∷ [])

detach_volume-others_example :
    ((detach_volume (some "v1") (some "a") (holding (disk Status.error (on "a" ∷ on "b" ∷ [])))).0
      ≡ ok (disk Status.error (on "b" ∷ [])))
    × (find
          (detach_volume
            (some "v1")
            (some "a")
            (holding (disk Status.error (on "a" ∷ on "b" ∷ [])))).1.volumes
          "v1"
        ≡ some (disk Status.error (on "b" ∷ [])))
unfolding String-discrete is_in keep_if
detach_volume-others_example =
    detach_volume-others "v1" "a" (holding (disk Status.error (on "a" ∷ on "b" ∷ [])))
      (disk Status.error (on "a" ∷ on "b" ∷ [])) (found (disk Status.error (on "a" ∷ on "b" ∷ [])))
      refl (refl, (refl, tt))

-- Of two attachments of one machine, the second one stays.
detach_twice : detach_loop "a" (on "a" ∷ on "a" ∷ []) ≡ on "a" ∷ []
unfolding detach_loop String-discrete
detach_twice = refl

abbrev copy : CloneRequest
copy = record { volume_id = "v1"; target_storage_id = "s1"; name = "copy"; user_id = none }

clone_volume-refused_example :
    ((raised : Exn) × ((clone_volume env copy
          (holding (record (disk Status.available []) { size = 100 }))).0
        ≡ err raised))
    × (find
          (clone_volume env copy
            (holding (record (disk Status.available []) { size = 100 }))).1.volumes
          "v1"
        ≡ some (record (disk Status.cloning []) { size = 100 }))
unfolding String-discrete or_default
clone_volume-refused_example =
    clone_volume-refused env copy (holding (record (disk Status.available []) { size = 100 }))
      (record (disk Status.available []) { size = 100 }) storage refl
      (found (record (disk Status.available []) { size = 100 })) refl

monitoring-IsAvailable_example :
    IsAvailable (monitoring env (holding (disk Status.deleting []))).1.volumes "v1"
unfolding get_storages_dict storage_info String-discrete Dict.get to_domain
monitoring-IsAvailable_example =
    monitoring-IsAvailable env (holding (disk Status.deleting [])) "v1" (disk Status.deleting [])
      (storage_info storage)
      (record { path = "/mnt/s1"; size = some 10; used = some 3; provisioning = "thin" })
      (found (disk Status.deleting [])) (λ e. cc) refl refl refl
