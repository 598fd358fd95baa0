-- ===== src/Tests/Volumes.antt =====
-- Creating volumes, and steps of the service.
use openvair_rde_linter.Base.{
  String, false, ◌≡◌, ◌≢◌, refl, some, [], ◌∷◌, ◌==◌, string_eq, String-discrete, contains,
  or_default, is_empty, arith,
}
use openvair_rde_linter.Result.{Exn, ok, err}
use openvair_rde_linter.Service.Table.{find, add, Distinct}
use openvair_rde_linter.Volumes.{Status, Volume, volume_keyed, cast_create, failed_while}
use openvair_rde_linter.Volumes.Checks.{storage_info, name_is_taken}
use openvair_rde_linter.Volumes.Create.{create_volume, create_volume_step, volume_data, new_row}
use openvair_rde_linter.Volumes.Create.Outcome.{create_volume_step-error}
use openvair_rde_linter.Volumes.Create.Request.{create_volume-world, create_volume-available}
use openvair_rde_linter.Volumes.Operations.{
  ids, Operation, perform, ClonesUnderId, step, here, next,
}
use openvair_rde_linter.Volumes.Operations.Distinct.{Reach-Distinct, perform-contains}
use openvair_rde_linter.Tests.Storage.{storage, env, disk, holding, request, found}

env-ClonesUnderId : ClonesUnderId env
env-ClonesUnderId volume mount_point id clone h = cc

abbrev created : Volume
created = record (disk Status.new []) {
  id = "v2";
  name = "data";
  size = 20;
  path = "";
  storage_type = "";
}

created-run : (create_volume env request (holding (disk Status.available []))).0 ≡ ok created
unfolding create_volume volume_data new_row find String-discrete
created-run = refl

differ : (s t : String) → (s == t) ≡ false → s ≢ t
differ s t h = ground arith

Reach-Distinct_example :
    Distinct (ids (perform env (Operation.create request) (holding (disk Status.available []))))
unfolding String-discrete
Reach-Distinct_example =
    Reach-Distinct (holding (disk Status.available [])) _
      (next here (step env (Operation.create request) refl env-ClonesUnderId)) (refl, tt)

perform-contains_example :
    contains
      (ids (perform env (Operation.delete (some "v1")) (holding (disk Status.available []))))
      "v1"
    ≡ contains (ids (holding (disk Status.available []))) "v1"
unfolding String-discrete
perform-contains_example =
    perform-contains env (Operation.delete (some "v1")) (holding (disk Status.available [])) "v1"
      env-ClonesUnderId (differ "v1" "v2" refl) (λ volume e. cc)

create_volume_step-error_example :
    (raised : Exn) × (doing : String) × ((create_volume_step env "v1" "s1"
        (holding (record (disk Status.new []) { size = 100 }))).0
      ≡ err raised)
    × (find
          (create_volume_step env "v1" "s1"
            (holding (record (disk Status.new []) { size = 100 }))).1.volumes
          "v1"
        ≡ some
            (record (disk Status.error []) { size = 100; information = failed_while doing raised }))
unfolding String-discrete or_default storage_info is_empty
create_volume_step-error_example =
    create_volume_step-error env "s1" (record (disk Status.new []) { size = 100 })
      (holding (record (disk Status.new []) { size = 100 })) storage refl
      (found (record (disk Status.new []) { size = 100 })) refl refl refl

create_volume-world_example :
    ((create_volume env request (holding (disk Status.available []))).1.volumes
      ≡ add ((disk Status.available []) ∷ []) created)
    × ((create_volume env request (holding (disk Status.available []))).1.casts
        ≡ cast_create created ∷ [])
    × (created ≡ new_row "v2" (volume_data request))
    × (name_is_taken ((disk Status.available []) ∷ []) "data" "s1" ≡ false)
create_volume-world_example =
    create_volume-world env request (holding (disk Status.available [])) created created-run

create_volume-available_example :
    find
      (create_volume_step env "v2" "s1"
        (create_volume env request (holding (disk Status.available []))).1).1.volumes
      "v2"
    ≡ some (record created { status = Status.available; path = "/mnt/s1"; storage_type = "nfs" })
unfolding String-discrete or_default is_empty
create_volume-available_example =
    create_volume-available env env request (holding (disk Status.available [])) created storage
      created-run refl refl refl refl (λ v. refl)
