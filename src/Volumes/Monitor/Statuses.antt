-- ===== src/Volumes/Monitor/Statuses.antt =====
-- openvair/modules/volume/service_layer/services.py: the statuses after the periodic task.
use openvair_rde_linter.Base.{
  String, true, false, ◌≡◌, refl, sym, ◌∙◌, subst, some, List, [], ◌∷◌, map, arith, contains, All,
  inr, ◌≢◌, string_eq,
}
use openvair_rde_linter.Base.Dict
use openvair_rde_linter.Base.Dict.{Dict}
use openvair_rde_linter.Result.{ok}
use openvair_rde_linter.Service.{answered}
use openvair_rde_linter.Service.Table.{find, keys, Distinct}
use openvair_rde_linter.Volumes.{
  Status, Status-discrete, Volume, volume_keyed, StorageInfo, VolumeInfo, World, Environment,
  to_domain,
}
use openvair_rde_linter.Volumes.Checks.{check_storage_on_availability, check_volume_status, is_in}
use openvair_rde_linter.Volumes.Monitor.{
  Update, update_of, find_storage, process_single_volume, process_volumes, get_storages_dict,
  monitoring, monitoring_statuses,
}
use openvair_rde_linter.Volumes.Monitor.Bulk.{
  targets, IsAvailable, bulk_update-untargeted, bulk_update-available,
}

-- An update of a volume in a status that is monitored has its id.
process_single_volume-id :
    (env : Environment) (storages : Dict StorageInfo) (volume : Volume) (w : World) (u : Update)
    → (process_single_volume env storages volume w).0 ≡ ok u
    → (u.id ≡ volume.id) × (u.status ≡ Status.available) × (volume.status ≢ Status.new)
unfolding process_single_volume update_of find_storage check_storage_on_availability
    check_volume_status is_in Status-discrete
process_single_volume-id env storages volume w u h = ground arith

-- the updates that the loop gives: all to `available`, and none for an id whose volumes are new
process_volumes-available :
    (env : Environment) (storages : Dict StorageInfo) (volumes : List Volume) (w : World)
    → All (λ (u : Update). u.status ≡ Status.available) (process_volumes env storages volumes w)
unfolding process_volumes
process_volumes-available env storages [] w = tt
process_volumes-available env storages (v ∷ volumes) w = ground (
  arith,
  process_volumes-available env storages volumes w,
  process_single_volume-id env storages v w,
)

process_volumes-new :
    (env : Environment) (storages : Dict StorageInfo) (volumes : List Volume) (w : World)
    (id : String)
    → All (λ (v : Volume). v.id ≡ id → v.status ≡ Status.new) volumes
    → contains (targets (process_volumes env storages volumes w)) id ≡ false
unfolding process_volumes
process_volumes-new env storages [] w id h = refl
process_volumes-new env storages (v ∷ volumes) w id h =
    let ih = process_volumes-new env storages volumes w id h.1 in
    ground (arith, ih, process_single_volume-id env storages v w)

new_absent :
    (volumes : List Volume) (id : String)
    → contains (keys volumes) id ≡ false
    → All (λ (v : Volume). v.id ≡ id → v.status ≡ Status.new) (map to_domain volumes)
unfolding to_domain
new_absent [] id h = tt
new_absent (v ∷ volumes) id h = ((λ same. ground arith), new_absent volumes id (ground arith))

new_found :
    (volumes : List Volume) (id : String) (v : Volume)
    → Distinct (keys volumes)
    → find volumes id ≡ some v
    → v.status ≡ Status.new
    → All (λ (v : Volume). v.id ≡ id → v.status ≡ Status.new) (map to_domain volumes)
unfolding find to_domain
new_found [] id v d h new = tt
new_found (r ∷ volumes) id v d h new = elim (string_eq.dec id r.id) [
  | yes same ↦ (
    (λ _. ground arith),
    new_absent volumes id (subst (λ i. contains (keys volumes) i ≡ false) (sym same) d.0),
  )
  | no differ ↦
      ((λ same. absurd (differ (sym same))), new_found volumes id v d.1 (ground arith) new)
]

-- The periodic task leaves a volume whose status is `new` as it is, when no two volumes have the
-- same id.
pub monitoring-new :
    (env : Environment) (w : World) (id : String) (v : Volume)
    → Distinct (keys w.volumes)
    → find w.volumes id ≡ some v
    → v.status ≡ Status.new
    → find (monitoring env w).1.volumes id ≡ some v
unfolding monitoring
monitoring-new env w id v d h new =
    bulk_update-untargeted (process_volumes env (get_storages_dict env) (map to_domain w.volumes) w)
      w.volumes id
      (process_volumes-new env (get_storages_dict env) (map to_domain w.volumes) w id
        (new_found w.volumes id v d h new))
    ∙ h

monitored : (s : Status) → s ≢ Status.new → is_in s monitoring_statuses ≡ true
unfolding is_in Status-discrete
monitored Status.new h = absurd (h refl)
monitored Status.creating h = refl
monitored Status.available h = refl
monitored Status.error h = refl
monitored Status.deleting h = refl
monitored Status.extending h = refl
monitored Status.cloning h = refl

process_single_volume-answered :
    (env : Environment) (storages : Dict StorageInfo) (v : Volume) (w : World)
    (storage : StorageInfo) (info : VolumeInfo)
    → v.status ≢ Status.new
    → Dict.get storages v.storage_id ≡ some storage
    → storage.status ≡ "available"
    → env.domain_attach_info v ≡ answered info
    → (process_single_volume env storages v w).0 ≡ ok (update_of v info)
unfolding process_single_volume find_storage check_storage_on_availability check_volume_status
process_single_volume-answered env storages v w storage info old there up answer =
    ground (arith, monitored v.status old)

process_volumes-targeted :
    (env : Environment) (storages : Dict StorageInfo) (volumes : List Volume) (w : World)
    (id : String) (v : Volume) (u : Update)
    → find volumes id ≡ some v
    → (process_single_volume env storages (to_domain v) w).0 ≡ ok u
    → contains (targets (process_volumes env storages (map to_domain volumes) w)) id ≡ true
unfolding process_volumes find to_domain
process_volumes-targeted env storages [] w id v u h done = cc
process_volumes-targeted env storages (r ∷ volumes) w id v u h done =
    let ih = process_volumes-targeted env storages volumes w id v u in
    ground (arith, ih, process_single_volume-id env storages (to_domain r) w u)

-- The periodic task makes every volume `available` whose status is not `new`, one that is being
-- deleted, extended or cloned as well as one in `error`, once its storage is listed as available
-- and the domain layer says how large it is.
pub monitoring-IsAvailable :
    (env : Environment) (w : World) (id : String) (v : Volume) (storage : StorageInfo)
    (info : VolumeInfo)
    → find w.volumes id ≡ some v
    → v.status ≢ Status.new
    → Dict.get (get_storages_dict env) v.storage_id ≡ some storage
    → storage.status ≡ "available"
    → env.domain_attach_info (to_domain v) ≡ answered info
    → IsAvailable (monitoring env w).1.volumes id
unfolding monitoring to_domain
monitoring-IsAvailable env w id v storage info h old there up answer =
    let storages = get_storages_dict env in
    let done =
      process_single_volume-answered env storages (to_domain v) w storage info old there up
        answer in
    bulk_update-available (process_volumes env storages (map to_domain w.volumes) w) w.volumes id v
      (process_volumes-available env storages (map to_domain w.volumes) w) h
      (inr (process_volumes-targeted env storages w.volumes w id v _ h done))
