-- ===== src/Volumes/Monitor.antt =====
-- openvair/modules/volume/service_layer/services.py: the periodic task `monitoring`.
pub mod Bulk
pub mod Statuses
use openvair_rde_linter.Base.{
  ℕ, String, Bool, true, false, not, Option, none, some, List, [], ◌∷◌, map, ◌==◌, string_eq,
  or_default, if◌then◌else◌,
}
use openvair_rde_linter.Base.Dict
use openvair_rde_linter.Base.Dict.{Dict}
use openvair_rde_linter.Result.{Exn, Result, ok, err}
use openvair_rde_linter.Service.{
  Reply, answered, call_failed, timed_out, return, raise, await, gets, modify, ◌>>=◌, ◌>>◌,
}
use openvair_rde_linter.Service.Table.{find, write}
use openvair_rde_linter.Volumes.{
  Status, Message, blank, Volume, volume_keyed, StorageInfo, StorageReply, VolumeInfo, World,
  Environment, Run, to_domain,
}
use openvair_rde_linter.Volumes.Checks.{
  storage_info, check_storage_on_availability, check_volume_status,
}

-- the dict that goes into the bulk update
pub record Update : Type 0 where
  pub id : String
  pub size : ℕ
  pub used : ℕ
  pub status : Status
  pub information : Message

-- `_get_all_storages_info`, where a failed call counts as no storages
unfoldable pub get_all_storages_info : Environment → List StorageInfo
unfolding storage_info
get_all_storages_info env = elim env.get_all_storages [
  | answered storages ↦ map storage_info storages
  | call_failed ↦ []
  | timed_out ↦ []
]

storages_from : List StorageInfo → Dict StorageInfo → Dict StorageInfo
unfolding Dict.set
storages_from [] d = d
storages_from (s ∷ storages) d = storages_from storages (Dict.set d s.id s)

unfoldable pub get_storages_dict : Environment → Dict StorageInfo
unfolding storages_from get_all_storages_info
get_storages_dict env = storages_from (get_all_storages_info env) []

-- every status but `new`
abbrev pub monitoring_statuses : List Status
monitoring_statuses =
    Status.creating ∷ Status.available ∷ Status.error ∷ Status.deleting ∷ Status.extending
    ∷ Status.cloning ∷ []

unfoldable pub update_of : Volume → VolumeInfo → Update
unfolding or_default
update_of volume result = record {
  id = volume.id;
  size = or_default result.size volume.size;
  used = or_default result.used 0;
  status = Status.available;
  information = blank;
}

unfoldable pub find_storage : Dict StorageInfo → String → Run StorageInfo
unfolding Dict.get
find_storage storages storage_id = elim (Dict.get storages storage_id) [
  | none ↦ raise Exn.volume_has_not_storage
  | some storage ↦ return storage
]

unfoldable pub process_single_volume : Environment → Dict StorageInfo → Volume → Run Update
unfolding find_storage check_storage_on_availability check_volume_status update_of
process_single_volume env storages volume = do
  storage ← find_storage storages volume.storage_id
  check_storage_on_availability storage
  check_volume_status volume.status monitoring_statuses
  result ← await (env.domain_attach_info volume)
  return (update_of volume result)

-- The loop of `_process_volumes`. The exceptions of a single volume are all logged, and it goes on.
unfoldable pub process_volumes : Environment → Dict StorageInfo → List Volume → World → List Update
unfolding process_single_volume
process_volumes env storages [] w = []
process_volumes env storages (volume ∷ volumes) w =
    let rest = process_volumes env storages volumes w in
    elim ((process_single_volume env storages volume w).0) [
      | ok update ↦ update ∷ rest
      | err _ ↦ rest
    ]

unfoldable pub updated : Update → Volume → Volume
updated update volume = record volume {
  size = update.size;
  used = some update.used;
  status = update.status;
  information = update.information;
}

-- `bulk_update`, row by row by primary key
unfoldable pub bulk_update : List Update → List Volume → List Volume
unfolding find write updated
bulk_update [] volumes = volumes
bulk_update (update ∷ updates) volumes = elim (find volumes update.id) [
  | none ↦ bulk_update updates volumes
  | some volume ↦ bulk_update updates (write volumes (updated update volume))
]

unfoldable pub monitoring : Environment → Run (Unit {0})
unfolding process_volumes get_storages_dict bulk_update to_domain
monitoring env w = (
  ok tt,
  record w {
    volumes =
        bulk_update (process_volumes env (get_storages_dict env) (map to_domain w.volumes) w)
          w.volumes;
  },
)
