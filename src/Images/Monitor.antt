-- ===== src/Images/Monitor.antt =====
-- openvair/modules/image/service_layer/services.py: the periodic task `monitoring`.
pub mod Unlisted
use openvair_rde_linter.Base.{
  ℕ, String, Bool, true, false, not, Option, none, some, List, [], ◌∷◌, map, string_eq, or_default,
  if◌then◌else◌,
}
use openvair_rde_linter.Base.Dict
use openvair_rde_linter.Base.Dict.{Dict}
use openvair_rde_linter.Result.{Exn}
use openvair_rde_linter.Service.{
  answered, call_failed, timed_out, return, raise, raise_if, modify, gets, await, catch, ◌>>=◌,
  ◌>>◌,
}
use openvair_rde_linter.Service.Table.{find, write}
use openvair_rde_linter.Volumes.{Message, blank, failed_while, StorageInfo}
use openvair_rde_linter.Volumes.Checks.{storage_info}
use openvair_rde_linter.Images.{
  Status, Image, image_keyed, Environment, Run, to_domain, is_in, check_storage_on_availability,
}

-- a dict of the bulk update, with `none` for a size that it does not have
pub record Update : Type 0 where
  pub id : String
  pub size : Option ℕ
  pub status : Status
  pub information : Message

unfoldable pub updated : Update → Image → Image
unfolding or_default
updated update image = record image {
  size = or_default update.size image.size;
  status = update.status;
  information = update.information;
}

-- `bulk_update`, row by row by primary key
unfoldable pub bulk_update : List Update → List Image → List Image
unfolding find write updated
bulk_update [] images = images
bulk_update (update ∷ updates) images = elim (find images update.id) [
  | none ↦ bulk_update updates images
  | some image ↦ bulk_update updates (write images (updated update image))
]

-- `_get_all_storages_info`, where a failed call counts as no storages
unfoldable pub get_all_storages_info : Environment → List StorageInfo
unfolding storage_info
get_all_storages_info env = elim env.get_all_storages [
  | answered storages ↦ map storage_info storages
  | call_failed ↦ []
  | timed_out ↦ []
]

storages_by_id : List StorageInfo → Dict StorageInfo → Dict StorageInfo
unfolding Dict.set
storages_by_id [] d = d
storages_by_id (s ∷ storages) d = storages_by_id storages (Dict.set d s.id s)

unfoldable pub get_available_storages : Environment → Dict StorageInfo
unfolding storages_by_id get_all_storages_info
get_available_storages env = storages_by_id (get_all_storages_info env) []

-- `storages[storage_id]`: a storage that is not listed is a `KeyError`, which no handler takes. The
-- test after it is never true of a tuple that is not empty.
unfoldable pub get_image_storage : Dict StorageInfo → Image → Run StorageInfo
unfolding Dict.get
get_image_storage storages image = elim (Dict.get storages image.storage_id) [
  | none ↦ raise (Exn.key_error image.storage_id)
  | some storage ↦ return storage
]

unfoldable pub check_image_on_availability : Environment → Image → Run (Unit {0})
check_image_on_availability env image =
    raise_if (not (env.path_exists image.path)) Exn.image_unavailable

unfoldable pub update_image_info : Environment → Image → Run Update
unfolding or_default
update_image_info env image = do
  size ← await (env.domain_attach_info image)
  return (record {
    id = image.id;
    size = some (or_default size image.size);
    status = Status.available;
    information = blank;
  })

-- the exceptions that the loop handles
unfoldable pub is_monitoring_error : Exn → Bool
is_monitoring_error Exn.storage_unavailable = true
is_monitoring_error Exn.image_unavailable = true
is_monitoring_error Exn.rpc_call = true
is_monitoring_error Exn.rpc_call_timeout = true
is_monitoring_error _ = false

-- `_get_monitoring_error_message`
unfoldable pub get_monitoring_error_message : Exn → Message
get_monitoring_error_message Exn.rpc_call = failed_while "calling the domain layer" Exn.rpc_call
get_monitoring_error_message Exn.rpc_call_timeout =
    failed_while "calling the domain layer" Exn.rpc_call_timeout
get_monitoring_error_message Exn.storage_unavailable =
    failed_while "accessing the storage" Exn.storage_unavailable
get_monitoring_error_message raised = failed_while "" raised

-- `_update_image_status_on_error`, which commits at once
unfoldable pub update_image_status_on_error : Image → Exn → Run (Option Update)
unfolding bulk_update get_monitoring_error_message
update_image_status_on_error image raised = do
  modify (λ w. record w {
    images =
        bulk_update
          (record {
            id = image.id;
            size = none;
            status = Status.error;
            information = get_monitoring_error_message raised;
          }
            ∷ [])
          w.images;
  })
  return none

-- one round of the loop
unfoldable pub monitor_image : Environment → Dict StorageInfo → Image → Run (Option Update)
unfolding is_in get_image_storage check_storage_on_availability check_image_on_availability
    update_image_info update_image_status_on_error is_monitoring_error
monitor_image env storages image =
    if is_in image.status (Status.available ∷ Status.error ∷ [])
    then catch is_monitoring_error (update_image_status_on_error image) (do
      storage ← get_image_storage storages image
      check_storage_on_availability storage
      check_image_on_availability env image
      update ← update_image_info env image
      return (some update))
    else return none

abbrev pub with_update : Option Update → List Update → List Update
with_update none updates = updates
with_update (some update) updates = update ∷ updates

unfoldable pub monitor_images : Environment → Dict StorageInfo → List Image → Run (List Update)
unfolding monitor_image
monitor_images env storages [] = return []
monitor_images env storages (image ∷ images) = do
  update ← monitor_image env storages image
  updates ← monitor_images env storages images
  return (with_update update updates)

unfoldable pub monitoring : Environment → Run (Unit {0})
unfolding monitor_images get_available_storages bulk_update to_domain
monitoring env = do
  images ← gets (λ w. map to_domain w.images)
  updates ← monitor_images env (get_available_storages env) images
  modify (λ w. record w { images = bulk_update updates w.images })
