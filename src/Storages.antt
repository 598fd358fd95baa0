-- ===== src/Storages.antt =====
-- openvair/modules/storage/service_layer/services.py: the state of `StorageServiceLayerManager`, the
-- other services as it sees them, and the steps that its methods share. The messages are those that
-- entrypoints/crud.py sends.
pub mod Disks
pub mod Checks
pub mod Partitions
pub mod Create
pub mod Delete
pub mod Monitor
pub mod Operations
use openvair_rde_linter.Base.{
  ℕ, String, Bool, Option, none, some, List, [], ◌∷◌, ◌++◌, is_empty, string_eq, if◌then◌else◌,
}
use openvair_rde_linter.Base.Dict
use openvair_rde_linter.Base.Dict.{Dict}
use openvair_rde_linter.Result.{Exn, Result, ok, err}
use openvair_rde_linter.Service.{Reply, raise, modify, gets, ◌>>=◌, ◌>>◌}
use openvair_rde_linter.Service.Table.{Keyed, find, write, add, remove}
use openvair_rde_linter.Volumes.{Message, Event}
use openvair_rde_linter.Storages.Disks.{BlockDevice}

-- `StorageStatus`
pub data Status : Type 0 where
  new creating available error deleting disconnected : Status

unfoldable pub Status-discrete : Discrete Status
Status-discrete = hlevel

-- a row of the table `storages` with its extra specs, whose values may be null
pub record Storage : Type 0 where
  pub id : String
  pub name : String
  pub description : String
  pub storage_type : String
  pub initialized : Bool
  pub status : Status
  pub information : Message
  pub size : ℕ
  pub available : ℕ
  pub user_id : String
  pub extra_specs : Dict (Option String)

instance abbrev pub storage_keyed : Keyed Storage
storage_keyed = record { key = λ s. s.id }

-- a method that the service casts to itself, with the storage as it was serialized
pub data Cast : Type 0 where
  cast_create : Storage → Cast
  cast_delete : Storage → Cast

-- the database, what has been cast, and the event store
pub record World : Type 0 where
  pub storages : List Storage
  pub casts : List Cast
  pub events : List Event

-- what the domain layer answers to `create`
pub record Created : Type 0 where
  pub size : ℕ
  pub available : ℕ
  pub mount_point : Option String
  pub fs_uuid : Option String

-- what it answers to `do_setup`, with `none` for what is missing or empty
pub record SetUp : Type 0 where
  pub id : String
  pub size : Option ℕ
  pub available : Option ℕ
  pub initialized : Option Bool
  pub mount_point : Option String
  pub path : Option String

-- a template, as the template service lists it
pub record TemplateReply : Type 0 where
  pub name : String
  pub storage_id : String

-- What the other services answer during one call of a method, what `lsblk` prints, and the id of a
-- new row. `domain_do_setup` answers `none` with an empty dict.
pub record Environment : Type 0 where
  pub new_id : String
  pub block_devices : List BlockDevice
  pub get_volumes : String → Reply (List String)
  pub get_images : String → Reply (List String)
  pub get_all_templates : Reply (List TemplateReply)
  pub domain_create : Storage → Reply Created
  pub domain_delete : Storage → Reply (Unit {0})
  pub domain_do_setup : Storage → Reply (Option SetUp)
  pub domain_create_partition : String → ℕ → String → Reply String
  pub domain_delete_partition : String → String → Reply (Unit {0})
  pub domain_partitions_info : Option String → Reply String

abbrev pub Run : Type 0 → Type 0
Run A = World → Result A × World

-- `uow.storages.get_or_fail`
unfoldable pub get_or_fail : String → Run Storage
unfolding find
get_or_fail id w = elim (find w.storages id) [
  | none ↦ (err Exn.entity_not_found, w)
  | some storage ↦ (ok storage, w)
]

-- a tracked row as it is committed
unfoldable pub save : Storage → Run (Unit {0})
unfolding write
save storage = modify (λ w. record w { storages = write w.storages storage })

-- `uow.storages.add`
unfoldable pub insert : Storage → Run (Unit {0})
unfolding add
insert storage = modify (λ w. record w { storages = add w.storages storage })

-- `uow.storages.delete`
unfoldable pub delete_row : Storage → Run (Unit {0})
unfolding remove
delete_row storage = modify (λ w. record w { storages = remove w.storages storage.id })

unfoldable pub cast : Cast → Run (Unit {0})
cast message = modify (λ w. record w { casts = w.casts ++ (message ∷ []) })

-- `self.event_store.add_event`, which catches what goes wrong in it
unfoldable pub add_event : String → String → String → Message → Run (Unit {0})
add_event object_id user_id event information = modify (λ w. record w {
  events =
      w.events
      ++ (record {
        object_id = object_id;
        user_id = user_id;
        event = event;
        information = information;
      }
          ∷ []);
})

-- `get_storage`: an empty id is an error.
unfoldable pub get_storage : String → Run Storage
unfolding get_or_fail is_empty
get_storage storage_id =
    if is_empty storage_id then raise Exn.storage_attribute else get_or_fail storage_id

unfoldable pub get_all_storages : Run (List Storage)
get_all_storages = gets (λ w. w.storages)
