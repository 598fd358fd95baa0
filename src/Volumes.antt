-- ===== src/Volumes.antt =====
-- openvair/modules/volume/service_layer/services.py: the state of `VolumeServiceLayerManager`, the
-- other services as it sees them, and the steps that its methods share. The sizes are those that
-- entrypoints/schemas.py lets through, so not negative.
pub mod Checks
pub mod Create
pub mod Extend
pub mod Delete
pub mod Attach
pub mod Clone
pub mod Template
pub mod Monitor
pub mod Operations
pub mod Queries
use openvair_rde_linter.Base.{
  ℕ, String, Bool, Option, none, some, List, [], ◌∷◌, ◌++◌, ◌==◌, string_eq, if◌then◌else◌,
}
use openvair_rde_linter.Result.{Exn, Result, ok, err}
use openvair_rde_linter.Service.{Reply, return, raise, modify, gets, ◌>>=◌, ◌>>◌}
use openvair_rde_linter.Service.Table.{Keyed, find, write, add, remove}

-- `VolumeStatus`
pub data Status : Type 0 where
  new creating available error deleting extending cloning : Status

unfoldable pub Status-discrete : Discrete Status
Status-discrete = hlevel

-- A message: a fixed text, or what was being done with the exception that ended it.
pub data Message : Type 0 where
  blank : Message
  said : String → Message
  failed_while : String → Exn → Message

-- a row of the table `volume_attach_vm`
pub record Attachment : Type 0 where
  pub vm_id : String
  pub user_id : Option String
  pub target : Option String

-- a row of the table `volumes` with its attachments
pub record Volume : Type 0 where
  pub id : String
  pub name : String
  pub user_id : String
  pub format : String
  pub size : ℕ
  pub used : Option ℕ
  pub status : Status
  pub information : Message
  pub path : String
  pub template_id : Option String
  pub description : String
  pub storage_id : String
  pub storage_type : String
  pub read_only : Bool
  pub attachments : List Attachment

instance abbrev pub volume_keyed : Keyed Volume
volume_keyed = record { key = λ v. v.id }

-- an entry of the event store
pub record Event : Type 0 where
  pub object_id : String
  pub user_id : String
  pub event : String
  pub information : Message

-- `StorageInfo`
pub record StorageInfo : Type 0 where
  pub id : String
  pub name : String
  pub storage_type : String
  pub status : String
  pub available_space : ℕ
  pub mount_point : String

-- what the storage service says of a storage, with `none` for a key that it leaves out
pub record StorageReply : Type 0 where
  pub id : String
  pub name : String
  pub storage_type : String
  pub status : String
  pub available : Option ℕ
  pub mount_point : Option String

-- what the virtual machine service says of a machine
pub record VmReply : Type 0 where
  pub name : Option String
  pub power_state : Option String

-- `TemplateModelDTO`, without the fields that are not used
pub record TemplateModel : Type 0 where
  pub path : String
  pub tmp_format : String
  pub size : ℕ
  pub is_backing : Bool

-- `BaseVolume.__dict__`, the answer of the domain layer to a clone
pub record DomainVolume : Type 0 where
  pub id : String
  pub format : String
  pub size : ℕ
  pub description : String
  pub storage_type : String
  pub path : String

-- the answer of the domain layer to `attach_volume_info`
pub record VolumeInfo : Type 0 where
  pub path : String
  pub size : Option ℕ
  pub used : Option ℕ
  pub provisioning : String

-- `CreateVolumeFromTemplateModelDTO`
pub record FromTemplate : Type 0 where
  pub name : String
  pub description : String
  pub path : String
  pub format : String
  pub storage_id : String
  pub size : ℕ
  pub user_id : String
  pub read_only : Bool
  pub storage_type : String
  pub template_path : String
  pub is_backing : Bool
  pub template_id : String

-- a method of this service that it casts to itself, with the volume as it was serialized
pub data Cast : Type 0 where
  cast_create : Volume → Cast
  cast_extend : Volume → ℕ → Cast
  cast_delete : Volume → Cast
  cast_create_from_template : String → FromTemplate → Cast

-- the database, what has been cast, and the event store; the last two in the order of sending
pub record World : Type 0 where
  pub volumes : List Volume
  pub casts : List Cast
  pub events : List Event

-- What the other services answer during one call of a method, and the id that `uuid4` gives.
pub record Environment : Type 0 where
  pub new_id : String
  pub get_storage : String → Reply StorageReply
  pub get_all_storages : Reply (List StorageReply)
  pub get_vm : String → Reply VmReply
  pub get_template : String → Reply TemplateModel
  pub domain_create : Volume → Reply (Unit {0})
  pub domain_extend : Volume → ℕ → Reply (Unit {0})
  pub domain_delete : Volume → Reply (Unit {0})
  pub domain_clone : Volume → String → String → Reply DomainVolume
  pub domain_attach_info : Volume → Reply VolumeInfo
  pub domain_create_from_template : Volume → String → Bool → Reply (Unit {0})

abbrev pub Run : Type 0 → Type 0
Run A = World → Result A × World

-- `uow.volumes.get_or_fail`
unfoldable pub get_or_fail : String → Run Volume
unfolding find
get_or_fail id w = elim (find w.volumes id) [
  | none ↦ (err Exn.entity_not_found, w)
  | some volume ↦ (ok volume, w)
]

-- a tracked row as it is committed
unfoldable pub save : Volume → Run (Unit {0})
unfolding write
save volume = modify (λ w. record w { volumes = write w.volumes volume })

-- `uow.volumes.add`
unfoldable pub insert : Volume → Run (Unit {0})
unfolding add
insert volume = modify (λ w. record w { volumes = add w.volumes volume })

-- `uow.session.delete`
unfoldable pub delete_row : Volume → Run (Unit {0})
unfolding remove
delete_row volume = modify (λ w. record w { volumes = remove w.volumes volume.id })

-- `self.service_layer_rpc.cast`
unfoldable pub cast : Cast → Run (Unit {0})
cast message = modify (λ w. record w { casts = w.casts ++ (message ∷ []) })

-- `self.event_store.add_event`, which catches what goes wrong in it
unfoldable pub add_event : String → String → String → Message → Run (Unit {0})
add_event object_id user_id event information = modify (λ w. record w {
  events =
      w.events
      ++ (record {
        object_id = object_id;
        user_id = user_id;
        event = event;
        information = information;
      }
          ∷ []);
})

-- `DataSerializer.to_domain`: the template id is overwritten with the user id.
unfoldable pub to_domain : Volume → Volume
to_domain volume = record volume { attachments = []; template_id = some volume.user_id }

-- The volume's `status` and `information` of a handler, with the event.
unfoldable pub mark : Status → String → String → Volume → Exn → Run (Unit {0})
unfolding save add_event
mark status event doing volume raised = do
  save (record volume { status = status; information = failed_while doing raised })
  add_event volume.id volume.user_id event (failed_while doing raised)
