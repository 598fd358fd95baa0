-- ===== src/Templates.antt =====
-- openvair/modules/template/service_layer/services.py: the state of `TemplateServiceLayerManager`, the
-- other services as it sees them, and the steps that its methods share.
pub mod Calls
pub mod Requests
pub mod Steps
pub mod Operations
use openvair_rde_linter.Base.{
  ℕ, String, ◌<>◌, Bool, true, false, not, ◌&&◌, ◌||◌, Option, none, some, List, [], ◌∷◌, ◌++◌, map,
  contains, ◌==◌, string_eq, if◌then◌else◌,
}
use openvair_rde_linter.Result.{Exn, Result, ok, err}
use openvair_rde_linter.Service.{Reply, return, raise, modify, raise_if, gets, ◌>>=◌, ◌>>◌}
use openvair_rde_linter.Service.Table.{Keyed, keys, find, write, add, remove}
use openvair_rde_linter.Volumes.{Message, blank, said, failed_while, Event}

-- `TemplateStatus`
pub data Status : Type 0 where
  new creating editing available error deleting : Status

-- `TemplateStatus(…).value`
unfoldable pub status_value : Status → String
status_value Status.new = "new"
status_value Status.creating = "creating"
status_value Status.editing = "editing"
status_value Status.available = "available"
status_value Status.error = "error"
status_value Status.deleting = "deleting"

-- a row of the table `templates`, without the time of its creation
pub record Template : Type 0 where
  pub id : String
  pub name : String
  pub description : Option String
  pub path : String
  pub tmp_format : String
  pub size : ℕ
  pub storage_id : String
  pub status : Status
  pub information : Message
  pub is_backing : Bool

instance abbrev pub template_keyed : Keyed Template
template_keyed = record { key = λ t. t.id }

-- `DomainTemplateModelDTO`
pub record DomainTemplate : Type 0 where
  pub tmp_format : String
  pub name : String
  pub path : String
  pub related_volumes : Option (List String)
  pub is_backing : Bool
  pub description : String

-- `VolumeModelDTO`, without the fields that are not used; the attachments by their machines
pub record VolumeModel : Type 0 where
  pub id : String
  pub name : String
  pub format : String
  pub path : String
  pub template_id : Option String
  pub attachments : List String

-- `EditTemplateServiceCommandDTO`
pub record EditCommand : Type 0 where
  pub id : String
  pub name : Option String
  pub description : Option String

-- a method that the service casts to itself
pub data Cast : Type 0 where
  cast_create : String → String → Cast
  cast_edit : EditCommand → Cast
  cast_delete : String → Cast

-- the database, what has been cast, and the event store
pub record World : Type 0 where
  pub templates : List Template
  pub casts : List Cast
  pub events : List Event

-- What the other services answer during one call of a method, and the ids of `uuid4`. A storage answers
-- with its mount point and a machine with its power state, or `none` where the model does not validate.
pub record Environment : Type 0 where
  pub new_id : String
  pub event_user : String
  pub get_volume : String → Reply VolumeModel
  pub get_all_volumes : String → Reply (List VolumeModel)
  pub get_storage : String → Reply (Option String)
  pub get_vm : String → Reply (Option String)
  pub domain_create : DomainTemplate → String → Reply DomainTemplate
  pub domain_edit : DomainTemplate → Option String → Option String → Reply DomainTemplate
  pub domain_delete : DomainTemplate → Reply (Unit {0})
  pub domain_ensure_not_in_use : DomainTemplate → Reply (Unit {0})

abbrev pub Run : Type 0 → Type 0
Run A = World → Result A × World

-- `uow.templates.get_or_fail`
unfoldable pub get_or_fail : String → Run Template
unfolding find
get_or_fail id w = elim (find w.templates id) [
  | none ↦ (err Exn.entity_not_found, w)
  | some template ↦ (ok template, w)
]

-- Another row has the name, which is `unique`.
unfoldable pub name_is_taken : List Template → Template → Bool
name_is_taken [] template = false
name_is_taken (t ∷ templates) template =
    (t.name == template.name && not (t.id == template.id)) || name_is_taken templates template

-- the rows after `session.merge`, which writes a row back or adds it
unfoldable pub merged : List Template → Template → List Template
unfolding write add
merged templates template =
    if contains (keys templates) template.id
    then write templates template
    else add templates template

-- `uow.templates.update`, or `uow.templates.add` for a new id, with the commit
unfoldable pub update : Template → Run (Unit {0})
unfolding name_is_taken merged
update template = do
  taken ← gets (λ w. name_is_taken w.templates template)
  raise_if taken Exn.integrity_error
  modify (λ w. record w { templates = merged w.templates template })

-- `uow.templates.delete` with the commit
unfoldable pub delete_row : Template → Run (Unit {0})
unfolding remove
delete_row template = modify (λ w. record w { templates = remove w.templates template.id })

unfoldable pub cast : Cast → Run (Unit {0})
cast message = modify (λ w. record w { casts = w.casts ++ (message ∷ []) })

unfoldable pub add_event : Environment → String → String → Message → Run (Unit {0})
add_event env object_id event information = modify (λ w. record w {
  events =
      w.events
      ++ (record {
        object_id = object_id;
        user_id = env.event_user;
        event = event;
        information = information;
      }
          ∷ []);
})

-- the text of the event: the status, then the message
unfoldable pub status_message : Status → Message → Message
unfolding status_value
status_message status blank = said ("Status: " <> status_value status <> ". message: ")
status_message status (said text) =
    said ("Status: " <> status_value status <> ". message: " <> text)
status_message status (failed_while doing raised) =
    failed_while ("Status: " <> status_value status <> ". message: " <> doing) raised

unfoldable pub with_status : Template → Status → Message → Template
with_status template status message = record template { status = status; information = message }

-- The row as it is in the caller's hands afterwards is the value.
unfoldable pub update_and_log_event :
    Environment → Template → Status → String → Message → Run Template
unfolding update add_event status_message with_status
update_and_log_event env template status event_type message = do
  update (with_status template status message)
  add_event env template.id event_type (status_message status message)
  return (with_status template status message)
