-- ===== src/Volumes/Operations.antt =====
-- openvair/modules/volume/service_layer/services.py: the methods as the steps of one state machine.
-- A request, a cast and the periodic task come in any order, and the other services answer anything.
pub mod Rows
pub mod Answers
pub mod Changes
pub mod Distinct
use openvair_rde_linter.Base.{ℕ, String, Bool, false, ◌≡◌, Option, List, contains, string_eq}
use openvair_rde_linter.Service.{answered}
use openvair_rde_linter.Service.Table.{keys}
use openvair_rde_linter.Volumes.{
  Attachment, Volume, volume_keyed, FromTemplate, Cast, cast_create, cast_extend, cast_delete,
  cast_create_from_template, DomainVolume, World, Environment,
}
use openvair_rde_linter.Volumes.Create.{CreateRequest, create_volume, create_volume_step}
use openvair_rde_linter.Volumes.Extend.{extend_volume, extend_volume_step}
use openvair_rde_linter.Volumes.Delete.{EditRequest, delete_volume, delete_volume_step, edit_volume}
use openvair_rde_linter.Volumes.Attach.{attach_volume, detach_volume}
use openvair_rde_linter.Volumes.Clone.{CloneRequest, clone_volume}
use openvair_rde_linter.Volumes.Template.{
  TemplateRequest, create_from_template, create_from_template_step,
}
use openvair_rde_linter.Volumes.Monitor.{monitoring}
use openvair_rde_linter.Volumes.Queries.{get_volume, get_all_volumes}

pub data Operation : Type 0 where
  create : CreateRequest → Operation
  extend : Option String → Option ℕ → Operation
  delete : Option String → Operation
  edit : EditRequest → Operation
  attach : Option String → Attachment → Operation
  detach : Option String → Option String → Operation
  clone : CloneRequest → Operation
  from_template : TemplateRequest → Operation
  get_one : Option String → Operation
  get_all : Option String → Option Bool → Operation
  deliver : Cast → Operation
  monitor : Operation

-- the method that a cast names
unfoldable pub deliver_cast : Environment → Cast → World → World
deliver_cast env (cast_create volume) w = (create_volume_step env volume.id volume.storage_id w).1
deliver_cast env (cast_extend volume new_size) w = (extend_volume_step env volume new_size w).1
deliver_cast env (cast_delete volume) w = (delete_volume_step env volume w).1
deliver_cast env (cast_create_from_template volume_id info) w =
    (create_from_template_step env volume_id info w).1

-- The state after a method, whether it returned or raised.
unfoldable pub perform : Environment → Operation → World → World
unfolding deliver_cast
perform env (create request) w = (create_volume env request w).1
perform env (extend volume_id new_size) w = (extend_volume volume_id new_size w).1
perform env (delete volume_id) w = (delete_volume volume_id w).1
perform env (edit request) w = (edit_volume request w).1
perform env (attach volume_id attachment) w = (attach_volume env volume_id attachment w).1
perform env (detach volume_id vm_id) w = (detach_volume volume_id vm_id w).1
perform env (clone request) w = (clone_volume env request w).1
perform env (from_template request) w = (create_from_template env request w).1
perform env (get_one volume_id) w = (get_volume volume_id w).1
perform env (get_all storage_id free_volumes) w = (get_all_volumes storage_id free_volumes w).1
perform env (deliver message) w = deliver_cast env message w
perform env monitor w = (monitoring env w).1

-- the primary keys of the rows
abbrev pub ids : World → List String
ids w = keys w.volumes

-- The domain layer gives a clone the id that it is told to (`new_volume.id` in domain/remotefs/nfs.py
-- and domain/physical_fs/localfs.py).
abbrev pub ClonesUnderId : Environment → Type 0
ClonesUnderId env =
    (volume : Volume) (mount_point id : String) (clone : DomainVolume)
    → env.domain_clone volume mount_point id ≡ answered clone
    → clone.id ≡ id

-- One step, in which a new id is one that the table does not have.
pub data Step (w : World) : World → Type 0 where
  step :
      (env : Environment) (op : Operation)
      → contains (ids w) env.new_id ≡ false
      → ClonesUnderId env
      → Step w (perform env op w)

pub data Reach (w : World) : World → Type 0 where
  here : Reach w w
  next : {v u : World} → Reach w v → Step v u → Reach w u
