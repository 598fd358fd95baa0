-- ===== src/Storages/Operations.antt =====
-- openvair/modules/storage/service_layer/services.py: the methods as the steps of one state machine.
-- A request, a cast and the periodic task come in any order, and the other services answer anything.
pub mod Labels
pub mod Rows
pub mod Requests
pub mod Changes
pub mod Unique
use openvair_rde_linter.Base.{ℕ, String, Bool, false, ◌≡◌, Option, List, contains, string_eq}
use openvair_rde_linter.Service.Table.{keys}
use openvair_rde_linter.Storages.{
  Storage, storage_keyed, Cast, cast_create, cast_delete, World, Environment, get_storage,
  get_all_storages,
}
use openvair_rde_linter.Storages.Disks.{Disk}
use openvair_rde_linter.Storages.Checks.{get_local_disks}
use openvair_rde_linter.Storages.Create.{CreateRequest, create_storage, create_storage_step}
use openvair_rde_linter.Storages.Delete.{delete_storage, delete_storage_step}
use openvair_rde_linter.Storages.Partitions.{
  create_local_partition, get_local_disk_partitions_info, delete_local_partition,
}
use openvair_rde_linter.Storages.Monitor.{monitoring}

pub data Operation : Type 0 where
  create : CreateRequest → Operation
  delete : String → Operation
  get_one : String → Operation
  get_all : Operation
  disks : Bool → Operation
  add_partition : List Disk → String → ℕ → String → String → Operation
  partitions_info : Option String → Operation
  remove_partition : String → String → String → Operation
  deliver : Cast → Operation
  monitor : Operation

-- the method that a cast names
unfoldable pub deliver_cast : Environment → Cast → World → World
unfolding create_storage_step delete_storage_step
deliver_cast env (cast_create storage) w = (create_storage_step env storage w).1
deliver_cast env (cast_delete storage) w = (delete_storage_step env storage w).1

-- The state after a method, whether it returned or raised.
unfoldable pub perform : Environment → Operation → World → World
unfolding deliver_cast
perform env (create request) w = (create_storage env request w).1
perform env (delete storage_id) w = (delete_storage env storage_id w).1
perform env (get_one storage_id) w = (get_storage storage_id w).1
perform env get_all w = (get_all_storages w).1
perform env (disks free) w = (get_local_disks env free w).1
perform env (add_partition parts path size unit user_id) w =
    (create_local_partition env parts path size unit user_id w).1
perform env (partitions_info path) w = (get_local_disk_partitions_info env path w).1
perform env (remove_partition path num user_id) w =
    (delete_local_partition env path num user_id w).1
perform env (deliver message) w = deliver_cast env message w
perform env monitor w = (monitoring env w).1

-- the primary keys of the rows
abbrev pub ids : World → List String
ids w = keys w.storages

-- One step, in which a new id is one that the table does not have.
pub data Step (w : World) : World → Type 0 where
  step :
      (env : Environment) (op : Operation)
      → contains (ids w) env.new_id ≡ false
      → Step w (perform env op w)

pub data Reach (w : World) : World → Type 0 where
  here : Reach w w
  next : {v u : World} → Reach w v → Step v u → Reach w u
