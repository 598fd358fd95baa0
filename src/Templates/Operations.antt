-- ===== src/Templates/Operations.antt =====
-- openvair/modules/template/service_layer/services.py: the methods as the steps of one state machine.
-- A request or a cast comes at any time, and the other services answer anything.
pub mod Rules
pub mod Sizes
use openvair_rde_linter.Base.{String, List}
use openvair_rde_linter.Templates.{
  EditCommand, Cast, cast_create, cast_edit, cast_delete, World, Environment,
}
use openvair_rde_linter.Templates.Requests.{
  CreateCommand, get_all_templates, get_template, create_template, edit_template, delete_template,
}
use openvair_rde_linter.Templates.Steps.{
  create_template_step, edit_template_step, delete_template_step,
}

pub data Operation : Type 0 where
  get_all : Operation
  get_one : String → Operation
  create : CreateCommand → Operation
  edit : EditCommand → Operation
  delete : String → Operation
  deliver : Cast → Operation

-- the method that a cast names
unfoldable pub deliver_cast : Environment → Cast → World → World
unfolding create_template_step edit_template_step delete_template_step
deliver_cast env (cast_create template_id source) w =
    (create_template_step env template_id source w).1
deliver_cast env (cast_edit command) w = (edit_template_step env command w).1
deliver_cast env (cast_delete template_id) w = (delete_template_step env template_id w).1

-- The state after a method, whether it returned or raised.
unfoldable pub perform : Environment → Operation → World → World
unfolding deliver_cast
perform env get_all w = (get_all_templates w).1
perform env (get_one template_id) w = (get_template template_id w).1
perform env (create command) w = (create_template env command w).1
perform env (edit command) w = (edit_template env command w).1
perform env (delete template_id) w = (delete_template env template_id w).1
perform env (deliver message) w = deliver_cast env message w

pub data Reach (w : World) : World → Type 0 where
  here : Reach w w
  next : {v : World} (env : Environment) (op : Operation) → Reach w v → Reach w (perform env op v)
