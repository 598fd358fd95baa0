-- ===== src/Templates/Operations/Sizes.antt =====
-- openvair/modules/template/service_layer/services.py: the sizes of the templates.
use openvair_rde_linter.Base.{
  String, refl, Option, none, some, List, [], ◌∷◌, string_eq, not, arith, ◌==◌,
}
use openvair_rde_linter.Result.{Exn}
use openvair_rde_linter.Service.{Reply, answered, call_failed, timed_out}
use openvair_rde_linter.Service.Gives.{Gives, Any, raise_if-Any, then-Gives}
use openvair_rde_linter.Templates.{
  Template, template_keyed, DomainTemplate, VolumeModel, EditCommand, cast_create, cast_edit,
  cast_delete, World, Environment,
}
use openvair_rde_linter.Templates.Calls.{
  call_or, validated, get_volume_info, get_volumes, get_related_volumes, get_storage_info,
  get_vm_info, check_vms, check_volume_not_attached_to_active_vm, to_dto, data_for_manager,
  ensure_template_not_in_use,
}
use openvair_rde_linter.Templates.Requests.{
  get_all_templates, get_template, CreateCommand, new_row, accept, create_template, edit_template,
  delete_template,
}
use openvair_rde_linter.Templates.Steps.{
  updated, fail, finish, call_create, create_template_step, call_edit, edit_template_step,
  call_delete, fail_deleting, delete_template_step,
}
use openvair_rde_linter.Templates.Operations.{Operation, perform, deliver_cast, Reach, here, next}
use openvair_rde_linter.Templates.Operations.Rules.{
  HasNoSize, NoneHasSize, steps, get_or_fail-Gives, log-Gives,
}

call_or-Gives : {A : Type 0} (e : Exn) (r : Reply A) → Gives NoneHasSize (call_or e r) Any
unfolding call_or
call_or-Gives e (answered a) = search steps
call_or-Gives e call_failed = search steps
call_or-Gives e timed_out = search steps

validated-Gives : (o : Option String) → Gives NoneHasSize (validated o) Any
unfolding validated
validated-Gives none = search steps
validated-Gives (some t) = search steps

get_vm_info-Gives : (env : Environment) (id : String) → Gives NoneHasSize (get_vm_info env id) Any
unfolding get_vm_info
get_vm_info-Gives env id = search (steps, call_or-Gives, validated-Gives)

get_storage_info-Gives :
    (env : Environment) (id : String) → Gives NoneHasSize (get_storage_info env id) Any
unfolding get_storage_info
get_storage_info-Gives env id = search (steps, call_or-Gives, validated-Gives)

check_vms-Gives :
    (env : Environment) (ids : List String) → Gives NoneHasSize (check_vms env ids) Any
unfolding check_vms
check_vms-Gives env [] = search steps
check_vms-Gives env (id ∷ ids) = then-Gives (get_vm_info-Gives env id) (λ state.
    then-Gives (raise_if-Any (not (state == "shut_off")) Exn.volume_attach_to_active_vm)
      (λ _. check_vms-Gives env ids))

to_dto-Gives : (t : Template) → Gives NoneHasSize (to_dto t) Any
unfolding to_dto
to_dto-Gives t = record { given = λ w h. ground arith }

manager-Gives : (env : Environment) (t : Template) → Gives NoneHasSize (data_for_manager env t) Any
unfolding data_for_manager get_related_volumes get_volumes
manager-Gives env t = search (steps, to_dto-Gives, call_or-Gives)

in_use-Gives :
    (env : Environment) (t : Template) → Gives NoneHasSize (ensure_template_not_in_use env t) Any
unfolding ensure_template_not_in_use
in_use-Gives env t = search (steps, manager-Gives)

accept-Gives :
    (env : Environment) (v : VolumeModel) (t : Template)
    → HasNoSize t
    → Gives NoneHasSize (accept env v t) HasNoSize
unfolding accept
accept-Gives env v t p = search (steps, log-Gives)

create_template-Gives :
    (env : Environment) (c : CreateCommand) → Gives NoneHasSize (create_template env c) HasNoSize
unfolding create_template get_volume_info check_volume_not_attached_to_active_vm new_row
create_template-Gives env c =
    then-Gives (call_or-Gives Exn.volume_retrieval (env.get_volume c.base_volume_id)) (λ volume.
      then-Gives (check_vms-Gives env volume.attachments) (λ _.
        then-Gives (get_storage_info-Gives env c.storage_id)
          (λ mount_point. accept-Gives env volume (new_row env.new_id c volume mount_point) refl)))

edit_template-Gives :
    (env : Environment) (c : EditCommand) → Gives NoneHasSize (edit_template env c) HasNoSize
unfolding edit_template
edit_template-Gives env c = search (steps, in_use-Gives, log-Gives)

delete_template-Gives :
    (env : Environment) (id : String) → Gives NoneHasSize (delete_template env id) HasNoSize
unfolding delete_template
delete_template-Gives env id = search (steps, in_use-Gives, log-Gives)

fail-Gives :
    (env : Environment) (t : Template) (event : String) (e : Exn)
    → HasNoSize t
    → Gives NoneHasSize (fail env t event e) Any
unfolding fail
fail-Gives env t event e p = search (steps, log-Gives)

finish-Gives :
    (env : Environment) (t : Template) (event : String) (r : Option DomainTemplate)
    → HasNoSize t
    → Gives NoneHasSize (finish env t event r) Any
unfolding finish updated
finish-Gives env t event none p = search steps
finish-Gives env t event (some r) p = search (steps, log-Gives)

call_create-Gives :
    (env : Environment) (t : Template) (source : String)
    → Gives NoneHasSize (call_create env t source) Any
unfolding call_create
call_create-Gives env t source = search (steps, to_dto-Gives)

create_step-Gives :
    (env : Environment) (id source : String)
    → Gives NoneHasSize (create_template_step env id source) Any
unfolding create_template_step
create_step-Gives env id source =
    search (steps, log-Gives, fail-Gives, finish-Gives, call_create-Gives)

call_edit-Gives :
    (env : Environment) (t : Template) (c : EditCommand) → Gives NoneHasSize (call_edit env t c) Any
unfolding call_edit
call_edit-Gives env t c = search (steps, manager-Gives)

edit_step-Gives :
    (env : Environment) (c : EditCommand) → Gives NoneHasSize (edit_template_step env c) Any
unfolding edit_template_step
edit_step-Gives env c = search (steps, fail-Gives, finish-Gives, call_edit-Gives)

call_delete-Gives : (env : Environment) (t : Template) → Gives NoneHasSize (call_delete env t) Any
unfolding call_delete
call_delete-Gives env t = search (steps, manager-Gives)

fail_deleting-Gives :
    (env : Environment) (t : Template) (e : Exn)
    → HasNoSize t
    → Gives NoneHasSize (fail_deleting env t e) Any
unfolding fail_deleting
fail_deleting-Gives env t e p = search (steps, log-Gives)

delete_step-Gives :
    (env : Environment) (id : String) → Gives NoneHasSize (delete_template_step env id) Any
unfolding delete_template_step
delete_step-Gives env id = search (steps, fail_deleting-Gives, call_delete-Gives)

get_all-Gives : Gives NoneHasSize get_all_templates Any
unfolding get_all_templates
get_all-Gives = search steps

perform-NoneHasSize :
    (env : Environment) (op : Operation) (w : World)
    → NoneHasSize w
    → NoneHasSize (perform env op w)
unfolding perform deliver_cast get_template
perform-NoneHasSize env Operation.get_all w h = (get_all-Gives.given w h).0
perform-NoneHasSize env (Operation.get_one id) w h = ((get_or_fail-Gives id).given w h).0
perform-NoneHasSize env (Operation.create c) w h = ((create_template-Gives env c).given w h).0
perform-NoneHasSize env (Operation.edit c) w h = ((edit_template-Gives env c).given w h).0
perform-NoneHasSize env (Operation.delete id) w h = ((delete_template-Gives env id).given w h).0
perform-NoneHasSize env (Operation.deliver (cast_create id source)) w h =
    ((create_step-Gives env id source).given w h).0
perform-NoneHasSize env (Operation.deliver (cast_edit c)) w h =
    ((edit_step-Gives env c).given w h).0
perform-NoneHasSize env (Operation.deliver (cast_delete id)) w h =
    ((delete_step-Gives env id).given w h).0

-- In every state that the service reaches, by requests and casts in any order and whatever the
-- other services answer, from one where the size of every template is 0, the size of every template
-- is 0.
pub Reach-NoneHasSize : (w v : World) → Reach w v → NoneHasSize w → NoneHasSize v
Reach-NoneHasSize w v here h = h
Reach-NoneHasSize w _ (next {v = m} env op r) h =
    perform-NoneHasSize env op m (Reach-NoneHasSize w m r h)
