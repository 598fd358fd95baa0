-- ===== src/Volumes/Operations/Rows.antt =====
-- openvair/modules/volume/service_layer/services.py: which rows there are after each method.
use openvair_rde_linter.Base.{ℕ, String, Bool, refl, Option, List, [], ◌∷◌, arith}
use openvair_rde_linter.Result.{Exn}
use openvair_rde_linter.Service.Table.{keys-write}
use openvair_rde_linter.Service.Keeps.{
  Keeps, return-Keeps, raise-Keeps, gets-Keeps, raise_if-Keeps, await-Keeps, bind-Keeps,
  on_error-Keeps,
}
use openvair_rde_linter.Volumes.{
  Status, Message, Volume, volume_keyed, Cast, Attachment, StorageInfo, StorageReply, TemplateModel,
  FromTemplate, Environment, get_or_fail, save, cast, add_event, mark,
}
use openvair_rde_linter.Volumes.Checks.{
  check_volume_status, check_volume_has_not_attachment, check_volume_exists_on_storage,
  get_storage_info, check_storage_on_availability, check_available_space_on_storage,
  check_extended_size, check_vm_power_state, check_vms_are_off,
}
use openvair_rde_linter.Volumes.Create.{
  CreateRequest, prepare_volume_data, create_volume_step, place, check_place, call_create,
}
use openvair_rde_linter.Volumes.Extend.{
  start_extending, extend_volume, extend_on_storage, extend_volume_step,
}
use openvair_rde_linter.Volumes.Delete.{
  EditRequest, start_deleting, delete_volume, check_new_name, edit_volume,
}
use openvair_rde_linter.Volumes.Attach.{attach_volume, detach_volume}
use openvair_rde_linter.Volumes.Clone.{CloneRequest, set_status, check_target}
use openvair_rde_linter.Volumes.Template.{
  TemplateRequest, storage_model, get_storage, from_template, create_from_template_step,
}
use openvair_rde_linter.Volumes.Operations.{ids}
use openvair_rde_linter.Volumes.Queries.{get_volume, get_all_volumes}

pub get_or_fail-Keeps : (id : String) → Keeps ids (get_or_fail id)
unfolding get_or_fail
get_or_fail-Keeps id = record { kept = λ w. ground arith }

pub save-Keeps : (v : Volume) → Keeps ids (save v)
unfolding save
save-Keeps v = record { kept = λ w. keys-write w.volumes v }

pub cast-Keeps : (c : Cast) → Keeps ids (cast c)
unfolding cast
cast-Keeps c = record { kept = λ w. refl }

pub add_event-Keeps : (o u e : String) (m : Message) → Keeps ids (add_event o u e m)
unfolding add_event
add_event-Keeps o u e m = record { kept = λ w. refl }

pub get_storage_info-Keeps : (env : Environment) (id : String) → Keeps ids (get_storage_info env id)
unfolding get_storage_info
get_storage_info-Keeps env id = record { kept = λ w. ground arith }

pub check_volume_status-Keeps :
    (s : Status) (ss : List Status) → Keeps ids (check_volume_status s ss)
unfolding check_volume_status
check_volume_status-Keeps s ss = record { kept = λ w. refl }

pub exists-Keeps : (n s : String) → Keeps ids (check_volume_exists_on_storage n s)
unfolding check_volume_exists_on_storage
exists-Keeps n s = record { kept = λ w. refl }

pub available-Keeps : (s : StorageInfo) → Keeps ids (check_storage_on_availability s)
unfolding check_storage_on_availability
available-Keeps s = record { kept = λ w. refl }

pub space-Keeps : (a b : ℕ) (s : StorageInfo) → Keeps ids (check_available_space_on_storage a b s)
unfolding check_available_space_on_storage
space-Keeps a b s = record { kept = λ w. refl }

pub ruleset parts = (
  bind-Keeps, on_error-Keeps, raise_if-Keeps, raise-Keeps, return-Keeps, gets-Keeps, await-Keeps,
  get_or_fail-Keeps, save-Keeps, cast-Keeps, add_event-Keeps, get_storage_info-Keeps,
  check_volume_status-Keeps, exists-Keeps, available-Keeps, space-Keeps,
)

pub mark-Keeps :
    (status : Status) (event doing : String) (volume : Volume) (raised : Exn)
    → Keeps ids (mark status event doing volume raised)
unfolding mark
mark-Keeps status event doing volume raised = search parts

pub prepare_volume_data-Keeps : (r : CreateRequest) → Keeps ids (prepare_volume_data r)
unfolding prepare_volume_data
prepare_volume_data-Keeps r = record { kept = λ w. ground arith }

check_place-Keeps : (s : StorageInfo) (v : Volume) → Keeps ids (check_place s v)
unfolding check_place
check_place-Keeps s v = search (parts, mark-Keeps)

place-Keeps : (env : Environment) (s : String) (v : Volume) → Keeps ids (place env s v)
unfolding place
place-Keeps env s v = search (parts, mark-Keeps, check_place-Keeps)

call_create-Keeps : (env : Environment) (v : Volume) → Keeps ids (call_create env v)
unfolding call_create
call_create-Keeps env v = search (parts, mark-Keeps)

pub create_volume_step-Keeps :
    (env : Environment) (v s : String) → Keeps ids (create_volume_step env v s)
unfolding create_volume_step
create_volume_step-Keeps env v s = search (parts, place-Keeps, call_create-Keeps)

start_extending-Keeps : (v : Volume) (n : ℕ) → Keeps ids (start_extending v n)
unfolding start_extending check_extended_size
start_extending-Keeps v n = search (parts, mark-Keeps)

pub extend_volume-Keeps : (v : Option String) (n : Option ℕ) → Keeps ids (extend_volume v n)
unfolding extend_volume
extend_volume-Keeps v n = search (parts, start_extending-Keeps)

check_vm_power_state-Keeps :
    (env : Environment) (id : String) → Keeps ids (check_vm_power_state env id)
unfolding check_vm_power_state
check_vm_power_state-Keeps env id = search parts

check_vms_are_off-Keeps :
    (env : Environment) (attachments : List Attachment)
    → Keeps ids (check_vms_are_off env attachments)
unfolding check_vms_are_off
check_vms_are_off-Keeps env [] = search parts
check_vms_are_off-Keeps env (a ∷ rest) =
    bind-Keeps (check_vm_power_state-Keeps env a.vm_id) (λ _. check_vms_are_off-Keeps env rest)

extend_on_storage-Keeps :
    (env : Environment) (s v : Volume) (n : ℕ) → Keeps ids (extend_on_storage env s v n)
unfolding extend_on_storage
extend_on_storage-Keeps env s v n = search (parts, check_vms_are_off-Keeps) depth 10

pub extend_volume_step-Keeps :
    (env : Environment) (s : Volume) (n : ℕ) → Keeps ids (extend_volume_step env s n)
unfolding extend_volume_step
extend_volume_step-Keeps env s n = search (parts, mark-Keeps, extend_on_storage-Keeps) depth 10

start_deleting-Keeps : (volume : Volume) → Keeps ids (start_deleting volume)
unfolding start_deleting check_volume_has_not_attachment
start_deleting-Keeps volume = search parts

pub delete_volume-Keeps : (id : Option String) → Keeps ids (delete_volume id)
unfolding delete_volume
delete_volume-Keeps id = search (parts, mark-Keeps, start_deleting-Keeps)

check_new_name-Keeps : (n : String) (v : Volume) → Keeps ids (check_new_name n v)
unfolding check_new_name check_volume_exists_on_storage
check_new_name-Keeps n v = record { kept = λ w. ground arith }

pub edit_volume-Keeps : (r : EditRequest) → Keeps ids (edit_volume r)
unfolding edit_volume
edit_volume-Keeps r = search (parts, check_new_name-Keeps)

pub attach_volume-Keeps :
    (env : Environment) (v : Option String) (a : Attachment) → Keeps ids (attach_volume env v a)
unfolding attach_volume
attach_volume-Keeps env v a = search parts

pub detach_volume-Keeps : (v m : Option String) → Keeps ids (detach_volume v m)
unfolding detach_volume
detach_volume-Keeps v m = search parts

pub set_status-Keeps : (v : String) (s : Status) → Keeps ids (set_status v s)
unfolding set_status
set_status-Keeps v s = search parts

pub check_target-Keeps :
    (r : CloneRequest) (v : Volume) (s : StorageInfo) → Keeps ids (check_target r v s)
unfolding check_target
check_target-Keeps r v s = search parts

pub create_from_template_step-Keeps :
    (env : Environment) (v : String) (i : FromTemplate)
    → Keeps ids (create_from_template_step env v i)
unfolding create_from_template_step
create_from_template_step-Keeps env v i = search (parts, set_status-Keeps)

storage_model-Keeps : (r : StorageReply) → Keeps ids (storage_model r)
unfolding storage_model
storage_model-Keeps r = record { kept = λ w. ground arith }

pub get_storage-Keeps : (env : Environment) (s : String) → Keeps ids (get_storage env s)
unfolding get_storage
get_storage-Keeps env s = search (parts, storage_model-Keeps)

pub from_template-Keeps :
    (r : TemplateRequest) (t : TemplateModel) (s : StorageInfo) → Keeps ids (from_template r t s)
unfolding from_template
from_template-Keeps r t s = record { kept = λ w. ground arith }

pub get_volume-Keeps : (v : Option String) → Keeps ids (get_volume v)
unfolding get_volume
get_volume-Keeps v = search parts

pub get_all_volumes-Keeps : (s : Option String) (f : Option Bool) → Keeps ids (get_all_volumes s f)
unfolding get_all_volumes
get_all_volumes-Keeps s f = search parts
