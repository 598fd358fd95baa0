-- ===== src/Templates/Calls.antt =====
-- openvair/modules/template/service_layer/services.py: the calls of the other services.
use openvair_rde_linter.Base.{
  String, Bool, false, not, Option, none, some, List, [], ◌∷◌, map, ◌==◌, string_eq, keep_if,
}
use openvair_rde_linter.Result.{Exn}
use openvair_rde_linter.Service.{
  Reply, answered, call_failed, timed_out, return, raise, raise_if, await, ◌>>=◌, ◌>>◌,
}
use openvair_rde_linter.Templates.{Template, DomainTemplate, VolumeModel, Environment, Run}

-- A call whose exceptions, both of `RpcException`, become another one.
unfoldable pub call_or : {A : Type 0} → Exn → Reply A → Run A
call_or raised (answered a) = return a
call_or raised call_failed = raise raised
call_or raised timed_out = raise raised

unfoldable pub get_volume_info : Environment → String → Run VolumeModel
unfolding call_or
get_volume_info env volume_id = call_or Exn.volume_retrieval (env.get_volume volume_id)

unfoldable pub get_volumes : Environment → String → Run (List VolumeModel)
unfolding call_or
get_volumes env storage_id = call_or Exn.volume_retrieval (env.get_all_volumes storage_id)

-- `template_id == id`, for an id that may be missing
unfoldable pub is_of : String → VolumeModel → Bool
is_of template_id volume = elim volume.template_id [ none ↦ false | some id ↦ id == template_id ]

unfoldable pub get_related_volumes : Environment → String → String → Run (List String)
unfolding get_volumes keep_if is_of
get_related_volumes env template_id storage_id = do
  volumes ← get_volumes env storage_id
  return (map (λ v. v.name) (keep_if (is_of template_id) volumes))

-- a value that the model asks for
unfoldable pub validated : Option String → Run String
validated none = raise Exn.validation_error
validated (some text) = return text

-- the mount point of the storage
unfoldable pub get_storage_info : Environment → String → Run String
unfolding call_or validated
get_storage_info env storage_id =
    call_or Exn.storage_retrieval (env.get_storage storage_id) >>= validated

-- the power state of the machine
unfoldable pub get_vm_info : Environment → String → Run String
unfolding call_or validated
get_vm_info env vm_id = call_or Exn.vm_retrieval (env.get_vm vm_id) >>= validated

-- the loop over the attachments
unfoldable pub check_vms : Environment → List String → Run (Unit {0})
unfolding get_vm_info
check_vms env [] = return tt
check_vms env (vm_id ∷ attachments) = do
  power_state ← get_vm_info env vm_id
  raise_if (not (power_state == "shut_off")) Exn.volume_attach_to_active_vm
  check_vms env attachments

unfoldable pub check_volume_not_attached_to_active_vm : Environment → VolumeModel → Run (Unit {0})
unfolding check_vms
check_volume_not_attached_to_active_vm env volume = check_vms env volume.attachments

-- `DomainSerializer.to_dto`: the description has to be a text.
unfoldable pub to_dto : Template → Run DomainTemplate
to_dto template = elim template.description [
  | none ↦ raise Exn.validation_error
  | some description ↦ return (record {
    tmp_format = template.tmp_format;
    name = template.name;
    path = template.path;
    related_volumes = none;
    is_backing = template.is_backing;
    description = description;
  })
]

-- the template with its related volumes
unfoldable pub data_for_manager : Environment → Template → Run DomainTemplate
unfolding to_dto get_related_volumes
data_for_manager env template = do
  manager_data ← to_dto template
  related ← get_related_volumes env template.id template.storage_id
  return (record manager_data { related_volumes = some related })

unfoldable pub ensure_template_not_in_use : Environment → Template → Run (Unit {0})
unfolding data_for_manager
ensure_template_not_in_use env template = do
  manager_data ← data_for_manager env template
  await (env.domain_ensure_not_in_use manager_data)
