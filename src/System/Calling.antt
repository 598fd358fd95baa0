-- ===== src/System/Calling.antt =====
-- openvair/modules/volume/service_layer/services.py: the parts of the methods that call the other
-- services, by the storages that the volumes name.
use openvair_rde_linter.Base.{
  ℕ, String, true, ◌≡◌, refl, none, some, List, [], ◌∷◌, contains, string_eq, arith,
}
use openvair_rde_linter.Result.{Exn}
use openvair_rde_linter.Service.{await, return, raise, ◌>>=◌, ◌>>◌}
use openvair_rde_linter.Service.Gives.{
  Gives, Any, return-Gives, raise-Gives, raise_if-Any, then-Gives, on_error-Gives, catch-Gives,
  if-Gives,
}
use openvair_rde_linter.Volumes.{
  Status, Attachment, Volume, volume_keyed, cast_create_from_template, StorageInfo, StorageReply,
  TemplateModel, FromTemplate, Environment, Run, to_domain, insert, cast, mark,
}
use openvair_rde_linter.Volumes.Checks.{
  check_volume_exists_on_storage, get_storage_info, check_storage_on_availability,
  check_available_space_on_storage, check_volume_status, check_vm_power_state, check_vms_are_off,
}
use openvair_rde_linter.Volumes.Create.{
  CreateRequest, prepare_volume_data, is_unfit, place, check_place, placed, call_create,
  create_volume_step,
}
use openvair_rde_linter.Volumes.Extend.{extend_on_storage, extend_volume_step}
use openvair_rde_linter.Volumes.Clone.{CloneRequest, set_status, check_target, clone_in_domain}
use openvair_rde_linter.Volumes.Template.{
  TemplateRequest, storage_model, from_template, template_row,
}
use openvair_rde_linter.System.Placing.{IsHeld, AllHeld, steps, mark-Gives, set_status-Gives}

module _ (held : List String) where
  pub prepare_volume_data-Gives :
      (request : CreateRequest) → Gives (AllHeld held) (prepare_volume_data request) Any
  unfolding prepare_volume_data
  prepare_volume_data-Gives request = search (steps, if-Gives)

  pub storage_model-Gives : (reply : StorageReply) → Gives (AllHeld held) (storage_model reply) Any
  unfolding storage_model
  storage_model-Gives reply = record { given = λ w h. ground arith }

  pub from_template-Gives :
      (request : TemplateRequest) (template : TemplateModel) (storage : StorageInfo)
      → Gives
          (AllHeld held)
          (from_template request template storage)
          (λ info. info.storage_id ≡ request.storage_id)
  unfolding from_template
  from_template-Gives request template storage =
      elim request.read_only
        as (λ read_only.
          Gives (AllHeld held)
            (elim read_only as (λ _. Run FromTemplate) [
              | none ↦ raise Exn.validation_error
              | some b ↦ return (record {
                name = request.name;
                description = request.description;
                path = storage.mount_point;
                format = template.tmp_format;
                storage_id = request.storage_id;
                size = template.size;
                user_id = request.user_id;
                read_only = b;
                storage_type = storage.storage_type;
                template_path = template.path;
                is_backing = template.is_backing;
                template_id = request.template_id;
              })
            ])
            (λ info. info.storage_id ≡ request.storage_id)) [
              | none ↦ raise-Gives Exn.validation_error
              | some b ↦ return-Gives _ refl
            ]

  pub exists-Gives :
      (name id : String) → Gives (AllHeld held) (check_volume_exists_on_storage name id) Any
  unfolding check_volume_exists_on_storage
  exists-Gives name id = search steps

  pub check_target-Gives :
      (request : CloneRequest) (source : Volume) (target : StorageInfo)
      → Gives (AllHeld held) (check_target request source target) Any
  unfolding check_target check_storage_on_availability check_available_space_on_storage
  check_target-Gives request source target = search (steps, exists-Gives)

  pub clone_in_domain-Gives :
      (env : Environment) (request : CloneRequest) (source : Volume) (target : StorageInfo)
      → Gives (AllHeld held) (clone_in_domain env request source target) Any
  unfolding clone_in_domain
  clone_in_domain-Gives env request source target =
      catch-Gives (λ _. true)
        (λ _. set_status request.volume_id Status.available >>= λ _. raise Exn.create_volume_data)
        (await (
          env.domain_clone (record (to_domain source) { storage_type = target.storage_type })
            target.mount_point env.new_id))
        (λ e. search (steps, set_status-Gives)) (search steps)

  pub get_storage_info-Any :
      (env : Environment) (id : String) → Gives (AllHeld held) (get_storage_info env id) Any
  unfolding get_storage_info
  get_storage_info-Any env id = record { given = λ w h. ground arith }

  pub check_place-Gives :
      (s : StorageInfo) (v : Volume) → IsHeld held v → Gives (AllHeld held) (check_place s v) Any
  unfolding check_place placed check_storage_on_availability check_available_space_on_storage
  check_place-Gives s v p = search (steps, mark-Gives)

  pub place-Gives :
      (env : Environment) (id : String) (v : Volume)
      → IsHeld held v
      → Gives (AllHeld held) (place env id v) Any
  unfolding place get_storage_info check_place placed check_volume_status
      check_storage_on_availability check_available_space_on_storage
  place-Gives env id v p = then-Gives (get_storage_info-Any env id) (λ storage.
      then-Gives
        (on_error-Gives is_unfit (mark Status.error "create_volume" "creating volume" v) _
          (λ e. mark-Gives held Status.error "create_volume" "creating volume" v e p)
          (raise_if-Any _ Exn.volume_status))
        (λ _. check_place-Gives storage v p))

  pub call_create-Gives :
      (env : Environment) (v : Volume)
      → IsHeld held v
      → Gives (AllHeld held) (call_create env v) Any
  unfolding call_create
  call_create-Gives env v p = search (steps, mark-Gives)

  pub create_volume_step-Gives :
      (env : Environment) (v s : String) → Gives (AllHeld held) (create_volume_step env v s) Any
  unfolding create_volume_step
  create_volume_step-Gives env v s = search (steps, place-Gives, call_create-Gives)

  pub check_vm_power_state-Gives :
      (env : Environment) (id : String) → Gives (AllHeld held) (check_vm_power_state env id) Any
  unfolding check_vm_power_state
  check_vm_power_state-Gives env id = search steps

  pub check_vms_are_off-Gives :
      (env : Environment) (attachments : List Attachment)
      → Gives (AllHeld held) (check_vms_are_off env attachments) Any
  unfolding check_vms_are_off
  check_vms_are_off-Gives env [] = search steps
  check_vms_are_off-Gives env (a ∷ rest) =
      then-Gives (check_vm_power_state-Gives env a.vm_id) (λ _. check_vms_are_off-Gives env rest)

  pub extend_on_storage-Gives :
      (env : Environment) (s v : Volume) (n : ℕ)
      → IsHeld held v
      → Gives (AllHeld held) (extend_on_storage env s v n) Any
  unfolding extend_on_storage check_storage_on_availability check_available_space_on_storage
  extend_on_storage-Gives env s v n p =
      search (steps, get_storage_info-Any, check_vms_are_off-Gives) depth 10

  pub extend_volume_step-Gives :
      (env : Environment) (s : Volume) (n : ℕ)
      → Gives (AllHeld held) (extend_volume_step env s n) Any
  unfolding extend_volume_step
  extend_volume_step-Gives env s n = search (steps, mark-Gives, extend_on_storage-Gives) depth 10

  pub from_info-Gives :
      (env : Environment) (info : FromTemplate)
      → contains held info.storage_id ≡ true
      → Gives
          (AllHeld held)
          (do
            check_volume_exists_on_storage info.name info.storage_id
            insert (template_row env.new_id info)
            cast (cast_create_from_template env.new_id info)
            return (template_row env.new_id info))
          Any
  unfolding template_row check_volume_exists_on_storage
  from_info-Gives env info here = search steps
