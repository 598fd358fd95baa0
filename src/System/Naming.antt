-- ===== src/System/Naming.antt =====
-- openvair/modules/volume/service_layer/services.py: the methods that add a volume, and every step of
-- the service, by the storages that the volumes name.
use openvair_rde_linter.Base.{
  String, true, ◌≡◌, refl, sym, subst, List, contains, string_eq, or_default, not, leb, ◌==◌,
}
use openvair_rde_linter.Result.{Exn}
use openvair_rde_linter.Service.{answered, call_failed, timed_out, return, raise}
use openvair_rde_linter.Service.Gives.{
  Gives, Any, return-Gives, raise-Gives, raise_if-Any, await-Any, await-Gives, bind-Gives,
  then-Gives, on_error-Gives, weaken-Gives,
}
use openvair_rde_linter.Volumes.{
  Status, volume_keyed, cast_create, cast_extend, cast_delete, cast_create_from_template,
  StorageInfo, StorageReply, DomainVolume, World, Environment, Run, failed_while, said,
}
use openvair_rde_linter.Volumes.Checks.{
  storage_info, check_volume_exists_on_storage, get_storage_info, check_storage_on_availability,
  check_available_space_on_storage,
}
use openvair_rde_linter.Volumes.Create.{CreateRequest, new_row, is_refused, create_volume}
use openvair_rde_linter.Volumes.Clone.{
  CloneRequest, clone_row, check_target, add_clone, clone_to, clone_volume,
}
use openvair_rde_linter.Volumes.Template.{TemplateRequest, get_storage, create_from_template}
use openvair_rde_linter.Volumes.Operations.{Operation, perform, deliver_cast}
use openvair_rde_linter.System.Placing.{
  extend_volume-Gives, delete_volume-Gives, edit_volume-Gives, attach_volume-Gives,
  detach_volume-Gives, get_volume-Gives, get_all_volumes-Gives, delete_volume_step-Gives,
  create_from_template_step-Gives, monitoring-Gives, AllHeld, steps, set_status-Gives, insert-Gives,
  cast-Gives, add_event-Gives,
}
use openvair_rde_linter.System.Calling.{
  prepare_volume_data-Gives, storage_model-Gives, from_template-Gives, exists-Gives,
  check_target-Gives, clone_in_domain-Gives, create_volume_step-Gives, extend_volume_step-Gives,
  from_info-Gives,
}

module _ (held : List String) (env : Environment)
    (answers : (id : String) (reply : StorageReply)
      → env.get_storage id ≡ answered reply
      → contains held id ≡ true) where
  get_storage_info-Gives :
      (id : String) → Gives (AllHeld held) (get_storage_info env id) (λ _. contains held id ≡ true)
  unfolding get_storage_info
  get_storage_info-Gives id =
      elim (env.get_storage id)
          as (λ reply.
            env.get_storage id ≡ reply
            → Gives (AllHeld held)
                (elim reply as (λ _. Run StorageInfo) [
                  | answered r ↦ return (storage_info r)
                  | call_failed ↦ raise Exn.storage_not_found
                  | timed_out ↦ raise Exn.storage_not_found
                ])
                (λ _. contains held id ≡ true)) [
                  | answered r ↦ λ same. return-Gives _ (answers id r same)
                  | call_failed ↦ λ _. raise-Gives _
                  | timed_out ↦ λ _. raise-Gives _
                ]
        refl

  create_volume-Gives :
      (request : CreateRequest) → Gives (AllHeld held) (create_volume env request) Any
  unfolding create_volume new_row
  create_volume-Gives request = bind-Gives (prepare_volume_data-Gives held request) (λ volume _.
      then-Gives
        (on_error-Gives is_refused _ _
          (λ e.
            add_event-Gives held "None" volume.user_id "create_volume"
              (failed_while "creating volume" e))
          (then-Gives (exists-Gives held volume.name volume.storage_id) (λ _.
            bind-Gives (get_storage_info-Gives volume.storage_id) (λ _ here.
              then-Gives (insert-Gives held (new_row env.new_id volume) here)
                (λ _. return-Gives (new_row env.new_id volume) tt)))))
        (λ row. then-Gives (cast-Gives held (cast_create row)) (λ _.
          then-Gives
            (add_event-Gives held row.id (or_default request.user_id "") "create_volume"
              (said "Volume successfully inserted into db."))
            (λ _. return-Gives row tt))))

  add_clone-Gives :
      (request : CloneRequest) (clone : DomainVolume)
      → contains held request.target_storage_id ≡ true
      → Gives (AllHeld held) (add_clone request clone) Any
  unfolding add_clone clone_row
  add_clone-Gives request clone here = search (steps, set_status-Gives)

  clone_volume-Gives :
      (request : CloneRequest) → Gives (AllHeld held) (clone_volume env request) Any
  unfolding clone_volume clone_to check_target check_storage_on_availability
      check_available_space_on_storage check_volume_exists_on_storage
  clone_volume-Gives request =
      bind-Gives (get_storage_info-Gives request.target_storage_id) (λ target here.
        bind-Gives (set_status-Gives held request.volume_id Status.cloning) (λ source _.
          then-Gives (check_target-Gives held request source target) (λ _.
            then-Gives (clone_in_domain-Gives held env request source target)
              (λ clone. add_clone-Gives request clone here))))

  get_storage-Gives :
      (id : String) → Gives (AllHeld held) (get_storage env id) (λ _. contains held id ≡ true)
  unfolding get_storage
  get_storage-Gives id =
      bind-Gives (await-Gives (env.get_storage id))
        (λ reply same. weaken-Gives (λ _ _. answers id reply same) (storage_model-Gives held reply))

  create_from_template-Gives :
      (request : TemplateRequest) → Gives (AllHeld held) (create_from_template env request) Any
  unfolding create_from_template
  create_from_template-Gives request =
      then-Gives (await-Any (env.get_template request.template_id)) (λ template.
        bind-Gives (get_storage-Gives request.storage_id) (λ storage here.
          then-Gives (raise_if-Any (not (storage.status == "available")) Exn.storage_unavailable)
            (λ _.
              then-Gives
                (raise_if-Any (leb storage.available_space template.size) Exn.validate_arguments)
                (λ _. bind-Gives (from_template-Gives held request template storage) (λ info same.
                  from_info-Gives held env info
                    (subst (λ id. contains held id ≡ true) (sym same) here))))))

  -- Any step of the service leaves every volume on a storage that is held.
  pub perform-AllHeld :
      (op : Operation) (w : World) → AllHeld held w → AllHeld held (perform env op w)
  unfolding perform deliver_cast
  perform-AllHeld (Operation.create r) w h = ((create_volume-Gives r).given w h).0
  perform-AllHeld (Operation.extend v n) w h = ((extend_volume-Gives held v n).given w h).0
  perform-AllHeld (Operation.delete v) w h = ((delete_volume-Gives held v).given w h).0
  perform-AllHeld (Operation.edit r) w h = ((edit_volume-Gives held r).given w h).0
  perform-AllHeld (Operation.attach v a) w h = ((attach_volume-Gives held env v a).given w h).0
  perform-AllHeld (Operation.detach v m) w h = ((detach_volume-Gives held v m).given w h).0
  perform-AllHeld (Operation.clone r) w h = ((clone_volume-Gives r).given w h).0
  perform-AllHeld (Operation.from_template r) w h = ((create_from_template-Gives r).given w h).0
  perform-AllHeld (Operation.get_one v) w h = ((get_volume-Gives held v).given w h).0
  perform-AllHeld (Operation.get_all s f) w h = ((get_all_volumes-Gives held s f).given w h).0
  perform-AllHeld (Operation.deliver (cast_create v)) w h =
      ((create_volume_step-Gives held env v.id v.storage_id).given w h).0
  perform-AllHeld (Operation.deliver (cast_extend v n)) w h =
      ((extend_volume_step-Gives held env v n).given w h).0
  perform-AllHeld (Operation.deliver (cast_delete v)) w h =
      ((delete_volume_step-Gives held env v).given w h).0
  perform-AllHeld (Operation.deliver (cast_create_from_template v i)) w h =
      ((create_from_template_step-Gives held env v i).given w h).0
  perform-AllHeld Operation.monitor w h = ((monitoring-Gives held env).given w h).0
