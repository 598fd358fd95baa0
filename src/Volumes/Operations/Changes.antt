-- ===== src/Volumes/Operations/Changes.antt =====
-- openvair/modules/volume/service_layer/services.py: what each method makes of the primary keys.
use openvair_rde_linter.Base.{String, not, ◌≡◌, refl, ap, List, ◌==◌, string_eq, or_default, leb}
use openvair_rde_linter.Result.{Exn}
use openvair_rde_linter.Service.{is_rpc_error, ◌>>=◌}
use openvair_rde_linter.Service.Keeps.{Keeps, return-Keeps, raise_if-Keeps, await-Keeps, bind-Keeps}
use openvair_rde_linter.Service.Ensures.{
  Ensures, Keeps-Ensures, bind-Ensures, bind_with-Ensures, on_error-Ensures,
}
use openvair_rde_linter.Volumes.{
  Status, Volume, volume_keyed, DomainVolume, World, Environment, Run, insert, delete_row, said,
  cast_create, cast_create_from_template, failed_while, Cast, cast_extend, cast_delete,
}
use openvair_rde_linter.Volumes.Create.{CreateRequest, create_volume, is_refused, new_row}
use openvair_rde_linter.Volumes.Delete.{delete_volume_step}
use openvair_rde_linter.Volumes.Clone.{CloneRequest, clone_volume, clone_row, clone_to, add_clone}
use openvair_rde_linter.Volumes.Template.{TemplateRequest, create_from_template, template_row}
use openvair_rde_linter.Volumes.Operations.{ids, Operation, perform, deliver_cast, ClonesUnderId}
use openvair_rde_linter.Volumes.Operations.Rows.{
  get_or_fail-Keeps, cast-Keeps, add_event-Keeps, get_storage_info-Keeps, exists-Keeps, mark-Keeps,
  prepare_volume_data-Keeps, create_volume_step-Keeps, extend_volume-Keeps,
  extend_volume_step-Keeps, delete_volume-Keeps, edit_volume-Keeps, attach_volume-Keeps,
  detach_volume-Keeps, set_status-Keeps, check_target-Keeps, create_from_template_step-Keeps,
  get_storage-Keeps, from_template-Keeps, get_volume-Keeps, get_all_volumes-Keeps,
}
use openvair_rde_linter.Volumes.Operations.Answers.{
  monitoring-Keeps, clone_in_domain-Keeps, clone_in_domain-id, delete_in_domain-Keeps,
  get_or_fail-id,
}

-- What is shown of the keys before and after a method, from what is known of the rows that it adds
-- and takes away. A new row has the new id.
module _ (env : Environment) (P Q : List String → Type 0)
    (weaker : (xs : List String) → P xs → Q xs)
    (inserts : (v : Volume)
      → v.id ≡ env.new_id
      → Ensures (λ w. P (ids w)) (insert v) (λ w. Q (ids w))) where
  kept_then-Ensures :
      {A B : Type 0} {m : Run A} {f : A → Run B}
      → Keeps ids m
      → ((a : A) → Ensures (λ w. P (ids w)) (f a) (λ w. Q (ids w)))
      → Ensures (λ w. P (ids w)) (m >>= f) (λ w. Q (ids w))
  kept_then-Ensures hm hf = bind-Ensures (λ w. weaker (ids w)) (Keeps-Ensures P hm) hf

  then_kept-Ensures :
      {A B : Type 0} {m : Run A} {f : A → Run B} {before : World → Type 0}
      → Ensures before m (λ w. Q (ids w))
      → ((a : A) → Keeps ids (f a))
      → Ensures before (m >>= f) (λ w. Q (ids w))
  then_kept-Ensures hm hf = bind-Ensures (λ w p. p) hm (λ a. Keeps-Ensures Q (hf a))

  kept-Ensures :
      {A : Type 0} {m : Run A} → Keeps ids m → Ensures (λ w. P (ids w)) m (λ w. Q (ids w))
  kept-Ensures hm = record { ensured = λ w p. weaker _ ((Keeps-Ensures P hm).ensured w p) }

  create_volume-Ensures :
      (request : CreateRequest)
      → Ensures (λ w. P (ids w)) (create_volume env request) (λ w. Q (ids w))
  unfolding create_volume new_row
  create_volume-Ensures request = kept_then-Ensures (prepare_volume_data-Keeps request) (λ volume.
      then_kept-Ensures
        (on_error-Ensures is_refused _ _
          (λ raised. Keeps-Ensures Q (
            add_event-Keeps "None" volume.user_id "create_volume"
              (failed_while "creating volume" raised)))
          (kept_then-Ensures (exists-Keeps volume.name volume.storage_id) (λ _.
            kept_then-Ensures (get_storage_info-Keeps env volume.storage_id) (λ _.
              then_kept-Ensures (inserts (new_row env.new_id volume) refl)
                (λ _. return-Keeps (new_row env.new_id volume))))))
        (λ row. bind-Keeps (cast-Keeps (cast_create row)) (λ _.
          bind-Keeps
            (add_event-Keeps row.id (or_default request.user_id "") "create_volume"
              (said "Volume successfully inserted into db."))
            (λ _. return-Keeps row))))

  create_from_template-Ensures :
      (request : TemplateRequest)
      → Ensures (λ w. P (ids w)) (create_from_template env request) (λ w. Q (ids w))
  unfolding create_from_template template_row
  create_from_template-Ensures request =
      kept_then-Ensures (await-Keeps (env.get_template request.template_id)) (λ template.
        kept_then-Ensures (get_storage-Keeps env request.storage_id) (λ storage.
          kept_then-Ensures
            (raise_if-Keeps (not (storage.status == "available")) Exn.storage_unavailable)
            (λ _.
              kept_then-Ensures
                (raise_if-Keeps (leb storage.available_space template.size) Exn.validate_arguments)
                (λ _. kept_then-Ensures (from_template-Keeps request template storage) (λ info.
                  kept_then-Ensures (exists-Keeps info.name info.storage_id) (λ _.
                    then_kept-Ensures (inserts (template_row env.new_id info) refl) (λ _.
                      bind-Keeps (cast-Keeps (cast_create_from_template env.new_id info))
                        (λ _. return-Keeps (template_row env.new_id info)))))))))

  clone_volume-Ensures :
      (request : CloneRequest)
      → ClonesUnderId env
      → Ensures (λ w. P (ids w)) (clone_volume env request) (λ w. Q (ids w))
  unfolding clone_volume clone_to add_clone clone_row
  clone_volume-Ensures request faithful =
      kept_then-Ensures (get_storage_info-Keeps env request.target_storage_id) (λ target.
        kept_then-Ensures (set_status-Keeps request.volume_id Status.cloning) (λ source.
          kept_then-Ensures (check_target-Keeps request source target) (λ _.
            bind_with-Ensures (λ (clone : DomainVolume). clone.id ≡ env.new_id)
              (clone_in_domain-id env request source target faithful) (λ w. weaker (ids w))
              (Keeps-Ensures P (clone_in_domain-Keeps env request source target))
              (λ clone same.
                kept_then-Ensures (set_status-Keeps request.volume_id Status.available) (λ _.
                  then_kept-Ensures (inserts (clone_row request clone) same) (λ _.
                    bind-Keeps
                      (add_event-Keeps clone.id (or_default request.user_id "") "clone_volume"
                        (said "Volume successfully cloned."))
                      (λ _. return-Keeps (clone_row request clone))))))))

  delete_volume_step-Ensures :
      (s : Volume)
      → ((v : Volume) → v.id ≡ s.id → Ensures (λ w. P (ids w)) (delete_row v) (λ w. Q (ids w)))
      → Ensures (λ w. P (ids w)) (delete_volume_step env s) (λ w. Q (ids w))
  unfolding delete_volume_step
  delete_volume_step-Ensures s removes =
      bind_with-Ensures (λ (volume : Volume). volume.id ≡ s.id) (λ w v. get_or_fail-id s.id w v)
        (λ w. weaker (ids w)) (Keeps-Ensures P (get_or_fail-Keeps s.id))
        (λ volume same.
          on_error-Ensures is_rpc_error _ _
            (λ e. Keeps-Ensures Q (
              mark-Keeps Status.error "_delete_volume"
                "calling the domain layer while deleting volume" volume e))
            (kept_then-Ensures (delete_in_domain-Keeps env s volume) (λ _.
              then_kept-Ensures (removes volume same) (λ _.
                add_event-Keeps s.id volume.user_id "_delete_volume"
                  (said "Volume successfully deleted from the system.")))))

  deliver_cast-Ensures :
      (message : Cast) (w : World)
      → ((s v : Volume)
          → message ≡ cast_delete s
          → v.id ≡ s.id
          → Ensures (λ w. P (ids w)) (delete_row v) (λ w. Q (ids w)))
      → P (ids w)
      → Q (ids (deliver_cast env message w))
  unfolding deliver_cast
  deliver_cast-Ensures (cast_create v) w removes p =
      (kept-Ensures (create_volume_step-Keeps env v.id v.storage_id)).ensured w p
  deliver_cast-Ensures (cast_extend v n) w removes p =
      (kept-Ensures (extend_volume_step-Keeps env v n)).ensured w p
  deliver_cast-Ensures (cast_delete s) w removes p =
      (delete_volume_step-Ensures s (λ v. removes s v refl)).ensured w p
  deliver_cast-Ensures (cast_create_from_template v info) w removes p =
      (kept-Ensures (create_from_template_step-Keeps env v info)).ensured w p

  pub perform-Ensures :
      (op : Operation) (w : World)
      → ClonesUnderId env
      → ((s v : Volume)
          → op ≡ Operation.deliver (cast_delete s)
          → v.id ≡ s.id
          → Ensures (λ w. P (ids w)) (delete_row v) (λ w. Q (ids w)))
      → P (ids w)
      → Q (ids (perform env op w))
  unfolding perform
  perform-Ensures (Operation.create r) w faithful removes p = (create_volume-Ensures r).ensured w p
  perform-Ensures (Operation.extend v n) w faithful removes p =
      (kept-Ensures (extend_volume-Keeps v n)).ensured w p
  perform-Ensures (Operation.delete v) w faithful removes p =
      (kept-Ensures (delete_volume-Keeps v)).ensured w p
  perform-Ensures (Operation.edit r) w faithful removes p =
      (kept-Ensures (edit_volume-Keeps r)).ensured w p
  perform-Ensures (Operation.attach v a) w faithful removes p =
      (kept-Ensures (attach_volume-Keeps env v a)).ensured w p
  perform-Ensures (Operation.detach v m) w faithful removes p =
      (kept-Ensures (detach_volume-Keeps v m)).ensured w p
  perform-Ensures (Operation.clone r) w faithful removes p =
      (clone_volume-Ensures r faithful).ensured w p
  perform-Ensures (Operation.from_template r) w faithful removes p =
      (create_from_template-Ensures r).ensured w p
  perform-Ensures (Operation.get_one v) w faithful removes p =
      (kept-Ensures (get_volume-Keeps v)).ensured w p
  perform-Ensures (Operation.get_all s f) w faithful removes p =
      (kept-Ensures (get_all_volumes-Keeps s f)).ensured w p
  perform-Ensures (Operation.deliver message) w faithful removes p =
      deliver_cast-Ensures message w (λ s v e. removes s v (ap Operation.deliver e)) p
  perform-Ensures Operation.monitor w faithful removes p =
      (kept-Ensures (monitoring-Keeps env)).ensured w p
