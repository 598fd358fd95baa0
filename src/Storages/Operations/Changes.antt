-- ===== src/Storages/Operations/Changes.antt =====
-- openvair/modules/storage/service_layer/services.py: what each method makes of the ids and names.
use openvair_rde_linter.Base.{
  String, false, ◌≡◌, refl, sym, ap, ◌∙◌, [], ◌∷◌, ◌++◌, contains, string_eq, is_empty, subst,
}
use openvair_rde_linter.Base.Dict.{Dict}
use openvair_rde_linter.Service.{is_rpc_error, await, ◌>>◌}
use openvair_rde_linter.Service.Ensures.{Ensures}
use openvair_rde_linter.Service.Gives.{Gives, Any, await-Any}
use openvair_rde_linter.Service.Ends.{Ends, bind-Ends, catch-Ends, bind_given-Ensures}
use openvair_rde_linter.Storages.{
  Storage, storage_keyed, cast_create, cast_delete, World, Environment, Run, insert, delete_row,
  cast, add_event,
}
use openvair_rde_linter.Storages.Create.{CreateRequest, new_row, accept, create_storage}
use openvair_rde_linter.Storages.Delete.{
  delete_in_domain, drop_row, fail_deleting, delete_storage_step,
}
use openvair_rde_linter.Storages.Operations.{Operation, perform, deliver_cast}
use openvair_rde_linter.Storages.Operations.Labels.{
  labels, names, without, IsUnused, Change, same, added, removed, labels-add, labels-remove,
}
use openvair_rde_linter.Storages.Operations.Rows.{
  IsBefore, get_or_fail-Named, fail_deleting-Gives, create_storage_step-Gives,
  get_local_disks-Gives,
}
use openvair_rde_linter.Storages.Operations.Requests.{
  prepare_specs-Gives, check_name-Gives, check_spec-Gives, check_storage_has_no_objects-Gives,
  delete_storage-Gives, get_storage-Gives, get_all_storages-Gives, partition-Gives,
  partitions_info-Gives, delete_partition-Gives, monitoring-Gives,
}

module _ (env : Environment) (before : Dict String) where
  abbrev IsAfter : Operation → World → Type 0
  IsAfter op w = Change env op before (labels w)

  unchanged : (op : Operation) (w : World) → IsBefore before w → IsAfter op w
  unchanged op w h = subst (Change env op before) (sym h) same

  accept-Ensures :
      (request : CreateRequest) (row : Storage) (op : Operation)
      → row.id ≡ env.new_id
      → is_empty row.name ≡ false
      → contains (names before) row.name ≡ false
      → Ensures (IsBefore before) (accept request row) (IsAfter op)
  unfolding accept insert cast add_event
  accept-Ensures request row op key named free = record {
    ensured = λ w h.
        subst (Change env op before)
          (sym (
            labels-add w.storages row
            ∙ ap (λ b. b ++ ((row.id, row.name) ∷ [])) h
            ∙ ap (λ i. before ++ ((i, row.name) ∷ [])) key))
          (added row.name named free);
  }

  create_storage-Ensures :
      (request : CreateRequest) (op : Operation)
      → Ensures (IsBefore before) (create_storage env request) (IsAfter op)
  unfolding create_storage new_row
  create_storage-Ensures request op =
      bind_given-Ensures (unchanged op) (prepare_specs-Gives before env request) (λ specs _.
        bind_given-Ensures (unchanged op) (check_name-Gives before request.name) (λ _ free.
          bind_given-Ensures (unchanged op) (check_spec-Gives before specs request.storage_type)
            (λ _ _.
              accept-Ensures request (new_row env.new_id request specs) op refl free.0 free.1)))

  drop_row-Ends :
      (serialized storage : Storage)
      → storage.id ≡ serialized.id
      → IsUnused env serialized.id
      → Ends
          (IsBefore before)
          (drop_row storage)
          (IsAfter (Operation.deliver (cast_delete serialized)))
  unfolding drop_row delete_row add_event
  drop_row-Ends serialized storage key unused = record {
    ended = λ w h.
        subst (Change env _ before)
          (sym (
            labels-remove w.storages storage.id
            ∙ ap (without storage.id) h
            ∙ ap (λ i. without i before) key))
          (removed serialized refl unused);
  }

  delete_step-Ensures :
      (serialized : Storage)
      → Ensures
          (IsBefore before)
          (delete_storage_step env serialized)
          (IsAfter (Operation.deliver (cast_delete serialized)))
  unfolding delete_storage_step delete_in_domain
  delete_step-Ensures serialized =
      bind_given-Ensures (unchanged _) (get_or_fail-Named before serialized.id) (λ storage row.
        catch-Ends is_rpc_error (fail_deleting storage) (delete_in_domain env serialized storage)
          (unchanged _) (λ e. fail_deleting-Gives before storage e row.0)
          (bind-Ends {f = λ _. await (env.domain_delete serialized) >> drop_row storage}
            (check_storage_has_no_objects-Gives before env serialized.id)
            (λ _ unused.
              bind-Ends {f = λ _. drop_row storage} (await-Any (env.domain_delete serialized))
                (λ _ _. drop_row-Ends serialized storage row.1 unused))))

  kept-Ensures :
      {A : Type 0} {m : Run A} (op : Operation)
      → Gives (IsBefore before) m Any
      → Ensures (IsBefore before) m (IsAfter op)
  kept-Ensures {m = m} op hm = record { ensured = λ w h. unchanged op (m w).1 (hm.given w h).0 }

  -- Whatever the operation does, it is one of the changes.
  change_from : (op : Operation) (w : World) → IsBefore before w → IsAfter op (perform env op w)
  unfolding perform deliver_cast
  change_from (Operation.create r) w h = (create_storage-Ensures r _).ensured w h
  change_from (Operation.delete id) w h =
      (kept-Ensures _ (delete_storage-Gives before env id)).ensured w h
  change_from (Operation.get_one id) w h =
      (kept-Ensures _ (get_storage-Gives before id)).ensured w h
  change_from Operation.get_all w h = (kept-Ensures _ (get_all_storages-Gives before)).ensured w h
  change_from (Operation.disks free) w h =
      (kept-Ensures _ (get_local_disks-Gives before env free)).ensured w h
  change_from (Operation.add_partition parts path size unit user) w h =
      (kept-Ensures _ (partition-Gives before env parts path size unit user)).ensured w h
  change_from (Operation.partitions_info path) w h =
      (kept-Ensures _ (partitions_info-Gives before env path)).ensured w h
  change_from (Operation.remove_partition path num user) w h =
      (kept-Ensures _ (delete_partition-Gives before env path num user)).ensured w h
  change_from (Operation.deliver (cast_create s)) w h =
      (kept-Ensures _ (create_storage_step-Gives before env s)).ensured w h
  change_from (Operation.deliver (cast_delete s)) w h = (delete_step-Ensures s).ensured w h
  change_from Operation.monitor w h = (kept-Ensures _ (monitoring-Gives before env)).ensured w h

-- A request, a cast or the periodic task, whatever the other services answer and whether it returns or
-- raises, leaves the ids and names of the storages as they are, or adds one storage with the new id
-- under a name that is not empty and not taken, or takes away the storage whose deletion was cast, which
-- it does only if no volume, image or template is on it.
pub perform-Change :
    (env : Environment) (op : Operation) (w : World)
    → Change env op (labels w) (labels (perform env op w))
perform-Change env op w = change_from env (labels w) op w refl
