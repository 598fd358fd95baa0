-- ===== src/Storages/Operations/Requests.antt =====
-- openvair/modules/storage/service_layer/services.py: what the checks, the requests and the
-- periodic task keep of the ids and names.
use openvair_rde_linter.Base.{
  String, Bool, true, false, ◌≡◌, refl, ap, ℕ, is_empty, contains, keep_if, ◌==◌, not, ◌&&◌, ◌∙◌,
  Option, none, some, List, [], ◌∷◌, string_eq, arith,
}
use openvair_rde_linter.Base.Dict.{Dict}
use openvair_rde_linter.Result.{Exn, Result}
use openvair_rde_linter.Service.{answered}
use openvair_rde_linter.Service.Table.{find, write, find-key}
use openvair_rde_linter.Service.Gives.{
  Gives, Returned, Any, return-Gives, raise_if-Gives, await-Gives, bind-Gives, weaken-Gives,
}
use openvair_rde_linter.Storages.{
  TemplateReply, Storage, storage_keyed, World, Environment, get_storage, get_all_storages,
}
use openvair_rde_linter.Storages.Checks.{
  lift, is_nil, get_templates, check_storage_exists_with_current_name, check_storage_has_no_objects,
  check_partition, check_found, check_device, check_spec_exists_for_nfs_storage,
  check_specs_localfs_storage, check_spec_exists_for_storage,
}
use openvair_rde_linter.Storages.Disks.{Disk}
use openvair_rde_linter.Storages.Create.{CreateRequest, prepare_specs}
use openvair_rde_linter.Storages.Delete.{delete_storage}
use openvair_rde_linter.Storages.Partitions.{
  create_local_partition, get_local_disk_partitions_info, check_storages_on_partition,
  delete_local_partition,
}
use openvair_rde_linter.Storages.Monitor.{
  updates, Update, refreshed, broken, refresh, change_row, apply_update, update_all_storages,
  monitoring,
}
use openvair_rde_linter.Storages.Operations.Labels.{
  labels_of, names, IsUnused, get-labels, labels-write, names-taken,
}
use openvair_rde_linter.Storages.Operations.Rows.{IsBefore, IsRow, steps}

nil_lem : {A : Type 0} (xs : List A) → is_nil xs ≡ true → xs ≡ []
unfolding is_nil
nil_lem [] h = refl
nil_lem (x ∷ xs) h = cc

all_nil_lem : (a b c : Bool) → not (a && b && c) ≡ false → (a ≡ true) × (b ≡ true) × (c ≡ true)
all_nil_lem a b c h = ground arith

module _ (before : Dict String) where
  lift-Gives : {A : Type 0} (r : Result A) → Gives (IsBefore before) (lift r) Any
  lift-Gives r = record { given = λ w h. ground arith }

  check_partition-Gives :
      (env : Environment) (d : Disk) (path : String)
      → Gives (IsBefore before) (check_partition env d path) Any
  unfolding check_partition
  check_partition-Gives env d path = record { given = λ w h. ground arith }

  check_found-Gives :
      (env : Environment) (path : String) (d : Option Disk)
      → Gives (IsBefore before) (check_found env path d) Any
  unfolding check_found
  check_found-Gives env path none = search steps
  check_found-Gives env path (some d) = search (steps, check_partition-Gives)

  check_device-Gives :
      (env : Environment) (path : String) → Gives (IsBefore before) (check_device env path) Any
  unfolding check_device
  check_device-Gives env path = search (steps, check_found-Gives)

  pub prepare_specs-Gives :
      (env : Environment) (r : CreateRequest) → Gives (IsBefore before) (prepare_specs env r) Any
  unfolding prepare_specs
  prepare_specs-Gives env r = search (steps, check_device-Gives)

  localfs-Gives :
      (specs : Dict String) → Gives (IsBefore before) (check_specs_localfs_storage specs) Any
  unfolding check_specs_localfs_storage
  localfs-Gives specs = record { given = λ w h. ground arith }

  pub check_spec-Gives :
      (specs : Dict String) (t : String)
      → Gives (IsBefore before) (check_spec_exists_for_storage specs t) Any
  unfolding check_spec_exists_for_storage check_spec_exists_for_nfs_storage
  check_spec-Gives [] t = search steps
  check_spec-Gives (s ∷ specs) t = search (steps, localfs-Gives)

  -- The name that passes is not empty, and the table does not have it.
  pub check_name-Gives :
      (name : String)
      → Gives
          (IsBefore before)
          (check_storage_exists_with_current_name name)
          (λ _. (is_empty name ≡ false) × (contains (names before) name ≡ false))
  unfolding check_storage_exists_with_current_name
  check_name-Gives name = record { given = λ w h. by_tests w h }
    where
      by_tests :
          (w : World)
          → IsBefore before w
          → IsBefore before (check_storage_exists_with_current_name name w).1
            × Returned
                (λ _. (is_empty name ≡ false) × (contains (names before) name ≡ false))
                (check_storage_exists_with_current_name name w).0
      by_tests w h = ground (arith, names-taken w.storages name, ap names h)

  get_templates-Gives :
      (env : Environment) (id : String)
      → Gives (IsBefore before) (get_templates env id) (λ found.
        (all : List TemplateReply) × (env.get_all_templates ≡ answered all)
        × (found ≡ keep_if (λ template. template.storage_id == id) all))
  unfolding get_templates
  get_templates-Gives env id =
      bind-Gives (await-Gives env.get_all_templates) (λ all same. return-Gives _ (all, same, refl))

  pub check_storage_has_no_objects-Gives :
      (env : Environment) (id : String)
      → Gives (IsBefore before) (check_storage_has_no_objects env id) (λ _. IsUnused env id)
  unfolding check_storage_has_no_objects is_nil
  check_storage_has_no_objects-Gives env id =
      bind-Gives (await-Gives (env.get_volumes id)) (λ volumes vs.
        bind-Gives (await-Gives (env.get_images id)) (λ images is.
          bind-Gives (get_templates-Gives env id) (λ templates ts.
            weaken-Gives
              (λ _ h.
                let parts = all_nil_lem (is_nil volumes) (is_nil images) (is_nil templates) h in
                record {
                  no_volumes = vs ∙ ap answered (nil_lem volumes parts.0);
                  no_images = is ∙ ap answered (nil_lem images parts.1);
                  templates = ts.0;
                  all_templates = ts.1;
                  no_templates = rw (← ts.2) parts.2;
                })
              (raise_if-Gives (not (is_nil volumes && is_nil images && is_nil templates))
                Exn.storage_has_objects))))

  check_storage_has_no_objects-Any :
      (env : Environment) (id : String)
      → Gives (IsBefore before) (check_storage_has_no_objects env id) Any
  check_storage_has_no_objects-Any env id =
      weaken-Gives (λ _ _. tt) (check_storage_has_no_objects-Gives env id)

  pub delete_storage-Gives :
      (env : Environment) (id : String) → Gives (IsBefore before) (delete_storage env id) Any
  unfolding delete_storage
  delete_storage-Gives env id = search (steps, check_storage_has_no_objects-Any)

  pub partition-Gives :
      (env : Environment) (parts : List Disk) (path : String) (size : ℕ) (unit user : String)
      → Gives (IsBefore before) (create_local_partition env parts path size unit user) Any
  unfolding create_local_partition
  partition-Gives env parts path size unit user = search (steps, lift-Gives)

  pub partitions_info-Gives :
      (env : Environment) (path : Option String)
      → Gives (IsBefore before) (get_local_disk_partitions_info env path) Any
  unfolding get_local_disk_partitions_info
  partitions_info-Gives env path = search steps

  pub delete_partition-Gives :
      (env : Environment) (path num user : String)
      → Gives (IsBefore before) (delete_local_partition env path num user) Any
  unfolding delete_local_partition check_storages_on_partition
  delete_partition-Gives env path num user = search (steps, lift-Gives) depth 8

  pub get_storage-Gives : (id : String) → Gives (IsBefore before) (get_storage id) Any
  unfolding get_storage
  get_storage-Gives id = weaken-Gives {P = IsRow before} (λ _ _. tt) (search steps)

  pub get_all_storages-Gives : Gives (IsBefore before) get_all_storages Any
  unfolding get_all_storages
  get_all_storages-Gives = search steps

  labels-change_row :
      (id : String) (change : Storage → Storage) (storages : List Storage)
      → ((s : Storage) → ((change s).id ≡ s.id) × ((change s).name ≡ s.name))
      → labels_of (change_row id change storages) ≡ labels_of storages
  unfolding change_row
  labels-change_row id change storages keeps = by_found (find storages id) refl
    where
      by_found :
          (found : Option Storage)
          → find storages id ≡ found
          → labels_of (elim found as (λ _. List Storage) [
            | none ↦ storages
            | some storage ↦ write storages (change storage)
          ])
            ≡ labels_of storages
      by_found none same = refl
      by_found (some s) same =
          let key = find-key storages id s same in
          labels-write storages (change s)
            (rw ((keeps s).0, (keeps s).1, key) (get-labels storages id s same))

  labels-updates :
      (entries : List Update) (storages : List Storage)
      → labels_of (update_all_storages entries storages) ≡ labels_of storages
  unfolding update_all_storages apply_update refresh
  labels-updates [] storages = refl
  labels-updates (refreshed answer ∷ entries) storages =
      labels-updates entries _
      ∙ labels-change_row answer.id (refresh answer) storages (λ s. (refl, refl))
  labels-updates (broken id message ∷ entries) storages =
      labels-updates entries _ ∙ labels-change_row id _ storages (λ s. (refl, refl))

  pub monitoring-Gives : (env : Environment) → Gives (IsBefore before) (monitoring env) Any
  unfolding monitoring
  monitoring-Gives env = record {
    given = λ w h. (labels-updates (updates env w) w.storages ∙ h, tt);
  }
