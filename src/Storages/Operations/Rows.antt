-- ===== src/Storages/Operations/Rows.antt =====
-- openvair/modules/storage/service_layer/services.py: what the methods keep of the ids and names.
use openvair_rde_linter.Base.{String, Bool, ◌≡◌, refl, ◌∙◌, Option, none, some, string_eq}
use openvair_rde_linter.Base.Dict
use openvair_rde_linter.Base.Dict.{Dict}
use openvair_rde_linter.Result.{Exn, ok, err}
use openvair_rde_linter.Service.{◌>>=◌}
use openvair_rde_linter.Service.Table.{find, find-key}
use openvair_rde_linter.Service.Gives.{
  Gives, Returned, Any, return-Gives, raise-Gives, gets-Any, raise_if-Any, raise_if-Gives,
  await-Any, await-Gives, bind-Gives, then-Gives, on_error-Gives, weaken-Gives, if-Gives,
}
use openvair_rde_linter.Volumes.{Message}
use openvair_rde_linter.Storages.{
  Storage, storage_keyed, Cast, World, Environment, Run, get_or_fail, save, cast, add_event,
}
use openvair_rde_linter.Storages.Checks.{check_storage_status, get_local_disks}
use openvair_rde_linter.Storages.Create.{
  created, fail_creating, call_create, start_creating, create_storage_step,
}
use openvair_rde_linter.Storages.Delete.{fail_deleting}
use openvair_rde_linter.Storages.Operations.Labels.{labels, get-labels, labels-write}

module _ (before : Dict String) where
  -- The table has these ids and names.
  abbrev pub IsBefore : World → Type 0
  IsBefore w = labels w ≡ before

  -- The row has the name that the table has for its id.
  abbrev pub IsRow : Storage → Type 0
  IsRow s = Dict.get before s.id ≡ some s.name

  abbrev got : Option Storage → Run Storage
  got found w = elim found [ none ↦ (err Exn.entity_not_found, w) | some storage ↦ (ok storage, w) ]

  pub get_or_fail-Named :
      (id : String) → Gives IsBefore (get_or_fail id) (λ s. IsRow s × (s.id ≡ id))
  unfolding get_or_fail
  get_or_fail-Named id = record { given = λ w h. by_found w h (find w.storages id) refl }
    where
      by_found :
          (w : World)
          → IsBefore w
          → (found : Option Storage) → find w.storages id ≡ found
          → IsBefore (got found w).1 × Returned (λ s. IsRow s × (s.id ≡ id)) (got found w).0
      by_found w h none same = (h, tt)
      by_found w h (some s) same =
          let key = find-key w.storages id s same in
          (h, (rw (← h, key) (get-labels w.storages id s same), key))

  pub get_or_fail-Gives : (id : String) → Gives IsBefore (get_or_fail id) IsRow
  get_or_fail-Gives id = weaken-Gives (λ _ p. p.0) (get_or_fail-Named id)

  pub save-Gives : (s : Storage) → IsRow s → Gives IsBefore (save s) Any
  unfolding save
  save-Gives s p = record { given = λ w h. (labels-write w.storages s (rw h p) ∙ h, tt) }

  pub cast-Gives : (c : Cast) → Gives IsBefore (cast c) Any
  unfolding cast
  cast-Gives c = record { given = λ w h. (h, tt) }

  pub add_event-Gives : (o u e : String) (m : Message) → Gives IsBefore (add_event o u e m) Any
  unfolding add_event
  add_event-Gives o u e m = record { given = λ w h. (h, tt) }

  pub row_then-Gives :
      {B : Type 0} {Q : B → Type 0} {m : Run Storage} {f : Storage → Run B}
      → Gives IsBefore m IsRow
      → ((s : Storage) → IsRow s → Gives IsBefore (f s) Q)
      → Gives IsBefore (m >>= f) Q
  row_then-Gives hm hf = bind-Gives hm hf

  pub ruleset steps = (
    then-Gives, row_then-Gives, on_error-Gives, return-Gives, raise-Gives, gets-Any, raise_if-Any,
    await-Any, get_or_fail-Gives, save-Gives, cast-Gives, add_event-Gives, if-Gives,
  )

  start_creating-Gives : (id : String) → Gives IsBefore (start_creating id) Any
  unfolding start_creating check_storage_status
  start_creating-Gives id = search steps

  call_create-Gives :
      (env : Environment) (s t : Storage) → IsRow t → Gives IsBefore (call_create env s t) Any
  unfolding call_create fail_creating created
  call_create-Gives env s t p = search steps

  pub create_storage_step-Gives :
      (env : Environment) (s : Storage) → Gives IsBefore (create_storage_step env s) Any
  unfolding create_storage_step
  create_storage_step-Gives env s = search (steps, start_creating-Gives, call_create-Gives)

  pub fail_deleting-Gives :
      (s : Storage) (e : Exn) → IsRow s → Gives IsBefore (fail_deleting s e) Any
  unfolding fail_deleting
  fail_deleting-Gives s e p = search steps

  pub get_local_disks-Gives :
      (env : Environment) (free : Bool) → Gives IsBefore (get_local_disks env free) Any
  unfolding get_local_disks
  get_local_disks-Gives env free = search steps
