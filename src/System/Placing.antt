-- ===== src/System/Placing.antt =====
-- openvair/modules/volume/service_layer/services.py: which storages the volumes name.
use openvair_rde_linter.Base.{
  ℕ, String, Bool, true, ◌≡◌, refl, Option, none, some, List, [], ◌∷◌, contains, string_eq, All,
  arith,
}
use openvair_rde_linter.Result.{Exn, ok, err}
use openvair_rde_linter.Service.{◌>>=◌}
use openvair_rde_linter.Service.Table.{find, write, find-All, write-All, add-All, remove-All}
use openvair_rde_linter.Service.Gives.{
  Gives, Returned, Any, return-Gives, raise-Gives, gets-Any, raise_if-Any, await-Any, bind-Gives,
  then-Gives, on_error-Gives, weaken-Gives, if-Gives,
}
use openvair_rde_linter.Volumes.{
  FromTemplate, Attachment, Status, Message, Volume, volume_keyed, Cast, World, Environment, Run,
  get_or_fail, save, insert, delete_row, cast, add_event, mark,
}
use openvair_rde_linter.Volumes.Extend.{start_extending, extend_volume}
use openvair_rde_linter.Volumes.Delete.{
  EditRequest, start_deleting, delete_volume, delete_in_domain, delete_volume_step, check_new_name,
  edited, edit_volume,
}
use openvair_rde_linter.Volumes.Attach.{
  mark_silently, with_attachment, attach_volume, detach_volume,
}
use openvair_rde_linter.Volumes.Clone.{set_status}
use openvair_rde_linter.Volumes.Template.{create_from_template_step}
use openvair_rde_linter.Volumes.Queries.{get_volume, get_all_volumes}
use openvair_rde_linter.Volumes.Monitor.{Update, updated, bulk_update, monitoring}
use openvair_rde_linter.Volumes.Checks.{
  check_volume_status, check_extended_size, check_volume_has_not_attachment,
  check_volume_exists_on_storage,
}

module _ (held : List String) where
  -- The storage of the volume is one of them.
  abbrev pub IsHeld : Volume → Type 0
  IsHeld volume = contains held volume.storage_id ≡ true

  abbrev pub AllHeld : World → Type 0
  AllHeld w = All IsHeld w.volumes

  abbrev got : Option Volume → Run Volume
  got found w = elim found [ none ↦ (err Exn.entity_not_found, w) | some volume ↦ (ok volume, w) ]

  pub get_or_fail-Gives : (id : String) → Gives AllHeld (get_or_fail id) IsHeld
  unfolding get_or_fail
  get_or_fail-Gives id = record { given = λ w h. by_found w h (find w.volumes id) refl }
    where
      by_found :
          (w : World)
          → AllHeld w
          → (found : Option Volume) → find w.volumes id ≡ found
          → AllHeld (got found w).1 × Returned IsHeld (got found w).0
      by_found w h none same = (h, tt)
      by_found w h (some v) same = (h, find-All IsHeld w.volumes id v h same)

  pub save-Gives : (v : Volume) → IsHeld v → Gives AllHeld (save v) Any
  unfolding save
  save-Gives v p = record { given = λ w h. (write-All IsHeld w.volumes v h p, tt) }

  pub insert-Gives : (v : Volume) → IsHeld v → Gives AllHeld (insert v) Any
  unfolding insert
  insert-Gives v p = record { given = λ w h. (add-All IsHeld w.volumes v h p, tt) }

  pub delete_row-Gives : (v : Volume) → Gives AllHeld (delete_row v) Any
  unfolding delete_row
  delete_row-Gives v = record { given = λ w h. (remove-All IsHeld w.volumes v.id h, tt) }

  pub cast-Gives : (c : Cast) → Gives AllHeld (cast c) Any
  unfolding cast
  cast-Gives c = record { given = λ w h. (h, tt) }

  pub add_event-Gives : (o u e : String) (m : Message) → Gives AllHeld (add_event o u e m) Any
  unfolding add_event
  add_event-Gives o u e m = record { given = λ w h. (h, tt) }

  pub held_then-Gives :
      {B : Type 0} {Q : B → Type 0} {m : Run Volume} {f : Volume → Run B}
      → Gives AllHeld m IsHeld
      → ((v : Volume) → IsHeld v → Gives AllHeld (f v) Q)
      → Gives AllHeld (m >>= f) Q
  held_then-Gives hm hf = bind-Gives hm hf

  pub ruleset steps = (
    then-Gives, held_then-Gives, on_error-Gives, return-Gives, raise-Gives, gets-Any, raise_if-Any,
    await-Any, get_or_fail-Gives, save-Gives, insert-Gives, delete_row-Gives, cast-Gives,
    add_event-Gives,
  )

  pub mark-Gives :
      (status : Status) (event doing : String) (volume : Volume) (raised : Exn)
      → IsHeld volume
      → Gives AllHeld (mark status event doing volume raised) Any
  unfolding mark
  mark-Gives status event doing volume raised p = search steps

  pub start_extending-Gives :
      (v : Volume) (n : ℕ) → IsHeld v → Gives AllHeld (start_extending v n) IsHeld
  unfolding start_extending check_volume_status check_extended_size
  start_extending-Gives v n p = search (steps, mark-Gives)

  pub extend_volume-Gives :
      (id : Option String) (n : Option ℕ) → Gives AllHeld (extend_volume id n) Any
  unfolding extend_volume
  extend_volume-Gives id n = search (steps, start_extending-Gives, weaken-Gives)

  pub start_deleting-Gives : (v : Volume) → IsHeld v → Gives AllHeld (start_deleting v) Any
  unfolding start_deleting check_volume_status check_volume_has_not_attachment
  start_deleting-Gives v p = search steps

  pub delete_volume-Gives : (id : Option String) → Gives AllHeld (delete_volume id) Any
  unfolding delete_volume
  delete_volume-Gives id = search (steps, start_deleting-Gives, mark-Gives)

  pub delete_in_domain-Gives :
      (env : Environment) (s v : Volume) → Gives AllHeld (delete_in_domain env s v) Any
  unfolding delete_in_domain
  delete_in_domain-Gives env s v = search (steps, if-Gives)

  pub delete_volume_step-Gives :
      (env : Environment) (s : Volume) → Gives AllHeld (delete_volume_step env s) Any
  unfolding delete_volume_step
  delete_volume_step-Gives env s = search (steps, delete_in_domain-Gives, mark-Gives)

  pub check_new_name-Gives : (n : String) (v : Volume) → Gives AllHeld (check_new_name n v) Any
  unfolding check_new_name check_volume_exists_on_storage
  check_new_name-Gives n v = record { given = λ w h. ground arith }

  pub edit_volume-Gives : (r : EditRequest) → Gives AllHeld (edit_volume r) Any
  unfolding edit_volume check_volume_status edited
  edit_volume-Gives r = search (steps, check_new_name-Gives)

  pub mark_silently-Gives :
      (doing : String) (v : Volume) (e : Exn)
      → IsHeld v
      → Gives AllHeld (mark_silently doing v e) Any
  unfolding mark_silently
  mark_silently-Gives doing v e p = search steps

  pub attach_volume-Gives :
      (env : Environment) (id : Option String) (a : Attachment)
      → Gives AllHeld (attach_volume env id a) Any
  unfolding attach_volume check_volume_status with_attachment
  attach_volume-Gives env id a = search (steps)

  pub detach_volume-Gives : (id vm_id : Option String) → Gives AllHeld (detach_volume id vm_id) Any
  unfolding detach_volume check_volume_status
  detach_volume-Gives id vm_id = search (steps)

  pub set_status-Gives : (id : String) (s : Status) → Gives AllHeld (set_status id s) IsHeld
  unfolding set_status
  set_status-Gives id s = search steps

  pub create_from_template_step-Gives :
      (env : Environment) (id : String) (i : FromTemplate)
      → Gives AllHeld (create_from_template_step env id i) Any
  unfolding create_from_template_step
  create_from_template_step-Gives env id i = search (steps, set_status-Gives)

  pub get_volume-Gives : (id : Option String) → Gives AllHeld (get_volume id) Any
  unfolding get_volume
  get_volume-Gives id = weaken-Gives {P = IsHeld} (λ _ _. tt) (search steps)

  pub get_all_volumes-Gives :
      (id : Option String) (free : Option Bool) → Gives AllHeld (get_all_volumes id free) Any
  unfolding get_all_volumes
  get_all_volumes-Gives id free = search steps

  pub bulk_update-All :
      (updates : List Update) (volumes : List Volume)
      → All IsHeld volumes
      → All IsHeld (bulk_update updates volumes)
  unfolding bulk_update updated
  bulk_update-All [] volumes h = h
  bulk_update-All (u ∷ updates) volumes h =
      elim (find volumes u.id)
          as (λ found.
            find volumes u.id ≡ found
            → All IsHeld (elim found [
              | none ↦ bulk_update updates volumes
              | some volume ↦ bulk_update updates (write volumes (updated u volume))
            ])) [
              | none ↦ λ _. bulk_update-All updates volumes h
              | some volume ↦ λ same. bulk_update-All updates _ (
                  write-All IsHeld volumes (updated u volume) h
                    (find-All IsHeld volumes u.id volume h same))
            ]
        refl

  pub monitoring-Gives : (env : Environment) → Gives AllHeld (monitoring env) Any
  unfolding monitoring
  monitoring-Gives env = record { given = λ w h. (bulk_update-All _ w.volumes h, tt) }
