-- ===== src/Volumes/Monitor/Bulk.antt =====
-- openvair/modules/volume/service_layer/services.py: the bulk update of the periodic task.
use openvair_rde_linter.Base.{
  String, true, false, ◌≡◌, refl, sym, ap, ◌∙◌, subst, Option, none, some, List, [], ◌∷◌, map,
  arith, contains, All, ◌⊎◌, inl, inr, string_eq,
}
use openvair_rde_linter.Service.Table.{find, write, find-write, find-key, find-written}
use openvair_rde_linter.Volumes.{Status, Volume, volume_keyed}
use openvair_rde_linter.Volumes.Monitor.{Update, updated, bulk_update}

-- the id that an update is for
abbrev pub targets : List Update → List String
targets updates = map (λ (u : Update). u.id) updates

-- one round of the bulk update
bulk_update-found :
    (u : Update) (updates : List Update) (volumes : List Volume)
    → ((r : Volume) × (find volumes u.id ≡ some r)
        × (bulk_update (u ∷ updates) volumes ≡ bulk_update updates (write volumes (updated u r))))
      ⊎ ((find volumes u.id ≡ none)
          × (bulk_update (u ∷ updates) volumes ≡ bulk_update updates volumes))
unfolding bulk_update
bulk_update-found u updates volumes = by_found (find volumes u.id) refl
  where
    by_found :
        (found : Option Volume)
        → find volumes u.id ≡ found
        → ((r : Volume) × (find volumes u.id ≡ some r)
            × (bulk_update (u ∷ updates) volumes
                ≡ bulk_update updates (write volumes (updated u r))))
          ⊎ ((find volumes u.id ≡ none)
              × (bulk_update (u ∷ updates) volumes ≡ bulk_update updates volumes))
    by_found none h = inr (h, ground arith)
    by_found (some r) h = inl (r, h, ground arith)

-- A volume that no update is for is left alone.
pub bulk_update-untargeted :
    (updates : List Update) (volumes : List Volume) (id : String)
    → contains (targets updates) id ≡ false
    → find (bulk_update updates volumes) id ≡ find volumes id
unfolding bulk_update updated
bulk_update-untargeted [] volumes id h = refl
bulk_update-untargeted (u ∷ updates) volumes id h = elim (bulk_update-found u updates volumes) [
  | inr (_, step) ↦
      ap (λ t. find t id) step ∙ bulk_update-untargeted updates volumes id (ground arith)
  | inl (r, found, step) ↦
      ap (λ t. find t id) step
      ∙ bulk_update-untargeted updates (write volumes (updated u r)) id (ground arith)
      ∙ ground (arith, find-write volumes (updated u r) id, find-key volumes u.id r found)
]

-- The volume has become available.
abbrev pub IsAvailable : List Volume → String → Type 0
IsAvailable volumes id = (u : Volume) × (find volumes id ≡ some u) × (u.status ≡ Status.available)

-- The updates all give the status `available`, and the volume is so already or one is for it.
pub bulk_update-available :
    (updates : List Update) (volumes : List Volume) (id : String) (v : Volume)
    → All (λ (u : Update). u.status ≡ Status.available) updates
    → find volumes id ≡ some v
    → (v.status ≡ Status.available) ⊎ (contains (targets updates) id ≡ true)
    → IsAvailable (bulk_update updates volumes) id
unfolding bulk_update updated
bulk_update-available [] volumes id v good h (inl done) = (v, h, done)
bulk_update-available [] volumes id v good h (inr aimed) = cc
bulk_update-available (u ∷ updates) volumes id v good h aimed =
    elim (bulk_update-found u updates volumes) [
      | inr (absent, step) ↦
          subst (λ t. IsAvailable t id) (sym step)
            (bulk_update-available updates volumes id v good.1 h
              (elim aimed [ inl done ↦ inl done | inr m ↦ inr (aimed_later absent m) ]))
      | inl (r, found, step) ↦
          subst (λ t. IsAvailable t id) (sym step)
            (after_write (λ t r'. bulk_update-available updates t id r' good.1) r found
              (string_eq.dec u.id id))
    ]
  where
    aimed_later :
        find volumes u.id ≡ none
        → contains (targets (u ∷ updates)) id ≡ true
        → contains (targets updates) id ≡ true
    aimed_later absent m = ground arith

    after_write :
        ((t : List Volume) (r : Volume)
          → find t id ≡ some r
          → (r.status ≡ Status.available) ⊎ (contains (targets updates) id ≡ true)
          → IsAvailable (bulk_update updates t) id)
        → (r : Volume) → find volumes u.id ≡ some r
        → Dec (u.id ≡ id)
        → IsAvailable (bulk_update updates (write volumes (updated u r))) id
    after_write ih r found (yes same) =
        ih (write volumes (updated u r)) (updated u r)
          (find-written volumes id r (updated u r) (ap (find volumes) (sym same) ∙ found) refl)
          (inl good.0)
    after_write ih r found (no differ) =
        ih (write volumes (updated u r)) v
          (ground (arith, find-write volumes (updated u r) id, find-key volumes u.id r found))
          (elim aimed [ inl done ↦ inl done | inr m ↦ inr (ground arith) ])
