-- ===== src/System/Held.antt =====
-- openvair/modules/volume and openvair/modules/storage together: the storages that the volumes name.
use openvair_rde_linter.Base.{
  String, true, false, ◌≡◌, refl, sym, ap, ◌∙◌, subst, none, some, List, [], ◌∷◌, ◌++◌, map,
  contains, ◌==◌, string_eq, arith, is_empty, All, keep_if, contains-append, or_default, Bool-cases,
  inl, inr,
}
use openvair_rde_linter.Base.Dict
use openvair_rde_linter.Base.Dict.{Dict}
use openvair_rde_linter.Result.{Exn, Result, ok, err, ok-injective}
use openvair_rde_linter.Service.{answered}
use openvair_rde_linter.Service.Table.{find, keys, contains-find}
use openvair_rde_linter.Volumes
use openvair_rde_linter.Volumes.{Volume}
use openvair_rde_linter.Volumes.Queries.{get_all_volumes, listed, free_ones}
use openvair_rde_linter.Storages
use openvair_rde_linter.Storages.{Storage, storage_keyed, get_storage, get_or_fail}
use openvair_rde_linter.Storages.Operations as StorageOperations
use openvair_rde_linter.Storages.Operations.Labels.{labels, without, Change, same, added, removed}
use openvair_rde_linter.Storages.Operations.Changes.{perform-Change}
use openvair_rde_linter.Storages.Operations.Unique.{keys-labels_of, keys-append, keys-without}
use openvair_rde_linter.System.{
  World, VolumesAnswer, Step, volume_step, storage_step, Reach, here, next, IsHoused,
}
use openvair_rde_linter.System.Naming.{perform-AllHeld}

-- A storage that the service gives is in its table.
get_or_fail-contains :
    (id : String) (w : Storages.World) (s : Storage)
    → (get_or_fail id w).0 ≡ ok s
    → contains (keys w.storages) id ≡ true
unfolding get_or_fail
get_or_fail-contains id w s h =
    elim (find w.storages id)
        as (λ found.
          find w.storages id ≡ found
          → (elim found as (λ _. Result Storage × Storages.World) [
            | none ↦ (err Exn.entity_not_found, w)
            | some storage ↦ (ok storage, w)
          ]).0
            ≡ ok s
          → contains (keys w.storages) id ≡ true) [
            | none ↦ λ same h. cc
            | some t ↦ λ same h. contains-find w.storages id t same
          ]
      refl h

get_storage-contains :
    (id : String) (w : Storages.World) (s : Storage)
    → (get_storage id w).0 ≡ ok s
    → contains (keys w.storages) id ≡ true
unfolding get_storage
get_storage-contains id w s h = elim (Bool-cases (is_empty id)) [
  | inl is ↦ ground arith
  | inr is ↦ get_or_fail-contains id w s (ground arith)
]

abbrev Elsewhere : String → List Volume → Type 0
Elsewhere id volumes = All (λ v. (v.storage_id == id) ≡ false) volumes

free_ones-all : (volumes : List Volume) → free_ones false volumes ≡ volumes
unfolding free_ones
free_ones-all [] = refl
free_ones-all (v ∷ volumes) = ap (λ rest. v ∷ rest) (free_ones-all volumes)

keep_if-none :
    (id : String) (volumes : List Volume)
    → keep_if (λ v. v.storage_id == id) volumes ≡ []
    → Elsewhere id volumes
unfolding keep_if
keep_if-none id [] h = tt
keep_if-none id (v ∷ volumes) h = ground (arith, keep_if-none id volumes)

-- If the volume service lists no volumes of a storage, no volume names it.
get_all_volumes-none :
    (id : String) (w : Volumes.World)
    → (get_all_volumes (some id) none w).0 ≡ ok []
    → Elsewhere id w.volumes
unfolding get_all_volumes listed or_default
get_all_volumes-none id w h =
    let none_listed : listed (some id) w.volumes ≡ [] =
      sym (free_ones-all (listed (some id) w.volumes)) ∙ ok-injective h in
    elim (Bool-cases (is_empty id)) [
      | inl is ↦
          let no_volumes : w.volumes ≡ [] = ground arith in subst (Elsewhere id) (sym no_volumes) tt
      | inr is ↦ keep_if-none id w.volumes (ground arith)
    ]

-- No name is listed, so no volume is.
unlisted-Elsewhere :
    (w : World) (env : Storages.Environment) (id : String)
    → VolumesAnswer w env
    → env.get_volumes id ≡ answered []
    → Elsewhere id w.volumes.volumes
unlisted-Elsewhere w env id answers h =
    let reply = answers.from_volumes id [] h in
    get_all_volumes-none id w.volumes (reply.1 ∙ ap ok (map_none reply.0 (sym reply.2)))
  where
    map_none : (volumes : List Volume) → map (λ v. v.name) volumes ≡ [] → volumes ≡ []
    map_none [] h = refl
    map_none (v ∷ volumes) h = cc

-- What a change of the storages leaves of them, for volumes that are not on the storage that goes.
abbrev AllIn : Dict String → List Volume → Type 0
AllIn labels volumes = All (λ v. contains (Dict.keys labels) v.storage_id ≡ true) volumes

AllIn-added :
    (before more : Dict String) (volumes : List Volume)
    → AllIn before volumes
    → AllIn (before ++ more) volumes
AllIn-added before more [] h = tt
AllIn-added before more (v ∷ volumes) h = ground (
  arith,
  AllIn-added before more volumes h.1,
  keys-append before more,
  contains-append (Dict.keys before) (Dict.keys more) v.storage_id,
)

AllIn-without :
    (id : String) (before : Dict String) (volumes : List Volume)
    → Elsewhere id volumes
    → AllIn before volumes
    → AllIn (without id before) volumes
AllIn-without id before [] away h = tt
AllIn-without id before (v ∷ volumes) away h =
    ground (arith, AllIn-without id before volumes away.1 h.1, keys-without id before v.storage_id)

AllIn-Change :
    (w : World) (env : Storages.Environment) (op : StorageOperations.Operation)
    (before after : Dict String)
    → VolumesAnswer w env
    → Change env op before after
    → AllIn before w.volumes.volumes
    → AllIn after w.volumes.volumes
AllIn-Change w env op before _ answers same h = h
AllIn-Change w env op before _ answers (added name named free) h =
    AllIn-added before ((env.new_id, name) ∷ []) w.volumes.volumes h
AllIn-Change w env op before _ answers (removed s is unused) h =
    AllIn-without s.id before w.volumes.volumes
      (unlisted-Elsewhere w env s.id answers unused.no_volumes) h

abbrev AllAmong : List String → List Volume → Type 0
AllAmong ids volumes = All (λ v. contains ids v.storage_id ≡ true) volumes

Step-IsHoused : (w u : World) → Step w u → IsHoused w → IsHoused u
Step-IsHoused w _ (volume_step env op answers) h =
    perform-AllHeld (keys w.storages.storages) env
      (λ id reply same.
        let from = answers.from_storages id reply same in
        get_storage-contains id w.storages from.0 from.1)
      op w.volumes h
Step-IsHoused w _ (storage_step env op answers) h =
    let after = StorageOperations.perform env op w.storages in
    subst (λ ids. AllAmong ids w.volumes.volumes) (keys-labels_of after.storages)
      (AllIn-Change w env op (labels w.storages) (labels after) answers
        (perform-Change env op w.storages)
        (subst (λ ids. AllAmong ids w.volumes.volumes) (sym (keys-labels_of w.storages.storages))
          h))

-- In every state that the two services reach together, from one where the storage of every volume is
-- in the table of the storages, it still is: by any requests, casts and periodic tasks of the two in
-- any order, whatever the images, the templates, the virtual machines and the domain layers answer.
-- What the services ask each other is answered by the other or fails, and no method of one comes
-- between two statements of a method of the other.
pub Reach-IsHoused : (w v : World) → Reach w v → IsHoused w → IsHoused v
Reach-IsHoused w v here h = h
Reach-IsHoused w v (next {v = m} r s) h = Step-IsHoused m v s (Reach-IsHoused w m r h)
