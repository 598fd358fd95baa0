-- ===== src/Storages/Operations/Unique.antt =====
-- openvair/modules/storage/service_layer/services.py: the ids and the names over any run of the service.
use openvair_rde_linter.Base.{
  String, false, ◌≡◌, refl, sym, ap, subst, List, [], ◌∷◌, ◌++◌, contains, ◌==◌, ◌&&◌, not,
  string_eq, arith, is_empty, All, contains-append,
}
use openvair_rde_linter.Base.Dict
use openvair_rde_linter.Base.Dict.{Dict}
use openvair_rde_linter.Service.Table.{Distinct, keys}
use openvair_rde_linter.Storages.{Storage, storage_keyed, World, Environment}
use openvair_rde_linter.Storages.Operations.{Operation, Reach, here, next, step}
use openvair_rde_linter.Storages.Operations.Labels.{
  labels, labels_of, names, without, Change, same, added, removed,
}
use openvair_rde_linter.Storages.Operations.Changes.{perform-Change}

-- No two storages have the same id, no two the same name, and none has an empty name.
pub record IsUnique (labels : Dict String) : Type 0 where
  pub ids_differ : Distinct (Dict.keys labels)
  pub names_differ : Distinct (names labels)
  pub named : All (λ name. is_empty name ≡ false) (names labels)

snoc-Distinct :
    (xs : List String) (x : String)
    → Distinct xs
    → contains xs x ≡ false
    → Distinct (xs ++ (x ∷ []))
snoc-Distinct [] x h free = (refl, tt)
snoc-Distinct (y ∷ xs) x h free =
    ground (arith, snoc-Distinct xs x h.1, contains-append xs (x ∷ []) y)

pub keys-append : (a b : Dict String) → Dict.keys (a ++ b) ≡ Dict.keys a ++ Dict.keys b
unfolding Dict.keys
keys-append [] b = refl
keys-append ((i, n) ∷ a) b = ap (λ rest. i ∷ rest) (keys-append a b)

names-append : (a b : Dict String) → names (a ++ b) ≡ names a ++ names b
names-append [] b = refl
names-append ((i, n) ∷ a) b = ap (λ rest. n ∷ rest) (names-append a b)

snoc-All :
    (P : String → Type 0) (xs : List String) (x : String) → All P xs → P x → All P (xs ++ (x ∷ []))
snoc-All P [] x ps p = (p, tt)
snoc-All P (y ∷ xs) x ps p = (ps.0, snoc-All P xs x ps.1 p)

pub keys-without :
    (id : String) (d : Dict String) (k : String)
    → contains (Dict.keys (without id d)) k ≡ (contains (Dict.keys d) k && not (k == id))
unfolding without Dict.keys
keys-without id [] k = refl
keys-without id ((i, n) ∷ d) k = ground (arith, keys-without id d k)

names-without :
    (id : String) (d : Dict String) (n : String)
    → contains (names d) n ≡ false
    → contains (names (without id d)) n ≡ false
unfolding without
names-without id [] n h = refl
names-without id ((i, m) ∷ d) n h = ground (arith, names-without id d n)

without-keys_differ :
    (id : String) (d : Dict String) → Distinct (Dict.keys d) → Distinct (Dict.keys (without id d))
unfolding without Dict.keys
without-keys_differ id [] h = tt
without-keys_differ id ((i, n) ∷ d) h =
    ground (arith, without-keys_differ id d h.1, keys-without id d i)

without-names_differ :
    (id : String) (d : Dict String) → Distinct (names d) → Distinct (names (without id d))
unfolding without
without-names_differ id [] h = tt
without-names_differ id ((i, n) ∷ d) h =
    ground (arith, without-names_differ id d h.1, names-without id d n h.0)

without-All :
    (P : String → Type 0) (id : String) (d : Dict String)
    → All P (names d)
    → All P (names (without id d))
unfolding without
without-All P id [] h = tt
without-All P id ((i, n) ∷ d) h = ground (arith, without-All P id d h.1)

Change-IsUnique :
    (env : Environment) (op : Operation) (before after : Dict String)
    → contains (Dict.keys before) env.new_id ≡ false
    → Change env op before after
    → IsUnique before
    → IsUnique after
unfolding Dict.keys
Change-IsUnique env op before _ fresh same u = u
Change-IsUnique env op before _ fresh (added name named free) u = record {
  ids_differ =
      subst Distinct (sym (keys-append before ((env.new_id, name) ∷ [])))
        (snoc-Distinct (Dict.keys before) env.new_id u.ids_differ fresh);
  names_differ =
      subst Distinct (sym (names-append before ((env.new_id, name) ∷ [])))
        (snoc-Distinct (names before) name u.names_differ free);
  named =
      subst (All (λ name. is_empty name ≡ false))
        (sym (names-append before ((env.new_id, name) ∷ [])))
        (snoc-All _ (names before) name u.named named);
}
Change-IsUnique env op before _ fresh (removed s is unused) u = record {
  ids_differ = without-keys_differ s.id before u.ids_differ;
  names_differ = without-names_differ s.id before u.names_differ;
  named = without-All _ s.id before u.named;
}

pub keys-labels_of : (storages : List Storage) → Dict.keys (labels_of storages) ≡ keys storages
unfolding Dict.keys
keys-labels_of [] = refl
keys-labels_of (s ∷ storages) = ap (λ rest. s.id ∷ rest) (keys-labels_of storages)

-- In every state that the service reaches, by requests, casts and the periodic task in any order,
-- from one where the ids and the names of the storages are unique and no name is empty, they are
-- unique and no name is empty, whatever the other services answer. A new id is taken to be one that
-- the table does not have.
pub Reach-IsUnique : (w v : World) → Reach w v → IsUnique (labels w) → IsUnique (labels v)
Reach-IsUnique w v here u = u
Reach-IsUnique w v (next {v = m} r (step env op fresh)) u =
    Change-IsUnique env op (labels m) _ (rw (keys-labels_of m.storages) fresh)
      (perform-Change env op m) (Reach-IsUnique w m r u)
