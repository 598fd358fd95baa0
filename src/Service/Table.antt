-- ===== src/Service/Table.antt =====
-- A table of the database as the list of its rows, each with its primary key.
use openvair_rde_linter.Base.{
  String, true, false, ◌&&◌, ◌||◌, not, ◌≡◌, refl, Option, none, some, List, [], ◌∷◌, map, arith,
  contains, ◌==◌, string_eq, All, subst, if◌then◌else◌,
}

pub record Keyed (R : Type 0) : Type 0 where
  pub key : R → String

-- No text comes twice.
abbrev pub Distinct : List String → Type 0
Distinct [] = Unit
Distinct (id ∷ rest) = (contains rest id ≡ false) × Distinct rest

module _ {R : Type 0} ⦃k : Keyed R⦄ where
  -- `session.get`
  unfoldable pub find : List R → String → Option R
  find [] id = none
  find (r ∷ t) id = if id == k.key r then some r else find t id

  -- The row of that key is written back.
  unfoldable pub write : List R → R → List R
  write [] q = []
  write (r ∷ t) q = if k.key q == k.key r then q ∷ t else r ∷ write t q

  -- `session.add`
  unfoldable pub add : List R → R → List R
  add [] q = q ∷ []
  add (r ∷ t) q = r ∷ add t q

  -- `session.delete`
  unfoldable pub remove : List R → String → List R
  remove [] id = []
  remove (r ∷ t) id = if id == k.key r then remove t id else r ∷ remove t id

  -- the primary keys of the rows
  abbrev pub keys : List R → List String
  keys t = map k.key t

  pub find-write :
      (t : List R) (q : R) (id : String)
      → find (write t q) id ≡ (if id == k.key q && contains (keys t) id then some q else find t id)
  unfolding find write
  find-write [] q id = ground arith
  find-write (r ∷ t) q id = ground (arith, find-write t q id)

  pub find-add :
      (t : List R) (q : R) (id : String)
      → find (add t q) id
        ≡ (if contains (keys t) id then find t id else if id == k.key q then some q else none)
  unfolding find add
  find-add [] q id = refl
  find-add (r ∷ t) q id = ground (arith, find-add t q id)

  pub find-remove :
      (t : List R) (q id : String) → find (remove t q) id ≡ (if id == q then none else find t id)
  unfolding find remove
  find-remove [] q id = ground arith
  find-remove (r ∷ t) q id = ground (arith, find-remove t q id)

  -- What is found has the key that was looked for.
  pub find-key : (t : List R) (id : String) (r : R) → find t id ≡ some r → k.key r ≡ id
  unfolding find
  find-key [] id r h = cc
  find-key (q ∷ t) id r h = ground (arith, find-key t id r)

  pub contains-find :
      (t : List R) (id : String) (r : R) → find t id ≡ some r → contains (keys t) id ≡ true
  unfolding find
  contains-find [] id r h = cc
  contains-find (q ∷ t) id r h = ground (arith, contains-find t id r)

  pub find-contains :
      (t : List R) (id : String) → contains (keys t) id ≡ true → (r : R) × (find t id ≡ some r)
  unfolding find
  find-contains [] id h = cc
  find-contains (q ∷ t) id h = elim (string_eq.dec id (k.key q)) [
    | yes same ↦ (q, ground arith)
    | no differ ↦ let rest = find-contains t id (ground arith) in (rest.0, ground (arith, rest.1))
  ]

  pub find-written :
      (t : List R) (id : String) (r q : R)
      → find t id ≡ some r
      → k.key q ≡ k.key r
      → find (write t q) id ≡ some q
  find-written t id r q h same =
      ground (arith, find-write t q id, contains-find t id r h, find-key t id r h)

  pub keys-write : (t : List R) (q : R) → keys (write t q) ≡ keys t
  unfolding write
  keys-write [] q = refl
  keys-write (r ∷ t) q = ground (arith, keys-write t q)

  pub contains-add :
      (t : List R) (q : R) (id : String)
      → contains (keys (add t q)) id ≡ (contains (keys t) id || id == k.key q)
  unfolding add
  contains-add [] q id = ground arith
  contains-add (r ∷ t) q id = ground (arith, contains-add t q id)

  pub contains-remove :
      (t : List R) (q id : String)
      → contains (keys (remove t q)) id ≡ (not (id == q) && contains (keys t) id)
  unfolding remove
  contains-remove [] q id = ground arith
  contains-remove (r ∷ t) q id = ground (arith, contains-remove t q id)

  pub add-Distinct :
      (t : List R) (q : R)
      → Distinct (keys t)
      → contains (keys t) (k.key q) ≡ false
      → Distinct (keys (add t q))
  unfolding add
  add-Distinct [] q h free = (refl, tt)
  add-Distinct (r ∷ t) q h free = ground (arith, add-Distinct t q h.1, contains-add t q (k.key r))

  pub remove-Distinct :
      (t : List R) (id : String) → Distinct (keys t) → Distinct (keys (remove t id))
  unfolding remove
  remove-Distinct [] id h = tt
  remove-Distinct (r ∷ t) id h =
      ground (arith, remove-Distinct t id h.1, contains-remove t id (k.key r))

  module _ (P : R → Type 0) where
    pub find-All : (t : List R) (id : String) (r : R) → All P t → find t id ≡ some r → P r
    unfolding find
    find-All [] id r ps h = cc
    find-All (q ∷ t) id r ps h = elim (string_eq.dec id (k.key q)) [
      | yes same ↦ subst P (ground arith) ps.0
      | no differ ↦ find-All t id r ps.1 (ground arith)
    ]

    pub write-All : (t : List R) (q : R) → All P t → P q → All P (write t q)
    unfolding write
    write-All [] q ps p = tt
    write-All (r ∷ t) q ps p = ground (arith, write-All t q ps.1 p)

    pub add-All : (t : List R) (q : R) → All P t → P q → All P (add t q)
    unfolding add
    add-All [] q ps p = (p, tt)
    add-All (r ∷ t) q ps p = (ps.0, add-All t q ps.1 p)

    pub remove-All : (t : List R) (id : String) → All P t → All P (remove t id)
    unfolding remove
    remove-All [] id ps = tt
    remove-All (r ∷ t) id ps = ground (arith, remove-All t id ps.1)
