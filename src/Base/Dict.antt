-- ===== src/Base/Dict.antt =====
-- A Python dict, in insertion order. Most have text keys.
use mathlib.Core.List
use openvair_rde_linter.Base.Equality.{Eq, ◌==◌, contains, if◌then◌else◌}
use openvair_rde_linter.Base.Order.{str_ltb}
use Prim.Native.String.{String}
use mathlib.Core.Path.{◌≡◌, refl}
use mathlib.Core.Bool.{Bool, true, false, ◌||◌}
use mathlib.Core.Option.{Option, none, some}
use mathlib.Core.List.{[], ◌∷◌}
use native.Mathlib.Omega.{arith}

abbrev pub Map {ℓ κ} : Type ℓ → Type κ → Type (ℓ ⊔ κ)
Map K V = List.List (K × V)

abbrev pub Dict {ℓ} : Type ℓ → Type ℓ
Dict V = Map String V

module _ {ℓ κ} {K : Type ℓ} {V : Type κ} where
  -- `d.keys()`
  unfoldable pub keys : Map K V → List.List K
  keys [] = []
  keys ((k, _) ∷ d) = k ∷ keys d

module _ {ℓ κ} {K : Type ℓ} {V : Type κ} ⦃e : Eq K⦄ where
  -- `d.get(k)`
  unfoldable pub get : Map K V → K → Option V
  get [] k = none
  get ((j, v) ∷ d) k = if k == j then some v else get d k

  -- `d.get(k, default)`
  unfoldable pub get_or : Map K V → K → V → V
  unfolding get
  get_or d k default = elim (get d k) [ none ↦ default | some v ↦ v ]

  -- `k in d`
  unfoldable pub has_key : Map K V → K → Bool
  unfolding get
  has_key d k = elim (get d k) [ none ↦ false | some _ ↦ true ]

  -- `d[k] = v`
  unfoldable pub set : Map K V → K → V → Map K V
  set [] k v = (k, v) ∷ []
  set ((j, w) ∷ d) k v = if k == j then (j, v) ∷ d else (j, w) ∷ set d k v

  pub get-set :
      (d : Map K V) (k j : K) (v : V) → get (set d k v) j ≡ (if j == k then some v else get d j)
  unfolding get set
  get-set [] k j v = refl
  get-set ((i, w) ∷ d) k j v = ground (arith, get-set d k j v)

  pub get_or-set :
      (d : Map K V) (k j : K) (v default : V)
      → get_or (set d k v) j default ≡ (if j == k then v else get_or d j default)
  unfolding get_or
  get_or-set d k j v default = ground (arith, get-set d k j v)

  pub get_or-of : (d : Map K V) (k : K) (v default : V) → get d k ≡ some v → get_or d k default ≡ v
  unfolding get_or
  get_or-of d k v default h = rw (get_or, h) refl

  pub has_key-cons :
      (j : K) (v : V) (d : Map K V) (k : K) → has_key ((j, v) ∷ d) k ≡ (k == j || has_key d k)
  unfolding has_key
  has_key-cons j v d k = ground arith

  pub contains-keys : (d : Map K V) (k : K) → contains (keys d) k ≡ has_key d k
  unfolding keys has_key
  contains-keys [] k = refl
  contains-keys ((j, v) ∷ d) k = ground (arith, contains-keys d k)

module _ {ℓ} {V : Type ℓ} where
  unfoldable pub add_by_key : String × V → Dict V → Dict V
  add_by_key (k, v) [] = (k, v) ∷ []
  add_by_key (k, v) ((j, w) ∷ d) =
      if str_ltb j k then (j, w) ∷ add_by_key (k, v) d else (k, v) ∷ (j, w) ∷ d

  -- `sorted(d.items())`, by the keys, which differ
  unfoldable pub sorted_items : Dict V → Dict V
  unfolding add_by_key str_ltb
  sorted_items [] = []
  sorted_items (entry ∷ d) = add_by_key entry (sorted_items d)
