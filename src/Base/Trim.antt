-- ===== src/Base/Trim.antt =====
-- `s.strip()` twice is once.
use Prim.Native.Char.{Char, code}
use Prim.Native.String.{String}
use mathlib.Core.Path.{◌≡◌, refl, ◌∙◌, ap}
use mathlib.Core.Logic.{inl, inr}
use mathlib.Core.Bool.{false}
use openvair_rde_linter.Base.Equality.{Bool-cases}
use openvair_rde_linter.Base.Text.{is_space, trim_left, trim_cons, trim_right, trim}

-- The text is empty or begins with no space.
abbrev HasNoSpaceAhead : String → Type 0
HasNoSpaceAhead String.[] = Unit
HasNoSpaceAhead (String.◌∷◌ c _) = is_space (code c) ≡ false

trim_left-HasNoSpaceAhead : (s : String) → HasNoSpaceAhead (trim_left s)
unfolding trim_left
trim_left-HasNoSpaceAhead String.[] = tt
trim_left-HasNoSpaceAhead (String.◌∷◌ c s) = elim (Bool-cases (is_space (code c))) [
  | inl space ↦ rw space (trim_left-HasNoSpaceAhead s)
  | inr other ↦ rw other other
]

trim_left_fixed : (s : String) → HasNoSpaceAhead s → trim_left s ≡ s
unfolding trim_left
trim_left_fixed String.[] h = refl
trim_left_fixed (String.◌∷◌ c s) h = rw h

trim_cons-HasNoSpaceAhead :
    (c : Char) (s : String) → is_space (code c) ≡ false → HasNoSpaceAhead (trim_cons c s)
unfolding trim_cons
trim_cons-HasNoSpaceAhead c String.[] h = rw h h
trim_cons-HasNoSpaceAhead c (String.◌∷◌ d s) h = h

trim_right-HasNoSpaceAhead : (s : String) → HasNoSpaceAhead s → HasNoSpaceAhead (trim_right s)
unfolding trim_right
trim_right-HasNoSpaceAhead String.[] h = tt
trim_right-HasNoSpaceAhead (String.◌∷◌ c s) h = trim_cons-HasNoSpaceAhead c (trim_right s) h

trim_right-trim_cons :
    (c : Char) (s : String) → trim_right s ≡ s → trim_right (trim_cons c s) ≡ trim_cons c s
unfolding trim_right trim_cons
trim_right-trim_cons c String.[] h = elim (Bool-cases (is_space (code c))) [
  | inl space ↦ rw space
  | inr other ↦ rw other (rw other)
]
trim_right-trim_cons c (String.◌∷◌ d s) h = ap (trim_cons c) h

trim_right_idem : (s : String) → trim_right (trim_right s) ≡ trim_right s
trim_right_idem String.[] = unfold trim_right in refl
trim_right_idem (String.◌∷◌ c s) =
    rw (cons_lem c s) (trim_right-trim_cons c (trim_right s) (trim_right_idem s))
  where
    cons_lem : (c : Char) (s : String) → trim_right (String.◌∷◌ c s) ≡ trim_cons c (trim_right s)
    cons_lem c s = unfold trim_right in refl

pub trim_idem : (s : String) → trim (trim s) ≡ trim s
unfolding trim
trim_idem s =
    ap trim_right (
      trim_left_fixed (trim_right (trim_left s))
        (trim_right-HasNoSpaceAhead (trim_left s) (trim_left-HasNoSpaceAhead s)))
    ∙ trim_right_idem (trim_left s)
