-- ===== src/Service/Runs.antt =====
-- How a method runs, statement by statement.
use openvair_rde_linter.Base.{◌≡◌, ap}
use openvair_rde_linter.Result.{Exn, Result, ok, err}
use openvair_rde_linter.Service.{◌>>=◌}

module _ {S A B : Type 0} (m : S → Result A × S) (f : A → S → Result B × S) {s t : S} where
  pub bind-ok : (a : A) → m s ≡ (ok a, t) → (m >>= f) s ≡ f a t
  bind-ok a h =
      ap
        (λ (x : Result A × S). elim x.0 as (λ _. Result B × S) [
          | ok a' ↦ f a' x.1
          | err e ↦ (err e, x.1)
        ])
        h

  pub bind-err : (e : Exn) → m s ≡ (err e, t) → (m >>= f) s ≡ (err e, t)
  bind-err e h =
      ap
        (λ (x : Result A × S). elim x.0 as (λ _. Result B × S) [
          | ok a' ↦ f a' x.1
          | err e' ↦ (err e', x.1)
        ])
        h
