-- ===== src/Service/Ensures.antt =====
-- What holds of the state after a method, whether it returns or raises.
use openvair_rde_linter.Base.{Bool, true, false, ◌≡◌, refl, sym, subst, if◌then◌else◌}
use openvair_rde_linter.Result.{Exn, Result, ok, err}
use openvair_rde_linter.Service.{raise, ◌>>=◌, on_error}
use openvair_rde_linter.Service.Keeps.{Keeps}

-- From a state with `before`, the method leaves one with `after`.
pub record Ensures {S A : Type 0} (before : S → Type 0) (m : S → Result A × S) (after : S → Type 0)
    : Type 0 where
  pub ensured : (s : S) → before s → after (m s).1

module _ {S : Type 0} where
  pub Keeps-Ensures :
      {V A : Type 0} {view : S → V} {m : S → Result A × S} (P : V → Type 0)
      → Keeps view m
      → Ensures (λ s. P (view s)) m (λ s. P (view s))
  Keeps-Ensures P h = record { ensured = λ s p. subst P (sym (h.kept s)) p }

  pub bind_with-Ensures :
      {A B : Type 0} {m : S → Result A × S} {f : A → S → Result B × S}
      {before between after : S → Type 0} (P : A → Type 0)
      → ((s : S) (a : A) → (m s).0 ≡ ok a → P a)
      → ((s : S) → between s → after s)
      → Ensures before m between
      → ((a : A) → P a → Ensures between (f a) after)
      → Ensures before (m >>= f) after
  bind_with-Ensures {A} {B} {m} {f} {before} {between} {after} P known weaker hm hf = record {
    ensured = λ s p. by_result (m s) (hm.ensured s p) (known s);
  }
    where
      by_result :
          (x : Result A × S)
          → between x.1
          → ((a : A) → x.0 ≡ ok a → P a)
          → after (elim x.0 as (λ _. Result B × S) [ ok a ↦ f a x.1 | err e ↦ (err e, x.1) ]).1
      by_result (ok a, t) h p = (hf a (p a refl)).ensured t h
      by_result (err e, t) h p = weaker t h

  pub bind-Ensures :
      {A B : Type 0} {m : S → Result A × S} {f : A → S → Result B × S}
      {before between after : S → Type 0}
      → ((s : S) → between s → after s)
      → Ensures before m between
      → ((a : A) → Ensures between (f a) after)
      → Ensures before (m >>= f) after
  bind-Ensures weaker hm hf =
      bind_with-Ensures (λ _. Unit {0}) (λ s a e. tt) weaker hm (λ a _. hf a)

  pub on_error-Ensures :
      {A : Type 0} {before after : S → Type 0} (caught : Exn → Bool)
      (handler : Exn → S → Result {0} Unit × S) (m : S → Result A × S)
      → ((e : Exn) → Ensures after (handler e) after)
      → Ensures before m after
      → Ensures before (on_error caught handler m) after
  on_error-Ensures {A} {before} {after} caught handler m hh hm = record {
    ensured = λ s p. by_result (m s) (hm.ensured s p);
  }
    where
      by_test :
          (b : Bool) (e : Exn) (t : S)
          → after t
          → after (if b then (handler e >>= λ _. raise {A = A} e) t else (err e, t)).1
      by_test true e t h =
          (bind-Ensures {f = λ _. raise {A = A} e} (λ s p. p) (hh e)
              (λ _. record { ensured = λ s p. p })).ensured
            t h
      by_test false e t h = h

      by_result :
          (x : Result A × S)
          → after x.1
          → after
              (elim x.0 as (λ _. Result A × S) [
                | ok a ↦ (ok a, x.1)
                | err e ↦ if caught e then (handler e >>= λ _. raise e) x.1 else (err e, x.1)
              ]).1
      by_result (ok a, t) h = h
      by_result (err e, t) h = by_test (caught e) e t h
