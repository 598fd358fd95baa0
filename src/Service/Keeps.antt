-- ===== src/Service/Keeps.antt =====
-- What a method keeps of the state, part by part, whether it returns or raises.
use openvair_rde_linter.Base.{Bool, true, false, ◌≡◌, refl, ◌∙◌, if◌then◌else◌, ap}
use openvair_rde_linter.Result.{Exn, Result, ok, err}
use openvair_rde_linter.Service.{
  Reply, answered, call_failed, timed_out, return, raise, await, raise_if, gets, ◌>>=◌, on_error,
  catch,
}

-- The method leaves the view of the state as it was.
pub record Keeps {S V A : Type 0} (view : S → V) (m : S → Result A × S) : Type 0 where
  pub kept : (s : S) → view (m s).1 ≡ view s

module _ {S V : Type 0} {view : S → V} where
  pub return-Keeps : {A : Type 0} (a : A) → Keeps view (return a)
  return-Keeps a = record { kept = λ s. refl }

  pub raise-Keeps : {A : Type 0} (e : Exn) → Keeps {A = A} view (raise e)
  raise-Keeps e = record { kept = λ s. refl }

  pub gets-Keeps : {A : Type 0} (f : S → A) → Keeps view (gets f)
  gets-Keeps f = record { kept = λ s. refl }

  pub raise_if-Keeps : (test : Bool) (e : Exn) → Keeps view (raise_if test e)
  raise_if-Keeps test e = record { kept = λ s. refl }

  pub await-Keeps : {A : Type 0} (r : Reply A) → Keeps view (await r)
  await-Keeps (answered a) = record { kept = λ s. refl }
  await-Keeps call_failed = record { kept = λ s. refl }
  await-Keeps timed_out = record { kept = λ s. refl }

  pub bind-Keeps :
      {A B : Type 0} {m : S → Result A × S} {f : A → S → Result B × S}
      → Keeps view m
      → ((a : A) → Keeps view (f a))
      → Keeps view (m >>= f)
  bind-Keeps {A} {B} {m} {f} hm hf = record { kept = λ s. by_result (m s) s (hm.kept s) }
    where
      by_result :
          (x : Result A × S) (s : S)
          → view x.1 ≡ view s
          → view (elim x.0 as (λ _. Result B × S) [ ok a ↦ f a x.1 | err e ↦ (err e, x.1) ]).1
            ≡ view s
      by_result (ok a, t) s h = (hf a).kept t ∙ h
      by_result (err e, t) s h = h

  pub on_error-Keeps :
      {A : Type 0} (caught : Exn → Bool) (handler : Exn → S → Result {0} Unit × S)
      (m : S → Result A × S)
      → ((e : Exn) → Keeps view (handler e))
      → Keeps view m
      → Keeps view (on_error caught handler m)
  on_error-Keeps {A} caught handler m hh hm = record { kept = λ s. by_result (m s) s (hm.kept s) }
    where
      by_test :
          (b : Bool) (e : Exn) (t : S)
          → view (if b then (handler e >>= λ _. raise {A = A} e) t else (err e, t)).1 ≡ view t
      by_test true e t = (bind-Keeps (hh e) (λ _. raise-Keeps e)).kept t
      by_test false e t = refl

      by_result :
          (x : Result A × S) (s : S)
          → view x.1 ≡ view s
          → view
              (elim x.0 as (λ _. Result A × S) [
                | ok a ↦ (ok a, x.1)
                | err e ↦ if caught e then (handler e >>= λ _. raise e) x.1 else (err e, x.1)
              ]).1
            ≡ view s
      by_result (ok a, t) s h = h
      by_result (err e, t) s h = by_test (caught e) e t ∙ h

  pub catch-Keeps :
      {A : Type 0} (caught : Exn → Bool) (handler : Exn → S → Result A × S) (m : S → Result A × S)
      → ((e : Exn) → Keeps view (handler e))
      → Keeps view m
      → Keeps view (catch caught handler m)
  catch-Keeps {A} caught handler m hh hm = record { kept = λ s. by_result (m s) s (hm.kept s) }
    where
      by_test :
          (b : Bool) (e : Exn) (t : S) → view (if b then handler e t else (err e, t)).1 ≡ view t
      by_test true e t = (hh e).kept t
      by_test false e t = refl

      by_result :
          (x : Result A × S) (s : S)
          → view x.1 ≡ view s
          → view
              (elim x.0 as (λ _. Result A × S) [
                | ok a ↦ (ok a, x.1)
                | err e ↦ if caught e then handler e x.1 else (err e, x.1)
              ]).1
            ≡ view s
      by_result (ok a, t) s h = h
      by_result (err e, t) s h = by_test (caught e) e t ∙ h

  -- A part after one whose value is known to satisfy a predicate.
  pub bind_with-Keeps :
      {A B : Type 0} {m : S → Result A × S} {f : A → S → Result B × S} (P : A → Type 0)
      → ((s : S) (a : A) → (m s).0 ≡ ok a → P a)
      → Keeps view m
      → ((a : A) → P a → Keeps view (f a))
      → Keeps view (m >>= f)
  bind_with-Keeps {A} {B} {m} {f} P known hm hf = record {
    kept = λ s. by_result (m s) s (hm.kept s) (known s);
  }
    where
      by_result :
          (x : Result A × S) (s : S)
          → view x.1 ≡ view s
          → ((a : A) → x.0 ≡ ok a → P a)
          → view (elim x.0 as (λ _. Result B × S) [ ok a ↦ f a x.1 | err e ↦ (err e, x.1) ]).1
            ≡ view s
      by_result (ok a, t) s h p = (hf a (p a refl)).kept t ∙ h
      by_result (err e, t) s h p = h

-- What depends on a view that is kept is kept.
pub Keeps-ap :
    {S V W A : Type 0} {view : S → V} {m : S → Result A × S} (f : V → W)
    → Keeps view m
    → Keeps (λ s. f (view s)) m
Keeps-ap f h = record { kept = λ s. ap f (h.kept s) }
