-- ===== src/Service/Ends.antt =====
-- What a method makes of the state if it returns, when it changes nothing before it raises.
use openvair_rde_linter.Base.{Bool, true, false, ◌≡◌, if◌then◌else◌}
use openvair_rde_linter.Result.{Exn, Result, ok, err}
use openvair_rde_linter.Service.Ensures.{Ensures}
use openvair_rde_linter.Service.{◌>>=◌, catch}
use openvair_rde_linter.Service.Gives.{Gives, Returned, Any, followed, handled}

-- one predicate of the state for a value, the other for an exception
abbrev pub Outcome : {S A : Type 0} → (S → Type 0) → (S → Type 0) → Result A × S → Type 0
Outcome before after (ok _, t) = after t
Outcome before after (err _, t) = before t

-- A method that returns has changed the state as told, and one that raises has not.
pub record Ends {S A : Type 0} (before : S → Type 0) (m : S → Result A × S) (after : S → Type 0)
    : Type 0 where
  pub ended : (s : S) → before s → Outcome before after (m s)

module _ {S : Type 0} {before after : S → Type 0} where
  pub bind-Ends :
      {A B : Type 0} {P : A → Type 0} {m : S → Result A × S} {f : A → S → Result B × S}
      → Gives before m P
      → ((a : A) → P a → Ends before (f a) after)
      → Ends before (m >>= f) after
  bind-Ends {A} {B} {P} {m} {f} hm hf = record { ended = λ s h. by_result (m s) (hm.given s h) }
    where
      by_result :
          (x : Result A × S) → before x.1 × Returned P x.0 → Outcome before after (followed f x)
      by_result (ok a, t) h = (hf a h.1).ended t h.0
      by_result (err e, t) h = h.0

  pub Ends-Ensures :
      {A : Type 0} {m : S → Result A × S}
      → ((s : S) → before s → after s)
      → Ends before m after
      → Ensures before m after
  Ends-Ensures {A} {m} weaker hm = record { ensured = λ s h. by_result (m s) (hm.ended s h) }
    where
      by_result : (x : Result A × S) → Outcome before after x → after x.1
      by_result (ok a, t) h = h
      by_result (err e, t) h = weaker t h

  -- The handler runs in the state before.
  pub catch-Ends :
      {A : Type 0} (caught : Exn → Bool) (handler : Exn → S → Result A × S) (m : S → Result A × S)
      → ((s : S) → before s → after s)
      → ((e : Exn) → Gives before (handler e) Any)
      → Ends before m after
      → Ensures before (catch caught handler m) after
  catch-Ends {A} caught handler m weaker hh hm = record {
    ensured = λ s h. by_result (m s) (hm.ended s h);
  }
    where
      by_test :
          (b : Bool) (e : Exn) (t : S) → before t → after (if b then handler e t else (err e, t)).1
      by_test true e t h = weaker _ ((hh e).given t h).0
      by_test false e t h = weaker t h

      by_result : (x : Result A × S) → Outcome before after x → after (handled caught handler x).1
      by_result (ok a, t) h = h
      by_result (err e, t) h = by_test (caught e) e t h

  pub bind_given-Ensures :
      {A B : Type 0} {P : A → Type 0} {m : S → Result A × S} {f : A → S → Result B × S}
      → ((s : S) → before s → after s)
      → Gives before m P
      → ((a : A) → P a → Ensures before (f a) after)
      → Ensures before (m >>= f) after
  bind_given-Ensures {A} {B} {P} {m} {f} weaker hm hf = record {
    ensured = λ s h. by_result (m s) (hm.given s h);
  }
    where
      by_result : (x : Result A × S) → before x.1 × Returned P x.0 → after (followed f x).1
      by_result (ok a, t) h = (hf a h.1).ensured t h.0
      by_result (err e, t) h = weaker t h.0

  pub Ends-ok :
      {A : Type 0} {m : S → Result A × S} {s : S} (a : A)
      → Ends before m after
      → before s
      → (m s).0 ≡ ok a
      → after (m s).1
  Ends-ok {A} {m} {s} a hm h returned = by_result (m s) (hm.ended s h) returned
    where
      by_result : (x : Result A × S) → Outcome before after x → x.0 ≡ ok a → after x.1
      by_result (ok b, t) h returned = h
      by_result (err e, t) h returned = cc
