-- ===== src/Service/Gives.antt =====
-- What a method keeps true of the state, whether it returns or raises, and what is known of its value.
use openvair_rde_linter.Base.{Bool, true, false, ◌≡◌, refl, ap, ◌∙◌, if◌then◌else◌}
use openvair_rde_linter.Result.{Exn, Result, ok, err}
use openvair_rde_linter.Service.{
  Reply, answered, call_failed, timed_out, return, raise, await, raise_if, gets, ◌>>=◌, on_error,
  catch,
}

-- The result, if it is one, satisfies the predicate.
abbrev pub Returned : {A : Type 0} → (A → Type 0) → Result A → Type 0
Returned P (ok a) = P a
Returned P (err e) = Unit

-- A state with `invariant` goes to one, and a value that is returned satisfies `P`.
pub record Gives {S A : Type 0} (invariant : S → Type 0) (m : S → Result A × S) (P : A → Type 0)
    : Type 0 where
  pub given : (s : S) → invariant s → invariant (m s).1 × Returned P (m s).0

abbrev pub Any : {A : Type 0} → A → Type 0
Any _ = Unit

module _ {S : Type 0} where
  -- the rest of a method, on what its first part comes to
  abbrev pub followed : {A B : Type 0} → (A → S → Result B × S) → Result A × S → Result B × S
  followed f x = elim x.0 [ ok a ↦ f a x.1 | err e ↦ (err e, x.1) ]

  abbrev pub handled :
      {A : Type 0} → (Exn → Bool) → (Exn → S → Result A × S) → Result A × S → Result A × S
  handled caught handler x = elim x.0 [
    | ok a ↦ (ok a, x.1)
    | err e ↦ if caught e then handler e x.1 else (err e, x.1)
  ]

module _ {S : Type 0} {invariant : S → Type 0} where
  pub return-Gives : {A : Type 0} {P : A → Type 0} (a : A) → P a → Gives invariant (return a) P
  return-Gives a p = record { given = λ s h. (h, p) }

  pub raise-Gives : {A : Type 0} {P : A → Type 0} (e : Exn) → Gives {A = A} invariant (raise e) P
  raise-Gives e = record { given = λ s h. (h, tt) }

  pub gets-Any : {A : Type 0} (f : S → A) → Gives invariant (gets f) Any
  gets-Any f = record { given = λ s h. (h, tt) }

  -- after a check that does not raise, it is known to have been false
  pub raise_if-Gives :
      (test : Bool) (e : Exn) → Gives invariant (raise_if test e) (λ _. test ≡ false)
  raise_if-Gives true e = record { given = λ s h. (h, tt) }
  raise_if-Gives false e = record { given = λ s h. (h, refl) }

  pub await-Gives : {A : Type 0} (r : Reply A) → Gives invariant (await r) (λ a. r ≡ answered a)
  await-Gives (answered a) = record { given = λ s h. (h, refl) }
  await-Gives call_failed = record { given = λ s h. (h, tt) }
  await-Gives timed_out = record { given = λ s h. (h, tt) }

  pub bind-Gives :
      {A B : Type 0} {P : A → Type 0} {Q : B → Type 0} {m : S → Result A × S}
      {f : A → S → Result B × S}
      → Gives invariant m P
      → ((a : A) → P a → Gives invariant (f a) Q)
      → Gives invariant (m >>= f) Q
  bind-Gives {A} {B} {P} {Q} {m} {f} hm hf = record {
    given = λ s h. by_result (m s) (hm.given s h);
  }
    where
      by_result :
          (x : Result A × S)
          → invariant x.1 × Returned P x.0
          → invariant (followed f x).1 × Returned Q (followed f x).0
      by_result (ok a, t) h = (hf a h.1).given t h.0
      by_result (err e, t) h = (h.0, tt)

  pub catch-Gives :
      {A : Type 0} {P : A → Type 0} (caught : Exn → Bool) (handler : Exn → S → Result A × S)
      (m : S → Result A × S)
      → ((e : Exn) → Gives invariant (handler e) P)
      → Gives invariant m P
      → Gives invariant (catch caught handler m) P
  catch-Gives {A} {P} caught handler m hh hm = record {
    given = λ s h. by_result (m s) (hm.given s h);
  }
    where
      by_test :
          (b : Bool) (e : Exn) (t : S)
          → invariant t
          → invariant (if b then handler e t else (err e, t)).1
            × Returned P (if b then handler e t else (err e, t)).0
      by_test true e t h = (hh e).given t h
      by_test false e t h = (h, tt)

      by_result :
          (x : Result A × S)
          → invariant x.1 × Returned P x.0
          → invariant (handled caught handler x).1 × Returned P (handled caught handler x).0
      by_result (ok a, t) h = h
      by_result (err e, t) h = by_test (caught e) e t h.0

  pub on_error-Gives :
      {A : Type 0} {P : A → Type 0} (caught : Exn → Bool) (handler : Exn → S → Result {0} Unit × S)
      (m : S → Result A × S)
      → ((e : Exn) → Gives invariant (handler e) Any)
      → Gives invariant m P
      → Gives invariant (on_error caught handler m) P
  on_error-Gives {A} {P} caught handler m hh hm =
      catch-Gives caught (λ e. handler e >>= λ _. raise {A = A} e) m
        (λ e. bind-Gives (hh e) (λ _ _. raise-Gives e)) hm

  -- What is known of the value may be forgotten.
  pub weaken-Gives :
      {A : Type 0} {P Q : A → Type 0} {m : S → Result A × S}
      → ((a : A) → P a → Q a)
      → Gives invariant m P
      → Gives invariant m Q
  weaken-Gives {A} {P} {Q} {m} weaker hm = record { given = λ s h. by_result (m s) (hm.given s h) }
    where
      by_result :
          (x : Result A × S) → invariant x.1 × Returned P x.0 → invariant x.1 × Returned Q x.0
      by_result (ok a, t) h = (h.0, weaker a h.1)
      by_result (err e, t) h = (h.0, tt)

  -- the rules that forget the value
  pub raise_if-Any : (test : Bool) (e : Exn) → Gives invariant (raise_if test e) Any
  raise_if-Any test e = weaken-Gives (λ _ _. tt) (raise_if-Gives test e)

  pub await-Any : {A : Type 0} (r : Reply A) → Gives invariant (await r) Any
  await-Any r = weaken-Gives (λ _ _. tt) (await-Gives r)

  pub then-Gives :
      {A B : Type 0} {Q : B → Type 0} {m : S → Result A × S} {f : A → S → Result B × S}
      → Gives invariant m Any
      → ((a : A) → Gives invariant (f a) Q)
      → Gives invariant (m >>= f) Q
  then-Gives hm hf = bind-Gives hm (λ a _. hf a)

  pub if-Gives :
      {A : Type 0} {P : A → Type 0} (b : Bool) {m k : S → Result A × S}
      → Gives invariant m P
      → Gives invariant k P
      → Gives invariant (if b then m else k) P
  if-Gives true hm hk = hm
  if-Gives false hm hk = hk

-- In a state that is known, what is read is known.
pub gets-Known : {S A : Type 0} {s : S} (f : S → A) → Gives (λ t. t ≡ s) (gets f) (λ a. a ≡ f s)
gets-Known f = record { given = λ t h. (h, ap f h) }

-- A method that only reads.
pub reads-Gives :
    {S A : Type 0} {s : S} {m : S → Result A × S}
    → ((t : S) → (m t).1 ≡ t)
    → Gives (λ t. t ≡ s) m Any
reads-Gives {S} {A} {s} {m} reads = record { given = λ t h. (reads t ∙ h, any (m t).0) }
  where
    any : (r : Result A) → Returned Any r
    any (ok a) = tt
    any (err e) = tt
