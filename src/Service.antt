-- ===== src/Service.antt =====
-- What the service layers of openvair/modules share: a method with state and exceptions, calls of
-- other services, and tables of rows. A raise keeps the state: each method commits in the
-- `finally` of the block that writes, or nothing raises between its writes and its commit.
pub mod Table
pub mod Keeps
pub mod Runs
pub mod Ensures
pub mod Gives
pub mod Ends
use openvair_rde_linter.Base.{String, Bool, true, false, Option, none, some, if◌then◌else◌}
use openvair_rde_linter.Result.{Exn, Result, ok, err}

-- What comes back from a call over openvair/libs/messaging: `RpcCallException` or
-- `RpcCallTimeoutException` in place of an answer.
pub data Reply (A : Type 0) : Type 0 where
  answered : A → Reply A
  call_failed : Reply A
  timed_out : Reply A

module _ {S : Type 0} where
  abbrev pub return : {A : Type 0} → A → S → Result A × S
  return a s = (ok a, s)

  abbrev pub raise : {A : Type 0} → Exn → S → Result A × S
  raise e s = (err e, s)

  abbrev pub modify : (S → S) → S → Result {0} Unit × S
  modify f s = (ok tt, f s)

  abbrev pub gets : {A : Type 0} → (S → A) → S → Result A × S
  gets f s = (ok (f s), s)

  abbrev pub raise_if : Bool → Exn → S → Result {0} Unit × S
  raise_if test e s = (if test then err e else ok tt, s)

  -- a reply, or the exception of the call
  abbrev pub await : {A : Type 0} → Reply A → S → Result A × S
  await (answered a) s = (ok a, s)
  await call_failed s = (err Exn.rpc_call, s)
  await timed_out s = (err Exn.rpc_call_timeout, s)

  infixl 5 ◌>>=◌ ◌>>◌
  abbrev pub ◌>>=◌ : {A B : Type 0} → (S → Result A × S) → (A → S → Result B × S) → S → Result B × S
  ◌>>=◌ m f s = let (r, t) = m s in elim r [ ok a ↦ f a t | err e ↦ (err e, t) ]

  abbrev pub ◌>>◌ : {B : Type 0} → (S → Result {0} Unit × S) → (S → Result B × S) → S → Result B × S
  m >> k = m >>= λ _. k

  -- `try: m`, `except caught as err: handler; raise`
  abbrev pub on_error :
      {A : Type 0}
      → (Exn → Bool)
      → (Exn → S → Result {0} Unit × S)
      → (S → Result A × S)
      → S
      → Result A × S
  on_error caught handler m s =
      let (r, t) = m s in
      elim r [
        | ok a ↦ (ok a, t)
        | err e ↦ if caught e then (handler e >>= λ _. raise e) t else (err e, t)
      ]

  -- `try: m`, `except caught as err: handler`, where the handler may raise what it likes
  abbrev pub catch :
      {A : Type 0} → (Exn → Bool) → (Exn → S → Result A × S) → (S → Result A × S) → S → Result A × S
  catch caught handler m s =
      let (r, t) = m s in
      elim r [ ok a ↦ (ok a, t) | err e ↦ if caught e then handler e t else (err e, t) ]

  -- `try: m`, `finally: last`, for a `last` that does not raise
  abbrev pub finally : {A : Type 0} → (S → S) → (S → Result A × S) → S → Result A × S
  finally last m s = let (r, t) = m s in (r, last t)

-- `except (RpcCallException, RpcCallTimeoutException)`
abbrev pub is_rpc_error : Exn → Bool
is_rpc_error Exn.rpc_call = true
is_rpc_error Exn.rpc_call_timeout = true
is_rpc_error _ = false
