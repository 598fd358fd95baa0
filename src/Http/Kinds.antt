-- ===== src/Http/Kinds.antt =====
-- The kind and the `required` flag of a handler's parameter, case by case.
use openvair_rde_linter.Base.{
  ℕ, String, ◌-◌, true, false, ◌≡◌, refl, ap, inl, inr, Option, none, some, List, [], ◌∷◌, ◌++◌,
  map, arith, Bool-cases, Option-cases, ◌==◌, string_eq, is_empty, String-discrete, length,
  if◌then◌else◌, eq_of_==, length-append,
}
use openvair_rde_linter.Base.Dict
use openvair_rde_linter.Ast.{Expr, Arg, Arguments, call}
use openvair_rde_linter.Http.Routers.{call_name_like}
use openvair_rde_linter.Http.Parameters.{
  kind_of_name, default_classifies, annotation_suggests_request_body, is_injection,
  infer_param_kind, positional, zip, fillers,
}

kind_of_depends :
    (o : Option String)
    → (elim o [ none ↦ false | some cn ↦ cn == "Depends" ]) ≡ true
    → kind_of_name o ≡ some "depends"
unfolding kind_of_name is_empty Dict.get String-discrete
kind_of_depends none h = cc
kind_of_depends (some cn) h = rw (eq_of_== cn "Depends" h) refl

-- A default that is a call of `Depends` is classified as such.
depends_classified :
    (default : Option Expr)
    → is_injection default "Depends" ≡ true
    → default_classifies default ≡ some "depends"
unfolding is_injection default_classifies
depends_classified none h = cc
depends_classified (some (call func args kws)) h = kind_of_depends (call_name_like func) h
depends_classified (some _) h = cc

-- Without a classified default there is no call of `Depends`.
no_depends :
    (default : Option Expr)
    → default_classifies default ≡ none
    → is_injection default "Depends" ≡ false
no_depends default e = elim (Bool-cases (is_injection default "Depends")) [
  | inl injected ↦ cc (e, depends_classified default injected)
  | inr other ↦ other
]

-- The kind of a parameter is that of the call which is its default, if `mapping` has it, else "body"
-- if the annotation reaches into `schemas`, else "query". The last branch of the code, for a `dict`
-- annotation with a `Depends` default, is never taken.
pub infer_param_kind_lem :
    (unparse : Expr → String) (arg : Arg) (default : Option Expr)
    → infer_param_kind unparse arg default ≡ elim (default_classifies default) [
      | some kind ↦ kind
      | none ↦ if annotation_suggests_request_body arg.annotation then "body" else "query"
    ]
unfolding infer_param_kind
infer_param_kind_lem unparse arg default = elim (Option-cases (default_classifies default)) [
  | inr (kind, e) ↦ rw (e, infer_param_kind) refl
  | inl e ↦ rw (e, infer_param_kind) (rw (no_depends default e) (ground arith))
]

abbrev pub undefaulted : Arg → Arg × Option Expr
undefaulted arg = (arg, none)

zip-fillers :
    (before after : List Arg) (defaults : List (Option Expr))
    → zip (before ++ after) (fillers (length before) ++ defaults)
      ≡ map undefaulted before ++ zip after defaults
zip-fillers [] after defaults = refl
zip-fillers (arg ∷ before) after defaults =
    ap (λ pairs. undefaulted arg ∷ pairs) (zip-fillers before after defaults)

filler_count :
    (before after : List Arg) (n : ℕ)
    → length after ≡ n
    → length (before ++ after) - n ≡ length before
filler_count before after n h = omega (arith, length-append before after)

-- If as many parameters come last as there are defaults, those get the defaults in order, and the
-- parameters before them get none; the positional-only ones stand first.
pub positional_lem :
    (args : Arguments) (before after : List Arg)
    → args.posonlyargs ++ args.args ≡ before ++ after
    → length after ≡ length args.defaults
    → positional args ≡ map undefaulted before ++ zip after (map some args.defaults)
unfolding positional
positional_lem args before after all same =
    rw (all, filler_count before after (length args.defaults) same)
      (zip-fillers before after (map some args.defaults))
