-- ===== src/Http/Parameters.antt =====
-- http/http_routes.py: the contract rows of a handler's parameters. `unparse` is `ast.unparse`.
use openvair_rde_linter.Base.{
  String, ◌-◌, Bool, true, false, not, ◌&&◌, ◌||◌, Option, none, some, List, [], ◌∷◌, ◌++◌, map,
  contains, ◌==◌, string_eq, length, is_empty, if◌then◌else◌,
}
use openvair_rde_linter.Base.Dict
use openvair_rde_linter.Base.Dict.{Dict}
use openvair_rde_linter.Ast.{
  Expr, Exprs, Keywords, Constant, Operator, Arg, Arguments, name, attribute, call, constant,
  subscript, bin_op, nil, cons, end, keyword,
}
use openvair_rde_linter.Paths.{is_contract_public_name}
use openvair_rde_linter.Value.{Value, Fields, text, flag, dict}
use openvair_rde_linter.Http.Routers.{call_name_like}
use Prim.Native.Nat.{ℕ, zero, suc}

abbrev pub kind_by_call : Dict String
kind_by_call =
    ("Path", "path")
    ∷ ("Query", "query")
    ∷ ("Depends", "depends")
    ∷ ("Body", "body")
    ∷ ("File", "body")
    ∷ ("Form", "body")
    ∷ []

-- `mapping.get(cn) if cn else None`
unfoldable pub kind_of_name : Option String → Option String
unfolding Dict.get is_empty
kind_of_name none = none
kind_of_name (some cn) = if is_empty cn then none else Dict.get kind_by_call cn

unfoldable pub default_classifies : Option Expr → Option String
unfolding kind_of_name call_name_like
default_classifies (some (call func _ _)) = kind_of_name (call_name_like func)
default_classifies _ = none

is_optional_name : Expr → Bool
is_optional_name (name id) = id == "Optional"
is_optional_name (attribute _ attr) = attr == "Optional"
is_optional_name _ = false

is_bit_or : Operator → Bool
is_bit_or Operator.bit_or = true
is_bit_or (Operator.other_operator _) = false

unfoldable pub is_optional_annotation : Option Expr → Bool
unfolding is_optional_name is_bit_or
is_optional_annotation (some (subscript value _)) = is_optional_name value
is_optional_annotation (some (bin_op _ op _)) = is_bit_or op
is_optional_annotation _ = false

is_schemas : Expr → Bool
is_schemas (name id) = id == "schemas"
is_schemas _ = false

-- `_annotation_suggests_request_body` and `_schema_recursive`, which call one another, as one recursion
suggests_body : Expr → Bool
unfolding is_schemas
suggests_body (subscript _ slice) = suggests_body slice
suggests_body (attribute parent _) = if is_schemas parent then true else suggests_body parent
suggests_body _ = false

unfoldable pub annotation_suggests_request_body : Option Expr → Bool
unfolding suggests_body
annotation_suggests_request_body none = false
annotation_suggests_request_body (some ann) = suggests_body ann

-- `isinstance(default, ast.Call)` and a call of that name
unfoldable pub is_injection : Option Expr → String → Bool
unfolding call_name_like
is_injection (some (call func _ _)) n = elim (call_name_like func) [
  | none ↦ false
  | some cn ↦ cn == n
]
is_injection _ n = false

unfoldable pub is_ellipsis : Expr → Bool
is_ellipsis (constant Constant.ellipsis) = true
is_ellipsis _ = false

first_is_ellipsis : Exprs → Bool
unfolding is_ellipsis
first_is_ellipsis nil = true
first_is_ellipsis (cons value _) = is_ellipsis value

names_default : Option String → Bool
names_default none = false
names_default (some arg) = arg == "default"

-- A `default=` keyword decides before the first positional argument.
unfoldable pub query_call_required : Exprs → Keywords → Bool
unfolding first_is_ellipsis names_default
query_call_required args end = first_is_ellipsis args
query_call_required args (keyword arg value rest) =
    if names_default arg then is_ellipsis value else query_call_required args rest

unfoldable pub required_from_default : Expr → Bool
unfolding is_injection query_call_required
required_from_default (call func args keywords) =
    if is_injection (some (call func args keywords)) "Query"
    then query_call_required args keywords
    else true
required_from_default _ = true

unfoldable pub required_of_default : Option Expr → Option Expr → Bool
unfolding is_optional_annotation required_from_default
required_of_default none ann = not (is_optional_annotation ann)
required_of_default (some (constant Constant.none_value)) ann = false
required_of_default (some default) ann = required_from_default default

unfoldable pub param_required : String → Option Expr → Option Expr → Bool
unfolding required_of_default
param_required kind default ann =
    if kind == "depends" || kind == "path" then true else required_of_default default ann

-- `zip(xs, ys)`
abbrev pub zip {ℓ κ} : {A : Type ℓ} {B : Type κ} → List A → List B → List (A × B)
zip (x ∷ xs) (y ∷ ys) = (x, y) ∷ zip xs ys
zip _ _ = []

abbrev pub fillers : ℕ → List (Option Expr)
fillers zero = []
fillers (suc n) = none ∷ fillers n

-- The defaults belong to the last of the positional parameters.
unfoldable pub positional : Arguments → List (Arg × Option Expr)
positional args =
    let all_args = args.posonlyargs ++ args.args in
    let num_no_default = length all_args - length args.defaults in
    zip all_args (fillers num_no_default ++ map some args.defaults)

module _ (unparse : Expr → String) where
  unfoldable pub annotation_str : Option Expr → String
  annotation_str none = ""
  annotation_str (some ann) = unparse ann

  unfoldable pub infer_param_kind : Arg → Option Expr → String
  infer_param_kind arg default =
      let is_dict_ann = contains ("Dict" ∷ "dict" ∷ []) (annotation_str arg.annotation) in
      elim (default_classifies default) [
        | some explicit ↦ explicit
        | none ↦
            if annotation_suggests_request_body arg.annotation
            then "body"
            else if is_dict_ann && is_injection default "Depends"
            then "depends"
            else "query"
      ]

  unfoldable pub parameter_row : Arg → Option Expr → Value
  unfolding infer_param_kind param_required
  parameter_row arg default =
      let kind = infer_param_kind arg default in
      dict (
        Fields.field "name" (text arg.arg) (
          Fields.field "kind" (text kind) (
            Fields.field "required" (flag (param_required kind default arg.annotation))
              (Fields.field "type_hint" (text (annotation_str arg.annotation)) Fields.no_field))))

  -- the rows of the public parameters, in order
  unfoldable pub rows : List (Arg × Option Expr) → List Value
  unfolding parameter_row is_contract_public_name
  rows [] = []
  rows ((arg, default) ∷ params) =
      let rest = rows params in
      if is_contract_public_name arg.arg then parameter_row arg default ∷ rest else rest

  unfoldable pub handler_parameters : Arguments → List Value
  unfolding rows positional
  handler_parameters args = rows (positional args) ++ rows (zip args.kwonlyargs args.kw_defaults)
