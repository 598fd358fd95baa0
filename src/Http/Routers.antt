-- ===== src/Http/Routers.antt =====
-- http/http_routes.py: the router variables of a module and the routes that decorators name.
use openvair_rde_linter.Base.{
  String, Bool, false, Option, none, some, List, [], ◌∷◌, contains, ◌==◌, string_eq, is_empty,
  upper, if◌then◌else◌,
}
use openvair_rde_linter.Base.Dict
use openvair_rde_linter.Base.Dict.{Dict}
use openvair_rde_linter.Ast.{
  Expr, Exprs, Keywords, Constant, Stmt, name, attribute, call, constant, cons, end, keyword,
  assign,
}
use openvair_rde_linter.Http.RoutePath.{join_fastapi_route_path}

abbrev pub http_verbs : List String
http_verbs = "get" ∷ "post" ∷ "put" ∷ "patch" ∷ "delete" ∷ "head" ∷ "options" ∷ []

-- The name that is called: `Query` of `Query()`, `get` of `router.get()`. Of a callee alone.
unfoldable pub call_name_like : Expr → Option String
call_name_like (name id) = some id
call_name_like (attribute _ attr) = some attr
call_name_like _ = none

unfoldable pub is_api_router_call : Expr → Bool
is_api_router_call (name id) = id == "APIRouter"
is_api_router_call (attribute _ attr) = attr == "APIRouter"
is_api_router_call _ = false

-- `value if isinstance(value, str) else None` of a constant
unfoldable pub str_constant : Constant → Option String
str_constant (Constant.str s) = some s
str_constant _ = none

-- a `prefix=` keyword decides only if its value is a constant
prefix_or : Option String → Expr → Option String → Option String
unfolding str_constant
prefix_or (some arg) (constant value) rest = if arg == "prefix" then str_constant value else rest
prefix_or _ _ rest = rest

unfoldable pub prefix_constant_from_keywords : Keywords → Option String
unfolding prefix_or
prefix_constant_from_keywords end = none
prefix_constant_from_keywords (keyword arg value rest) =
    prefix_or arg value (prefix_constant_from_keywords rest)

-- `out[t.id] = prefix` for each target that is a name
register_targets : List Expr → String → Dict String → Dict String
unfolding Dict.set
register_targets [] prefix out = out
register_targets (name id ∷ targets) prefix out =
    register_targets targets prefix (Dict.set out id prefix)
register_targets (_ ∷ targets) prefix out = register_targets targets prefix out

register_prefix : List Expr → Option String → Dict String → Dict String
unfolding register_targets
register_prefix targets none out = out
register_prefix targets (some prefix) out = register_targets targets prefix out

unfoldable pub try_register_router_assignment : List Expr → Expr → Dict String → Dict String
unfolding is_api_router_call prefix_constant_from_keywords register_prefix
try_register_router_assignment targets (call func args keywords) out =
    if is_api_router_call func
    then register_prefix targets (prefix_constant_from_keywords keywords) out
    else out
try_register_router_assignment targets _ out = out

register_all : List Stmt → Dict String → Dict String
unfolding try_register_router_assignment
register_all [] out = out
register_all (assign targets value ∷ body) out =
    register_all body (try_register_router_assignment targets value out)
register_all (_ ∷ body) out = register_all body out

-- over `module.body`
unfoldable pub collect_router_vars : List Stmt → Dict String
unfolding register_all
collect_router_vars body = register_all body []

unfoldable pub literal_route_path_arg : Exprs → Option String
unfolding str_constant
literal_route_path_arg (cons (constant value) _) = str_constant value
literal_route_path_arg _ = none

unfoldable pub with_path : String → String → Option String → Option (String × String × String)
unfolding upper
with_path verb router_var none = none
with_path verb router_var (some path) = some (upper verb, router_var, path)

-- (METHOD, router variable, path literal) of `@router.verb("path")`
unfoldable pub router_route_parts : Expr → Exprs → Option (String × String × String)
unfolding with_path literal_route_path_arg
router_route_parts (attribute (name router_var) verb) args =
    if contains http_verbs verb
    then with_path verb router_var (literal_route_path_arg args)
    else none
router_route_parts _ args = none

-- `prefix or None`
unfoldable pub or_none : String → Option String
unfolding is_empty
or_none prefix = if is_empty prefix then none else some prefix

unfoldable pub full_route :
    Dict String → Option (String × String × String) → Option (String × String)
unfolding or_none Dict.get_or join_fastapi_route_path
full_route router_prefixes none = none
full_route router_prefixes (some (verb, router_var, path)) =
    some (verb, join_fastapi_route_path (or_none (Dict.get_or router_prefixes router_var "")) path)

unfoldable pub extract_route_from_decorator : Expr → Dict String → Option (String × String)
unfolding full_route router_route_parts
extract_route_from_decorator (call func args _) router_prefixes =
    full_route router_prefixes (router_route_parts func args)
extract_route_from_decorator _ router_prefixes = none

unfoldable pub first_some :
    Option (String × String) → Option (String × String) → Option (String × String)
first_some (some route) rest = some route
first_some none rest = rest

-- The first decorator that is a route decides, over `func.decorator_list`.
unfoldable pub first_route_decorator : List Expr → Dict String → Option (String × String)
unfolding first_some
first_route_decorator [] router_prefixes = none
first_route_decorator (dec ∷ decs) router_prefixes =
    first_some (extract_route_from_decorator dec router_prefixes)
      (first_route_decorator decs router_prefixes)
