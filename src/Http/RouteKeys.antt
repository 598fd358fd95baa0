-- ===== src/Http/RouteKeys.antt =====
-- The rows that `extract_http_endpoints_from_module` returns, as the comparator reads them.
use openvair_rde_linter.Base.{
  String, true, ◌≡◌, refl, inl, inr, Option, none, some, List, [], ◌∷◌, arith, Bool-cases, Triple,
  contains, string_eq, String-discrete, begins_with, upper, All,
}
use openvair_rde_linter.Base.Dict.{Dict}
use openvair_rde_linter.Ast.{Expr, Exprs, Function, Stmt, name, attribute, call, function}
use openvair_rde_linter.Value.{Value, as_dict}
use openvair_rde_linter.Paths.{is_contract_public_name}
use openvair_rde_linter.Compare.Rows.{http_endpoint_triple}
use openvair_rde_linter.Http.RouteLaws.{join_fastapi_route_path_begins}
use openvair_rde_linter.Http.Routers.{
  http_verbs, with_path, literal_route_path_arg, router_route_parts, full_route,
  extract_route_from_decorator, first_route_decorator, first_some,
}
use openvair_rde_linter.Http.Endpoints.{
  endpoint_row, endpoint_of, endpoints_of, extract_http_endpoints_from_module, row_for_route,
  prepend_some,
}

abbrev pub methods : List String
methods = "GET" ∷ "POST" ∷ "PUT" ∷ "PATCH" ∷ "DELETE" ∷ "HEAD" ∷ "OPTIONS" ∷ []

upper_verbs :
    (upper "get" ≡ "GET")
    × (upper "post" ≡ "POST")
    × (upper "put" ≡ "PUT")
    × (upper "patch" ≡ "PATCH")
    × (upper "delete" ≡ "DELETE")
    × (upper "head" ≡ "HEAD")
    × (upper "options" ≡ "OPTIONS")
unfolding upper
upper_verbs = (refl, refl, refl, refl, refl, refl, refl)

upper-verb :
    (verb : String) → contains http_verbs verb ≡ true → contains methods (upper verb) ≡ true
upper-verb verb h = ground (arith, upper_verbs)

upper_methods :
    (upper "GET" ≡ "GET")
    × (upper "POST" ≡ "POST")
    × (upper "PUT" ≡ "PUT")
    × (upper "PATCH" ≡ "PATCH")
    × (upper "DELETE" ≡ "DELETE")
    × (upper "HEAD" ≡ "HEAD")
    × (upper "OPTIONS" ≡ "OPTIONS")
unfolding upper
upper_methods = (refl, refl, refl, refl, refl, refl, refl)

upper-method : (m : String) → contains methods m ≡ true → upper m ≡ m
upper-method m h = ground (arith, upper_methods)

-- A method in capitals and a path that begins with a slash.
abbrev IsRoute : String × String → Type 0
IsRoute (method, path) = (contains methods method ≡ true) × (begins_with b'/' path ≡ true)

-- The predicate of what is there, if anything is.
abbrev IfSome {ℓ κ} : {A : Type ℓ} → (A → Type κ) → Option A → Type κ
IfSome P none = Unit
IfSome P (some a) = P a

abbrev HasMethod : Triple → Type 0
HasMethod (method, _, _) = contains methods method ≡ true

with_path-HasMethod :
    (verb router_var : String) (path : Option String)
    → contains http_verbs verb ≡ true
    → IfSome HasMethod (with_path verb router_var path)
unfolding with_path
with_path-HasMethod verb router_var none h = tt
with_path-HasMethod verb router_var (some path) h = upper-verb verb h

route_parts-HasMethod :
    (func : Expr) (args : Exprs) → IfSome HasMethod (router_route_parts func args)
unfolding router_route_parts
route_parts-HasMethod (attribute (name router_var) verb) args =
    elim (Bool-cases (contains http_verbs verb)) [
      | inl known ↦
          rw known (with_path-HasMethod verb router_var (literal_route_path_arg args) known)
      | inr unknown ↦ rw unknown tt
    ]
route_parts-HasMethod (attribute _ verb) args = tt
route_parts-HasMethod _ args = tt

full_route-IsRoute :
    (prefixes : Dict String) (parts : Option Triple)
    → IfSome HasMethod parts
    → IfSome IsRoute (full_route prefixes parts)
unfolding full_route
full_route-IsRoute prefixes none h = tt
full_route-IsRoute prefixes (some (verb, router_var, path)) h =
    (h, join_fastapi_route_path_begins _ path)

decorator-IsRoute :
    (dec : Expr) (prefixes : Dict String)
    → IfSome IsRoute (extract_route_from_decorator dec prefixes)
unfolding extract_route_from_decorator
decorator-IsRoute (call func args kws) prefixes =
    full_route-IsRoute prefixes (router_route_parts func args) (route_parts-HasMethod func args)
decorator-IsRoute _ prefixes = tt

first_some-IsRoute :
    (here rest : Option (String × String))
    → IfSome IsRoute here
    → IfSome IsRoute rest
    → IfSome IsRoute (first_some here rest)
unfolding first_some
first_some-IsRoute none rest h k = k
first_some-IsRoute (some route) rest h k = h

first-IsRoute :
    (decs : List Expr) (prefixes : Dict String)
    → IfSome IsRoute (first_route_decorator decs prefixes)
unfolding first_route_decorator
first-IsRoute [] prefixes = tt
first-IsRoute (dec ∷ decs) prefixes =
    first_some-IsRoute (extract_route_from_decorator dec prefixes)
      (first_route_decorator decs prefixes) (decorator-IsRoute dec prefixes)
      (first-IsRoute decs prefixes)

-- A key with one of the seven methods in capitals, a path that begins with a slash, and the name
-- of a public handler.
abbrev pub IsRouteKey : Triple → Type 0
IsRouteKey (method, path, handler) =
    (contains methods method ≡ true)
    × (begins_with b'/' path ≡ true)
    × (is_contract_public_name handler ≡ true)

-- a row that is a mapping with such a key
abbrev pub IsRouteRow : Value → Type 0
IsRouteRow row = elim (as_dict row) [ none ↦ ⊥ | some d ↦ IsRouteKey (http_endpoint_triple d) ]

module _ (unparse : Expr → String) where
  endpoint_row-IsRouteRow :
      (func : Function) (source_file method path : String)
      → is_contract_public_name func.name ≡ true
      → IsRoute (method, path)
      → IsRouteRow (endpoint_row unparse func source_file method path)
  unfolding endpoint_row http_endpoint_triple String-discrete
  endpoint_row-IsRouteRow func source_file method path public (verb, slash) =
      (rw (upper-method method verb) verb, slash, public)

  row_for_route-IsRouteRow :
      (func : Function) (source_file : String) (route : Option (String × String))
      → is_contract_public_name func.name ≡ true
      → IfSome IsRoute route
      → IfSome IsRouteRow (row_for_route unparse func source_file route)
  unfolding row_for_route
  row_for_route-IsRouteRow func source_file none public h = tt
  row_for_route-IsRouteRow func source_file (some (method, path)) public h =
      endpoint_row-IsRouteRow func source_file method path public h

  endpoint_of-IsRouteRow :
      (func : Function) (source_file : String) (prefixes : Dict String)
      → IfSome IsRouteRow (endpoint_of unparse func source_file prefixes)
  unfolding endpoint_of
  endpoint_of-IsRouteRow func source_file prefixes =
      elim (Bool-cases (is_contract_public_name func.name)) [
        | inl public ↦ rw public (
            row_for_route-IsRouteRow func source_file
              (first_route_decorator func.decorator_list prefixes) public
              (first-IsRoute func.decorator_list prefixes))
        | inr private ↦ rw private tt
      ]

  prepend_some-All :
      (o : Option Value) (rows : List Value)
      → IfSome IsRouteRow o
      → All IsRouteRow rows
      → All IsRouteRow (prepend_some o rows)
  prepend_some-All none rows h k = k
  prepend_some-All (some row) rows h k = (h, k)

  endpoints_of-All :
      (body : List Stmt) (source_file : String) (prefixes : Dict String)
      → All IsRouteRow (endpoints_of unparse body source_file prefixes)
  unfolding endpoints_of
  endpoints_of-All [] source_file prefixes = tt
  endpoints_of-All (function func _ ∷ body) source_file prefixes =
      prepend_some-All (endpoint_of unparse func source_file prefixes)
        (endpoints_of unparse body source_file prefixes)
        (endpoint_of-IsRouteRow func source_file prefixes)
        (endpoints_of-All body source_file prefixes)
  endpoints_of-All (_ ∷ body) source_file prefixes = endpoints_of-All body source_file prefixes

  -- Each route that is extracted from a module is a mapping and has, under the key by which the comparator looks it
  -- up, one of the seven methods in capitals, a path with a slash in front, and a public handler.
  pub extracted_routes_have_keys :
      (body : List Stmt) (source_file : String)
      → All IsRouteRow (extract_http_endpoints_from_module unparse body source_file)
  unfolding extract_http_endpoints_from_module
  extracted_routes_have_keys body source_file = endpoints_of-All body source_file _
