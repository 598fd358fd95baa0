-- ===== src/Tests/Routes.antt =====
-- A module with a router and one route.
use openvair_rde_linter.Base.{String, ◌≡◌, refl, some, none, List, [], ◌∷◌, All, string_eq}
use openvair_rde_linter.Ast.{
  Expr, Constant, Arg, Arguments, Stmt, name, attribute, call, constant, nil, cons, end, keyword,
  assign, function, empty,
}
use openvair_rde_linter.Http.RoutePath.{join_fastapi_route_path, with_slash, is_blank_prefix}
use openvair_rde_linter.Http.Endpoints.{extract_http_endpoints_from_module}
use openvair_rde_linter.Http.RouteKeys.{IsRouteRow, extracted_routes_have_keys}

abbrev unparse : Expr → String
unparse _ = "..."

join_run : join_fastapi_route_path (some "/widgets/") "list" ≡ "/widgets/list"
unfolding join_fastapi_route_path is_blank_prefix with_slash
join_run = refl

abbrev plain : Arg
plain = record { arg = "uid"; annotation = none }

abbrev session : Arg
session = record { arg = "session"; annotation = none }

abbrev injected : Expr
injected = call (name "Depends") (cons (name "get_session") nil) end

abbrev args : Arguments
args = record {
  posonlyargs = [];
  args = plain ∷ session ∷ [];
  defaults = injected ∷ [];
  kwonlyargs = [];
  kw_defaults = [];
}

-- router = APIRouter(prefix="/widgets"), then @router.get("/") on list_widgets
abbrev body : List Stmt
body =
    assign (name "router" ∷ []) (
      call (name "APIRouter") nil
        (keyword (some "prefix") (constant (Constant.str "/widgets")) end))
    ∷ function
        (record {
          name = "list_widgets";
          args = args;
          decorator_list =
              call (attribute (name "router") "get") (cons (constant (Constant.str "/")) nil) end
              ∷ [];
        })
        empty
    ∷ []

extracted_routes_have_keys_example :
    All IsRouteRow (extract_http_endpoints_from_module unparse body "entrypoints/api.py")
extracted_routes_have_keys_example = extracted_routes_have_keys unparse body "entrypoints/api.py"
