-- ===== src/Http/Endpoints.antt =====
-- http/http_routes.py `extract_http_endpoints_from_module`.
use openvair_rde_linter.Base.{String, Option, none, some, List, [], ◌∷◌, if◌then◌else◌}
use openvair_rde_linter.Base.Dict.{Dict}
use openvair_rde_linter.Ast.{Expr, Function, Stmt, function}
use openvair_rde_linter.Paths.{is_contract_public_name}
use openvair_rde_linter.Value.{Value, Fields, of_list, text, list, dict}
use openvair_rde_linter.Http.Routers.{collect_router_vars, first_route_decorator}
use openvair_rde_linter.Http.Parameters.{handler_parameters}

abbrev pub prepend_some : Option Value → List Value → List Value
prepend_some none rows = rows
prepend_some (some row) rows = row ∷ rows

module _ (unparse : Expr → String) where
  unfoldable pub endpoint_row : Function → String → String → String → Value
  unfolding handler_parameters
  endpoint_row func source_file method path = dict (
      Fields.field "method" (text method) (
        Fields.field "path" (text path) (
          Fields.field "handler" (text func.name) (
            Fields.field "parameters" (list (of_list (handler_parameters unparse func.args)))
              (Fields.field "source_file" (text source_file) Fields.no_field)))))

  unfoldable pub row_for_route : Function → String → Option (String × String) → Option Value
  unfolding endpoint_row
  row_for_route func source_file none = none
  row_for_route func source_file (some (method, path)) =
      some (endpoint_row func source_file method path)

  -- what one top-level function adds to the endpoints
  unfoldable pub endpoint_of : Function → String → Dict String → Option Value
  endpoint_of func source_file router_prefixes =
      if is_contract_public_name func.name
      then row_for_route func source_file
          (first_route_decorator func.decorator_list router_prefixes)
      else none

  unfoldable pub endpoints_of : List Stmt → String → Dict String → List Value
  endpoints_of [] source_file router_prefixes = []
  endpoints_of (function func _ ∷ body) source_file router_prefixes =
      prepend_some (endpoint_of func source_file router_prefixes)
        (endpoints_of body source_file router_prefixes)
  endpoints_of (_ ∷ body) source_file router_prefixes =
      endpoints_of body source_file router_prefixes

  -- over `module.body`
  unfoldable pub extract_http_endpoints_from_module : List Stmt → String → List Value
  extract_http_endpoints_from_module body source_file =
      endpoints_of body source_file (collect_router_vars body)
