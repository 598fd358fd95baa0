-- ===== src/Contract/Layers.antt =====
-- contract/spec_document.py `_normalize_layer`: the shorthand keys of a layer rewritten.
use openvair_rde_linter.Base.{
  String, Bool, not, ◌&&◌, ◌||◌, Option, none, some, List, [], ◌∷◌, ◌++◌, map, contains, string_eq,
  is_empty, starts_with, upper, if◌then◌else◌,
}
use openvair_rde_linter.Base.Dict
use openvair_rde_linter.Base.Dict.{Dict}
use openvair_rde_linter.Value.{
  Value, Fields, Items, null, text, list, dict, of_list, of_dict, as_list, as_dict, to_dict, texts,
}
use openvair_rde_linter.Value.Render.{str}
use openvair_rde_linter.Http.RoutePath.{join_fastapi_route_path, with_slash}

unfoldable pub layer_uses_rrd_shorthand : Dict Value → Bool
unfolding Dict.has_key
layer_uses_rrd_shorthand d =
    Dict.has_key d "classes" || (Dict.has_key d "module_functions" || Dict.has_key d "http")

-- `str(v) if v is not None else None`
str_or_none : Value → Option String
unfolding str
str_or_none null = none
str_or_none v = some (str v)

-- The full path of an endpoint. A path that begins with the prefix is taken for a full one.
unfoldable pub full_endpoint_path : Option String → String → String
unfolding is_empty starts_with join_fastapi_route_path with_slash
full_endpoint_path none route_path = with_slash route_path
full_endpoint_path (some prefix) route_path =
    if not (is_empty prefix) && (not (is_empty route_path) && not (starts_with route_path prefix))
    then join_fastapi_route_path (some prefix) route_path
    else with_slash route_path

-- the entry `parameters` of a row, there for a list that is not empty
parameters_field : Value → Dict Value
parameters_field (list (Items.item p ps)) = ("parameters", list (Items.item p ps)) ∷ []
parameters_field _ = []

unfoldable pub normalize_endpoint : Option String → Dict Value → Value
unfolding full_endpoint_path parameters_field Dict.get_or str upper
normalize_endpoint prefix ep = dict (
    of_dict (
      ("method", text (upper (str (Dict.get_or ep "method" (text "")))))
      ∷ ("path", text (full_endpoint_path prefix (str (Dict.get_or ep "path" (text "")))))
      ∷ ("handler", text (str (Dict.get_or ep "handler" (text ""))))
      ∷ parameters_field (Dict.get_or ep "parameters" null)))

normalize_each : Option String → List Value → List Value
unfolding normalize_endpoint
normalize_each prefix [] = []
normalize_each prefix (v ∷ vs) =
    let rest = normalize_each prefix vs in
    elim (as_dict v) [ none ↦ rest | some ep ↦ normalize_endpoint prefix ep ∷ rest ]

unfoldable pub normalize_http_endpoints : Dict Value → List Value
unfolding normalize_each str_or_none Dict.get_or
normalize_http_endpoints http_block =
    elim (as_list (Dict.get_or http_block "endpoints" (list Items.no_item))) [
      | none ↦ []
      | some eps ↦ normalize_each (str_or_none (Dict.get_or http_block "router_prefix" null)) eps
    ]

-- `[str(x) for x in v] if isinstance(v, list) else []`
str_list : Value → List String
unfolding str
str_list v = elim (as_list v) [ none ↦ [] | some xs ↦ map str xs ]

methods_of_spec : Value → List String
unfolding str_list Dict.get_or
methods_of_spec spec = elim (as_dict spec) [
  | none ↦ []
  | some d ↦ str_list (Dict.get_or d "methods" (list Items.no_item))
]

unfoldable pub required_class : String × Value → Value
unfolding methods_of_spec
required_class (name, spec) =
    dict (of_dict (("name", text name) ∷ ("methods", texts (methods_of_spec spec)) ∷ []))

unfoldable pub required_file : String × Value → Value
unfolding str_list
required_file (rel_path, fns) =
    dict (of_dict (("relative_path", text rel_path) ∷ ("functions", texts (str_list fns)) ∷ []))

-- A key under its canonical name: from the shorthand mapping if that has entries, else as it stands.
unfoldable pub rewritten :
    (String × Value → Value) → Option Value → String → Option Value → Dict Value
unfolding Dict.sorted_items
rewritten convert (some (dict (Fields.field k v fs))) canonical present =
    (canonical, list (of_list (map convert (Dict.sorted_items ((k, v) ∷ to_dict fs))))) ∷ []
rewritten convert _ canonical none = []
rewritten convert _ canonical (some v) = (canonical, v) ∷ []

-- A `http` mapping with no endpoint drops the canonical key too.
unfoldable pub rewritten_http : Option Value → Option Value → Dict Value
unfolding normalize_http_endpoints
rewritten_http (some (dict fs)) present = elim (normalize_http_endpoints (to_dict fs)) [
  | [] ↦ []
  | ep ∷ eps ↦ ("required_http_endpoints", list (of_list (ep ∷ eps))) ∷ []
]
rewritten_http _ none = []
rewritten_http _ (some v) = ("required_http_endpoints", v) ∷ []

abbrev pub layer_keys : List String
layer_keys =
    "classes" ∷ "module_functions" ∷ "http" ∷ "required_classes" ∷ "required_module_functions"
    ∷ "required_http_endpoints" ∷ []

-- the entries under other keys
unfoldable pub other_entries : Dict Value → Dict Value
other_entries [] = []
other_entries ((k, v) ∷ d) =
    let rest = other_entries d in if contains layer_keys k then rest else (k, v) ∷ rest

unfoldable pub normalize_layer : Dict Value → Dict Value
unfolding layer_uses_rrd_shorthand rewritten rewritten_http other_entries required_class
    required_file Dict.get
normalize_layer d =
    if layer_uses_rrd_shorthand d
    then rewritten required_class (Dict.get d "classes") "required_classes"
        (Dict.get d "required_classes")
      ++ (rewritten required_file (Dict.get d "module_functions") "required_module_functions"
            (Dict.get d "required_module_functions")
          ++ (rewritten_http (Dict.get d "http") (Dict.get d "required_http_endpoints")
              ++ other_entries d))
    else d
