-- ===== src/Compare/Layers.antt =====
-- core/comparator.py: the loop of `Comparator.compare` over the layers of the contract.
use openvair_rde_linter.Base.{String, Option, none, some, List, [], ◌∷◌, ◌++◌, string_eq}
use openvair_rde_linter.Base.Dict
use openvair_rde_linter.Base.Dict.{Dict}
use openvair_rde_linter.Result.{Result, ok, err, attribute_error, ◌>>=◌}
use openvair_rde_linter.Value.{Value, as_dict, null, get_or}
use openvair_rde_linter.Index.{Layer, Artifacts}
use openvair_rde_linter.Compare.Messages.{Problem, layer_not_found}
use openvair_rde_linter.Compare.Required.{
  compare_required_classes, compare_required_module_functions, compare_required_http_endpoints,
}

-- `v.items()`
unfoldable pub items_of : Value → Result (Dict Value)
items_of v = elim (as_dict v) [ none ↦ err attribute_error | some d ↦ ok d ]

unfoldable pub endpoint_errors : String → Layer → Value → Result (List Problem)
unfolding compare_required_http_endpoints
endpoint_errors layer_name bucket null = ok []
endpoint_errors layer_name bucket yaml_eps =
    ok (compare_required_http_endpoints layer_name bucket yaml_eps)

-- one layer of the contract that the code has
unfoldable pub compare_layer : String → Layer → Value → Result (List Problem)
unfolding compare_required_classes compare_required_module_functions endpoint_errors get_or
compare_layer layer_name bucket layer_data = do
  class_errors ← compare_required_classes layer_name layer_data bucket
  function_errors ← compare_required_module_functions layer_name layer_data bucket
  yaml_eps ← get_or layer_data "required_http_endpoints" null
  http_errors ← endpoint_errors layer_name bucket yaml_eps
  ok (class_errors ++ (function_errors ++ http_errors))

-- by the layer that the code has under the name, if it has one
unfoldable pub layer_errors : String → Value → Option Layer → Result (List Problem)
unfolding compare_layer
layer_errors layer_name layer_data none = ok (layer_not_found layer_name ∷ [])
layer_errors layer_name layer_data (some bucket) = compare_layer layer_name bucket layer_data

unfoldable pub compare_one : Artifacts → String → Value → Result (List Problem)
unfolding layer_errors Dict.get
compare_one artifacts layer_name layer_data =
    layer_errors layer_name layer_data (Dict.get artifacts layer_name)

unfoldable pub compare_layers : Artifacts → Dict Value → Result (List Problem)
unfolding compare_one
compare_layers artifacts [] = ok []
compare_layers artifacts ((layer_name, layer_data) ∷ layers) = do
  here ← compare_one artifacts layer_name layer_data
  rest ← compare_layers artifacts layers
  ok (here ++ rest)
