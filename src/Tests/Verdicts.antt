-- ===== src/Tests/Verdicts.antt =====
-- `Comparator.compare` on a mini contract: one class, one file and one route.
use openvair_rde_linter.Compare.Rows.{Rows-discrete}
use openvair_rde_linter.Base.{
  String, true, ◌≡◌, refl, ◌↔◌, some, List, [], ◌∷◌, String-discrete, string_eq, Triple-discrete,
}
use openvair_rde_linter.Base.Dict.{Dict}
use openvair_rde_linter.Result.{ok}
use openvair_rde_linter.Value.{Value, text, list, dict, of_dict, Items}
use openvair_rde_linter.Index.{Entry, Artifacts, Layer}
use openvair_rde_linter.Compare.{CompareResult, compare}
use openvair_rde_linter.Compare.Layers.{compare_layers}
use openvair_rde_linter.Compare.Extras.{collect_extras_warnings}
use openvair_rde_linter.Compare.Messages.{missing_method, unlisted_method}
use openvair_rde_linter.Compare.Fulfilled.{LayerSpec, IsFulfilled, contract_value}
use openvair_rde_linter.Compare.Verdict.{compare_verdict}

abbrev route : Dict Value
route =
    ("method", text "get")
    ∷ ("path", text "/widgets/")
    ∷ ("handler", text "list_widgets")
    ∷ ("parameters", list Items.no_item)
    ∷ []

abbrev layer_spec : LayerSpec
layer_spec = record {
  classes = record { name = "User"; methods = "validate" ∷ "rename" ∷ [] } ∷ [];
  files = record { relative_path = "./domain/api.py"; functions = "run" ∷ [] } ∷ [];
  endpoints = some (route ∷ []);
}

abbrev contract : List (String × LayerSpec)
contract = ("domain", layer_spec) ∷ []

abbrev code_layer : Layer
code_layer =
    ("User", Entry.methods ("delete" ∷ "validate" ∷ []))
    ∷ ("$module_functions$", Entry.functions (("domain/api.py", "run" ∷ []) ∷ []))
    ∷ ("$http_endpoints$", Entry.endpoints (dict (of_dict route) ∷ []))
    ∷ []

abbrev code : Artifacts
code = ("domain", code_layer) ∷ []

abbrev report : CompareResult
report = record {
  errors = missing_method "domain" (text "User") (text "rename") ∷ [];
  warnings = unlisted_method "domain" "User" "delete" ∷ [];
}

mini_run : compare (contract_value contract) code true [] ≡ ok report
unfolding compare compare_layers collect_extras_warnings String-discrete Triple-discrete
    Rows-discrete
mini_run = refl

compare_verdict_example :
    (r : CompareResult) × (compare (contract_value contract) code true [] ≡ ok r)
    × ((r.errors ≡ []) ↔ IsFulfilled code contract)
compare_verdict_example = compare_verdict contract code true
