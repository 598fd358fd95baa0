-- ===== src/Compare/Required.antt =====
-- core/comparator.py: what the contract requires and the code lacks.
use openvair_rde_linter.Base.{
  String, Bool, false, ◌||◌, Option, none, some, List, [], ◌∷◌, ◌++◌, map, Triple, ◌⊎◌, inl, inr,
  contains, ◌==◌, string_eq, triple_eq, if◌then◌else◌,
}
use openvair_rde_linter.Base.Dict
use openvair_rde_linter.Base.Dict.{Dict, Map}
use openvair_rde_linter.Result.{Result, ok, err, key_error, type_error, ◌>>=◌}
use openvair_rde_linter.Value.{
  Value, null, text, list, dict, Items, as_dict, as_list, as_text, get_or, iterate, type_name,
}
use openvair_rde_linter.Value.Render.{str}
use openvair_rde_linter.Paths.{normalize_rel_path}
use openvair_rde_linter.Index.{
  Entry, Layer, is_sentinel, entry_list, functions_of, endpoints_of, module_functions_bucket,
  http_endpoints_bucket,
}
use openvair_rde_linter.Compare.Messages.{
  Problem, disallowed_class_name, class_not_found, not_a_method_list, missing_method,
  file_not_scanned, missing_function, endpoints_not_a_list, endpoint_not_a_mapping,
  incomplete_endpoint, no_matching_route, parameter_mismatch,
}
use openvair_rde_linter.Compare.Rows.{
  rows_eq, freeze_http_parameter_rows, http_endpoint_triple, index_code_endpoints,
}

-- `for x in xs: f(x)`, with what each round appends
unfoldable pub collect {ℓ κ} :
    {A : Type ℓ} {B : Type κ} → (A → Result (List B)) → List A → Result (List B)
collect f [] = ok []
collect f (x ∷ xs) = do here ← f x; rest ← collect f xs; ok (here ++ rest)

-- `v[key]` for a text `key`
unfoldable pub subscript : Value → String → Result Value
unfolding Dict.get
subscript v key = elim (as_dict v) [
  | none ↦ err type_error
  | some d ↦ elim (Dict.get d key) [ none ↦ err (key_error key) | some w ↦ ok w ]
]

-- what `in` does first on a set or a dict: a list or a dict cannot be hashed
unfoldable pub hashed : Value → Result Value
hashed (list _) = err type_error
hashed (dict _) = err type_error
hashed v = ok v

-- `v in names`, for a list of texts
unfoldable pub is_among : List String → Value → Bool
is_among names v = elim (as_text v) [ none ↦ false | some s ↦ contains names s ]

unfoldable pub missing_methods : String → Value → List String → List Value → List Problem
unfolding is_among
missing_methods layer_name expected_name known [] = []
missing_methods layer_name expected_name known (m ∷ expected) =
    let rest = missing_methods layer_name expected_name known expected in
    if is_among known m then rest else missing_method layer_name expected_name m ∷ rest

unfoldable pub known_of : String → String → Option Entry → Problem ⊎ List String
unfolding entry_list str
known_of layer_name expected_name none = inl (class_not_found layer_name (text expected_name))
known_of layer_name expected_name (some entry) = elim (entry_list entry) [
  | none ↦ inl (not_a_method_list expected_name)
  | some ms ↦ inr (map str ms)
]

-- The methods recorded for a class, or the error that `_known_methods_for_class` appends.
unfoldable pub known_methods_for_class : String → Layer → String → Problem ⊎ List String
unfolding Dict.get known_of
known_methods_for_class layer_name bucket expected_name =
    known_of layer_name expected_name (Dict.get bucket expected_name)

unfoldable pub methods_against :
    String → String → Value → Problem ⊎ List String → Result (List Problem)
unfolding missing_methods iterate
methods_against layer_name expected_name expected_methods (inl problem) = ok (problem ∷ [])
methods_against layer_name expected_name expected_methods (inr known) = do
  expected ← iterate expected_methods
  ok (missing_methods layer_name (text expected_name) known expected)

unfoldable pub class_errors : String → Layer → String → Value → Result (List Problem)
unfolding methods_against known_methods_for_class
class_errors layer_name bucket expected_name expected_methods =
    methods_against layer_name expected_name expected_methods
      (known_methods_for_class layer_name bucket expected_name)

-- A name that is no text is no key of the layer dict.
unfoldable pub named_class_errors : String → Layer → Value → Value → Result (List Problem)
unfolding class_errors
named_class_errors layer_name bucket (text name) expected_methods =
    if is_sentinel name
    then ok (disallowed_class_name layer_name name ∷ [])
    else class_errors layer_name bucket name expected_methods
named_class_errors layer_name bucket name expected_methods =
    ok (class_not_found layer_name name ∷ [])

unfoldable pub compare_one_required_class : String → Layer → Value → Result (List Problem)
unfolding subscript hashed named_class_errors
compare_one_required_class layer_name bucket req_class = do
  expected_name ← subscript req_class "name"
  expected_methods ← subscript req_class "methods"
  name ← hashed expected_name
  named_class_errors layer_name bucket name expected_methods

unfoldable pub compare_required_classes : String → Value → Layer → Result (List Problem)
unfolding compare_one_required_class collect get_or iterate
compare_required_classes layer_name layer_data bucket = do
  listed ← get_or layer_data "required_classes" (list Items.no_item)
  classes ← iterate listed
  collect (compare_one_required_class layer_name bucket) classes

unfoldable pub missing_functions : String → String → List String → List Value → List Problem
unfolding is_among
missing_functions layer_name rel_key actual [] = []
missing_functions layer_name rel_key actual (f ∷ expected) =
    let rest = missing_functions layer_name rel_key actual expected in
    if is_among actual f then rest else missing_function layer_name rel_key f ∷ rest

unfoldable pub functions_against :
    String → String → Value → Option (List String) → Result (List Problem)
unfolding missing_functions iterate
functions_against layer_name rel_key expected_fns none =
    ok (file_not_scanned layer_name rel_key ∷ [])
functions_against layer_name rel_key expected_fns (some actual) = do
  expected ← iterate expected_fns
  ok (missing_functions layer_name rel_key actual expected)

-- What one file lacks; a file that was not scanned is an error, and its functions are not read.
unfoldable pub file_errors : String → Dict (List String) → String → Value → Result (List Problem)
unfolding Dict.get functions_against
file_errors layer_name mf_actual rel_key expected_fns =
    functions_against layer_name rel_key expected_fns (Dict.get mf_actual rel_key)

-- one round of the loop of `_compare_required_module_functions`
unfoldable pub compare_one_module_file : String → Dict (List String) → Value → Result (List Problem)
unfolding get_or str normalize_rel_path file_errors
compare_one_module_file layer_name mf_actual mf = do
  rel_path_yaml ← get_or mf "relative_path" (text "")
  expected_fns ← get_or mf "functions" (list Items.no_item)
  file_errors layer_name mf_actual (normalize_rel_path (str rel_path_yaml)) expected_fns

-- `_mf_actual_map`
unfoldable pub mf_actual_map : Layer → Dict (List String)
unfolding functions_of Dict.get
mf_actual_map bucket = functions_of (Dict.get bucket module_functions_bucket)

unfoldable pub compare_required_module_functions : String → Value → Layer → Result (List Problem)
unfolding compare_one_module_file mf_actual_map collect get_or iterate
compare_required_module_functions layer_name layer_data bucket = do
  listed ← get_or layer_data "required_module_functions" (list Items.no_item)
  files ← iterate listed
  collect (compare_one_module_file layer_name (mf_actual_map bucket)) files

abbrev pub is_incomplete : Triple → Bool
is_incomplete (method, path, handler) = method == "" || path == "" || handler == ""

unfoldable pub parameters_against :
    String → Triple → Dict Value → Option (Dict Value) → List Problem
unfolding Dict.get_or freeze_http_parameter_rows
parameters_against layer_name trip spec_ep none = no_matching_route layer_name trip ∷ []
parameters_against layer_name trip spec_ep (some code_ep) =
    let spec_sig = freeze_http_parameter_rows (Dict.get_or spec_ep "parameters" null) in
    let code_sig = freeze_http_parameter_rows (Dict.get_or code_ep "parameters" null) in
    if spec_sig == code_sig then [] else parameter_mismatch layer_name trip spec_sig code_sig ∷ []

-- the check of a complete entry against the route of its key
unfoldable pub route_errors : String → Map Triple (Dict Value) → Dict Value → Triple → List Problem
unfolding Dict.get parameters_against
route_errors layer_name code_by_triple spec_ep trip =
    parameters_against layer_name trip spec_ep (Dict.get code_by_triple trip)

unfoldable pub compare_one_spec_http_endpoint :
    String → Map Triple (Dict Value) → Value → List Problem
unfolding http_endpoint_triple route_errors type_name
compare_one_spec_http_endpoint layer_name code_by_triple spec_ep = elim (as_dict spec_ep) [
  | none ↦ endpoint_not_a_mapping layer_name (type_name spec_ep) ∷ []
  | some ep ↦
      let trip = http_endpoint_triple ep in
      if is_incomplete trip
      then incomplete_endpoint layer_name spec_ep ∷ []
      else route_errors layer_name code_by_triple ep trip
]

-- the loop of `_compare_required_http_endpoints`
unfoldable pub spec_endpoint_errors : String → Map Triple (Dict Value) → List Value → List Problem
unfolding compare_one_spec_http_endpoint
spec_endpoint_errors layer_name code_by_triple [] = []
spec_endpoint_errors layer_name code_by_triple (ep ∷ eps) =
    compare_one_spec_http_endpoint layer_name code_by_triple ep
    ++ spec_endpoint_errors layer_name code_by_triple eps

-- the routes of a layer dict, none if it has none
unfoldable pub code_endpoints : Layer → List Value
unfolding endpoints_of Dict.get
code_endpoints bucket = endpoints_of (Dict.get bucket http_endpoints_bucket)

unfoldable pub compare_required_http_endpoints : String → Layer → Value → List Problem
unfolding spec_endpoint_errors index_code_endpoints code_endpoints type_name
compare_required_http_endpoints layer_name bucket yaml_eps = elim (as_list yaml_eps) [
  | none ↦ endpoints_not_a_list layer_name (type_name yaml_eps) ∷ []
  | some eps ↦ spec_endpoint_errors layer_name (index_code_endpoints (code_endpoints bucket)) eps
]
