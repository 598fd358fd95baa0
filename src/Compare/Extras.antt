-- ===== src/Compare/Extras.antt =====
-- core/comparator.py `collect_extras_warnings`: what the code has and the contract does not list.
use openvair_rde_linter.Base.{
  String, not, none, some, List, [], ◌∷◌, ◌++◌, map, Triple, contains, string_eq, triple_eq,
  sorted_set, keep_if, is_empty, if◌then◌else◌,
}
use openvair_rde_linter.Base.Dict
use openvair_rde_linter.Base.Dict.{Dict}
use openvair_rde_linter.Result.{Result, ok, ◌>>=◌}
use openvair_rde_linter.Value.{
  Value, null, text, list, dict, Items, Fields, as_dict, as_list, iterate, truthy,
}
use openvair_rde_linter.Value.Render.{str}
use openvair_rde_linter.Paths.{normalize_rel_path}
use openvair_rde_linter.Index.{Layer, Artifacts, is_sentinel, entry_list}
use openvair_rde_linter.Compare.Messages.{
  Warning, class_of_unlisted_layer, unlisted_class, unlisted_method, unlisted_file,
  unlisted_function, unlisted_route,
}
use openvair_rde_linter.Compare.Rows.{http_endpoint_triple}
use openvair_rde_linter.Compare.Required.{mf_actual_map, code_endpoints, is_incomplete}

-- `{str(x) for x in v}` of a list, and the empty set of anything else
unfoldable pub str_set : Value → List String
unfolding str
str_set v = elim (as_list v) [ none ↦ [] | some xs ↦ map str xs ]

-- `v or []`
unfoldable pub or_nothing : Value → Value
unfolding truthy
or_nothing v = if truthy v then v else list Items.no_item

-- one round of the loop of `_spec_class_methods_map`, on an entry that is a dict
add_spec_class : Dict Value → Dict (List String) → Dict (List String)
unfolding Dict.get_or Dict.set str_set is_empty str
add_spec_class req_class out =
    let name = str (Dict.get_or req_class "name" (text "")) in
    if is_empty name
    then out
    else Dict.set out name (str_set (Dict.get_or req_class "methods" (list Items.no_item)))

add_spec_file : Dict Value → Dict (List String) → Dict (List String)
unfolding Dict.get_or Dict.set str_set str normalize_rel_path
add_spec_file mf out =
    Dict.set out (normalize_rel_path (str (Dict.get_or mf "relative_path" (text ""))))
      (str_set (Dict.get_or mf "functions" (list Items.no_item)))

-- a loop over the entries that are dicts
fold_dicts :
    (Dict Value → Dict (List String) → Dict (List String))
    → List Value
    → Dict (List String)
    → Dict (List String)
fold_dicts add [] out = out
fold_dicts add (v ∷ vs) out =
    fold_dicts add vs (elim (as_dict v) [ none ↦ out | some d ↦ add d out ])

unfoldable pub spec_class_methods_map : Dict Value → Result (Dict (List String))
unfolding add_spec_class fold_dicts or_nothing Dict.get_or iterate
spec_class_methods_map layer_data = do
  listed ← iterate (or_nothing (Dict.get_or layer_data "required_classes" (list Items.no_item)))
  ok (fold_dicts add_spec_class listed [])

unfoldable pub spec_module_functions_map : Dict Value → Result (Dict (List String))
unfolding add_spec_file fold_dicts or_nothing Dict.get_or iterate
spec_module_functions_map layer_data = do
  listed ←
      iterate (or_nothing (Dict.get_or layer_data "required_module_functions" (list Items.no_item)))
  ok (fold_dicts add_spec_file listed [])

triples_of : List Value → List Triple
unfolding http_endpoint_triple
triples_of [] = []
triples_of (v ∷ vs) =
    let rest = triples_of vs in
    elim (as_dict v) [ none ↦ rest | some ep ↦ http_endpoint_triple ep ∷ rest ]

unfoldable pub spec_http_triples : Dict Value → List Triple
unfolding triples_of Dict.get_or
spec_http_triples layer_data =
    elim (as_list (Dict.get_or layer_data "required_http_endpoints" (list Items.no_item))) [
      | none ↦ []
      | some eps ↦ triples_of eps
    ]

unfoldable pub code_class_names : Layer → List String
unfolding keep_if Dict.keys
code_class_names bucket = keep_if (λ k. not (is_sentinel k)) (Dict.keys bucket)

unfoldable pub code_methods_for_class : Layer → String → List String
unfolding Dict.get entry_list str
code_methods_for_class bucket class_name = elim (Dict.get bucket class_name) [
  | none ↦ []
  | some entry ↦ elim (entry_list entry) [ none ↦ [] | some ms ↦ map str ms ]
]

-- `sorted(xs - ys)` and `sorted(xs & ys)` of sets
unfoldable pub sorted_minus : List String → List String → List String
unfolding keep_if sorted_set
sorted_minus xs ys = sorted_set (keep_if (λ x. not (contains ys x)) xs)

unfoldable pub sorted_and : List String → List String → List String
unfolding keep_if sorted_set
sorted_and xs ys = sorted_set (keep_if (λ x. contains ys x) xs)

-- the extra names of each item that both sides have, over the sorted items
unfoldable pub extra_names :
    (String → String → Warning)
    → (String → List String)
    → (String → List String)
    → List String
    → List Warning
unfolding sorted_minus
extra_names warn code spec [] = []
extra_names warn code spec (item ∷ rest) =
    map (warn item) (sorted_minus (code item) (spec item)) ++ extra_names warn code spec rest

unfoldable pub class_warnings : String → Layer → Dict (List String) → List Warning
unfolding code_class_names code_methods_for_class sorted_minus sorted_and extra_names Dict.keys
    Dict.get_or
class_warnings layer_name bucket spec =
    extra_names (unlisted_method layer_name) (code_methods_for_class bucket)
      (λ c. Dict.get_or spec c []) (sorted_and (code_class_names bucket) (Dict.keys spec))

unfoldable pub function_warnings : String → Layer → Dict (List String) → List Warning
unfolding mf_actual_map sorted_minus sorted_and extra_names Dict.keys Dict.get_or
function_warnings layer_name bucket spec_mf =
    let code_mf = mf_actual_map bucket in
    map (unlisted_file layer_name) (sorted_minus (Dict.keys code_mf) (Dict.keys spec_mf))
    ++ extra_names (unlisted_function layer_name) (λ f. Dict.get_or code_mf f [])
        (λ f. Dict.get_or spec_mf f []) (sorted_and (Dict.keys code_mf) (Dict.keys spec_mf))

unfoldable pub route_warnings : String → List Value → List Triple → List Warning
unfolding http_endpoint_triple
route_warnings layer_name [] spec_triples = []
route_warnings layer_name (v ∷ vs) spec_triples =
    let rest = route_warnings layer_name vs spec_triples in
    elim (as_dict v) [
      | none ↦ rest
      | some ep ↦
          let trip = http_endpoint_triple ep in
          if is_incomplete trip
          then rest
          else if contains spec_triples trip
          then rest
          else unlisted_route layer_name trip ∷ rest
    ]

-- the layer's section of the contract, if it is a mapping
unfoldable pub layer_section : Dict Value → String → Dict Value
unfolding Dict.get_or
layer_section layers_req layer_name = elim (as_dict (Dict.get_or layers_req layer_name null)) [
  | none ↦ []
  | some d ↦ d
]

-- the warnings of a layer that the contract lists
unfoldable pub listed_layer_warnings : Dict Value → String → Layer → Result (List Warning)
unfolding spec_class_methods_map spec_module_functions_map spec_http_triples class_warnings
    function_warnings route_warnings code_class_names code_endpoints sorted_minus Dict.keys
listed_layer_warnings section layer_name bucket = do
  spec_classes ← spec_class_methods_map section
  spec_mf ← spec_module_functions_map section
  ok (
      map (unlisted_class layer_name)
        (sorted_minus (code_class_names bucket) (Dict.keys spec_classes))
      ++ (class_warnings layer_name bucket spec_classes
          ++ (function_warnings layer_name bucket spec_mf
              ++ route_warnings layer_name (code_endpoints bucket) (spec_http_triples section))))

-- Those of a layer that it does not list. Its section counts as empty, and is read all the same.
unfoldable pub unlisted_layer_warnings : Dict Value → String → Layer → Result (List Warning)
unfolding spec_class_methods_map class_warnings function_warnings route_warnings code_class_names
    code_endpoints sorted_set
unlisted_layer_warnings section layer_name bucket = do
  spec_classes ← spec_class_methods_map section
  ok (
      map (class_of_unlisted_layer layer_name) (sorted_set (code_class_names bucket))
      ++ (class_warnings layer_name bucket spec_classes
          ++ (function_warnings layer_name bucket []
              ++ route_warnings layer_name (code_endpoints bucket) [])))

-- one round of the outer loop of `collect_extras_warnings`
unfoldable pub layer_warnings : Dict Value → String → Layer → Result (List Warning)
unfolding layer_section listed_layer_warnings unlisted_layer_warnings Dict.has_key
layer_warnings layers_req layer_name bucket =
    let section = layer_section layers_req layer_name in
    if Dict.has_key layers_req layer_name
    then listed_layer_warnings section layer_name bucket
    else unlisted_layer_warnings section layer_name bucket

unfoldable pub all_layer_warnings : Dict Value → Artifacts → Result (List Warning)
unfolding layer_warnings
all_layer_warnings layers_req [] = ok []
all_layer_warnings layers_req ((layer_name, bucket) ∷ artifacts) = do
  here ← layer_warnings layers_req layer_name bucket
  rest ← all_layer_warnings layers_req artifacts
  ok (here ++ rest)

unfoldable pub collect_extras_warnings : Dict Value → Artifacts → Result (List Warning)
unfolding all_layer_warnings Dict.sorted_items Dict.get_or
collect_extras_warnings requirements artifacts =
    elim (as_dict (Dict.get_or requirements "layers" (dict Fields.no_field))) [
      | none ↦ all_layer_warnings [] (Dict.sorted_items artifacts)
      | some layers_req ↦ all_layer_warnings layers_req (Dict.sorted_items artifacts)
    ]
