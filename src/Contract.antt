-- ===== src/Contract.antt =====
-- contract/spec_document.py: contracts from Markdown or YAML, and their normal form. `safe_load` is
-- `yaml.safe_load`, with `none` for a text that it refuses.
pub mod Fence
pub mod Layers
pub mod Normal
pub mod Stable
use openvair_rde_linter.Base.{
  String, Bool, true, false, Option, none, some, List, [], ◌∷◌, contains, ◌==◌, string_eq, is_empty,
  trim, lower, if◌then◌else◌,
}
use openvair_rde_linter.Base.Dict
use openvair_rde_linter.Base.Dict.{Dict}
use openvair_rde_linter.Result.{
  Exn, Result, ok, err, no_layers, no_feature, empty_contract, root_not_mapping, unknown_layer,
  layer_not_mapping, bad_extension, syntax_error, ◌>>=◌,
}
use openvair_rde_linter.Value.{
  Value, Fields, null, text, dict, as_dict, as_text, of_dict, type_name,
}
use openvair_rde_linter.Paths.{known_layer_names, suffix}
use openvair_rde_linter.Contract.Fence.{extract_rde_block}
use openvair_rde_linter.Contract.Layers.{normalize_layer}

-- the contract that `normalize_contract_document` returns: its keys `meta`, `feature`, `layers`
pub record Document : Type 0 where
  pub meta : Dict Value
  pub feature : String
  pub layers : Dict Value

-- that contract as the dict which it is
unfoldable pub to_requirements : Document → Dict Value
to_requirements doc =
    ("meta", dict (of_dict doc.meta))
    ∷ ("feature", text doc.feature)
    ∷ ("layers", dict (of_dict doc.layers))
    ∷ []

normalize_known : String → Value → Result Value
unfolding normalize_layer
normalize_known layer_name layer_data = elim (as_dict layer_data) [
  | none ↦ err (layer_not_mapping layer_name)
  | some d ↦ ok (dict (of_dict (normalize_layer d)))
]

unfoldable pub normalize_one_layer : String → Value → Result Value
unfolding normalize_known
normalize_one_layer layer_name layer_data =
    if contains known_layer_names layer_name
    then normalize_known layer_name layer_data
    else err (unknown_layer layer_name)

-- The loop over the layers. The keys of a dict differ, so each write adds an entry.
unfoldable pub normalize_layers : Dict Value → Result (Dict Value)
unfolding normalize_one_layer
normalize_layers [] = ok []
normalize_layers ((layer_name, layer_data) ∷ layers) = do
  normal ← normalize_one_layer layer_name layer_data
  rest ← normalize_layers layers
  ok ((layer_name, normal) ∷ rest)

unfoldable pub mapping_or : Exn → Option Value → Result (Dict Value)
mapping_or e none = err e
mapping_or e (some v) = elim (as_dict v) [ none ↦ err e | some d ↦ ok d ]

unfoldable pub feature_text : Option String → Result String
unfolding trim is_empty
feature_text none = err no_feature
feature_text (some s) = if is_empty (trim s) then err no_feature else ok (trim s)

unfoldable pub feature_of : Option Value → Result String
unfolding feature_text
feature_of none = err no_feature
feature_of (some v) = feature_text (as_text v)

unfoldable pub meta_of : Option Value → Dict Value
meta_of none = []
meta_of (some v) = elim (as_dict v) [ none ↦ [] | some d ↦ d ]

unfoldable pub normalize_contract_document : Value → Result Document
unfolding normalize_layers mapping_or feature_of meta_of Dict.get type_name
normalize_contract_document doc = do
  root ← mapping_or (root_not_mapping (type_name doc)) (some doc)
  layers_in ← mapping_or no_layers (Dict.get root "layers")
  layers_out ← normalize_layers layers_in
  feature ← feature_of (Dict.get root "feature")
  ok (record { meta = meta_of (Dict.get root "meta"); feature = feature; layers = layers_out })

module _ (safe_load : String → Option Value) where
  loaded : String → Result Value
  loaded source = elim (safe_load source) [ none ↦ err syntax_error | some v ↦ ok v ]

  parse_by_suffix : String → String → Result Value
  unfolding loaded extract_rde_block
  parse_by_suffix ending source =
      if contains (".md" ∷ ".markdown" ∷ []) ending
      then extract_rde_block source >>= loaded
      else if contains (".yaml" ∷ ".yml" ∷ []) ending
      then loaded source
      else err (bad_extension ending)

  normalize_loaded : Value → Result Document
  unfolding normalize_contract_document
  normalize_loaded null = err empty_contract
  normalize_loaded doc = normalize_contract_document doc

  -- of a file's path and its text
  unfoldable pub load_spec : String → String → Result Document
  unfolding parse_by_suffix normalize_loaded suffix lower
  load_spec path source = parse_by_suffix (lower (suffix path)) source >>= normalize_loaded
