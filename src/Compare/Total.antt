-- ===== src/Compare/Total.antt =====
-- core/comparator.py on a typed contract: where an exception could come from.
use openvair_rde_linter.Value.Copies.{to_list-of_list, to_dict-of_dict}
use openvair_rde_linter.Base.{
  String, ◌≡◌, refl, ◌⊎◌, inl, inr, String-discrete, Option, none, some, List, [], ◌∷◌, map,
  string_eq, Bool-cases, ◌==◌,
}
use openvair_rde_linter.Base.Dict
use openvair_rde_linter.Base.Dict.{Dict}
use openvair_rde_linter.Result.{Result, ok, IsOk, IsOk-bind}
use openvair_rde_linter.Value.{Value, list, Items, of_list, to_list, texts, iterate}
use openvair_rde_linter.Index.{Entry, methods, endpoints, functions, Layer, Artifacts, is_sentinel}
use openvair_rde_linter.Compare.Required.{
  collect, known_of, methods_against, functions_against, compare_one_required_class,
  compare_required_classes, compare_one_module_file, compare_required_module_functions,
  mf_actual_map,
}
use openvair_rde_linter.Compare.Layers.{
  endpoint_errors, compare_layer, layer_errors, compare_one, compare_layers,
}
use openvair_rde_linter.Compare.Extras.{
  or_nothing, layer_warnings, listed_layer_warnings, unlisted_layer_warnings, all_layer_warnings,
  collect_extras_warnings, spec_class_methods_map, spec_module_functions_map, layer_section,
}
use openvair_rde_linter.Compare.Fulfilled.{
  ClassSpec, FileSpec, LayerSpec, class_value, file_value, endpoints_value, layer_value, layer_item,
  contract_value,
}

collect-IsOk :
    {A : Type 0} {B : Type 0} (f : Value → Result (List B)) (g : A → Value) (xs : List A)
    → ((x : A) → IsOk (f (g x)))
    → IsOk (collect f (map g xs))
unfolding collect
collect-IsOk f g [] h = tt
collect-IsOk f g (x ∷ xs) h =
    IsOk-bind (f (g x)) _ (h x)
      (λ here. IsOk-bind (collect f (map g xs)) _ (collect-IsOk f g xs h) (λ rest. tt))

methods_against-IsOk :
    (l name : String) (wanted : List String) (o : Option Entry)
    → IsOk (methods_against l name (texts wanted) (known_of l name o))
unfolding methods_against known_of
methods_against-IsOk l name wanted none = tt
methods_against-IsOk l name wanted (some (methods ms)) = tt
methods_against-IsOk l name wanted (some (endpoints eps)) = tt
methods_against-IsOk l name wanted (some (functions d)) = tt

class-IsOk :
    (l : String) (layer : Layer) (c : ClassSpec)
    → IsOk (compare_one_required_class l layer (class_value c))
unfolding compare_one_required_class String-discrete
class-IsOk l layer c = elim (Bool-cases (is_sentinel c.name)) [
  | inl reserved ↦ rw reserved tt
  | inr free ↦ rw free (methods_against-IsOk l c.name c.methods (Dict.get layer c.name))
]

functions_against-IsOk :
    (l key : String) (wanted : List String) (o : Option (List String))
    → IsOk (functions_against l key (texts wanted) o)
unfolding functions_against
functions_against-IsOk l key wanted none = tt
functions_against-IsOk l key wanted (some fns) = tt

file-IsOk :
    (l : String) (layer : Layer) (f : FileSpec)
    → IsOk (compare_one_module_file l (mf_actual_map layer) (file_value f))
unfolding compare_one_module_file String-discrete
file-IsOk l layer f = functions_against-IsOk l _ f.functions _

required_endpoints-IsOk :
    (l : String) (layer : Layer) (eps : Option (List (Dict Value)))
    → IsOk (endpoint_errors l layer (endpoints_value eps))
unfolding endpoint_errors
required_endpoints-IsOk l layer none = tt
required_endpoints-IsOk l layer (some eps) = tt

layer-IsOk :
    (l : String) (layer : Layer) (spec : LayerSpec)
    → IsOk (compare_layer l layer (layer_value spec))
unfolding compare_layer compare_required_classes compare_required_module_functions String-discrete
layer-IsOk l layer spec =
    rw (to_list-of_list (map class_value spec.classes), to_list-of_list (map file_value spec.files))
      (IsOk-bind (collect (compare_one_required_class l layer) (map class_value spec.classes)) _
        (collect-IsOk _ class_value spec.classes (class-IsOk l layer))
        (λ a.
          IsOk-bind
            (collect (compare_one_module_file l (mf_actual_map layer)) (map file_value spec.files))
            _ (collect-IsOk _ file_value spec.files (file-IsOk l layer))
            (λ b.
              IsOk-bind (endpoint_errors l layer (endpoints_value spec.endpoints)) _
                (required_endpoints-IsOk l layer spec.endpoints) (λ c. tt))))

layer_errors-IsOk :
    (l : String) (spec : LayerSpec) (o : Option Layer) → IsOk (layer_errors l (layer_value spec) o)
unfolding layer_errors
layer_errors-IsOk l spec none = tt
layer_errors-IsOk l spec (some layer) = layer-IsOk l layer spec

pub layers-IsOk :
    (artifacts : Artifacts) (layers : List (String × LayerSpec))
    → IsOk (compare_layers artifacts (map layer_item layers))
unfolding compare_layers compare_one
layers-IsOk artifacts [] = tt
layers-IsOk artifacts ((l, spec) ∷ layers) =
    IsOk-bind (layer_errors l (layer_value spec) (Dict.get artifacts l)) _
      (layer_errors-IsOk l spec (Dict.get artifacts l))
      (λ here.
        IsOk-bind (compare_layers artifacts (map layer_item layers)) _
          (layers-IsOk artifacts layers) (λ rest. tt))

get-layer_item :
    (layers : List (String × LayerSpec)) (l : String)
    → (Dict.get (map layer_item layers) l ≡ none)
      ⊎ ((spec : LayerSpec) × (Dict.get (map layer_item layers) l ≡ some (layer_value spec)))
unfolding Dict.get
get-layer_item [] l = inl refl
get-layer_item ((k, spec) ∷ layers) l = elim (Bool-cases (l == k)) [
  | inl here ↦ inr (spec, rw here)
  | inr there ↦ rw there (get-layer_item layers l)
]

-- the section of a layer that is not in the contract, or of one that is
abbrev section_of : Option LayerSpec → Dict Value
section_of none = []
section_of (some spec) =
    ("required_classes", list (of_list (map class_value spec.classes)))
    ∷ ("required_module_functions", list (of_list (map file_value spec.files)))
    ∷ ("required_http_endpoints", endpoints_value spec.endpoints)
    ∷ []

layer_section-eq-section_of :
    (layers : List (String × LayerSpec)) (l : String)
    → (o : Option LayerSpec) × (layer_section (map layer_item layers) l ≡ section_of o)
unfolding layer_section
layer_section-eq-section_of layers l = elim (get-layer_item layers l) [
  | inl absent ↦ (none, rw (layer_section, Dict.get_or, absent))
  | inr (spec, found) ↦ (some spec, rw (layer_section, Dict.get_or, found))
]

iterate-or_nothing : (xs : Items) → iterate (or_nothing (list xs)) ≡ ok (to_list xs)
unfolding iterate or_nothing
iterate-or_nothing Items.no_item = refl
iterate-or_nothing (Items.item v xs) = refl

spec_classes-IsOk : (o : Option LayerSpec) → IsOk (spec_class_methods_map (section_of o))
unfolding spec_class_methods_map String-discrete
spec_classes-IsOk none = tt
spec_classes-IsOk (some spec) = rw (iterate-or_nothing (of_list (map class_value spec.classes))) tt

spec_files-IsOk : (o : Option LayerSpec) → IsOk (spec_module_functions_map (section_of o))
unfolding spec_module_functions_map String-discrete
spec_files-IsOk none = tt
spec_files-IsOk (some spec) = rw (iterate-or_nothing (of_list (map file_value spec.files))) tt

listed-IsOk :
    (o : Option LayerSpec) (l : String) (layer : Layer)
    → IsOk (listed_layer_warnings (section_of o) l layer)
unfolding listed_layer_warnings
listed-IsOk o l layer =
    IsOk-bind (spec_class_methods_map (section_of o)) _ (spec_classes-IsOk o)
      (λ a. IsOk-bind (spec_module_functions_map (section_of o)) _ (spec_files-IsOk o) (λ b. tt))

unlisted-IsOk :
    (o : Option LayerSpec) (l : String) (layer : Layer)
    → IsOk (unlisted_layer_warnings (section_of o) l layer)
unfolding unlisted_layer_warnings
unlisted-IsOk o l layer =
    IsOk-bind (spec_class_methods_map (section_of o)) _ (spec_classes-IsOk o) (λ a. tt)

layer_warnings-IsOk :
    (layers : List (String × LayerSpec)) (l : String) (layer : Layer)
    → IsOk (layer_warnings (map layer_item layers) l layer)
unfolding layer_warnings
layer_warnings-IsOk layers l layer =
    let (o, e) = layer_section-eq-section_of layers l in
    rw e (elim (Bool-cases (Dict.has_key (map layer_item layers) l)) [
      | inl listed ↦ rw listed (listed-IsOk o l layer)
      | inr unlisted ↦ rw unlisted (unlisted-IsOk o l layer)
    ])

all_layer_warnings-IsOk :
    (layers : List (String × LayerSpec)) (artifacts : Artifacts)
    → IsOk (all_layer_warnings (map layer_item layers) artifacts)
unfolding all_layer_warnings
all_layer_warnings-IsOk layers [] = tt
all_layer_warnings-IsOk layers ((l, layer) ∷ artifacts) =
    IsOk-bind (layer_warnings (map layer_item layers) l layer) _
      (layer_warnings-IsOk layers l layer)
      (λ here.
        IsOk-bind (all_layer_warnings (map layer_item layers) artifacts) _
          (all_layer_warnings-IsOk layers artifacts) (λ rest. tt))

pub extras-IsOk :
    (layers : List (String × LayerSpec)) (artifacts : Artifacts)
    → IsOk (collect_extras_warnings (contract_value layers) artifacts)
unfolding collect_extras_warnings String-discrete
extras-IsOk layers artifacts =
    rw (to_dict-of_dict (map layer_item layers))
      (all_layer_warnings-IsOk layers (Dict.sorted_items artifacts))
