-- ===== src/Compare/Fulfilled.antt =====
-- What core/comparator.py promises, apart from its code: a typed contract, the values that it is
-- written as, and when the index of some code fulfils it.
use openvair_rde_linter.Base.{
  String, true, false, ◌≡◌, Option, none, some, List, [], ◌∷◌, map, contains, string_eq, triple_eq,
  All,
}
use openvair_rde_linter.Base.Dict
use openvair_rde_linter.Base.Dict.{Dict}
use openvair_rde_linter.Value.{Value, null, text, list, dict, of_list, of_dict, texts}
use openvair_rde_linter.Value.Render.{str}
use openvair_rde_linter.Paths.{normalize_rel_path}
use openvair_rde_linter.Index.{Entry, methods, endpoints, functions, Layer, Artifacts, is_sentinel}
use openvair_rde_linter.Compare.Rows.{
  freeze_http_parameter_rows, http_endpoint_triple, index_code_endpoints,
}
use openvair_rde_linter.Compare.Required.{mf_actual_map, code_endpoints, is_incomplete}

pub record ClassSpec : Type 0 where
  pub name : String
  pub methods : List String

pub record FileSpec : Type 0 where
  pub relative_path : String
  pub functions : List String

-- A layer of a contract. An endpoint is kept as the mapping that it is written as.
pub record LayerSpec : Type 0 where
  pub classes : List ClassSpec
  pub files : List FileSpec
  pub endpoints : Option (List (Dict Value))

abbrev pub class_value : ClassSpec → Value
class_value c = dict (of_dict (("name", text c.name) ∷ ("methods", texts c.methods) ∷ []))

abbrev pub file_value : FileSpec → Value
file_value f =
    dict (of_dict (("relative_path", text f.relative_path) ∷ ("functions", texts f.functions) ∷ []))

abbrev pub endpoint_value : Dict Value → Value
endpoint_value ep = dict (of_dict ep)

abbrev pub endpoints_value : Option (List (Dict Value)) → Value
endpoints_value none = null
endpoints_value (some eps) = list (of_list (map endpoint_value eps))

-- the section of a layer in its canonical form
abbrev pub layer_value : LayerSpec → Value
layer_value l = dict (
    of_dict (
      ("required_classes", list (of_list (map class_value l.classes)))
      ∷ ("required_module_functions", list (of_list (map file_value l.files)))
      ∷ ("required_http_endpoints", endpoints_value l.endpoints)
      ∷ []))

abbrev pub layer_item : String × LayerSpec → String × Value
layer_item (name, l) = (name, layer_value l)

-- a contract as the dict that `Comparator` takes
abbrev pub contract_value : List (String × LayerSpec) → Dict Value
contract_value layers = ("layers", dict (of_dict (map layer_item layers))) ∷ []

-- the texts of a list entry, none for a dict
abbrev pub recorded : Option Entry → Option (List String)
recorded none = none
recorded (some (methods ms)) = some ms
recorded (some (endpoints eps)) = some (map str eps)
recorded (some (functions _)) = none

abbrev pub HasAll : List String → List String → Type 0
HasAll found wanted = All (λ w. contains found w ≡ true) wanted

-- The class has an entry, under no reserved key, with all the methods that are required.
abbrev pub ClassFulfilled : Layer → ClassSpec → Type 0
ClassFulfilled layer c =
    (is_sentinel c.name ≡ false)
    × ((ms : List String) × (recorded (Dict.get layer c.name) ≡ some ms) × HasAll ms c.methods)

-- The file was scanned, and has all the functions that are required.
abbrev pub FileFulfilled : Layer → FileSpec → Type 0
FileFulfilled layer f =
    (fns : List String) × (Dict.get (mf_actual_map layer) (normalize_rel_path f.relative_path)
      ≡ some fns)
    × HasAll fns f.functions

-- The entry has a complete key, and the route of that key has its parameters, in any order of names.
abbrev pub EndpointFulfilled : Layer → Dict Value → Type 0
EndpointFulfilled layer ep =
    (is_incomplete (http_endpoint_triple ep) ≡ false)
    × ((code_ep : Dict Value) × (Dict.get (index_code_endpoints (code_endpoints layer))
            (http_endpoint_triple ep)
          ≡ some code_ep)
        × (freeze_http_parameter_rows (Dict.get_or ep "parameters" null)
            ≡ freeze_http_parameter_rows (Dict.get_or code_ep "parameters" null)))

abbrev pub EndpointsFulfilled : Layer → Option (List (Dict Value)) → Type 0
EndpointsFulfilled layer none = Unit
EndpointsFulfilled layer (some eps) = All (EndpointFulfilled layer) eps

abbrev pub LayerFulfilled : Layer → LayerSpec → Type 0
LayerFulfilled layer l =
    All (ClassFulfilled layer) l.classes
    × All (FileFulfilled layer) l.files
    × EndpointsFulfilled layer l.endpoints

-- The code has the layer, and the layer has what the contract requires of it.
abbrev pub ItemFulfilled : Artifacts → String × LayerSpec → Type 0
ItemFulfilled artifacts (name, l) =
    (layer : Layer) × (Dict.get artifacts name ≡ some layer) × LayerFulfilled layer l

abbrev pub IsFulfilled : Artifacts → List (String × LayerSpec) → Type 0
IsFulfilled artifacts layers = All (ItemFulfilled artifacts) layers
