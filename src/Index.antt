-- ===== src/Index.antt =====
-- core/ast_specs.py: the index of a module's sources by layer. A layer dict holds, under a class
-- name, the methods of the class, and under two reserved keys the functions of each file and the
-- routes. `parse` is `ast.parse`, and `unparse` is `ast.unparse`.
pub mod Declares
pub mod Walked
pub mod Fuel
pub mod Recorded
pub mod Returns
pub mod Methods
use openvair_rde_linter.Base.{
  String, Bool, ◌||◌, Option, none, some, List, [], ◌∷◌, ◌++◌, map, ◌==◌, string_eq, sorted_set,
  if◌then◌else◌,
}
use openvair_rde_linter.Base.Dict
use openvair_rde_linter.Base.Dict.{Dict}
use openvair_rde_linter.Result.{Result, ok, err, syntax_error, sentinel_clash, ◌>>=◌}
use openvair_rde_linter.Value.{Value, text}
use openvair_rde_linter.Value.Render.{str}
use openvair_rde_linter.Paths.{is_contract_public_name, normalize_rel_path, infer_layer}
use openvair_rde_linter.Ast.{Expr, Stmt, Stmts, function, class_def, statements, walk}
use openvair_rde_linter.Http.Endpoints.{extract_http_endpoints_from_module}

abbrev pub module_functions_bucket : String
module_functions_bucket = "$module_functions$"

abbrev pub http_endpoints_bucket : String
http_endpoints_bucket = "$http_endpoints$"

abbrev pub is_sentinel : String → Bool
is_sentinel k = k == module_functions_bucket || k == http_endpoints_bucket

-- The objects that a layer dict holds: two kinds of list, and a dict.
pub data Entry : Type 0 where
  methods : List String → Entry
  endpoints : List Value → Entry
  functions : Dict (List String) → Entry

abbrev pub Layer : Type 0
Layer = Dict Entry

abbrev pub Artifacts : Type 0
Artifacts = Dict Layer

-- `isinstance(entry, list)`, with the list
unfoldable pub entry_list : Entry → Option (List Value)
entry_list (methods ms) = some (map text ms)
entry_list (endpoints eps) = some eps
entry_list (functions _) = none

-- The names of the public functions among statements: of a class body or of a module body.
unfoldable pub public_functions : List Stmt → List String
unfolding is_contract_public_name
public_functions [] = []
public_functions (function f _ ∷ body) =
    let rest = public_functions body in
    if is_contract_public_name f.name then f.name ∷ rest else rest
public_functions (_ ∷ body) = public_functions body

unfoldable pub iter_public_methods : List Stmt → List String
unfolding public_functions
iter_public_methods body = sorted_set (public_functions body)

unfoldable pub iter_public_module_functions : List Stmt → List String
unfolding public_functions
iter_public_module_functions body = sorted_set (public_functions body)

unfoldable pub merge_functions_for_file :
    Dict (List String) → String → List String → Dict (List String)
unfolding Dict.get Dict.set
merge_functions_for_file bucket rel_file found = elim (Dict.get bucket rel_file) [
  | none ↦ Dict.set bucket rel_file (sorted_set found)
  | some old ↦ Dict.set bucket rel_file (sorted_set (old ++ found))
]

-- the methods of a class after a merge with what the layer dict holds under its name
unfoldable pub merged_methods : Option Entry → List String → List String
unfolding entry_list
merged_methods none found = sorted_set found
merged_methods (some entry) found = elim (entry_list entry) [
  | none ↦ sorted_set found
  | some prev ↦ sorted_set (map str prev ++ found)
]

unfoldable pub merge_class_methods_layer_inplace : Layer → String → List String → Result Layer
unfolding Dict.get Dict.set merged_methods
merge_class_methods_layer_inplace layer class_name found =
    if is_sentinel class_name
    then err (sentinel_clash class_name)
    else ok (Dict.set layer class_name (methods (merged_methods (Dict.get layer class_name) found)))

unfoldable pub functions_of : Option Entry → Dict (List String)
functions_of (some (functions d)) = d
functions_of _ = []

-- `_ensure_module_functions_bucket`: the bucket; the layer dict gets one if it has none.
unfoldable pub ensure_module_functions_bucket : Layer → Dict (List String) × Layer
unfolding functions_of Dict.get Dict.set
ensure_module_functions_bucket layer =
    let bucket = functions_of (Dict.get layer module_functions_bucket) in
    (bucket, Dict.set layer module_functions_bucket (functions bucket))

-- over the nodes of `ast.walk`
unfoldable pub merge_public_classes : List Stmt → Layer → Result Layer
unfolding merge_class_methods_layer_inplace iter_public_methods
merge_public_classes [] layer = ok layer
merge_public_classes (class_def name body ∷ nodes) layer =
    merge_class_methods_layer_inplace layer name (iter_public_methods (statements body))
    >>= merge_public_classes nodes
merge_public_classes (_ ∷ nodes) layer = merge_public_classes nodes layer

unfoldable pub endpoints_of : Option Entry → List Value
unfolding entry_list
endpoints_of none = []
endpoints_of (some entry) = elim (entry_list entry) [ none ↦ [] | some eps ↦ eps ]

-- The bucket is the object that the layer dict holds, so a write to it is a write to the layer.
unfoldable pub ingest_functions : Layer → String → Stmts → Layer
unfolding ensure_module_functions_bucket iter_public_module_functions merge_functions_for_file
    Dict.set
ingest_functions layer norm tree =
    let (bucket, ensured) = ensure_module_functions_bucket layer in
    elim (iter_public_module_functions (statements tree)) [
      | [] ↦ ensured
      | f ∷ fs ↦
          Dict.set ensured module_functions_bucket
            (functions (merge_functions_for_file bucket norm (f ∷ fs)))
    ]

module _ (unparse : Expr → String) where
  unfoldable pub extend_entrypoints_http : Layer → Stmts → String → Layer
  unfolding endpoints_of Dict.get Dict.set extract_http_endpoints_from_module
  extend_entrypoints_http layer tree norm =
      elim (extract_http_endpoints_from_module unparse (statements tree) norm) [
        | [] ↦ layer
        | ep ∷ eps ↦
            Dict.set layer http_endpoints_bucket
              (endpoints (endpoints_of (Dict.get layer http_endpoints_bucket) ++ (ep ∷ eps)))
      ]

  -- One parsed file merged into the dict of its layer.
  unfoldable pub ingest : String → Layer → String → Stmts → Result Layer
  unfolding ingest_functions merge_public_classes extend_entrypoints_http walk
  ingest layer_name layer norm tree = do
    classes ← merge_public_classes (walk tree) (ingest_functions layer norm tree)
    ok (if layer_name == "entrypoints" then extend_entrypoints_http classes tree norm else classes)

module _ (parse : String → Option Stmts) (unparse : Expr → String) where
  unfoldable pub parse_source : String → Result Stmts
  parse_source source = elim (parse source) [ none ↦ err syntax_error | some tree ↦ ok tree ]

  unfoldable pub process_python_file_into_artifacts : Artifacts → String → String → Result Artifacts
  unfolding ingest parse_source normalize_rel_path infer_layer Dict.get_or Dict.set
  process_python_file_into_artifacts artifacts raw_path source =
      let norm = normalize_rel_path raw_path in
      infer_layer norm >>= elim [
        | none ↦ ok artifacts
        | some layer_name ↦ do
          tree ← parse_source source
          layer ← ingest unparse layer_name (Dict.get_or artifacts layer_name []) norm tree
          ok (Dict.set artifacts layer_name layer)
      ]

  unfoldable pub process_all : Dict String → Artifacts → Result Artifacts
  unfolding process_python_file_into_artifacts
  process_all [] artifacts = ok artifacts
  process_all ((raw_path, source) ∷ files) artifacts =
      process_python_file_into_artifacts artifacts raw_path source >>= process_all files

  unfoldable pub build_code_artifacts : Dict String → Result Artifacts
  unfolding process_all Dict.sorted_items
  build_code_artifacts code_files = process_all (Dict.sorted_items code_files) []
