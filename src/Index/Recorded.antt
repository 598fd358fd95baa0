-- ===== src/Index/Recorded.antt =====
-- core/ast_specs.py: the methods in the index that all the files make together, against what the
-- files declare.
use openvair_rde_linter.Base.{
  String, Bool, true, false, ◌&&◌, ◌||◌, ◌≡◌, refl, ◌∙◌, inl, inr, Option, none, some, [], ◌∷◌,
  arith, Bool-cases, subst, contains, ◌==◌, string_eq, eq_of_==, if◌then◌else◌, str_ltb,
}
use openvair_rde_linter.Base.Dict
use openvair_rde_linter.Base.Dict.{Dict}
use openvair_rde_linter.Result.{Result, ok, err, bind_returns, ok-injective}
use openvair_rde_linter.Paths.{normalize_rel_path, infer_layer}
use openvair_rde_linter.Ast.{Expr, Stmts}
use openvair_rde_linter.Index.{
  Layer, Artifacts, is_sentinel, ingest, parse_source, process_python_file_into_artifacts,
  process_all, build_code_artifacts,
}
use openvair_rde_linter.Index.Declares.{declares}
use openvair_rde_linter.Index.Methods.{contains-ingest}
use openvair_rde_linter.Compare.Extras.{code_methods_for_class}

-- The comparator finds the method under the class in the index of the layer.
unfoldable pub is_recorded : Artifacts → String → String → String → Bool
unfolding Dict.get_or code_methods_for_class
is_recorded artifacts layer_name c m =
    contains (code_methods_for_class (Dict.get_or artifacts layer_name []) c) m

is_layer : Result (Option String) → String → Bool
is_layer (ok (some l)) layer_name = layer_name == l
is_layer _ layer_name = false

tree_declares : Option Stmts → String → String → Bool
unfolding declares
tree_declares none c m = false
tree_declares (some tree) c m = declares tree c m

or_swap : (a b c : Bool) → (a || (b || c)) ≡ (b || (a || c))
or_swap true true c = refl
or_swap true false c = refl
or_swap false b c = refl

module _ (parse : String → Option Stmts) where
  -- The path is under the layer's folder, and the file declares the method.
  unfoldable pub file_declares : String → String → String → String × String → Bool
  unfolding is_layer tree_declares normalize_rel_path infer_layer
  file_declares layer_name c m (raw_path, source) =
      is_layer (infer_layer (normalize_rel_path raw_path)) layer_name
      && tree_declares (parse source) c m

  unfoldable pub some_file_declares : String → String → String → Dict String → Bool
  unfolding file_declares
  some_file_declares layer_name c m [] = false
  some_file_declares layer_name c m (file ∷ files) =
      file_declares layer_name c m file || some_file_declares layer_name c m files

  module _ (unparse : Expr → String) (layer_name c m : String) (free : is_sentinel c ≡ false) where
    -- A layer dict with more in it, written back under its name.
    recorded-written :
        (artifacts : Artifacts) (l : String) (layer : Layer) (tree : Stmts) (norm : String)
        → ingest unparse l (Dict.get_or artifacts l []) norm tree ≡ ok layer
        → is_recorded (Dict.set artifacts l layer) layer_name c m
          ≡ (is_recorded artifacts layer_name c m || (layer_name == l && declares tree c m))
    unfolding is_recorded
    recorded-written artifacts l layer tree norm h = elim (Bool-cases (layer_name == l)) [
      | inl same ↦
          rw
            (
              is_recorded,
              Dict.get_or-set artifacts l layer_name layer [],
              same,
              contains-ingest unparse l (Dict.get_or artifacts l []) layer norm tree c m free h,
              eq_of_== layer_name l same,
            )
            refl
      | inr other ↦
          rw (is_recorded, Dict.get_or-set artifacts l layer_name layer [], other) (ground arith)
    ]

    recorded-process_file :
        (artifacts out : Artifacts) (raw_path source : String)
        → process_python_file_into_artifacts parse unparse artifacts raw_path source ≡ ok out
        → is_recorded out layer_name c m ≡ (
            is_recorded artifacts layer_name c m || file_declares layer_name c m (raw_path, source))
    unfolding process_python_file_into_artifacts file_declares parse_source
    recorded-process_file artifacts out raw_path source h =
        by_layer (infer_layer (normalize_rel_path raw_path)) refl
      where
        by_layer :
            (r : Result (Option String))
            → infer_layer (normalize_rel_path raw_path) ≡ r
            → is_recorded out layer_name c m ≡ (
                is_recorded artifacts layer_name c m
                || (is_layer r layer_name && tree_declares (parse source) c m))
        by_layer (err raised) e = cc (rw e at h)
        by_layer (ok none) e =
            subst
              (λ o. is_recorded o layer_name c m ≡ (is_recorded artifacts layer_name c m || false))
              (ok-injective (rw e at h)) (ground arith)
        by_layer (ok (some l)) e = by_tree (parse source) refl
          where
            by_tree :
                (t : Option Stmts)
                → parse source ≡ t
                → is_recorded out layer_name c m ≡ (
                    is_recorded artifacts layer_name c m
                    || (layer_name == l && tree_declares t c m))
            by_tree none p = cc (rw (e, parse_source, p) at h)
            by_tree (some tree) p =
                let (layer, merged, rest) =
                  bind_returns
                    (ingest unparse l (Dict.get_or artifacts l []) (normalize_rel_path raw_path)
                      tree)
                    (rw (e, parse_source, p) at h) in
                subst
                  (λ o. is_recorded o layer_name c m ≡ (
                    is_recorded artifacts layer_name c m || (layer_name == l && declares tree c m)))
                  (ok-injective rest)
                  (recorded-written artifacts l layer tree (normalize_rel_path raw_path) merged)

    recorded-process_all :
        (files : Dict String) (artifacts out : Artifacts)
        → process_all parse unparse files artifacts ≡ ok out
        → is_recorded out layer_name c m
          ≡ (is_recorded artifacts layer_name c m || some_file_declares layer_name c m files)
    unfolding process_all some_file_declares
    recorded-process_all [] artifacts out h =
        subst (λ o. is_recorded o layer_name c m ≡ (is_recorded artifacts layer_name c m || false))
          (ok-injective h) (ground arith)
    recorded-process_all ((raw_path, source) ∷ files) artifacts out h =
        let (next, first, rest) =
          bind_returns (process_python_file_into_artifacts parse unparse artifacts raw_path source)
            h in
        ground (
          arith,
          recorded-process_file artifacts next raw_path source first,
          recorded-process_all files next out rest,
        )

  some_file_declares-add :
      (layer_name c m : String) (file : String × String) (files : Dict String)
      → some_file_declares layer_name c m (Dict.add_by_key file files)
        ≡ (file_declares layer_name c m file || some_file_declares layer_name c m files)
  unfolding some_file_declares Dict.add_by_key
  some_file_declares-add layer_name c m file [] = refl
  some_file_declares-add layer_name c m (k, v) ((j, w) ∷ files) =
      let added = some_file_declares-add layer_name c m (k, v) files in
      elim (str_ltb j k)
        as (λ b.
          some_file_declares layer_name c m
            (if b then (j, w) ∷ Dict.add_by_key (k, v) files else (k, v) ∷ (j, w) ∷ files)
          ≡ (file_declares layer_name c m (k, v)
              || (file_declares layer_name c m (j, w)
                  || some_file_declares layer_name c m files))) [
                    | true ↦ rw added (
                        or_swap (file_declares layer_name c m (j, w))
                          (file_declares layer_name c m (k, v))
                          (some_file_declares layer_name c m files))
                    | false ↦ refl
                  ]

  some_file_declares-sorted :
      (layer_name c m : String) (files : Dict String)
      → some_file_declares layer_name c m (Dict.sorted_items files)
        ≡ some_file_declares layer_name c m files
  unfolding some_file_declares Dict.sorted_items
  some_file_declares-sorted layer_name c m [] = refl
  some_file_declares-sorted layer_name c m (file ∷ files) = ground (
    arith,
    some_file_declares-add layer_name c m file (Dict.sorted_items files),
    some_file_declares-sorted layer_name c m files,
  )

-- Over any `parse` and `unparse`, if build_code_artifacts returns an index of the files, then for
-- each layer, each class name other than the two reserved keys and each method name, the
-- comparator finds the method under the class in that layer exactly if some file, whose normalized
-- path is in the layer, parses to a tree with a class of that name (nested ones count) whose body
-- has a public function of that name.
pub build_code_artifacts_lem :
    (parse : String → Option Stmts) (unparse : Expr → String) (files : Dict String)
    (out : Artifacts) (layer_name c m : String)
    → is_sentinel c ≡ false
    → build_code_artifacts parse unparse files ≡ ok out
    → is_recorded out layer_name c m ≡ some_file_declares parse layer_name c m files
unfolding build_code_artifacts some_file_declares is_recorded
build_code_artifacts_lem parse unparse files out layer_name c m free h =
    recorded-process_all parse unparse layer_name c m free (Dict.sorted_items files) [] out h
    ∙ some_file_declares-sorted parse layer_name c m files
