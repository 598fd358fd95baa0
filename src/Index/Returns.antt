-- ===== src/Index/Returns.antt =====
-- core/ast_specs.py: the exceptions of `build_code_artifacts`.
use openvair_rde_linter.Base.{
  String, Bool, true, false, not, ◌&&◌, ◌≡◌, refl, ◌∙◌, ap, inl, inr, Option, none, some, List, [],
  ◌∷◌, Bool-cases, str_ltb, if◌then◌else◌, ◌==◌, string_eq, sym,
}
use openvair_rde_linter.Base.Dict
use openvair_rde_linter.Base.Dict.{Dict}
use openvair_rde_linter.Result.{Exn, Result, ok, err, ◌>>=◌, returns, syntax_error}
use openvair_rde_linter.Paths.{normalize_rel_path, infer_layer}
use openvair_rde_linter.Paths.Layers.{IsPlaced, normalized-IsPlaced}
use openvair_rde_linter.Ast.{
  Expr, Stmt, Stmts, function, class_def, assign, block, simple, statements, walk,
}
use openvair_rde_linter.Index.{
  Layer, Artifacts, is_sentinel, merge_class_methods_layer_inplace, iter_public_methods,
  merge_public_classes, ingest_functions, ingest, methods, merged_methods, extend_entrypoints_http,
  parse_source, process_python_file_into_artifacts, process_all, build_code_artifacts,
}
use openvair_rde_linter.Index.Declares.{any, somewhere_in}
use openvair_rde_linter.Index.Walked.{any-walk}

-- a class with the name of one of the two buckets
unfoldable pub clashes : Stmt → Bool
clashes (class_def name body) = is_sentinel name
clashes _ = false

returns-merge_public_classes :
    (nodes : List Stmt) (layer : Layer)
    → returns (merge_public_classes nodes layer) ≡ not (any clashes nodes)
unfolding merge_public_classes merge_class_methods_layer_inplace any clashes
returns-merge_public_classes [] layer = refl
returns-merge_public_classes (class_def name body ∷ nodes) layer =
    elim (Bool-cases (is_sentinel name)) [
      | inl reserved ↦ rw reserved refl
      | inr free ↦ rw free (
          returns-merge_public_classes nodes (
            Dict.set layer name (
              methods
                (merged_methods (Dict.get layer name) (iter_public_methods (statements body))))))
    ]
returns-merge_public_classes (function f body ∷ nodes) layer =
    returns-merge_public_classes nodes layer
returns-merge_public_classes (assign targets value ∷ nodes) layer =
    returns-merge_public_classes nodes layer
returns-merge_public_classes (block body ∷ nodes) layer = returns-merge_public_classes nodes layer
returns-merge_public_classes (simple ∷ nodes) layer = returns-merge_public_classes nodes layer

returns_then_ok :
    {A B : Type 0} (r : Result A) (f : A → B) → returns (r >>= λ a. ok (f a)) ≡ returns r
returns_then_ok (ok a) f = refl
returns_then_ok (err e) f = refl

returns_bind :
    {A B : Type 0} (r : Result A) (f : A → Result B) (b : Bool)
    → ((a : A) → returns (f a) ≡ b)
    → returns (r >>= f) ≡ (returns r && b)
returns_bind (ok a) f b h = h a
returns_bind (err e) f b h = refl

and_swap : (a b c : Bool) → (a && (b && c)) ≡ (b && (a && c))
and_swap true b c = refl
and_swap false true c = refl
and_swap false false c = refl

tree_clashes : Option Stmts → Bool
unfolding somewhere_in
tree_clashes none = true
tree_clashes (some tree) = somewhere_in clashes tree

err-ok : {e : Exn} {layer : Option String} → ¬ err e ≡ ok layer
err-ok = cc

tree_is_readable : Result (Option String) → Option Stmts → Bool
unfolding tree_clashes
tree_is_readable (ok (some l)) tree = not (tree_clashes tree)
tree_is_readable _ tree = true

module _ (parse : String → Option Stmts) where
  -- A file whose normalized path is under a layer's folder parses to a tree in which no class, at any
  -- depth, has the name of a bucket. Any other file is readable, as is one whose path normalizes to
  -- the empty text.
  unfoldable pub is_readable : String × String → Bool
  unfolding tree_is_readable normalize_rel_path infer_layer
  is_readable (raw_path, source) =
      tree_is_readable (infer_layer (normalize_rel_path raw_path)) (parse source)

  unfoldable pub all_readable : Dict String → Bool
  unfolding is_readable
  all_readable [] = true
  all_readable (file ∷ files) = is_readable file && all_readable files

  module _ (unparse : Expr → String) where
    returns-ingest :
        (l : String) (layer : Layer) (norm : String) (tree : Stmts)
        → returns (ingest unparse l layer norm tree) ≡ not (somewhere_in clashes tree)
    unfolding ingest
    returns-ingest l layer norm tree =
        returns_then_ok (merge_public_classes (walk tree) (ingest_functions layer norm tree))
          (λ classes.
            if l == "entrypoints"
            then extend_entrypoints_http unparse classes tree norm
            else classes)
        ∙ returns-merge_public_classes (walk tree) (ingest_functions layer norm tree)
        ∙ ap not (any-walk clashes tree)

    returns-process_file :
        (artifacts : Artifacts) (raw_path source : String)
        → returns (process_python_file_into_artifacts parse unparse artifacts raw_path source)
          ≡ is_readable (raw_path, source)
    unfolding process_python_file_into_artifacts is_readable parse_source
    returns-process_file artifacts raw_path source =
        elim (infer_layer (normalize_rel_path raw_path))
            as (λ r.
              IsPlaced r
              → returns (
                  r >>= elim [
                    | none ↦ ok artifacts
                    | some l ↦ do
                      tree ← parse_source parse unparse source
                      layer ←
                          ingest unparse l (Dict.get_or artifacts l [])
                            (normalize_rel_path raw_path) tree
                      ok (Dict.set artifacts l layer)
                  ])
                ≡ tree_is_readable r (parse source)) [
                  | err raised ↦ λ (layer, e). absurd (err-ok e)
                  | ok none ↦ λ _. refl
                  | ok (some l) ↦ λ _. by_tree l (parse source)
                ]
          (normalized-IsPlaced raw_path)
      where
        by_tree :
            (l : String) (t : Option Stmts)
            → returns (
                elim t [ none ↦ err syntax_error | some tree ↦ ok tree ] >>= (λ tree.
                  ingest unparse l (Dict.get_or artifacts l []) (normalize_rel_path raw_path) tree
                  >>= (λ layer. ok (Dict.set artifacts l layer))))
              ≡ not (tree_clashes t)
        by_tree l none = refl
        by_tree l (some tree) =
            returns_then_ok
              (ingest unparse l (Dict.get_or artifacts l []) (normalize_rel_path raw_path) tree)
              (Dict.set artifacts l)
            ∙ returns-ingest l (Dict.get_or artifacts l []) (normalize_rel_path raw_path) tree

    returns-process_all :
        (files : Dict String) (artifacts : Artifacts)
        → returns (process_all parse unparse files artifacts) ≡ all_readable files
    unfolding process_all all_readable
    returns-process_all [] artifacts = refl
    returns-process_all ((raw_path, source) ∷ files) artifacts =
        rw (sym (returns-process_file artifacts raw_path source)) (
          returns_bind (process_python_file_into_artifacts parse unparse artifacts raw_path source)
            (process_all parse unparse files) (all_readable files) (returns-process_all files))

  all_readable-add :
      (file : String × String) (files : Dict String)
      → all_readable (Dict.add_by_key file files) ≡ (is_readable file && all_readable files)
  unfolding all_readable Dict.add_by_key
  all_readable-add file [] = refl
  all_readable-add (k, v) ((j, w) ∷ files) =
      let added = all_readable-add (k, v) files in
      elim (str_ltb j k)
        as (λ b.
          all_readable
            (if b then (j, w) ∷ Dict.add_by_key (k, v) files else (k, v) ∷ (j, w) ∷ files)
          ≡ (is_readable (k, v) && (is_readable (j, w) && all_readable files))) [
            | true ↦
                rw added (and_swap (is_readable (j, w)) (is_readable (k, v)) (all_readable files))
            | false ↦ refl
          ]

  all_readable-sorted :
      (files : Dict String) → all_readable (Dict.sorted_items files) ≡ all_readable files
  unfolding all_readable Dict.sorted_items
  all_readable-sorted [] = refl
  all_readable-sorted (file ∷ files) =
      all_readable-add file (Dict.sorted_items files)
      ∙ ap (λ rest. is_readable file && rest) (all_readable-sorted files)

-- Over any `parse` and `unparse`, build_code_artifacts returns exactly if every file whose normalized
-- path `infer_layer` puts in a layer parses to a tree in which no class, at any depth, has the name of
-- one of the two reserved keys. Otherwise it raises. A file in no layer never makes it raise, whatever
-- its path is.
pub returns-build_code_artifacts :
    (parse : String → Option Stmts) (unparse : Expr → String) (files : Dict String)
    → returns (build_code_artifacts parse unparse files) ≡ all_readable parse files
unfolding build_code_artifacts
returns-build_code_artifacts parse unparse files =
    returns-process_all parse unparse (Dict.sorted_items files) [] ∙ all_readable-sorted parse files
