-- ===== src/Index/Methods.antt =====
-- core/ast_specs.py: what one file adds to the methods in the index of its layer. The index is read
-- as the comparator reads it.
use openvair_rde_linter.Http.Endpoints.{extract_http_endpoints_from_module}
use openvair_rde_linter.Base.{
  String, Bool, true, false, ◌&&◌, ◌||◌, ◌≡◌, refl, ◌∙◌, inl, inr, subst, Option, none, some, List,
  [], ◌∷◌, ◌++◌, map, arith, Bool-cases, contains, ◌==◌, string_eq, contains-sorted_set,
  contains-append, eq_of_==, if◌then◌else◌,
}
use openvair_rde_linter.Base.Dict
use openvair_rde_linter.Base.Dict.{Dict}
use openvair_rde_linter.Result.{ok, bind_returns, ok-injective}
use openvair_rde_linter.Value.{Value}
use openvair_rde_linter.Value.Render.{str}
use openvair_rde_linter.Value.Copies.{map-str-text}
use openvair_rde_linter.Ast.{
  Expr, Stmt, Stmts, function, class_def, assign, block, simple, statements, walk,
}
use openvair_rde_linter.Index.{
  Entry, Layer, methods, endpoints, functions, is_sentinel, module_functions_bucket,
  http_endpoints_bucket, entry_list, public_functions, iter_public_methods, merged_methods,
  merge_class_methods_layer_inplace, merge_public_classes, ensure_module_functions_bucket,
  ingest_functions, extend_entrypoints_http, ingest, iter_public_module_functions,
}
use openvair_rde_linter.Index.Declares.{declares_here, declares, any}
use openvair_rde_linter.Index.Walked.{any-walk}
use openvair_rde_linter.Compare.Extras.{code_methods_for_class}

-- the methods that an entry stands for
abbrev pub methods_of : Option Entry → List String
methods_of none = []
methods_of (some (methods ms)) = ms
methods_of (some (endpoints eps)) = map str eps
methods_of (some (functions _)) = []

pub code_methods-eq :
    (layer : Layer) (c : String) → code_methods_for_class layer c ≡ methods_of (Dict.get layer c)
unfolding code_methods_for_class entry_list
code_methods-eq layer c = by_entry (Dict.get layer c) refl
  where
    by_entry :
        (o : Option Entry)
        → Dict.get layer c ≡ o
        → code_methods_for_class layer c ≡ methods_of (Dict.get layer c)
    by_entry none e = rw (code_methods_for_class, e) refl
    by_entry (some (methods ms)) e = rw (code_methods_for_class, e) (map-str-text ms)
    by_entry (some (endpoints eps)) e = rw (code_methods_for_class, e) refl
    by_entry (some (functions d)) e = rw (code_methods_for_class, e) refl

contains-merged :
    (o : Option Entry) (found : List String) (m : String)
    → contains (merged_methods o found) m ≡ (contains (methods_of o) m || contains found m)
unfolding merged_methods entry_list
contains-merged none found m = contains-sorted_set found m
contains-merged (some (functions d)) found m = contains-sorted_set found m
contains-merged (some (methods ms)) found m =
    rw (map-str-text ms) (contains-sorted_set (ms ++ found) m ∙ contains-append ms found m)
contains-merged (some (endpoints eps)) found m =
    contains-sorted_set (map str eps ++ found) m ∙ contains-append (map str eps) found m

-- The entry of a class after a write under a name.
contains-written :
    (layer : Layer) (name c m : String) (found : List String)
    → contains
        (methods_of
          (Dict.get (Dict.set layer name (methods (merged_methods (Dict.get layer name) found))) c))
        m
      ≡ (contains (methods_of (Dict.get layer c)) m || (c == name && contains found m))
contains-written layer name c m found = elim (Bool-cases (c == name)) [
  | inl same ↦
      rw
        (
          Dict.get-set layer name c (methods (merged_methods (Dict.get layer name) found)),
          same,
          eq_of_== c name same,
        )
        (contains-merged (Dict.get layer name) found m)
  | inr other ↦
      rw (Dict.get-set layer name c (methods (merged_methods (Dict.get layer name) found)), other)
        (ground arith)
]

-- One more class with its methods.
contains-merge_class :
    (layer out : Layer) (name c m : String) (found : List String)
    → merge_class_methods_layer_inplace layer name found ≡ ok out
    → contains (methods_of (Dict.get out c)) m
      ≡ (contains (methods_of (Dict.get layer c)) m || (c == name && contains found m))
unfolding merge_class_methods_layer_inplace
contains-merge_class layer out name c m found h = elim (Bool-cases (is_sentinel name)) [
  | inl reserved ↦ cc (rw reserved at h)
  | inr free ↦
      subst
        (λ o.
          contains (methods_of (Dict.get o c)) m
          ≡ (contains (methods_of (Dict.get layer c)) m || (c == name && contains found m)))
        (ok-injective (rw free at h)) (contains-written layer name c m found)
]

contains-iter_public_methods :
    (body : List Stmt) (m : String)
    → contains (iter_public_methods body) m ≡ contains (public_functions body) m
unfolding iter_public_methods
contains-iter_public_methods body m = contains-sorted_set (public_functions body) m

contains-merge_public_classes :
    (nodes : List Stmt) (layer out : Layer) (c m : String)
    → merge_public_classes nodes layer ≡ ok out
    → contains (methods_of (Dict.get out c)) m
      ≡ (contains (methods_of (Dict.get layer c)) m || any (declares_here c m) nodes)
unfolding merge_public_classes any declares_here
contains-merge_public_classes [] layer out c m h =
    subst
      (λ o.
        contains (methods_of (Dict.get o c)) m
        ≡ (contains (methods_of (Dict.get layer c)) m || false))
      (ok-injective h) (ground arith)
contains-merge_public_classes (class_def name body ∷ nodes) layer out c m h =
    let (next, first, rest) =
      bind_returns
        (merge_class_methods_layer_inplace layer name (iter_public_methods (statements body))) h in
    ground (
      arith,
      contains-merge_class layer next name c m (iter_public_methods (statements body)) first,
      contains-merge_public_classes nodes next out c m rest,
      contains-iter_public_methods (statements body) m,
    )
contains-merge_public_classes (function f body ∷ nodes) layer out c m h =
    contains-merge_public_classes nodes layer out c m h
contains-merge_public_classes (assign targets value ∷ nodes) layer out c m h =
    contains-merge_public_classes nodes layer out c m h
contains-merge_public_classes (block body ∷ nodes) layer out c m h =
    contains-merge_public_classes nodes layer out c m h
contains-merge_public_classes (simple ∷ nodes) layer out c m h =
    contains-merge_public_classes nodes layer out c m h

or_left : (a b : Bool) → (a || b) ≡ false → a ≡ false
or_left true b h = cc
or_left false b h = refl

or_right : (a b : Bool) → (a || b) ≡ false → b ≡ false
or_right true b h = cc
or_right false b h = h

-- The functions of a file go under a reserved key.
get-ingest_functions :
    (layer : Layer) (norm : String) (tree : Stmts) (c : String)
    → (c == module_functions_bucket) ≡ false
    → Dict.get (ingest_functions layer norm tree) c ≡ Dict.get layer c
unfolding ingest_functions ensure_module_functions_bucket
get-ingest_functions layer norm tree c other =
    by_found (iter_public_module_functions (statements tree)) refl
  where
    by_found :
        (found : List String)
        → iter_public_module_functions (statements tree) ≡ found
        → Dict.get (ingest_functions layer norm tree) c ≡ Dict.get layer c
    by_found [] e = rw (ingest_functions, e, Dict.get-set, other) refl
    by_found (f ∷ fs) e = rw (ingest_functions, e, Dict.get-set, other, Dict.get-set, other) refl

module _ (unparse : Expr → String) where
  -- So do the routes.
  get-extend_entrypoints_http :
      (layer : Layer) (tree : Stmts) (norm c : String)
      → (c == http_endpoints_bucket) ≡ false
      → Dict.get (extend_entrypoints_http unparse layer tree norm) c ≡ Dict.get layer c
  unfolding extend_entrypoints_http
  get-extend_entrypoints_http layer tree norm c other =
      by_routes (extract_http_endpoints_from_module unparse (statements tree) norm) refl
    where
      by_routes :
          (eps : List Value)
          → extract_http_endpoints_from_module unparse (statements tree) norm ≡ eps
          → Dict.get (extend_entrypoints_http unparse layer tree norm) c ≡ Dict.get layer c
      by_routes [] e = rw (extend_entrypoints_http, e) refl
      by_routes (ep ∷ eps) e = rw (extend_entrypoints_http, e, Dict.get-set, other) refl

  -- A file adds to a class of its layer exactly the methods that it declares.
  pub contains-ingest :
      (layer_name : String) (layer out : Layer) (norm : String) (tree : Stmts) (c m : String)
      → is_sentinel c ≡ false
      → ingest unparse layer_name layer norm tree ≡ ok out
      → contains (code_methods_for_class out c) m
        ≡ (contains (code_methods_for_class layer c) m || declares tree c m)
  unfolding ingest declares
  contains-ingest layer_name layer out norm tree c m free h =
      let (classes, merged, rest) =
        bind_returns (merge_public_classes (walk tree) (ingest_functions layer norm tree)) h in
      let kept : Dict.get out c ≡ Dict.get classes c =
        by_layer classes (layer_name == "entrypoints") (ok-injective rest) in
      rw
        (
          code_methods-eq out c,
          kept,
          contains-merge_public_classes (walk tree) (ingest_functions layer norm tree) classes c m
              merged,
          get-ingest_functions layer norm tree c
              (or_left (c == module_functions_bucket) (c == http_endpoints_bucket) free),
          code_methods-eq layer c,
          any-walk (declares_here c m) tree,
        )
        refl
    where
      by_layer :
          (classes : Layer) (b : Bool)
          → (if b then extend_entrypoints_http unparse classes tree norm else classes) ≡ out
          → Dict.get out c ≡ Dict.get classes c
      by_layer classes true e =
          subst (λ o. Dict.get o c ≡ Dict.get classes c) e
            (get-extend_entrypoints_http classes tree norm c
              (or_right (c == module_functions_bucket) (c == http_endpoints_bucket) free))
      by_layer classes false e = subst (λ o. Dict.get o c ≡ Dict.get classes c) e refl
