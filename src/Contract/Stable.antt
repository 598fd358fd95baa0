-- ===== src/Contract/Stable.antt =====
-- `normalize_contract_document` on a contract that it has returned.
use openvair_rde_linter.Base.{
  String, true, false, ◌≡◌, refl, sym, inl, inr, subst, String-discrete, Option, none, some, [],
  ◌∷◌, contains, string_eq, All, Bool-cases, is_empty, trim,
}
use openvair_rde_linter.Base.Dict
use openvair_rde_linter.Base.Dict.{Dict}
use openvair_rde_linter.Base.Trim.{trim_idem}
use openvair_rde_linter.Result.{ok, bind_returns, ok-injective, root_not_mapping, no_layers}
use openvair_rde_linter.Value.{Value, dict, text, to_dict, of_dict, as_text, type_name}
use openvair_rde_linter.Value.Copies.{to_dict-of_dict}
use openvair_rde_linter.Paths.{known_layer_names}
use openvair_rde_linter.Contract.{
  Document, to_requirements, normalize_known, normalize_one_layer, normalize_layers, feature_text,
  feature_of, normalize_contract_document, mapping_or,
}
use openvair_rde_linter.Contract.Layers.{normalize_layer}
use openvair_rde_linter.Contract.Normal.{normalize_layer_idem}

-- A layer of a known name, with a section that is normal.
abbrev IsNormalItem : String × Value → Type 0
IsNormalItem (name, v) =
    (contains known_layer_names name ≡ true)
    × ((d : Dict Value) × (v ≡ dict (of_dict d)) × (normalize_layer d ≡ d))

normalize_known-normal :
    (name : String) (v out : Value)
    → normalize_known name v ≡ ok out
    → (d : Dict Value) × (out ≡ dict (of_dict d)) × (normalize_layer d ≡ d)
unfolding normalize_known
normalize_known-normal name (dict fs) out h =
    (normalize_layer (to_dict fs), sym (ok-injective h), normalize_layer_idem (to_dict fs))
normalize_known-normal name _ out h = cc

normalize_one_layer-normal :
    (name : String) (v out : Value) → normalize_one_layer name v ≡ ok out → IsNormalItem (name, out)
unfolding normalize_one_layer
normalize_one_layer-normal name v out h = elim (Bool-cases (contains known_layer_names name)) [
  | inl known ↦ (known, normalize_known-normal name v out (rw known at h))
  | inr unknown ↦ cc (rw unknown at h)
]

normalize_layers-normal :
    (layers out : Dict Value) → normalize_layers layers ≡ ok out → All IsNormalItem out
unfolding normalize_layers
normalize_layers-normal [] out h = subst (All IsNormalItem) (ok-injective h) tt
normalize_layers-normal ((name, v) ∷ layers) out h =
    let (normal, e, h') = bind_returns (normalize_one_layer name v) h in
    let (rest, e', h'') = bind_returns (normalize_layers layers) h' in
    subst (All IsNormalItem) (ok-injective h'')
      (normalize_one_layer-normal name v normal e, normalize_layers-normal layers rest e')

normalize_one_layer-fixed :
    (name : String) (v : Value) → IsNormalItem (name, v) → normalize_one_layer name v ≡ ok v
unfolding normalize_one_layer normalize_known
normalize_one_layer-fixed name v (known, section) =
    let (d, e, normal) = section in rw (known, e) (rw (to_dict-of_dict d, normal) refl)

normalize_layers-fixed :
    (layers : Dict Value) → All IsNormalItem layers → normalize_layers layers ≡ ok layers
unfolding normalize_layers
normalize_layers-fixed [] h = refl
normalize_layers-fixed ((name, v) ∷ layers) h =
    rw (normalize_one_layer-fixed name v h.0, normalize_layers-fixed layers h.1) refl

-- The feature is stripped and not empty.
abbrev IsFeature : String → Type 0
IsFeature s = (trim s ≡ s) × (is_empty s ≡ false)

feature_text-IsFeature : (o : Option String) (s : String) → feature_text o ≡ ok s → IsFeature s
unfolding feature_text
feature_text-IsFeature none s h = cc
feature_text-IsFeature (some t) s h = elim (Bool-cases (is_empty (trim t))) [
  | inl blank ↦ cc (rw blank at h)
  | inr full ↦ subst IsFeature (ok-injective (rw full at h)) (trim_idem t, full)
]

feature_of-IsFeature : (o : Option Value) (s : String) → feature_of o ≡ ok s → IsFeature s
unfolding feature_of
feature_of-IsFeature none s h = cc
feature_of-IsFeature (some v) s h = feature_text-IsFeature (as_text v) s h

feature_of-fixed : (s : String) → IsFeature s → feature_of (some (text s)) ≡ ok s
unfolding feature_of feature_text
feature_of-fixed s (stripped, full) = rw stripped (rw full refl)

-- What a successful run establishes of the document that it returns.
abbrev IsNormalDocument : Document → Type 0
IsNormalDocument doc = All IsNormalItem doc.layers × IsFeature doc.feature

document-IsNormal :
    (v : Value) (doc : Document) → normalize_contract_document v ≡ ok doc → IsNormalDocument doc
unfolding normalize_contract_document
document-IsNormal v doc h =
    let (root, e0, h0) = bind_returns (mapping_or (root_not_mapping (type_name v)) (some v)) h in
    let (layers_in, e1, h1) = bind_returns (mapping_or no_layers (Dict.get root "layers")) h0 in
    let (layers_out, e2, h2) = bind_returns (normalize_layers layers_in) h1 in
    let (feature, e3, h3) = bind_returns (feature_of (Dict.get root "feature")) h2 in
    subst IsNormalDocument (ok-injective h3) (
      normalize_layers-normal layers_in layers_out e2,
      feature_of-IsFeature (Dict.get root "feature") feature e3,
    )

-- A contract that `normalize_contract_document` has returned, given to it again as a mapping, comes
-- back unchanged: its layers, its feature and its meta.
pub normalize_contract_document_stable :
    (v : Value) (doc : Document)
    → normalize_contract_document v ≡ ok doc
    → normalize_contract_document (dict (of_dict (to_requirements doc))) ≡ ok doc
unfolding normalize_contract_document to_requirements String-discrete
normalize_contract_document_stable v doc h =
    let (normal, feature) = document-IsNormal v doc h in
    rw (to_dict-of_dict doc.layers, normalize_layers-fixed doc.layers normal)
      (rw (feature_of-fixed doc.feature feature) (rw (to_dict-of_dict doc.meta) refl))
