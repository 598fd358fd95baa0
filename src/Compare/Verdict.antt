-- ===== src/Compare/Verdict.antt =====
-- The verdict of `Comparator.compare` on a typed contract, against the promise of `Fulfilled`.
use openvair_rde_linter.Value.Copies.{to_dict-of_dict}
use openvair_rde_linter.Compare.Extras.{collect_extras_warnings}
use openvair_rde_linter.Compare.Total.{layers-IsOk, extras-IsOk}
use openvair_rde_linter.Base.{
  String, Bool, true, false, ◌≡◌, refl, sym, ap, ◌∙◌, subst, String-discrete, ◌↔◌, Option, none,
  some, List, [], ◌∷◌, ◌++◌, map, string_eq, if◌then◌else◌,
}
use openvair_rde_linter.Base.Dict
use openvair_rde_linter.Base.Dict.{Dict}
use openvair_rde_linter.Result.{ok, IsOk-value, ok-injective}
use openvair_rde_linter.Index.{Layer, Artifacts}
use openvair_rde_linter.Compare.{CompareResult, compare}
use openvair_rde_linter.Compare.Messages.{Problem, Warning}
use openvair_rde_linter.Compare.Layers.{layer_errors, compare_one, compare_layers}
use openvair_rde_linter.Compare.Errors.{some-injective, layer-eq-nil, both-eq-nil}
use openvair_rde_linter.Compare.Fulfilled.{
  LayerSpec, layer_value, layer_item, contract_value, ItemFulfilled, IsFulfilled, LayerFulfilled,
}

one-eq-nil :
    (artifacts : Artifacts) (l : String) (spec : LayerSpec)
    → (compare_one artifacts l (layer_value spec) ≡ ok []) ↔ ItemFulfilled artifacts (l, spec)
unfolding compare_one
one-eq-nil artifacts l spec = go (Dict.get artifacts l)
  where
    go :
        (o : Option Layer)
        → (layer_errors l (layer_value spec) o ≡ ok [])
          ↔ ((layer : Layer) × (o ≡ some layer) × LayerFulfilled layer spec)
    go none = (λ h. cc, λ h. cc (h.1))
    go (some layer) =
        let iff = layer-eq-nil l layer spec in
        (
          λ h. (layer, refl, iff.0 h),
          λ h. iff.1 (subst (λ x. LayerFulfilled x spec) (sym (some-injective h.1)) h.2),
        )

layers-eq-nil :
    (artifacts : Artifacts) (layers : List (String × LayerSpec))
    → (compare_layers artifacts (map layer_item layers) ≡ ok []) ↔ IsFulfilled artifacts layers
unfolding compare_layers
layers-eq-nil artifacts [] = (λ h. tt, λ h. refl)
layers-eq-nil artifacts ((l, spec) ∷ layers) =
    let both =
      both-eq-nil (compare_one artifacts l (layer_value spec))
        (compare_layers artifacts (map layer_item layers)) in
    let here = one-eq-nil artifacts l spec in
    let rest = layers-eq-nil artifacts layers in
    (λ h. (here.0 (both.0 h).0, rest.0 (both.0 h).1), λ h. both.1 (here.1 h.0, rest.1 h.1))

module _ (layers : List (String × LayerSpec)) (artifacts : Artifacts) where
  -- What a run appends to the errors, once it is known to return.
  found_errors :
      (found : List Problem) × (compare_layers artifacts (map layer_item layers) ≡ ok found)
  found_errors = IsOk-value _ (layers-IsOk artifacts layers)

  found_warnings :
      (extras : Bool)
      → (warnings : List Warning) × ((if extras
            then collect_extras_warnings (contract_value layers) artifacts
            else ok [])
          ≡ ok warnings)
  found_warnings true = IsOk-value _ (extras-IsOk layers artifacts)
  found_warnings false = ([], refl)

  compare-eq-ok :
      (extras : Bool) (before : List Problem)
      → compare (contract_value layers) artifacts extras before
        ≡ ok (record { errors = before ++ found_errors.0; warnings = (found_warnings extras).0 })
  unfolding compare String-discrete
  compare-eq-ok extras before =
      rw (to_dict-of_dict (map layer_item layers), found_errors.1, (found_warnings extras).1) refl

  -- On a contract with layers, classes, files and routes, `compare` raises nothing, and the errors of
  -- its first run are none exactly if the code's index has every layer, class, method, file, function
  -- and route that the contract requires, the routes with the parameters that it gives.
  pub compare_verdict :
      (extras : Bool)
      → (r : CompareResult) × (compare (contract_value layers) artifacts extras [] ≡ ok r)
        × ((r.errors ≡ []) ↔ IsFulfilled artifacts layers)
  compare_verdict extras =
      let iff = layers-eq-nil artifacts layers in
      (
        record { errors = found_errors.0; warnings = (found_warnings extras).0 },
        compare-eq-ok extras [],
        (
          λ none_found. iff.0 (found_errors.1 ∙ ap ok none_found),
          λ fulfilled. ok-injective (sym found_errors.1 ∙ iff.1 fulfilled),
        ),
      )

  -- A second run of `compare` on the same object returns each error of the first run twice.
  pub compare_twice :
      (extras : Bool) (r : CompareResult)
      → compare (contract_value layers) artifacts extras [] ≡ ok r
      → (again : CompareResult) × (compare (contract_value layers) artifacts extras r.errors
          ≡ ok again)
        × (again.errors ≡ r.errors ++ r.errors)
  compare_twice extras r first =
      let same : record { errors = found_errors.0; warnings = (found_warnings extras).0 } ≡ r =
        ok-injective (sym (compare-eq-ok extras []) ∙ first) in
      (_, compare-eq-ok extras r.errors, ap (λ (x : CompareResult). r.errors ++ x.errors) same)
