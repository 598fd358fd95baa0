-- ===== src/Compare/Errors.antt =====
-- The errors of core/comparator.py, function by function, against the promise of `Fulfilled`.
use openvair_rde_linter.Value.Copies.{to_list-of_list, to_dict-of_dict, map-str-text}
use openvair_rde_linter.Base.{
  String, Bool, true, false, ◌≡◌, refl, sym, ap, subst, String-discrete, ◌↔◌, inl, inr, Option,
  none, some, List, [], ◌∷◌, ◌++◌, map, string_eq, triple_eq, All, arith, Triple, ◌==◌,
  if◌then◌else◌, Bool-cases,
}
use openvair_rde_linter.Base.Dict
use openvair_rde_linter.Base.Dict.{Dict}
use openvair_rde_linter.Result.{Result, ok, err, ◌>>=◌, ok-injective}
use openvair_rde_linter.Value.{Value, null, text, texts}
use openvair_rde_linter.Value.Render.{str}
use openvair_rde_linter.Paths.{normalize_rel_path}
use openvair_rde_linter.Index.{Entry, methods, endpoints, functions, Layer, is_sentinel}
use openvair_rde_linter.Compare.Messages.{Problem, Row}
use openvair_rde_linter.Compare.Rows.{
  rows_eq, freeze_http_parameter_rows, http_endpoint_triple, index_code_endpoints,
}
use openvair_rde_linter.Compare.Required.{
  route_errors, collect, known_of, methods_against, functions_against, parameters_against,
  missing_methods, missing_functions, compare_one_required_class, compare_required_classes,
  compare_one_module_file, mf_actual_map, compare_required_module_functions,
  compare_one_spec_http_endpoint, spec_endpoint_errors, compare_required_http_endpoints,
  is_incomplete, code_endpoints, route_errors,
}
use openvair_rde_linter.Compare.Layers.{endpoint_errors, compare_layer}
use openvair_rde_linter.Compare.Fulfilled.{
  ClassSpec, FileSpec, LayerSpec, class_value, file_value, endpoint_value, endpoints_value,
  layer_value, recorded, HasAll, ClassFulfilled, FileFulfilled, EndpointFulfilled,
  EndpointsFulfilled, LayerFulfilled,
}

module _ {ℓ} {A : Type ℓ} where
  append-eq-nil : (xs ys : List A) → (xs ++ ys ≡ []) ↔ ((xs ≡ []) × (ys ≡ []))
  append-eq-nil [] ys = (λ h. (refl, h), λ h. h.1)
  append-eq-nil (x ∷ xs) ys = (λ h. cc, λ h. cc (h.0))

missing_methods-eq-nil :
    (l : String) (c : Value) (known wanted : List String)
    → (missing_methods l c known (map text wanted) ≡ []) ↔ HasAll known wanted
unfolding missing_methods
missing_methods-eq-nil l c known [] = (λ h. tt, λ h. refl)
missing_methods-eq-nil l c known (w ∷ wanted) =
    ground (arith, missing_methods-eq-nil l c known wanted)

missing_functions-eq-nil :
    (l f : String) (known wanted : List String)
    → (missing_functions l f known (map text wanted) ≡ []) ↔ HasAll known wanted
unfolding missing_functions
missing_functions-eq-nil l f known [] = (λ h. tt, λ h. refl)
missing_functions-eq-nil l f known (w ∷ wanted) =
    ground (arith, missing_functions-eq-nil l f known wanted)

module _ {ℓ} {B : Type ℓ} where
  -- Two steps append nothing exactly if neither does.
  pub both-eq-nil :
      (r s : Result (List B))
      → ((r >>= λ here. s >>= λ rest. ok (here ++ rest)) ≡ ok []) ↔ ((r ≡ ok []) × (s ≡ ok []))
  both-eq-nil (err e) s = (λ h. cc, λ h. cc (h.0))
  both-eq-nil (ok a) (err e) = (λ h. cc, λ h. cc (h.1))
  both-eq-nil (ok []) (ok b) = (λ h. (refl, h), λ h. h.1)
  both-eq-nil (ok (x ∷ a)) (ok b) = (λ h. cc, λ h. cc (h.0))

  three-eq-nil :
      (r s t : Result (List B))
      → ((r >>= λ a. s >>= λ b. t >>= λ c. ok (a ++ (b ++ c))) ≡ ok [])
        ↔ ((r ≡ ok []) × (s ≡ ok []) × (t ≡ ok []))
  three-eq-nil (err e) s t = (λ h. cc, λ h. cc (h.0))
  three-eq-nil (ok a) (err e) t = (λ h. cc, λ h. cc (h.1))
  three-eq-nil (ok a) (ok b) (err e) = (λ h. cc, λ h. cc (h.2))
  three-eq-nil (ok (x ∷ a)) (ok b) (ok c) = (λ h. cc, λ h. cc (h.0))
  three-eq-nil (ok []) (ok (x ∷ b)) (ok c) = (λ h. cc, λ h. cc (h.1))
  three-eq-nil (ok []) (ok []) (ok c) = (λ h. (refl, refl, h), λ h. h.2)

pub some-injective {ℓ} : {A : Type ℓ} {a b : A} → some a ≡ some b → a ≡ b
some-injective h = cc

found_iff :
    (problems : List Problem) (known wanted : List String)
    → (problems ≡ []) ↔ HasAll known wanted
    → (ok problems ≡ ok []) ↔ ((ms : List String) × (some known ≡ some ms) × HasAll ms wanted)
found_iff problems known wanted (there, back) = (
  λ h. (known, refl, there (ok-injective h)),
  λ h. ap ok (back (subst (λ ms. HasAll ms wanted) (sym (some-injective h.1)) h.2)),
)

methods_against-eq-nil :
    (l name : String) (o : Option Entry) (wanted : List String)
    → (methods_against l name (texts wanted) (known_of l name o) ≡ ok [])
      ↔ ((ms : List String) × (recorded o ≡ some ms) × HasAll ms wanted)
unfolding methods_against known_of
methods_against-eq-nil l name none wanted = (λ h. cc, λ h. cc (h.1))
methods_against-eq-nil l name (some (functions d)) wanted = (λ h. cc, λ h. cc (h.1))
methods_against-eq-nil l name (some (methods ms)) wanted =
    rw (map-str-text ms, to_list-of_list (map text wanted))
      (found_iff _ ms wanted (missing_methods-eq-nil l (text name) ms wanted))
methods_against-eq-nil l name (some (endpoints eps)) wanted =
    rw (to_list-of_list (map text wanted))
      (found_iff _ (map str eps) wanted (missing_methods-eq-nil l (text name) (map str eps) wanted))

-- A class of a typed contract has no error exactly if it is fulfilled.
class-eq-nil :
    (l : String) (layer : Layer) (c : ClassSpec)
    → (compare_one_required_class l layer (class_value c) ≡ ok []) ↔ ClassFulfilled layer c
unfolding compare_one_required_class String-discrete
class-eq-nil l layer c = elim (Bool-cases (is_sentinel c.name)) [
  | inl reserved ↦ rw reserved ((λ h. cc, λ h. cc (h.0)))
  | inr free ↦
      let iff = methods_against-eq-nil l c.name (Dict.get layer c.name) c.methods in
      rw free ((λ h. (refl, iff.0 h), λ h. iff.1 h.1))
]

functions_against-eq-nil :
    (l key : String) (o : Option (List String)) (wanted : List String)
    → (functions_against l key (texts wanted) o ≡ ok [])
      ↔ ((fns : List String) × (o ≡ some fns) × HasAll fns wanted)
unfolding functions_against
functions_against-eq-nil l key none wanted = (λ h. cc, λ h. cc (h.1))
functions_against-eq-nil l key (some fns) wanted =
    rw (to_list-of_list (map text wanted))
      (found_iff _ fns wanted (missing_functions-eq-nil l key fns wanted))

-- A file of a typed contract has no error exactly if it is fulfilled.
file-eq-nil :
    (l : String) (layer : Layer) (f : FileSpec)
    → (compare_one_module_file l (mf_actual_map layer) (file_value f) ≡ ok [])
      ↔ FileFulfilled layer f
unfolding compare_one_module_file String-discrete
file-eq-nil l layer f =
    functions_against-eq-nil l (normalize_rel_path f.relative_path)
      (Dict.get (mf_actual_map layer) (normalize_rel_path f.relative_path)) f.functions

equal-or-problem : (a b : List Row) (p : Problem) → ((if a == b then [] else p ∷ []) ≡ []) ↔ (a ≡ b)
equal-or-problem a b p = ground arith

gated :
    {Q : Type 0} (b : Bool) (p : Problem) (rest : List Problem)
    → (rest ≡ []) ↔ Q
    → ((if b then p ∷ [] else rest) ≡ []) ↔ ((b ≡ false) × Q)
gated true p rest iff = (λ h. cc, λ h. cc (h.0))
gated false p rest iff = (λ h. (refl, iff.0 h), λ h. iff.1 h.1)

abbrev SameRows : Dict Value → Dict Value → Type 0
SameRows a b =
    freeze_http_parameter_rows (Dict.get_or a "parameters" null)
    ≡ freeze_http_parameter_rows (Dict.get_or b "parameters" null)

-- A complete endpoint has no error exactly if its route has the same parameter rows.
parameters_against-eq-nil :
    (l : String) (trip : Triple) (ep : Dict Value) (o : Option (Dict Value))
    → (parameters_against l trip ep o ≡ [])
      ↔ ((code_ep : Dict Value) × (o ≡ some code_ep) × SameRows ep code_ep)
unfolding parameters_against
parameters_against-eq-nil l trip ep none = (λ h. cc, λ h. cc (h.1))
parameters_against-eq-nil l trip ep (some code_ep) =
    let iff = equal-or-problem _ _ _ in
    (λ h. (code_ep, refl, iff.0 h), λ h. iff.1 (subst (SameRows ep) (sym (some-injective h.1)) h.2))

endpoint-eq-nil :
    (l : String) (layer : Layer) (ep : Dict Value)
    → (compare_one_spec_http_endpoint l
          (index_code_endpoints (code_endpoints layer))
          (endpoint_value ep)
        ≡ [])
      ↔ EndpointFulfilled layer ep
unfolding compare_one_spec_http_endpoint route_errors
endpoint-eq-nil l layer ep = rw (to_dict-of_dict ep) (
    gated (is_incomplete (http_endpoint_triple ep)) _ _
      (parameters_against-eq-nil l (http_endpoint_triple ep) ep _))

endpoints-eq-nil :
    (l : String) (layer : Layer) (eps : List (Dict Value))
    → (spec_endpoint_errors l (index_code_endpoints (code_endpoints layer)) (map endpoint_value eps)
        ≡ [])
      ↔ All (EndpointFulfilled layer) eps
unfolding spec_endpoint_errors
endpoints-eq-nil l layer [] = (λ h. tt, λ h. refl)
endpoints-eq-nil l layer (ep ∷ eps) =
    let split =
      append-eq-nil
        (compare_one_spec_http_endpoint l (index_code_endpoints (code_endpoints layer))
          (endpoint_value ep))
        (spec_endpoint_errors l (index_code_endpoints (code_endpoints layer))
          (map endpoint_value eps)) in
    let here = endpoint-eq-nil l layer ep in
    let rest = endpoints-eq-nil l layer eps in
    (λ h. (here.0 (split.0 h).0, rest.0 (split.0 h).1), λ h. split.1 (here.1 h.0, rest.1 h.1))

required_endpoints-eq-nil :
    (l : String) (layer : Layer) (eps : Option (List (Dict Value)))
    → (endpoint_errors l layer (endpoints_value eps) ≡ ok []) ↔ EndpointsFulfilled layer eps
unfolding endpoint_errors compare_required_http_endpoints
required_endpoints-eq-nil l layer none = (λ h. tt, λ h. refl)
required_endpoints-eq-nil l layer (some eps) =
    let iff = endpoints-eq-nil l layer eps in
    rw (to_list-of_list (map endpoint_value eps))
      ((λ h. iff.0 (ok-injective h), λ h. ap ok (iff.1 h)))

collect_iff :
    {A : Type 0} {Q : A → Type 0} (f : Value → Result (List Problem)) (g : A → Value) (xs : List A)
    → ((x : A) → (f (g x) ≡ ok []) ↔ Q x)
    → (collect f (map g xs) ≡ ok []) ↔ All Q xs
unfolding collect
collect_iff f g [] iff = (λ h. tt, λ h. refl)
collect_iff f g (x ∷ xs) iff =
    let both = both-eq-nil (f (g x)) (collect f (map g xs)) in
    let rest = collect_iff f g xs iff in
    (λ h. ((iff x).0 (both.0 h).0, rest.0 (both.0 h).1), λ h. both.1 ((iff x).1 h.0, rest.1 h.1))

-- A layer of a typed contract has no error exactly if it is fulfilled.
pub layer-eq-nil :
    (l : String) (layer : Layer) (spec : LayerSpec)
    → (compare_layer l layer (layer_value spec) ≡ ok []) ↔ LayerFulfilled layer spec
unfolding compare_layer compare_required_classes compare_required_module_functions String-discrete
layer-eq-nil l layer spec =
    let classes =
      collect_iff (compare_one_required_class l layer) class_value spec.classes
        (class-eq-nil l layer) in
    let files =
      collect_iff (compare_one_module_file l (mf_actual_map layer)) file_value spec.files
        (file-eq-nil l layer) in
    let routes = required_endpoints-eq-nil l layer spec.endpoints in
    let all =
      three-eq-nil (collect (compare_one_required_class l layer) (map class_value spec.classes))
        (collect (compare_one_module_file l (mf_actual_map layer)) (map file_value spec.files))
        (endpoint_errors l layer (endpoints_value spec.endpoints)) in
    rw (to_list-of_list (map class_value spec.classes), to_list-of_list (map file_value spec.files))
      ((
        λ h. (classes.0 (all.0 h).0, files.0 (all.0 h).1, routes.0 (all.0 h).2),
        λ h. all.1 (classes.1 h.0, files.1 h.1, routes.1 h.2),
      ))
