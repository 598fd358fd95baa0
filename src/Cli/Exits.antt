-- ===== src/Cli/Exits.antt =====
-- What exit code 0 means: for one contract against some sources, and for all the contracts of a
-- repository.
use openvair_rde_linter.Compare.Messages.{Problem}
use openvair_rde_linter.Base.{
  ℕ, suc, String, Bool, true, false, ◌≡◌, refl, sym, ◌∙◌, ap, subst, ◌↔◌, Option, none, some, List,
  [], ◌∷◌, contains, string_eq, All, nat_eq, if◌then◌else◌, arith,
}
use openvair_rde_linter.Base.Dict
use openvair_rde_linter.Base.Dict.{Dict}
use openvair_rde_linter.Result.{Result, ok, err, ◌>>=◌, ok-injective}
use openvair_rde_linter.Value.{Value}
use openvair_rde_linter.Ast.{Expr, Stmts}
use openvair_rde_linter.Index.{Entry, Layer, Artifacts, methods, endpoints, functions}
use openvair_rde_linter.Index.Methods.{methods_of, code_methods-eq}
use openvair_rde_linter.Index.Recorded.{is_recorded, some_file_declares, build_code_artifacts_lem}
use openvair_rde_linter.Compare.{CompareResult, compare}
use openvair_rde_linter.Compare.Extras.{code_methods_for_class}
use openvair_rde_linter.Compare.Fulfilled.{
  ClassSpec, LayerSpec, contract_value, recorded, ClassFulfilled, ItemFulfilled,
}
use openvair_rde_linter.Compare.Verdict.{compare_verdict}
use openvair_rde_linter.Cli.{
  SpecFile, Repository, exit_code, extract, lint_one_spec, lint_each, lint_all_specs,
  iter_spec_files,
}

All-map {ℓ ℓp ℓq} :
    {A : Type ℓ} {P : A → Type ℓp} {Q : A → Type ℓq} (f : (a : A) → P a → Q a) (xs : List A)
    → All P xs
    → All Q xs
All-map f [] h = tt
All-map f (x ∷ xs) h = (f x h.0, All-map f xs h.1)

exit_code_zero : (r : CompareResult) → exit_code r ≡ 0 → r.errors ≡ []
unfolding exit_code
exit_code_zero r h = by_errors r.errors h
  where
    by_errors :
        (es : List Problem) → (elim es as (λ _. ℕ) [ [] ↦ 0 | _ ∷ _ ↦ 1 ]) ≡ ℕ.zero → es ≡ []
    by_errors [] e = refl
    by_errors (x ∷ es) e = absurd (omega (arith, e))

-- the sources declare the methods that the class must have
abbrev pub ClassDeclared : (String → Option Stmts) → Dict String → String → ClassSpec → Type 0
ClassDeclared parse files layer_name c =
    All (λ m. some_file_declares parse layer_name c.name m files ≡ true) c.methods

abbrev pub MethodsDeclared :
    (String → Option Stmts) → Dict String → List (String × LayerSpec) → Type 0
MethodsDeclared parse files contract =
    All (λ (item : String × LayerSpec). All (ClassDeclared parse files item.0) item.1.classes)
      contract

methods_of-recorded :
    (o : Option Entry) (ms : List String) → recorded o ≡ some ms → methods_of o ≡ ms
methods_of-recorded none ms h = cc
methods_of-recorded (some (methods xs)) ms h = cc
methods_of-recorded (some (endpoints eps)) ms h = cc
methods_of-recorded (some (functions d)) ms h = cc

module _ (parse : String → Option Stmts) (unparse : Expr → String) (files : Dict String)
    (artifacts : Artifacts) (built : extract parse unparse files ≡ ok artifacts) where
  is_recorded-eq :
      (l c m : String) (layer : Layer)
      → Dict.get artifacts l ≡ some layer
      → is_recorded artifacts l c m ≡ contains (methods_of (Dict.get layer c)) m
  unfolding is_recorded
  is_recorded-eq l c m layer h =
      subst
        (λ x. contains (code_methods_for_class x c) m ≡ contains (methods_of (Dict.get layer c)) m)
        (sym (Dict.get_or-of artifacts l layer [] h))
        (ap (λ ms. contains ms m) (code_methods-eq layer c))

  class_declared :
      (l : String) (layer : Layer)
      → Dict.get artifacts l ≡ some layer
      → (c : ClassSpec) → ClassFulfilled layer c
      → ClassDeclared parse files l c
  unfolding extract
  class_declared l layer found c (free, (ms, entry, all)) =
      All-map
        (λ m has.
          sym (build_code_artifacts_lem parse unparse files artifacts l c.name m free built)
          ∙ is_recorded-eq l c.name m layer found
          ∙ ap (λ xs. contains xs m) (methods_of-recorded (Dict.get layer c.name) ms entry)
          ∙ has)
        c.methods all

  classes_declared :
      (l : String) (spec : LayerSpec)
      → ItemFulfilled artifacts (l, spec)
      → All (ClassDeclared parse files l) spec.classes
  classes_declared l spec (layer, found, fulfilled) =
      All-map (class_declared l layer found) spec.classes fulfilled.0

-- Over any `parse` and `unparse`, if `extract` builds an index of the sources and `compare` of a
-- typed contract with that index ends in exit code 0, then for each class that a layer of the
-- contract requires and each of its required methods, some source file of that layer declares a
-- class of that name with a public method of that name.
pub exit_code_sound :
    (parse : String → Option Stmts) (unparse : Expr → String) (files : Dict String)
    (artifacts : Artifacts) (contract : List (String × LayerSpec)) (extras : Bool)
    (r : CompareResult)
    → extract parse unparse files ≡ ok artifacts
    → compare (contract_value contract) artifacts extras [] ≡ ok r
    → exit_code r ≡ 0
    → MethodsDeclared parse files contract
exit_code_sound parse unparse files artifacts contract extras r built compared zero_code =
    let (verdict, returned, iff) = compare_verdict contract artifacts extras in
    let same : verdict ≡ r = ok-injective (sym returned ∙ compared) in
    let none_found : verdict.errors ≡ [] =
      ap (λ (x : CompareResult). x.errors) same ∙ exit_code_zero r zero_code in
    All-map
      (λ item fulfilled.
        classes_declared parse unparse files artifacts built item.0 item.1 fulfilled)
      contract (iff.0 none_found)

suc_differs : (n : ℕ) → nat_eq (suc n) 0 ≡ false
suc_differs n = ground arith

-- One more contract in the loop.
one_more :
    {P : Type 0} (r : Result ℕ) (next : ℕ → Result ℕ) (code : ℕ)
    → ((k : ℕ) → (next k ≡ ok 0) ↔ ((k ≡ 0) × P))
    → ((r >>= λ failed. next (if nat_eq failed 0 then code else 1)) ≡ ok 0)
      ↔ ((code ≡ 0) × ((r ≡ ok 0) × P))
one_more (err raised) next code iff = (λ h. cc, λ h. cc (h.1.0))
one_more (ok ℕ.zero) next code iff =
    (λ h. (((iff code).0 h).0, (refl, ((iff code).0 h).1)), λ h. (iff code).1 (h.0, h.1.1))
one_more (ok (suc n)) next code iff = (
  λ h. absurd (omega (arith, ((iff 1).0 (rw (suc_differs n) at h)).0)),
  λ h. absurd (omega (arith, ok-injective h.1.0)),
)

module _ (safe_load : String → Option Value) (parse : String → Option Stmts)
    (unparse : Expr → String) (repo : Repository) (extras : Bool) where
  abbrev pub Passes : SpecFile → Type 0
  Passes spec = lint_one_spec safe_load parse unparse repo spec extras ≡ ok 0

  lint_each-eq-zero :
      (specs : List SpecFile) (code : ℕ)
      → (lint_each safe_load parse unparse repo specs extras code ≡ ok 0)
        ↔ ((code ≡ 0) × All Passes specs)
  unfolding lint_each
  lint_each-eq-zero [] code = (λ h. (ok-injective h, tt), λ h. ap ok h.0)
  lint_each-eq-zero (spec ∷ specs) code =
      one_more (lint_one_spec safe_load parse unparse repo spec extras)
        (lint_each safe_load parse unparse repo specs extras) code (lint_each-eq-zero specs)

  -- Over any `safe_load`, `parse` and `unparse`, on a repository with a folder of contracts,
  -- lint_all_specs returns exit code 0 exactly if lint_one_spec returns 0 for every contract that
  -- iter_spec_files gives.
  pub lint_all_specs_zero :
      (files : List SpecFile)
      → repo.specs ≡ some files
      → (lint_all_specs safe_load parse unparse repo extras ≡ ok 0)
        ↔ All Passes (iter_spec_files files)
  unfolding lint_all_specs
  lint_all_specs_zero files present =
      let iff = lint_each-eq-zero (iter_spec_files files) 0 in
      rw present (λ h. (iff.0 h).1, λ h. iff.1 (refl, h))
