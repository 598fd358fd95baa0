-- ===== src/Cli.antt =====
-- entrypoints/cli.py, entrypoints/lint_repo_specs.py, core/analyzer.py and `load_module_sources`:
-- the runs of the linter over the files of a repository, up to the exit code. What is printed is
-- not modelled. `safe_load`, `parse` and `unparse` are PyYAML's loader and Python's `ast`.
pub mod Sources
pub mod Exits
use openvair_rde_linter.Base.{
  ℕ, String, ◌<>◌, Bool, true, false, not, ◌||◌, Option, none, some, List, [], ◌∷◌, ◌++◌, ◌==◌,
  contains, string_eq, is_empty, trim, keep_if, nat_eq, if◌then◌else◌,
}
use openvair_rde_linter.Base.Dict
use openvair_rde_linter.Base.Dict.{Dict}
use openvair_rde_linter.Result.{Exn, Result, ok, err, attribute_error, ◌>>=◌}
use openvair_rde_linter.Value.{Value, as_dict}
use openvair_rde_linter.Ast.{Expr, Stmts}
use openvair_rde_linter.Index.{Artifacts, build_code_artifacts}
use openvair_rde_linter.Compare.{CompareResult, compare}
use openvair_rde_linter.Contract.{Document, to_requirements, load_spec}
use openvair_rde_linter.Cli.Sources.{SourceFile, load_module_sources}

-- A file of `specs/`: its stem, its ending and its text.
pub record SpecFile : Type 0 where
  pub stem : String
  pub ending : String
  pub source : String

-- What a run reads: `none` for a folder that is not there. `modules` has the path parts of
-- `openvair/modules/<feature>` and the files below it.
pub record Repository : Type 0 where
  pub specs : Option (List SpecFile)
  pub modules : String → Option (List String × List SourceFile)

-- the exit code: `1` if there are errors
unfoldable pub exit_code : CompareResult → ℕ
exit_code result = elim result.errors [ [] ↦ 0 | _ ∷ _ ↦ 1 ]

stems : List SpecFile → List String
stems [] = []
stems (f ∷ fs) = f.stem ∷ stems fs

with_orphans : List SpecFile → List SpecFile → List SpecFile
unfolding keep_if stems
with_orphans [] yaml_files = yaml_files
with_orphans md_files yaml_files =
    md_files ++ keep_if (λ y. not (contains (stems md_files) y.stem)) yaml_files

-- Over the files in sorted order. A YAML file is read only where no Markdown file has its stem.
unfoldable pub iter_spec_files : List SpecFile → List SpecFile
unfolding keep_if with_orphans
iter_spec_files files =
    with_orphans (keep_if (λ f. f.ending == ".md") files) (keep_if (λ f. f.ending == ".yaml") files)

-- the feature of a document, which `load_spec` leaves stripped and not empty, else the stem
unfoldable pub module_for_spec : SpecFile → Document → String
unfolding trim is_empty
module_for_spec spec doc = if is_empty (trim doc.feature) then spec.stem else trim doc.feature

module _ (parse : String → Option Stmts) (unparse : Expr → String) where
  -- `AstAnalyzer(code_files).extract()`
  unfoldable pub extract : Dict String → Result Artifacts
  unfolding build_code_artifacts
  extract code_files = build_code_artifacts parse unparse code_files

module _ (safe_load : String → Option Value) (parse : String → Option Stmts)
    (unparse : Expr → String) where
  -- `run_on_openvair_module`, without the artifacts that it returns too
  unfoldable pub run_on_openvair_module :
      SpecFile → List String × List SourceFile → Bool → Result CompareResult
  unfolding load_spec extract compare load_module_sources to_requirements
  run_on_openvair_module spec (root, files) warn_extras = do
    reqs ← load_spec safe_load (spec.stem <> spec.ending) spec.source
    artifacts ← extract parse unparse (load_module_sources root files)
    compare (to_requirements reqs) artifacts warn_extras []

  -- `run_demo_pipeline` on any contract and sources; the program's own are constants
  unfoldable pub run_demo_pipeline : String → Dict String → Bool → Result CompareResult
  unfolding extract compare
  run_demo_pipeline spec_yaml sources warn_extras = elim (safe_load spec_yaml) [
    | none ↦ err Exn.syntax_error
    | some v ↦ elim (as_dict v) [
      | none ↦ err attribute_error
      | some reqs ↦
          extract parse unparse sources >>= λ artifacts. compare reqs artifacts warn_extras []
    ]
  ]

  -- `main` on a contract and a module, or on the demo
  unfoldable pub main_on_module : SpecFile → List String × List SourceFile → Bool → Result ℕ
  unfolding run_on_openvair_module exit_code
  main_on_module spec module_dir warn_extras = do
    result ← run_on_openvair_module spec module_dir warn_extras
    ok (exit_code result)

  -- A contract whose module folder is missing fails.
  unfoldable pub lint_one_spec : Repository → SpecFile → Bool → Result ℕ
  unfolding load_spec module_for_spec main_on_module
  lint_one_spec repo spec warn_extras = do
    doc ← load_spec safe_load (spec.stem <> spec.ending) spec.source
    elim (repo.modules (module_for_spec spec doc)) [
      | none ↦ ok 1
      | some module_dir ↦ main_on_module spec module_dir warn_extras
    ]

  -- the loop of `lint_all_specs`, from an exit code
  unfoldable pub lint_each : Repository → List SpecFile → Bool → ℕ → Result ℕ
  unfolding lint_one_spec
  lint_each repo [] warn_extras code = ok code
  lint_each repo (spec ∷ specs) warn_extras code = lint_one_spec repo spec warn_extras >>= λ failed.
      lint_each repo specs warn_extras (if nat_eq failed 0 then code else 1)

  unfoldable pub lint_all_specs : Repository → Bool → Result ℕ
  unfolding lint_each iter_spec_files
  lint_all_specs repo warn_extras = elim repo.specs [
    | none ↦ ok 0
    | some files ↦ lint_each repo (iter_spec_files files) warn_extras 0
  ]
