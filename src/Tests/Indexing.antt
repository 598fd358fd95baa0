-- ===== src/Tests/Indexing.antt =====
-- Two files, one in the domain layer and one in none, from their texts to the exit code. The parser
-- knows these two texts.
use openvair_rde_linter.Base.{
  String, true, false, ◌≡◌, refl, ◌↔◌, Option, none, some, List, [], ◌∷◌, ◌==◌, string_eq,
  String-discrete, if◌then◌else◌, All, sorted_set,
}
use openvair_rde_linter.Base.Dict.{Dict}
use openvair_rde_linter.Result.{ok, returns}
use openvair_rde_linter.Value.{Value, Fields, text, dict, of_dict}
use openvair_rde_linter.Ast.{Expr, Arguments, Stmt, Stmts, function, class_def, block, empty}
use openvair_rde_linter.Index.{Entry, Artifacts, build_code_artifacts, is_sentinel}
use openvair_rde_linter.Index.Recorded.{is_recorded, some_file_declares, build_code_artifacts_lem}
use openvair_rde_linter.Index.Returns.{all_readable, returns-build_code_artifacts}
use openvair_rde_linter.Compare.{CompareResult, compare}
use openvair_rde_linter.Compare.Layers.{compare_layers}
use openvair_rde_linter.Compare.Extras.{collect_extras_warnings}
use openvair_rde_linter.Compare.Fulfilled.{LayerSpec, contract_value}
use openvair_rde_linter.Cli.{
  SpecFile, Repository, exit_code, extract, lint_all_specs, iter_spec_files,
}
use openvair_rde_linter.Cli.Exits.{MethodsDeclared, Passes, exit_code_sound, lint_all_specs_zero}

abbrev no_arguments : Arguments
no_arguments = record {
  posonlyargs = [];
  args = [];
  defaults = [];
  kwonlyargs = [];
  kw_defaults = [];
}

abbrev method : String → Stmt
method name = function (record { name = name; args = no_arguments; decorator_list = [] }) empty

-- class User, under an `if`, with `validate` and `_check`
abbrev user_tree : Stmts
user_tree =
    Stmts.then
      (block (
        Stmts.then
          (class_def "User" (Stmts.then (method "validate") (Stmts.then (method "_check") empty)))
          empty))
      empty

abbrev parse : String → Option Stmts
parse source =
    if source == "USER" then some user_tree else if source == "EMPTY" then some empty else none

abbrev unparse : Expr → String
unparse _ = "..."

abbrev files : Dict String
files = ("./domain/user.py", "USER") ∷ ("config.py", "BROKEN") ∷ []

abbrev code : Artifacts
code =
    (
      "domain",
      ("$module_functions$", Entry.functions []) ∷ ("User", Entry.methods ("validate" ∷ [])) ∷ [],
    )
    ∷ []

build_run : build_code_artifacts parse unparse files ≡ ok code
unfolding build_code_artifacts String-discrete sorted_set
build_run = refl

-- The name of a bucket is not for a class.
clash_run :
    returns (
      build_code_artifacts
        (λ _. some (Stmts.then (class_def "$http_endpoints$" empty) empty))
        unparse
        files)
    ≡ false
unfolding build_code_artifacts String-discrete sorted_set
clash_run = refl

free_name : is_sentinel "User" ≡ false
unfolding String-discrete
free_name = refl

build_code_artifacts_lem_example :
    is_recorded code "domain" "User" "validate"
    ≡ some_file_declares parse "domain" "User" "validate" files
build_code_artifacts_lem_example =
    build_code_artifacts_lem parse unparse files code "domain" "User" "validate" free_name build_run

returns-build_code_artifacts_example :
    returns (build_code_artifacts parse unparse files) ≡ all_readable parse files
returns-build_code_artifacts_example = returns-build_code_artifacts parse unparse files

abbrev contract : List (String × LayerSpec)
contract =
    (
      "domain",
      record {
        classes = record { name = "User"; methods = "validate" ∷ [] } ∷ [];
        files = [];
        endpoints = none;
      },
    )
    ∷ []

abbrev clean : CompareResult
clean = record { errors = []; warnings = [] }

compare_run : compare (contract_value contract) code true [] ≡ ok clean
unfolding compare compare_layers collect_extras_warnings String-discrete
compare_run = refl

exit_run : exit_code clean ≡ 0
unfolding exit_code
exit_run = refl

extract_run : extract parse unparse files ≡ ok code
unfolding extract String-discrete sorted_set
extract_run = refl

exit_code_sound_example : MethodsDeclared parse files contract
exit_code_sound_example =
    exit_code_sound parse unparse files code contract true clean extract_run compare_run exit_run

-- A repository with one contract, for the feature `user`, whose module has no files.
abbrev spec : SpecFile
spec = record { stem = "user"; ending = ".yaml"; source = "" }

abbrev safe_load : String → Option Value
safe_load _ =
    some (dict (of_dict (("feature", text "user") ∷ ("layers", dict Fields.no_field) ∷ [])))

abbrev repo : Repository
repo = record {
  specs = some (spec ∷ []);
  modules = λ feature. if feature == "user" then some ("user" ∷ [], []) else none;
}

lint_run : lint_all_specs safe_load parse unparse repo true ≡ ok 0
unfolding lint_all_specs compare_layers collect_extras_warnings String-discrete
lint_run = refl

lint_all_specs_zero_example :
    (lint_all_specs safe_load parse unparse repo true ≡ ok 0)
    ↔ All (Passes safe_load parse unparse repo true) (iter_spec_files (spec ∷ []))
lint_all_specs_zero_example = lint_all_specs_zero safe_load parse unparse repo true (spec ∷ []) refl
