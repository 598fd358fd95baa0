-- ===== src/Cli/Sources.antt =====
-- core/ast_specs.py `load_module_sources`.
use openvair_rde_linter.Base.{
  String, Bool, not, ◌&&◌, List, [], ◌∷◌, ◌++◌, contains, string_eq, join, if◌then◌else◌,
}
use openvair_rde_linter.Base.Dict.{Dict}

-- a `*.py` file below a module folder: its path parts from there, and its text
pub record SourceFile : Type 0 where
  pub parts : List String
  pub source : String

-- The test is on all parts of the path, those of the module folder too.
unfoldable pub is_source : List String → SourceFile → Bool
is_source root file =
    let path = root ++ file.parts in
    not (contains path "__pycache__") && not (contains path "tests")

-- Over the files in sorted order, which have different paths.
unfoldable pub load_module_sources : List String → List SourceFile → Dict String
unfolding is_source join
load_module_sources root [] = []
load_module_sources root (file ∷ files) =
    let rest = load_module_sources root files in
    if is_source root file then (join "/" file.parts, file.source) ∷ rest else rest
