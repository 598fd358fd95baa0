-- ===== src/Compare.antt =====
-- core/comparator.py: a contract against the index of the code. A function that appends to the
-- list of errors returns what it appends. An exception ends the whole run, so the errors that
-- were found before it go with it.
pub mod Messages
pub mod Rows
pub mod Required
pub mod Extras
pub mod Layers
pub mod Fulfilled
mod Errors
mod Total
pub mod Verdict
use openvair_rde_linter.Base.{Bool, List, [], ◌++◌, string_eq, if◌then◌else◌}
use openvair_rde_linter.Base.Dict
use openvair_rde_linter.Base.Dict.{Dict}
use openvair_rde_linter.Result.{Result, ok, ◌>>=◌}
use openvair_rde_linter.Value.{Value, dict, Fields}
use openvair_rde_linter.Index.{Artifacts}
use openvair_rde_linter.Compare.Messages.{Problem, Warning}
use openvair_rde_linter.Compare.Layers.{items_of, compare_layers}
use openvair_rde_linter.Compare.Extras.{collect_extras_warnings}

pub record CompareResult : Type 0 where
  pub errors : List Problem
  pub warnings : List Warning

-- `Comparator(requirements, artifacts).compare(report_extras=…)`. The list `errors` belongs to the
-- object: `before` is what earlier calls on the same object left in it.
unfoldable pub compare : Dict Value → Artifacts → Bool → List Problem → Result CompareResult
unfolding items_of Dict.get_or
compare requirements artifacts report_extras before = do
  layers_req ← items_of (Dict.get_or requirements "layers" (dict Fields.no_field))
  found ← compare_layers artifacts layers_req
  warnings ← (if report_extras then collect_extras_warnings requirements artifacts else ok [])
  ok (record { errors = before ++ found; warnings = warnings })
