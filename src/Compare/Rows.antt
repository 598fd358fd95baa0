-- ===== src/Compare/Rows.antt =====
-- core/comparator.py: the frozen parameter rows and the route keys.
use openvair_rde_linter.Base.{
  String, Bool, true, none, some, List, [], ◌∷◌, Triple, string_eq, triple_eq, upper,
  String-discrete, if◌then◌else◌, Eq,
}
use openvair_rde_linter.Base.Dict
use openvair_rde_linter.Base.Dict.{Dict, Map}
use openvair_rde_linter.Value.{Value, as_dict, as_list, null, text, truthy}
use openvair_rde_linter.Value.Render.{str}
use openvair_rde_linter.Compare.Messages.{Row}
use mathlib.Core.Bool.{Bool-discrete}

unfoldable pub Rows-discrete : Discrete (List Row)
unfolding String-discrete
Rows-discrete = hlevel (String-discrete, Bool-discrete)

instance abbrev pub rows_eq : Eq (List Row)
rows_eq = record { dec = Rows-discrete }

-- a missing `required`, or a null one, counts as true
unfoldable pub required_of : Value → Bool
unfolding truthy
required_of null = true
required_of v = truthy v

-- `str(v or '')`
unfoldable pub str_or_empty : Value → String
unfolding truthy str
str_or_empty v = if truthy v then str v else ""

unfoldable pub freeze_row : Dict Value → Row
unfolding Dict.get_or str required_of str_or_empty
freeze_row p = (
  str (Dict.get_or p "name" (text "")),
  (
    str (Dict.get_or p "kind" (text "")),
    required_of (Dict.get_or p "required" null),
    str_or_empty (Dict.get_or p "type_hint" null),
  ),
)

unfoldable pub freeze_rows : List Value → List Row
unfolding freeze_row
freeze_rows [] = []
freeze_rows (p ∷ params) =
    let rest = freeze_rows params in elim (as_dict p) [ none ↦ rest | some d ↦ freeze_row d ∷ rest ]

-- sorted by name; rows of one name stay in order
unfoldable pub freeze_http_parameter_rows : Value → List Row
unfolding freeze_rows Dict.sorted_items
freeze_http_parameter_rows params_raw = elim (as_list params_raw) [
  | none ↦ []
  | some params ↦ Dict.sorted_items (freeze_rows params)
]

unfoldable pub http_endpoint_triple : Dict Value → Triple
unfolding Dict.get_or str upper
http_endpoint_triple ep = (
  upper (str (Dict.get_or ep "method" (text ""))),
  str (Dict.get_or ep "path" (text "")),
  str (Dict.get_or ep "handler" (text "")),
)

index_from : List Value → Map Triple (Dict Value) → Map Triple (Dict Value)
unfolding http_endpoint_triple Dict.set
index_from [] index = index
index_from (ep ∷ eps) index =
    index_from eps
      (elim (as_dict ep) [ none ↦ index | some d ↦ Dict.set index (http_endpoint_triple d) d ])

-- Of two routes with one key the later one is kept.
unfoldable pub index_code_endpoints : List Value → Map Triple (Dict Value)
unfolding index_from
index_code_endpoints eps = index_from eps []
