-- ===== src/Paths.antt =====
-- core/ast_specs.py `normalize_rel_path` and `infer_layer`, http/naming.py, and the parts of
-- `pathlib.PurePosixPath` that they use.
pub mod Layers
use openvair_rde_linter.Base.{
  ℕ, zero, suc, String, ◌<>◌, Bool, not, ◌&&◌, Option, none, some, List, [], ◌∷◌, code, contains,
  ◌==◌, string_eq, nat_eq, begins_with, is_empty, split, join, keep_if, if◌then◌else◌,
}
use openvair_rde_linter.Result.{Result, ok, err, index_error, ◌>>=◌}

-- `not name.startswith('_')`
unfoldable pub is_contract_public_name : String → Bool
unfolding begins_with
is_contract_public_name name = not (begins_with b'_' name)

-- A parsed path: its root ("", "/" or "//") and its segments, none empty and none ".".
pub record FilePath : Type 0 where
  pub root : String
  pub segments : List String

leading_slashes : String → ℕ
leading_slashes String.[] = 0
leading_slashes (String.◌∷◌ c s) =
    let rest = leading_slashes s in if nat_eq (code c) b'/' then suc rest else 0

-- Two leading slashes are kept; any other number of them counts as one.
root_of : ℕ → String
root_of zero = ""
root_of (suc (suc zero)) = "//"
root_of _ = "/"

abbrev pub is_segment : String → Bool
is_segment s = not (is_empty s) && not (s == ".")

-- `Path(s)`
unfoldable pub parse_path : String → FilePath
unfolding leading_slashes root_of split keep_if is_empty
parse_path s = record {
  root = root_of (leading_slashes s);
  segments = keep_if is_segment (split b'/' s);
}

-- `path.parts`
unfoldable pub parts : FilePath → List String
unfolding is_empty
parts p = if is_empty p.root then p.segments else p.root ∷ p.segments

-- `path.as_posix()`
unfoldable pub as_posix : FilePath → String
unfolding is_empty join parts
as_posix p = elim (parts p) [ [] ↦ "." | _ ∷ _ ↦ p.root <> join "/" p.segments ]

-- The parts other than "." make a path again: its root, which is none of them, and the segments.
unfoldable pub normalize_rel_path : String → String
unfolding parse_path as_posix
normalize_rel_path path_str =
    let p = parse_path path_str in
    let q : FilePath = record p { segments = keep_if (λ part. not (part == ".")) p.segments } in
    elim (parts q) [ [] ↦ "" | _ ∷ _ ↦ as_posix q ]

abbrev pub known_layer_names : List String
known_layer_names = "domain" ∷ "service_layer" ∷ "adapters" ∷ "entrypoints" ∷ []

-- the last segment, `path.name`
last_segment : List String → String
last_segment [] = ""
last_segment (s ∷ []) = s
last_segment (_ ∷ s ∷ rest) = last_segment (s ∷ rest)

-- From the last dot of a text on, `none` without a dot.
last_dot : String → Option String
last_dot String.[] = none
last_dot (String.◌∷◌ c s) = elim (last_dot s) [
  | some ending ↦ some ending
  | none ↦ if nat_eq (code c) b'.' then some (String.◌∷◌ c s) else none
]

after_first : String → String
after_first String.[] = ""
after_first (String.◌∷◌ _ s) = s

-- `Path(s).suffix`: a dot at either end of the name makes none
unfoldable pub suffix : String → String
unfolding parse_path last_segment last_dot after_first
suffix path = elim (last_dot (after_first (last_segment (parse_path path).segments))) [
  | none ↦ ""
  | some ending ↦ if ending == "." then "" else ending
]

-- `parts[0]`
unfoldable pub first_part : List String → Result String
first_part [] = err index_error
first_part (part ∷ _) = ok part

unfoldable pub infer_layer : String → Result (Option String)
unfolding is_empty first_part parse_path parts
infer_layer rel_path = if is_empty rel_path then ok none else do
  first ← first_part (parts (parse_path rel_path))
  ok (if contains known_layer_names first then some first else none)
