-- ===== src/Contract/Fence.antt =====
-- contract/spec_document.py `extract_rde_block`. The expression is matched line by line: a fence is
-- a line that begins with three backticks, and `.*` is greedy, so the block goes up to the last one.
use openvair_rde_linter.Base.{
  String, code, ℕ, Bool, ◌&&◌, ◌||◌, Option, none, some, List, [], ◌∷◌, split, join, starts_with,
  trim, lower, nat_eq, ◌==◌, string_eq, if◌then◌else◌,
}
use openvair_rde_linter.Result.{Result, ok, err, no_rde_block}

-- "^```"
unfoldable pub is_fence : String → Bool
unfolding starts_with
is_fence line = starts_with line "```"

-- `[ \t]*` at the beginning
skip_blanks : String → String
skip_blanks String.[] = String.[]
skip_blanks (String.◌∷◌ c s) =
    let rest = skip_blanks s in
    if nat_eq (code c) b' ' || nat_eq (code c) 9 then rest else String.◌∷◌ c s

after_chars : ℕ → String → String
after_chars ℕ.zero s = s
after_chars (ℕ.suc n) String.[] = String.[]
after_chars (ℕ.suc n) (String.◌∷◌ _ s) = after_chars n s

-- "^```[ \t]*rde[ \t]*\r?", in any case, up to the end of the line
unfoldable pub is_opening : String → Bool
unfolding is_fence skip_blanks after_chars lower starts_with
is_opening line =
    let label = skip_blanks (after_chars 3 line) in
    let rest = skip_blanks (after_chars 3 label) in
    is_fence line && (starts_with (lower label) "rde" && (rest == "" || rest == "\r"))

-- the lines before the last fence
unfoldable pub before_last_fence : List String → Option (List String)
unfolding is_fence
before_last_fence [] = none
before_last_fence (line ∷ lines) = elim (before_last_fence lines) [
  | some body ↦ some (line ∷ body)
  | none ↦ if is_fence line then some [] else none
]

-- the lines between the first opening and the last fence
unfoldable pub block_lines : List String → Option (List String)
unfolding is_opening before_last_fence
block_lines [] = none
block_lines (line ∷ lines) =
    let rest = block_lines lines in if is_opening line then before_last_fence lines else rest

unfoldable pub extract_rde_block : String → Result String
unfolding split block_lines join trim
extract_rde_block markdown_text = elim (block_lines (split 10 markdown_text)) [
  | none ↦ err no_rde_block
  | some body ↦ ok (trim (join "\n" body))
]
