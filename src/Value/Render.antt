-- ===== src/Value/Render.antt =====
-- `str` and `repr` of values. A character above ASCII counts as printable, so `repr` keeps it.
use openvair_rde_linter.Base.{
  ℕ, ◌-◌, String, Char, code, ◌<>◌, Bool, true, false, not, ◌&&◌, ◌||◌, nat_eq, ltb, if◌then◌else◌,
}
use Prim.Native.Nat.{◌/◌, ◌%◌}
use openvair_rde_linter.Value.{
  Value, Items, Fields, null, flag, text, scalar, list, dict, no_item, item, no_field, field,
}

has_char : ℕ → String → Bool
has_char c String.[] = false
has_char c (String.◌∷◌ d s) = nat_eq (code d) c || has_char c s

nth_char : String → ℕ → String
nth_char String.[] n = ""
nth_char (String.◌∷◌ c s) n = if nat_eq n 0 then String.◌∷◌ c String.[] else nth_char s (n - 1)

hex_digit : ℕ → String
unfolding nth_char
hex_digit n = nth_char "0123456789abcdef" n

-- a character inside a literal that is quoted by the character `q`
escape : ℕ → Char → String
unfolding hex_digit
escape q c =
    let n = code c in
    if nat_eq n 92
    then "\\\\"
    else if nat_eq n q
    then "\\" <> String.◌∷◌ c String.[]
    else if nat_eq n 10
    then "\\n"
    else if nat_eq n 13
    then "\\r"
    else if nat_eq n 9
    then "\\t"
    else if ltb n 32 || nat_eq n 127
    then "\\x" <> hex_digit (n / 16) <> hex_digit (n % 16)
    else String.◌∷◌ c String.[]

escape_all : ℕ → String → String
unfolding escape
escape_all q String.[] = ""
escape_all q (String.◌∷◌ c s) = escape q c <> escape_all q s

-- `repr(s)`: double quotes only where the text has a single quote and no double one
unfoldable pub quote : String → String
unfolding has_char escape_all
quote s =
    if has_char 39 s && not (has_char 34 s)
    then "\"" <> escape_all 34 s <> "\""
    else "'" <> escape_all 39 s <> "'"

unfoldable mutual
  unfolding quote

  -- `repr(v)`
  pub repr : Value → String
  repr null = "None"
  repr (flag true) = "True"
  repr (flag false) = "False"
  repr (text s) = quote s
  repr (scalar _ shown _) = shown
  repr (list xs) = "[" <> repr_items xs <> "]"
  repr (dict fs) = "{" <> repr_fields fs <> "}"

  pub repr_items : Items → String
  repr_items no_item = ""
  repr_items (item v no_item) = repr v
  repr_items (item v (item w xs)) = repr v <> ", " <> repr_items (item w xs)

  pub repr_fields : Fields → String
  repr_fields no_field = ""
  repr_fields (field k v no_field) = quote k <> ": " <> repr v
  repr_fields (field k v (field j w fs)) =
      quote k <> ": " <> repr v <> ", " <> repr_fields (field j w fs)

-- `str(v)`
unfoldable pub str : Value → String
unfolding repr
str (text s) = s
str null = repr null
str (flag b) = repr (flag b)
str (scalar name shown b) = shown
str (list xs) = repr (list xs)
str (dict fs) = repr (dict fs)
