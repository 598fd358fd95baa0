-- ===== src/Base/Text.antt =====
-- Python's operations on texts, over the characters of a text.
use Prim.Native.Nat.{ℕ, zero, suc, ◌-◌}
use Prim.Native.Char.{Char, code}
use Prim.Native.String.{String, ◌++◌ as ◌<>◌}
use mathlib.Core.Bool.{Bool, true, false, ◌&&◌, ◌||◌}
use mathlib.Core.List.{List, [], ◌∷◌}
use openvair_rde_linter.Base.Equality.{nat_eq, ltb, leb, if◌then◌else◌}

-- `s.startswith(c)` for one character
unfoldable pub begins_with : ℕ → String → Bool
begins_with c String.[] = false
begins_with c (String.◌∷◌ d s) = nat_eq (code d) c

-- `s.startswith(t)`
unfoldable pub starts_with : String → String → Bool
starts_with s String.[] = true
starts_with String.[] (String.◌∷◌ d t) = false
starts_with (String.◌∷◌ c s) (String.◌∷◌ d t) =
    if nat_eq (code c) (code d) then starts_with s t else false

unfoldable pub is_empty : String → Bool
is_empty String.[] = true
is_empty (String.◌∷◌ _ _) = false

-- `s.lstrip(c)`
unfoldable pub lstrip : ℕ → String → String
lstrip c String.[] = String.[]
lstrip c (String.◌∷◌ d s) =
    let rest = lstrip c s in if nat_eq (code d) c then rest else String.◌∷◌ d s

-- a character in front of a stripped rest: it goes too if the rest is empty
unfoldable pub rstrip_cons : ℕ → Char → String → String
rstrip_cons c d String.[] = if nat_eq (code d) c then String.[] else String.◌∷◌ d String.[]
rstrip_cons c d (String.◌∷◌ b s) = String.◌∷◌ d (String.◌∷◌ b s)

-- `s.rstrip(c)`
unfoldable pub rstrip : ℕ → String → String
unfolding rstrip_cons
rstrip c String.[] = String.[]
rstrip c (String.◌∷◌ d s) = rstrip_cons c d (rstrip c s)

-- `s.strip(c)`
unfoldable pub strip : ℕ → String → String
unfolding lstrip rstrip
strip c s = rstrip c (lstrip c s)

-- a character in front of the first piece
unfoldable pub prepend : Char → List String → List String
prepend d [] = String.◌∷◌ d String.[] ∷ []
prepend d (piece ∷ pieces) = String.◌∷◌ d piece ∷ pieces

-- `s.split(c)`
unfoldable pub split : ℕ → String → List String
unfolding prepend
split c String.[] = String.[] ∷ []
split c (String.◌∷◌ d s) =
    if nat_eq (code d) c then String.[] ∷ split c s else prepend d (split c s)

-- `c.join(pieces)`
unfoldable pub join : Char → List String → String
join c [] = String.[]
join c (piece ∷ []) = piece
join c (piece ∷ next ∷ pieces) = piece <> String.◌∷◌ c (join c (next ∷ pieces))

-- the small letters, by the distance of the capital from `A`
abbrev smalls : List Char
smalls =
    "a" ∷ "b" ∷ "c" ∷ "d" ∷ "e" ∷ "f" ∷ "g" ∷ "h" ∷ "i" ∷ "j" ∷ "k" ∷ "l" ∷ "m" ∷ "n" ∷ "o" ∷ "p"
    ∷ "q" ∷ "r" ∷ "s" ∷ "t" ∷ "u" ∷ "v" ∷ "w" ∷ "x" ∷ "y" ∷ "z" ∷ []

-- the capital letters, by the distance of the small letter from `a`
abbrev capitals : List Char
capitals =
    "A" ∷ "B" ∷ "C" ∷ "D" ∷ "E" ∷ "F" ∷ "G" ∷ "H" ∷ "I" ∷ "J" ∷ "K" ∷ "L" ∷ "M" ∷ "N" ∷ "O" ∷ "P"
    ∷ "Q" ∷ "R" ∷ "S" ∷ "T" ∷ "U" ∷ "V" ∷ "W" ∷ "X" ∷ "Y" ∷ "Z" ∷ []

abbrev nth_or : List Char → ℕ → Char → Char
nth_or [] n default = default
nth_or (c ∷ cs) zero default = c
nth_or (c ∷ cs) (suc n) default = nth_or cs n default

upper_char : Char → Char
upper_char c = if ltb (code c) b'a' then c else nth_or capitals (code c - b'a') c

-- `s.upper()`, of ASCII letters
unfoldable pub upper : String → String
unfolding upper_char
upper String.[] = String.[]
upper (String.◌∷◌ c s) = String.◌∷◌ (upper_char c) (upper s)

lower_char : Char → Char
lower_char c = if ltb (code c) b'A' then c else nth_or smalls (code c - b'A') c

-- `s.lower()`, of ASCII letters
unfoldable pub lower : String → String
unfolding lower_char
lower String.[] = String.[]
lower (String.◌∷◌ c s) = String.◌∷◌ (lower_char c) (lower s)

-- ASCII white space, with the four separators from U+001C on
unfoldable pub is_space : ℕ → Bool
is_space n = (leb 9 n && leb n 13) || (leb 28 n && leb n 32)

unfoldable pub trim_left : String → String
unfolding is_space
trim_left String.[] = String.[]
trim_left (String.◌∷◌ c s) =
    let rest = trim_left s in if is_space (code c) then rest else String.◌∷◌ c s

unfoldable pub trim_cons : Char → String → String
unfolding is_space
trim_cons c String.[] = if is_space (code c) then String.[] else String.◌∷◌ c String.[]
trim_cons c (String.◌∷◌ d s) = String.◌∷◌ c (String.◌∷◌ d s)

unfoldable pub trim_right : String → String
unfolding trim_cons
trim_right String.[] = String.[]
trim_right (String.◌∷◌ c s) = trim_cons c (trim_right s)

-- `s.strip()`
unfoldable pub trim : String → String
unfolding trim_left trim_right
trim s = trim_right (trim_left s)
