-- ===== src/Paths/Layers.antt =====
-- core/ast_specs.py `infer_layer` on what `normalize_rel_path` makes of a path.
use text.Mathlib.TextLemmas.{cons-append, nil-append}
use openvair_rde_linter.Base.{
  String, ◌<>◌, Char, code, Bool, true, false, not, ◌&&◌, ◌≡◌, refl, Option, none, some, List, [],
  ◌∷◌, arith, All, keep_if, begins_with, is_empty, split, prepend, join, nat_eq, contains, ◌==◌,
  string_eq, if◌then◌else◌, ℕ, zero, suc,
}
use openvair_rde_linter.Result.{Result, ok}
use openvair_rde_linter.Paths.{
  leading_slashes, root_of, FilePath, is_segment, parse_path, parts, as_posix, normalize_rel_path,
  first_part, known_layer_names, infer_layer,
}

-- no slash in the text
abbrev slashless : String → Bool
slashless String.[] = true
slashless (String.◌∷◌ c s) = not (nat_eq (code c) b'/') && slashless s

abbrev IsSlashless : String → Type 0
IsSlashless s = slashless s ≡ true

prepend-All :
    (c : Char) (pieces : List String)
    → nat_eq (code c) b'/' ≡ false
    → All IsSlashless pieces
    → All IsSlashless (prepend c pieces)
unfolding prepend
prepend-All c [] other h = ground arith
prepend-All c (piece ∷ pieces) other h = ground arith

split-All : (s : String) → All IsSlashless (split b'/' s)
unfolding split
split-All String.[] = (refl, tt)
split-All (String.◌∷◌ c s) = ground (arith, prepend-All c (split b'/' s), split-All s)

split-slashless : (s : String) → IsSlashless s → split b'/' s ≡ s ∷ []
unfolding split prepend
split-slashless String.[] h = refl
split-slashless (String.◌∷◌ c s) h = ground (arith, split-slashless s)

split-slash : (s t : String) → IsSlashless s → split b'/' (s <> String.◌∷◌ "/" t) ≡ s ∷ split b'/' t
unfolding split prepend
split-slash String.[] t h = rw nil-append refl
split-slash (String.◌∷◌ c s) t h = rw cons-append (ground (arith, split-slash s t))

keep_if-All :
    (f p : String → Bool) (pieces : List String)
    → All (λ s. f s ≡ true) pieces
    → All (λ s. f s ≡ true) (keep_if p pieces)
unfolding keep_if
keep_if-All f p [] h = tt
keep_if-All f p (s ∷ pieces) h = ground (arith, keep_if-All f p pieces h.1)

keep_if-kept : (p : String → Bool) (pieces : List String) → All (λ s. p s ≡ true) (keep_if p pieces)
unfolding keep_if
keep_if-kept p [] = tt
keep_if-kept p (s ∷ pieces) = ground (arith, keep_if-kept p pieces)

abbrev HasPart : FilePath → Type 0
HasPart p = (first : String) × (rest : List String) × (parts p ≡ first ∷ rest)

segment-HasPart :
    (root s : String) (segments : List String)
    → HasPart (record { root = root; segments = s ∷ segments })
unfolding parts is_empty
segment-HasPart String.[] s segments = (s, segments, refl)
segment-HasPart (String.◌∷◌ c root) s segments = (String.◌∷◌ c root, s ∷ segments, refl)

-- The path of a text that begins with a slash has its root.
rooted-HasPart : (t : String) → begins_with b'/' t ≡ true → HasPart (parse_path t)
unfolding parts parse_path leading_slashes begins_with root_of is_empty
rooted-HasPart String.[] h = cc
rooted-HasPart (String.◌∷◌ c s) h =
    rw h (by_slashes (leading_slashes s) (keep_if is_segment (split b'/' s)))
  where
    by_slashes :
        (n : ℕ) (segments : List String)
        → HasPart (record { root = root_of (suc n); segments = segments })
    by_slashes zero segments = ("/", segments, refl)
    by_slashes (suc zero) segments = ("//", segments, refl)
    by_slashes (suc (suc n)) segments = ("/", segments, refl)

parse-HasPart :
    (t s : String) (pieces : List String)
    → split b'/' t ≡ s ∷ pieces
    → is_segment s ≡ true
    → HasPart (parse_path t)
unfolding parse_path keep_if
parse-HasPart t s pieces cut real =
    rw cut (rw real (segment-HasPart (root_of (leading_slashes t)) s (keep_if is_segment pieces)))

-- The segments of a path, joined again, give one.
joined-HasPart :
    (s : String) (rest : List String)
    → is_segment s ≡ true
    → IsSlashless s
    → HasPart (parse_path (join "/" (s ∷ rest)))
unfolding join
joined-HasPart s [] real whole = parse-HasPart s s [] (split-slashless s whole) real
joined-HasPart s (next ∷ rest) real whole =
    let cut = split-slash s (join "/" (next ∷ rest)) whole in
    parse-HasPart _ s (split b'/' (join "/" (next ∷ rest))) cut real

slash-HasPart :
    (slashes t : String) → begins_with b'/' slashes ≡ true → HasPart (parse_path (slashes <> t))
unfolding begins_with
slash-HasPart String.[] t h = cc
slash-HasPart (String.◌∷◌ c s) t h = rooted-HasPart (String.◌∷◌ c s <> t) (rw cons-append h)

-- The text of a path that has a part is one whose path has a part.
as_posix-HasPart :
    (n : ℕ) (segments : List String)
    → All IsSlashless segments
    → All (λ s. is_segment s ≡ true) segments
    → HasPart (record { root = root_of n; segments = segments })
    → HasPart (parse_path (as_posix (record { root = root_of n; segments = segments })))
unfolding as_posix parts root_of is_empty begins_with
as_posix-HasPart zero [] whole real (_, _, h) = cc
as_posix-HasPart zero (s ∷ segments) whole real part =
    rw nil-append (joined-HasPart s segments real.0 whole.0)
as_posix-HasPart (suc zero) segments whole real part = slash-HasPart "/" (join "/" segments) refl
as_posix-HasPart (suc (suc zero)) segments whole real part =
    slash-HasPart "//" (join "/" segments) refl
as_posix-HasPart (suc (suc (suc n))) segments whole real part =
    slash-HasPart "/" (join "/" segments) refl

abbrev pub IsPlaced : Result (Option String) → Type 0
IsPlaced r = (layer : Option String) × (r ≡ ok layer)

part-IsPlaced : (t : String) → HasPart (parse_path t) → IsPlaced (infer_layer t)
unfolding infer_layer first_part
part-IsPlaced t (first, rest, h) =
    let layer = if contains known_layer_names first then some first else none in
    (if is_empty t then none else layer, ground arith)

-- `infer_layer` returns on every path that has been normalized.
pub normalized-IsPlaced : (path : String) → IsPlaced (infer_layer (normalize_rel_path path))
unfolding normalize_rel_path parse_path infer_layer is_empty
normalized-IsPlaced path = by_parts (parts q) refl
  where
    is_kept : String → Bool
    is_kept part = not (part == ".")

    found : List String
    found = split b'/' path

    q : FilePath
    q = record {
      root = root_of (leading_slashes path);
      segments = keep_if is_kept (keep_if is_segment found);
    }

    whole : All (λ s. slashless s ≡ true) q.segments
    whole =
        keep_if-All slashless is_kept (keep_if is_segment found)
          (keep_if-All slashless is_segment found (split-All path))

    real : All (λ s. is_segment s ≡ true) q.segments
    real = keep_if-All is_segment is_kept (keep_if is_segment found) (keep_if-kept is_segment found)

    by_parts :
        (ps : List String)
        → parts q ≡ ps
        → IsPlaced (infer_layer (elim ps [ [] ↦ "" | _ ∷ _ ↦ as_posix q ]))
    by_parts [] h = (none, refl)
    by_parts (first ∷ rest) h =
        part-IsPlaced (as_posix q)
          (as_posix-HasPart (leading_slashes path) q.segments whole real (first, rest, h))
