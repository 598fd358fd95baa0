-- ===== src/Http/RouteLaws.antt =====
-- What `join_fastapi_route_path` returns.
use text.Mathlib.TextLemmas.{cons-append}
use openvair_rde_linter.Base.{
  ℕ, String, Char, code, ◌<>◌, true, false, ◌≡◌, refl, sym, ap, ◌∙◌, inl, inr, Option, none, some,
  nat_eq, Bool-cases, begins_with, is_empty, lstrip, rstrip, rstrip_cons, strip, if◌then◌else◌,
}
use openvair_rde_linter.Http.RoutePath.{
  after_slash, with_slash, is_blank_prefix, join_fastapi_route_path,
}

rstrip-rstrip_cons :
    (c : ℕ) (d : Char) (s : String)
    → rstrip c s ≡ s
    → rstrip c (rstrip_cons c d s) ≡ rstrip_cons c d s
unfolding rstrip rstrip_cons
rstrip-rstrip_cons c d (String.◌∷◌ e s) h = ap (rstrip_cons c d) h
rstrip-rstrip_cons c d String.[] h = elim (Bool-cases (nat_eq (code d) c)) [
  | inl same ↦ rw same refl
  | inr differ ↦ rw differ (rw differ refl)
]

rstrip-cons :
    (c : ℕ) (d : Char) (s : String) → rstrip c (String.◌∷◌ d s) ≡ rstrip_cons c d (rstrip c s)
unfolding rstrip
rstrip-cons c d s = refl

rstrip_idem : (c : ℕ) (s : String) → rstrip c (rstrip c s) ≡ rstrip c s
rstrip_idem c (String.◌∷◌ d s) =
    ap (rstrip c) (rstrip-cons c d s)
    ∙ (rstrip-rstrip_cons c d (rstrip c s) (rstrip_idem c s) ∙ sym (rstrip-cons c d s))
rstrip_idem c String.[] = unfold rstrip in refl

-- In front of a stripped text that is not empty, `rstrip` takes nothing away.
rstrip-after :
    (d : Char) (c : ℕ) (t : String)
    → rstrip c t ≡ t
    → is_empty t ≡ false
    → rstrip c (String.◌∷◌ d t) ≡ String.◌∷◌ d t
unfolding rstrip_cons is_empty
rstrip-after d c String.[] h e = cc
rstrip-after d c (String.◌∷◌ b t) h e = rstrip-cons c d (String.◌∷◌ b t) ∙ ap (rstrip_cons c d) h

strip_stripped : (c : ℕ) (s : String) → rstrip c (strip c s) ≡ strip c s
unfolding strip
strip_stripped c s = rstrip_idem c (lstrip c s)

with_slash_begins : (s : String) → begins_with b'/' (with_slash s) ≡ true
unfolding with_slash begins_with
with_slash_begins s = elim (Bool-cases (begins_with b'/' s)) [
  | inl there ↦ rw there there
  | inr missing ↦ rw missing refl
]

not_empty_of_begins : (c : ℕ) (s : String) → begins_with c s ≡ true → is_empty s ≡ false
unfolding begins_with is_empty
not_empty_of_begins c String.[] h = cc
not_empty_of_begins c (String.◌∷◌ d s) h = refl

blank_prefix : (prefix : String) → is_blank_prefix (some prefix) ≡ is_empty (strip b'/' prefix)
unfolding is_blank_prefix is_empty strip
blank_prefix String.[] = refl
blank_prefix (String.◌∷◌ c s) = refl

-- With a prefix, the path is the prefix without the slashes around it, between a slash in front and
-- the route path, which gets a slash in front if it has none; a prefix of slashes alone counts as
-- none. So one slash stands before the prefix and no slash of the prefix's end is kept.
pub join_fastapi_route_path_lem :
    (prefix route_path : String)
    → join_fastapi_route_path (some prefix) route_path ≡ (
        if is_empty (strip b'/' prefix)
        then with_slash route_path
        else after_slash (strip b'/' prefix) <> with_slash route_path)
unfolding join_fastapi_route_path
join_fastapi_route_path_lem prefix route_path = elim (Bool-cases (is_empty (strip b'/' prefix))) [
  | inl blank ↦
      rw (blank_prefix prefix, blank)
        (rw (not_empty_of_begins b'/' (with_slash route_path) (with_slash_begins route_path)) refl)
  | inr full ↦
      rw (blank_prefix prefix, full)
        (rw (rstrip-after "/" b'/' (strip b'/' prefix) (strip_stripped b'/' prefix) full) refl)
]

begins_with-append : (c : ℕ) (s t : String) → begins_with c s ≡ true → begins_with c (s <> t) ≡ true
unfolding begins_with
begins_with-append c String.[] t h = cc
begins_with-append c (String.◌∷◌ d s) t h = rw cons-append h

-- Every joined path begins with a slash, whatever the prefix and the route path.
pub join_fastapi_route_path_begins :
    (prefix : Option String) (route_path : String)
    → begins_with b'/' (join_fastapi_route_path prefix route_path) ≡ true
join_fastapi_route_path_begins none route_path =
    unfold join_fastapi_route_path is_blank_prefix in
    rw (not_empty_of_begins b'/' (with_slash route_path) (with_slash_begins route_path))
      (with_slash_begins route_path)
join_fastapi_route_path_begins (some prefix) route_path =
    rw (join_fastapi_route_path_lem prefix route_path)
      (elim (Bool-cases (is_empty (strip b'/' prefix))) [
        | inl blank ↦ rw blank (with_slash_begins route_path)
        | inr full ↦ rw full (
            begins_with-append b'/' (after_slash (strip b'/' prefix)) (with_slash route_path)
              (unfold begins_with in refl))
      ])
