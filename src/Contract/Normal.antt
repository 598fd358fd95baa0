-- ===== src/Contract/Normal.antt =====
-- contract/spec_document.py: the normal form that `_normalize_layer` gives a layer.
use openvair_rde_linter.Base.{
  String, true, false, ◌||◌, ◌≡◌, refl, String-discrete, Option, none, [], ◌∷◌, ◌++◌, contains,
  ◌==◌, string_eq, arith, Bool-cases, inl, inr, subst, eq_of_==,
}
use openvair_rde_linter.Base.Dict
use openvair_rde_linter.Base.Dict.{Dict}
use openvair_rde_linter.Value.{Value}
use openvair_rde_linter.Contract.Layers.{
  layer_uses_rrd_shorthand, rewritten, rewritten_http, other_entries, normalize_layer,
  required_class, required_file, layer_keys,
}

has_key-append :
    (d e : Dict Value) (k : String)
    → Dict.has_key (d ++ e) k ≡ (Dict.has_key d k || Dict.has_key e k)
unfolding Dict.has_key
has_key-append [] e k = refl
has_key-append ((j, v) ∷ d) e k = ground (arith, has_key-append d e k)

has_key-rewritten :
    (convert : String × Value → Value) (short present : Option Value) (canonical k : String)
    → (canonical == k) ≡ false
    → Dict.has_key (rewritten convert short canonical present) k ≡ false
unfolding rewritten Dict.has_key
has_key-rewritten convert none none canonical k ne = refl
has_key-rewritten convert _ _ canonical k ne = ground arith

has_key-rewritten_http :
    (http present : Option Value) (k : String)
    → ("required_http_endpoints" == k) ≡ false
    → Dict.has_key (rewritten_http http present) k ≡ false
unfolding rewritten_http Dict.has_key
has_key-rewritten_http none none k ne = refl
has_key-rewritten_http _ _ k ne = ground arith

has_key-other_entries :
    (d : Dict Value) (k : String)
    → contains layer_keys k ≡ true
    → Dict.has_key (other_entries d) k ≡ false
unfolding other_entries
has_key-other_entries [] k listed = unfold Dict.has_key in refl
has_key-other_entries ((j, v) ∷ d) k listed = elim (Bool-cases (contains layer_keys j)) [
  | inl e ↦ rw e (has_key-other_entries d k listed)
  | inr e ↦ elim (Bool-cases (k == j)) [
    | inl same ↦ cc (e, subst (λ x. contains layer_keys x ≡ true) (eq_of_== k j same) listed)
    | inr differ ↦ rw e (rw Dict.has_key-cons (rw differ (has_key-other_entries d k listed)))
  ]
]

-- A shorthand key is none of the canonical keys.
abbrev IsShorthand : String → Type 0
IsShorthand k =
    (contains layer_keys k ≡ true)
    × (("required_classes" == k) ≡ false)
    × (("required_module_functions" == k) ≡ false)
    × (("required_http_endpoints" == k) ≡ false)

normal_has_no :
    (d : Dict Value) (k : String)
    → IsShorthand k
    → layer_uses_rrd_shorthand d ≡ true
    → Dict.has_key (normalize_layer d) k ≡ false
unfolding normalize_layer
normal_has_no d k (listed, classes, files, http) short = rw short (
    rw has_key-append (
      rw
        (has_key-rewritten required_class (Dict.get d "classes") (Dict.get d "required_classes")
          "required_classes" k classes)
        (rw has_key-append (
          rw
            (has_key-rewritten required_file (Dict.get d "module_functions")
              (Dict.get d "required_module_functions") "required_module_functions" k files)
            (rw has_key-append (
              rw (
                has_key-rewritten_http (Dict.get d "http") (Dict.get d "required_http_endpoints") k
                    http,
                has_key-other_entries d k listed,
              )))))))

-- The result of `normalize_layer` has no shorthand key.
pub normal_uses_no_shorthand :
    (d : Dict Value) → layer_uses_rrd_shorthand (normalize_layer d) ≡ false
unfolding layer_uses_rrd_shorthand String-discrete
normal_uses_no_shorthand d = elim (Bool-cases (layer_uses_rrd_shorthand d)) [
  | inl short ↦ rw (
    normal_has_no d "classes" (refl, refl, refl, refl) short,
    normal_has_no d "module_functions" (refl, refl, refl, refl) short,
    normal_has_no d "http" (refl, refl, refl, refl) short,
  )
  | inr plain ↦ unfold normalize_layer in rw plain plain
]

plain_unchanged : (d : Dict Value) → layer_uses_rrd_shorthand d ≡ false → normalize_layer d ≡ d
unfolding normalize_layer
plain_unchanged d plain = rw plain

-- Normalising a layer a second time changes nothing.
pub normalize_layer_idem :
    (d : Dict Value) → normalize_layer (normalize_layer d) ≡ normalize_layer d
normalize_layer_idem d = plain_unchanged (normalize_layer d) (normal_uses_no_shorthand d)
