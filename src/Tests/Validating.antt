-- ===== src/Tests/Validating.antt =====
-- A schema with a name, an id and a status, and one object of two that fits it.
use openvair_rde_linter.Base.{
  String, true, false, ◌≡◌, refl, ◌↔◌, none, some, [], ◌∷◌, map, string_eq, String-discrete,
}
use openvair_rde_linter.Base.Dict
use openvair_rde_linter.Base.Dict.{Dict}
use openvair_rde_linter.Result.{Exn, ok, err}
use openvair_rde_linter.Value.{Value, text, flag, as_text}
use openvair_rde_linter.Validation.{special_characters_validate, Schema, validate_objects}
use openvair_rde_linter.Validation.Outcomes.{validate_objects_strict}

slash_run : special_characters_validate "a/b" false ≡ err Exn.value_error
unfolding special_characters_validate
slash_run = refl

-- The model of an object is its name, or its status if it is constructed.
abbrev schema : Schema String
schema = record {
  model_validate = λ object. elim (Dict.get object "name") [ none ↦ none | some v ↦ as_text v ];
  model_construct = λ object. elim (Dict.get object "status") [ none ↦ "" | some _ ↦ "corrupted" ];
  model_fields = "id" ∷ "name" ∷ "status" ∷ [];
  validate_none = λ _. none;
}

abbrev alice : Dict Value
alice = ("id", text "1") ∷ ("name", text "Alice") ∷ []

abbrev nameless : Dict Value
nameless = ("id", text "2") ∷ ("name", flag true) ∷ []

skip_run : validate_objects schema (alice ∷ nameless ∷ []) true ≡ ok ("Alice" ∷ "corrupted" ∷ [])
unfolding validate_objects String-discrete Dict.get
skip_run = refl

validate_objects_strict_example :
    (validate_objects schema (alice ∷ []) false ≡ ok ("Alice" ∷ []))
    ↔ (map schema.model_validate (alice ∷ []) ≡ map some ("Alice" ∷ []))
validate_objects_strict_example = validate_objects_strict schema (alice ∷ []) ("Alice" ∷ [])
