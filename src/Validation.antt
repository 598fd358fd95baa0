-- ===== src/Validation.antt =====
-- openvair/libs/validation/validators.py: the checks of `Validator`. A Pydantic schema is a
-- parameter, by what the code asks of it.
pub mod Outcomes
use openvair_rde_linter.Base.{
  ℕ, String, Bool, true, false, not, ◌&&◌, ◌||◌, Option, none, some, List, [], ◌∷◌, code, nat_eq,
  ◌==◌, string_eq, if◌then◌else◌,
}
use openvair_rde_linter.Base.Dict
use openvair_rde_linter.Base.Dict.{Dict}
use openvair_rde_linter.Result.{Exn, Result, ok, err, ◌>>=◌}
use openvair_rde_linter.Value.{Value, null, text}

abbrev pub special_characters : String
special_characters = "!@#$%^&*()+?=<>/~{}|'\":;"

-- `c in chars`
unfoldable pub has_code : String → ℕ → Bool
has_code String.[] c = false
has_code (String.◌∷◌ d chars) c = nat_eq c (code d) || has_code chars c

-- `c in forbidden_chars`
unfoldable pub is_forbidden : Bool → ℕ → Bool
unfolding has_code
is_forbidden allow_slash c = has_code special_characters c && not (allow_slash && nat_eq c b'/')

-- `any(c in forbidden_chars for c in value)`
unfoldable pub any_forbidden : Bool → String → Bool
unfolding is_forbidden
any_forbidden allow_slash String.[] = false
any_forbidden allow_slash (String.◌∷◌ c value) =
    is_forbidden allow_slash (code c) || any_forbidden allow_slash value

unfoldable pub special_characters_validate : String → Bool → Result String
unfolding any_forbidden
special_characters_validate value allow_slash =
    if any_forbidden allow_slash value then err Exn.value_error else ok value

-- A Pydantic model class: `model_validate` (`none` for a ValidationError), `model_construct`, the
-- names of its fields, and what the adapter of a field's annotation makes of `None`.
pub record Schema {ℓ} (T : Type ℓ) : Type ℓ where
  pub model_validate : Dict Value → Option T
  pub model_construct : Dict Value → T
  pub model_fields : List String
  pub validate_none : String → Option Value

module _ {ℓ} {T : Type ℓ} (pydantic_schema : Schema T) where
  -- the payload's value of one field
  unfoldable pub corrupted_field : Dict Value → String → Value
  unfolding Dict.get_or
  corrupted_field object field_name =
      if field_name == "id"
      then Dict.get_or object "id" null
      else if field_name == "status"
      then text "corrupted object"
      else elim (pydantic_schema.validate_none field_name) [ none ↦ null | some v ↦ v ]

  -- the loop over the fields, whose names differ
  unfoldable pub corrupted_fields : Dict Value → List String → Dict Value
  unfolding corrupted_field
  corrupted_fields object [] = []
  corrupted_fields object (field_name ∷ names) =
      (field_name, corrupted_field object field_name) ∷ corrupted_fields object names

  unfoldable pub create_corrupted_data : Dict Value → Dict Value
  unfolding corrupted_fields
  create_corrupted_data object = corrupted_fields object pydantic_schema.model_fields

  -- one round of the loop of `validate_objects`
  unfoldable pub validate_object : Bool → Dict Value → Result T
  unfolding create_corrupted_data
  validate_object skip_corrupted_object object = elim (pydantic_schema.model_validate object) [
    | some validated_object ↦ ok validated_object
    | none ↦
        if skip_corrupted_object
        then ok (pydantic_schema.model_construct (create_corrupted_data object))
        else err Exn.validation_error
  ]

  unfoldable pub validate_objects : List (Dict Value) → Bool → Result (List T)
  unfolding validate_object
  validate_objects [] skip_corrupted_object = ok []
  validate_objects (object ∷ objects) skip_corrupted_object = do
    validated ← validate_object skip_corrupted_object object
    rest ← validate_objects objects skip_corrupted_object
    ok (validated ∷ rest)
