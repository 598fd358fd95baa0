-- ===== src/Validation/Outcomes.antt =====
-- What the checks of `Validator` let through.
use openvair_rde_linter.Base.{
  String, Bool, true, false, not, ◌≡◌, refl, sym, ◌∙◌, ap, ◌↔◌, Option, none, some, List, [], ◌∷◌,
  map, arith, code, nat_eq, contains, string_eq, String-discrete, if◌then◌else◌, subst,
}
use openvair_rde_linter.Base.Dict
use openvair_rde_linter.Base.Dict.{Dict}
use openvair_rde_linter.Result.{Exn, ok, err, returns, ok-injective, bind_returns}
use openvair_rde_linter.Value.{Value, null, text}
use openvair_rde_linter.Validation.{
  is_forbidden, any_forbidden, special_characters_validate, Schema, corrupted_field,
  corrupted_fields, create_corrupted_data, validate_object, validate_objects,
}

-- the text with its slashes left out
unfoldable pub without_slashes : String → String
without_slashes String.[] = String.[]
without_slashes (String.◌∷◌ c value) =
    let rest = without_slashes value in if nat_eq (code c) b'/' then rest else String.◌∷◌ c rest

any_forbidden-without_slashes :
    (value : String) → any_forbidden false (without_slashes value) ≡ any_forbidden true value
unfolding any_forbidden without_slashes is_forbidden
any_forbidden-without_slashes String.[] = refl
any_forbidden-without_slashes (String.◌∷◌ c value) =
    ground (arith, any_forbidden-without_slashes value)

returns-validate :
    (value : String) (allow_slash : Bool)
    → returns (special_characters_validate value allow_slash)
      ≡ not (any_forbidden allow_slash value)
unfolding special_characters_validate
returns-validate value allow_slash = ground arith

-- With `allow_slash`, a text is let through exactly if the text without its slashes is let through
-- when slashes are not allowed.
pub special_characters_validate_slash :
    (value : String)
    → returns (special_characters_validate value true)
      ≡ returns (special_characters_validate (without_slashes value) false)
special_characters_validate_slash value =
    returns-validate value true
    ∙ ap not (sym (any_forbidden-without_slashes value))
    ∙ sym (returns-validate (without_slashes value) false)

cons_head {ℓ} : {A : Type ℓ} {a b : A} {xs ys : List A} → (a ∷ xs) ≡ (b ∷ ys) → a ≡ b
cons_head h = cc

cons_tail {ℓ} : {A : Type ℓ} {a b : A} {xs ys : List A} → (a ∷ xs) ≡ (b ∷ ys) → xs ≡ ys
cons_tail h = cc

module _ {ℓ} {T : Type ℓ} (pydantic_schema : Schema T) where
  -- the model of an object, or the stand-in that has only its id
  abbrev pub model_or_stand_in : Dict Value → T
  model_or_stand_in object = elim (pydantic_schema.model_validate object) [
    | some model ↦ model
    | none ↦ pydantic_schema.model_construct (create_corrupted_data pydantic_schema object)
  ]

  validate_object_skip :
      (object : Dict Value)
      → validate_object pydantic_schema true object ≡ ok (model_or_stand_in object)
  unfolding validate_object
  validate_object_skip object = ground arith

  -- When corrupted objects are replaced, validate_objects returns for every list of objects, one
  -- model for each in order: the validated one, or one constructed from the corrupted payload.
  pub validate_objects_skip :
      (objects : List (Dict Value))
      → validate_objects pydantic_schema objects true ≡ ok (map model_or_stand_in objects)
  unfolding validate_objects
  validate_objects_skip [] = refl
  validate_objects_skip (object ∷ objects) =
      rw (validate_object_skip object, validate_objects_skip objects) refl

  get-corrupted_fields :
      (object : Dict Value) (names : List String) (f : String)
      → Dict.get (corrupted_fields pydantic_schema object names) f
        ≡ (if contains names f then some (corrupted_field pydantic_schema object f) else none)
  unfolding corrupted_fields Dict.get
  get-corrupted_fields object [] f = refl
  get-corrupted_fields object (name ∷ names) f = ground (arith, get-corrupted_fields object names f)

  -- The payload of a corrupted object has an entry exactly for each field of the schema. That of
  -- `id`, if it is a field, is the object's own id, or null if it has none, and that of `status`
  -- says that the object is corrupted.
  pub create_corrupted_data_lem :
      (object : Dict Value)
      → ((f : String)
          → Dict.has_key (create_corrupted_data pydantic_schema object) f
            ≡ contains pydantic_schema.model_fields f)
        × (Dict.get (create_corrupted_data pydantic_schema object) "id" ≡ (
            if contains pydantic_schema.model_fields "id"
            then some (Dict.get_or object "id" null)
            else none))
        × (Dict.get (create_corrupted_data pydantic_schema object) "status" ≡ (
            if contains pydantic_schema.model_fields "status"
            then some (text "corrupted object")
            else none))
  unfolding create_corrupted_data Dict.has_key corrupted_field String-discrete
  create_corrupted_data_lem object = (
    λ f. ground (arith, get-corrupted_fields object pydantic_schema.model_fields f),
    get-corrupted_fields object pydantic_schema.model_fields "id",
    get-corrupted_fields object pydantic_schema.model_fields "status",
  )

  validate_object-strict :
      (object : Dict Value) (model : T)
      → (validate_object pydantic_schema false object ≡ ok model)
        ↔ (pydantic_schema.model_validate object ≡ some model)
  unfolding validate_object
  validate_object-strict object model = by_outcome (pydantic_schema.model_validate object)
    where
      by_outcome :
          (o : Option T)
          → ((elim o [ some m ↦ ok m | none ↦ err Exn.validation_error ]) ≡ ok model)
            ↔ (o ≡ some model)
      by_outcome none = (λ h. cc, λ h. cc)
      by_outcome (some m) = (λ h. ap some (ok-injective h), λ h. cc)

  models_of_returned :
      (objects : List (Dict Value)) (models : List T)
      → validate_objects pydantic_schema objects false ≡ ok models
      → map pydantic_schema.model_validate objects ≡ map some models
  unfolding validate_objects
  models_of_returned [] models h = ap (map some) (ok-injective h)
  models_of_returned (object ∷ objects) models h =
      let (model, first, rest) = bind_returns (validate_object pydantic_schema false object) h in
      let (others, second, whole) =
        bind_returns (validate_objects pydantic_schema objects false) rest in
      subst (λ ms. map pydantic_schema.model_validate (object ∷ objects) ≡ map some ms)
        (ok-injective whole)
        (rw
          ((validate_object-strict object model).0 first, models_of_returned objects others second)
          refl)

  returned_of_models :
      (objects : List (Dict Value)) (models : List T)
      → map pydantic_schema.model_validate objects ≡ map some models
      → validate_objects pydantic_schema objects false ≡ ok models
  unfolding validate_objects
  returned_of_models [] [] h = refl
  returned_of_models [] (model ∷ models) h = cc
  returned_of_models (object ∷ objects) [] h = cc
  returned_of_models (object ∷ objects) (model ∷ models) h =
      rw
        (
          (validate_object-strict object model).1 (cons_head h),
          returned_of_models objects models (cons_tail h),
        )
        refl

  -- When they are not replaced, validate_objects returns a list of models exactly if every object
  -- is valid and those are their models, in order.
  pub validate_objects_strict :
      (objects : List (Dict Value)) (models : List T)
      → (validate_objects pydantic_schema objects false ≡ ok models)
        ↔ (map pydantic_schema.model_validate objects ≡ map some models)
  validate_objects_strict objects models =
      (models_of_returned objects models, returned_of_models objects models)
