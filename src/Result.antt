-- ===== src/Result.antt =====
-- Exceptions as values. A constructor of `Exn` is a builtin exception by its class, or the
-- class of a raise statement of the code, with the values that its message shows.
use openvair_rde_linter.Base.{◌≡◌, refl, String, Bool, true, false}

pub data Exn : Type 0 where
  attribute_error type_error index_error syntax_error : Exn
  key_error : String → Exn
  -- core/ast_specs.py
  sentinel_clash : String → Exn
  -- contract/spec_document.py
  no_rde_block no_layers no_feature empty_contract : Exn
  -- openvair/libs/validation/validators.py
  value_error validation_error : Exn
  -- openvair/modules/user/service_layer and the repository
  entity_not_found no_result_found multiple_results_found password_verify user_credentials : Exn
  not_super_user wrong_user_id user_exists unexpected_data user_does_not_exist : Exn
  -- openvair/libs/messaging
  rpc_call rpc_call_timeout : Exn
  -- openvair/modules/volume/service_layer
  unexpected_data_arguments volume_exists_on_storage volume_status volume_has_attachment : Exn
  storage_not_found storage_unavailable validate_arguments create_volume_data : Exn
  vm_power_state volume_has_not_storage : Exn
  -- openvair/modules/image/service_layer
  image_status image_has_attachment image_name_exists image_deleting : Exn
  image_has_same_attachment file_not_found image_unavailable : Exn
  -- openvair/modules/storage/service_layer
  storage_attribute storage_exists storage_has_objects storage_status device_does_not_exist : Exn
  storage_on_system_disk storage_on_system_partition delete_system_partition : Exn
  partition_has_storage empty_domain_storage stop_iteration : Exn
  -- openvair/modules/template/service_layer
  volume_retrieval storage_retrieval vm_retrieval volume_attach_to_active_vm integrity_error : Exn
  root_not_mapping unknown_layer layer_not_mapping bad_extension : String → Exn

pub data Result {ℓ} (A : Type ℓ) : Type ℓ where
  ok : A → Result A
  err : Exn → Result A

-- A statement after a call that may raise.
infixl 5 ◌>>=◌
abbrev pub ◌>>=◌ {ℓa ℓb} : {A : Type ℓa} {B : Type ℓb} → Result A → (A → Result B) → Result B
err raised >>= next = err raised
ok value >>= next = next value

-- The computation returns.
abbrev pub IsOk {ℓ} : {A : Type ℓ} → Result A → Type 0
IsOk (ok _) = Unit
IsOk (err _) = ⊥

pub IsOk-value {ℓ} : {A : Type ℓ} (r : Result A) → IsOk r → (a : A) × (r ≡ ok a)
IsOk-value (ok a) h = (a, refl)
IsOk-value (err e) h = absurd h

pub IsOk-bind {ℓ κ} :
    {A : Type ℓ} {B : Type κ} (m : Result A) (f : A → Result B)
    → IsOk m
    → ((a : A) → IsOk (f a))
    → IsOk (m >>= f)
IsOk-bind (ok a) f h k = k a
IsOk-bind (err e) f h k = h

-- What a chain that returns has gone through.
pub bind_returns {ℓa ℓb} :
    {A : Type ℓa} {B : Type ℓb} (first : Result A) {next : A → Result B} {out : B}
    → (first >>= next) ≡ ok out
    → (value : A) × (first ≡ ok value) × (next value ≡ ok out)
bind_returns (err raised) h = cc
bind_returns (ok value) h = (value, refl, h)

pub ok-injective {ℓ} : {A : Type ℓ} {a b : A} → ok a ≡ ok b → a ≡ b
ok-injective h = cc

-- A value came back, and no exception.
abbrev pub returns {ℓ} : {A : Type ℓ} → Result A → Bool
returns (ok value) = true
returns (err raised) = false
