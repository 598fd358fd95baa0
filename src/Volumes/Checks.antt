-- ===== src/Volumes/Checks.antt =====
-- openvair/modules/volume/service_layer/services.py: the checks that the methods make.
use openvair_rde_linter.Base.{
  ℕ, String, Bool, true, false, not, ◌&&◌, ◌||◌, ◌+◌, List, [], ◌∷◌, ◌==◌, string_eq, leb,
  or_default,
}
use openvair_rde_linter.Result.{Exn}
use openvair_rde_linter.Service.{
  answered, call_failed, timed_out, return, raise, raise_if, gets, await, ◌>>=◌, ◌>>◌,
}
use openvair_rde_linter.Volumes.{
  Status, Status-discrete, Attachment, Volume, StorageInfo, StorageReply, Environment, Run,
}
use mathlib.Core.Logic.{ite}

-- `status in statuses`
unfoldable pub is_in : Status → List Status → Bool
unfolding Status-discrete
is_in status [] = false
is_in status (s ∷ statuses) = ite (Status-discrete status s) true (is_in status statuses)

unfoldable pub check_volume_status : Status → List Status → Run (Unit {0})
unfolding is_in
check_volume_status status available_statuses =
    raise_if (not (is_in status available_statuses)) Exn.volume_status

unfoldable pub is_empty_list {ℓ} : {A : Type ℓ} → List A → Bool
is_empty_list [] = true
is_empty_list (_ ∷ _) = false

unfoldable pub check_volume_has_not_attachment : Volume → Run (Unit {0})
unfolding is_empty_list
check_volume_has_not_attachment volume =
    raise_if (not (is_empty_list volume.attachments)) Exn.volume_has_attachment

-- `get_by_name_and_storage(…) is not None`
unfoldable pub name_is_taken : List Volume → String → String → Bool
name_is_taken [] name storage_id = false
name_is_taken (v ∷ volumes) name storage_id =
    (v.name == name && v.storage_id == storage_id) || name_is_taken volumes name storage_id

unfoldable pub check_volume_exists_on_storage : String → String → Run (Unit {0})
unfolding name_is_taken
check_volume_exists_on_storage name storage_id = do
  taken ← gets (λ w. name_is_taken w.volumes name storage_id)
  raise_if taken Exn.volume_exists_on_storage

unfoldable pub storage_info : StorageReply → StorageInfo
unfolding or_default
storage_info reply = record {
  id = reply.id;
  name = reply.name;
  storage_type = reply.storage_type;
  status = reply.status;
  available_space = or_default reply.available 0;
  mount_point = or_default reply.mount_point "";
}

-- Both exceptions of the call become `StorageNotFoundException`.
unfoldable pub get_storage_info : Environment → String → Run StorageInfo
unfolding storage_info
get_storage_info env storage_id = elim (env.get_storage storage_id) [
  | answered reply ↦ return (storage_info reply)
  | call_failed ↦ raise Exn.storage_not_found
  | timed_out ↦ raise Exn.storage_not_found
]

unfoldable pub check_storage_on_availability : StorageInfo → Run (Unit {0})
check_storage_on_availability storage =
    raise_if (not (storage.status == "available")) Exn.storage_unavailable

-- `volume_size >= storage.available_space`, for a size that is `wanted - given`: it is below zero
-- if less is wanted than given.
unfoldable pub check_available_space_on_storage : ℕ → ℕ → StorageInfo → Run (Unit {0})
check_available_space_on_storage wanted given storage =
    raise_if (leb (given + storage.available_space) wanted) Exn.validate_arguments

unfoldable pub check_extended_size : ℕ → ℕ → Run (Unit {0})
check_extended_size old_size new_size = raise_if (leb new_size old_size) Exn.validate_arguments

unfoldable pub check_vm_power_state : Environment → String → Run (Unit {0})
unfolding or_default
check_vm_power_state env vm_id = do
  vm ← await (env.get_vm vm_id)
  raise_if (not (or_default vm.power_state "" == "shut_off")) Exn.vm_power_state

-- the loop over the attachments
unfoldable pub check_vms_are_off : Environment → List Attachment → Run (Unit {0})
unfolding check_vm_power_state
check_vms_are_off env [] = return tt
check_vms_are_off env (attachment ∷ attachments) = do
  check_vm_power_state env attachment.vm_id
  check_vms_are_off env attachments
