-- ===== src/Volumes/Extend.antt =====
-- openvair/modules/volume/service_layer/services.py: `extend_volume` and `_extend_volume`.
pub mod Growth
use openvair_rde_linter.Base.{
  ℕ, String, Bool, true, false, not, ◌||◌, Option, none, some, List, [], ◌∷◌, nat_eq, is_empty,
  or_default,
}
use openvair_rde_linter.Result.{Exn, Result, ok, err}
use openvair_rde_linter.Service.{return, raise_if, await, on_error, is_rpc_error, ◌>>=◌, ◌>>◌}
use openvair_rde_linter.Volumes.{
  Status, Message, said, Volume, StorageInfo, cast_extend, Environment, Run, get_or_fail, save,
  cast, add_event, to_domain, mark,
}
use openvair_rde_linter.Volumes.Checks.{
  check_volume_status, get_storage_info, check_storage_on_availability,
  check_available_space_on_storage, check_extended_size, check_vms_are_off,
}

-- the exceptions that `extend_volume` handles
unfoldable pub is_invalid : Exn → Bool
is_invalid Exn.validate_arguments = true
is_invalid Exn.volume_status = true
is_invalid _ = false

-- the row that is marked as extending, if it may be
unfoldable pub start_extending : Volume → ℕ → Run Volume
unfolding check_volume_status check_extended_size is_invalid mark save
start_extending volume new_size =
    on_error is_invalid
      (mark Status.error "extend_volume" "validating data in extend volume" volume)
      (do
        check_volume_status volume.status (Status.available ∷ [])
        check_extended_size volume.size new_size
        save (record volume { status = Status.extending })
        return (record volume { status = Status.extending }))

unfoldable pub extend_volume : Option String → Option ℕ → Run Volume
unfolding start_extending get_or_fail to_domain cast add_event is_empty or_default
extend_volume volume_id new_size = do
  raise_if (is_empty (or_default volume_id "") || nat_eq (or_default new_size 0) 0)
      Exn.unexpected_data_arguments
  volume ← get_or_fail (or_default volume_id "")
  extending ← start_extending volume (or_default new_size 0)
  cast (cast_extend (to_domain extending) (or_default new_size 0))
  add_event extending.id extending.user_id "extend_volume"
      (said "Volume successfully marked as extending.")
  return extending

-- the exceptions of the storage that `_extend_volume` handles
unfoldable pub is_storage_error : Exn → Bool
is_storage_error Exn.storage_unavailable = true
is_storage_error Exn.validate_arguments = true
is_storage_error _ = false

unfoldable pub is_vm_error : Exn → Bool
is_vm_error Exn.vm_power_state = true
is_vm_error _ = false

-- the `try` block of `_extend_volume`: the space is checked for the old size less the new one
unfoldable pub extend_on_storage : Environment → Volume → Volume → ℕ → Run (Unit {0})
unfolding get_storage_info check_storage_on_availability check_vms_are_off
    check_available_space_on_storage save
extend_on_storage env serialized volume new_size = do
  storage ← get_storage_info env volume.storage_id
  check_storage_on_availability storage
  check_vms_are_off env volume.attachments
  check_available_space_on_storage volume.size new_size storage
  await (env.domain_extend serialized new_size)
  save (record volume { status = Status.available; size = new_size })

-- `_extend_volume`, on the volume and the size that were cast
unfoldable pub extend_volume_step : Environment → Volume → ℕ → Run (Unit {0})
unfolding extend_on_storage get_or_fail mark add_event is_storage_error is_vm_error
extend_volume_step env serialized new_size = do
  volume ← get_or_fail serialized.id
  on_error is_vm_error (mark Status.available "_extend_volume" "checking attachments" volume) (
      on_error is_storage_error (mark Status.error "_extend_volume" "accessing the storage" volume)
        (on_error is_rpc_error
          (mark Status.error "_extend_volume" "calling the domain layer while extending volume"
            volume)
          (extend_on_storage env serialized volume new_size)))
  add_event serialized.id volume.user_id "_extend_volume" (said "Volume successfully extended.")
