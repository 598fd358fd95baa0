-- ===== src/Volumes/Extend/Growth.antt =====
-- openvair/modules/volume/service_layer/services.py: the sizes of a volume that is extended.
use openvair_rde_linter.Base.{
  ℕ, ◌<◌, String, ◌≡◌, refl, Option, some, List, [], ◌∷◌, ◌++◌, arith, string_eq, or_default, All,
}
use openvair_rde_linter.Result.{ok}
use openvair_rde_linter.Service.{answered}
use openvair_rde_linter.Service.Table.{find, write, find-write, contains-find, find-key}
use openvair_rde_linter.Volumes.{
  Status, Status-discrete, Attachment, VmReply, StorageReply, Volume, volume_keyed, cast_extend,
  World, Environment, get_or_fail, save, cast, add_event, to_domain,
}
use openvair_rde_linter.Volumes.Checks.{
  check_volume_status, is_in, check_extended_size, get_storage_info, storage_info,
  check_storage_on_availability, check_vms_are_off, check_vm_power_state,
  check_available_space_on_storage,
}
use openvair_rde_linter.Volumes.Extend.{
  start_extending, extend_volume, extend_on_storage, extend_volume_step, is_invalid, is_vm_error,
  is_storage_error,
}

-- A request to extend a volume returns only for a volume that was `available` and smaller than the
-- size asked for; it then casts the extension to that size, and marks the volume as `extending`
-- with its old size.
pub extend_volume-grows :
    (id : Option String) (size : Option ℕ) (w : World) (v u : Volume)
    → find w.volumes (or_default id "") ≡ some v
    → (extend_volume id size w).0 ≡ ok u
    → (v.size < or_default size 0)
      × (v.status ≡ Status.available)
      × (u ≡ record v { status = Status.extending })
      × ((extend_volume id size w).1.volumes ≡ write w.volumes u)
      × ((extend_volume id size w).1.casts
          ≡ w.casts ++ (cast_extend (to_domain u) (or_default size 0) ∷ []))
unfolding extend_volume get_or_fail start_extending check_volume_status check_extended_size is_in
    Status-discrete is_invalid save cast add_event
extend_volume-grows id size w v u h returned = ground arith

-- the machine is off
abbrev pub IsOff : Environment → Attachment → Type 0
IsOff env a =
    (vm : VmReply) × (env.get_vm a.vm_id ≡ answered vm) × (vm.power_state ≡ some "shut_off")

vms-off :
    (env : Environment) (attachments : List Attachment) (w : World)
    → All (IsOff env) attachments
    → check_vms_are_off env attachments w ≡ (ok tt, w)
unfolding check_vms_are_off check_vm_power_state or_default
vms-off env [] w off = refl
vms-off env (a ∷ rest) w off = ground (arith, vms-off env rest w off.1)

-- the `try` block on a storage that is available, whatever space it has left
extend_on_storage-runs :
    (env : Environment) (s v : Volume) (size : ℕ) (w : World) (reply : StorageReply)
    → env.get_storage v.storage_id ≡ answered reply
    → reply.status ≡ "available"
    → All (IsOff env) v.attachments
    → v.size < size
    → env.domain_extend s size ≡ answered tt
    → extend_on_storage env s v size w
      ≡ (ok tt, (save (record v { status = Status.available; size = size }) w).1)
unfolding extend_on_storage get_storage_info storage_info check_storage_on_availability
    check_available_space_on_storage
extend_on_storage-runs env s v size w reply there up off less answer =
    ground (arith, vms-off env v.attachments w off)

-- Once `_extend_volume` runs on a volume that is there, on a storage that is available, with every
-- machine it is attached to off, for a greater size than its own, and the domain layer answers, the
-- volume is `available` with that size, however little space the storage has left.
pub extend_volume_step-any_space :
    (env : Environment) (s v : Volume) (size : ℕ) (w : World) (reply : StorageReply)
    → find w.volumes s.id ≡ some v
    → env.get_storage v.storage_id ≡ answered reply
    → reply.status ≡ "available"
    → All (IsOff env) v.attachments
    → v.size < size
    → env.domain_extend s size ≡ answered tt
    → ((extend_volume_step env s size w).0 ≡ ok tt)
      × (find (extend_volume_step env s size w).1.volumes s.id
          ≡ some (record v { status = Status.available; size = size }))
unfolding extend_volume_step get_or_fail is_vm_error is_storage_error save add_event
extend_volume_step-any_space env s v size w reply h there up off less answer =
    let run = extend_on_storage-runs env s v size w reply there up off less answer in
    let u = record v { status = Status.available; size = size } in
    (
      ground (arith, run),
      ground (
        arith,
        run,
        find-write w.volumes u s.id,
        contains-find w.volumes s.id v h,
        find-key w.volumes s.id v h,
      ),
    )
