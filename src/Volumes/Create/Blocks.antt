-- ===== src/Volumes/Create/Blocks.antt =====
-- openvair/modules/volume/service_layer/services.py: the two blocks of `_create_volume`.
use openvair_rde_linter.Base.{
  String, Bool, true, false, not, ◌&&◌, ◌≡◌, refl, some, arith, ◌==◌, string_eq, leb, or_default,
  if◌then◌else◌,
}
use openvair_rde_linter.Result.{Exn, ok, err}
use openvair_rde_linter.Service.{Reply, answered, call_failed, timed_out}
use openvair_rde_linter.Service.Table.{find, find-write, contains-find}
use openvair_rde_linter.Volumes.{
  Status, Status-discrete, failed_while, Volume, volume_keyed, StorageReply, World, Environment,
  get_or_fail, save, add_event, to_domain, mark,
}
use openvair_rde_linter.Volumes.Checks.{
  check_volume_status, is_in, get_storage_info, storage_info, check_storage_on_availability,
  check_available_space_on_storage,
}
use openvair_rde_linter.Volumes.Create.{is_unfit, placed, check_place, place, call_create}

-- what the storage has to say for the volume to be placed on it
abbrev pub fits : StorageReply → Volume → Bool
fits reply v = reply.status == "available" && not (leb (or_default reply.available 0) v.size)

-- the exception if it does not
abbrev pub unfit : StorageReply → Exn
unfit reply =
    if reply.status == "available" then Exn.validate_arguments else Exn.storage_unavailable

pub place-fits :
    (env : Environment) (storage_id : String) (v : Volume) (w : World) (reply : StorageReply)
    → env.get_storage storage_id ≡ answered reply
    → v.status ≡ Status.new
    → fits reply v ≡ true
    → place env storage_id v w ≡ (ok tt, (save (placed (storage_info reply) v) w).1)
unfolding place check_place get_storage_info storage_info check_volume_status is_in Status-discrete
    check_storage_on_availability check_available_space_on_storage
place-fits env storage_id v w reply h s f = ground arith

pub place-unfit :
    (env : Environment) (storage_id : String) (v : Volume) (w : World) (reply : StorageReply)
    → env.get_storage storage_id ≡ answered reply
    → v.status ≡ Status.new
    → fits reply v ≡ false
    → place env storage_id v w ≡ (
        let raised = unfit reply in
        (
          err raised,
          (mark Status.error "create_volume" "creating volume"
              (placed (storage_info reply) v)
              raised
              (save (placed (storage_info reply) v) w).1).1,
        ))
unfolding place check_place get_storage_info storage_info check_volume_status is_in Status-discrete
    check_storage_on_availability check_available_space_on_storage is_unfit
place-unfit env storage_id v w reply h s f = ground arith

-- Whether the other service answered.
abbrev pub is_answered : {A : Type 0} → Reply A → Bool
is_answered (answered _) = true
is_answered call_failed = false
is_answered timed_out = false

pub get_or_fail-found :
    (w : World) (id : String) (v : Volume)
    → find w.volumes id ≡ some v
    → get_or_fail id w ≡ (ok v, w)
unfolding get_or_fail
get_or_fail-found w id v h = ground arith

pub save-found :
    (w : World) (v u : Volume)
    → find w.volumes v.id ≡ some u
    → find (save v w).1.volumes v.id ≡ some v
unfolding save
save-found w v u h = ground (arith, find-write w.volumes v v.id, contains-find w.volumes v.id u h)

pub call_create-answered :
    (env : Environment) (v : Volume) (w : World)
    → find w.volumes v.id ≡ some v
    → is_answered (env.domain_create (to_domain v)) ≡ true
    → ((call_create env v w).0 ≡ ok tt)
      × (find (call_create env v w).1.volumes v.id ≡ some (record v { status = Status.available }))
unfolding call_create save add_event
call_create-answered env v w h answer =
    (ground arith, ground (arith, save-found w (record v { status = Status.available }) v h))

-- the row of a volume that is not created, with what was raised
abbrev pub failed : Exn → String → Volume → Volume
failed raised doing v = record v { status = Status.error; information = failed_while doing raised }

abbrev pub calling : String
calling = "calling the domain layer while creating volume"

pub call_create-failed :
    (env : Environment) (v : Volume) (w : World)
    → find w.volumes v.id ≡ some v
    → is_answered (env.domain_create (to_domain v)) ≡ false
    → (raised : Exn) × ((call_create env v w).0 ≡ err raised)
      × (find (call_create env v w).1.volumes v.id ≡ some (failed raised calling v))
unfolding call_create mark save add_event
call_create-failed env v w h answer = by_reply (env.domain_create (to_domain v)) refl
  where
    row-found :
        (e : Exn) → find (save (failed e calling v) w).1.volumes v.id ≡ some (failed e calling v)
    row-found e = save-found w (failed e calling v) v h

    by_reply :
        (reply : Reply (Unit {0}))
        → env.domain_create (to_domain v) ≡ reply
        → (raised : Exn) × ((call_create env v w).0 ≡ err raised)
          × (find (call_create env v w).1.volumes v.id ≡ some (failed raised calling v))
    by_reply (answered a) same = cc
    by_reply call_failed same = (Exn.rpc_call, ground arith, ground (arith, row-found Exn.rpc_call))
    by_reply timed_out same =
        (Exn.rpc_call_timeout, ground arith, ground (arith, row-found Exn.rpc_call_timeout))

pub mark-found :
    (w : World) (v : Volume) (raised : Exn)
    → find w.volumes v.id ≡ some v
    → find (mark Status.error "create_volume" "creating volume" v raised w).1.volumes v.id
      ≡ some (failed raised "creating volume" v)
unfolding mark add_event
mark-found w v raised h = save-found w (failed raised "creating volume" v) v h
