-- ===== src/Volumes/Clone/Refused.antt =====
-- openvair/modules/volume/service_layer/services.py: what a clone that is refused leaves behind.
use openvair_rde_linter.Base.{
  String, Bool, false, not, ◌&&◌, ◌≡◌, refl, ap, ◌∙◌, some, List, [], ◌∷◌, arith, ◌==◌, string_eq,
  leb, or_default, if◌then◌else◌,
}
use openvair_rde_linter.Result.{Exn, ok, err}
use openvair_rde_linter.Service.{answered, ◌>>=◌}
use openvair_rde_linter.Service.Runs.{bind-ok, bind-err}
use openvair_rde_linter.Service.Table.{find, write, find-key, find-written}
use openvair_rde_linter.Volumes.{
  Status, Volume, volume_keyed, StorageReply, World, Environment, get_or_fail, save,
}
use openvair_rde_linter.Volumes.Checks.{
  name_is_taken, check_volume_exists_on_storage, get_storage_info, storage_info,
  check_storage_on_availability, check_available_space_on_storage,
}
use openvair_rde_linter.Volumes.Clone.{
  CloneRequest, set_status, check_target, clone_in_domain, clone_volume, clone_to, add_clone,
}

-- what the target and the names have to be for a clone
abbrev pub may_be_cloned : World → CloneRequest → Volume → StorageReply → Bool
may_be_cloned w request v reply =
    reply.status == "available"
    && not (leb (or_default reply.available 0) v.size)
    && not (name_is_taken w.volumes request.name v.storage_id)

-- A row written back with its name and storage takes the names that it took.
name_is_taken-write :
    (t : List Volume) (v u : Volume) (name storage_id : String)
    → find t u.id ≡ some v
    → u.name ≡ v.name
    → u.storage_id ≡ v.storage_id
    → name_is_taken (write t u) name storage_id ≡ name_is_taken t name storage_id
unfolding name_is_taken find write
name_is_taken-write [] v u name storage_id h n s = cc
name_is_taken-write (r ∷ t) v u name storage_id h n s =
    ground (arith, name_is_taken-write t v u name storage_id)

check_target-refused :
    (request : CloneRequest) (w : World) (v : Volume) (reply : StorageReply)
    → find w.volumes v.id ≡ some v
    → may_be_cloned w request v reply ≡ false
    → (raised : Exn) × (check_target request
          (record v { status = Status.cloning })
          (storage_info reply)
          (save (record v { status = Status.cloning }) w).1
        ≡ (err raised, (save (record v { status = Status.cloning }) w).1))
unfolding check_target check_storage_on_availability storage_info check_available_space_on_storage
    check_volume_exists_on_storage save
check_target-refused request w v reply h refused =
    let names =
      name_is_taken-write w.volumes v (record v { status = Status.cloning }) request.name
        v.storage_id h refl refl in
    (
      if reply.status == "available"
          then if leb (or_default reply.available 0) v.size
            then Exn.validate_arguments
            else Exn.volume_exists_on_storage
          else Exn.storage_unavailable,
      ground (arith, names),
    )

set_status-found :
    (w : World) (id : String) (v : Volume) (status : Status)
    → find w.volumes id ≡ some v
    → set_status id status w
      ≡ (ok (record v { status = status }), (save (record v { status = status }) w).1)
unfolding set_status get_or_fail
set_status-found w id v status h = ground arith

get_storage_info-answered :
    (env : Environment) (id : String) (w : World) (reply : StorageReply)
    → env.get_storage id ≡ answered reply
    → get_storage_info env id w ≡ (ok (storage_info reply), w)
unfolding get_storage_info
get_storage_info-answered env id w reply h = ground arith

-- A clone that is refused because the target storage is not available, has no more space than the
-- size of the source, or because the name is taken on the storage of the source, raises and leaves
-- the source in the status `cloning`.
pub clone_volume-refused :
    (env : Environment) (request : CloneRequest) (w : World) (v : Volume) (reply : StorageReply)
    → env.get_storage request.target_storage_id ≡ answered reply
    → find w.volumes request.volume_id ≡ some v
    → may_be_cloned w request v reply ≡ false
    → ((raised : Exn) × ((clone_volume env request w).0 ≡ err raised))
      × (find (clone_volume env request w).1.volumes request.volume_id
          ≡ some (record v { status = Status.cloning }))
unfolding clone_volume clone_to save
clone_volume-refused env request w v reply there h refused =
    let same : v.id ≡ request.volume_id = find-key w.volumes request.volume_id v h in
    let source = record v { status = Status.cloning } in
    let marked = (save source w).1 in
    let stopped = check_target-refused request w v reply (ap (find w.volumes) same ∙ h) refused in
    let run : clone_volume env request w ≡ (err stopped.0, marked) =
      bind-ok (get_storage_info env request.target_storage_id)
        (λ target. set_status request.volume_id Status.cloning >>= clone_to env request target)
        (storage_info reply) (get_storage_info-answered env request.target_storage_id w reply there)
      ∙ bind-ok (set_status request.volume_id Status.cloning)
          (clone_to env request (storage_info reply)) source
          (set_status-found w request.volume_id v Status.cloning h)
      ∙ bind-err (check_target request source (storage_info reply))
          (λ _. clone_in_domain env request source (storage_info reply) >>= add_clone request)
          stopped.0 stopped.1 in
    (
      (stopped.0, ap (λ x. x.0) run),
      ap (λ x. find x.1.volumes request.volume_id) run
          ∙ find-written w.volumes request.volume_id v source h refl,
    )
