-- ===== src/Volumes/Clone.antt =====
-- openvair/modules/volume/service_layer/services.py: `clone_volume`.
pub mod Refused
use openvair_rde_linter.Base.{ℕ, String, Bool, Option, none, some, List, [], ◌∷◌, or_default}
use openvair_rde_linter.Result.{Exn, Result, ok, err}
use openvair_rde_linter.Service.{return, raise, await, on_error, is_rpc_error, ◌>>=◌, ◌>>◌}
use openvair_rde_linter.Volumes.{
  Status, Message, blank, said, Volume, StorageInfo, DomainVolume, Environment, Run, get_or_fail,
  save, insert, add_event, to_domain,
}
use openvair_rde_linter.Volumes.Checks.{
  check_volume_exists_on_storage, get_storage_info, check_storage_on_availability,
  check_available_space_on_storage,
}

-- the message of `clone_volume`
pub record CloneRequest : Type 0 where
  pub volume_id : String
  pub target_storage_id : String
  pub name : String
  pub user_id : Option String

-- the row of the clone: the answer of the domain layer with the request's name, user and storage
unfoldable pub clone_row : CloneRequest → DomainVolume → Volume
unfolding or_default
clone_row request new_volume = record {
  id = new_volume.id;
  name = request.name;
  user_id = or_default request.user_id "";
  format = new_volume.format;
  size = new_volume.size;
  used = none;
  status = Status.available;
  information = blank;
  path = new_volume.path;
  template_id = none;
  description = new_volume.description;
  storage_id = request.target_storage_id;
  storage_type = new_volume.storage_type;
  read_only = Bool.false;
  attachments = [];
}

-- the status of the source, in a block of its own
unfoldable pub set_status : String → Status → Run Volume
unfolding get_or_fail save
set_status volume_id status = do
  volume ← get_or_fail volume_id
  save (record volume { status = status })
  return (record volume { status = status })

-- what `clone_volume` checks once the source is marked
unfoldable pub check_target : CloneRequest → Volume → StorageInfo → Run (Unit {0})
unfolding check_storage_on_availability check_available_space_on_storage
    check_volume_exists_on_storage
check_target request source target = do
  check_storage_on_availability target
  check_available_space_on_storage source.size 0 target
  check_volume_exists_on_storage request.name source.storage_id

-- The call of the domain layer. If it fails, the source is available again.
unfoldable pub clone_in_domain :
    Environment → CloneRequest → Volume → StorageInfo → Run DomainVolume
unfolding to_domain set_status
clone_in_domain env request source target =
    let call : Run DomainVolume = await (
      env.domain_clone (record (to_domain source) { storage_type = target.storage_type })
        target.mount_point env.new_id) in
    λ w.
      let (reply, after) = call w in
      elim reply [
        | ok new_volume ↦ (ok new_volume, after)
        | err _ ↦
            (set_status request.volume_id Status.available >>= λ _. raise Exn.create_volume_data)
              after
      ]

-- The last block, which commits at its end, so no clone is left if the source is gone.
unfoldable pub add_clone : CloneRequest → DomainVolume → Run Volume
unfolding set_status insert add_event clone_row or_default
add_clone request new_volume = do
  _ ← set_status request.volume_id Status.available
  insert (clone_row request new_volume)
  add_event new_volume.id (or_default request.user_id "") "clone_volume"
      (said "Volume successfully cloned.")
  return (clone_row request new_volume)

-- what follows once the source is marked
unfoldable pub clone_to : Environment → CloneRequest → StorageInfo → Volume → Run Volume
unfolding check_target clone_in_domain add_clone
clone_to env request target source = do
  check_target request source target
  new_volume ← clone_in_domain env request source target
  add_clone request new_volume

unfoldable pub clone_volume : Environment → CloneRequest → Run Volume
unfolding get_storage_info set_status clone_to
clone_volume env request = do
  target ← get_storage_info env request.target_storage_id
  source ← set_status request.volume_id Status.cloning
  clone_to env request target source
