-- ===== src/Volumes/Create/Request.antt =====
-- openvair/modules/volume/service_layer/services.py: what a request to create a volume leaves.
use openvair_rde_linter.Base.{
  Bool, true, false, not, ◌||◌, ◌≡◌, ap, ◌∙◌, some, [], ◌∷◌, ◌++◌, arith, contains, string_eq,
  nat_eq, is_empty, or_default,
}
use openvair_rde_linter.Result.{ok}
use openvair_rde_linter.Service.{answered}
use openvair_rde_linter.Service.Table.{find, add, keys, find-add}
use openvair_rde_linter.Volumes.{
  Status, Volume, volume_keyed, cast_create, World, Environment, insert, cast, add_event,
  StorageReply,
}
use openvair_rde_linter.Volumes.Checks.{
  check_volume_exists_on_storage, get_storage_info, name_is_taken,
}
use openvair_rde_linter.Volumes.Create.Blocks.{fits, is_answered}
use openvair_rde_linter.Volumes.Create.Outcome.{create_volume_step-available}
use openvair_rde_linter.Volumes.Create.{
  CreateRequest, volume_data, prepare_volume_data, new_row, is_refused, create_volume,
  create_volume_step,
}

-- the message has something in it
abbrev pub is_filled : CreateRequest → Bool
is_filled request =
    request.others
    || not (nat_eq (or_default request.size 0) 0)
    || not (is_empty (or_default request.storage_id ""))

-- A request to create a volume that returns a row adds that row and nothing else to the table, under
-- the new id, with the status `new` and the defaults for what the message leaves out; it casts that
-- row to `_create_volume`; and no volume had that name on that storage.
pub create_volume-world :
    (env : Environment) (request : CreateRequest) (w : World) (row : Volume)
    → (create_volume env request w).0 ≡ ok row
    → ((create_volume env request w).1.volumes ≡ add w.volumes row)
      × ((create_volume env request w).1.casts ≡ w.casts ++ (cast_create row ∷ []))
      × (row ≡ new_row env.new_id (volume_data request))
      × (name_is_taken w.volumes row.name row.storage_id ≡ false)
unfolding create_volume prepare_volume_data volume_data new_row is_refused
    check_volume_exists_on_storage get_storage_info insert cast add_event
create_volume-world env request w row h = ground arith

-- Creating a volume, from the request to the end: if the request returns a row, its id is not empty
-- and was not in the table, and `_create_volume` is then run on it with a storage that is available
-- and has more space than its size, and with a domain layer that answers, then the row is in the
-- table with the status `available` and the path and type of the storage.
pub create_volume-available :
    (env later : Environment) (request : CreateRequest) (w : World) (row : Volume)
    (reply : StorageReply)
    → (create_volume env request w).0 ≡ ok row
    → is_empty row.id ≡ false
    → contains (keys w.volumes) row.id ≡ false
    → later.get_storage row.storage_id ≡ answered reply
    → fits reply row ≡ true
    → ((v : Volume) → later.domain_create v ≡ answered tt)
    → find
        (create_volume_step later row.id row.storage_id (create_volume env request w).1).1.volumes
        row.id
      ≡ some (record row {
        status = Status.available;
        path = or_default reply.mount_point "";
        storage_type = reply.storage_type;
      })
unfolding new_row volume_data
create_volume-available env later request w row reply returned named free there fit answers =
    let made = create_volume-world env request w row returned in
    let found : find (create_volume env request w).1.volumes row.id ≡ some row =
      ap (λ t. find t row.id) made.0 ∙ (ground (arith, find-add w.volumes row row.id)) in
    (create_volume_step-available later row.storage_id row (create_volume env request w).1 reply
      named found (ap (λ (v : Volume). v.status) made.2) there fit (ap is_answered (answers _))).1
