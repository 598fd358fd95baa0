-- ===== src/Volumes/Create/Outcome.antt =====
-- openvair/modules/volume/service_layer/services.py: what becomes of a volume that is created.
use openvair_rde_linter.Base.{
  String, Bool, true, false, ◌&&◌, ◌≡◌, refl, ap, ◌∙◌, some, arith, string_eq, is_empty, or_default,
}
use openvair_rde_linter.Result.{Exn, ok, err}
use openvair_rde_linter.Service.{answered, ◌>>=◌}
use openvair_rde_linter.Service.Runs.{bind-ok, bind-err}
use openvair_rde_linter.Service.Table.{find}
use openvair_rde_linter.Volumes.{
  Status, failed_while, Volume, volume_keyed, StorageReply, World, Environment, get_or_fail, save,
  to_domain, mark,
}
use openvair_rde_linter.Volumes.Checks.{storage_info}
use openvair_rde_linter.Volumes.Create.{placed, place, call_create, create_volume_step}
use openvair_rde_linter.Volumes.Create.Blocks.{
  call_create-answered, call_create-failed, calling, failed, fits, get_or_fail-found, is_answered,
  mark-found, place-fits, place-unfit, save-found, unfit,
}

-- the statements of `_create_volume` up to `place`, on a volume that is there
step-found :
    (env : Environment) (storage_id : String) (v : Volume) (w : World)
    → is_empty v.id ≡ false
    → find w.volumes v.id ≡ some v
    → create_volume_step env v.id storage_id w
      ≡ (place env storage_id v >>= λ _. get_or_fail v.id >>= call_create env) w
unfolding create_volume_step
step-found env storage_id v w named h = ground (arith, get_or_fail-found w v.id v h)

-- A volume that is new, cast to `_create_volume` with a storage that is available and has more space
-- than its size, is `available` under the mount point of the storage, once the domain layer has
-- answered; and the method returns.
pub create_volume_step-available :
    (env : Environment) (storage_id : String) (v : Volume) (w : World) (reply : StorageReply)
    → is_empty v.id ≡ false
    → find w.volumes v.id ≡ some v
    → v.status ≡ Status.new
    → env.get_storage storage_id ≡ answered reply
    → fits reply v ≡ true
    → is_answered (env.domain_create (to_domain (placed (storage_info reply) v))) ≡ true
    → ((create_volume_step env v.id storage_id w).0 ≡ ok tt)
      × (find (create_volume_step env v.id storage_id w).1.volumes v.id
          ≡ some (record v {
            status = Status.available;
            path = or_default reply.mount_point "";
            storage_type = reply.storage_type;
          }))
unfolding placed or_default storage_info
create_volume_step-available env storage_id v w reply named h new there fit answer =
    let created = placed (storage_info reply) v in
    let after = (save created w).1 in
    let found : find after.volumes v.id ≡ some created = save-found w created v h in
    let run : create_volume_step env v.id storage_id w ≡ call_create env created after =
      step-found env storage_id v w named h
      ∙ bind-ok (place env storage_id v) (λ _. get_or_fail v.id >>= call_create env) tt
          (place-fits env storage_id v w reply there new fit)
      ∙ bind-ok (get_or_fail v.id) (call_create env) created
          (get_or_fail-found after v.id created found) in
    let done = call_create-answered env created after found answer in
    (ap (λ x. x.0) run ∙ done.0, ap (λ x. find x.1.volumes v.id) run ∙ done.1)

-- A volume that is new, cast to `_create_volume` with a storage that is not available or has no
-- more space than its size, or with a domain layer that does not answer, ends with the status
-- `error` and the exception in its information, and that exception is raised: it does not stay in
-- `creating`.
pub create_volume_step-error :
    (env : Environment) (storage_id : String) (v : Volume) (w : World) (reply : StorageReply)
    → is_empty v.id ≡ false
    → find w.volumes v.id ≡ some v
    → v.status ≡ Status.new
    → env.get_storage storage_id ≡ answered reply
    → (fits reply v && is_answered (env.domain_create (to_domain (placed (storage_info reply) v))))
      ≡ false
    → (raised : Exn) × (doing : String) × ((create_volume_step env v.id storage_id w).0
        ≡ err raised)
      × (find (create_volume_step env v.id storage_id w).1.volumes v.id
          ≡ some (record v {
            status = Status.error;
            information = failed_while doing raised;
            path = or_default reply.mount_point "";
            storage_type = reply.storage_type;
          }))
unfolding placed or_default storage_info
create_volume_step-error env storage_id v w reply named h new there refused =
    let found = by_fit (fits reply v) refl in (found.0, found.1, found.2.0, found.2.1)
  where
    created : Volume
    created = placed (storage_info reply) v

    after : World
    after = (save created w).1

    found : find after.volumes v.id ≡ some created
    found = save-found w created v h

    Failed : Exn → String → Type 0
    Failed raised doing =
        ((create_volume_step env v.id storage_id w).0 ≡ err raised)
        × (find (create_volume_step env v.id storage_id w).1.volumes v.id
            ≡ some (failed raised doing created))

    by_fit : (b : Bool) → fits reply v ≡ b → (raised : Exn) × (doing : String) × Failed raised doing
    by_fit true fit =
        let run : create_volume_step env v.id storage_id w ≡ call_create env created after =
          step-found env storage_id v w named h
          ∙ bind-ok (place env storage_id v) (λ _. get_or_fail v.id >>= call_create env) tt
              (place-fits env storage_id v w reply there new fit)
          ∙ bind-ok (get_or_fail v.id) (call_create env) created
              (get_or_fail-found after v.id created found) in
        let done = call_create-failed env created after found (ground arith) in
        (
          done.0,
          calling,
          (ap (λ x. x.0) run ∙ done.1, ap (λ x. find x.1.volumes v.id) run ∙ done.2),
        )
    by_fit false fit =
        let raised = unfit reply in
        let run : create_volume_step env v.id storage_id w ≡ (
          err raised,
          (mark Status.error "create_volume" "creating volume" created raised after).1,
        ) =
          step-found env storage_id v w named h
          ∙ bind-err (place env storage_id v) (λ _. get_or_fail v.id >>= call_create env) raised
              (place-unfit env storage_id v w reply there new fit) in
        (
          raised,
          "creating volume",
          (
            ap (λ x. x.0) run,
            ap (λ x. find x.1.volumes v.id) run ∙ mark-found after created raised found,
          ),
        )
