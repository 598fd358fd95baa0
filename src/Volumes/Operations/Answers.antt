-- ===== src/Volumes/Operations/Answers.antt =====
-- openvair/modules/volume/service_layer/services.py: what parts of the methods keep of the primary
-- keys, and which volumes they give.
use openvair_rde_linter.Base.{
  String, Bool, true, false, ◌≡◌, refl, sym, ap, ◌∙◌, Option, none, some, List, [], ◌∷◌, string_eq,
  if◌then◌else◌, is_empty,
}
use openvair_rde_linter.Result.{Exn, Result, ok, err}
use openvair_rde_linter.Service.{
  Reply, answered, call_failed, timed_out, return, raise, await, ◌>>=◌,
}
use openvair_rde_linter.Service.Table.{keys, find, write, keys-write, find-key}
use openvair_rde_linter.Service.Keeps.{Keeps, raise-Keeps, await-Keeps, bind-Keeps}
use openvair_rde_linter.Volumes.{
  Status, Volume, volume_keyed, StorageInfo, DomainVolume, World, Environment, Run, to_domain,
  get_or_fail,
}
use openvair_rde_linter.Volumes.Delete.{delete_in_domain}
use openvair_rde_linter.Volumes.Clone.{CloneRequest, clone_in_domain, set_status}
use openvair_rde_linter.Volumes.Monitor.{Update, updated, bulk_update, monitoring}
use openvair_rde_linter.Volumes.Operations.{ids, ClonesUnderId}
use openvair_rde_linter.Volumes.Operations.Rows.{set_status-Keeps}

keys-bulk_update :
    (updates : List Update) (volumes : List Volume)
    → keys (bulk_update updates volumes) ≡ keys volumes
unfolding bulk_update
keys-bulk_update [] volumes = refl
keys-bulk_update (u ∷ updates) volumes =
    elim (find volumes u.id)
      as (λ found.
        keys (elim found [
          | none ↦ bulk_update updates volumes
          | some volume ↦ bulk_update updates (write volumes (updated u volume))
        ])
        ≡ keys volumes) [
          | none ↦ keys-bulk_update updates volumes
          | some volume ↦ keys-bulk_update updates _ ∙ keys-write volumes _
        ]

pub monitoring-Keeps : (env : Environment) → Keeps ids (monitoring env)
unfolding monitoring
monitoring-Keeps env = record { kept = λ w. keys-bulk_update _ w.volumes }

pub clone_in_domain-Keeps :
    (env : Environment) (request : CloneRequest) (source : Volume) (target : StorageInfo)
    → Keeps ids (clone_in_domain env request source target)
unfolding clone_in_domain
clone_in_domain-Keeps env request source target = record {
  kept = λ w. by_reply w (env.domain_clone _ _ _);
}
  where
    by_reply :
        (w : World) (reply : Reply DomainVolume)
        → ids
            (elim ((await reply w).0) as (λ _. Result DomainVolume × World) [
              | ok new_volume ↦ (ok new_volume, (await reply w).1)
              | err _ ↦
                  (set_status request.volume_id Status.available >>= λ _.
                  raise {A = DomainVolume} Exn.create_volume_data)
                    ((await reply w).1)
            ]).1
          ≡ ids w
    by_reply w (answered d) = refl
    by_reply w call_failed = (bind-Keeps (set_status-Keeps _ _) (λ _. raise-Keeps _)).kept w
    by_reply w timed_out = (bind-Keeps (set_status-Keeps _ _) (λ _. raise-Keeps _)).kept w

pub delete_in_domain-Keeps :
    (env : Environment) (s v : Volume) → Keeps ids (delete_in_domain env s v)
unfolding delete_in_domain
delete_in_domain-Keeps env s v = record { kept = λ w. by_test w (is_empty v.storage_type) }
  where
    by_test :
        (w : World) (b : Bool)
        → ids ((if b then return tt else await (env.domain_delete s)) w).1 ≡ ids w
    by_test w true = refl
    by_test w false = (await-Keeps {view = ids} (env.domain_delete s)).kept w

-- A part that ends in a raise does not return.
never_returns :
    {A B : Type 0} (m : Run A) (e : Exn) (w : World) (b : B)
    → ((m >>= λ _. raise {A = B} e) w).0 ≡ ok b
    → ⊥
never_returns {A} {B} m e w b h = by_result (m w) h
  where
    by_result :
        (x : Result A × World)
        → (elim x.0 as (λ _. Result B × World) [ ok a ↦ (err e, x.1) | err e' ↦ (err e', x.1) ]).0
          ≡ ok b
        → ⊥
    by_result (ok a, t) h = cc
    by_result (err e', t) h = cc

-- The clone that the domain layer answers with has the new id.
pub clone_in_domain-id :
    (env : Environment) (request : CloneRequest) (source : Volume) (target : StorageInfo)
    → ClonesUnderId env
    → (w : World) (clone : DomainVolume)
    → (clone_in_domain env request source target w).0 ≡ ok clone
    → clone.id ≡ env.new_id
unfolding clone_in_domain set_status get_or_fail
clone_in_domain-id env request source target faithful w clone h =
    by_reply (env.domain_clone volume target.mount_point env.new_id) refl h
  where
    volume : Volume
    volume = record (to_domain source) { storage_type = target.storage_type }

    by_reply :
        (reply : Reply DomainVolume)
        → env.domain_clone volume target.mount_point env.new_id ≡ reply
        → (elim ((await reply w).0) as (λ _. Result DomainVolume × World) [
          | ok new_volume ↦ (ok new_volume, (await reply w).1)
          | err _ ↦
              (set_status request.volume_id Status.available >>= λ _.
              raise {A = DomainVolume} Exn.create_volume_data)
                ((await reply w).1)
        ]).0
          ≡ ok clone
        → clone.id ≡ env.new_id
    by_reply (answered d) same h =
        sym (ap (λ (r : Result DomainVolume). elim r [ ok x ↦ x.id | err _ ↦ "" ]) h)
        ∙ faithful volume target.mount_point env.new_id d same
    by_reply call_failed same h =
        absurd (never_returns (set_status request.volume_id Status.available) _ w clone h)
    by_reply timed_out same h =
        absurd (never_returns (set_status request.volume_id Status.available) _ w clone h)

pub get_or_fail-id :
    (id : String) (w : World) (v : Volume) → (get_or_fail id w).0 ≡ ok v → v.id ≡ id
unfolding get_or_fail
get_or_fail-id id w v h = by_found (find w.volumes id) refl h
  where
    by_found :
        (found : Option Volume)
        → find w.volumes id ≡ found
        → (elim found as (λ _. Result Volume × World) [
          | none ↦ (err Exn.entity_not_found, w)
          | some volume ↦ (ok volume, w)
        ]).0
          ≡ ok v
        → v.id ≡ id
    by_found none same h = cc
    by_found (some u) same h = cc (find-key w.volumes id u same)
