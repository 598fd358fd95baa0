-- ===== src/Images/Monitor/Unlisted.antt =====
-- openvair/modules/image/service_layer/services.py: the periodic task when a storage is not listed.
use openvair_rde_linter.Base.{
  ℕ, String, Bool, true, false, ◌≡◌, ◌⊎◌, inl, inr, refl, Option, none, some, List, [], ◌∷◌, map,
  arith, ◌==◌, string_eq, or_default,
}
use openvair_rde_linter.Base.Dict
use openvair_rde_linter.Base.Dict.{Dict}
use openvair_rde_linter.Result.{Exn, Result, ok, err}
use openvair_rde_linter.Service.{Reply, answered, call_failed, timed_out, return, modify, ◌>>=◌}
use openvair_rde_linter.Service.Table.{find}
use openvair_rde_linter.Volumes.{blank, StorageInfo}
use openvair_rde_linter.Images.{
  Status, Image, image_keyed, World, Environment, to_domain, is_in, check_storage_on_availability,
}
use openvair_rde_linter.Images.Monitor.{
  Update, get_available_storages, get_image_storage, check_image_on_availability, update_image_info,
  is_monitoring_error, update_image_status_on_error, monitor_image, with_update, bulk_update,
  monitor_images, monitoring,
}

-- the exception of a storage that is not listed
abbrev IsKeyError : {A : Type 0} → Result A → Type 0
IsKeyError r = (storage_id : String) × (r ≡ err (Exn.key_error storage_id))

-- A round of the loop returns, or raises `KeyError`.
monitor_image-returns :
    (env : Environment) (storages : Dict StorageInfo) (i : Image) (w : World)
    → ((u : Option Update) × ((monitor_image env storages i w).0 ≡ ok u))
      ⊎ IsKeyError (monitor_image env storages i w).0
unfolding monitor_image get_image_storage check_storage_on_availability check_image_on_availability
    update_image_info is_monitoring_error update_image_status_on_error
monitor_image-returns env storages i w =
    by_answers (is_in i.status (Status.available ∷ Status.error ∷ []))
      (Dict.get storages i.storage_id) (env.path_exists i.path) (env.domain_attach_info i) refl refl
      refl refl
  where
    Outcome : Type 0
    Outcome =
        ((u : Option Update) × ((monitor_image env storages i w).0 ≡ ok u))
        ⊎ IsKeyError (monitor_image env storages i w).0

    by_status :
        (up : Bool) (storage : StorageInfo) (there : Bool) (reply : Reply (Option ℕ))
        → is_in i.status (Status.available ∷ Status.error ∷ []) ≡ true
        → Dict.get storages i.storage_id ≡ some storage
        → env.path_exists i.path ≡ there
        → env.domain_attach_info i ≡ reply
        → (storage.status == "available") ≡ up
        → Outcome
    by_status false storage there reply m g p r u = inl (none, ground arith)
    by_status true storage false reply m g p r u = inl (none, ground arith)
    by_status true storage true (answered size) m g p r u = inl (
      some (record {
        id = i.id;
        size = some (or_default size i.size);
        status = Status.available;
        information = blank;
      }),
      ground arith,
    )
    by_status true storage true call_failed m g p r u = inl (none, ground arith)
    by_status true storage true timed_out m g p r u = inl (none, ground arith)

    by_answers :
        (monitored : Bool) (found : Option StorageInfo) (there : Bool) (reply : Reply (Option ℕ))
        → is_in i.status (Status.available ∷ Status.error ∷ []) ≡ monitored
        → Dict.get storages i.storage_id ≡ found
        → env.path_exists i.path ≡ there
        → env.domain_attach_info i ≡ reply
        → Outcome
    by_answers false found there reply m g p r = inl (none, ground arith)
    by_answers true none there reply m g p r = inr (i.storage_id, ground arith)
    by_answers true (some storage) there reply m g p r =
        by_status (storage.status == "available") storage there reply m g p r refl

monitor_image-unlisted :
    (env : Environment) (storages : Dict StorageInfo) (i : Image) (w : World)
    → is_in i.status (Status.available ∷ Status.error ∷ []) ≡ true
    → Dict.get storages i.storage_id ≡ none
    → (monitor_image env storages i w).0 ≡ err (Exn.key_error i.storage_id)
unfolding monitor_image get_image_storage is_monitoring_error
monitor_image-unlisted env storages i w may absent = ground arith

raises-first :
    {A B : Type 0} (m : World → Result A × World) (f : A → World → Result B × World) (w : World)
    → IsKeyError (m w).0
    → IsKeyError ((m >>= f) w).0
raises-first {A} {B} m f w h = by_result (m w) h
  where
    by_result :
        (x : Result A × World)
        → IsKeyError x.0
        → IsKeyError
            (elim x.0 as (λ _. Result B × World) [ ok a ↦ f a x.1 | err e ↦ (err e, x.1) ]).0
    by_result (ok a, t) h = cc
    by_result (err e, t) h = (h.0, ground arith)

raises-second :
    {A B : Type 0} (m : World → Result A × World) (f : A → World → Result B × World) (w : World)
    → ((a : A) × ((m w).0 ≡ ok a))
    → ((a : A) (t : World) → IsKeyError (f a t).0)
    → IsKeyError ((m >>= f) w).0
raises-second {A} {B} m f w h hf = by_result (m w) h
  where
    by_result :
        (x : Result A × World)
        → ((a : A) × (x.0 ≡ ok a))
        → IsKeyError
            (elim x.0 as (λ _. Result B × World) [ ok a ↦ f a x.1 | err e ↦ (err e, x.1) ]).0
    by_result (ok a, t) h = hf a t
    by_result (err e, t) h = cc

-- The loop raises `KeyError` if it reaches an image whose storage is not listed.
monitor_images-unlisted :
    (env : Environment) (storages : Dict StorageInfo) (images : List Image) (id : String)
    (v : Image) (w : World)
    → find images id ≡ some v
    → is_in v.status (Status.available ∷ Status.error ∷ []) ≡ true
    → Dict.get storages v.storage_id ≡ none
    → IsKeyError (monitor_images env storages (map to_domain images) w).0
unfolding monitor_images find to_domain
monitor_images-unlisted env storages [] id v w h may absent = cc
monitor_images-unlisted env storages (i ∷ images) id v w h may absent =
    elim (string_eq.dec id i.id) [
      | yes same ↦ raises-first (monitor_image env storages (to_domain i)) rest w (
        i.storage_id,
        monitor_image-unlisted env storages (to_domain i) w (ground arith) (ground arith),
      )
      | no differ ↦ elim (monitor_image-returns env storages (to_domain i) w) [
        | inr raised ↦ raises-first (monitor_image env storages (to_domain i)) rest w raised
        | inl returned ↦
            raises-second (monitor_image env storages (to_domain i)) rest w returned (λ u t.
              raises-first (monitor_images env storages (map to_domain images))
                (λ updates. return (with_update u updates)) t
                (monitor_images-unlisted env storages images id v t (ground arith) may absent))
      ]
    ]
  where
    rest : Option Update → World → Result (List Update) × World
    rest update = monitor_images env storages (map to_domain images) >>= λ updates.
        return (with_update update updates)

-- When an image that is `available` or in `error` is in the table, and the storage service does not
-- list its storage, the periodic task raises `KeyError`.
pub monitoring-unlisted :
    (env : Environment) (w : World) (id : String) (v : Image)
    → find w.images id ≡ some v
    → is_in v.status (Status.available ∷ Status.error ∷ []) ≡ true
    → Dict.get (get_available_storages env) v.storage_id ≡ none
    → (storage_id : String) × ((monitoring env w).0 ≡ err (Exn.key_error storage_id))
unfolding monitoring
monitoring-unlisted env w id v h may absent =
    raises-first (monitor_images env (get_available_storages env) (map to_domain w.images))
      (λ updates. modify (λ u. record u { images = bulk_update updates u.images })) w
      (monitor_images-unlisted env (get_available_storages env) w.images id v w h may absent)
