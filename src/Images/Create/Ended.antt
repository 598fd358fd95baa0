-- ===== src/Images/Create/Ended.antt =====
-- openvair/modules/image/service_layer/services.py: how `_create_image` ends.
use openvair_rde_linter.Base.{
  String, true, ◌≡◌, refl, ap, ◌∙◌, some, List, arith, contains, string_eq, or_default, ◌||◌,
}
use openvair_rde_linter.Result.{Exn}
use openvair_rde_linter.Service.{is_rpc_error}
use openvair_rde_linter.Service.Table.{
  keys, find, keys-write, find-written, find-contains, contains-find,
}
use openvair_rde_linter.Service.Keeps.{
  Keeps, raise-Keeps, raise_if-Keeps, await-Keeps, bind-Keeps, catch-Keeps,
}
use openvair_rde_linter.Volumes.{Message, StorageInfo}
use openvair_rde_linter.Images.{
  Status, Image, image_keyed, UserInfo, World, Environment, get_or_fail, save, add_event,
  delete_image_from_tmp, check_image_status, get_storage_info, check_storage_on_availability,
  check_available_space_on_storage,
}
use openvair_rde_linter.Images.Create.{
  upload_on_storage, handle_create_image, end_creating, is_unfit, create_image_step, try_to_create,
}

-- the primary keys of the rows
abbrev image_ids : World → List String
image_ids w = keys w.images

save-Keeps : (i : Image) → Keeps image_ids (save i)
unfolding save
save-Keeps i = record { kept = λ w. keys-write w.images i }

get_or_fail-Keeps : (id : String) → Keeps image_ids (get_or_fail id)
unfolding get_or_fail
get_or_fail-Keeps id = record { kept = λ w. ground arith }

add_event-Keeps :
    (env : Environment) (o u e : String) (m : Message) → Keeps image_ids (add_event env o u e m)
unfolding add_event
add_event-Keeps env o u e m = record { kept = λ w. ground arith }

ruleset image_parts = (
  bind-Keeps, raise_if-Keeps, raise-Keeps, await-Keeps, save-Keeps, get_or_fail-Keeps,
  add_event-Keeps,
)

upload_on_storage-Keeps :
    (env : Environment) (user_id : String) (storage : StorageInfo) (image : Image)
    → Keeps image_ids (upload_on_storage env user_id storage image)
unfolding upload_on_storage check_image_status check_storage_on_availability
    check_available_space_on_storage
upload_on_storage-Keeps env user_id storage image = search image_parts depth 10

handle_create_image-Keeps :
    (env : Environment) (id user_id : String) (raised : Exn)
    → Keeps image_ids (handle_create_image env id user_id raised)
unfolding handle_create_image
handle_create_image-Keeps env id user_id raised = search image_parts depth 10

end_creating-IsAvailable :
    (id name : String) (w : World)
    → contains (image_ids w) id ≡ true
    → (i : Image) × (find (end_creating id name w).images id ≡ some i)
      × (i.status ≡ Status.available)
unfolding end_creating delete_image_from_tmp
end_creating-IsAvailable id name w h =
    let there = find-contains w.images id h in
    let ended = record there.0 { status = Status.available } in
    (ended, ground (arith, there.1, find-written w.images id there.0 ended there.1 refl), refl)

try_to_create-Keeps :
    (env : Environment) (s : Image) (user : UserInfo) (v : Image)
    → Keeps image_ids (try_to_create env s user v)
unfolding try_to_create
try_to_create-Keeps env s user v =
    catch-Keeps (λ raised. is_rpc_error raised || is_unfit raised) _ _
      (handle_create_image-Keeps env s.id (or_default user.id ""))
      (upload_on_storage-Keeps env (or_default user.id "") (get_storage_info env s.storage_id) v)

create_image_step-ends :
    (env : Environment) (s : Image) (user : UserInfo) (w : World) (v : Image)
    → find w.images s.id ≡ some v
    → (create_image_step env s user w).1 ≡ end_creating s.id s.name (try_to_create env s user v w).1
unfolding create_image_step get_or_fail
create_image_step-ends env s user w v h = ground arith

-- Once `_create_image` has run on an image that is in the table, the image is `available`, whatever
-- the storage, the domain layer and the checks have said: also if the method raised.
pub create_image_step-IsAvailable :
    (env : Environment) (s : Image) (user : UserInfo) (w : World) (v : Image)
    → find w.images s.id ≡ some v
    → (i : Image) × (find (create_image_step env s user w).1.images s.id ≡ some i)
      × (i.status ≡ Status.available)
create_image_step-IsAvailable env s user w v h =
    let there : contains (image_ids (try_to_create env s user v w).1) s.id ≡ true =
      ap (λ ids. contains ids s.id) ((try_to_create-Keeps env s user v).kept w)
      ∙ contains-find w.images s.id v h in
    let ended = end_creating-IsAvailable s.id s.name (try_to_create env s user v w).1 there in
    (
      ended.0,
      ap (λ after. find after.images s.id) (create_image_step-ends env s user w v h) ∙ ended.1,
      ended.2,
    )
