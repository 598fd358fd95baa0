-- ===== src/Images/Create.antt =====
-- openvair/modules/image/service_layer/services.py: `upload_image` and `_create_image`.
pub mod Ended
use openvair_rde_linter.Base.{
  ℕ, String, Bool, true, false, not, ◌||◌, Option, none, some, List, [], ◌∷◌, ◌==◌, string_eq,
  nat_eq, is_empty, or_default, if◌then◌else◌,
}
use openvair_rde_linter.Result.{Exn, Result, ok, err}
use openvair_rde_linter.Service.{
  return, raise, raise_if, modify, gets, await, catch, finally, is_rpc_error, ◌>>=◌, ◌>>◌,
}
use openvair_rde_linter.Service.Table.{find, write, add}
use openvair_rde_linter.Volumes.{Message, blank, said, failed_while, StorageInfo}
use openvair_rde_linter.Images.{
  Status, Image, image_keyed, UserInfo, cast_create, World, Environment, Run, get_or_fail, save,
  cast, add_event, delete_image_from_tmp, to_domain, check_image_status, get_storage_info,
  check_storage_on_availability, check_available_space_on_storage,
}

-- the message of `upload_image`
pub record UploadRequest : Type 0 where
  pub name : String
  pub description : String
  pub storage_id : String
  pub user_info : UserInfo

-- `ImageInfo`
pub record ImageInfo : Type 0 where
  pub name : String
  pub size : ℕ
  pub description : String
  pub storage_id : String
  pub user_id : String

-- Nothing is left in the message once its keys are taken out, so the size or the storage has to be
-- there.
unfoldable pub prepare_image_data : Environment → UploadRequest → Run ImageInfo
unfolding is_empty or_default
prepare_image_data env request = elim (env.file_size request.name) [
  | none ↦ raise Exn.file_not_found
  | some size ↦
      if not (nat_eq size 0) || not (is_empty request.storage_id)
      then return (record {
        name = request.name;
        size = size;
        description = request.description;
        storage_id = request.storage_id;
        user_id = or_default request.user_info.id "";
      })
      else raise Exn.unexpected_data_arguments
]

-- `get_by_name(…)` is not empty
unfoldable pub name_is_taken : List Image → String → Bool
name_is_taken [] name = false
name_is_taken (i ∷ images) name = i.name == name || name_is_taken images name

-- `DataSerializer.to_db` with the status that is set next, under the id that the insert gives.
unfoldable pub new_image : String → ImageInfo → Image
new_image id image = record {
  id = id;
  name = image.name;
  user_id = image.user_id;
  size = image.size;
  path = "";
  status = Status.new;
  information = blank;
  description = image.description;
  storage_id = image.storage_id;
  storage_type = "";
  attachments = [];
}

-- the block of `upload_image` that writes
unfoldable pub insert_image : Environment → ImageInfo → Run Image
unfolding name_is_taken delete_image_from_tmp new_image add
insert_image env image w =
    let row = new_image env.new_id image in
    if name_is_taken w.images image.name
    then (err Exn.image_name_exists, delete_image_from_tmp image.name w)
    else (ok row, record w { images = add w.images row })

unfoldable pub upload_image : Environment → UploadRequest → Run Image
unfolding prepare_image_data insert_image cast add_event or_default
upload_image env request = do
  image ← prepare_image_data env request
  row ← insert_image env image
  cast (cast_create row request.user_info)
  add_event env row.id (or_default request.user_info.id "") "upload_image"
      (said "Image was uploaded successfully")
  return row

-- the exceptions of the checks that `_create_image` handles
unfoldable pub is_unfit : Exn → Bool
is_unfit Exn.image_status = true
is_unfit Exn.validate_arguments = true
is_unfit Exn.storage_unavailable = true
is_unfit _ = false

-- what is being done, in the message of each handler
unfoldable pub doing : Exn → String
doing raised =
    if is_rpc_error raised
    then "calling the domain layer while creating image"
    else "creating image"

-- the row as it is uploaded
unfoldable pub uploading_to : StorageInfo → Image → Image
uploading_to storage image = record image {
  status = Status.uploading;
  path = storage.mount_point;
  storage_type = storage.storage_type;
}

-- the `try` block of `_create_image`
unfoldable pub upload_on_storage : Environment → String → StorageInfo → Image → Run (Unit {0})
unfolding check_image_status check_storage_on_availability check_available_space_on_storage save
    uploading_to to_domain add_event
upload_on_storage env user_id storage image = do
  check_image_status image.status (Status.new ∷ [])
  check_storage_on_availability storage
  check_available_space_on_storage image.size storage
  save (uploading_to storage image)
  await (env.domain_upload (to_domain (uploading_to storage image)))
  add_event env image.id user_id "_create_image" (said "Image was created successfully")

-- A handler of `_create_image`: the event, then `_call_domain_delete_from_tmp` on the row as it is
-- then, and the exception again.
unfoldable pub handle_create_image : Environment → String → String → Exn → Run (Unit {0})
unfolding add_event get_or_fail save to_domain doing
handle_create_image env image_id user_id raised = do
  add_event env image_id user_id "_create_image" (failed_while (doing raised) raised)
  image ← get_or_fail image_id
  save (record image { status = Status.error; information = failed_while (doing raised) raised })
  await (
      env.domain_delete_from_tmp (
        to_domain (record image {
          status = Status.error;
          information = failed_while (doing raised) raised;
        })))
  raise raised

-- the `finally` block: the status is `available` whatever went before
unfoldable pub end_creating : String → String → World → World
unfolding delete_image_from_tmp find write
end_creating image_id name w =
    let after = delete_image_from_tmp name w in
    elim (find after.images image_id) [
      | none ↦ after
      | some image ↦ record after {
        images = write after.images (record image { status = Status.available });
      }
    ]

-- the `try` block with its handlers
unfoldable pub try_to_create : Environment → Image → UserInfo → Image → Run (Unit {0})
unfolding get_storage_info upload_on_storage handle_create_image is_unfit or_default
try_to_create env serialized user_info image =
    catch (λ raised. is_rpc_error raised || is_unfit raised)
      (handle_create_image env serialized.id (or_default user_info.id ""))
      (upload_on_storage env (or_default user_info.id "")
        (get_storage_info env serialized.storage_id) image)

-- `_create_image`, on the image and the user that were cast
unfoldable pub create_image_step : Environment → Image → UserInfo → Run (Unit {0})
unfolding get_or_fail try_to_create end_creating
create_image_step env serialized user_info = do
  image ← get_or_fail serialized.id
  finally (end_creating serialized.id serialized.name)
      (try_to_create env serialized user_info image)
