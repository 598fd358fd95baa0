-- ===== src/Images.antt =====
-- openvair/modules/image/service_layer/services.py: the state of `ImageServiceLayerManager`, the other
-- services as it sees them, and the steps that its methods share. The messages are those that
-- entrypoints/crud.py sends.
pub mod Create
pub mod Delete
pub mod Attach
pub mod Monitor
use openvair_rde_linter.Base.{
  ℕ, String, Bool, true, false, not, Option, none, some, List, [], ◌∷◌, ◌++◌, ◌==◌, string_eq, leb,
  is_empty, keep_if, or_default, if◌then◌else◌,
}
use openvair_rde_linter.Result.{Exn, Result, ok, err}
use openvair_rde_linter.Service.{
  Reply, answered, call_failed, timed_out, return, raise, raise_if, modify, gets, ◌>>=◌, ◌>>◌,
}
use openvair_rde_linter.Service.Table.{Keyed, find, write, add, remove}
use openvair_rde_linter.Volumes.{
  Message, failed_while, Attachment, Event, StorageInfo, StorageReply,
}
use openvair_rde_linter.Volumes.Checks.{is_empty_list, storage_info}
use mathlib.Core.Logic.{ite}

-- `ImageStatus`
pub data Status : Type 0 where
  new uploading available error deleting : Status

unfoldable pub Status-discrete : Discrete Status
Status-discrete = hlevel

-- a row of the table `images` with its attachments
pub record Image : Type 0 where
  pub id : String
  pub name : String
  pub user_id : String
  pub size : ℕ
  pub path : String
  pub status : Status
  pub information : Message
  pub description : String
  pub storage_id : String
  pub storage_type : String
  pub attachments : List Attachment

instance abbrev pub image_keyed : Keyed Image
image_keyed = record { key = λ i. i.id }

-- the keys of the token that the methods look for
pub record UserInfo : Type 0 where
  pub id : Option String
  pub user_id : Option String

-- a method that the service casts to itself, with the image and the user
pub data Cast : Type 0 where
  cast_create : Image → UserInfo → Cast
  cast_delete : Image → UserInfo → Cast

-- the database, what has been cast, the events, and the names of the files in `TMP_DIR`
pub record World : Type 0 where
  pub images : List Image
  pub casts : List Cast
  pub events : List Event
  pub files : List String

-- What the other services answer during one call of a method, the id of a new row, the sizes of
-- files, which paths exist, and which texts `uuid.UUID` takes.
pub record Environment : Type 0 where
  pub new_id : String
  pub is_uuid : String → Bool
  pub file_size : String → Option ℕ
  pub path_exists : String → Bool
  pub get_storage : String → Reply StorageReply
  pub get_all_storages : Reply (List StorageReply)
  pub domain_upload : Image → Reply (Unit {0})
  pub domain_delete : Image → Reply (Unit {0})
  pub domain_delete_from_tmp : Image → Reply (Unit {0})
  pub domain_attach_info : Image → Reply (Option ℕ)

abbrev pub Run : Type 0 → Type 0
Run A = World → Result A × World

-- `uow.images.get_or_fail`
unfoldable pub get_or_fail : String → Run Image
unfolding find
get_or_fail id w = elim (find w.images id) [
  | none ↦ (err Exn.entity_not_found, w)
  | some image ↦ (ok image, w)
]

-- a tracked row as it is committed
unfoldable pub save : Image → Run (Unit {0})
unfolding write
save image = modify (λ w. record w { images = write w.images image })

unfoldable pub cast : Cast → Run (Unit {0})
cast message = modify (λ w. record w { casts = w.casts ++ (message ∷ []) })

-- `self.event_client.add_event` with `uuid.UUID(user_id)`, which raises on other texts
unfoldable pub add_event : Environment → String → String → String → Message → Run (Unit {0})
add_event env object_id user_id event information =
    if env.is_uuid user_id
    then modify (λ w. record w {
      events =
          w.events
          ++ (record {
            object_id = object_id;
            user_id = user_id;
            event = event;
            information = information;
          }
              ∷ []);
    })
    else raise Exn.value_error

-- `_delete_image_from_tmp`
unfoldable pub delete_image_from_tmp : String → World → World
unfolding keep_if
delete_image_from_tmp name w = record w { files = keep_if (λ f. not (f == name)) w.files }

-- `DataSerializer.to_domain`
unfoldable pub to_domain : Image → Image
to_domain image = record image { attachments = [] }

unfoldable pub is_in : Status → List Status → Bool
unfolding Status-discrete
is_in status [] = false
is_in status (s ∷ statuses) = ite (Status-discrete status s) true (is_in status statuses)

unfoldable pub check_image_status : Status → List Status → Run (Unit {0})
unfolding is_in
check_image_status status available_statuses =
    raise_if (not (is_in status available_statuses)) Exn.image_status

unfoldable pub check_image_has_not_attachment : Image → Run (Unit {0})
unfolding is_empty_list
check_image_has_not_attachment image =
    raise_if (not (is_empty_list image.attachments)) Exn.image_has_attachment

-- Both exceptions of the call give a storage with nothing in it.
unfoldable pub get_storage_info : Environment → String → StorageInfo
unfolding storage_info
get_storage_info env storage_id = elim (env.get_storage storage_id) [
  | answered reply ↦ storage_info reply
  | call_failed ↦ blank_storage
  | timed_out ↦ blank_storage
]
  where
    blank_storage : StorageInfo
    blank_storage = record {
      id = "";
      name = "";
      storage_type = "";
      status = "";
      available_space = 0;
      mount_point = "";
    }

unfoldable pub check_storage_on_availability : StorageInfo → Run (Unit {0})
check_storage_on_availability storage =
    raise_if (not (storage.status == "available")) Exn.storage_unavailable

unfoldable pub check_available_space_on_storage : ℕ → StorageInfo → Run (Unit {0})
check_available_space_on_storage image_size storage =
    raise_if (leb storage.available_space image_size) Exn.validate_arguments

unfoldable pub get_image : Option String → Run Image
unfolding get_or_fail is_empty or_default
get_image image_id =
    if is_empty (or_default image_id "")
    then raise Exn.unexpected_data_arguments
    else get_or_fail (or_default image_id "")

-- `get_all_by_storage` if a storage is given, else `get_all`
unfoldable pub get_all_images : Option String → Run (List Image)
unfolding keep_if is_empty or_default
get_all_images storage_id = gets (λ w.
    if is_empty (or_default storage_id "")
    then w.images
    else keep_if (λ i. i.storage_id == or_default storage_id "") w.images)
