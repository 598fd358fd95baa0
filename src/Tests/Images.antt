-- ===== src/Tests/Images.antt =====
-- One image, and a domain layer that does not answer when it is uploaded.
use openvair_rde_linter.Base.{
  true, ◌≡◌, refl, none, some, List, [], ◌∷◌, arith, string_eq, String-discrete, String,
}
use openvair_rde_linter.Base.Dict
use openvair_rde_linter.Result.{Exn, ok, err}
use openvair_rde_linter.Service.{answered, timed_out}
use openvair_rde_linter.Service.Table.{find}
use openvair_rde_linter.Volumes.{blank, Attachment}
use openvair_rde_linter.Volumes.Checks.{is_empty_list, storage_info}
use openvair_rde_linter.Images.{
  Status, Image, image_keyed, UserInfo, cast_delete, World, Environment, to_domain, is_in,
}
use openvair_rde_linter.Images.Create.{create_image_step}
use openvair_rde_linter.Images.Create.Ended.{create_image_step-IsAvailable}
use openvair_rde_linter.Images.Attach.{attach_image}
use openvair_rde_linter.Images.Attach.Again.{attach_image-again}
use openvair_rde_linter.Images.Delete.{delete_image}
use openvair_rde_linter.Images.Delete.Token.{delete_image-key_error}
use openvair_rde_linter.Images.Monitor.{get_available_storages, monitoring}
use openvair_rde_linter.Images.Monitor.Unlisted.{monitoring-unlisted}
use openvair_rde_linter.Tests.Storage.{storage}

abbrev env : Environment
env = record {
  new_id = "i2";
  is_uuid = λ _. true;
  file_size = λ _. some 10;
  path_exists = λ _. true;
  get_storage = λ _. answered storage;
  get_all_storages = answered (storage ∷ []);
  domain_upload = λ _. timed_out;
  domain_delete = λ _. answered tt;
  domain_delete_from_tmp = λ _. answered tt;
  domain_attach_info = λ _. answered (some 10);
}

abbrev image : Status → List Attachment → Image
image status attachments = record {
  id = "i1";
  name = "system.iso";
  user_id = "u1";
  size = 10;
  path = "";
  status = status;
  information = blank;
  description = "";
  storage_id = "s1";
  storage_type = "";
  attachments = attachments;
}

abbrev holding : Image → World
holding i = record { images = i ∷ []; casts = []; events = []; files = [] }

-- the keys of the token that the user module makes
abbrev user : UserInfo
user = record { id = some "u1"; user_id = none }

found : (i : Image) → find (i ∷ []) i.id ≡ some i
unfolding find
found i = ground arith

upload_failed :
    (create_image_step env (image Status.new []) user (holding (image Status.new []))).0
    ≡ err Exn.rpc_call_timeout
unfolding create_image_step find String-discrete
upload_failed = refl

create_image_step-IsAvailable_example :
    (i : Image) × (find
        (create_image_step env (image Status.new []) user (holding (image Status.new []))).1.images
        "i1"
      ≡ some i)
    × (i.status ≡ Status.available)
create_image_step-IsAvailable_example =
    create_image_step-IsAvailable env (image Status.new []) user (holding (image Status.new []))
      (image Status.new []) (found (image Status.new []))

abbrev on_vm : Attachment
on_vm = record { vm_id = "a"; user_id = none; target = none }

attach_image-again_example :
    ((attach_image env "i1" on_vm (holding (image Status.available (on_vm ∷ [])))).0 ≡ ok (some 10))
    × (find
          (attach_image env "i1" on_vm (holding (image Status.available (on_vm ∷ [])))).1.images
          "i1"
        ≡ some (image Status.available (on_vm ∷ on_vm ∷ [])))
attach_image-again_example =
    attach_image-again env "i1" on_vm (holding (image Status.available (on_vm ∷ [])))
      (image Status.available (on_vm ∷ [])) (some 10) (found (image Status.available (on_vm ∷ [])))
      refl refl

delete_image-key_error_example :
    ((delete_image env "i1" user (holding (image Status.available []))).0
      ≡ err (Exn.key_error "user_id"))
    × ((delete_image env "i1" user (holding (image Status.available []))).1.casts
        ≡ cast_delete (to_domain (image Status.deleting [])) user ∷ [])
    × (find (delete_image env "i1" user (holding (image Status.available []))).1.images "i1"
        ≡ some (image Status.deleting []))
unfolding is_in is_empty_list
delete_image-key_error_example =
    delete_image-key_error env "i1" user (holding (image Status.available []))
      (image Status.available []) (found (image Status.available [])) refl refl refl

abbrev elsewhere : Image
elsewhere = record (image Status.available []) { storage_id = "s9" }

monitoring-unlisted_example :
    (storage_id : String) × ((monitoring env (holding elsewhere)).0
      ≡ err (Exn.key_error storage_id))
unfolding is_in get_available_storages Dict.get storage_info String-discrete
monitoring-unlisted_example =
    monitoring-unlisted env (holding elsewhere) "i1" elsewhere (found elsewhere) refl refl

-- It is the storage of that image that the exception names.
monitoring_run : (monitoring env (holding elsewhere)).0 ≡ err (Exn.key_error "s9")
unfolding monitoring find String-discrete
monitoring_run = refl
