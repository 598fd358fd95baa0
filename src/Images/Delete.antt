-- ===== src/Images/Delete.antt =====
-- openvair/modules/image/service_layer/services.py: `delete_image` and `_delete_image`.
pub mod Token
use openvair_rde_linter.Base.{
  String, Bool, true, false, not, ◌||◌, Option, none, some, List, [], ◌∷◌, is_empty, or_default,
  if◌then◌else◌,
}
use openvair_rde_linter.Result.{Exn, Result, ok, err}
use openvair_rde_linter.Service.{return, raise, modify, await, catch, is_rpc_error, ◌>>=◌, ◌>>◌}
use openvair_rde_linter.Service.Table.{remove}
use openvair_rde_linter.Volumes.{Message, said, failed_while}
use openvair_rde_linter.Images.{
  Status, Image, image_keyed, UserInfo, cast_delete, World, Environment, Run, get_or_fail, save,
  cast, add_event, to_domain, check_image_status, check_image_has_not_attachment,
}

-- `user_info['user_id']`
unfoldable pub user_of : UserInfo → Run String
user_of user_info = elim user_info.user_id [
  | none ↦ raise (Exn.key_error "user_id")
  | some id ↦ return id
]

-- the exceptions that `delete_image` handles
unfoldable pub is_undeletable : Exn → Bool
is_undeletable Exn.image_status = true
is_undeletable Exn.image_has_attachment = true
is_undeletable _ = false

-- the `try` block of `delete_image`
unfoldable pub start_deleting : Environment → UserInfo → Image → Run Image
unfolding check_image_status check_image_has_not_attachment save cast to_domain user_of add_event
start_deleting env user_info image = do
  check_image_status image.status (Status.available ∷ Status.error ∷ [])
  check_image_has_not_attachment image
  save (record image { status = Status.deleting })
  cast (cast_delete (to_domain (record image { status = Status.deleting })) user_info)
  user_id ← user_of user_info
  add_event env image.id user_id "_delete_image" (said "Image deleting was started successfully")
  return (record image { status = Status.deleting })

-- its handler
unfoldable pub refuse_deleting : Environment → UserInfo → Image → Exn → Run Image
unfolding save user_of add_event
refuse_deleting env user_info image raised = do
  save (record image {
    status = Status.error;
    information = failed_while "deleting the image" raised;
  })
  user_id ← user_of user_info
  add_event env image.id user_id "_delete_image" (failed_while "deleting the image" raised)
  raise Exn.image_deleting

unfoldable pub delete_image : Environment → String → UserInfo → Run Image
unfolding get_or_fail start_deleting refuse_deleting is_undeletable
delete_image env image_id user_info = do
  image ← get_or_fail image_id
  catch is_undeletable (refuse_deleting env user_info image) (start_deleting env user_info image)

-- the call of the domain layer, which an image that has never been placed does not need, and the
-- deletion of the row
unfoldable pub remove_image : Environment → Image → Image → Run (Unit {0})
unfolding is_empty remove
remove_image env serialized image = do
  if is_empty image.storage_type then return tt else await (env.domain_delete serialized)
  modify (λ w. record w { images = remove w.images image.id })

-- the handler of `_delete_image`: if its event raises, the session ends before the row is written.
unfoldable pub fail_deleting : Environment → String → Image → Exn → Run (Unit {0})
unfolding add_event save
fail_deleting env user_id image raised = do
  add_event env image.id user_id "_delete_image"
      (failed_while "calling the domain layer while deleting image" raised)
  save (record image {
    status = Status.error;
    information = failed_while "calling the domain layer while deleting image" raised;
  })
  raise Exn.image_deleting

-- `_delete_image`, on the image and the user that were cast
unfoldable pub delete_image_step : Environment → Image → UserInfo → Run (Unit {0})
unfolding get_or_fail remove_image fail_deleting add_event or_default
delete_image_step env serialized user_info = do
  image ← get_or_fail serialized.id
  catch is_rpc_error (fail_deleting env (or_default user_info.id "") image)
      (remove_image env serialized image)
  add_event env serialized.id (or_default user_info.id "") "_delete_image"
      (said "Image was deleted successfully")
