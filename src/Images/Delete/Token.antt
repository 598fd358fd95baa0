-- ===== src/Images/Delete/Token.antt =====
-- openvair/modules/image/service_layer/services.py: a request to delete by a token without `user_id`.
use openvair_rde_linter.Base.{String, true, ◌≡◌, refl, none, some, [], ◌∷◌, ◌++◌, arith}
use openvair_rde_linter.Result.{Exn, err}
use openvair_rde_linter.Service.Table.{find, find-written}
use openvair_rde_linter.Volumes.Checks.{is_empty_list}
use openvair_rde_linter.Images.{
  Status, Image, image_keyed, UserInfo, cast_delete, World, Environment, get_or_fail, save, cast,
  to_domain, check_image_status, check_image_has_not_attachment, is_in,
}
use openvair_rde_linter.Images.Delete.{user_of, is_undeletable, start_deleting, delete_image}

-- A request to delete an image that may be deleted, by a user whose token has no `user_id`, raises
-- `KeyError`; but the image is marked as `deleting` and its deletion is cast.
pub delete_image-key_error :
    (env : Environment) (id : String) (user : UserInfo) (w : World) (v : Image)
    → find w.images id ≡ some v
    → is_in v.status (Status.available ∷ Status.error ∷ []) ≡ true
    → is_empty_list v.attachments ≡ true
    → user.user_id ≡ none
    → ((delete_image env id user w).0 ≡ err (Exn.key_error "user_id"))
      × ((delete_image env id user w).1.casts
          ≡ w.casts ++ (cast_delete (to_domain (record v { status = Status.deleting })) user ∷ []))
      × (find (delete_image env id user w).1.images id
          ≡ some (record v { status = Status.deleting }))
unfolding delete_image get_or_fail start_deleting check_image_status check_image_has_not_attachment
    save cast user_of is_undeletable
delete_image-key_error env id user w v h may free lacks =
    let written = find-written w.images id v (record v { status = Status.deleting }) h refl in
    (ground arith, ground arith, ground (arith, written))
