-- ===== src/Volumes/Delete/Requests.antt =====
-- openvair/modules/volume/service_layer/services.py: requests to delete a volume, one after another.
use openvair_rde_linter.Base.{
  String, Bool, true, false, ◌&&◌, ◌≡◌, refl, sym, ap, ◌∙◌, some, [], ◌∷◌, ◌++◌, arith, string_eq,
  or_default, if◌then◌else◌,
}
use mathlib.Core.List.{append-nil}
use openvair_rde_linter.Result.{Exn, ok, err}
use openvair_rde_linter.Service.Table.{find, write, find-written}
use openvair_rde_linter.Volumes.{
  Status, Status-discrete, failed_while, Volume, volume_keyed, cast_delete, World, get_or_fail,
  save, cast, add_event, to_domain, mark,
}
use openvair_rde_linter.Volumes.Checks.{
  check_volume_status, is_in, check_volume_has_not_attachment, is_empty_list,
}
use openvair_rde_linter.Volumes.Delete.{start_deleting, delete_volume, is_undeletable}

-- the volume may be deleted
abbrev pub may_be_deleted : Volume → Bool
may_be_deleted v =
    is_in v.status (Status.available ∷ Status.error ∷ []) && is_empty_list v.attachments

-- the exception if it may not
abbrev pub refusal : Volume → Exn
refusal v =
    if is_in v.status (Status.available ∷ Status.error ∷ [])
    then Exn.volume_has_attachment
    else Exn.volume_status

delete_volume-allowed :
    (id : String) (w : World) (v : Volume)
    → find w.volumes id ≡ some v
    → may_be_deleted v ≡ true
    → ((delete_volume (some id) w).0 ≡ ok (record v { status = Status.deleting }))
      × ((delete_volume (some id) w).1.volumes
          ≡ write w.volumes (record v { status = Status.deleting }))
      × ((delete_volume (some id) w).1.casts
          ≡ w.casts ++ (cast_delete (to_domain (record v { status = Status.deleting })) ∷ []))
unfolding delete_volume get_or_fail start_deleting check_volume_status
    check_volume_has_not_attachment save cast add_event or_default is_empty_list
delete_volume-allowed id w v h may = ground arith

delete_volume-refused :
    (id : String) (w : World) (v : Volume)
    → find w.volumes id ≡ some v
    → may_be_deleted v ≡ false
    → ((delete_volume (some id) w).0 ≡ err (refusal v))
      × ((delete_volume (some id) w).1.volumes
          ≡ write w.volumes (record v {
            status = Status.error;
            information = failed_while "deleting the volume" (refusal v);
          }))
      × ((delete_volume (some id) w).1.casts ≡ w.casts)
unfolding delete_volume get_or_fail start_deleting check_volume_status
    check_volume_has_not_attachment save cast add_event or_default is_empty_list mark is_undeletable
delete_volume-refused id w v h may = ground arith

-- A request to delete a volume that is there is granted if its status is `available` or `error` and
-- nothing is attached to it: the volume is marked as `deleting` and its deletion is cast. If not, the
-- request raises, nothing is cast, and the volume is marked as `error`.
pub delete_volume-decides :
    (id : String) (w : World) (v : Volume)
    → find w.volumes id ≡ some v
    → ((delete_volume (some id) w).0 ≡ (
        if may_be_deleted v then ok (record v { status = Status.deleting }) else err (refusal v)))
      × ((delete_volume (some id) w).1.casts
          ≡ w.casts
            ++ (if may_be_deleted v
                then cast_delete (to_domain (record v { status = Status.deleting })) ∷ []
                else []))
      × (find (delete_volume (some id) w).1.volumes id
          ≡ some (
              if may_be_deleted v then record v { status = Status.deleting } else record v {
                status = Status.error;
                information = failed_while "deleting the volume" (refusal v);
              }))
delete_volume-decides id w v h = by_case (may_be_deleted v) refl
  where
    by_case :
        (may : Bool)
        → may_be_deleted v ≡ may
        → ((delete_volume (some id) w).0
            ≡ (if may then ok (record v { status = Status.deleting }) else err (refusal v)))
          × ((delete_volume (some id) w).1.casts
              ≡ w.casts
                ++ (if may
                    then cast_delete (to_domain (record v { status = Status.deleting })) ∷ []
                    else []))
          × (find (delete_volume (some id) w).1.volumes id
              ≡ some (
                  if may then record v { status = Status.deleting } else record v {
                    status = Status.error;
                    information = failed_while "deleting the volume" (refusal v);
                  }))
    by_case true may =
        let done = delete_volume-allowed id w v h may in
        (done.0, done.2, ap (λ t. find t id) done.1 ∙ find-written w.volumes id v _ h refl)
    by_case false may =
        let done = delete_volume-refused id w v h may in
        (
          done.0,
          done.2 ∙ sym (append-nil w.casts),
          ap (λ t. find t id) done.1 ∙ find-written w.volumes id v _ h refl,
        )

-- A request to delete a volume that is refused for its status alone makes a second request for it
-- succeed: the refusal has marked the volume as `error`, and that status may be deleted.
pub delete_volume-repeated :
    (id : String) (w : World) (v : Volume)
    → find w.volumes id ≡ some v
    → is_in v.status (Status.available ∷ Status.error ∷ []) ≡ false
    → is_empty_list v.attachments ≡ true
    → ((delete_volume (some id) w).0 ≡ err Exn.volume_status)
      × ((u : Volume) × ((delete_volume (some id) (delete_volume (some id) w).1).0 ≡ ok u)
          × (u.status ≡ Status.deleting))
unfolding is_in Status-discrete
delete_volume-repeated id w v h busy free =
    let first = delete_volume-decides id w v h in
    let refused : may_be_deleted v ≡ false = ground arith in
    let marked = record v {
      status = Status.error;
      information = failed_while "deleting the volume" (refusal v);
    } in
    let found : find (delete_volume (some id) w).1.volumes id ≡ some marked =
      first.2 ∙ ground arith in
    let second = delete_volume-allowed id (delete_volume (some id) w).1 marked found free in
    (first.0 ∙ ground arith, (record marked { status = Status.deleting }, second.0, refl))
