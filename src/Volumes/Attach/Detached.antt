-- ===== src/Volumes/Attach/Detached.antt =====
-- openvair/modules/volume/service_layer/services.py: what the loop of `detach_volume` removes.
use openvair_rde_linter.Base.{
  String, Bool, true, false, not, ◌≡◌, refl, sym, ap, ◌∙◌, subst, some, List, [], ◌∷◌, map, arith,
  contains, keep_if, ◌==◌, string_eq, or_default, if◌then◌else◌,
}
use openvair_rde_linter.Result.{ok}
use openvair_rde_linter.Service.Table.{find, find-written, Distinct}
use openvair_rde_linter.Volumes.{Status, Attachment, Volume, volume_keyed, World, get_or_fail, save}
use openvair_rde_linter.Volumes.Checks.{check_volume_status, is_in}
use openvair_rde_linter.Volumes.Attach.{detach_loop, detach_volume}

-- the attachments of other machines
abbrev pub others : String → List Attachment → List Attachment
others vm_id attachments = keep_if (λ a. not (a.vm_id == vm_id)) attachments

abbrev pub machines : List Attachment → List String
machines attachments = map (λ (a : Attachment). a.vm_id) attachments

-- The loop of `detach_volume` leaves every attachment of another machine where it is, and adds none.
pub others-detach_loop :
    (vm_id : String) (attachments : List Attachment)
    → others vm_id (detach_loop vm_id attachments) ≡ others vm_id attachments
unfolding detach_loop keep_if
others-detach_loop vm_id [] = refl
others-detach_loop vm_id (a ∷ []) = ground arith
others-detach_loop vm_id (a ∷ b ∷ rest) =
    ground (arith, others-detach_loop vm_id rest, others-detach_loop vm_id (b ∷ rest))

others_absent :
    (vm_id : String) (attachments : List Attachment)
    → contains (machines attachments) vm_id ≡ false
    → others vm_id attachments ≡ attachments
unfolding keep_if
others_absent vm_id [] h = refl
others_absent vm_id (a ∷ rest) h = ground (arith, others_absent vm_id rest)

detach_loop-absent :
    (vm_id : String) (attachments : List Attachment)
    → contains (machines attachments) vm_id ≡ false
    → detach_loop vm_id attachments ≡ attachments
unfolding detach_loop
detach_loop-absent vm_id [] h = refl
detach_loop-absent vm_id (a ∷ []) h = ground arith
detach_loop-absent vm_id (a ∷ b ∷ rest) h = ground (arith, detach_loop-absent vm_id (b ∷ rest))

removed_first :
    (vm_id : String) (b : Attachment) (rest : List Attachment)
    → contains (machines (b ∷ rest)) vm_id ≡ false
    → (b ∷ detach_loop vm_id rest) ≡ others vm_id (b ∷ rest)
removed_first vm_id b rest h =
    ap (λ xs. b ∷ xs) (detach_loop-absent vm_id rest (ground arith))
    ∙ sym (others_absent vm_id (b ∷ rest) h)

detach_loop-Distinct :
    (vm_id : String) (attachments : List Attachment)
    → Distinct (machines attachments)
    → detach_loop vm_id attachments ≡ others vm_id attachments
unfolding detach_loop keep_if
detach_loop-Distinct vm_id [] d = refl
detach_loop-Distinct vm_id (a ∷ []) d = ground arith
detach_loop-Distinct vm_id (a ∷ b ∷ rest) d =
    by_test (a.vm_id == vm_id) (b ∷ detach_loop vm_id rest) (detach_loop vm_id (b ∷ rest)) a
      (others vm_id (b ∷ rest)) (λ same. removed_first vm_id b rest (gone same))
      (detach_loop-Distinct vm_id (b ∷ rest) d.1)
  where
    by_test :
        (same : Bool) (removed looked : List Attachment) (a : Attachment) (kept : List Attachment)
        → (same ≡ true → removed ≡ kept)
        → looked ≡ kept
        → (if same then removed else a ∷ looked) ≡ (if not same then a ∷ kept else kept)
    by_test true removed looked a kept h ih = h refl
    by_test false removed looked a kept h ih = ap (λ xs. a ∷ xs) ih

    equal : (x y : String) → (x == y) ≡ true → x ≡ y
    equal x y h = ground arith

    gone : (a.vm_id == vm_id) ≡ true → contains (machines (b ∷ rest)) vm_id ≡ false
    gone same =
        subst (λ id. contains (machines (b ∷ rest)) id ≡ false) (equal a.vm_id vm_id same) d.0

-- When a volume whose status is `available` or `error` is detached from a machine, and no two of its
-- attachments are of one machine, then the method returns the volume with exactly the attachments of
-- the other machines, in their order, and this is the row that the table holds afterwards.
pub detach_volume-others :
    (id vm_id : String) (w : World) (v : Volume)
    → find w.volumes id ≡ some v
    → is_in v.status (Status.available ∷ Status.error ∷ []) ≡ true
    → Distinct (machines v.attachments)
    → ((detach_volume (some id) (some vm_id) w).0
        ≡ ok (record v { attachments = others vm_id v.attachments }))
      × (find (detach_volume (some id) (some vm_id) w).1.volumes id
          ≡ some (record v { attachments = others vm_id v.attachments }))
unfolding detach_volume get_or_fail check_volume_status save or_default
detach_volume-others id vm_id w v h may d =
    let left : Volume = record v { attachments = detach_loop vm_id v.attachments } in
    let written = find-written w.volumes id v left h refl in
    let exactly = detach_loop-Distinct vm_id v.attachments d in
    (ground (arith, exactly), ground (arith, exactly, written))
