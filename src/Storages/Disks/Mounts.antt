-- ===== src/Storages/Disks/Mounts.antt =====
-- openvair/modules/storage/libs/utils.py: the partition that `is_system_partition` looks at, when the
-- names that `lsblk` prints differ.
use openvair_rde_linter.Base.{
  String, ◌<>◌, true, false, ◌≡◌, ap, ◌⊎◌, inl, inr, Option, none, some, List, [], ◌∷◌, map, arith,
  contains, keep_if, string_eq,
}
use openvair_rde_linter.Result.{ok, ok-injective}
use openvair_rde_linter.Service.Table.{Distinct}
use openvair_rde_linter.Storages.Disks.{
  Child, BlockDevice, children_of, is_text, disk_devices, next_disk, next_child, system_mountpoints,
  is_system_partition,
}

-- The list has the element.
abbrev pub Among : {A : Type 0} → A → List A → Type 0
Among x [] = ⊥
Among x (y ∷ ys) = (y ≡ x) ⊎ Among x ys

abbrev pub device_names : List BlockDevice → List String
device_names devices = map (λ (d : BlockDevice). d.name) devices

abbrev pub child_names : List Child → List String
child_names children = map (λ (c : Child). c.name) children

-- not mounted at all, or in none of the directories that belong to the system
abbrev pub IsSpared : Option String → Type 0
IsSpared none = Unit
IsSpared (some point) = contains system_mountpoints point ≡ false

module _ {A : Type 0} (name : A → String) where
  named-Among : (x : A) (xs : List A) → Among x xs → contains (map name xs) (name x) ≡ true
  named-Among x [] h = elim h [ ]
  named-Among x (y ∷ ys) (inl e) = ground (arith, ap name e)
  named-Among x (y ∷ ys) (inr m) = ground (arith, named-Among x ys m)

next_child-Among :
    (c : Child) (children : List Child)
    → Among c children
    → Distinct (child_names children)
    → next_child children c.name ≡ ok c
unfolding next_child
next_child-Among c [] h d = elim h [ ]
next_child-Among c (b ∷ children) (inl e) d = ground arith
next_child-Among c (b ∷ children) (inr m) d =
    ground
      (arith, next_child-Among c children m d.1, named-Among (λ (x : Child). x.name) c children m)

next_disk-Among :
    (disk : BlockDevice) (devices : List BlockDevice)
    → Among disk devices
    → disk.type ≡ some "disk"
    → Distinct (device_names devices)
    → next_disk (disk_devices devices) disk.name ≡ ok disk
unfolding next_disk disk_devices keep_if is_text
next_disk-Among disk [] h typed d = elim h [ ]
next_disk-Among disk (b ∷ devices) (inl e) typed d = ground arith
next_disk-Among disk (b ∷ devices) (inr m) typed d = ground (
  arith,
  next_disk-Among disk devices m typed d.1,
  named-Among (λ (x : BlockDevice). x.name) disk devices m,
)

-- What `is_system_partition` answers on a partition of a disk, by its mount point.
pub is_system_partition-IsSpared :
    (devices : List BlockDevice) (disk : BlockDevice) (part : Child) (part_num : String)
    → Among disk devices
    → disk.type ≡ some "disk"
    → Distinct (device_names devices)
    → Among part (children_of disk)
    → part.name ≡ disk.name <> part_num
    → Distinct (child_names (children_of disk))
    → is_system_partition devices disk.name part_num ≡ ok false
    → IsSpared part.mountpoint
unfolding is_system_partition
is_system_partition-IsSpared devices disk part part_num listed typed disks below named parts h =
    by_mountpoint part.mountpoint (
      ground (
        arith,
        next_disk-Among disk devices listed typed disks,
        next_child-Among part (children_of disk) below parts,
      ))
  where
    by_mountpoint :
        (mountpoint : Option String)
        → elim mountpoint [ none ↦ ok false | some point ↦ ok (contains system_mountpoints point) ]
          ≡ ok false
        → IsSpared mountpoint
    by_mountpoint none same = tt
    by_mountpoint (some point) same = ok-injective same
