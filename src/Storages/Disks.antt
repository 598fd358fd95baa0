-- ===== src/Storages/Disks.antt =====
-- openvair/modules/storage/libs/utils.py: the disks and partitions that `lsblk` prints.
pub mod Mounts
use openvair_rde_linter.Base.{
  ℕ, String, ◌<>◌, Bool, false, ◌||◌, Option, none, some, List, [], ◌∷◌, ◌++◌, map, contains,
  keep_if, ◌==◌, string_eq, if◌then◌else◌,
}
use openvair_rde_linter.Result.{Exn, Result, ok, err, ◌>>=◌}

-- an entry below `children` of `lsblk --json`
pub record Child : Type 0 where
  pub name : String
  pub size : ℕ
  pub type : Option String
  pub mountpoint : Option String
  pub uuid : Option String
  pub fstype : Option String

-- an entry of `blockdevices`, in which `children` may be missing
pub record BlockDevice : Type 0 where
  pub name : String
  pub size : ℕ
  pub type : Option String
  pub mountpoint : Option String
  pub uuid : Option String
  pub fstype : Option String
  pub children : Option (List Child)

-- the dict of a disk, or of a partition with its parent
pub record Disk : Type 0 where
  pub path : String
  pub size : ℕ
  pub mountpoint : Option String
  pub fs_uuid : Option String
  pub type : Option String
  pub fstype : Option String
  pub parent : Option String

-- the field is this text
unfoldable pub is_text : Option String → String → Bool
is_text none t = false
is_text (some s) t = s == t

abbrev pub children_of : BlockDevice → List Child
children_of device = elim device.children [ none ↦ [] | some children ↦ children ]

unfoldable pub disk_of : BlockDevice → Disk
disk_of device = record {
  path = device.name;
  size = device.size;
  mountpoint = device.mountpoint;
  fs_uuid = device.uuid;
  type = device.type;
  fstype = device.fstype;
  parent = none;
}

-- the entries whose type is `disk`
unfoldable pub disk_devices : List BlockDevice → List BlockDevice
unfolding keep_if is_text
disk_devices devices = keep_if (λ device. is_text device.type "disk") devices

unfoldable pub get_system_disks : List BlockDevice → List Disk
unfolding disk_devices disk_of
get_system_disks devices = map disk_of (disk_devices devices)

unfoldable pub is_mounted : List Child → String → Bool
unfolding is_text
is_mounted [] point = false
is_mounted (child ∷ children) point = is_text child.mountpoint point || is_mounted children point

-- The last of the disks with that path, since a dict keeps the last one.
unfoldable pub last_with_path : List BlockDevice → String → Option BlockDevice
last_with_path [] path = none
last_with_path (device ∷ devices) path = elim (last_with_path devices path) [
  | some found ↦ some found
  | none ↦ if device.name == path then some device else none
]

unfoldable pub is_system_disk : List BlockDevice → String → Bool
unfolding last_with_path disk_devices is_mounted
is_system_disk devices path = elim (last_with_path (disk_devices devices) path) [
  | none ↦ false
  | some disk ↦ is_mounted (children_of disk) "/"
]

unfoldable pub partition_of : String → Child → Disk
partition_of parent child = record {
  path = child.name;
  size = child.size;
  mountpoint = child.mountpoint;
  fs_uuid = child.uuid;
  type = child.type;
  fstype = child.fstype;
  parent = some parent;
}

unfoldable pub partitions_of : List BlockDevice → List Disk
unfolding partition_of
partitions_of [] = []
partitions_of (device ∷ devices) =
    map (partition_of device.name) (children_of device) ++ partitions_of devices

unfoldable pub get_local_partitions : List BlockDevice → List Disk
unfolding partitions_of disk_devices
get_local_partitions devices = partitions_of (disk_devices devices)

-- `SYSTEM_MOUNTPOINTS`
abbrev pub system_mountpoints : List String
system_mountpoints =
    "/" ∷ "/bin" ∷ "/boot" ∷ "/dev" ∷ "/etc" ∷ "/etc/X11" ∷ "/etc/apt" ∷ "/etc/samba" ∷ "/home"
    ∷ "/lib" ∷ "/media" ∷ "/opt" ∷ "/proc" ∷ "/root" ∷ "/sbin" ∷ "/srv" ∷ "/tmp" ∷ "/usr"
    ∷ "/usr/bin" ∷ "/usr/include" ∷ "/usr/lib" ∷ "/usr/sbin" ∷ "/usr/share" ∷ "/usr/src"
    ∷ "/usr/local" ∷ "/var" ∷ "/var/cache" ∷ "/var/lib" ∷ "/var/lock" ∷ "/var/log" ∷ "/var/mail"
    ∷ "/var/run" ∷ "/var/spool" ∷ "/var/tmp" ∷ "/var/www" ∷ []

-- `next(filter(…))` over the disks: none is `StopIteration`.
unfoldable pub next_disk : List BlockDevice → String → Result BlockDevice
next_disk [] path = err Exn.stop_iteration
next_disk (device ∷ devices) path =
    if device.name == path then ok device else next_disk devices path

unfoldable pub next_child : List Child → String → Result Child
next_child [] path = err Exn.stop_iteration
next_child (child ∷ children) path =
    if child.name == path then ok child else next_child children path

-- `disk['children']` is an empty list if `lsblk` printed none.
unfoldable pub is_system_partition : List BlockDevice → String → String → Result Bool
unfolding next_disk next_child disk_devices
is_system_partition devices disk_path part_num = do
  disk ← next_disk (disk_devices devices) disk_path
  partition ← next_child (children_of disk) (disk_path <> part_num)
  elim partition.mountpoint [
    | none ↦ ok false
    | some point ↦ ok (contains system_mountpoints point)
  ]
