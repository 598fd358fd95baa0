-- ===== src/Tests/Stores.antt =====
-- One storage that has been asked for, and services that answer as they should.
use openvair_rde_linter.Base.{false, ◌≡◌, none, some, List, [], ◌∷◌, string_eq, arith}
use openvair_rde_linter.Service.{answered, call_failed}
use openvair_rde_linter.Service.Table.{find}
use openvair_rde_linter.Volumes.{blank}
use openvair_rde_linter.Storages.{Status, Storage, storage_keyed, Created, World, Environment}
use openvair_rde_linter.Storages.Disks.{Child, BlockDevice}
use openvair_rde_linter.Storages.Create.{CreateRequest}

abbrev pub share : Status → Storage
share status = record {
  id = "s1";
  name = "disks";
  description = "";
  storage_type = "nfs";
  initialized = false;
  status = status;
  information = blank;
  size = 0;
  available = 0;
  user_id = "u1";
  extra_specs = ("ip", some "10.0.0.1") ∷ ("path", some "/srv/disks") ∷ ("mount_point", none) ∷ [];
}

abbrev pub mounted : Created
mounted = record { size = 200; available = 100; mount_point = some "/mnt/s1"; fs_uuid = none }

abbrev pub spare_partition : Child
spare_partition = record {
  name = "/dev/sdb1";
  size = 200;
  type = some "part";
  mountpoint = some "/mnt/spare";
  uuid = some "b1";
  fstype = some "xfs";
}

abbrev pub spare_disk : BlockDevice
spare_disk = record {
  name = "/dev/sdb";
  size = 200;
  type = some "disk";
  mountpoint = none;
  uuid = none;
  fstype = none;
  children = some (spare_partition ∷ []);
}

-- a disk of the system with one partition, and a spare one with another
abbrev pub devices : List BlockDevice
devices =
    record {
      name = "/dev/sda";
      size = 100;
      type = some "disk";
      mountpoint = none;
      uuid = none;
      fstype = none;
      children = some (
          record {
            name = "/dev/sda1";
            size = 100;
            type = some "part";
            mountpoint = some "/";
            uuid = some "a1";
            fstype = some "ext4";
          }
          ∷ []);
    }
    ∷ spare_disk
    ∷ []

abbrev pub env : Environment
env = record {
  new_id = "s2";
  block_devices = devices;
  get_volumes = λ _. answered [];
  get_images = λ _. answered [];
  get_all_templates = answered [];
  domain_create = λ _. answered mounted;
  domain_delete = λ _. answered tt;
  domain_do_setup = λ _. call_failed;
  domain_create_partition = λ _ _ _. answered "2";
  domain_delete_partition = λ _ _. answered tt;
  domain_partitions_info = λ _. call_failed;
}

abbrev pub holding : Storage → World
holding s = record { storages = s ∷ []; casts = []; events = [] }

-- a share of another server
abbrev pub request : CreateRequest
request = record {
  name = "backups";
  description = "";
  storage_type = "nfs";
  specs = ("ip", "10.0.0.2") ∷ ("path", "/srv/backups") ∷ ("mount_version", "4") ∷ [];
  user_id = "u1";
}

pub found : (s : Storage) → find (s ∷ []) s.id ≡ some s
unfolding find
found s = ground arith
