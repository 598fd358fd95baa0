-- ===== src/Tests/Storage.antt =====
-- One volume on one storage, and services that answer as they should.
use openvair_rde_linter.Base.{false, ◌≡◌, none, some, List, [], ◌∷◌, string_eq, arith}
use openvair_rde_linter.Service.{answered, call_failed}
use openvair_rde_linter.Service.Table.{find}
use openvair_rde_linter.Volumes.{
  Status, blank, Attachment, Volume, volume_keyed, StorageReply, World, Environment,
}
use openvair_rde_linter.Volumes.Create.{CreateRequest}

abbrev pub storage : StorageReply
storage = record {
  id = "s1";
  name = "disks";
  storage_type = "nfs";
  status = "available";
  available = some 100;
  mount_point = some "/mnt/s1";
}

abbrev pub env : Environment
env = record {
  new_id = "v2";
  get_storage = λ _. answered storage;
  get_all_storages = answered (storage ∷ []);
  get_vm = λ _. answered (record { name = some "vm"; power_state = some "shut_off" });
  get_template = λ _. call_failed;
  domain_create = λ _. answered tt;
  domain_extend = λ _ _. answered tt;
  domain_delete = λ _. answered tt;
  domain_clone = λ v mount_point id. answered (record {
    id = id;
    format = v.format;
    size = v.size;
    description = v.description;
    storage_type = v.storage_type;
    path = mount_point;
  });
  domain_attach_info = λ v.
      answered (record { path = v.path; size = some 10; used = some 3; provisioning = "thin" });
  domain_create_from_template = λ _ _ _. answered tt;
}

abbrev pub disk : Status → List Attachment → Volume
disk status attachments = record {
  id = "v1";
  name = "disk";
  user_id = "u1";
  format = "qcow2";
  size = 10;
  used = none;
  status = status;
  information = blank;
  path = "/mnt/s1";
  template_id = none;
  description = "";
  storage_id = "s1";
  storage_type = "nfs";
  read_only = false;
  attachments = attachments;
}

abbrev pub holding : Volume → World
holding v = record { volumes = v ∷ []; casts = []; events = [] }

abbrev pub request : CreateRequest
request = record {
  name = some "data";
  description = none;
  format = none;
  size = some 20;
  storage_id = some "s1";
  read_only = none;
  user_id = some "u1";
  others = false;
}

pub found : (v : Volume) → find (v ∷ []) v.id ≡ some v
unfolding find
found v = ground arith
