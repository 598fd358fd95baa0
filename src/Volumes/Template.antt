-- ===== src/Volumes/Template.antt =====
-- openvair/modules/volume/service_layer/services.py: `create_from_template` and
-- `_create_from_template`.
use openvair_rde_linter.Base.{String, Bool, not, Option, none, some, [], ◌==◌, string_eq, leb}
use openvair_rde_linter.Result.{Exn}
use openvair_rde_linter.Service.{return, raise, raise_if, await, ◌>>=◌, ◌>>◌}
use openvair_rde_linter.Volumes.{
  Status, blank, Volume, StorageInfo, StorageReply, TemplateModel, FromTemplate,
  cast_create_from_template, Environment, Run, insert, cast,
}
use openvair_rde_linter.Volumes.Checks.{storage_info, check_volume_exists_on_storage}
use openvair_rde_linter.Volumes.Clone.{set_status}

-- `CreateVolumeFromTemplateServiceCommandDTO`, as it is validated
pub record TemplateRequest : Type 0 where
  pub name : String
  pub description : String
  pub storage_id : String
  pub template_id : String
  pub read_only : Option Bool
  pub user_id : String

-- `StorageModelDTO(**storage_info)`: `available` has to be there
unfoldable pub storage_model : StorageReply → Run StorageInfo
unfolding storage_info
storage_model reply = elim reply.available [
  | none ↦ raise Exn.validation_error
  | some _ ↦ return (storage_info reply)
]

-- `_get_storage`, where the exceptions of the call are not handled
unfoldable pub get_storage : Environment → String → Run StorageInfo
unfolding storage_model
get_storage env storage_id = await (env.get_storage storage_id) >>= storage_model

-- `CreateVolumeFromTemplateModelDTO(…)`: `read_only` has to be there
unfoldable pub from_template : TemplateRequest → TemplateModel → StorageInfo → Run FromTemplate
from_template request template storage = elim request.read_only [
  | none ↦ raise Exn.validation_error
  | some read_only ↦ return (record {
    name = request.name;
    description = request.description;
    path = storage.mount_point;
    format = template.tmp_format;
    storage_id = request.storage_id;
    size = template.size;
    user_id = request.user_id;
    read_only = read_only;
    storage_type = storage.storage_type;
    template_path = template.path;
    is_backing = template.is_backing;
    template_id = request.template_id;
  })
]

unfoldable pub template_row : String → FromTemplate → Volume
template_row id info = record {
  id = id;
  name = info.name;
  user_id = info.user_id;
  format = info.format;
  size = info.size;
  used = none;
  status = Status.new;
  information = blank;
  path = info.path;
  template_id = some info.template_id;
  description = info.description;
  storage_id = info.storage_id;
  storage_type = info.storage_type;
  read_only = info.read_only;
  attachments = [];
}

unfoldable pub create_from_template : Environment → TemplateRequest → Run Volume
unfolding get_storage from_template check_volume_exists_on_storage insert cast template_row
create_from_template env request = do
  template ← await (env.get_template request.template_id)
  storage ← get_storage env request.storage_id
  raise_if (not (storage.status == "available")) Exn.storage_unavailable
  raise_if (leb storage.available_space template.size) Exn.validate_arguments
  info ← from_template request template storage
  check_volume_exists_on_storage info.name info.storage_id
  insert (template_row env.new_id info)
  cast (cast_create_from_template env.new_id info)
  return (template_row env.new_id info)

-- `_create_from_template`, on the id and the information that were cast
unfoldable pub create_from_template_step : Environment → String → FromTemplate → Run (Unit {0})
unfolding set_status
create_from_template_step env volume_id info = do
  volume ← set_status volume_id Status.creating
  await (env.domain_create_from_template volume info.template_path info.is_backing)
  _ ← set_status volume_id Status.available
  return tt
