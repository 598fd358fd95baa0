-- ===== src/Templates/Requests.antt =====
-- openvair/modules/template/service_layer/services.py: the requests.
pub mod Related
use openvair_rde_linter.Base.{String, ◌<>◌, Bool, Option, List}
use openvair_rde_linter.Result.{Exn, Result, ok, err}
use openvair_rde_linter.Service.{return, gets, ◌>>=◌, ◌>>◌}
use openvair_rde_linter.Volumes.{blank}
use openvair_rde_linter.Templates.{
  Status, Template, VolumeModel, EditCommand, cast_create, cast_edit, cast_delete, Environment, Run,
  get_or_fail, update, cast, update_and_log_event,
}
use openvair_rde_linter.Templates.Calls.{
  get_volume_info, check_volume_not_attached_to_active_vm, get_storage_info,
  ensure_template_not_in_use,
}

unfoldable pub get_all_templates : Run (List Template)
get_all_templates = gets (λ w. w.templates)

unfoldable pub get_template : String → Run Template
unfolding get_or_fail
get_template template_id = get_or_fail template_id

-- `CreateTemplateServiceCommandDTO`
pub record CreateCommand : Type 0 where
  pub name : String
  pub description : Option String
  pub storage_id : String
  pub base_volume_id : String
  pub is_backing : Bool

-- `CreateSerializer.to_orm`, with what the table gives to the columns that are left out. The mount
-- point does not end in a slash.
unfoldable pub new_row : String → CreateCommand → VolumeModel → String → Template
new_row id command volume mount_point = record {
  id = id;
  name = command.name;
  description = command.description;
  path = mount_point <> "/template-" <> command.name <> "." <> volume.format;
  tmp_format = volume.format;
  size = 0;
  storage_id = command.storage_id;
  status = Status.new;
  information = blank;
  is_backing = command.is_backing;
}

unfoldable pub source_disk_path : VolumeModel → String
source_disk_path volume = volume.path <> "/volume-" <> volume.id

-- what follows the checks of `create_template`
unfoldable pub accept : Environment → VolumeModel → Template → Run Template
unfolding update update_and_log_event cast source_disk_path
accept env volume row = do
  update row
  template ← update_and_log_event env row Status.new "TemplateCreationPrepared" blank
  cast (cast_create template.id (source_disk_path volume))
  return template

unfoldable pub create_template : Environment → CreateCommand → Run Template
unfolding get_volume_info check_volume_not_attached_to_active_vm get_storage_info accept new_row
create_template env command = do
  volume ← get_volume_info env command.base_volume_id
  check_volume_not_attached_to_active_vm env volume
  mount_point ← get_storage_info env command.storage_id
  accept env volume (new_row env.new_id command volume mount_point)

unfoldable pub edit_template : Environment → EditCommand → Run Template
unfolding get_or_fail ensure_template_not_in_use update_and_log_event cast
edit_template env command = do
  row ← get_or_fail command.id
  ensure_template_not_in_use env row
  template ← update_and_log_event env row Status.editing "TemplateEditingStarted" blank
  cast (cast_edit command)
  return template

unfoldable pub delete_template : Environment → String → Run Template
unfolding get_or_fail ensure_template_not_in_use update_and_log_event cast
delete_template env template_id = do
  row ← get_or_fail template_id
  ensure_template_not_in_use env row
  template ← update_and_log_event env row Status.deleting "TemplateDeletingStarted" blank
  cast (cast_delete template_id)
  return template
