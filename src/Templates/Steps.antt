-- ===== src/Templates/Steps.antt =====
-- openvair/modules/template/service_layer/services.py: `_create_template`, `_edit_template` and
-- `_delete_template`.
pub mod Ending
use openvair_rde_linter.Base.{String, Bool, true, false, Option, none, some, if◌then◌else◌}
use openvair_rde_linter.Result.{Exn, Result, ok, err}
use openvair_rde_linter.Service.{return, await, catch, is_rpc_error, ◌>>=◌, ◌>>◌}
use openvair_rde_linter.Volumes.{blank, failed_while}
use openvair_rde_linter.Templates.{
  Status, Template, DomainTemplate, EditCommand, Environment, Run, get_or_fail, delete_row,
  update_and_log_event,
}
use openvair_rde_linter.Templates.Calls.{to_dto, data_for_manager}

-- `DomainSerializer.update_orm_from_dict`
unfoldable pub updated : Template → DomainTemplate → Template
updated template result = record template {
  tmp_format = result.tmp_format;
  name = result.name;
  path = result.path;
  is_backing = result.is_backing;
  description = some result.description;
}

-- The handler of a step, which then returns; `none` is that return.
unfoldable pub fail : Environment → Template → String → Exn → Run (Option DomainTemplate)
unfolding update_and_log_event
fail env template event_type raised = do
  _ ← update_and_log_event env template Status.error event_type (failed_while "" raised)
  return none

-- what follows the answer of the domain layer
unfoldable pub finish : Environment → Template → String → Option DomainTemplate → Run (Unit {0})
unfolding updated update_and_log_event
finish env template event_type none = return tt
finish env template event_type (some result) = do
  _ ← update_and_log_event env (updated template result) Status.available event_type blank
  return tt

-- the `try` block of `_create_template`
unfoldable pub call_create : Environment → Template → String → Run (Option DomainTemplate)
unfolding to_dto
call_create env template source_disk_path = do
  manager_data ← to_dto template
  result ← await (env.domain_create manager_data source_disk_path)
  return (some result)

unfoldable pub create_template_step : Environment → String → String → Run (Unit {0})
unfolding get_or_fail update_and_log_event call_create fail finish
create_template_step env template_id source_disk_path = do
  row ← get_or_fail template_id
  template ← update_and_log_event env row Status.creating "TemplateCreationStarted" blank
  result ←
      catch is_rpc_error (fail env template "TemplateCreationFailed")
        (call_create env template source_disk_path)
  finish env template "TemplateCreated" result

-- the `try` block of `_edit_template`
unfoldable pub call_edit : Environment → Template → EditCommand → Run (Option DomainTemplate)
unfolding data_for_manager
call_edit env template command = do
  manager_data ← data_for_manager env template
  result ← await (env.domain_edit manager_data command.name command.description)
  return (some result)

unfoldable pub edit_template_step : Environment → EditCommand → Run (Unit {0})
unfolding get_or_fail call_edit fail finish
edit_template_step env command = do
  template ← get_or_fail command.id
  result ←
      catch is_rpc_error (fail env template "TemplateEditingFailed")
        (call_edit env template command)
  finish env template "TemplateEdited" result

-- the `try` block of `_delete_template`; the value tells that it came to its end
unfoldable pub call_delete : Environment → Template → Run Bool
unfolding data_for_manager
call_delete env template = do
  manager_data ← data_for_manager env template
  await (env.domain_delete manager_data)
  return true

-- its handler
unfoldable pub fail_deleting : Environment → Template → Exn → Run Bool
unfolding update_and_log_event
fail_deleting env template raised = do
  _ ←
      update_and_log_event env template Status.error "TemplateDeletingFailed"
        (failed_while "" raised)
  return false

unfoldable pub delete_template_step : Environment → String → Run (Unit {0})
unfolding get_or_fail call_delete fail_deleting delete_row
delete_template_step env template_id = do
  template ← get_or_fail template_id
  deleted ← catch is_rpc_error (fail_deleting env template) (call_delete env template)
  if deleted then delete_row template else return tt
