-- ===== src/Templates/Requests/Related.antt =====
-- openvair/modules/template/service_layer/services.py: which volumes keep a template from being deleted.
use openvair_rde_linter.Base.{String, ◌≡◌, some, List, arith, string_eq, ◌==◌, if◌then◌else◌}
use openvair_rde_linter.Service.{Reply}
use openvair_rde_linter.Service.Table.{find}
use openvair_rde_linter.Templates.{
  Template, template_keyed, VolumeModel, World, Environment, get_or_fail, update_and_log_event,
}
use openvair_rde_linter.Templates.Calls.{
  get_volumes, get_related_volumes, data_for_manager, ensure_template_not_in_use,
}
use openvair_rde_linter.Templates.Requests.{delete_template}

-- the same services, but for the volumes of the storages other than one
abbrev pub elsewhere : String → (String → Reply (List VolumeModel)) → Environment → Environment
elsewhere storage_id others env = record env {
  get_all_volumes = λ id. if id == storage_id then env.get_all_volumes id else others id;
}

in_use-elsewhere :
    (storage_id : String) (others : String → Reply (List VolumeModel)) (env : Environment)
    (t : Template) (w : World)
    → t.storage_id ≡ storage_id
    → ensure_template_not_in_use (elsewhere storage_id others env) t w
      ≡ ensure_template_not_in_use env t w
unfolding ensure_template_not_in_use data_for_manager get_related_volumes get_volumes
in_use-elsewhere storage_id others env t w same = ground arith

-- A request to delete a template does the same, to the state and in its result, whatever volumes
-- there are on the storages other than that of the template.
pub delete_template-elsewhere :
    (storage_id : String) (others : String → Reply (List VolumeModel)) (env : Environment)
    (t : Template) (w : World)
    → find w.templates t.id ≡ some t
    → t.storage_id ≡ storage_id
    → delete_template (elsewhere storage_id others env) t.id w ≡ delete_template env t.id w
unfolding delete_template get_or_fail update_and_log_event
delete_template-elsewhere storage_id others env t w h same =
    ground (arith, in_use-elsewhere storage_id others env t w same)
