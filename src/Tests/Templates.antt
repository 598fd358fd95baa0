-- ===== src/Tests/Templates.antt =====
-- The template service on one template.
use openvair_rde_linter.Base.{
  false, true, ◌≡◌, refl, none, some, [], ◌∷◌, Option, string_eq, String, arith,
}
use openvair_rde_linter.Result.{Exn, err}
use openvair_rde_linter.Service.{answered}
use openvair_rde_linter.Service.Table.{find}
use openvair_rde_linter.Volumes.{blank}
use openvair_rde_linter.Templates.{
  Status, Template, template_keyed, VolumeModel, World, Environment, cast_create, name_is_taken,
}
use openvair_rde_linter.Templates.Requests.{CreateCommand, delete_template}
use openvair_rde_linter.Templates.Requests.Related.{elsewhere, delete_template-elsewhere}
use openvair_rde_linter.Templates.Steps.{create_template_step}
use openvair_rde_linter.Templates.Steps.Ending.{create_template_step-undescribed}
use openvair_rde_linter.Templates.Operations.{Operation, perform, here, next}
use openvair_rde_linter.Templates.Operations.Rules.{NoneHasSize}
use openvair_rde_linter.Templates.Operations.Sizes.{Reach-NoneHasSize}

abbrev base : Option String → Template
base description = record {
  id = "t1";
  name = "base";
  description = description;
  path = "/mnt/s1/template-base.qcow2";
  tmp_format = "qcow2";
  size = 0;
  storage_id = "s1";
  status = Status.new;
  information = blank;
  is_backing = true;
}

abbrev volume : VolumeModel
volume = record {
  id = "v1";
  name = "disk";
  format = "qcow2";
  path = "/mnt/s1";
  template_id = some "t1";
  attachments = "m1" ∷ [];
}

abbrev env : Environment
env = record {
  new_id = "t2";
  event_user = "e1";
  get_volume = λ _. answered volume;
  get_all_volumes = λ _. answered [];
  get_storage = λ _. answered (some "/mnt/s1");
  get_vm = λ _. answered (some "shut_off");
  domain_create = λ sent_data _. answered sent_data;
  domain_edit = λ sent_data _ _. answered sent_data;
  domain_delete = λ _. answered tt;
  domain_ensure_not_in_use = λ _. answered tt;
}

abbrev holding : Template → World
holding t = record { templates = t ∷ []; casts = []; events = [] }

abbrev command : CreateCommand
command = record {
  name = "copy";
  description = some "";
  storage_id = "s1";
  base_volume_id = "v1";
  is_backing = true;
}

found : (t : Template) → find (t ∷ []) t.id ≡ some t
unfolding find
found t = ground arith

name_free : (t : Template) → name_is_taken (t ∷ []) t ≡ false
unfolding name_is_taken
name_free t = ground arith

create_template_step-undescribed_example :
    ((create_template_step env "t1" "/mnt/s1/volume-v1" (holding (base none))).0
      ≡ err Exn.validation_error)
    × (find
          (create_template_step env "t1" "/mnt/s1/volume-v1" (holding (base none))).1.templates
          "t1"
        ≡ some (record (base none) { status = Status.creating; information = blank }))
create_template_step-undescribed_example =
    create_template_step-undescribed env (base none) "/mnt/s1/volume-v1" (holding (base none))
      (found (base none)) (name_free (base none)) refl

-- A volume of the template on every other storage.
delete_template-elsewhere_example :
    delete_template
      (elsewhere "s1" (λ _. answered (volume ∷ [])) env)
      "t1"
      (holding (base (some "")))
    ≡ delete_template env "t1" (holding (base (some "")))
delete_template-elsewhere_example =
    delete_template-elsewhere "s1" (λ _. answered (volume ∷ [])) env (base (some ""))
      (holding (base (some ""))) (found (base (some ""))) refl

abbrev created : World
created = perform env (Operation.create command) (holding (base (some "")))

abbrev finished : World
finished = perform env (Operation.deliver (cast_create "t2" "/mnt/s1/volume-v1")) created

Reach-NoneHasSize_example : NoneHasSize finished
Reach-NoneHasSize_example =
    Reach-NoneHasSize (holding (base (some ""))) finished
      (next env (Operation.deliver (cast_create "t2" "/mnt/s1/volume-v1"))
        (next env (Operation.create command) here))
      (refl, tt)
