-- ===== src/Templates/Steps/Ending.antt =====
-- openvair/modules/template/service_layer/services.py: what becomes of a template after
-- `_create_template`.
use openvair_rde_linter.Base.{
  String, false, ◌≡◌, refl, ap, ◌∙◌, some, none, List, [], ◌∷◌, arith, string_eq,
}
use openvair_rde_linter.Result.{Exn, Result, ok, err}
use openvair_rde_linter.Service.{
  Reply, answered, call_failed, timed_out, is_rpc_error, catch, ◌>>=◌,
}
use openvair_rde_linter.Service.Runs.{bind-ok}
use openvair_rde_linter.Service.Table.{find, write, contains-find, find-write}
use openvair_rde_linter.Volumes.{Message, blank, failed_while}
use openvair_rde_linter.Templates.{
  Status, Template, template_keyed, DomainTemplate, World, Environment, get_or_fail, name_is_taken,
  merged, update, add_event, with_status, update_and_log_event,
}
use openvair_rde_linter.Templates.Calls.{to_dto}
use openvair_rde_linter.Templates.Steps.{fail, finish, call_create, create_template_step}

name_is_taken-write :
    (ts : List Template) (t u : Template)
    → t.id ≡ u.id
    → name_is_taken (write ts t) u ≡ name_is_taken ts u
unfolding name_is_taken write
name_is_taken-write [] t u same = refl
name_is_taken-write (s ∷ ts) t u same = ground (arith, name_is_taken-write ts t u same)

name_is_taken-like :
    (ts : List Template) (t u : Template)
    → t.id ≡ u.id
    → t.name ≡ u.name
    → name_is_taken ts t ≡ name_is_taken ts u
unfolding name_is_taken
name_is_taken-like [] t u same_id same_name = refl
name_is_taken-like (s ∷ ts) t u same_id same_name =
    ground (arith, name_is_taken-like ts t u same_id same_name)

-- A row that is there is written back with the status and the message, if no other has its name.
logged :
    (env : Environment) (t u : Template) (s : Status) (event : String) (m : Message) (w : World)
    → find w.templates t.id ≡ some u
    → name_is_taken w.templates t ≡ false
    → ((update_and_log_event env t s event m w).0 ≡ ok (record t { status = s; information = m }))
      × (find (update_and_log_event env t s event m w).1.templates t.id
          ≡ some (record t { status = s; information = m }))
      × (name_is_taken (update_and_log_event env t s event m w).1.templates t ≡ false)
unfolding update_and_log_event update merged with_status add_event
logged env t u s event m w h free =
    let row : Template = record t { status = s; information = m } in
    let there = contains-find w.templates t.id u h in
    let like = name_is_taken-like w.templates row t refl refl in
    (
      ground (arith),
      ground (arith, find-write w.templates row t.id),
      ground (arith, name_is_taken-write w.templates row t refl),
    )

-- the template as the domain layer gets it
abbrev pub sent : Template → String → DomainTemplate
sent t description = record {
  tmp_format = t.tmp_format;
  name = t.name;
  path = t.path;
  related_volumes = none;
  is_backing = t.is_backing;
  description = description;
}

-- the row that `_create_template` leaves, by the answer of the domain layer
abbrev pub row_after : Reply DomainTemplate → Template → Template
row_after (answered result) t = record t {
  tmp_format = result.tmp_format;
  name = result.name;
  path = result.path;
  is_backing = result.is_backing;
  description = some result.description;
  status = Status.available;
  information = blank;
}
row_after call_failed t = record t {
  status = Status.error;
  information = failed_while "" Exn.rpc_call;
}
row_after timed_out t = record t {
  status = Status.error;
  information = failed_while "" Exn.rpc_call_timeout;
}

-- the row in the meantime
abbrev pub row_before : Template → Template
row_before t = record t { status = Status.creating; information = blank }

-- The domain layer leaves the name.
abbrev pub SameName : Reply DomainTemplate → Template → Type 0
SameName (answered result) t = result.name ≡ t.name
SameName call_failed t = Unit
SameName timed_out t = Unit

abbrev after_call : Environment → Template → String → World → Result {0} Unit × World
after_call env t source =
    catch is_rpc_error (fail env t "TemplateCreationFailed") (call_create env t source)
    >>= finish env t "TemplateCreated"

get_or_fail-found :
    (t : Template) (w : World) → find w.templates t.id ≡ some t → get_or_fail t.id w ≡ (ok t, w)
unfolding get_or_fail
get_or_fail-found t w h = ground arith

-- A row that is there reaches the call with the status `creating`.
step-run :
    (env : Environment) (t : Template) (source : String) (w : World)
    → find w.templates t.id ≡ some t
    → name_is_taken w.templates t ≡ false
    → create_template_step env t.id source w
      ≡ after_call env
          (row_before t)
          source
          (update_and_log_event env t Status.creating "TemplateCreationStarted" blank w).1
unfolding create_template_step
step-run env t source w h free =
    let started = logged env t t Status.creating "TemplateCreationStarted" blank w h free in
    bind-ok (get_or_fail t.id)
      (λ row.
        update_and_log_event env row Status.creating "TemplateCreationStarted" blank >>= λ template.
        after_call env template source)
      t (get_or_fail-found t w h)
    ∙ bind-ok (update_and_log_event env t Status.creating "TemplateCreationStarted" blank)
        (λ template. after_call env template source) (row_before t)
        (ap
          (λ r.
            (r, (update_and_log_event env t Status.creating "TemplateCreationStarted" blank w).1))
          started.0)

-- A template without a description, with a name of its own, cast to `_create_template`: a
-- validation error is raised, and the row has the status `creating`, no information, and is otherwise as
-- before.
pub create_template_step-undescribed :
    (env : Environment) (t : Template) (source : String) (w : World)
    → find w.templates t.id ≡ some t
    → name_is_taken w.templates t ≡ false
    → t.description ≡ none
    → ((create_template_step env t.id source w).0 ≡ err Exn.validation_error)
      × (find (create_template_step env t.id source w).1.templates t.id ≡ some (row_before t))
unfolding call_create to_dto
create_template_step-undescribed env t source w h free undescribed =
    let started = logged env t t Status.creating "TemplateCreationStarted" blank w h free in
    let run = step-run env t source w h free in
    (ground (arith, run), ground (arith, run, started.1))
