-- ===== src/Templates/Operations/Rules.antt =====
-- openvair/modules/template/service_layer/services.py: what the steps of the methods keep of
-- the sizes.
use openvair_rde_linter.Base.{
  String, Bool, true, false, ◌≡◌, refl, Option, none, some, List, All, string_eq, contains,
  if◌then◌else◌,
}
use openvair_rde_linter.Result.{Exn, ok, err}
use openvair_rde_linter.Service.{modify, ◌>>=◌}
use openvair_rde_linter.Service.Table.{
  keys, find, write, add, find-All, write-All, add-All, remove-All,
}
use openvair_rde_linter.Service.Gives.{
  Gives, Returned, Any, return-Gives, raise-Gives, gets-Any, raise_if-Any, await-Any, bind-Gives,
  then-Gives, catch-Gives, weaken-Gives, if-Gives,
}
use openvair_rde_linter.Volumes.{Message}
use openvair_rde_linter.Templates.{
  Status, Template, template_keyed, Cast, World, Environment, Run, get_or_fail, update, merged,
  delete_row, cast, add_event, update_and_log_event, with_status,
}

-- The row says that the template has no size.
abbrev pub HasNoSize : Template → Type 0
HasNoSize t = t.size ≡ 0

abbrev pub NoneHasSize : World → Type 0
NoneHasSize w = All HasNoSize w.templates

abbrev got : Option Template → Run Template
got found w = elim found [ none ↦ (err Exn.entity_not_found, w) | some template ↦ (ok template, w) ]

pub get_or_fail-Gives : (id : String) → Gives NoneHasSize (get_or_fail id) HasNoSize
unfolding get_or_fail
get_or_fail-Gives id = record { given = λ w h. by_found w h (find w.templates id) refl }
  where
    by_found :
        (w : World)
        → NoneHasSize w
        → (found : Option Template) → find w.templates id ≡ found
        → NoneHasSize (got found w).1 × Returned HasNoSize (got found w).0
    by_found w h none same = (h, tt)
    by_found w h (some t) same = (h, find-All HasNoSize w.templates id t h same)

pub merged-All :
    (ts : List Template) (t : Template)
    → All HasNoSize ts
    → HasNoSize t
    → All HasNoSize (merged ts t)
unfolding merged
merged-All ts t h p = by_test (contains (keys ts) t.id)
  where
    by_test : (b : Bool) → All HasNoSize (if b then write ts t else add ts t)
    by_test true = write-All HasNoSize ts t h p
    by_test false = add-All HasNoSize ts t h p

pub put-Gives :
    (t : Template)
    → HasNoSize t
    → Gives NoneHasSize (modify (λ w. record w { templates = merged w.templates t })) Any
put-Gives t p = record { given = λ w h. (merged-All w.templates t h p, tt) }

pub update-Gives : (t : Template) → HasNoSize t → Gives NoneHasSize (update t) Any
unfolding update
update-Gives t p =
    then-Gives (gets-Any _)
      (λ taken. then-Gives (raise_if-Any taken Exn.integrity_error) (λ _. put-Gives t p))

pub delete_row-Gives : (t : Template) → Gives NoneHasSize (delete_row t) Any
unfolding delete_row
delete_row-Gives t = record { given = λ w h. (remove-All HasNoSize w.templates t.id h, tt) }

pub cast-Gives : (c : Cast) → Gives NoneHasSize (cast c) Any
unfolding cast
cast-Gives c = record { given = λ w h. (h, tt) }

pub add_event-Gives :
    (env : Environment) (o e : String) (m : Message) → Gives NoneHasSize (add_event env o e m) Any
unfolding add_event
add_event-Gives env o e m = record { given = λ w h. (h, tt) }

pub row_then-Gives :
    {B : Type 0} {Q : B → Type 0} {m : Run Template} {f : Template → Run B}
    → Gives NoneHasSize m HasNoSize
    → ((t : Template) → HasNoSize t → Gives NoneHasSize (f t) Q)
    → Gives NoneHasSize (m >>= f) Q
row_then-Gives hm hf = bind-Gives hm hf

pub ruleset steps = (
  then-Gives, row_then-Gives, catch-Gives, return-Gives, raise-Gives, gets-Any, raise_if-Any,
  await-Any, get_or_fail-Gives, update-Gives, delete_row-Gives, cast-Gives, add_event-Gives,
  if-Gives,
)

pub log-Gives :
    (env : Environment) (t : Template) (s : Status) (e : String) (m : Message)
    → HasNoSize t
    → Gives NoneHasSize (update_and_log_event env t s e m) HasNoSize
unfolding update_and_log_event with_status
log-Gives env t s e m p = search steps
