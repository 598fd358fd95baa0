-- ===== src/Storages/Operations/Labels.antt =====
-- openvair/modules/storage/service_layer/services.py: the table `storages` as its ids with their names,
-- and what a step may make of it.
use openvair_rde_linter.Base.{
  String, true, false, ◌≡◌, refl, ap, some, List, [], ◌∷◌, ◌++◌, map, contains, ◌==◌, string_eq,
  arith, is_empty, if◌then◌else◌, keep_if,
}
use openvair_rde_linter.Base.Dict
use openvair_rde_linter.Base.Dict.{Dict}
use openvair_rde_linter.Service.{answered}
use openvair_rde_linter.Service.Table.{find, write, add, remove}
use openvair_rde_linter.Storages.{
  Storage, storage_keyed, TemplateReply, cast_delete, World, Environment,
}
use openvair_rde_linter.Storages.Checks.{name_is_taken, is_nil}
use openvair_rde_linter.Storages.Operations.{Operation}

abbrev pub labels_of : List Storage → Dict String
labels_of storages = map (λ s. (s.id, s.name)) storages

abbrev pub labels : World → Dict String
labels w = labels_of w.storages

abbrev pub names : Dict String → List String
names labels = map (λ label. label.1) labels

-- the table without the entries of an id
unfoldable pub without : String → Dict String → Dict String
without id [] = []
without id ((i, name) ∷ labels) =
    let rest = without id labels in if id == i then rest else (i, name) ∷ rest

-- None of the other services has anything on the storage.
pub record IsUnused (env : Environment) (id : String) : Type 0 where
  pub no_volumes : env.get_volumes id ≡ answered []
  pub no_images : env.get_images id ≡ answered []
  pub templates : List TemplateReply
  pub all_templates : env.get_all_templates ≡ answered templates
  pub no_templates : is_nil (keep_if (λ template. template.storage_id == id) templates) ≡ true

-- What one step may do to the table: nothing, or add one storage under a new name, or take away one
-- that nothing uses and whose deletion was cast.
pub data Change (env : Environment) (op : Operation) (before : Dict String)
    : Dict String → Type 0 where
  same : Change env op before before
  added :
      (name : String)
      → is_empty name ≡ false
      → contains (names before) name ≡ false
      → Change env op before (before ++ ((env.new_id, name) ∷ []))
  removed :
      (serialized : Storage)
      → op ≡ Operation.deliver (cast_delete serialized)
      → IsUnused env serialized.id
      → Change env op before (without serialized.id before)

pub get-labels :
    (storages : List Storage) (id : String) (s : Storage)
    → find storages id ≡ some s
    → Dict.get (labels_of storages) id ≡ some s.name
unfolding find Dict.get
get-labels [] id s h = cc
get-labels (t ∷ storages) id s h = ground (arith, get-labels storages id s)

pub labels-write :
    (storages : List Storage) (s : Storage)
    → Dict.get (labels_of storages) s.id ≡ some s.name
    → labels_of (write storages s) ≡ labels_of storages
unfolding write Dict.get
labels-write [] s h = refl
labels-write (t ∷ storages) s h = ground (arith, labels-write storages s)

pub labels-add :
    (storages : List Storage) (s : Storage)
    → labels_of (add storages s) ≡ labels_of storages ++ ((s.id, s.name) ∷ [])
unfolding add
labels-add [] s = refl
labels-add (t ∷ storages) s = ap (λ rest. (t.id, t.name) ∷ rest) (labels-add storages s)

pub labels-remove :
    (storages : List Storage) (id : String)
    → labels_of (remove storages id) ≡ without id (labels_of storages)
unfolding remove without
labels-remove [] id = refl
labels-remove (t ∷ storages) id = ground (arith, labels-remove storages id)

pub names-taken :
    (storages : List Storage) (name : String)
    → contains (names (labels_of storages)) name ≡ name_is_taken storages name
unfolding name_is_taken
names-taken [] name = refl
names-taken (s ∷ storages) name = ground (arith, names-taken storages name)
