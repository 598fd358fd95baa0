-- ===== src/Storages/Checks.antt =====
-- openvair/modules/storage/service_layer/services.py: `get_local_disks` and the checks of the methods.
use openvair_rde_linter.Base.{
  String, Bool, true, false, not, ◌&&◌, ◌||◌, Option, none, some, List, [], ◌∷◌, ◌++◌, keep_if,
  ◌==◌, string_eq, is_empty, if◌then◌else◌,
}
use openvair_rde_linter.Base.Dict
use openvair_rde_linter.Base.Dict.{Dict}
use openvair_rde_linter.Result.{Exn, Result}
use openvair_rde_linter.Service.{return, raise, raise_if, gets, await, ◌>>=◌, ◌>>◌}
use openvair_rde_linter.Storages.{Status, Status-discrete, Storage, TemplateReply, Environment, Run}
use openvair_rde_linter.Storages.Disks.{
  Disk, is_text, get_system_disks, is_system_disk, get_local_partitions, is_system_partition,
}
use mathlib.Core.Logic.{ite}

-- `status in statuses`
unfoldable pub is_in : Status → List Status → Bool
unfolding Status-discrete
is_in status [] = false
is_in status (s ∷ statuses) = ite (Status-discrete status s) true (is_in status statuses)

unfoldable pub check_storage_status : Status → List Status → Run (Unit {0})
unfolding is_in
check_storage_status status available_statuses =
    raise_if (not (is_in status available_statuses)) Exn.storage_status

-- a spec of the dict has the value
unfoldable pub has_value : Dict (Option String) → String → Bool
unfolding is_text
has_value [] value = false
has_value ((_, v) ∷ specs) value = is_text v value || has_value specs value

-- `filter_extra_specs(all_rows=False, value=value)` finds a row.
unfoldable pub value_in_use : List Storage → String → Bool
unfolding has_value
value_in_use [] value = false
value_in_use (s ∷ storages) value = has_value s.extra_specs value || value_in_use storages value

-- the disks, or with the flag those that no storage names
unfoldable pub available_disks : List Storage → Bool → List Disk → List Disk
unfolding value_in_use
available_disks storages flag [] = []
available_disks storages flag (disk ∷ disks) =
    let rest = available_disks storages flag disks in
    if flag && value_in_use storages disk.path then rest else disk ∷ rest

-- `get_local_disks`, without its log
unfoldable pub get_local_disks : Environment → Bool → Run (List Disk)
unfolding available_disks get_system_disks get_local_partitions
get_local_disks env free_local_disks = gets (λ w.
    available_disks w.storages free_local_disks (get_system_disks env.block_devices)
    ++ get_local_partitions env.block_devices)

-- `local_disks[device_path]`: a dict keeps the last device of a path.
unfoldable pub device_at : List Disk → String → Option Disk
device_at [] path = none
device_at (disk ∷ disks) path = elim (device_at disks path) [
  | some found ↦ some found
  | none ↦ if disk.path == path then some disk else none
]

-- `device_path[len(parent_path):]`
unfoldable pub after_parent : String → String → String
after_parent String.[] path = path
after_parent (String.◌∷◌ _ parent) String.[] = String.[]
after_parent (String.◌∷◌ _ parent) (String.◌∷◌ _ path) = after_parent parent path

-- `device_type and …`: the type is there and not empty.
unfoldable pub is_truthy : Option String → Bool
unfolding is_empty
is_truthy none = false
is_truthy (some text) = not (is_empty text)

-- a computation without state, as a statement of a method
abbrev pub lift : {A : Type 0} → Result A → Run A
lift r w = (r, w)

-- the check on a device of the type `part`
unfoldable pub check_partition : Environment → Disk → String → Run (Unit {0})
unfolding is_system_partition after_parent
check_partition env device device_path = elim device.parent [
  | none ↦ raise Exn.type_error
  | some parent ↦ do
    is_system ←
        lift (is_system_partition env.block_devices parent (after_parent parent device_path))
    raise_if is_system Exn.storage_on_system_partition
]

unfoldable pub check_found : Environment → String → Option Disk → Run (Unit {0})
unfolding is_truthy is_system_disk is_text check_partition
check_found env device_path none = raise Exn.device_does_not_exist
check_found env device_path (some device) = do
  raise_if (is_truthy device.type && is_system_disk env.block_devices device_path)
      Exn.storage_on_system_disk
  if is_text device.type "part" then check_partition env device device_path else return tt

unfoldable pub check_device : Environment → String → Run (Unit {0})
unfolding get_local_disks device_at check_found
check_device env device_path = do
  disks ← get_local_disks env false
  check_found env device_path (device_at disks device_path)

-- `get_storage_by_name(…) is not None`
unfoldable pub name_is_taken : List Storage → String → Bool
name_is_taken [] name = false
name_is_taken (s ∷ storages) name = s.name == name || name_is_taken storages name

unfoldable pub check_storage_exists_with_current_name : String → Run (Unit {0})
unfolding is_empty name_is_taken
check_storage_exists_with_current_name name = do
  raise_if (is_empty name) Exn.value_error
  taken ← gets (λ w. name_is_taken w.storages name)
  raise_if taken Exn.storage_exists

-- the dict has the key with this value
unfoldable pub has_spec : String → String → Dict (Option String) → Bool
unfolding is_text
has_spec key value [] = false
has_spec key value ((k, v) ∷ specs) = (k == key && is_text v value) || has_spec key value specs

-- the storage of `get_spec_by_key_value`, the first that has the spec
unfoldable pub with_spec : String → String → List Storage → Option Storage
unfolding has_spec
with_spec key value [] = none
with_spec key value (s ∷ storages) =
    if has_spec key value s.extra_specs then some s else with_spec key value storages

-- `==` of two values that may be null
unfoldable pub same_value : Option String → Option String → Bool
same_value none none = true
same_value none (some _) = false
same_value (some _) none = false
same_value (some a) (some b) = a == b

unfoldable pub spec_matches : String → Option String → Dict String → Bool
unfolding same_value Dict.get
spec_matches key value specs =
    (key == "ip" && same_value value (Dict.get specs "ip"))
    || (key == "path" && same_value value (Dict.get specs "path"))

-- the loop of `_check_storage_specs`
unfoldable pub any_matches : Dict (Option String) → Dict String → Bool
unfolding spec_matches
any_matches [] specs = false
any_matches ((key, value) ∷ rest) specs = spec_matches key value specs || any_matches rest specs

-- What the check finds for one spec: nothing, if no storage has it.
unfoldable pub clashes : List Storage → Dict String → String → String → Bool
unfolding with_spec any_matches
clashes storages specs key value = elim (with_spec key value storages) [
  | none ↦ false
  | some storage ↦ any_matches storage.extra_specs specs
]

-- the loop over `specs.items()`
unfoldable pub any_clash : List Storage → Dict String → Dict String → Bool
unfolding clashes
any_clash storages specs [] = false
any_clash storages specs ((key, value) ∷ items) =
    clashes storages specs key value || any_clash storages specs items

unfoldable pub check_spec_exists_for_nfs_storage : Dict String → Run (Unit {0})
unfolding any_clash
check_spec_exists_for_nfs_storage specs = do
  found ← gets (λ w. any_clash w.storages specs specs)
  raise_if found Exn.storage_exists

-- a storage has the path among its specs
unfoldable pub path_in_use : List Storage → String → Bool
unfolding has_spec
path_in_use [] path = false
path_in_use (s ∷ storages) path = has_spec "path" path s.extra_specs || path_in_use storages path

unfoldable pub check_specs_localfs_storage : Dict String → Run (Unit {0})
unfolding path_in_use Dict.get
check_specs_localfs_storage specs = elim (Dict.get specs "path") [
  | none ↦ return tt
  | some path ↦ do used ← gets (λ w. path_in_use w.storages path); raise_if used Exn.storage_exists
]

unfoldable pub check_spec_exists_for_storage : Dict String → String → Run (Unit {0})
unfolding check_spec_exists_for_nfs_storage check_specs_localfs_storage
check_spec_exists_for_storage [] storage_type = return tt
check_spec_exists_for_storage (spec ∷ specs) storage_type =
    if storage_type == "nfs"
    then check_spec_exists_for_nfs_storage (spec ∷ specs)
    else if storage_type == "localfs"
    then check_specs_localfs_storage (spec ∷ specs)
    else raise Exn.value_error

-- `_get_templates`
unfoldable pub get_templates : Environment → String → Run (List TemplateReply)
unfolding keep_if
get_templates env storage_id = do
  all_templates ← await env.get_all_templates
  return (keep_if (λ template. template.storage_id == storage_id) all_templates)

unfoldable pub is_nil : {A : Type 0} → List A → Bool
is_nil [] = true
is_nil (_ ∷ _) = false

unfoldable pub check_storage_has_no_objects : Environment → String → Run (Unit {0})
unfolding get_templates is_nil
check_storage_has_no_objects env storage_id = do
  volumes ← await (env.get_volumes storage_id)
  images ← await (env.get_images storage_id)
  templates ← get_templates env storage_id
  raise_if (not (is_nil volumes && is_nil images && is_nil templates)) Exn.storage_has_objects
