-- ===== src/Storages/Create/Specs.antt =====
-- openvair/modules/storage/service_layer/services.py: the loops over the specs of the storages.
use openvair_rde_linter.Base.{
  String, true, false, not, ◌&&◌, ◌≡◌, refl, Option, none, some, List, [], ◌∷◌, ◌++◌, string_eq,
  arith,
}
use openvair_rde_linter.Base.Dict
use openvair_rde_linter.Base.Dict.{Dict}
use openvair_rde_linter.Storages.{Storage}
use openvair_rde_linter.Storages.Disks.{is_text}
use openvair_rde_linter.Storages.Checks.{
  has_spec, with_spec, same_value, spec_matches, any_matches, clashes, any_clash, path_in_use,
  is_nil,
}
use openvair_rde_linter.Storages.Partitions.{names_for, get_storages_on_partition}

names_for-has_spec :
    (name path : String) (specs : Dict (Option String))
    → is_nil (names_for name path specs) ≡ not (has_spec "path" path specs)
unfolding names_for has_spec is_nil
names_for-has_spec name path [] = refl
names_for-has_spec name path ((k, v) ∷ specs) = ground (arith, names_for-has_spec name path specs)

is_nil-append : (a b : List String) → is_nil (a ++ b) ≡ (is_nil a && is_nil b)
unfolding is_nil
is_nil-append [] b = ground arith
is_nil-append (x ∷ a) b = refl

-- The two loops that look for the storages of a path find one for the same paths: the one before a
-- storage is created there, and the one before the partition of that path is deleted.
pub on_partition-path_in_use :
    (storages : List Storage) (path : String)
    → is_nil (get_storages_on_partition storages path) ≡ not (path_in_use storages path)
unfolding get_storages_on_partition path_in_use is_nil
on_partition-path_in_use [] path = refl
on_partition-path_in_use (s ∷ storages) path = ground (
  arith,
  on_partition-path_in_use storages path,
  names_for-has_spec s.name path s.extra_specs,
  is_nil-append (names_for s.name path s.extra_specs) (get_storages_on_partition storages path),
)

has_spec-matches :
    (specs : Dict String) (path : String) (row : Dict (Option String))
    → Dict.get specs "path" ≡ some path
    → has_spec "path" path row ≡ true
    → any_matches row specs ≡ true
unfolding has_spec any_matches spec_matches same_value is_text
has_spec-matches specs path [] h found = cc
has_spec-matches specs path ((k, v) ∷ row) h found =
    ground (arith, has_spec-matches specs path row h)

-- The storage that the check of an NFS share looks at has the path itself.
with_spec-matches :
    (specs : Dict String) (path : String) (storages : List Storage) (s : Storage)
    → Dict.get specs "path" ≡ some path
    → with_spec "path" path storages ≡ some s
    → any_matches s.extra_specs specs ≡ true
unfolding with_spec
with_spec-matches specs path [] s h found = cc
with_spec-matches specs path (t ∷ storages) s h found =
    ground (
      arith,
      with_spec-matches specs path storages s h,
      has_spec-matches specs path t.extra_specs h,
    )

with_spec-path_in_use :
    (path : String) (storages : List Storage)
    → with_spec "path" path storages ≡ none
    → path_in_use storages path ≡ false
unfolding with_spec path_in_use
with_spec-path_in_use path [] h = refl
with_spec-path_in_use path (s ∷ storages) h = ground (arith, with_spec-path_in_use path storages)

any_clash-at :
    (storages : List Storage) (specs items : Dict String) (key value : String)
    → Dict.get items key ≡ some value
    → any_clash storages specs items ≡ false
    → clashes storages specs key value ≡ false
unfolding any_clash Dict.get
any_clash-at storages specs [] key value h free = cc
any_clash-at storages specs ((k, v) ∷ items) key value h free =
    ground (arith, any_clash-at storages specs items key value)

-- A share passes only if no storage has its path.
pub unclashed-path_in_use :
    (storages : List Storage) (specs : Dict String) (path : String)
    → Dict.get specs "path" ≡ some path
    → any_clash storages specs specs ≡ false
    → path_in_use storages path ≡ false
unfolding clashes
unclashed-path_in_use storages specs path h free =
    elim (with_spec "path" path storages)
        as (λ found. with_spec "path" path storages ≡ found → path_in_use storages path ≡ false) [
          | none ↦ λ same. with_spec-path_in_use path storages same
          | some s ↦ λ same. ground (
            arith,
            any_clash-at storages specs specs "path" path h free,
            with_spec-matches specs path storages s h same,
          )
        ]
      refl
