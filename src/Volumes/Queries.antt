-- ===== src/Volumes/Queries.antt =====
-- openvair/modules/volume/service_layer/services.py: `get_volume` and `get_all_volumes`.
use openvair_rde_linter.Base.{
  String, Bool, false, not, ◌&&◌, Option, List, [], ◌∷◌, ◌==◌, string_eq, is_empty, keep_if,
  or_default, if◌then◌else◌,
}
use openvair_rde_linter.Result.{Exn}
use openvair_rde_linter.Service.{raise_if, gets, ◌>>◌}
use openvair_rde_linter.Volumes.{Volume, Run, get_or_fail}
use openvair_rde_linter.Volumes.Checks.{is_empty_list}

unfoldable pub get_volume : Option String → Run Volume
unfolding get_or_fail is_empty or_default
get_volume volume_id = do
  raise_if (is_empty (or_default volume_id "")) Exn.unexpected_data_arguments
  get_or_fail (or_default volume_id "")

-- `get_all_by_storage` if a storage is given, else `get_all`
unfoldable pub listed : Option String → List Volume → List Volume
unfolding keep_if is_empty or_default
listed storage_id volumes =
    if is_empty (or_default storage_id "")
    then volumes
    else keep_if (λ v. v.storage_id == or_default storage_id "") volumes

-- the loop, which passes over attached volumes if free ones are asked for
unfoldable pub free_ones : Bool → List Volume → List Volume
unfolding is_empty_list
free_ones free_volumes [] = []
free_ones free_volumes (v ∷ volumes) =
    let rest = free_ones free_volumes volumes in
    if free_volumes && not (is_empty_list v.attachments) then rest else v ∷ rest

unfoldable pub get_all_volumes : Option String → Option Bool → Run (List Volume)
unfolding listed free_ones or_default
get_all_volumes storage_id free_volumes =
    gets (λ w. free_ones (or_default free_volumes false) (listed storage_id w.volumes))
