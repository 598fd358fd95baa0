-- ===== src/Compare/Messages.antt =====
-- The messages of core/comparator.py: a constructor for each template, with the values shown in it.
use openvair_rde_linter.Base.{String, Bool, List, Triple}
use openvair_rde_linter.Value.{Value}

-- (name, kind, required, type_hint), the name apart as the key of the sort
abbrev pub Row : Type 0
Row = String × (String × Bool × String)

pub data Problem : Type 0 where
  layer_not_found : String → Problem
  disallowed_class_name : String → String → Problem
  class_not_found : String → Value → Problem
  not_a_method_list : String → Problem
  missing_method : String → Value → Value → Problem
  file_not_scanned : String → String → Problem
  missing_function : String → String → Value → Problem
  endpoints_not_a_list : String → String → Problem
  endpoint_not_a_mapping : String → String → Problem
  incomplete_endpoint : String → Value → Problem
  no_matching_route : String → Triple → Problem
  parameter_mismatch : String → Triple → List Row → List Row → Problem

pub data Warning : Type 0 where
  class_of_unlisted_layer : String → String → Warning
  unlisted_class : String → String → Warning
  unlisted_method : String → String → String → Warning
  unlisted_file : String → String → Warning
  unlisted_function : String → String → String → Warning
  unlisted_route : String → Triple → Warning
