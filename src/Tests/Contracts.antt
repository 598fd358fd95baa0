-- ===== src/Tests/Contracts.antt =====
-- A contract in shorthand, with its fence, and the paths that it names.
use openvair_rde_linter.Base.{◌≡◌, refl, some, [], ◌∷◌, String-discrete, string_eq}
use openvair_rde_linter.Base.Dict.{Dict}
use openvair_rde_linter.Result.{ok, err, index_error, no_rde_block}
use openvair_rde_linter.Value.{Value, Items, text, list, dict, of_dict, texts}
use openvair_rde_linter.Paths.{normalize_rel_path, infer_layer}
use openvair_rde_linter.Contract.{Document, to_requirements, normalize_contract_document}
use openvair_rde_linter.Contract.Fence.{extract_rde_block}
use openvair_rde_linter.Contract.Layers.{normalize_layer, full_endpoint_path}
use openvair_rde_linter.Contract.Stable.{normalize_contract_document_stable}

-- The doubled slash and the dots go; a lone dot is no path.
normalize_run : normalize_rel_path "./a//b/./c.py" ≡ "a/b/c.py"
unfolding normalize_rel_path String-discrete
normalize_run = refl

normalize_dot : normalize_rel_path "." ≡ ""
unfolding normalize_rel_path String-discrete
normalize_dot = refl

normalize_slashes : normalize_rel_path "///x/" ≡ "/x"
unfolding normalize_rel_path String-discrete
normalize_slashes = refl

infer_layer_dot : infer_layer "." ≡ err index_error
unfolding infer_layer String-discrete
infer_layer_dot = refl

-- The block goes up to the last fence of the text.
fence_run :
    extract_rde_block "# T\n```rde\nlayers:\n```\nmore\n```sh\nls\n```\n"
    ≡ ok "layers:\n```\nmore\n```sh\nls"
unfolding extract_rde_block String-discrete
fence_run = refl

fence_none : extract_rde_block "# T\n```\nlayers:\n```\n" ≡ err no_rde_block
unfolding extract_rde_block String-discrete
fence_none = refl

-- A path that begins with the text of the prefix is left without it.
prefix_run : full_endpoint_path (some "/user") "/users" ≡ "/users"
unfolding full_endpoint_path String-discrete
prefix_run = refl

abbrev endpoint : Value
endpoint =
    dict (
      of_dict (("method", text "get") ∷ ("path", text "/") ∷ ("handler", text "list_widgets") ∷ []))

abbrev short_layer : Dict Value
short_layer =
    ("classes", dict (of_dict (("User", texts ("validate" ∷ [])) ∷ [])))
    ∷ (
      "http",
      dict (
          of_dict (
            ("router_prefix", text "/widgets")
            ∷ ("endpoints", list (Items.item endpoint Items.no_item))
            ∷ [])),
    )
    ∷ []

abbrev raw : Value
raw = dict (
    of_dict (
      ("feature", text " widgets ")
      ∷ ("layers", dict (of_dict (("domain", dict (of_dict short_layer)) ∷ [])))
      ∷ []))

abbrev document : Document
document = record {
  meta = [];
  feature = "widgets";
  layers = ("domain", dict (of_dict (normalize_layer short_layer))) ∷ [];
}

normalize_document_run : normalize_contract_document raw ≡ ok document
unfolding normalize_contract_document String-discrete
normalize_document_run = refl

normalize_contract_document_stable_example :
    normalize_contract_document (dict (of_dict (to_requirements document))) ≡ ok document
normalize_contract_document_stable_example =
    normalize_contract_document_stable raw document normalize_document_run
