-- ===== src/Value.antt =====
-- The values that `yaml.safe_load` returns and that the linter passes about as `object`: what
-- `isinstance`, `bool`, `str`, iteration and `dict.get` say of each. Keys of mappings are texts.
pub mod Render
pub mod Copies
use openvair_rde_linter.Base.{
  String, Char, Bool, true, false, not, Option, none, some, List, [], ◌∷◌, map,
}
use openvair_rde_linter.Base.{is_empty, string_eq}
use openvair_rde_linter.Base.Dict.{Dict}
use openvair_rde_linter.Base.Dict
use openvair_rde_linter.Result.{Result, ok, err, attribute_error, type_error}

mutual
  -- `scalar` is any other value that is no collection (an int, a float, a date): the name of its
  -- type, its `str` and its `bool`.
  pub data Value : Type 0 where
    null : Value
    flag : Bool → Value
    text : String → Value
    scalar : String → String → Bool → Value
    list : Items → Value
    dict : Fields → Value

  -- the entries of a dict, in order
  pub data Fields : Type 0 where
    field : String → Value → Fields → Fields
    no_field : Fields

  -- the items of a list
  pub data Items : Type 0 where
    item : Value → Items → Items
    no_item : Items

abbrev pub to_list : Items → List Value
to_list no_item = []
to_list (item v xs) = v ∷ to_list xs

abbrev pub of_list : List Value → Items
of_list [] = no_item
of_list (v ∷ xs) = item v (of_list xs)

abbrev pub to_dict : Fields → Dict Value
to_dict no_field = []
to_dict (field k v fs) = (k, v) ∷ to_dict fs

abbrev pub of_dict : Dict Value → Fields
of_dict [] = no_field
of_dict ((k, v) ∷ d) = field k v (of_dict d)

-- `isinstance(v, list)`, with the list
abbrev pub as_list : Value → Option (List Value)
as_list (list xs) = some (to_list xs)
as_list _ = none

-- `isinstance(v, dict)`, with the dict
abbrev pub as_dict : Value → Option (Dict Value)
as_dict (dict fs) = some (to_dict fs)
as_dict _ = none

-- `isinstance(v, str)`, with the text
abbrev pub as_text : Value → Option String
as_text (text s) = some s
as_text _ = none

-- `type(v).__name__`
unfoldable pub type_name : Value → String
type_name null = "NoneType"
type_name (flag _) = "bool"
type_name (text _) = "str"
type_name (scalar name _ _) = name
type_name (list _) = "list"
type_name (dict _) = "dict"

-- `bool(v)`
unfoldable pub truthy : Value → Bool
unfolding is_empty
truthy null = false
truthy (flag b) = b
truthy (text s) = not (is_empty s)
truthy (scalar _ _ b) = b
truthy (list no_item) = false
truthy (list (item _ _)) = true
truthy (dict no_field) = false
truthy (dict (field _ _ _)) = true

-- `v.get(key, default)`, an AttributeError unless `v` is a dict
unfoldable pub get_or : Value → String → Value → Result Value
unfolding Dict.get_or
get_or (dict fs) key default = ok (Dict.get_or (to_dict fs) key default)
get_or _ key default = err attribute_error

-- the characters of a text, each as a text
abbrev characters : String → List Value
characters String.[] = []
characters (String.◌∷◌ c s) = text (String.◌∷◌ c String.[]) ∷ characters s

-- `for x in v`: the items, the keys or the characters; a TypeError for what is no iterable
unfoldable pub iterate : Value → Result (List Value)
unfolding Dict.keys
iterate (list xs) = ok (to_list xs)
iterate (dict fs) = ok (map text (Dict.keys (to_dict fs)))
iterate (text s) = ok (characters s)
iterate _ = err type_error

-- a list of texts, as a value
abbrev pub texts : List String → Value
texts xs = list (of_list (map text xs))
