-- ===== src/Value/Copies.antt =====
-- The lists and dicts inside values, there and back.
use openvair_rde_linter.Base.{String, ◌≡◌, refl, List, [], ◌∷◌, map}
use openvair_rde_linter.Base.Dict.{Dict}
use openvair_rde_linter.Value.{Value, text, of_list, to_list, of_dict, to_dict}
use openvair_rde_linter.Value.Render.{str}

pub to_list-of_list : (xs : List Value) → to_list (of_list xs) ≡ xs
to_list-of_list [] = refl
to_list-of_list (x ∷ xs) = rw (to_list-of_list xs)

pub to_dict-of_dict : (d : Dict Value) → to_dict (of_dict d) ≡ d
to_dict-of_dict [] = refl
to_dict-of_dict ((k, v) ∷ d) = rw (to_dict-of_dict d)

pub map-str-text : (xs : List String) → map str (map text xs) ≡ xs
unfolding str
map-str-text [] = refl
map-str-text (x ∷ xs) = rw (map-str-text xs)
