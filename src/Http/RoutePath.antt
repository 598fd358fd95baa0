-- ===== src/Http/RoutePath.antt =====
-- `join_fastapi_route_path` of http/http_routes.py.
use openvair_rde_linter.Base.{
  String, ◌<>◌, Bool, true, ◌||◌, Option, none, some, begins_with, is_empty, strip, rstrip,
  if◌then◌else◌,
}

-- `f'/{s}'`
abbrev pub after_slash : String → String
after_slash s = String.◌∷◌ "/" s

-- a path with a slash in front
unfoldable pub with_slash : String → String
unfolding begins_with
with_slash route_path = if begins_with b'/' route_path then route_path else after_slash route_path

-- `not prefix or not prefix.strip('/')`
unfoldable pub is_blank_prefix : Option String → Bool
unfolding is_empty strip
is_blank_prefix none = true
is_blank_prefix (some prefix) = is_empty prefix || is_empty (strip b'/' prefix)

unfoldable pub text_of : Option String → String
text_of none = ""
text_of (some s) = s

unfoldable pub join_fastapi_route_path : Option String → String → String
unfolding text_of
join_fastapi_route_path prefix route_path =
    let seg = with_slash route_path in
    if is_blank_prefix prefix
    then (if is_empty seg then "/" else seg)
    else rstrip b'/' (after_slash (strip b'/' (text_of prefix))) <> seg
