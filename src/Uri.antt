-- ===== src/Uri.antt =====
-- Addresses of files (packages/ts-api/src/uri.ts): schemes, remote profiles and paths, parents, and
-- packages/frontend/src/navigation/uriJoin.ts. Regular expressions are written out as functions.
pub mod Profiles
pub mod Display
pub mod Breadcrumbs
mod Tests
use file_octopus.Base.{
  ℕ, ◌+◌, ◌-◌, Bool, true, false, ◌&&◌, ◌||◌, not, Option, none, some, List, [], ◌∷◌, ◌++◌,
  JsString, js, ◌==◌, is, truthy, starts_with, find_text, before, from, split, join, non_empty,
  strip_trailing, before_last, includes, if◌then◌else◌, eqb, leb, ltb, length, take, drop, head?,
  drop_last, get_last?, or_else, all, any, ◌>>=◌,
}

abbrev pub slash : JsString
slash = js "/"

abbrev pub remote_uri_schemes : List JsString
remote_uri_schemes = js "sftp" ∷ js "smb" ∷ js "s3" ∷ js "webdav" ∷ []

unfoldable pub uri_scheme : JsString → Option JsString
uri_scheme uri = elim (find_text uri (js "://")) [
  | none ↦ none
  | some separator ↦ if eqb separator 0 then none else some (take separator uri)
]

unfoldable pub is_remote_uri : JsString → Bool
is_remote_uri uri = elim (uri_scheme uri) [
  | none ↦ false
  | some scheme ↦ includes remote_uri_schemes scheme
]

unfoldable pub is_network_uri : JsString → Bool
is_network_uri uri = is (uri_scheme uri) (js "network") && starts_with uri (js "network:///")

unfoldable pub is_supported_navigation_uri : JsString → Bool
is_supported_navigation_uri uri =
    starts_with uri (js "local://") || is_remote_uri uri || is_network_uri uri

abbrev cut : Option ℕ → JsString → JsString
cut none body = body
cut (some j) body = take j body

-- The text up to the next `://`.
unfoldable pub until_separator : JsString → JsString
until_separator body = cut (find_text body (js "://")) body

abbrev after_index : Option ℕ → JsString → Option JsString
after_index none uri = none
after_index (some i) uri = some (until_separator (drop (i + 3) uri))

-- `uri.split("://")[1]`
unfoldable pub after_scheme : JsString → Option JsString
after_scheme uri = after_index (find_text uri (js "://")) uri

unfoldable pub profile_of : Option JsString → Option JsString
profile_of none = none
profile_of (some body) =
    let id = before b'/' body in if truthy body && truthy id then some id else none

unfoldable pub profile_id_from_remote_uri : JsString → Option JsString
unfolding until_separator after_scheme profile_of
profile_id_from_remote_uri uri = if is_remote_uri uri then profile_of (after_scheme uri) else none

-- `uri.slice(uri.indexOf("://") + 3)`; an index of -1 gives 2.
unfoldable pub body_of : JsString → JsString
body_of uri = elim (find_text uri (js "://")) [ none ↦ drop 2 uri | some i ↦ drop (i + 3) uri ]

unfoldable pub remote_path_from_uri : JsString → Option JsString
unfolding body_of
remote_path_from_uri uri =
    if is_remote_uri uri
    then (elim (profile_id_from_remote_uri uri) [
      | none ↦ none
      | some profile_id ↦
          let path = drop (length profile_id) (body_of uri) in
          some (
            if eqb (length path) 0
            then slash
            else if starts_with path slash
            then path
            else slash ++ path)
    ])
    else none

-- The path as it stands in an address: it starts with a slash.
unfoldable pub rooted : JsString → JsString
rooted path =
    let normalized = (if path == [] || path == slash then slash else strip_trailing b'/' path) in
    if normalized == slash
    then slash
    else if starts_with normalized slash
    then normalized
    else slash ++ normalized

unfoldable pub build_remote_uri : JsString → JsString → JsString → JsString
unfolding rooted
build_remote_uri scheme profile_id path = scheme ++ (js "://" ++ (profile_id ++ rooted path))

-- `uri.replace(/^prefix/, "")`
unfoldable pub strip_prefix : JsString → JsString → JsString
strip_prefix prefix uri = if starts_with uri prefix then drop (length prefix) uri else uri

unfoldable pub network_path_parts : JsString → List JsString
unfolding strip_prefix
network_path_parts uri = non_empty (split b'/' (strip_prefix (js "network://") uri))

unfoldable pub network_uri_from_parts : List JsString → JsString
network_uri_from_parts [] = js "network:///"
network_uri_from_parts (part ∷ parts) = js "network:///" ++ join slash (part ∷ parts)

pub record UncPath : Type 0 where
  pub server : JsString
  pub share : JsString
  pub segments : List JsString
  pub root_uri : JsString

-- `.` of a regular expression matches no line end.
unfoldable pub is_line_end : ℕ → Bool
is_line_end c = eqb c 10 || eqb c 13 || eqb c 0x2028 || eqb c 0x2029

unc_path : JsString → JsString → JsString → UncPath
unc_path server share rest = record {
  server = server;
  share = share;
  segments = non_empty (split b'/' rest);
  root_uri = js "local:////" ++ (server ++ (slash ++ (share ++ slash)));
}

-- The match of `/^\/\/([^/]+)\/([^/]+)(?:\/(.*))?$/`: what follows the two slashes is cut at the
-- next two, and the rest after them, if any, holds no line end.
unfoldable pub local_unc_path : JsString → Option UncPath
unfolding is_line_end unc_path
local_unc_path path =
    let normalized = strip_trailing b'/' path in
    let server = before b'/' (drop 2 normalized) in
    let tail = drop 1 (from b'/' (drop 2 normalized)) in
    let share = before b'/' tail in
    let rest = drop 1 (from b'/' tail) in
    if starts_with normalized (js "//")
      && truthy server
      && truthy share
      && not (any is_line_end rest)
    then some (unc_path server share rest)
    else none

unfoldable pub is_letter : ℕ → Bool
is_letter c = (leb b'A' c && leb c b'Z') || (leb b'a' c && leb c b'z')

-- `/^[A-Za-z]:$/`
is_drive : JsString → Bool
is_drive (c ∷ d ∷ []) = is_letter c && eqb d b':'
is_drive _ = false

-- The group of `/^\/?([A-Za-z]:)$/`, if it matches.
drive_root_match : JsString → Option JsString
unfolding is_drive is_letter
drive_root_match path =
    let rest = (if starts_with path slash then drop 1 path else path) in
    if is_drive rest then some rest else none

remote_parent : JsString → Option JsString
remote_parent uri = do
  scheme ← uri_scheme uri
  profile_id ← profile_id_from_remote_uri uri
  let stripped = strip_trailing b'/' (or_else (remote_path_from_uri uri) slash)
  let path = if truthy stripped then stripped else slash
  if path == slash
      then none
      else some (elim (before_last b'/' path) [
        | none ↦ build_remote_uri scheme profile_id (drop_last path)
        | some parent ↦ build_remote_uri scheme profile_id (if truthy parent then parent else slash)
      ])

plain_parent : JsString → Option JsString
unfolding drive_root_match
plain_parent path =
    let normalized =
      (if is (elim (get_last? path) [ none ↦ none | some c ↦ some (c ∷ []) ]) slash
          && ltb 1 (length path)
        then drop_last path
        else path) in
    if normalized == slash then none else (elim (before_last b'/' normalized) [
      | none ↦ none
      | some parent_path ↦ some (
          if truthy parent_path
          then (elim (drive_root_match parent_path) [
            | none ↦ js "local://" ++ parent_path
            | some drive ↦ js "local://" ++ (drive ++ slash)
          ])
          else js "local:///")
    ])

local_parent : JsString → Option JsString
unfolding plain_parent strip_prefix
local_parent uri =
    let path = strip_prefix (js "local://") uri in
    elim (local_unc_path path) [
      | some unc ↦ (elim unc.segments [
        | [] ↦ none
        | segment ∷ more ↦ some (unc.root_uri ++ join slash (drop_last (segment ∷ more)))
      ])
      | none ↦ if starts_with path (js "//") then none else plain_parent path
    ]

network_parent : List JsString → Option JsString
network_parent [] = none
network_parent (part ∷ []) = some (js "network:///")
network_parent (part ∷ more ∷ parts) =
    some (network_uri_from_parts (drop_last (part ∷ more ∷ parts)))

unfoldable pub parent_uri_from_uri : JsString → Option JsString
unfolding local_parent remote_parent network_parent
parent_uri_from_uri uri =
    if is_network_uri uri
    then network_parent (network_path_parts uri)
    else if is_remote_uri uri
    then remote_parent uri
    else local_parent uri

unfoldable pub join_uri : JsString → JsString → JsString
join_uri parent name =
    if is_remote_uri parent
    then (elim (uri_scheme parent) [
      | none ↦ parent
      | some scheme ↦ (elim (profile_id_from_remote_uri parent) [
        | none ↦ parent
        | some profile_id ↦
            let stripped = strip_trailing b'/' (or_else (remote_path_from_uri parent) slash) in
            build_remote_uri scheme profile_id
              (if truthy stripped then stripped ++ (slash ++ name) else slash ++ name)
      ])
    ])
    else (if is (elim (get_last? parent) [ none ↦ none | some c ↦ some (c ∷ []) ]) slash
        then drop_last parent
        else parent)
      ++ (slash ++ name)
