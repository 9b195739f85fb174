-- ===== src/Uri/Display.antt =====
-- Addresses as they are shown (packages/ts-api/src/uri.ts): display paths, roots and breadcrumbs. The
-- case conversion of the engine is a parameter. Keys that every object inherits are left aside in the
-- table of labels.
use file_octopus.Base.{
  ℕ, ◌&&◌, ◌||◌, not, Option, none, some, List, [], ◌∷◌, ◌++◌, map, JsString, js, Dict, lookup,
  truthy, starts_with, split, join, non_empty, strip_trailing, any, if◌then◌else◌, eqb, take, drop,
  drop_last, or_else,
}
use file_octopus.Uri.{
  slash, is_remote_uri, is_network_uri, uri_scheme, profile_id_from_remote_uri,
  remote_path_from_uri, build_remote_uri, network_path_parts, network_uri_from_parts, strip_prefix,
  local_unc_path, is_letter, is_line_end,
}

pub record UriBreadcrumbSegment : Type 0 where
  pub label : JsString
  pub uri : JsString

abbrev crumb : JsString → JsString → UriBreadcrumbSegment
crumb label uri = record { label = label; uri = uri }

abbrev network_uri_labels : Dict JsString
network_uri_labels =
    (js "cloud", js "Cloud Storage")
    ∷ (js "lan", js "Local Network")
    ∷ (js "saved", js "Saved Connections")
    ∷ (js "add", js "Add Connection")
    ∷ []

dash : ℕ → ℕ
dash c = if eqb c b'_' then b'-' else c

capitalized : (JsString → JsString) → JsString → JsString
capitalized to_upper_case value = to_upper_case (take 1 value) ++ drop 1 value

unfoldable pub network_part_label : (JsString → JsString) → JsString → JsString
unfolding dash capitalized
network_part_label to_upper_case part =
    or_else (lookup part network_uri_labels)
      (join (js " ") (map (capitalized to_upper_case) (non_empty (split b'-' (map dash part)))))

unfoldable pub display_path_from_uri : (JsString → JsString) → JsString → JsString
unfolding network_part_label
display_path_from_uri to_upper_case uri =
    if is_network_uri uri
    then (elim (network_path_parts uri) [
      | [] ↦ js "Network"
      | part ∷ parts ↦
          join (js " / ") (js "Network" ∷ map (network_part_label to_upper_case) (part ∷ parts))
    ])
    else if is_remote_uri uri
    then or_else (remote_path_from_uri uri) uri
    else strip_prefix (js "local://") uri

without_slash : JsString → JsString
without_slash path = if starts_with path slash then drop 1 path else path

-- `/^\/([A-Za-z]:)[\\/]/` or else `/^([A-Za-z]:)[\\/]/`
drive_of : JsString → Option JsString
drive_of (c ∷ d ∷ e ∷ _) =
    if is_letter c && eqb d b':' && (eqb e 92 || eqb e b'/') then some (c ∷ d ∷ []) else none
drive_of _ = none

local_root : JsString → JsString
unfolding without_slash drive_of
local_root path = elim (local_unc_path path) [
  | some unc ↦ unc.root_uri
  | none ↦ (elim (drive_of (without_slash path)) [
    | some drive ↦ js "local://" ++ (drive ++ slash)
    | none ↦ js "local:///"
  ])
]

remote_root : JsString → Option JsString → Option JsString → JsString
remote_root uri (some scheme) (some profile_id) = build_remote_uri scheme profile_id slash
remote_root uri (some scheme) none = uri
remote_root uri none profile_id = uri

unfoldable pub root_uri_for_uri : (JsString → JsString) → JsString → JsString
unfolding local_root remote_root
root_uri_for_uri to_upper_case uri =
    if is_network_uri uri
    then js "network:///"
    else if is_remote_uri uri
    then remote_root uri (uri_scheme uri) (profile_id_from_remote_uri uri)
    else local_root (display_path_from_uri to_upper_case uri)

-- The round of each loop: `current` is what stands before.
unfoldable pub network_crumbs :
    (JsString → JsString) → List JsString → List JsString → List UriBreadcrumbSegment
network_crumbs to_upper_case current [] = []
network_crumbs to_upper_case current (part ∷ parts) =
    crumb (network_part_label to_upper_case part) (network_uri_from_parts (current ++ part ∷ []))
    ∷ network_crumbs to_upper_case (current ++ part ∷ []) parts

unfoldable pub remote_crumbs :
    JsString → JsString → JsString → List JsString → List UriBreadcrumbSegment
remote_crumbs scheme profile_id current [] = []
remote_crumbs scheme profile_id current (segment ∷ segments) =
    crumb segment (build_remote_uri scheme profile_id (current ++ (slash ++ segment)))
    ∷ remote_crumbs scheme profile_id (current ++ (slash ++ segment)) segments

-- `before` stands before the path in each address.
unfoldable pub local_crumbs : JsString → JsString → List JsString → List UriBreadcrumbSegment
local_crumbs before current [] = []
local_crumbs before current (segment ∷ segments) =
    crumb segment (before ++ (current ++ (slash ++ segment)))
    ∷ local_crumbs before (current ++ (slash ++ segment)) segments

-- A relative path: each address ends with a slash.
relative_crumbs : JsString → List JsString → List UriBreadcrumbSegment
relative_crumbs current [] = []
relative_crumbs current (segment ∷ segments) =
    let next = (if truthy current then current ++ (slash ++ segment) else segment) in
    crumb segment (js "local://" ++ (next ++ slash)) ∷ relative_crumbs next segments

or_whole : JsString → List UriBreadcrumbSegment → List UriBreadcrumbSegment
or_whole uri [] = crumb uri uri ∷ []
or_whole uri (s ∷ segments) = s ∷ segments

unfoldable pub or_root : JsString → List UriBreadcrumbSegment → List UriBreadcrumbSegment
or_root uri [] = crumb slash uri ∷ []
or_root uri (s ∷ segments) = s ∷ segments

-- The groups of `/^\/?([A-Za-z]:)(?:\/(.*))?$/`, if it matches: the drive and the rest.
drive_path : JsString → Option (JsString × JsString)
unfolding is_letter is_line_end
drive_path (c ∷ d ∷ []) = if is_letter c && eqb d b':' then some (c ∷ d ∷ [], []) else none
drive_path (c ∷ d ∷ e ∷ rest) =
    if is_letter c && eqb d b':' && eqb e b'/' && not (any is_line_end rest)
    then some (c ∷ d ∷ [], rest)
    else none
drive_path _ = none

plain_crumbs : JsString → JsString → List UriBreadcrumbSegment
unfolding without_slash drive_path local_crumbs relative_crumbs or_whole
plain_crumbs uri path = elim (drive_path (without_slash path)) [
  | some (drive, rest) ↦
      crumb drive (js "local://" ++ (drive ++ slash))
      ∷ local_crumbs (js "local://") drive (non_empty (split b'/' rest))
  | none ↦
      let parts = non_empty (split b'/' path) in
      or_whole uri (
        if starts_with path slash
        then local_crumbs (js "local://") [] parts
        else relative_crumbs [] parts)
]

local_breadcrumbs : JsString → JsString → List UriBreadcrumbSegment
unfolding plain_crumbs local_crumbs
local_breadcrumbs uri path = elim (local_unc_path path) [
  | some unc ↦
      crumb (js "//" ++ (unc.server ++ (slash ++ unc.share))) unc.root_uri
      ∷ local_crumbs [] (drop_last unc.root_uri) unc.segments
  | none ↦ plain_crumbs uri path
]

unfoldable pub remote_breadcrumbs :
    JsString → Option JsString → Option JsString → List UriBreadcrumbSegment
unfolding remote_crumbs or_root
remote_breadcrumbs uri (some scheme) (some profile_id) = or_root uri (
    remote_crumbs scheme profile_id []
      (non_empty (split b'/' (strip_trailing b'/' (or_else (remote_path_from_uri uri) slash)))))
remote_breadcrumbs uri (some scheme) none = crumb uri uri ∷ []
remote_breadcrumbs uri none profile_id = crumb uri uri ∷ []

unfoldable pub breadcrumb_segments_from_uri :
    (JsString → JsString) → JsString → List UriBreadcrumbSegment
unfolding network_crumbs remote_breadcrumbs local_breadcrumbs
breadcrumb_segments_from_uri to_upper_case uri =
    if is_network_uri uri
    then crumb (js "Network") (js "network:///")
      ∷ network_crumbs to_upper_case [] (network_path_parts uri)
    else if is_remote_uri uri
    then remote_breadcrumbs uri (uri_scheme uri) (profile_id_from_remote_uri uri)
    else local_breadcrumbs uri (strip_trailing b'/' (display_path_from_uri to_upper_case uri))
