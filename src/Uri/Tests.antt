-- ===== src/Uri/Tests.antt =====
-- Runs of the functions on addresses, and the theorems on them at concrete addresses.
use file_octopus.Base.{
  ◌≡◌, refl, none, some, js, ◌==◌, starts_with, find_text, before, from, split, join, non_empty,
  strip_trailing, before_last, includes, [], ◌∷◌, All, or_else, lookup,
}
use file_octopus.Uri.Breadcrumbs.{HasProfile, labels, steps, breadcrumb_segments-HasProfile}
use file_octopus.Uri.Display.{
  breadcrumb_segments_from_uri, root_uri_for_uri, display_path_from_uri, network_part_label,
  local_crumbs,
}
use file_octopus.Uri.Profiles.{profile_id-build_remote_uri, remote_path-build_remote_uri}
use file_octopus.Uri.{
  rooted, is_letter, uri_scheme, is_remote_uri, is_network_uri, profile_id_from_remote_uri,
  remote_path_from_uri, build_remote_uri, network_path_parts, network_uri_from_parts,
  local_unc_path, parent_uri_from_uri,
}

parents :
    (parent_uri_from_uri (js "local:///home/me/") ≡ some (js "local:///home"))
    × (parent_uri_from_uri (js "local:///home") ≡ some (js "local:///"))
    × (parent_uri_from_uri (js "local:///") ≡ none)
    × (parent_uri_from_uri (js "local://C:/x") ≡ some (js "local://C:/"))
    × (parent_uri_from_uri (js "local:////srv/share/a/b") ≡ some (js "local:////srv/share/a"))
    × (parent_uri_from_uri (js "sftp://box/a/b/") ≡ some (js "sftp://box/a"))
    × (parent_uri_from_uri (js "sftp://box/") ≡ none)
    × (parent_uri_from_uri (js "network:///lan/host") ≡ some (js "network:///lan"))
unfolding parent_uri_from_uri uri_scheme is_remote_uri is_network_uri profile_id_from_remote_uri
    remote_path_from_uri build_remote_uri network_path_parts network_uri_from_parts local_unc_path
    ◌==◌ starts_with find_text before from split join non_empty strip_trailing before_last includes
parents = (refl, refl, refl, refl, refl, refl, refl, refl)

profile_id-build_remote_uri_example :
    profile_id_from_remote_uri (build_remote_uri (js "sftp") (js "box") (js "a/b/"))
    ≡ some (js "box")
unfolding includes ◌==◌
profile_id-build_remote_uri_example =
    profile_id-build_remote_uri (js "sftp") (js "box") (js "a/b/") refl refl refl

remote_path-build_remote_uri_example :
    remote_path_from_uri (build_remote_uri (js "sftp") (js "box") (js "a/b/"))
    ≡ some (rooted (js "a/b/"))
unfolding includes ◌==◌
remote_path-build_remote_uri_example =
    remote_path-build_remote_uri (js "sftp") (js "box") (js "a/b/") refl refl refl

roots :
    (root_uri_for_uri (λ s. s) (js "local:///home/me") ≡ js "local:///")
    × (root_uri_for_uri (λ s. s) (js "local:///C:/x") ≡ js "local://C:/")
    × (root_uri_for_uri (λ s. s) (js "local:////srv/share/a") ≡ js "local:////srv/share/")
    × (root_uri_for_uri (λ s. s) (js "sftp://box/a") ≡ js "sftp://box/")
unfolding root_uri_for_uri uri_scheme is_remote_uri is_network_uri profile_id_from_remote_uri
    build_remote_uri network_path_parts local_unc_path display_path_from_uri ◌==◌ starts_with
    find_text before from split non_empty strip_trailing includes is_letter
roots = (refl, refl, refl, refl)

shown :
    (labels (breadcrumb_segments_from_uri (λ s. s) (js "network:///lan/nas-box"))
      ≡ js "Network" ∷ js "Local Network" ∷ js "nas box" ∷ [])
    × (labels (breadcrumb_segments_from_uri (λ s. s) (js "local://C:/a//b"))
        ≡ js "C:" ∷ js "a" ∷ js "b" ∷ [])
unfolding breadcrumb_segments_from_uri uri_scheme is_remote_uri is_network_uri network_part_label
    network_path_parts local_unc_path display_path_from_uri local_crumbs ◌==◌ starts_with lookup
    find_text before from split join non_empty strip_trailing includes network_uri_from_parts
    is_letter
shown = (refl, refl)

breadcrumb_segments-HasProfile_example :
    (labels (breadcrumb_segments_from_uri (λ s. s) (js "sftp://box/a//b/"))
      ≡ steps (
          non_empty (
            split b'/' (
              strip_trailing b'/'
                (or_else (remote_path_from_uri (js "sftp://box/a//b/")) (js "/"))))))
    × All (HasProfile (js "box")) (breadcrumb_segments_from_uri (λ s. s) (js "sftp://box/a//b/"))
unfolding is_remote_uri uri_scheme profile_id_from_remote_uri includes ◌==◌ starts_with find_text
    before
breadcrumb_segments-HasProfile_example =
    breadcrumb_segments-HasProfile (λ s. s) (js "sftp://box/a//b/") (js "box") refl refl refl
