-- ===== src/Uri/Breadcrumbs.antt =====
-- The breadcrumbs of a remote address.
use file_octopus.Base.{
  true, false, Option, none, some, List, [], ◌∷◌, ◌++◌, ◌≡◌, refl, ap, inl, inr, JsString, js, ◌==◌,
  eq_iff, truthy, includes, split, non_empty, strip_trailing, or_else, All, arith, Bool-cases,
}
use file_octopus.Uri.{
  slash, remote_uri_schemes, uri_scheme, is_remote_uri, is_network_uri, profile_of, after_scheme,
  profile_id_from_remote_uri, remote_path_from_uri,
}
use file_octopus.Uri.Profiles.{is_plain, profile_id-build_remote_uri}
use file_octopus.Uri.Display.{
  UriBreadcrumbSegment, remote_crumbs, or_root, remote_breadcrumbs, breadcrumb_segments_from_uri,
}

abbrev pub labels : List UriBreadcrumbSegment → List JsString
labels [] = []
labels (s ∷ segments) = s.label ∷ labels segments

-- The names on the way to a path: its parts that are not empty, or a slash if there are none.
abbrev pub steps : List JsString → List JsString
steps [] = slash ∷ []
steps (part ∷ parts) = part ∷ parts

-- The address belongs to the profile.
abbrev pub HasProfile : JsString → UriBreadcrumbSegment → Type 0
HasProfile profile segment = profile_id_from_remote_uri segment.uri ≡ some profile

network_is_not_remote : includes remote_uri_schemes (js "network") ≡ false
unfolding includes ◌==◌
network_is_not_remote = refl

is_network-remote :
    (uri scheme : JsString)
    → uri_scheme uri ≡ some scheme
    → includes remote_uri_schemes scheme ≡ true
    → is_network_uri uri ≡ false
unfolding is_network_uri
is_network-remote uri scheme e known = elim (Bool-cases (scheme == js "network")) [
  | inl same ↦
      let e' : scheme ≡ js "network" = (eq_iff scheme (js "network")).0 same in
      absurd (cc (network_is_not_remote, ap (includes remote_uri_schemes) e', known))
  | inr other ↦ rw (e, other) refl
]

abbrev HasRemoteScheme : Option JsString → Type 0
HasRemoteScheme found =
    (scheme : JsString) × (found ≡ some scheme) × (includes remote_uri_schemes scheme ≡ true)

scheme_cases :
    (found : Option JsString)
    → (elim found [ none ↦ false | some scheme ↦ includes remote_uri_schemes scheme ]) ≡ true
    → HasRemoteScheme found
scheme_cases none h = cc
scheme_cases (some scheme) h = (scheme, refl, h)

remote-scheme : (uri : JsString) → is_remote_uri uri ≡ true → HasRemoteScheme (uri_scheme uri)
unfolding is_remote_uri
remote-scheme uri h = scheme_cases (uri_scheme uri) h

profile_of-truthy :
    (body : Option JsString) {profile : JsString}
    → profile_of body ≡ some profile
    → truthy profile ≡ true
unfolding profile_of
profile_of-truthy none h = cc
profile_of-truthy (some body) h = ground arith

profile-truthy :
    (uri : JsString) {profile : JsString}
    → is_remote_uri uri ≡ true
    → profile_id_from_remote_uri uri ≡ some profile
    → truthy profile ≡ true
unfolding profile_id_from_remote_uri
profile-truthy uri remote h = profile_of-truthy (after_scheme uri) (rw remote at h)

labels-remote_crumbs :
    (scheme profile current : JsString) (parts : List JsString)
    → labels (remote_crumbs scheme profile current parts) ≡ parts
unfolding remote_crumbs
labels-remote_crumbs scheme profile current [] = refl
labels-remote_crumbs scheme profile current (part ∷ parts) =
    ap (part ∷◌) (labels-remote_crumbs scheme profile (current ++ (slash ++ part)) parts)

labels-or_root :
    (uri : JsString) (segments : List UriBreadcrumbSegment)
    → labels (or_root uri segments) ≡ steps (labels segments)
unfolding or_root
labels-or_root uri [] = refl
labels-or_root uri (s ∷ segments) = refl

module _ (scheme profile : JsString) (known : includes remote_uri_schemes scheme ≡ true)
    (full : truthy profile ≡ true) (plain : is_plain profile ≡ true) where
  remote_crumbs-HasProfile :
      (current : JsString) (parts : List JsString)
      → All (HasProfile profile) (remote_crumbs scheme profile current parts)
  unfolding remote_crumbs
  remote_crumbs-HasProfile current [] = tt
  remote_crumbs-HasProfile current (part ∷ parts) = (
    profile_id-build_remote_uri scheme profile (current ++ (slash ++ part)) known full plain,
    remote_crumbs-HasProfile (current ++ (slash ++ part)) parts,
  )

or_root-HasProfile :
    (uri profile : JsString) (segments : List UriBreadcrumbSegment)
    → profile_id_from_remote_uri uri ≡ some profile
    → All (HasProfile profile) segments
    → All (HasProfile profile) (or_root uri segments)
unfolding or_root
or_root-HasProfile uri profile [] e h = (e, tt)
or_root-HasProfile uri profile (s ∷ segments) e h = h

-- The breadcrumbs of a remote address with a profile that has no colon and no slash are labelled by the
-- parts of its path that are not empty, in order, or by one slash if there are none, and each leads to
-- an address of the same profile.
pub breadcrumb_segments-HasProfile :
    (to_upper_case : JsString → JsString) (uri profile : JsString)
    → is_remote_uri uri ≡ true
    → profile_id_from_remote_uri uri ≡ some profile
    → is_plain profile ≡ true
    → (labels (breadcrumb_segments_from_uri to_upper_case uri)
        ≡ steps (
            non_empty
              (split b'/' (strip_trailing b'/' (or_else (remote_path_from_uri uri) slash)))))
      × All (HasProfile profile) (breadcrumb_segments_from_uri to_upper_case uri)
unfolding breadcrumb_segments_from_uri remote_breadcrumbs
breadcrumb_segments-HasProfile to_upper_case uri profile remote id plain =
    let (scheme, e, known) = remote-scheme uri remote in
    let full = profile-truthy uri remote id in
    let parts =
      non_empty (split b'/' (strip_trailing b'/' (or_else (remote_path_from_uri uri) slash))) in
    let crumbs = remote_crumbs scheme profile [] parts in
    rw (is_network-remote uri scheme e known, remote, e, id)
      (
        rw (labels-or_root uri crumbs, labels-remote_crumbs scheme profile [] parts) refl,
        or_root-HasProfile uri profile crumbs id
            (remote_crumbs-HasProfile scheme profile known full plain [] parts),
      )
