-- ===== src/Uri/Profiles.antt =====
-- The profile of a remote address that is built from one.
use file_octopus.Base.{
  Bool, true, false, not, ◌||◌, some, [], ◌∷◌, ◌++◌, ◌≡◌, refl, ap, subst, inl, inr, JsString, js,
  ◌==◌, eq_iff, truthy, starts_with, find_text, before, includes, eqb, length, strip_trailing, drop,
  all, arith, Bool-cases, Option-cases, if◌then◌else◌,
}
use file_octopus.Uri.{
  remote_uri_schemes, uri_scheme, is_remote_uri, until_separator, after_scheme, profile_of, body_of,
  remote_path_from_uri, profile_id_from_remote_uri, rooted, build_remote_uri, slash,
}

-- A profile identifier without colons and slashes.
abbrev pub is_plain : JsString → Bool
is_plain profile = all (λ c. not (eqb c b':' || eqb c b'/')) profile

before-until_separator :
    (profile rest : JsString)
    → is_plain profile ≡ true
    → before b'/' (until_separator (profile ++ b'/' ∷ rest)) ≡ profile
unfolding until_separator find_text before starts_with
before-until_separator [] rest plain = elim (Option-cases (find_text rest (js "://"))) [
  | inl e ↦ rw e refl
  | inr (k, e) ↦ rw e refl
]
before-until_separator (c ∷ profile) rest plain =
    let no_colon : eqb c b':' ≡ false = ground (arith, plain) in
    let no_slash : eqb c b'/' ≡ false = ground (arith, plain) in
    let tail = before-until_separator profile rest (ground (arith, plain)) in
    elim (Option-cases (find_text (profile ++ b'/' ∷ rest) (js "://"))) [
      | inl e ↦ rw (e, no_colon, no_slash) (ap (c ∷◌) (rw e at tail))
      | inr (k, e) ↦ rw (e, no_colon, no_slash) (ap (c ∷◌) (rw e at tail))
    ]

slash_first :
    (path : JsString)
    → (rest : JsString) × ((if path == slash
          then slash
          else if starts_with path slash
          then path
          else slash ++ path)
        ≡ b'/' ∷ rest)
unfolding starts_with ◌==◌
slash_first [] = ([], refl)
slash_first (c ∷ path) = elim (Bool-cases ((c ∷ path) == slash)) [
  | inl e ↦ ([], rw e refl)
  | inr e ↦ elim (Bool-cases (starts_with (c ∷ path) slash)) [
    | inl f ↦ (path, rw (e, f) (let g : c ≡ b'/' = ground (arith, f) in ap (◌∷ path) g))
    | inr f ↦ (c ∷ path, rw (e, f) refl)
  ]
]

rooted_slash : (path : JsString) → (rest : JsString) × (rooted path ≡ b'/' ∷ rest)
unfolding rooted
rooted_slash path =
    slash_first (if path == [] || path == slash then slash else strip_trailing b'/' path)

-- What the scheme of an address does not depend on.
abbrev HasScheme : JsString → JsString → Type 0
HasScheme scheme body =
    (is_remote_uri (scheme ++ (js "://" ++ body)) ≡ true)
    × (after_scheme (scheme ++ (js "://" ++ body)) ≡ some (until_separator body))
    × (body_of (scheme ++ (js "://" ++ body)) ≡ body)

remote-HasScheme :
    (scheme body : JsString) → includes remote_uri_schemes scheme ≡ true → HasScheme scheme body
unfolding includes is_remote_uri uri_scheme after_scheme body_of find_text starts_with ◌==◌
remote-HasScheme scheme body h = elim (Bool-cases (js "sftp" == scheme)) [
  | inl e ↦ subst (λ s. HasScheme s body) ((eq_iff (js "sftp") scheme).0 e) (refl, refl, refl)
  | inr e ↦ elim (Bool-cases (js "smb" == scheme)) [
    | inl f ↦ subst (λ s. HasScheme s body) ((eq_iff (js "smb") scheme).0 f) (refl, refl, refl)
    | inr f ↦ elim (Bool-cases (js "s3" == scheme)) [
      | inl g ↦ subst (λ s. HasScheme s body) ((eq_iff (js "s3") scheme).0 g) (refl, refl, refl)
      | inr g ↦ elim (Bool-cases (js "webdav" == scheme)) [
        | inl k ↦
            subst (λ s. HasScheme s body) ((eq_iff (js "webdav") scheme).0 k) (refl, refl, refl)
        | inr k ↦ absurd (ground (arith, rw (e, f, g, k) at h))
      ]
    ]
  ]
]

profile_of-before :
    (body profile : JsString)
    → before b'/' body ≡ profile
    → truthy profile ≡ true
    → profile_of (some body) ≡ some profile
unfolding profile_of before
profile_of-before [] profile e t = absurd (ground (arith, e, t))
profile_of-before (c ∷ body) profile e t = rw (e, t) refl

-- The profile that is read from an address built of a known scheme, a profile that is not empty and has
-- no colon and no slash, and any path, is the profile that it was built of.
pub profile_id-build_remote_uri :
    (scheme profile path : JsString)
    → includes remote_uri_schemes scheme ≡ true
    → truthy profile ≡ true
    → is_plain profile ≡ true
    → profile_id_from_remote_uri (build_remote_uri scheme profile path) ≡ some profile
unfolding profile_id_from_remote_uri build_remote_uri
profile_id-build_remote_uri scheme profile path known full plain =
    let (rest, e) = rooted_slash path in
    let (remote, body, _) = remote-HasScheme scheme (profile ++ rooted path) known in
    rw (remote, body)
      (profile_of-before (until_separator (profile ++ rooted path)) profile
        (rw e (before-until_separator profile rest plain)) full)

drop-length : (xs ys : JsString) → drop (length xs) (xs ++ ys) ≡ ys
drop-length [] ys = refl
drop-length (x ∷ xs) ys = drop-length xs ys

-- From an address built of a known scheme, a profile that is not empty and has no colon and no slash, and
-- any path, the path is read as the address holds it, with its slash at the start.
pub remote_path-build_remote_uri :
    (scheme profile path : JsString)
    → includes remote_uri_schemes scheme ≡ true
    → truthy profile ≡ true
    → is_plain profile ≡ true
    → remote_path_from_uri (build_remote_uri scheme profile path) ≡ some (rooted path)
unfolding remote_path_from_uri build_remote_uri starts_with
remote_path-build_remote_uri scheme profile path known full plain =
    let (rest, e) = rooted_slash path in
    let (remote, _, body) = remote-HasScheme scheme (profile ++ rooted path) known in
    let id = profile_id-build_remote_uri scheme profile path known full plain in
    let full_path : eqb (length (b'/' ∷ rest)) 0 ≡ false = ground arith in
    rw (remote, id, body, drop-length profile (rooted path), e, full_path) refl
