-- ===== src/Panel/Removal.antt =====
-- Removed and renamed entries (`removeEntriesFromState` and `renameEntryInState` of
-- packages/frontend/src/panelStore.ts).
use file_octopus.Base.{
  Bool, Option, none, lookup-erase, if◌then◌else◌, false, not, ◌&&◌, some, List, [], ◌∷◌, map, ◌≡◌,
  refl, sym, ap, ◌∙◌, subst, inl, inr, JsString, ◌==◌, eq_iff, eq_refl, lookup, lookup-insert,
  includes, any, arith, Bool-cases,
}
use file_octopus.Panel.Entry.{FileEntryDto}
use file_octopus.Panel.Types.{PanelTabState}
use file_octopus.Panel.Listing.{remove_from_tab, replace_id, rename_known, rename_in_tab}
use file_octopus.Panel.Picking.{includes-keep}

-- Where none of the identifiers is among the removed ones, a listed one is not.
not_removed :
    (uris ids : List JsString) (id : JsString)
    → any (includes uris) ids ≡ false
    → includes ids id ≡ (includes ids id && not (includes uris id))
unfolding includes
not_removed uris [] id e = refl
not_removed uris (x ∷ ids) id e = elim (Bool-cases (x == id)) [
  | inl same ↦
      let f : includes uris x ≡ false = ground (arith, e) in
      let g : includes uris id ≡ false =
        subst (λ y. includes uris y ≡ false) ((eq_iff x id).0 same) f in
      rw (same, g) refl
  | inr other ↦ rw other (not_removed uris ids id (ground (arith, e)))
]

-- When entries are removed, a tab lists what it listed before and what is not removed.
pub includes-remove_from_tab :
    (uris : List JsString) (tab : PanelTabState) (id : JsString)
    → includes (remove_from_tab uris tab).ordered_entry_ids id
      ≡ (includes tab.ordered_entry_ids id && not (includes uris id))
unfolding remove_from_tab
includes-remove_from_tab uris tab id =
    elim (Bool-cases (any (includes uris) tab.ordered_entry_ids)) [
      | inl e ↦ rw e (includes-keep (λ x. not (includes uris x)) tab.ordered_entry_ids id)
      | inr e ↦ rw e (not_removed uris tab.ordered_entry_ids id e)
    ]

replaced_back :
    (old_uri new_uri : JsString) (ids : List JsString)
    → includes ids new_uri ≡ false
    → map (replace_id new_uri old_uri) (map (replace_id old_uri new_uri) ids) ≡ ids
unfolding includes replace_id
replaced_back old_uri new_uri [] h = refl
replaced_back old_uri new_uri (id ∷ ids) h =
    let rest = replaced_back old_uri new_uri ids (ground (arith, h)) in
    let fresh : (id == new_uri) ≡ false = ground (arith, h) in
    elim (Bool-cases (id == old_uri)) [
      | inl e ↦
          let f : old_uri ≡ id = sym ((eq_iff id old_uri).0 e) in
          rw (e, eq_refl new_uri) (ap (old_uri ∷◌) rest ∙ ap (λ x. x ∷ ids) f)
      | inr e ↦ rw (e, fresh) (ap (id ∷◌) rest)
    ]

includes-replaced :
    (old_uri new_uri id : JsString) (ids : List JsString)
    → includes ids new_uri ≡ false
    → (old_uri == new_uri) ≡ false
    → includes (map (replace_id old_uri new_uri) ids) id
      ≡ (if id == new_uri then includes ids old_uri else not (id == old_uri) && includes ids id)
unfolding includes replace_id
includes-replaced old_uri new_uri id [] h d = ground arith
includes-replaced old_uri new_uri id (x ∷ ids) h d = ground (
  arith,
  d,
  includes-replaced old_uri new_uri id ids (ground (arith, h)) d,
  eq_iff x old_uri,
  eq_iff x new_uri,
  eq_iff x id,
  eq_iff new_uri id,
  eq_iff id new_uri,
  eq_iff id old_uri,
)

-- The identifiers after a renaming: the new one in place of the old one, and the others as before.
abbrev pub swapped : JsString → JsString → List JsString → JsString → Bool
swapped old_uri new_uri ids id =
    if id == new_uri then includes ids old_uri else not (id == old_uri) && includes ids id

-- The identifier and the name of an entry, if there is one.
abbrev pub uri_and_name : Option FileEntryDto → Option (JsString × JsString)
uri_and_name none = none
uri_and_name (some known) = some (known.uri, known.name)

module _ (old_uri new_uri name : JsString) (tab : PanelTabState) (entry : FileEntryDto) where
  renamed_gone :
      (old_uri == new_uri) ≡ false
      → lookup old_uri (rename_known old_uri new_uri name tab (some entry)).entries_by_id ≡ none
  unfolding rename_known
  renamed_gone other =
      let turned : (new_uri == old_uri) ≡ false =
        ground (arith, eq_iff new_uri old_uri, eq_iff old_uri new_uri, other) in
      rw (lookup-insert new_uri old_uri, turned, lookup-erase old_uri old_uri, eq_refl old_uri) refl

-- Renaming a known entry of a tab to another identifier that the tab neither lists nor selects: the
-- entry is found under the new identifier with the new name, and no longer under the old one; what is
-- listed and what is selected has the new identifier exactly where it had the old one, and the others
-- as before. Renaming it back gives the list and the selection back, in their order.
pub rename_and_back :
    (old_uri new_uri name old_name id : JsString) (tab : PanelTabState) (entry : FileEntryDto)
    → lookup old_uri tab.entries_by_id ≡ some entry
    → includes tab.ordered_entry_ids new_uri ≡ false
    → includes tab.selected_ids new_uri ≡ false
    → (old_uri == new_uri) ≡ false
    → let renamed = rename_in_tab old_uri new_uri name tab in
      (uri_and_name (lookup new_uri renamed.entries_by_id) ≡ some (new_uri, name))
      × (lookup old_uri renamed.entries_by_id ≡ none)
      × (includes renamed.ordered_entry_ids id ≡ swapped old_uri new_uri tab.ordered_entry_ids id)
      × (includes renamed.selected_ids id ≡ swapped old_uri new_uri tab.selected_ids id)
      × ((rename_in_tab new_uri old_uri old_name renamed).ordered_entry_ids ≡ tab.ordered_entry_ids)
      × ((rename_in_tab new_uri old_uri old_name renamed).selected_ids ≡ tab.selected_ids)
unfolding rename_in_tab rename_known
rename_and_back old_uri new_uri name old_name id tab entry e unlisted unselected other =
    rw (e, lookup-insert new_uri new_uri, eq_refl new_uri)
      (
        refl,
        renamed_gone old_uri new_uri name tab entry other,
        includes-replaced old_uri new_uri id tab.ordered_entry_ids unlisted other,
        includes-replaced old_uri new_uri id tab.selected_ids unselected other,
        replaced_back old_uri new_uri tab.ordered_entry_ids unlisted,
        replaced_back old_uri new_uri tab.selected_ids unselected,
      )
