-- ===== src/Panel/Valid/Selecting.antt =====
-- The selection slice on well formed states.
use file_octopus.Base.{
  ℕ, not, none, some, List, [], ◌∷◌, ◌≡◌, refl, JsString, ℤ, keep, trim, get_elem?-some, ◌<◌,
  includes, arith, length,
}
use file_octopus.Panel.Entry.{FileEntryDto}
use file_octopus.Panel.Host.{Host}
use file_octopus.Panel.Types.{
  PanelTabState, FileOctopusState, PanelAction, SelectMode, single, toggle, range,
}
use file_octopus.Panel.Valid.{TabIsValid, IsValid}
use file_octopus.Panel.Valid.Lists.{entries_of_total}
use file_octopus.Panel.Valid.States.{Succeeds, update_panel-Succeeds, update_panel_keeps}
use file_octopus.Panel.Visible.{
  passes_filter, is_parent_directory_uri, select_visible_entries, select_displayed_entries,
  prepend_parent_directory_entry,
}
use file_octopus.Panel.Reducer.{reduce_selection}
use file_octopus.Panel.Order.{sort_entries}
use file_octopus.Panel.Selection.{
  select_span, select_slice, uris_of, set_selection_tab, set_selection_many_tab,
  clear_selection_tab, select_single, select_toggle, select_range, select_entry_tab, move_among,
  focus_at, move_selection_tab, select_all_tab, invert_selection_tab, with_selection,
}

-- What a well formed tab shows is found.
pub visible_found :
    (h : Host) (tab : PanelTabState)
    → TabIsValid tab
    → (entries : List FileEntryDto) × (select_visible_entries h tab ≡ some entries)
unfolding select_visible_entries
visible_found h tab v =
    let (entries, e) = entries_of_total tab.entries_by_id tab.ordered_entry_ids v.listing in
    (
      sort_entries h tab.sort (keep (passes_filter h (h.to_lower_case (trim tab.filter))) entries),
      rw e,
    )

pub displayed_found :
    (h : Host) (tab : PanelTabState)
    → TabIsValid tab
    → (entries : List FileEntryDto) × (select_displayed_entries h tab ≡ some entries)
unfolding select_displayed_entries
displayed_found h tab v =
    let (entries, e) = visible_found h tab v in
    (prepend_parent_directory_entry tab.uri entries, rw e)

-- The updates of the selection leave the listing alone.
abbrev SameListing : PanelTabState → PanelTabState → Type 0
SameListing tab next =
    (next.entries_by_id ≡ tab.entries_by_id)
    × (next.ordered_entry_ids ≡ tab.ordered_entry_ids)
    × (next.background_listing ≡ tab.background_listing)

select_range-SameListing :
    (visible : List JsString) (tab : PanelTabState) (entry_id : JsString)
    → SameListing tab (select_range visible tab entry_id)
unfolding select_range select_span select_slice select_single
select_range-SameListing visible tab entry_id = ground arith

select_toggle-SameListing :
    (tab : PanelTabState) (entry_id : JsString) → SameListing tab (select_toggle tab entry_id)
unfolding select_toggle select_single
select_toggle-SameListing tab entry_id = ground arith

SameListing-TabIsValid :
    (tab next : PanelTabState) → SameListing tab next → TabIsValid tab → TabIsValid next
SameListing-TabIsValid tab next (p, q, r) v = record {
  listing = rw (p, q) v.listing;
  in_background = rw r v.in_background;
}

focus_at_succeeds :
    (index : ℕ) (visible : List FileEntryDto) (tab : PanelTabState)
    → index < length visible
    → TabIsValid tab
    → (next : PanelTabState) × (focus_at index visible tab ≡ some next) × TabIsValid next
unfolding focus_at
focus_at_succeeds index visible tab h v =
    let (entry, e) = get_elem?-some visible index h in
    (
      record tab {
        selected_ids = entry.uri ∷ [];
        selected_id = some entry.uri;
        focused_id = some entry.uri;
        anchor_id = some entry.uri;
      },
      rw e,
      record { listing = v.listing; in_background = v.in_background },
    )

move_among_succeeds :
    (delta : ℤ) (tab : PanelTabState) (visible : List FileEntryDto)
    → TabIsValid tab
    → (next : PanelTabState) × (move_among delta tab visible ≡ some next) × TabIsValid next
unfolding move_among
move_among_succeeds delta tab [] v = (
  record tab { selected_id = none; focused_id = none },
  refl,
  record { listing = v.listing; in_background = v.in_background },
)
move_among_succeeds delta tab (entry ∷ entries) v =
    focus_at_succeeds _ (entry ∷ entries) tab (omega arith) v

select_entry_tab_succeeds :
    (h : Host) (tab : PanelTabState) (entry_id : JsString) (mode : SelectMode)
    → TabIsValid tab
    → (next : PanelTabState) × (select_entry_tab h tab entry_id mode ≡ some next) × TabIsValid next
unfolding select_entry_tab select_single
select_entry_tab_succeeds h tab entry_id single v =
    (_, refl, record { listing = v.listing; in_background = v.in_background })
select_entry_tab_succeeds h tab entry_id toggle v = (
  select_toggle tab entry_id,
  refl,
  SameListing-TabIsValid tab _ (select_toggle-SameListing tab entry_id) v,
)
select_entry_tab_succeeds h tab entry_id range v =
    let (entries, e) = displayed_found h tab v in
    let visible = keep (λ id. not (is_parent_directory_uri id tab.uri)) (uris_of entries) in
    (
      select_range visible tab entry_id,
      rw e,
      SameListing-TabIsValid tab _ (select_range-SameListing visible tab entry_id) v,
    )

with_selection-TabIsValid :
    (ids : List JsString) (tab : PanelTabState)
    → TabIsValid tab
    → TabIsValid (with_selection ids tab)
unfolding with_selection
with_selection-TabIsValid ids tab v = record {
  listing = v.listing;
  in_background = v.in_background;
}

pub reduce_selection-Succeeds :
    (h : Host) (s : FileOctopusState) (action : PanelAction)
    → IsValid s
    → Succeeds (reduce_selection h s action)
unfolding reduce_selection set_selection_tab set_selection_many_tab clear_selection_tab
    select_all_tab invert_selection_tab move_selection_tab
reduce_selection-Succeeds h s (PanelAction.set_selection p entry_id) v =
    update_panel_keeps s p (set_selection_tab entry_id) v
      (λ tab w. record { listing = w.listing; in_background = w.in_background })
reduce_selection-Succeeds h s (PanelAction.set_selection_many p entry_ids) v =
    update_panel_keeps s p (set_selection_many_tab entry_ids) v
      (λ tab w. record { listing = w.listing; in_background = w.in_background })
reduce_selection-Succeeds h s (PanelAction.select_all p) v =
    update_panel-Succeeds s p (select_all_tab h) v λ tab w.
      let (entries, e) = visible_found h tab w in
      (
        with_selection (uris_of entries) tab,
        rw e,
        with_selection-TabIsValid (uris_of entries) tab w,
      )
reduce_selection-Succeeds h s (PanelAction.invert_selection p) v =
    update_panel-Succeeds s p (invert_selection_tab h) v λ tab w.
      let (entries, e) = visible_found h tab w in
      let ids = keep (λ id. not (includes tab.selected_ids id)) (uris_of entries) in
      (with_selection ids tab, rw e, with_selection-TabIsValid ids tab w)
reduce_selection-Succeeds h s (PanelAction.clear_selection p) v =
    update_panel_keeps s p clear_selection_tab v
      (λ tab w. record { listing = w.listing; in_background = w.in_background })
reduce_selection-Succeeds h s (PanelAction.select_entry p entry_id mode) v =
    update_panel-Succeeds s p (λ tab. select_entry_tab h tab entry_id mode) v
      (λ tab w. select_entry_tab_succeeds h tab entry_id mode w)
reduce_selection-Succeeds h s (PanelAction.move_selection p delta) v =
    update_panel-Succeeds s p (λ tab. move_selection_tab h tab delta) v
      λ tab w.
        let (entries, e) = displayed_found h tab w in
        let (next, f, k) = move_among_succeeds delta tab entries w in (next, rw e f, k)
reduce_selection-Succeeds h s _ v = (s, refl, v)
