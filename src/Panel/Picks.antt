-- ===== src/Panel/Picks.antt =====
-- The theorems on selections at a concrete tab.
use file_octopus.Base.{
  find_text, strip_trailing, before_last, ◌&&◌, not, some, List, [], ◌∷◌, ◌≡◌, refl, ◌==◌, includes,
  keep, trim, index_of, lookup, get_elem?, not,
}
use file_octopus.Panel.Entry.{FileEntryDto}
use file_octopus.Panel.Types.{range, PanelTabState}
use file_octopus.Panel.Storage.{stored_sort}
use file_octopus.Panel.Tabs.{blank_tab}
use file_octopus.Panel.Order.{compare_entries, insert_entry, sort_entries}
use file_octopus.Panel.Visible.{
  entries_of, passes_filter, select_visible_entries, select_displayed_entries,
  prepend_parent_directory_entry, create_parent_directory_entry, is_parent_directory_uri,
}
use file_octopus.Uri.{
  parent_uri_from_uri, is_network_uri, uri_scheme, is_remote_uri, local_unc_path,
}
use file_octopus.Panel.Selection.{select_entry_tab, invert_selection_tab, uris_of}
use file_octopus.Panel.Picking.{select_entry_tab-range, includes-invert_selection_tab}
use file_octopus.Panel.Examples.{host, note, music, listing}

abbrev displayed : List FileEntryDto
displayed = prepend_parent_directory_entry listing.uri (music ∷ note ∷ [])

select_entry_tab-range_example :
    (picked : PanelTabState) × (select_entry_tab host listing music.uri range ≡ some picked)
    × (get_elem? picked.selected_ids 1 ≡ some note.uri)
    × (picked.anchor_id ≡ some note.uri)
    × (picked.focused_id ≡ some music.uri)
unfolding index_of ◌==◌ select_displayed_entries select_visible_entries entries_of lookup
    sort_entries passes_filter trim blank_tab insert_entry compare_entries stored_sort
    is_parent_directory_uri prepend_parent_directory_entry create_parent_directory_entry
    parent_uri_from_uri is_network_uri uri_scheme find_text is_remote_uri includes local_unc_path
    strip_trailing before_last
select_entry_tab-range_example =
    select_entry_tab-range host listing music.uri note.uri displayed 1 0 1 refl refl refl refl

includes-invert_selection_tab_example :
    (once : PanelTabState) × (invert_selection_tab host listing ≡ some once)
    × (includes once.selected_ids music.uri ≡ (
        includes (uris_of (music ∷ note ∷ [])) music.uri
        && not (includes listing.selected_ids music.uri)))
    × (twice : PanelTabState) × (invert_selection_tab host once ≡ some twice)
    × (twice.selected_ids ≡ keep (includes listing.selected_ids) (uris_of (music ∷ note ∷ [])))
unfolding select_visible_entries sort_entries lookup ◌==◌ trim entries_of passes_filter blank_tab
    insert_entry compare_entries stored_sort
includes-invert_selection_tab_example =
    includes-invert_selection_tab host listing (music ∷ note ∷ []) music.uri refl
