-- ===== src/Panel/Runs.antt =====
-- The theorems on the panel store at concrete states.
use mathlib.Core.List.{Perm}
use file_octopus.Base.{
  ◌&&◌, not, keys, All, inl, true, false, none, some, [], ◌∷◌, ◌++◌, ◌≡◌, refl, js, ◌==◌, includes,
  trim, any, lookup, or_maybe, arith, if◌then◌else◌, not, ◌||◌,
}
use file_octopus.Panel.Entry.{FileEntryDto}
use file_octopus.Panel.Types.{panel_of, left, PanelTabState, FileOctopusState, PanelAction}
use file_octopus.Panel.Host.{World}
use file_octopus.Panel.Storage.{generate_tab_id}
use file_octopus.Panel.Tabs.{open_with, blank_tab, create_fresh_tab}
use file_octopus.Panel.Order.{sort_entries}
use file_octopus.Panel.Navigation.{go_back_tab, go_forward_tab, navigate_tab}
use file_octopus.Panel.Listing.{remove_from_tab, rename_in_tab, Listed, add_entries, deliver}
use file_octopus.Panel.Requests.{start_request_tab}
use file_octopus.Panel.Search.{pending_events, buffer_match, append_match, is_about, bind_search}
use file_octopus.Panel.Reducer.{
  panel_reducer, reduce_content_search, create_panel, create_initial_state,
}
use file_octopus.Panel.Valid.{IsValid}
use file_octopus.Panel.Valid.Updates.{create_fresh_tab-TabIsValid}
use file_octopus.Panel.Valid.States.{add_tab-IsValid}
use file_octopus.Panel.Valid.Reducer.{
  run_actions, run_from_start, create_initial_state-IsValid, panel_reducer_succeeds,
}
use file_octopus.Panel.Removal.{includes-remove_from_tab, rename_and_back, uri_and_name, swapped}
use file_octopus.Panel.Fresh.{IsIssued, open_with-keys}
use file_octopus.Panel.History.{trail, place, trail-go_back_and_forward, go_forward-go_back}
use file_octopus.Panel.Ordering.{DirectoriesFirst, sort_entries-DirectoriesFirst}
use file_octopus.Panel.Sizes.{IsSizeOrdered, sort_entries-IsSizeOrdered}
use file_octopus.Panel.Batches.{
  IsExact, add_entries_listing, new_ids, last_entry, add_entries-IsExact, includes-add_entries,
}
use file_octopus.Panel.Stale.{deliver_all, deliver_stale, background_refresh_keeps_listing}
use file_octopus.Panel.Buffering.{bind_search-buffer_match}
use file_octopus.Panel.Bounded.{IsBounded, reduce_content_search-IsBounded}
use file_octopus.Panel.Slices.{slices, is_swap, slices_of_action}
use file_octopus.Panel.Examples.{
  host, world, note, music, photo, by_name, by_size, initial, opened, travelled, listing, batch,
  match_event, started_search,
}

opened-IsValid : IsValid opened
opened-IsValid =
    add_tab-IsValid initial left (js "tab-7-1") (create_fresh_tab host world (js "local:///m") none)
      (create_initial_state-IsValid host world)
      (create_fresh_tab-TabIsValid host world (js "local:///m") none (λ tab e. absurd (cc)))

panel_reducer_succeeds_example :
    (r : FileOctopusState × World) × (panel_reducer host world opened
        (PanelAction.close_tab left (js "tab-7-1"))
      ≡ some r)
    × IsValid r.0
panel_reducer_succeeds_example =
    panel_reducer_succeeds host world opened (PanelAction.close_tab left (js "tab-7-1"))
      opened-IsValid

trail-go_back_and_forward_example :
    (trail (go_back_tab travelled) ≡ trail travelled)
    × (trail (go_forward_tab travelled) ≡ trail travelled)
trail-go_back_and_forward_example = trail-go_back_and_forward travelled

go_forward-go_back_example : place (go_forward_tab (go_back_tab travelled)) ≡ place travelled
unfolding blank_tab
go_forward-go_back_example = go_forward-go_back travelled (js "local:///a") refl refl refl

sort_entries-IsSizeOrdered_example :
    IsSizeOrdered by_size (sort_entries host by_size (note ∷ music ∷ []))
    × Perm (sort_entries host by_size (note ∷ music ∷ [])) (note ∷ music ∷ [])
sort_entries-IsSizeOrdered_example =
    sort_entries-IsSizeOrdered host by_size refl (note ∷ music ∷ [])

sort_entries-DirectoriesFirst_example :
    DirectoriesFirst host by_name (sort_entries host by_name (note ∷ music ∷ photo ∷ []))
sort_entries-DirectoriesFirst_example =
    sort_entries-DirectoriesFirst host by_name (note ∷ music ∷ photo ∷ []) refl

abbrev empty_listing : Listed
empty_listing = record { entries_by_id = []; ordered_entry_ids = [] }

empty_listing-IsExact : IsExact empty_listing
unfolding includes lookup
empty_listing-IsExact = record { same = λ id. refl; once = tt }

add_entries_listing_example :
    ((add_entries empty_listing (note ∷ music ∷ note ∷ [])).ordered_entry_ids
      ≡ new_ids empty_listing (note ∷ music ∷ note ∷ []))
    × (lookup note.uri (add_entries empty_listing (note ∷ music ∷ note ∷ [])).entries_by_id
        ≡ or_maybe (last_entry note.uri (note ∷ music ∷ note ∷ [])) none)
unfolding lookup
add_entries_listing_example =
    add_entries_listing empty_listing (note ∷ music ∷ note ∷ []) note.uri empty_listing-IsExact

add_entries-IsExact_example : IsExact (add_entries empty_listing (note ∷ music ∷ note ∷ []))
add_entries-IsExact_example =
    add_entries-IsExact empty_listing (note ∷ music ∷ note ∷ []) empty_listing-IsExact

includes-add_entries_example :
    includes (add_entries empty_listing (note ∷ music ∷ [])).ordered_entry_ids music.uri ≡ (
      includes empty_listing.ordered_entry_ids music.uri
      || any (λ (entry : FileEntryDto). entry.uri == music.uri) (note ∷ music ∷ []))
includes-add_entries_example =
    includes-add_entries empty_listing (note ∷ music ∷ []) music.uri empty_listing-IsExact

deliver_stale_example :
    (deliver (batch (js "old") (photo ∷ [])) (
        navigate_tab
          (js "/d")
          (record { replace = false; soft_refresh = false; background_refresh = false })
          listing)
      ≡ navigate_tab
          (js "/d")
          (record { replace = false; soft_refresh = false; background_refresh = false })
          listing)
    × (deliver (batch (js "old") (photo ∷ [])) (start_request_tab (js "new") false listing)
        ≡ start_request_tab (js "new") false listing)
unfolding trim ◌==◌
deliver_stale_example =
    deliver_stale listing (batch (js "old") (photo ∷ [])) (js "/d") (js "new")
      (record { replace = false; soft_refresh = false; background_refresh = false }) false refl refl
      refl

background_refresh_keeps_listing_example :
    ((deliver_all
        (batch (js "r") (photo ∷ []) ∷ batch (js "r") (note ∷ []) ∷ [])
        (start_request_tab (js "r") true listing)).entries_by_id
      ≡ listing.entries_by_id)
    × ((deliver_all
          (batch (js "r") (photo ∷ []) ∷ batch (js "r") (note ∷ []) ∷ [])
          (start_request_tab (js "r") true listing)).ordered_entry_ids
        ≡ listing.ordered_entry_ids)
background_refresh_keeps_listing_example =
    background_refresh_keeps_listing (js "r") listing
      (batch (js "r") (photo ∷ []) ∷ batch (js "r") (note ∷ []) ∷ []) (refl, refl, (refl, refl, tt))

bind_search-buffer_match_example :
    bind_search (buffer_match initial match_event) (js "job") started_search
    ≡ append_match (bind_search initial (js "job") started_search) match_event.item
unfolding includes pending_events lookup create_initial_state is_about ◌==◌
bind_search-buffer_match_example =
    bind_search-buffer_match initial started_search match_event [] refl refl (omega arith) tt refl

initial-IsBounded : IsBounded initial
unfolding create_initial_state
initial-IsBounded = record { matches = tt; absorbed = omega arith }

reduce_content_search-IsBounded_example :
    IsBounded (reduce_content_search initial (PanelAction.apply_content_search_match match_event))
reduce_content_search-IsBounded_example =
    reduce_content_search-IsBounded initial (PanelAction.apply_content_search_match match_event)
      initial-IsBounded

slices_of_action_example :
    slices (PanelAction.go_back left) ≡ (if is_swap (PanelAction.go_back left) then 0 else 1)
slices_of_action_example = slices_of_action (PanelAction.go_back left)

run_from_start_example :
    (r : FileOctopusState × World) × (run_actions host world (create_initial_state host world) (
        (1, PanelAction.open_tab left (js "local:///m"))
        ∷ (2, PanelAction.close_tab left (js "main"))
        ∷ (3, PanelAction.select_all left)
        ∷ [])
      ≡ some r)
    × IsValid r.0
run_from_start_example = run_from_start host world (
    (1, PanelAction.open_tab left (js "local:///m"))
    ∷ (2, PanelAction.close_tab left (js "main"))
    ∷ (3, PanelAction.select_all left)
    ∷ [])

open_with-keys_example :
    (keys
        (panel_of
          (open_with world initial left (create_fresh_tab host world (js "local:///m"))).0.panels
          left).tabs
      ≡ keys (panel_of initial.panels left).tabs ++ (generate_tab_id world).0 ∷ [])
    × ((panel_of
          (open_with world initial left (create_fresh_tab host world (js "local:///m"))).0.panels
          left).active_tab_id
        ≡ (generate_tab_id world).0)
    × All
        (IsIssued
          (open_with world initial left
            (create_fresh_tab host world (js "local:///m"))).1.tab_counter)
        (keys (panel_of initial.panels left).tabs ++ (generate_tab_id world).0 ∷ [])
unfolding create_initial_state create_panel
open_with-keys_example =
    open_with-keys world initial left (create_fresh_tab host world (js "local:///m")) (inl refl, tt)

includes-remove_from_tab_example :
    includes (remove_from_tab (note.uri ∷ []) listing).ordered_entry_ids music.uri
    ≡ (includes listing.ordered_entry_ids music.uri && not (includes (note.uri ∷ []) music.uri))
includes-remove_from_tab_example = includes-remove_from_tab (note.uri ∷ []) listing music.uri

abbrev renamed_listing : PanelTabState
renamed_listing = rename_in_tab note.uri photo.uri (js "photo") listing

rename_and_back_example :
    (uri_and_name (lookup photo.uri renamed_listing.entries_by_id) ≡ some (photo.uri, js "photo"))
    × (lookup note.uri renamed_listing.entries_by_id ≡ none)
    × (includes renamed_listing.ordered_entry_ids photo.uri
        ≡ swapped note.uri photo.uri listing.ordered_entry_ids photo.uri)
    × (includes renamed_listing.selected_ids photo.uri
        ≡ swapped note.uri photo.uri listing.selected_ids photo.uri)
    × ((rename_in_tab photo.uri note.uri (js "note") renamed_listing).ordered_entry_ids
        ≡ listing.ordered_entry_ids)
    × ((rename_in_tab photo.uri note.uri (js "note") renamed_listing).selected_ids
        ≡ listing.selected_ids)
unfolding includes ◌==◌ lookup blank_tab
rename_and_back_example =
    rename_and_back note.uri photo.uri (js "photo") (js "note") photo.uri listing note refl refl
      refl refl
