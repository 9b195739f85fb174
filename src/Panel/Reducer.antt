-- ===== src/Panel/Reducer.antt =====
-- The reducer: packages/frontend/src/panelStore.ts (`createInitialState`, `panelReducer`),
-- packages/frontend/src/state/paneReducer.ts, and the `switch` of each slice.
use file_octopus.Base.{
  Bool, true, false, Option, none, some, [], ◌∷◌, JsString, js, if◌then◌else◌, ◌>>=◌,
}
use file_octopus.Panel.Host.{Host, World}
use file_octopus.Panel.Types.{
  PanelId, left, right, TabKind, PaneLoadState, PanelState, FileOctopusState, PanelAction, panel_of,
  set_panel,
}
use file_octopus.Panel.Update.{update_panel, update_panel_tab}
use file_octopus.Panel.Navigation.{
  set_active_panel_state, navigate_state, go_back_state, go_forward_state,
}
use file_octopus.Panel.Listing.{apply_batch_state, remove_entries_state, rename_entry_state}
use file_octopus.Panel.Requests.{
  start_request_tab, start_session_tab, pane_error_tab, request_error_tab, update_requested,
  set_archive_entries_tab,
}
use file_octopus.Panel.Update.{update_request_tab}
use file_octopus.Panel.Selection.{
  select_entry_tab, move_selection_tab, set_selection_tab, set_selection_many_tab, select_all_tab,
  invert_selection_tab, clear_selection_tab,
}
use file_octopus.Panel.SortFilter.{
  set_sort_state, set_view_mode_state, toggle_hidden_state, hydrate_state, set_hash_tab,
}
use file_octopus.Panel.Storage.{home_uri, documents_uri}
use file_octopus.Panel.Tabs.{
  blank_tab, create_fresh_tab, create_content_tab, open_with, open_git_review_state,
  replace_content_state, switch_tab_panel, close_tab_panel,
}
use file_octopus.Panel.Search.{
  start_search_tab, fail_start_tab, bind_job_state, apply_match_state, apply_completed_state,
  terminate_job_state, absorb_job,
}

unfoldable pub create_panel : Host → World → PanelId → JsString → PanelState
create_panel h w id uri = record {
  id = id;
  active_tab_id = js "main";
  tabs =
      (
        js "main",
        record (blank_tab h w none TabKind.directory uri) { load_state = PaneLoadState.idle },
      )
      ∷ [];
}

unfoldable pub create_initial_state : Host → World → FileOctopusState
create_initial_state h w = record {
  active_panel_id = left;
  panels = record {
    left = create_panel h w left (home_uri h w);
    right = create_panel h w right (documents_uri h w);
  };
  pending_content_search_events = [];
  absorbed_content_search_job_ids = [];
}

-- The update of one panel; it may throw.
unfoldable pub with_panel :
    FileOctopusState → PanelId → (PanelState → Option PanelState) → Option FileOctopusState
with_panel state panel_id f = do
  panel ← f (panel_of state.panels panel_id)
  some (record state { panels = set_panel state.panels panel_id panel })

-- The tests that say which slice an action belongs to, each from the file of its slice.
unfoldable pub is_tab_action : PanelAction → Bool
is_tab_action (PanelAction.open_tab _ _) = true
is_tab_action (PanelAction.open_preview_tab _ _) = true
is_tab_action (PanelAction.open_editor_tab _ _) = true
is_tab_action (PanelAction.open_git_review_tab _ _ _ _) = true
is_tab_action (PanelAction.replace_content_tab_entry _ _ _) = true
is_tab_action (PanelAction.close_tab _ _) = true
is_tab_action (PanelAction.switch_tab _ _) = true
is_tab_action _ = false

unfoldable pub is_content_search_action : PanelAction → Bool
is_content_search_action (PanelAction.set_content_search_query _ _ _) = true
is_content_search_action (PanelAction.start_content_search _ _ _ _ _ _) = true
is_content_search_action (PanelAction.bind_content_search_job _ _ _ _) = true
is_content_search_action (PanelAction.fail_content_search_start _ _ _ _) = true
is_content_search_action (PanelAction.apply_content_search_match _) = true
is_content_search_action (PanelAction.apply_content_search_completed _) = true
is_content_search_action (PanelAction.terminate_content_search_job _ _ _) = true
is_content_search_action (PanelAction.discard_content_search_job_events _) = true
is_content_search_action _ = false

unfoldable pub is_navigation_action : PanelAction → Bool
is_navigation_action (PanelAction.set_active_panel _) = true
is_navigation_action (PanelAction.navigate _ _ _) = true
is_navigation_action (PanelAction.go_back _) = true
is_navigation_action (PanelAction.go_forward _) = true
is_navigation_action _ = false

unfoldable pub is_listing_action : PanelAction → Bool
is_listing_action (PanelAction.start_session _ _ _) = true
is_listing_action (PanelAction.start_request _ _ _) = true
is_listing_action (PanelAction.apply_batch _) = true
is_listing_action (PanelAction.rename_entry _ _ _) = true
is_listing_action (PanelAction.remove_entries _) = true
is_listing_action (PanelAction.set_pane_error _ _ _ _ _) = true
is_listing_action (PanelAction.set_archive_entries _ _ _ _) = true
is_listing_action _ = false

unfoldable pub is_selection_action : PanelAction → Bool
is_selection_action (PanelAction.set_selection _ _) = true
is_selection_action (PanelAction.set_selection_many _ _) = true
is_selection_action (PanelAction.select_all _) = true
is_selection_action (PanelAction.invert_selection _) = true
is_selection_action (PanelAction.clear_selection _) = true
is_selection_action (PanelAction.select_entry _ _ _) = true
is_selection_action (PanelAction.move_selection _ _) = true
is_selection_action _ = false

unfoldable pub is_sort_filter_action : PanelAction → Bool
is_sort_filter_action (PanelAction.set_filter _ _) = true
is_sort_filter_action (PanelAction.set_recursive_query _ _) = true
is_sort_filter_action (PanelAction.set_sort _ _) = true
is_sort_filter_action (PanelAction.set_view_mode _ _) = true
is_sort_filter_action (PanelAction.toggle_hidden _) = true
is_sort_filter_action (PanelAction.hydrate_preferences _ _) = true
is_sort_filter_action (PanelAction.set_hash _ _ _) = true
is_sort_filter_action _ = false

-- The new state and world; `none` is an exception.
abbrev Outcome : Type 0
Outcome = Option (FileOctopusState × World)

-- A result that leaves the world as it was.
abbrev in_world : World → Option FileOctopusState → Outcome
in_world w result = do state ← result; some (state, w)

unfoldable pub reduce_tab : Host → World → FileOctopusState → PanelAction → Outcome
unfolding with_panel
reduce_tab h w s (PanelAction.open_tab p uri) = some (open_with w s p (create_fresh_tab h w uri))
reduce_tab h w s (PanelAction.open_preview_tab p entry) =
    some (open_with w s p (create_content_tab h w TabKind.preview entry))
reduce_tab h w s (PanelAction.open_editor_tab p entry) =
    some (open_with w s p (create_content_tab h w TabKind.editor entry))
reduce_tab h w s (PanelAction.open_git_review_tab p root source label) =
    some (open_git_review_state h w s p root source label)
reduce_tab h w s (PanelAction.replace_content_tab_entry p tab_id entry) =
    some (replace_content_state s p tab_id entry, w)
reduce_tab h w s (PanelAction.switch_tab p tab_id) =
    in_world w (with_panel s p (λ panel. some (switch_tab_panel tab_id panel)))
reduce_tab h w s (PanelAction.close_tab p tab_id) =
    in_world w (with_panel s p (close_tab_panel tab_id))
reduce_tab h w s _ = some (s, w)

unfoldable pub reduce_content_search : FileOctopusState → PanelAction → FileOctopusState
reduce_content_search s (PanelAction.set_content_search_query p tab_id query) =
    update_panel_tab s p tab_id (λ tab. record tab { content_search_query = query })
reduce_content_search s (PanelAction.start_content_search p tab_id request_id root query options) =
    update_panel_tab s p tab_id (start_search_tab request_id root query options)
reduce_content_search s (PanelAction.bind_content_search_job p tab_id request_id job_id) =
    bind_job_state s p tab_id request_id job_id
reduce_content_search s (PanelAction.fail_content_search_start p tab_id request_id error) =
    update_panel_tab s p tab_id (fail_start_tab request_id error)
reduce_content_search s (PanelAction.apply_content_search_match event) = apply_match_state s event
reduce_content_search s (PanelAction.apply_content_search_completed event) =
    apply_completed_state s event
reduce_content_search s (PanelAction.terminate_content_search_job job_id status error) =
    terminate_job_state s job_id status error
reduce_content_search s (PanelAction.discard_content_search_job_events job_id) = absorb_job s job_id
reduce_content_search s _ = s

unfoldable pub reduce_navigation : FileOctopusState → PanelAction → Option FileOctopusState
reduce_navigation s (PanelAction.set_active_panel p) = some (set_active_panel_state s p)
reduce_navigation s (PanelAction.navigate p uri flags) = navigate_state s p uri flags
reduce_navigation s (PanelAction.go_back p) = go_back_state s p
reduce_navigation s (PanelAction.go_forward p) = go_forward_state s p
reduce_navigation s _ = some s

unfoldable pub reduce_listing : FileOctopusState → PanelAction → Option FileOctopusState
reduce_listing s (PanelAction.start_request p request_id background_refresh) =
    update_panel s p (λ tab. some (start_request_tab request_id background_refresh tab))
reduce_listing s (PanelAction.start_session p session_id request_id) =
    some (update_request_tab s p request_id (start_session_tab session_id request_id))
reduce_listing s (PanelAction.apply_batch batch) = some (apply_batch_state s batch)
reduce_listing s (PanelAction.remove_entries uris) = some (remove_entries_state s uris)
reduce_listing s (PanelAction.rename_entry old_uri new_uri name) =
    some (rename_entry_state s old_uri new_uri name)
reduce_listing s (PanelAction.set_pane_error p request_id error error_code load_state) =
    update_requested s p request_id (request_error_tab error error_code load_state)
      (pane_error_tab error error_code load_state)
reduce_listing s (PanelAction.set_archive_entries p request_id uri entries) =
    update_requested s p request_id (set_archive_entries_tab uri entries)
      (set_archive_entries_tab uri entries)
reduce_listing s _ = some s

unfoldable pub reduce_selection : Host → FileOctopusState → PanelAction → Option FileOctopusState
reduce_selection h s (PanelAction.set_selection p entry_id) =
    update_panel s p (λ tab. some (set_selection_tab entry_id tab))
reduce_selection h s (PanelAction.set_selection_many p entry_ids) =
    update_panel s p (λ tab. some (set_selection_many_tab entry_ids tab))
reduce_selection h s (PanelAction.select_all p) = update_panel s p (select_all_tab h)
reduce_selection h s (PanelAction.invert_selection p) = update_panel s p (invert_selection_tab h)
reduce_selection h s (PanelAction.clear_selection p) =
    update_panel s p (λ tab. some (clear_selection_tab tab))
reduce_selection h s (PanelAction.select_entry p entry_id mode) =
    update_panel s p (λ tab. select_entry_tab h tab entry_id mode)
reduce_selection h s (PanelAction.move_selection p delta) =
    update_panel s p (λ tab. move_selection_tab h tab delta)
reduce_selection h s _ = some s

unfoldable pub reduce_sort_filter : World → FileOctopusState → PanelAction → Outcome
reduce_sort_filter w s (PanelAction.set_filter p filter) =
    in_world w (update_panel s p (λ tab. some (record tab { filter = filter })))
reduce_sort_filter w s (PanelAction.set_recursive_query p query) =
    in_world w (update_panel s p (λ tab. some (record tab { recursive_query = query })))
reduce_sort_filter w s (PanelAction.set_sort p field) = set_sort_state w s p field
reduce_sort_filter w s (PanelAction.set_view_mode p view_mode) = set_view_mode_state w s p view_mode
reduce_sort_filter w s (PanelAction.toggle_hidden p) = toggle_hidden_state w s p
reduce_sort_filter w s (PanelAction.hydrate_preferences show_hidden view_mode) =
    in_world w (hydrate_state w s show_hidden view_mode)
reduce_sort_filter w s (PanelAction.set_hash p entry_id hash_state) =
    in_world w (update_panel s p (λ tab. some (set_hash_tab entry_id hash_state tab)))
reduce_sort_filter w s _ = some (s, w)

unfoldable pub reduce_panel_action : Host → World → FileOctopusState → PanelAction → Outcome
reduce_panel_action h w s action =
    if is_tab_action action
    then reduce_tab h w s action
    else if is_content_search_action action
    then some (reduce_content_search s action, w)
    else if is_navigation_action action
    then in_world w (reduce_navigation s action)
    else if is_listing_action action
    then in_world w (reduce_listing s action)
    else if is_selection_action action
    then in_world w (reduce_selection h s action)
    else if is_sort_filter_action action
    then reduce_sort_filter w s action
    else some (s, w)

unfoldable pub panel_reducer : Host → World → FileOctopusState → PanelAction → Outcome
panel_reducer h w s PanelAction.swap_panes =
    some (record s { panels = record { left = s.panels.right; right = s.panels.left } }, w)
panel_reducer h w s action = reduce_panel_action h w s action
