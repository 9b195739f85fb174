-- ===== src/Panel/Slices.antt =====
-- The dispatch of the reducer (packages/frontend/src/state/paneReducer.ts).
use file_octopus.Base.{ℕ, ◌+◌, Bool, true, false, ◌≡◌, refl, if◌then◌else◌}
use file_octopus.Panel.Types.{PanelAction}
use file_octopus.Panel.Reducer.{
  is_tab_action, is_content_search_action, is_navigation_action, is_listing_action,
  is_selection_action, is_sort_filter_action,
}

abbrev one_if : Bool → ℕ
one_if true = 1
one_if false = 0

-- The number of slices that an action belongs to.
abbrev pub slices : PanelAction → ℕ
slices action =
    one_if (is_tab_action action)
    + one_if (is_content_search_action action)
    + one_if (is_navigation_action action)
    + one_if (is_listing_action action)
    + one_if (is_selection_action action)
    + one_if (is_sort_filter_action action)

abbrev pub is_swap : PanelAction → Bool
is_swap PanelAction.swap_panes = true
is_swap _ = false

-- Each action but the exchange of the panes belongs to exactly one slice, and that exchange to none.
pub slices_of_action : (action : PanelAction) → slices action ≡ (if is_swap action then 0 else 1)
unfolding is_tab_action is_content_search_action is_navigation_action is_listing_action
    is_selection_action is_sort_filter_action
slices_of_action (PanelAction.set_active_panel _) = refl
slices_of_action (PanelAction.navigate _ _ _) = refl
slices_of_action (PanelAction.go_back _) = refl
slices_of_action (PanelAction.go_forward _) = refl
slices_of_action (PanelAction.start_request _ _ _) = refl
slices_of_action (PanelAction.start_session _ _ _) = refl
slices_of_action (PanelAction.apply_batch _) = refl
slices_of_action (PanelAction.rename_entry _ _ _) = refl
slices_of_action (PanelAction.set_selection _ _) = refl
slices_of_action (PanelAction.set_selection_many _ _) = refl
slices_of_action (PanelAction.select_all _) = refl
slices_of_action (PanelAction.invert_selection _) = refl
slices_of_action (PanelAction.clear_selection _) = refl
slices_of_action (PanelAction.select_entry _ _ _) = refl
slices_of_action (PanelAction.move_selection _ _) = refl
slices_of_action (PanelAction.set_pane_error _ _ _ _ _) = refl
slices_of_action (PanelAction.set_filter _ _) = refl
slices_of_action (PanelAction.set_recursive_query _ _) = refl
slices_of_action (PanelAction.set_content_search_query _ _ _) = refl
slices_of_action (PanelAction.start_content_search _ _ _ _ _ _) = refl
slices_of_action (PanelAction.bind_content_search_job _ _ _ _) = refl
slices_of_action (PanelAction.fail_content_search_start _ _ _ _) = refl
slices_of_action (PanelAction.apply_content_search_match _) = refl
slices_of_action (PanelAction.apply_content_search_completed _) = refl
slices_of_action (PanelAction.terminate_content_search_job _ _ _) = refl
slices_of_action (PanelAction.discard_content_search_job_events _) = refl
slices_of_action (PanelAction.set_sort _ _) = refl
slices_of_action (PanelAction.set_view_mode _ _) = refl
slices_of_action (PanelAction.toggle_hidden _) = refl
slices_of_action (PanelAction.hydrate_preferences _ _) = refl
slices_of_action (PanelAction.set_hash _ _ _) = refl
slices_of_action PanelAction.swap_panes = refl
slices_of_action (PanelAction.open_tab _ _) = refl
slices_of_action (PanelAction.open_preview_tab _ _) = refl
slices_of_action (PanelAction.open_editor_tab _ _) = refl
slices_of_action (PanelAction.open_git_review_tab _ _ _ _) = refl
slices_of_action (PanelAction.replace_content_tab_entry _ _ _) = refl
slices_of_action (PanelAction.close_tab _ _) = refl
slices_of_action (PanelAction.switch_tab _ _) = refl
slices_of_action (PanelAction.set_archive_entries _ _ _ _) = refl
slices_of_action (PanelAction.remove_entries _) = refl
