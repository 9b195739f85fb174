-- ===== src/Panel/Valid/Listing.antt =====
-- The slices for navigation and listings on well formed states.
use file_octopus.Base.{
  true, false, Option, none, some, List, [], ◌∷◌, refl, inl, inr, JsString, Bool-cases, truthy,
}
use file_octopus.Panel.Entry.{DirectoryBatchEventDto}
use file_octopus.Panel.Types.{PanelId, PanelTabState, FileOctopusState, PanelAction}
use file_octopus.Panel.Update.{update_request_tab, find_tab_by_request}
use file_octopus.Panel.Navigation.{
  set_active_panel_state, navigate_tab, navigate_state, go_back_tab, go_back_state, go_forward_tab,
  go_forward_state,
}
use file_octopus.Panel.Listing.{
  batch_target, apply_batch_to, apply_batch_state, deliver, remove_from_tab, remove_entries_state,
  rename_in_tab, rename_entry_state,
}
use file_octopus.Panel.Requests.{
  start_request_tab, start_session_tab, pane_error_tab, request_error_tab, update_requested,
}
use file_octopus.Panel.Reducer.{reduce_navigation, reduce_listing}
use file_octopus.Panel.Valid.{TabIsValid, IsValid}
use file_octopus.Panel.Valid.Updates.{
  apply_navigation-TabIsValid, back_to-TabIsValid, forward_to-TabIsValid, deliver-TabIsValid,
  remove_from_tab-TabIsValid, rename_known-TabIsValid, start_session_tab-TabIsValid,
  set_archive_entries_tab-TabIsValid,
}
use file_octopus.Panel.Valid.States.{
  Succeeds, update_panel_keeps, update_panel_tab-IsValid, update_found-IsValid,
  update_all_tabs-IsValid,
}

pub reduce_navigation-Succeeds :
    (s : FileOctopusState) (action : PanelAction)
    → IsValid s
    → Succeeds (reduce_navigation s action)
unfolding reduce_navigation set_active_panel_state navigate_state navigate_tab go_back_state
    go_back_tab go_forward_state go_forward_tab
reduce_navigation-Succeeds s (PanelAction.set_active_panel p) v =
    (record s { active_panel_id = p }, refl, record { left = v.left; right = v.right })
reduce_navigation-Succeeds s (PanelAction.navigate p uri flags) v =
    update_panel_keeps s p (navigate_tab uri flags) v
      (λ tab w. apply_navigation-TabIsValid tab _ _ w)
reduce_navigation-Succeeds s (PanelAction.go_back p) v =
    update_panel_keeps s p go_back_tab v (λ tab w. back_to-TabIsValid tab _ w)
reduce_navigation-Succeeds s (PanelAction.go_forward p) v =
    update_panel_keeps s p go_forward_tab v (λ tab w. forward_to-TabIsValid tab _ w)
reduce_navigation-Succeeds s _ v = (s, refl, v)

update_requested-Succeeds :
    (s : FileOctopusState) (p : PanelId) (request_id : Option JsString)
    (on_request on_active : PanelTabState → PanelTabState)
    → IsValid s
    → ((tab : PanelTabState) → TabIsValid tab → TabIsValid (on_request tab))
    → ((tab : PanelTabState) → TabIsValid tab → TabIsValid (on_active tab))
    → Succeeds (update_requested s p request_id on_request on_active)
unfolding update_requested update_request_tab
update_requested-Succeeds s p none f g v keeps_f keeps_g = update_panel_keeps s p g v keeps_g
update_requested-Succeeds s p (some request_id) f g v keeps_f keeps_g =
    elim (Bool-cases (truthy request_id)) [
      | inl e ↦
          rw e (_, refl, update_found-IsValid s p f (find_tab_by_request s request_id) v keeps_f)
      | inr e ↦ rw e (update_panel_keeps s p g v keeps_g)
    ]

apply_batch_to-IsValid :
    (s : FileOctopusState) (batch : DirectoryBatchEventDto) (found : Option (PanelId × JsString))
    → IsValid s
    → IsValid (apply_batch_to s batch found)
unfolding apply_batch_to
apply_batch_to-IsValid s batch none v = v
apply_batch_to-IsValid s batch (some (p, tab_id)) v =
    update_panel_tab-IsValid s p tab_id (deliver batch) v (deliver-TabIsValid batch)

remove_entries_state-IsValid :
    (s : FileOctopusState) (uris : List JsString)
    → IsValid s
    → IsValid (remove_entries_state s uris)
unfolding remove_entries_state
remove_entries_state-IsValid s [] v = v
remove_entries_state-IsValid s (uri ∷ uris) v =
    update_all_tabs-IsValid (remove_from_tab (uri ∷ uris)) s
      (remove_from_tab-TabIsValid (uri ∷ uris)) v

pub reduce_listing-Succeeds :
    (s : FileOctopusState) (action : PanelAction) → IsValid s → Succeeds (reduce_listing s action)
unfolding reduce_listing start_request_tab apply_batch_state rename_entry_state rename_in_tab
    pane_error_tab request_error_tab update_request_tab
reduce_listing-Succeeds s (PanelAction.start_request p request_id true) v =
    update_panel_keeps s p (start_request_tab request_id true) v
      (λ tab w. record { listing = w.listing; in_background = tt })
reduce_listing-Succeeds s (PanelAction.start_request p request_id false) v =
    update_panel_keeps s p (start_request_tab request_id false) v
      (λ tab w. record { listing = w.listing; in_background = tt })
reduce_listing-Succeeds s (PanelAction.start_session p session_id request_id) v = (
  _,
  refl,
  update_found-IsValid s p (start_session_tab session_id request_id)
      (find_tab_by_request s request_id) v (start_session_tab-TabIsValid session_id request_id),
)
reduce_listing-Succeeds s (PanelAction.apply_batch batch) v =
    (_, refl, apply_batch_to-IsValid s batch (batch_target s batch) v)
reduce_listing-Succeeds s (PanelAction.remove_entries uris) v =
    (_, refl, remove_entries_state-IsValid s uris v)
reduce_listing-Succeeds s (PanelAction.rename_entry old_uri new_uri name) v = (
  _,
  refl,
  update_all_tabs-IsValid (rename_in_tab old_uri new_uri name) s
      (λ tab w. rename_known-TabIsValid old_uri new_uri name tab _ w) v,
)
reduce_listing-Succeeds s (PanelAction.set_pane_error p request_id error error_code load_state) v =
    update_requested-Succeeds s p request_id _ _ v
      (λ tab w. record { listing = w.listing; in_background = w.in_background })
      (λ tab w. record { listing = w.listing; in_background = w.in_background })
reduce_listing-Succeeds s (PanelAction.set_archive_entries p request_id uri entries) v =
    update_requested-Succeeds s p request_id _ _ v
      (λ tab w. set_archive_entries_tab-TabIsValid uri entries tab)
      (λ tab w. set_archive_entries_tab-TabIsValid uri entries tab)
reduce_listing-Succeeds s _ v = (s, refl, v)
