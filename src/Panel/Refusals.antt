-- ===== src/Panel/Refusals.antt =====
-- A navigation that the backend refuses, from the initial state.
use file_octopus.Base.{
  none, some, ◌≡◌, refl, js, ◌==◌, includes, lookup, trim, has_text, starts_with, find_text, ◌>>=◌,
}
use file_octopus.Uri.{is_supported_navigation_uri, is_network_uri, uri_scheme}
use file_octopus.Panel.Entry.{IpcError}
use file_octopus.Panel.Host.{World}
use file_octopus.Panel.Types.{
  left, PanelTabState, PaneLoadState, TabKind, FileOctopusState, panel_of,
}
use file_octopus.Panel.Storage.{home_uri}
use file_octopus.Panel.Tabs.{blank_tab}
use file_octopus.Panel.Navigation.{normalize_local_input}
use file_octopus.Panel.Update.{active_tab}
use file_octopus.Panel.Reducer.{create_panel, create_initial_state}
use file_octopus.Panel.Valid.Reducer.{run_actions}
use file_octopus.Panel.Examples.{host, world, initial}
use file_octopus.Panel.Controller.{Backend, failed, no_options, navigate_panel}
use file_octopus.Panel.Failing.{ShowsError, actions_in, failed_navigation}

abbrev refusal : IpcError
refusal = record { code = js "permission_denied"; message = js "no" }

abbrev refusing : Backend
refusing = record {
  list_start = λ _. failed refusal;
  discover_neighborhood = λ _. failed refusal;
  list_archive = λ _. failed refusal;
  to_upper_case = λ s. s;
}

abbrev home_tab : PanelTabState
home_tab = record (blank_tab host world none TabKind.directory (home_uri host world)) {
  load_state = PaneLoadState.idle;
}

failed_navigation_example :
    (t : FileOctopusState × World) × ((do
      steps ← navigate_panel refusing (js "r-1") initial left (js "/root") no_options
      run_actions host world initial (actions_in 9 steps))
      ≡ some t)
    × (shown : PanelTabState) × (active_tab (panel_of t.0.panels left) ≡ some shown)
    × ShowsError refusal shown
unfolding create_initial_state create_panel blank_tab active_tab lookup ◌==◌ trim includes
    normalize_local_input has_text starts_with find_text is_supported_navigation_uri is_network_uri
    uri_scheme
failed_navigation_example =
    failed_navigation refusing host world initial left (js "/root") (js "r-1") no_options 9 refusal
      home_tab refl
      (record { full = refl; trimmed = refl; on_left = (refl, tt); on_right = (refl, tt) }) refl
      refl (λ _. refl)
