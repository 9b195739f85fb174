-- ===== src/Commands/Runs.antt =====
-- The dispatch at concrete states, and the theorems on it.
use file_octopus.Base.{true, false, none, some, [], ◌∷◌, ◌≡◌, refl, js, ◌==◌, includes, lookup}
use file_octopus.Panel.Examples.{host, world, initial, music}
use file_octopus.Panel.Types.{
  left, desc, PanelTabState, TabKind, FileOctopusState, PaneLoadState, panel_of,
}
use file_octopus.Panel.Tabs.{blank_tab}
use file_octopus.Panel.Storage.{home_uri}
use file_octopus.Panel.Update.{active_tab}
use file_octopus.Panel.Reducer.{create_panel, create_initial_state}
use file_octopus.Panel.Valid.Reducer.{create_initial_state-IsValid, run_actions}
use file_octopus.Commands.Registry.{ids_of, is_command_id}
use file_octopus.Commands.Effects.{CommandDispatchDeps, DispatchCommandOptions, Dispatched, Effect}
use file_octopus.Commands.Labels.{command_of}
use file_octopus.Commands.Branches.{view_entry}
use file_octopus.Commands.Dispatch.{resolve_command_id}
use file_octopus.Commands.Switch.{dispatch_command, run_labelled, run_command}
use file_octopus.Commands.Handled.{IsCarriedOut, needs_context, dispatch_registered}
use file_octopus.Commands.Sorting.{
  actions_of, sort_label, sorted_towards, sort_label-sorted_towards,
}

abbrev deps : CommandDispatchDeps
deps = record {
  host = host;
  to_upper_case = λ s. s;
  world = world;
  state = initial;
  preferences = none;
  activity_collapsed = false;
  selected_entries = λ _. music ∷ [];
  is_text_editable = λ _. false;
  asked_command = none;
  has_mark_activity_pinned_open = true;
  has_set_connect_server_initial = true;
  has_open_preview_in_opposite_pane = true;
  has_open_editor_in_opposite_pane = true;
  has_open_git_review_in_opposite_pane = true;
  has_run_terminal_command = true;
  has_spawn_and_run_terminal_command = false;
}

abbrev options : DispatchCommandOptions
options = record {
  entry = none;
  target_uri = none;
  favorite_id = none;
  sort_field = none;
  preference_value = none;
  network_profile = none;
  terminal_command = none;
  panel_id = none;
}

viewed :
    dispatch_command (js "op.view") deps options
    ≡ some (record {
      handled = true;
      effects = Effect.clear_operation_error ∷ Effect.open_preview_in_opposite_pane left music ∷ [];
    })
unfolding dispatch_command run_labelled run_command command_of resolve_command_id lookup ◌==◌
    create_initial_state view_entry
viewed = refl

dispatch_registered_example :
    IsCarriedOut
      (needs_context (command_of (resolve_command_id (js "nav.up"))))
      (dispatch_command (js "nav.up") deps options)
unfolding is_command_id ids_of includes ◌==◌
dispatch_registered_example =
    dispatch_registered (js "nav.up") deps options refl (create_initial_state-IsValid host world)

abbrev home_tab : PanelTabState
home_tab = record (blank_tab host world none TabKind.directory (home_uri host world)) {
  load_state = PaneLoadState.idle;
}

sort_label-sorted_towards_example :
    (r : Dispatched) × (dispatch_command (sort_label desc) deps options ≡ some r)
    × (r.handled ≡ true)
    × (t : FileOctopusState × _) × (run_actions host world initial (actions_of 9 r.effects)
        ≡ some t)
    × (active_tab (panel_of t.0.panels left) ≡ some (sorted_towards desc home_tab))
unfolding create_initial_state create_panel active_tab lookup ◌==◌
sort_label-sorted_towards_example = sort_label-sorted_towards desc deps options 9 home_tab refl
