-- ===== src/Commands/Pressed.antt =====
-- The default bindings and a custom shortcut, and an event of the keyboard.
use file_octopus.Base.{
  ◌+◌, true, false, ◌&&◌, none, some, [], ◌∷◌, ◌≡◌, refl, JsString, js, ◌==◌, any, leb, split,
  includes, trim, lookup, insert, starts_with, if◌then◌else◌,
}
use file_octopus.Panel.Host.{Host}
use file_octopus.Panel.Types.{PanelTabState, PaneLoadState, TabKind}
use file_octopus.Panel.Storage.{home_uri}
use file_octopus.Panel.Tabs.{blank_tab}
use file_octopus.Panel.Update.{active_tab}
use file_octopus.Panel.Visible.{entries_of, select_visible_entries}
use file_octopus.Panel.Order.{sort_entries}
use file_octopus.Panel.Reducer.{create_panel, create_initial_state}
use file_octopus.Panel.Examples.{host, world, initial}
use file_octopus.Commands.Keyboard.{ShellState, effect_of, selected_visible, handle_shell_key_down}
use file_octopus.Commands.Answering.{handle_shell_key_down-merge_bindings}
use file_octopus.Commands.Keys.{KeyCombo, parse_key_combo, matches_key_combo}
use file_octopus.Commands.Bindings.{
  KeyBindings, build_default_bindings, parse_custom_shortcuts, merge_bindings,
}
use file_octopus.Commands.Shortcuts.{combos_of}

abbrev lower : JsString → JsString
lower [] = []
lower (c ∷ s) = (if leb 65 c && leb c 90 then c + 32 else c) ∷ lower s

abbrev control_f : KeyCombo
control_f = record { key = js "f"; ctrl = true; alt = false; shift = false; meta = false }

abbrev defaults : KeyBindings
defaults = build_default_bindings lower

abbrev custom : KeyBindings
custom = parse_custom_shortcuts lower ((js "op.copy", js "Ctrl+Y" ∷ []) ∷ [])

abbrev ascii_host : Host
ascii_host = record host { to_lower_case = lower }

abbrev home_tab : PanelTabState
home_tab = record (blank_tab host world none TabKind.directory (home_uri host world)) {
  load_state = PaneLoadState.idle;
}

abbrev quiet : ShellState
quiet = record {
  state = initial;
  palette_open = false;
  preview_open = false;
  viewer_open = false;
  editor_open = false;
  dialog_open = false;
  context_menu_open = false;
  help_open = false;
  is_typing = false;
  is_previewable = λ _. true;
}

handle_shell_key_down-merge_bindings_example :
    (other : JsString) × (handle_shell_key_down ascii_host
        (merge_bindings defaults custom)
        quiet
        control_f
      ≡ some (some (effect_of other)))
    × (any (matches_key_combo lower control_f) (combos_of other defaults custom) ≡ true)
unfolding combos_of parse_custom_shortcuts parse_key_combo split includes ◌==◌ trim lookup
    build_default_bindings insert starts_with matches_key_combo create_initial_state create_panel
    blank_tab active_tab selected_visible select_visible_entries entries_of sort_entries
handle_shell_key_down-merge_bindings_example =
    handle_shell_key_down-merge_bindings ascii_host quiet control_f defaults custom
      (js "search.focusFilter") home_tab none refl refl refl refl refl refl refl
