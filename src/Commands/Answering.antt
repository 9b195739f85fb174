-- ===== src/Commands/Answering.antt =====
-- What the shell does with a shortcut.
use file_octopus.Base.{true, false, Option, some, ◌≡◌, refl, JsString, js, ◌==◌, any}
use file_octopus.Panel.Entry.{FileEntryDto}
use file_octopus.Panel.Host.{Host}
use file_octopus.Panel.Types.{PanelTabState, panel_of}
use file_octopus.Panel.Update.{active_tab}
use file_octopus.Commands.Keys.{KeyCombo, matches_key_combo}
use file_octopus.Commands.Bindings.{KeyBindings, merge_bindings}
use file_octopus.Commands.Keyboard.{
  ShellState, effect_of, selected_visible, or_next, bound_effect, shortcut_effect,
  handle_shell_key_down,
}
use file_octopus.Commands.Shortcuts.{combos_of, bound_command-merge_bindings}

-- Where an active tab and its visible entries are found, no dialog is open and nothing is typed into,
-- an event of a key other than Escape and the space key that is a combination of some command has the
-- effect of a command, and it is a combination of that one. The combinations of a command are the
-- custom ones if there are any, and else those of its last default binding.
pub handle_shell_key_down-merge_bindings :
    (h : Host) (s : ShellState) (event : KeyCombo) (defaults custom : KeyBindings) (id : JsString)
    (tab : PanelTabState) (selected : Option FileEntryDto)
    → active_tab (panel_of s.state.panels s.state.active_panel_id) ≡ some tab
    → selected_visible h tab ≡ some selected
    → s.is_typing ≡ false
    → s.dialog_open ≡ false
    → (event.key == js "Escape") ≡ false
    → (event.key == js " ") ≡ false
    → any (matches_key_combo h.to_lower_case event) (combos_of id defaults custom) ≡ true
    → (other : JsString) × (handle_shell_key_down h (merge_bindings defaults custom) s event
        ≡ some (some (effect_of other)))
      × (any (matches_key_combo h.to_lower_case event) (combos_of other defaults custom) ≡ true)
unfolding handle_shell_key_down shortcut_effect or_next bound_effect
handle_shell_key_down-merge_bindings h s event defaults custom id tab selected t v typing dialog
      escape space pressed =
    let found = bound_command-merge_bindings h.to_lower_case event defaults custom id pressed in
    (found.0, rw (escape, typing, t, v, space, dialog, found.1) refl, found.2)
