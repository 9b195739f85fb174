-- ===== src/Commands/Keyboard.antt =====
-- The keys of the shell: createKeyboardShortcutsHandler of
-- packages/frontend/src/hooks/useKeyboardShortcuts.ts. What the handler calls is an effect, and each
-- effect comes with preventDefault.
use file_octopus.Base.{
  Bool, ◌&&◌, ◌||◌, not, Option, none, some, List, [], ◌∷◌, JsString, js, ◌==◌, includes, find, is,
  Dict, if◌then◌else◌, ◌>>=◌,
}
use file_octopus.Panel.Entry.{FileEntryDto}
use file_octopus.Panel.Host.{Host}
use file_octopus.Panel.Types.{PanelTabState, FileOctopusState, panel_of}
use file_octopus.Panel.Update.{active_tab}
use file_octopus.Panel.Visible.{select_visible_entries}
use file_octopus.Commands.Keys.{KeyCombo}
use file_octopus.Commands.Bindings.{bound_command}

pub data KeyEffect : Type 0 where
  close_palette close_preview close_viewer close_editor close_dialog : KeyEffect
  close_context_menu close_help open_preview : KeyEffect
  focus_path focus_recursive_search : KeyEffect
  -- An action of `createCommanderActions`, and `runCommand`.
  commander run : JsString → KeyEffect

-- What the handler reads of its parameters and of the page. `is_typing` says that the target is
-- editable or that the terminal has the input.
pub record ShellState : Type 0 where
  pub state : FileOctopusState
  pub palette_open : Bool
  pub preview_open : Bool
  pub viewer_open : Bool
  pub editor_open : Bool
  pub dialog_open : Bool
  pub context_menu_open : Bool
  pub help_open : Bool
  pub is_typing : Bool
  pub is_previewable : FileEntryDto → Bool

-- What Escape closes.
unfoldable pub escape_effect : ShellState → Option KeyEffect
escape_effect s =
    if s.palette_open
    then some KeyEffect.close_palette
    else if s.preview_open
    then some KeyEffect.close_preview
    else if s.viewer_open
    then some KeyEffect.close_viewer
    else if s.editor_open
    then some KeyEffect.close_editor
    else if s.dialog_open
    then some KeyEffect.close_dialog
    else if s.context_menu_open
    then some KeyEffect.close_context_menu
    else if s.help_open
    then some KeyEffect.close_help
    else none

commander_commands : List JsString
commander_commands =
    js "op.view"
    ∷ js "op.edit"
    ∷ js "op.copyTo"
    ∷ js "op.moveTo"
    ∷ js "create.folder"
    ∷ js "op.delete"
    ∷ js "op.openTerminal"
    ∷ []

unfoldable pub effect_of : JsString → KeyEffect
unfolding commander_commands
effect_of id =
    if id == js "nav.goToLocation"
    then KeyEffect.focus_path
    else if id == js "search.recursive"
    then KeyEffect.focus_recursive_search
    else if includes commander_commands id
    then KeyEffect.commander id
    else KeyEffect.run id

unfoldable pub selected_visible : Host → PanelTabState → Option (Option FileEntryDto)
selected_visible h tab = do
  visible ← select_visible_entries h tab
  some (find (λ (entry : FileEntryDto). is tab.selected_id entry.uri) visible)

-- The space key shows or hides the preview.
unfoldable pub space_effect : ShellState → Option FileEntryDto → Option KeyEffect
space_effect s selected = if s.preview_open then some KeyEffect.close_preview else elim selected [
  | none ↦ none
  | some entry ↦ if s.is_previewable entry then some KeyEffect.open_preview else none
]

unfoldable pub bound_effect : Option JsString → Option KeyEffect
unfolding effect_of
bound_effect none = none
bound_effect (some id) = some (effect_of id)

-- What was found ends the handler.
unfoldable pub or_next : Option KeyEffect → Option (Option KeyEffect) → Option (Option KeyEffect)
or_next (some effect) next = some (some effect)
or_next none next = next

unfoldable pub shortcut_effect :
    Host → Dict (List KeyCombo) → ShellState → KeyCombo → Option (Option KeyEffect)
unfolding selected_visible space_effect bound_effect or_next
shortcut_effect h bindings s event = do
  tab ← active_tab (panel_of s.state.panels s.state.active_panel_id)
  selected ← selected_visible h tab
  let is_space = event.key == js " " && not (event.meta || event.ctrl)
  let bound =
      if s.dialog_open then none else bound_effect (bound_command h.to_lower_case event bindings)
  or_next (if is_space then space_effect s selected else none) (some bound)

-- The outer `none` is an exception, the inner one that nothing is called.
unfoldable pub handle_shell_key_down :
    Host → Dict (List KeyCombo) → ShellState → KeyCombo → Option (Option KeyEffect)
unfolding escape_effect shortcut_effect or_next
handle_shell_key_down h bindings s event =
    or_next (if event.key == js "Escape" then escape_effect s else none)
      (if s.is_typing then some none else shortcut_effect h bindings s event)
