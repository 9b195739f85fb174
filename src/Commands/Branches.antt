-- ===== src/Commands/Branches.antt =====
-- The branches of `dispatchCommand` that decide something
-- (packages/frontend/src/commands/dispatch.ts).
use file_octopus.Base.{
  Bool, true, false, not, Option, none, some, List, [], ◌∷◌, ◌++◌, JsString, js, ◌==◌, truthy,
  head?, or_else, if◌then◌else◌, ◌>>=◌,
}
use file_octopus.Uri.{parent_uri_from_uri}
use file_octopus.Uri.Display.{root_uri_for_uri}
use file_octopus.Panel.Entry.{FileEntryDto}
use file_octopus.Panel.Types.{
  PanelId, left, right, SortDirection, SortField, PanelTabState, PanelAction, panel_of,
}
use file_octopus.Panel.Storage.{bool_text}
use file_octopus.Panel.Update.{active_tab}
use file_octopus.Commands.Effects.{
  Effect, Dialog, Preferences, CommandDispatchDeps, DispatchCommandOptions, Dispatched,
}

abbrev pub done : List Effect → Option Dispatched
done effects = some (record { handled = true; effects = effects })

abbrev pub refused : Option Dispatched
refused = some (record { handled = false; effects = [] })

abbrev pub tab_of : CommandDispatchDeps → PanelId → Option PanelTabState
tab_of d p = active_tab (panel_of d.state.panels p)

abbrev pub selected_entry :
    CommandDispatchDeps → DispatchCommandOptions → PanelId → Option FileEntryDto
selected_entry d o p = or_else o.entry (head? (d.selected_entries p))

abbrev pub when : Bool → Effect → List Effect
when true effect = effect ∷ []
when false effect = []

-- A command that needs a text.
unfoldable pub with_text : Option JsString → (JsString → Effect) → Option Dispatched
with_text none effect = refused
with_text (some text) effect = if truthy text then done (effect text ∷ []) else refused

unfoldable pub toggle_sidebar : Option Preferences → Option Dispatched
toggle_sidebar none = done (Effect.update_preference (js "sidebarVisible") (js "false") ∷ [])
toggle_sidebar (some preferences) = done (
    Effect.update_preference (js "sidebarVisible") (bool_text (not preferences.sidebar_visible))
    ∷ [])

pane_mode_of : Option Preferences → JsString
pane_mode_of none = []
pane_mode_of (some preferences) = preferences.pane_mode

unfoldable pub toggle_dual_pane : Option Preferences → Option Dispatched
unfolding pane_mode_of
toggle_dual_pane preferences = done (
    Effect.request_pane_mode_change
      (if pane_mode_of preferences == js "single" then js "dual" else js "single")
    ∷ [])

-- `next` is whether the activity panel collapses.
unfoldable pub toggle_activity : CommandDispatchDeps → Option Dispatched
toggle_activity d =
    let next = not d.activity_collapsed in
    done (
      (if next then [] else when d.has_mark_activity_pinned_open Effect.mark_activity_pinned_open)
      ++ (Effect.set_activity_collapsed next
          ∷ Effect.update_preference (js "activityPanelVisible") (bool_text (not next))
          ∷ []))

unfoldable pub sort_by : PanelId → Option SortField → Option Dispatched
sort_by p none = refused
sort_by p (some field) = done (Effect.panel_action (PanelAction.set_sort p field) ∷ [])

unfoldable pub same_direction : SortDirection → SortDirection → Bool
same_direction SortDirection.asc SortDirection.asc = true
same_direction SortDirection.asc SortDirection.desc = false
same_direction SortDirection.desc SortDirection.asc = false
same_direction SortDirection.desc SortDirection.desc = true

-- The sort order turns only if the direction is another.
unfoldable pub sort_towards : SortDirection → PanelId → Option PanelTabState → Option Dispatched
unfolding same_direction
sort_towards direction p tab = do
  t ← tab
  done (
      if same_direction t.sort.direction direction
      then []
      else Effect.panel_action (PanelAction.set_sort p t.sort.field) ∷ [])

unfoldable pub choose_theme : Option JsString → Option Dispatched
choose_theme value =
    let theme = or_else value (js "system") in
    done (Effect.set_theme theme ∷ Effect.update_preference (js "theme") theme ∷ [])

theme_of : Option Preferences → JsString
theme_of none = js "system"
theme_of (some preferences) = preferences.theme

next_theme : JsString → JsString
next_theme current =
    if current == js "system"
    then js "light"
    else if current == js "light"
    then js "dark"
    else js "system"

unfoldable pub cycle_theme : Option Preferences → Option Dispatched
unfolding theme_of next_theme
cycle_theme preferences =
    let next = next_theme (theme_of preferences) in
    done (Effect.set_theme next ∷ Effect.update_preference (js "theme") next ∷ [])

unfoldable pub choose_density : Option JsString → Option Dispatched
choose_density value =
    let density = or_else value (js "comfortable") in
    done (Effect.set_density density ∷ Effect.update_preference (js "density") density ∷ [])

abbrev other_panel : PanelId → PanelId
other_panel left = right
other_panel right = left

unfoldable pub switch_pane : PanelId → Option Dispatched
switch_pane p = done (Effect.panel_action (PanelAction.set_active_panel (other_panel p)) ∷ [])

direction_of : Option Preferences → JsString
direction_of none = js "horizontal"
direction_of (some preferences) = preferences.pane_direction

unfoldable pub toggle_pane_direction : Option Preferences → Option Dispatched
unfolding direction_of
toggle_pane_direction preferences = done (
    Effect.update_preference (js "paneDirection")
      (if direction_of preferences == js "horizontal" then js "vertical" else js "horizontal")
    ∷ [])

navigate_to : PanelId → Option JsString → List Effect
navigate_to p none = []
navigate_to p (some uri) = if truthy uri then Effect.navigate_panel p uri ∷ [] else []

unfoldable pub navigate_up : PanelId → Option PanelTabState → Option Dispatched
unfolding navigate_to
navigate_up p tab = do t ← tab; done (navigate_to p (parent_uri_from_uri t.uri))

unfoldable pub navigate_root :
    (JsString → JsString) → PanelId → Option PanelTabState → Option Dispatched
navigate_root to_upper_case p tab = do
  t ← tab
  done (Effect.navigate_panel p (root_uri_for_uri to_upper_case t.uri) ∷ [])

unfoldable pub connect_server : CommandDispatchDeps → Option JsString → List Effect
connect_server d profile =
    Effect.set_connect_server_profile profile
    ∷ (when d.has_set_connect_server_initial Effect.reset_connect_server_initial
        ++ Effect.show_dialog Dialog.connect_server ∷ [])

unfoldable pub connect_profile : CommandDispatchDeps → Option JsString → Option Dispatched
unfolding connect_server
connect_profile d none = refused
connect_profile d (some profile) = done (connect_server d (some profile))

unfoldable pub view_entry : CommandDispatchDeps → PanelId → Option FileEntryDto → Option Dispatched
view_entry d p none = done (Effect.handle_properties p none false ∷ [])
view_entry d p (some entry) = done (
    Effect.clear_operation_error
    ∷ (if d.has_open_preview_in_opposite_pane
        then Effect.open_preview_in_opposite_pane p entry ∷ []
        else Effect.set_viewer_entry entry ∷ Effect.show_dialog Dialog.viewer ∷ []))

preview_or_open : CommandDispatchDeps → PanelId → FileEntryDto → List Effect
preview_or_open d p entry =
    if d.has_open_preview_in_opposite_pane
    then Effect.open_preview_in_opposite_pane p entry ∷ []
    else Effect.open_external entry ∷ []

unfoldable pub edit_entry : CommandDispatchDeps → PanelId → Option FileEntryDto → Option Dispatched
unfolding preview_or_open
edit_entry d p none = done []
edit_entry d p (some entry) = done (
    if d.is_text_editable entry
    then Effect.clear_operation_error
      ∷ (if d.has_open_editor_in_opposite_pane
          then Effect.open_editor_in_opposite_pane p entry ∷ []
          else Effect.set_editor_entry entry ∷ Effect.show_dialog Dialog.editor ∷ [])
    else preview_or_open d p entry)

unfoldable pub open_default :
    CommandDispatchDeps → PanelId → Option FileEntryDto → Option Dispatched
unfolding preview_or_open
open_default d p none = done []
open_default d p (some entry) = done (preview_or_open d p entry)

unfoldable pub star_entry : Option FileEntryDto → Option Dispatched
star_entry none = done []
star_entry (some entry) = done (Effect.toggle_starred entry ∷ [])
