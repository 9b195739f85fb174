-- ===== src/Panel/Navigation.antt =====
-- Navigation: `applyNavigation` and `normalizeLocalInput` of packages/frontend/src/panelStore.ts, and
-- packages/frontend/src/state/slices/navigationSlice.ts.
use file_octopus.Base.{
  ℕ, Bool, true, false, ◌&&◌, ◌||◌, not, Option, none, some, List, [], ◌∷◌, ◌++◌, JsString, js,
  ◌==◌, truthy, has_text, starts_with, trim, map, leb, eqb, get_last?, drop_last, or_else,
  if◌then◌else◌,
}
use file_octopus.Panel.Types.{
  PanelId, TabKind, PaneLoadState, NavigateFlags, PanelTabState, FileOctopusState,
}
use file_octopus.Panel.Update.{update_panel}

-- `/^[A-Za-z]:[\\/]/`
has_drive : JsString → Bool
has_drive (c ∷ d ∷ e ∷ _) =
    ((leb b'A' c && leb c b'Z') || (leb b'a' c && leb c b'z'))
    && (eqb d b':' && (eqb e 92 || eqb e b'/'))
has_drive _ = false

forward_slash : ℕ → ℕ
forward_slash c = if eqb c 92 then b'/' else c

unfoldable pub normalize_local_input : JsString → JsString
unfolding has_drive forward_slash
normalize_local_input input =
    let value = trim input in
    if has_text value (js "://")
    then value
    else if starts_with value (js "/")
    then js "local://" ++ value
    else if has_drive value
    then js "local://" ++ map forward_slash value
    else value

pub record NavigationOptions : Type 0 where
  pub replace : Bool
  pub soft_refresh : Bool
  pub back_stack : Option (List JsString)
  pub forward_stack : Option (List JsString)

abbrev pub is_error : PaneLoadState → Bool
is_error PaneLoadState.error = true
is_error PaneLoadState.idle = false
is_error PaneLoadState.loading = false
is_error PaneLoadState.loaded = false
is_error PaneLoadState.empty = false
is_error PaneLoadState.not_found = false
is_error PaneLoadState.permission_denied = false
is_error PaneLoadState.timeout = false
is_error PaneLoadState.offline = false

-- `backgroundRefresh` is not read by the source.
unfoldable pub apply_navigation : PanelTabState → JsString → NavigationOptions → PanelTabState
apply_navigation tab uri options =
    let changed = not (uri == tab.uri) in
    let pushes = not options.replace && changed in
    if options.soft_refresh && not changed && not (is_error tab.load_state)
    then record tab { session_id = none; active_request_id = none; background_listing = none }
    else record tab {
      tab_kind = TabKind.directory;
      uri = uri;
      preview_entry = none;
      editor_entry = none;
      git_review = none;
      entries_by_id = [];
      ordered_entry_ids = [];
      selected_ids = [];
      selected_id = none;
      focused_id = none;
      anchor_id = none;
      session_id = none;
      active_request_id = none;
      load_state = PaneLoadState.loading;
      error = none;
      error_code = none;
      filter = [];
      content_search_query = if changed then [] else tab.content_search_query;
      content_search = if changed then none else tab.content_search;
      back_stack =
          or_else options.back_stack
            (if pushes then tab.back_stack ++ tab.uri ∷ [] else tab.back_stack);
      forward_stack = or_else options.forward_stack (if pushes then [] else tab.forward_stack);
      background_listing = none;
    }

abbrev pub with_stacks : List JsString → List JsString → NavigationOptions
with_stacks back forward = record {
  replace = true;
  soft_refresh = false;
  back_stack = some back;
  forward_stack = some forward;
}

unfoldable pub navigate_tab : JsString → NavigateFlags → PanelTabState → PanelTabState
navigate_tab uri flags tab = apply_navigation tab (normalize_local_input uri) (record {
  replace = flags.replace;
  soft_refresh = flags.soft_refresh;
  back_stack = none;
  forward_stack = none;
})

unfoldable pub back_to : PanelTabState → Option JsString → PanelTabState
back_to tab none = tab
back_to tab (some uri) =
    if truthy uri
    then apply_navigation tab uri
        (with_stacks (drop_last tab.back_stack) (tab.uri ∷ tab.forward_stack))
    else tab

unfoldable pub go_back_tab : PanelTabState → PanelTabState
unfolding back_to
go_back_tab tab = back_to tab (get_last? tab.back_stack)

unfoldable pub forward_to : PanelTabState → List JsString → PanelTabState
forward_to tab [] = tab
forward_to tab (uri ∷ rest) =
    if truthy uri
    then apply_navigation tab uri (with_stacks (tab.back_stack ++ tab.uri ∷ []) rest)
    else tab

unfoldable pub go_forward_tab : PanelTabState → PanelTabState
unfolding forward_to
go_forward_tab tab = forward_to tab tab.forward_stack

unfoldable pub set_active_panel_state : FileOctopusState → PanelId → FileOctopusState
set_active_panel_state state panel_id = record state { active_panel_id = panel_id }

unfoldable pub navigate_state :
    FileOctopusState → PanelId → JsString → NavigateFlags → Option FileOctopusState
navigate_state state panel_id uri flags =
    update_panel state panel_id (λ tab. some (navigate_tab uri flags tab))

unfoldable pub go_back_state : FileOctopusState → PanelId → Option FileOctopusState
go_back_state state panel_id = update_panel state panel_id (λ tab. some (go_back_tab tab))

unfoldable pub go_forward_state : FileOctopusState → PanelId → Option FileOctopusState
go_forward_state state panel_id = update_panel state panel_id (λ tab. some (go_forward_tab tab))
