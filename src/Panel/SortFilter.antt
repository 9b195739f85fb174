-- ===== src/Panel/SortFilter.antt =====
-- packages/frontend/src/state/slices/sortFilterSlice.ts: filters, sort order, view modes, hidden
-- entries, hashes, and the preferences that are kept in storage.
use file_octopus.Base.{
  Bool, true, false, not, ◌&&◌, Option, none, some, [], JsString, js, is, truthy, lookup, insert,
  if◌then◌else◌, ◌>>=◌,
}
use file_octopus.Panel.Host.{World}
use file_octopus.Panel.Types.{
  PanelId, left, right, PaneLoadState, SortField, SortDirection, asc, desc, SortState, ViewMode,
  HashState, PanelTabState, FileOctopusState, panel_of,
}
use file_octopus.Panel.Storage.{
  persist_value, view_mode_text, view_mode_of, bool_text, sort_json, sort_key, view_mode_key,
  show_hidden_key,
}
use file_octopus.Panel.Update.{active_tab, update_panel}

abbrev pub same_field : SortField → SortField → Bool
same_field SortField.name SortField.name = true
same_field SortField.type SortField.type = true
same_field SortField.size SortField.size = true
same_field SortField.modified SortField.modified = true
same_field SortField.created SortField.created = true
same_field SortField.extension SortField.extension = true
same_field SortField.permissions SortField.permissions = true
same_field SortField.owner SortField.owner = true
same_field _ _ = false

abbrev pub is_asc : SortDirection → Bool
is_asc asc = true
is_asc desc = false

-- A second choice of the same field turns the order round.
unfoldable pub next_sort : SortField → SortState → SortState
next_sort field sort = record sort {
  field = field;
  direction = if same_field sort.field field && is_asc sort.direction then desc else asc;
}

-- The update of the active tab, and the write that it makes on the way.
unfoldable pub set_sort_state :
    World → FileOctopusState → PanelId → SortField → Option (FileOctopusState × World)
set_sort_state w state panel_id field = do
  tab ← active_tab (panel_of state.panels panel_id)
  next ← update_panel state panel_id (λ t. some (record t { sort = next_sort field t.sort }))
  some (next, persist_value (sort_key panel_id) (sort_json (next_sort field tab.sort)) w)

unfoldable pub set_view_mode_state :
    World → FileOctopusState → PanelId → ViewMode → Option (FileOctopusState × World)
set_view_mode_state w state panel_id view_mode = do
  next ← update_panel state panel_id (λ t. some (record t { view_mode = view_mode }))
  some (next, persist_value (view_mode_key panel_id) (view_mode_text view_mode) w)

unfoldable pub toggle_hidden_tab : PanelTabState → PanelTabState
toggle_hidden_tab tab = record tab {
  show_hidden = not tab.show_hidden;
  entries_by_id = [];
  ordered_entry_ids = [];
  selected_ids = [];
  selected_id = none;
  focused_id = none;
  anchor_id = none;
  session_id = none;
  active_request_id = none;
  load_state = PaneLoadState.loading;
  error = none;
  error_code = none;
}

unfoldable pub toggle_hidden_state :
    World → FileOctopusState → PanelId → Option (FileOctopusState × World)
toggle_hidden_state w state panel_id = do
  tab ← active_tab (panel_of state.panels panel_id)
  next ← update_panel state panel_id (λ t. some (toggle_hidden_tab t))
  some (next, persist_value (show_hidden_key panel_id) (bool_text (not tab.show_hidden)) w)

-- `readStorage(key) || fallback`, and `stored !== null ? stored === "true" : fallback`
pane_view_mode : World → PanelId → ViewMode → ViewMode
pane_view_mode w panel_id fallback = elim (lookup (view_mode_key panel_id) w.storage) [
  | none ↦ fallback
  | some stored ↦ if truthy stored then view_mode_of stored else fallback
]

pane_show_hidden : World → PanelId → Bool → Bool
pane_show_hidden w panel_id fallback = elim (lookup (show_hidden_key panel_id) w.storage) [
  | none ↦ fallback
  | some stored ↦ is (some stored) (js "true")
]

unfoldable pub hydrate_tab : World → PanelId → Bool → ViewMode → PanelTabState → PanelTabState
unfolding pane_view_mode pane_show_hidden
hydrate_tab w panel_id show_hidden view_mode tab = record tab {
  show_hidden = pane_show_hidden w panel_id show_hidden;
  view_mode = pane_view_mode w panel_id view_mode;
}

unfoldable pub hydrate_state : World → FileOctopusState → Bool → ViewMode → Option FileOctopusState
hydrate_state w state show_hidden view_mode = do
  one ← update_panel state left (λ t. some (hydrate_tab w left show_hidden view_mode t))
  update_panel one right (λ t. some (hydrate_tab w right show_hidden view_mode t))

unfoldable pub set_hash_tab : JsString → HashState → PanelTabState → PanelTabState
set_hash_tab entry_id hash_state tab = record tab {
  hash_map = insert entry_id hash_state tab.hash_map;
}
