-- ===== src/Panel/Tabs.antt =====
-- packages/frontend/src/state/slices/tabsSlice.ts: opening, closing and switching tabs.
use file_octopus.Base.{
  ℕ, suc, ◌+◌, Bool, true, false, ◌&&◌, ◌||◌, Option, none, some, List, [], JsString, ◌==◌, lookup,
  erase, keys, has, find, index_of, get_elem?, length, leb, if◌then◌else◌, ◌>>=◌,
}
use file_octopus.Panel.Entry.{FileEntryDto}
use file_octopus.Panel.Host.{Host, World}
use file_octopus.Panel.Types.{
  PanelId, TabKind, PaneLoadState, ViewMode, PanelTabState, PanelState, FileOctopusState, panel_of,
  set_panel,
}
use file_octopus.Panel.Storage.{stored_sort, stored_show_hidden, generate_tab_id}
use file_octopus.Panel.Update.{active_tab, put_tab}

abbrev is_listed : PaneLoadState → Bool
is_listed PaneLoadState.loaded = true
is_listed PaneLoadState.empty = true
is_listed PaneLoadState.idle = false
is_listed PaneLoadState.loading = false
is_listed PaneLoadState.error = false
is_listed PaneLoadState.not_found = false
is_listed PaneLoadState.permission_denied = false
is_listed PaneLoadState.timeout = false
is_listed PaneLoadState.offline = false

unfoldable pub can_clone_listing : PanelTabState → JsString → Bool
can_clone_listing source uri = source.uri == uri && is_listed source.load_state

-- A tab that shows nothing, with the look of `source` or else the stored one.
unfoldable pub blank_tab : Host → World → Option PanelTabState → TabKind → JsString → PanelTabState
blank_tab h w source kind uri = record {
  tab_kind = kind;
  uri = uri;
  preview_entry = none;
  editor_entry = none;
  git_review = none;
  entries_by_id = [];
  ordered_entry_ids = [];
  selected_ids = [];
  selected_id = none;
  focused_id = none;
  anchor_id = none;
  session_id = none;
  active_request_id = none;
  load_state = PaneLoadState.loaded;
  error = none;
  error_code = none;
  filter = [];
  recursive_query = [];
  content_search_query = [];
  content_search = none;
  sort = (elim source [ none ↦ stored_sort h w | some tab ↦ tab.sort ]);
  view_mode = (elim source [ none ↦ ViewMode.details | some tab ↦ tab.view_mode ]);
  show_hidden = (elim source [ none ↦ stored_show_hidden w | some tab ↦ tab.show_hidden ]);
  back_stack = [];
  forward_stack = [];
  hash_map = [];
  background_listing = none;
}

unfoldable pub create_fresh_tab : Host → World → JsString → Option PanelTabState → PanelTabState
create_fresh_tab h w uri none = record (blank_tab h w none TabKind.directory uri) {
  load_state = PaneLoadState.loading;
}
create_fresh_tab h w uri (some source) =
    let clone_listing = can_clone_listing source uri in
    record (blank_tab h w (some source) TabKind.directory uri) {
      entries_by_id = if clone_listing then source.entries_by_id else [];
      ordered_entry_ids = if clone_listing then source.ordered_entry_ids else [];
      load_state = if clone_listing then source.load_state else PaneLoadState.loading;
      hash_map = if clone_listing then source.hash_map else [];
    }

abbrev pub is_preview : TabKind → Bool
is_preview TabKind.preview = true
is_preview TabKind.directory = false
is_preview TabKind.editor = false
is_preview TabKind.git_review = false

abbrev pub is_editor : TabKind → Bool
is_editor TabKind.editor = true
is_editor TabKind.directory = false
is_editor TabKind.preview = false
is_editor TabKind.git_review = false

abbrev pub is_git_review : TabKind → Bool
is_git_review TabKind.git_review = true
is_git_review TabKind.directory = false
is_git_review TabKind.preview = false
is_git_review TabKind.editor = false

unfoldable pub create_content_tab :
    Host → World → TabKind → FileEntryDto → Option PanelTabState → PanelTabState
create_content_tab h w kind entry source = record (blank_tab h w source kind entry.uri) {
  preview_entry = if is_preview kind then some entry else none;
  editor_entry = if is_editor kind then some entry else none;
}

unfoldable pub create_git_review_tab :
    Host → World → JsString → JsString → JsString → Option PanelTabState → PanelTabState
create_git_review_tab h w repo_root_uri source_uri repo_label source =
    record (blank_tab h w source TabKind.git_review repo_root_uri) {
      git_review = some (record {
        repo_root_uri = repo_root_uri;
        source_uri = source_uri;
        repo_label = repo_label;
        refresh_token = 0;
      });
    }

-- The tab is put under the identifier, and the identifier is the active one.
unfoldable pub add_tab : FileOctopusState → PanelId → JsString → PanelTabState → FileOctopusState
add_tab state panel_id tab_id tab =
    let added = put_tab state panel_id tab_id tab in
    record added {
      panels =
          set_panel added.panels panel_id
            (record (panel_of added.panels panel_id) { active_tab_id = tab_id });
    }

-- The new tab's look is that of the active tab.
unfoldable pub open_with :
    World
    → FileOctopusState
    → PanelId
    → (Option PanelTabState → PanelTabState)
    → FileOctopusState × World
open_with w state panel_id create =
    let (tab_id, w') = generate_tab_id w in
    (add_tab state panel_id tab_id (create (active_tab (panel_of state.panels panel_id))), w')

unfoldable pub reviews : JsString → PanelTabState → Bool
reviews repo_root_uri tab =
    is_git_review tab.tab_kind
    && (elim tab.git_review [ none ↦ false | some review ↦ review.repo_root_uri == repo_root_uri ])

refresh_token_of : PanelTabState → ℕ
refresh_token_of tab = elim tab.git_review [ none ↦ 0 | some review ↦ review.refresh_token ]

unfoldable pub refresh_review : JsString → JsString → JsString → PanelTabState → PanelTabState
unfolding refresh_token_of
refresh_review repo_root_uri source_uri repo_label tab = record tab {
  uri = repo_root_uri;
  git_review = some (record {
    repo_root_uri = repo_root_uri;
    source_uri = source_uri;
    repo_label = repo_label;
    refresh_token = refresh_token_of tab + 1;
  });
}

-- The first tab of the panel that reviews the repository.
unfoldable pub find_review : PanelState → JsString → Option (JsString × PanelTabState)
find_review panel repo_root_uri =
    find (λ (t : JsString × PanelTabState). reviews repo_root_uri t.1) panel.tabs

-- The tab that is found is refreshed and shown; without one a tab is opened.
unfoldable pub show_review :
    Host
    → World
    → FileOctopusState
    → PanelId
    → JsString
    → JsString
    → JsString
    → Option (JsString × PanelTabState)
    → FileOctopusState × World
show_review h w state panel_id repo_root_uri source_uri repo_label (some (tab_id, tab)) =
    (add_tab state panel_id tab_id (refresh_review repo_root_uri source_uri repo_label tab), w)
show_review h w state panel_id repo_root_uri source_uri repo_label none =
    open_with w state panel_id (create_git_review_tab h w repo_root_uri source_uri repo_label)

unfoldable pub open_git_review_state :
    Host
    → World
    → FileOctopusState
    → PanelId
    → JsString
    → JsString
    → JsString
    → FileOctopusState × World
open_git_review_state h w state panel_id repo_root_uri source_uri repo_label =
    show_review h w state panel_id repo_root_uri source_uri repo_label
      (find_review (panel_of state.panels panel_id) repo_root_uri)

unfoldable pub replace_entry_tab : FileEntryDto → PanelTabState → PanelTabState
replace_entry_tab entry tab = record tab {
  uri = entry.uri;
  preview_entry = if is_preview tab.tab_kind then some entry else none;
  editor_entry = if is_editor tab.tab_kind then some entry else none;
}

unfoldable pub replace_existing :
    FileOctopusState → PanelId → JsString → FileEntryDto → Option PanelTabState → FileOctopusState
replace_existing state panel_id tab_id entry none = state
replace_existing state panel_id tab_id entry (some tab) =
    if is_preview tab.tab_kind || is_editor tab.tab_kind
    then put_tab state panel_id tab_id (replace_entry_tab entry tab)
    else state

unfoldable pub replace_content_state :
    FileOctopusState → PanelId → JsString → FileEntryDto → FileOctopusState
replace_content_state state panel_id tab_id entry =
    replace_existing state panel_id tab_id entry
      (lookup tab_id (panel_of state.panels panel_id).tabs)

unfoldable pub switch_tab_panel : JsString → PanelState → PanelState
switch_tab_panel tab_id panel =
    if has panel.tabs tab_id then record panel { active_tab_id = tab_id } else panel

-- `idx > 0 ? tabIds[idx - 1] : tabIds[idx + 1]`
unfoldable pub neighbour : List JsString → ℕ → Option JsString
neighbour tab_ids ℕ.zero = get_elem? tab_ids 1
neighbour tab_ids (suc i) = get_elem? tab_ids i

-- An index out of range would make the active tab undefined: the model throws.
unfoldable pub close_tab_panel : JsString → PanelState → Option PanelState
close_tab_panel tab_id panel =
    let tab_ids = keys panel.tabs in
    if leb (length tab_ids) 1
    then some panel
    else if has panel.tabs tab_id
    then (if panel.active_tab_id == tab_id
        then (do
          index ← index_of tab_ids tab_id
          next ← neighbour tab_ids index
          some (record panel { active_tab_id = next; tabs = erase tab_id panel.tabs }))
        else some (record panel { tabs = erase tab_id panel.tabs }))
    else some panel
