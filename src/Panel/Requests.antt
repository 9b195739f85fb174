-- ===== src/Panel/Requests.antt =====
-- packages/frontend/src/state/slices/listingSlice.ts without its calls of Listing.antt: requests,
-- sessions, errors and archive entries.
use file_octopus.Base.{
  Bool, not, Option, none, some, List, [], ◌∷◌, ◌++◌, JsString, ◌==◌, truthy, Dict, insert, head?,
  or_else, if◌then◌else◌,
}
use file_octopus.Panel.Entry.{FileEntryDto}
use file_octopus.Panel.Types.{
  PanelId, PaneLoadState, BackgroundListing, PanelTabState, FileOctopusState,
}
use file_octopus.Panel.Update.{update_panel, update_request_tab}

unfoldable pub start_request_tab : JsString → Bool → PanelTabState → PanelTabState
start_request_tab request_id background_refresh tab = record tab {
  session_id = none;
  active_request_id = some request_id;
  load_state = if background_refresh then tab.load_state else PaneLoadState.loading;
  error = none;
  error_code = none;
  background_listing =
      if background_refresh
      then some (record {
        request_id = request_id;
        session_id = none;
        entries_by_id = [];
        ordered_entry_ids = [];
      })
      else none;
}

abbrev is_loading : PaneLoadState → Bool
is_loading PaneLoadState.loading = Bool.true
is_loading PaneLoadState.idle = Bool.false
is_loading PaneLoadState.loaded = Bool.false
is_loading PaneLoadState.empty = Bool.false
is_loading PaneLoadState.error = Bool.false
is_loading PaneLoadState.not_found = Bool.false
is_loading PaneLoadState.permission_denied = Bool.false
is_loading PaneLoadState.timeout = Bool.false
is_loading PaneLoadState.offline = Bool.false

unfoldable pub bind_background :
    JsString → JsString → Option BackgroundListing → Option BackgroundListing
bind_background session_id request_id none = none
bind_background session_id request_id (some b) =
    some (if b.request_id == request_id then record b { session_id = some session_id } else b)

unfoldable pub start_session_tab : JsString → JsString → PanelTabState → PanelTabState
start_session_tab session_id request_id tab = record tab {
  session_id = some session_id;
  active_request_id = some request_id;
  background_listing = bind_background session_id request_id tab.background_listing;
  load_state = if not (is_loading tab.load_state) then tab.load_state else PaneLoadState.loading;
  error = if not (is_loading tab.load_state) then tab.error else none;
  error_code = if not (is_loading tab.load_state) then tab.error_code else none;
}

-- `loadState ?? (error ? "error" : current)`
error_load_state : Option PaneLoadState → Option JsString → PaneLoadState → PaneLoadState
error_load_state load_state none current = or_else load_state current
error_load_state load_state (some message) current =
    or_else load_state (if truthy message then PaneLoadState.error else current)

unfoldable pub pane_error_tab :
    Option JsString → Option JsString → Option PaneLoadState → PanelTabState → PanelTabState
unfolding error_load_state
pane_error_tab error error_code load_state tab = record tab {
  error = error;
  error_code = error_code;
  load_state = error_load_state load_state error tab.load_state;
}

unfoldable pub request_error_tab :
    Option JsString → Option JsString → Option PaneLoadState → PanelTabState → PanelTabState
unfolding error_load_state
request_error_tab error error_code load_state tab = record tab {
  active_request_id = none;
  session_id = none;
  error = error;
  error_code = error_code;
  load_state = error_load_state load_state error tab.load_state;
}

-- The update is for the tab of the request, if one is named, or else for the active tab.
unfoldable pub update_requested :
    FileOctopusState
    → PanelId
    → Option JsString
    → (PanelTabState → PanelTabState)
    → (PanelTabState → PanelTabState)
    → Option FileOctopusState
update_requested state panel_id none on_request on_active =
    update_panel state panel_id (λ tab. some (on_active tab))
update_requested state panel_id (some request_id) on_request on_active =
    if truthy request_id
    then some (update_request_tab state panel_id request_id on_request)
    else update_panel state panel_id (λ tab. some (on_active tab))

-- The loop of `setArchiveEntriesReducer`.
unfoldable pub index_entries : Dict FileEntryDto → List FileEntryDto → Dict FileEntryDto
index_entries d [] = d
index_entries d (entry ∷ entries) = index_entries (insert entry.uri entry d) entries

unfoldable pub archive_ids : List FileEntryDto → List JsString
archive_ids [] = []
archive_ids (entry ∷ entries) = entry.uri ∷ archive_ids entries

unfoldable pub set_archive_entries_tab :
    JsString → List FileEntryDto → PanelTabState → PanelTabState
set_archive_entries_tab uri entries current =
    let changed = not (uri == current.uri) in
    let first_id = head? (archive_ids entries) in
    record current {
      uri = uri;
      entries_by_id = index_entries [] entries;
      ordered_entry_ids = archive_ids entries;
      selected_ids = (elim first_id [ none ↦ [] | some id ↦ if truthy id then id ∷ [] else [] ]);
      selected_id = first_id;
      focused_id = none;
      anchor_id = none;
      session_id = none;
      active_request_id = none;
      load_state = PaneLoadState.loaded;
      error = none;
      error_code = none;
      filter = [];
      back_stack = if changed then current.back_stack ++ current.uri ∷ [] else current.back_stack;
      forward_stack = if changed then [] else current.forward_stack;
      background_listing = none;
    }
