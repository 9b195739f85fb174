-- ===== src/Panel/Listing.antt =====
-- Listings: batches, renamed and removed entries, requests, sessions and archives
-- (packages/frontend/src/panelStore.ts, packages/frontend/src/state/slices/listingSlice.ts).
use file_octopus.Base.{
  not, ◌&&◌, Option, none, some, List, [], ◌∷◌, ◌++◌, JsString, js, ◌==◌, truthy, Dict, lookup,
  insert, erase, has, includes, keep, any, map, length, eqb, drop, head?, before_last, or_else,
  or_maybe, is_some, if◌then◌else◌, ◌>>=◌,
}
use file_octopus.Panel.Entry.{IpcError, FileEntryDto, DirectoryBatchEventDto}
use file_octopus.Panel.Types.{
  PanelId, PaneLoadState, BackgroundListing, PanelTabState, FileOctopusState, panel_of,
}
use file_octopus.Panel.LoadState.{terminal_load_state, should_apply_batch}
use file_octopus.Panel.Order.{is_directory}
use file_octopus.Panel.Update.{update_panel_tab, find_tab_by_session, find_tab_by_request}

pub record Listed : Type 0 where
  pub entries_by_id : Dict FileEntryDto
  pub ordered_entry_ids : List JsString

-- One round of the loop over `batch.entries`, and the loop.
unfoldable pub add_entry : Listed → FileEntryDto → Listed
add_entry l entry = record {
  entries_by_id = insert entry.uri entry l.entries_by_id;
  ordered_entry_ids =
      if has l.entries_by_id entry.uri
      then l.ordered_entry_ids
      else l.ordered_entry_ids ++ entry.uri ∷ [];
}

unfoldable pub add_entries : Listed → List FileEntryDto → Listed
add_entries l [] = l
add_entries l (entry ∷ entries) = add_entries (add_entry l entry) entries

abbrev error_message : Option IpcError → Option JsString
error_message none = none
error_message (some e) = some e.message

abbrev error_code_of : Option IpcError → Option JsString
error_code_of none = none
error_code_of (some e) = some e.code

-- The listing in the background, if it is the one of the request.
unfoldable pub background_of : PanelTabState → JsString → Option BackgroundListing
background_of tab request_id = do
  background ← tab.background_listing
  if background.request_id == request_id then some background else none

unfoldable pub fail_listing : DirectoryBatchEventDto → PanelTabState → PanelTabState
fail_listing batch current = record current {
  active_request_id = none;
  load_state = terminal_load_state 0 batch.error;
  error = some (or_else (error_message batch.error) (js "Failed to load directory"));
  error_code = error_code_of batch.error;
  background_listing =
      if is_some (background_of current batch.request_id) then none else current.background_listing;
}

abbrev pub foreground : PanelTabState → Listed
foreground tab = record {
  entries_by_id = tab.entries_by_id;
  ordered_entry_ids = tab.ordered_entry_ids;
}

abbrev pub background : BackgroundListing → Listed
background b = record { entries_by_id = b.entries_by_id; ordered_entry_ids = b.ordered_entry_ids }

-- A batch that is put in the background, while the old listing stays on show.
unfoldable pub extend_background :
    DirectoryBatchEventDto → PanelTabState → BackgroundListing → PanelTabState
extend_background batch current b =
    let listed = add_entries (background b) batch.entries in
    record current {
      background_listing = some (record b {
        entries_by_id = listed.entries_by_id;
        ordered_entry_ids = listed.ordered_entry_ids;
      });
      error = error_message batch.error;
      error_code = error_code_of batch.error;
    }

-- A batch that goes on show, with what it found in `listed`.
unfoldable pub show_listing :
    DirectoryBatchEventDto → PanelTabState → Option BackgroundListing → Listed → PanelTabState
show_listing batch current from_background listed =
    let retained = keep (has listed.entries_by_id) current.selected_ids in
    let first_id =
      or_maybe (head? retained) (or_maybe current.selected_id (head? listed.ordered_entry_ids)) in
    record current {
      entries_by_id = listed.entries_by_id;
      ordered_entry_ids = listed.ordered_entry_ids;
      selected_ids = (elim retained [
        | id ∷ more ↦ id ∷ more
        | [] ↦ (elim first_id [ none ↦ [] | some id ↦ if truthy id then id ∷ [] else [] ])
      ]);
      selected_id = first_id;
      focused_id = first_id;
      active_request_id = if batch.is_complete then none else current.active_request_id;
      load_state =
          if batch.is_complete
          then terminal_load_state (length listed.ordered_entry_ids) batch.error
          else PaneLoadState.loading;
      error = error_message batch.error;
      error_code = error_code_of batch.error;
      background_listing =
          if is_some from_background && batch.is_complete then none else current.background_listing;
    }

unfoldable pub batch_on :
    DirectoryBatchEventDto → PanelTabState → Option BackgroundListing → PanelTabState
batch_on batch current none =
    show_listing batch current none (add_entries (foreground current) batch.entries)
batch_on batch current (some b) =
    if batch.is_complete
    then show_listing batch current (some b) (add_entries (background b) batch.entries)
    else extend_background batch current b

unfoldable pub batch_tab : DirectoryBatchEventDto → PanelTabState → PanelTabState
batch_tab batch current = batch_on batch current (background_of current batch.request_id)

-- The tab that a batch is for: by its session, or else by its request.
unfoldable pub batch_target :
    FileOctopusState → DirectoryBatchEventDto → Option (PanelId × JsString)
batch_target state batch =
    or_maybe (find_tab_by_session state batch.session_id)
      (find_tab_by_request state batch.request_id)

unfoldable pub deliver : DirectoryBatchEventDto → PanelTabState → PanelTabState
deliver batch tab =
    if should_apply_batch tab.active_request_id batch
    then (if is_some batch.error && batch.is_complete
        then fail_listing batch tab
        else batch_tab batch tab)
    else tab

-- The source returns the state as it is where the tab is left alone.
unfoldable pub apply_batch_to :
    FileOctopusState → DirectoryBatchEventDto → Option (PanelId × JsString) → FileOctopusState
apply_batch_to state batch none = state
apply_batch_to state batch (some (panel_id, tab_id)) =
    update_panel_tab state panel_id tab_id (deliver batch)

unfoldable pub apply_batch_state : FileOctopusState → DirectoryBatchEventDto → FileOctopusState
apply_batch_state state batch = apply_batch_to state batch (batch_target state batch)

-- The update of each tab of both panels.
unfoldable pub map_tabs : (PanelTabState → PanelTabState) → Dict PanelTabState → Dict PanelTabState
map_tabs f [] = []
map_tabs f ((id, tab) ∷ tabs) = (id, f tab) ∷ map_tabs f tabs

unfoldable pub update_all_tabs :
    (PanelTabState → PanelTabState) → FileOctopusState → FileOctopusState
update_all_tabs f state = record state {
  panels = record {
    left = record (panel_of state.panels PanelId.left) { tabs = map_tabs f state.panels.left.tabs };
    right = record (panel_of state.panels PanelId.right) {
      tabs = map_tabs f state.panels.right.tabs;
    };
  };
}

unfoldable pub erase_all : List JsString → Dict FileEntryDto → Dict FileEntryDto
erase_all [] d = d
erase_all (uri ∷ uris) d = erase_all uris (erase uri d)

-- `id && uriSet.has(id) ? firstId : id`
moved_off : List JsString → Option JsString → Option JsString → Option JsString
moved_off uris first_id none = none
moved_off uris first_id (some id) = if truthy id && includes uris id then first_id else some id

unfoldable pub remove_from_tab : List JsString → PanelTabState → PanelTabState
unfolding moved_off
remove_from_tab uris tab =
    let ordered_entry_ids = keep (λ id. not (includes uris id)) tab.ordered_entry_ids in
    let selected_ids = keep (λ id. not (includes uris id)) tab.selected_ids in
    let first_id = or_maybe (head? selected_ids) (head? ordered_entry_ids) in
    if any (includes uris) tab.ordered_entry_ids
    then record tab {
      entries_by_id = erase_all uris tab.entries_by_id;
      ordered_entry_ids = ordered_entry_ids;
      selected_ids = selected_ids;
      selected_id = moved_off uris first_id tab.selected_id;
      focused_id = moved_off uris first_id tab.focused_id;
      anchor_id = moved_off uris first_id tab.anchor_id;
    }
    else tab

unfoldable pub remove_entries_state : FileOctopusState → List JsString → FileOctopusState
remove_entries_state state [] = state
remove_entries_state state (uri ∷ uris) = update_all_tabs (remove_from_tab (uri ∷ uris)) state

-- `name.slice(index)` at the last dot, unless it is the first or the last character.
unfoldable pub extension_from_name : JsString → Option JsString
extension_from_name name = elim (before_last b'.' name) [
  | none ↦ none
  | some stem ↦
      let extension = drop (length stem) name in
      if truthy stem && not (eqb (length extension) 1) then some extension else none
]

unfoldable pub replace_id : JsString → JsString → JsString → JsString
replace_id old_uri new_uri id = if id == old_uri then new_uri else id

unfoldable pub replace_maybe : JsString → JsString → Option JsString → Option JsString
replace_maybe old_uri new_uri none = none
replace_maybe old_uri new_uri (some id) = some (replace_id old_uri new_uri id)

unfoldable pub rename_known :
    JsString → JsString → JsString → PanelTabState → Option FileEntryDto → PanelTabState
rename_known old_uri new_uri name tab none = tab
rename_known old_uri new_uri name tab (some entry) =
    let renamed : FileEntryDto = (record entry {
      uri = new_uri;
      name = name;
      extension = if is_directory entry.kind then none else extension_from_name name;
    }) in
    record tab {
      entries_by_id = insert new_uri renamed (erase old_uri tab.entries_by_id);
      ordered_entry_ids = map (replace_id old_uri new_uri) tab.ordered_entry_ids;
      selected_ids = map (replace_id old_uri new_uri) tab.selected_ids;
      selected_id = replace_maybe old_uri new_uri tab.selected_id;
      focused_id = replace_maybe old_uri new_uri tab.focused_id;
      anchor_id = replace_maybe old_uri new_uri tab.anchor_id;
    }

unfoldable pub rename_in_tab : JsString → JsString → JsString → PanelTabState → PanelTabState
rename_in_tab old_uri new_uri name tab =
    rename_known old_uri new_uri name tab (lookup old_uri tab.entries_by_id)

unfoldable pub rename_entry_state :
    FileOctopusState → JsString → JsString → JsString → FileOctopusState
rename_entry_state state old_uri new_uri name =
    update_all_tabs (rename_in_tab old_uri new_uri name) state
