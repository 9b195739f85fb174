-- ===== src/Panel/Search.antt =====
-- packages/frontend/src/state/slices/contentSearchSlice.ts: searches in the contents of files. Events
-- of a job that no search is bound to yet are kept, and applied when the job is bound.
mod Events
unfoldable pub use Events.*
use file_octopus.Base.{
  Bool, ◌&&◌, Option, none, some, List, [], ◌∷◌, JsString, ◌==◌, is, lookup, any, if◌then◌else◌,
  ◌>>=◌,
}
use file_octopus.Panel.Entry.{
  ContentSearchResultDto, ContentSearchMatchEventDto, ContentSearchCompletedEventDto,
}
use file_octopus.Panel.Types.{
  PanelId, PanelTabState, FileOctopusState, ContentSearchOptions, ContentSearchStatus,
  ContentSearchState, TerminalStatus, PendingContentSearchEvents, panel_of,
}
use file_octopus.Panel.Update.{update_panel_tab, find_tab}
use file_octopus.Panel.Search.Events.{
  absorb_job, append_match, buffer_completion, buffer_match, buffer_terminal, clear_buffered_job,
  empty_result, is_content_search_active, is_running, is_same_match, is_starting, result_of,
  status_of,
}

job_of : PanelTabState → Option JsString
job_of tab = do search ← tab.content_search; search.job_id

unfoldable pub find_search_by_job_id : FileOctopusState → JsString → Option (PanelId × JsString)
unfolding job_of
find_search_by_job_id state job_id = find_tab (λ tab. is (job_of tab) job_id) state

-- `state.panels[panelId].tabs[tabId]?.contentSearch`
unfoldable pub search_at : FileOctopusState → PanelId → JsString → Option ContentSearchState
search_at state panel_id tab_id = do
  tab ← lookup tab_id (panel_of state.panels panel_id).tabs
  tab.content_search

unfoldable pub put_search :
    FileOctopusState → PanelId → JsString → ContentSearchState → FileOctopusState
put_search state panel_id tab_id search =
    update_panel_tab state panel_id tab_id (λ tab. record tab { content_search = some search })

unfoldable pub start_search_tab :
    JsString → JsString → JsString → ContentSearchOptions → PanelTabState → PanelTabState
start_search_tab request_id root_uri query options tab = record tab {
  content_search_query = query;
  content_search = some (record {
    request_id = request_id;
    root_uri = root_uri;
    query = query;
    options = options;
    status = ContentSearchStatus.starting;
    job_id = none;
    result = some empty_result;
    error = none;
  });
}

-- The search waits for the job of the request.
unfoldable pub awaits : JsString → ContentSearchState → Bool
awaits request_id search = search.request_id == request_id && is_starting search.status

unfoldable pub fail_waiting :
    JsString → JsString → PanelTabState → Option ContentSearchState → PanelTabState
fail_waiting request_id error tab none = tab
fail_waiting request_id error tab (some search) =
    if awaits request_id search
    then record tab {
      content_search =
          some (record search { status = ContentSearchStatus.failed; error = some error });
    }
    else tab

unfoldable pub fail_start_tab : JsString → JsString → PanelTabState → PanelTabState
fail_start_tab request_id error tab = fail_waiting request_id error tab tab.content_search

unfoldable pub complete : ContentSearchState → ContentSearchResultDto → ContentSearchState
complete search result = record search {
  status = ContentSearchStatus.completed;
  result = some result;
  error = none;
}

unfoldable pub terminate : ContentSearchState → TerminalStatus → JsString → ContentSearchState
terminate search status error = record search { status = status_of status; error = some error }

unfoldable pub is_about : ContentSearchState → JsString → JsString → Bool
is_about search uri query = uri == search.root_uri && query == search.query

-- The loop over the matches that were kept.
unfoldable pub replay_matches :
    ContentSearchState → List ContentSearchMatchEventDto → ContentSearchState
replay_matches search [] = search
replay_matches search (event ∷ events) =
    replay_matches
      (if is_about search event.uri event.query then append_match search event.item else search)
      events

replay_terminal : ContentSearchState → Option (TerminalStatus × JsString) → ContentSearchState
replay_terminal search none = search
replay_terminal search (some (status, error)) = terminate search status error

replay_end :
    ContentSearchState
    → Option ContentSearchCompletedEventDto
    → Option (TerminalStatus × JsString)
    → ContentSearchState
replay_end search none terminal = replay_terminal search terminal
replay_end search (some event) terminal =
    if is_about search event.uri event.query
    then complete search event.result
    else replay_terminal search terminal

unfoldable pub replay : ContentSearchState → Option PendingContentSearchEvents → ContentSearchState
unfolding replay_end replay_terminal
replay search none = search
replay search (some buffered) =
    replay_end (replay_matches search buffered.matches) buffered.completion buffered.terminal

unfoldable pub bind_search : FileOctopusState → JsString → ContentSearchState → ContentSearchState
bind_search state job_id search =
    replay (record search { status = ContentSearchStatus.running; job_id = some job_id })
      (lookup job_id state.pending_content_search_events)

unfoldable pub bind_waiting :
    FileOctopusState
    → PanelId
    → JsString
    → JsString
    → JsString
    → Option ContentSearchState
    → FileOctopusState
bind_waiting state panel_id tab_id request_id job_id none = state
bind_waiting state panel_id tab_id request_id job_id (some search) =
    let next_search = bind_search state job_id search in
    let next = put_search state panel_id tab_id next_search in
    if awaits request_id search
    then clear_buffered_job (if is_running next_search.status then next else absorb_job next job_id)
        job_id
    else state

unfoldable pub bind_job_state :
    FileOctopusState → PanelId → JsString → JsString → JsString → FileOctopusState
bind_job_state state panel_id tab_id request_id job_id =
    bind_waiting state panel_id tab_id request_id job_id (search_at state panel_id tab_id)

-- A running search of the event's root and query.
unfoldable pub accepts : ContentSearchState → JsString → JsString → Bool
accepts search uri query =
    is_running search.status && search.root_uri == uri && search.query == query

-- `next === search ? state : …`: a match that is known changes nothing.
unfoldable pub match_at :
    FileOctopusState
    → ContentSearchMatchEventDto
    → PanelId
    → JsString
    → Option ContentSearchState
    → FileOctopusState
match_at state event panel_id tab_id none = state
match_at state event panel_id tab_id (some search) =
    if accepts search event.uri event.query
    then (if any (λ m. is_same_match m event.item) (result_of search).matches
        then state
        else put_search state panel_id tab_id (append_match search event.item))
    else state

unfoldable pub match_found :
    FileOctopusState → ContentSearchMatchEventDto → Option (PanelId × JsString) → FileOctopusState
match_found state event none = buffer_match state event
match_found state event (some (panel_id, tab_id)) =
    match_at state event panel_id tab_id (search_at state panel_id tab_id)

unfoldable pub apply_match_state : FileOctopusState → ContentSearchMatchEventDto → FileOctopusState
apply_match_state state event = match_found state event (find_search_by_job_id state event.job_id)

unfoldable pub complete_at :
    FileOctopusState
    → ContentSearchCompletedEventDto
    → PanelId
    → JsString
    → Option ContentSearchState
    → FileOctopusState
complete_at state event panel_id tab_id none = state
complete_at state event panel_id tab_id (some search) =
    if accepts search event.uri event.query
    then absorb_job (put_search state panel_id tab_id (complete search event.result)) event.job_id
    else state

unfoldable pub complete_found :
    FileOctopusState
    → ContentSearchCompletedEventDto
    → Option (PanelId × JsString)
    → FileOctopusState
complete_found state event none = buffer_completion state event
complete_found state event (some (panel_id, tab_id)) =
    complete_at state event panel_id tab_id (search_at state panel_id tab_id)

unfoldable pub apply_completed_state :
    FileOctopusState → ContentSearchCompletedEventDto → FileOctopusState
apply_completed_state state event =
    complete_found state event (find_search_by_job_id state event.job_id)

unfoldable pub terminate_at :
    FileOctopusState
    → JsString
    → TerminalStatus
    → JsString
    → PanelId
    → JsString
    → Option ContentSearchState
    → FileOctopusState
terminate_at state job_id status error panel_id tab_id none = state
terminate_at state job_id status error panel_id tab_id (some search) =
    if is_content_search_active search
    then absorb_job (put_search state panel_id tab_id (terminate search status error)) job_id
    else state

unfoldable pub terminate_found :
    FileOctopusState
    → JsString
    → TerminalStatus
    → JsString
    → Option (PanelId × JsString)
    → FileOctopusState
terminate_found state job_id status error none = buffer_terminal state job_id status error
terminate_found state job_id status error (some (panel_id, tab_id)) =
    terminate_at state job_id status error panel_id tab_id (search_at state panel_id tab_id)

unfoldable pub terminate_job_state :
    FileOctopusState → JsString → TerminalStatus → JsString → FileOctopusState
terminate_job_state state job_id status error =
    terminate_found state job_id status error (find_search_by_job_id state job_id)
