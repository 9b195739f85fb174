-- ===== src/Panel/Search/Events.antt =====
-- Events of content searches that are kept until a search knows its job, and the matches of a search
-- (packages/frontend/src/state/slices/contentSearchSlice.ts).
use file_octopus.Base.{
  Bool, true, false, ◌&&◌, ◌||◌, eqb, none, some, [], ◌∷◌, ◌++◌, JsString, ◌==◌, lookup, insert,
  erase, has, includes, any, take_last, or_else, if◌then◌else◌,
}
use file_octopus.Panel.Entry.{
  ContentSearchMatchDto, ContentSearchResultDto, ContentSearchMatchEventDto,
  ContentSearchCompletedEventDto,
}
use file_octopus.Panel.Types.{
  FileOctopusState, ContentSearchStatus, ContentSearchState, TerminalStatus,
  PendingContentSearchEvents,
}

abbrev pub is_starting : ContentSearchStatus → Bool
is_starting ContentSearchStatus.starting = true
is_starting ContentSearchStatus.running = false
is_starting ContentSearchStatus.completed = false
is_starting ContentSearchStatus.failed = false
is_starting ContentSearchStatus.cancelled = false

abbrev pub is_running : ContentSearchStatus → Bool
is_running ContentSearchStatus.running = true
is_running ContentSearchStatus.starting = false
is_running ContentSearchStatus.completed = false
is_running ContentSearchStatus.failed = false
is_running ContentSearchStatus.cancelled = false

unfoldable pub is_content_search_active : ContentSearchState → Bool
is_content_search_active search = is_starting search.status || is_running search.status

abbrev pub status_of : TerminalStatus → ContentSearchStatus
status_of TerminalStatus.failed = ContentSearchStatus.failed
status_of TerminalStatus.cancelled = ContentSearchStatus.cancelled

unfoldable pub is_same_match : ContentSearchMatchDto → ContentSearchMatchDto → Bool
is_same_match l r =
    l.uri == r.uri
    && eqb l.line_number r.line_number
    && eqb l.match_start r.match_start
    && eqb l.match_end r.match_end

abbrev pub empty_result : ContentSearchResultDto
empty_result = record { matches = []; warnings = []; incomplete = false }

-- `search.result?.matches ?? []`, and so for the other fields
abbrev pub result_of : ContentSearchState → ContentSearchResultDto
result_of search = or_else search.result empty_result

unfoldable pub append_match : ContentSearchState → ContentSearchMatchDto → ContentSearchState
append_match search item =
    let result = result_of search in
    if any (λ m. is_same_match m item) result.matches then search else record search {
      result = some (record {
        matches = result.matches ++ item ∷ [];
        warnings = result.warnings;
        incomplete = result.incomplete;
      });
    }

abbrev pub no_events : PendingContentSearchEvents
no_events = record { matches = []; completion = none; terminal = none }

unfoldable pub pending_events : FileOctopusState → JsString → PendingContentSearchEvents
pending_events state job_id = or_else (lookup job_id state.pending_content_search_events) no_events

unfoldable pub set_buffered_job :
    FileOctopusState → JsString → PendingContentSearchEvents → FileOctopusState
set_buffered_job state job_id events = record state {
  pending_content_search_events = insert job_id events state.pending_content_search_events;
}

unfoldable pub clear_buffered_job : FileOctopusState → JsString → FileOctopusState
clear_buffered_job state job_id =
    if has state.pending_content_search_events job_id
    then record state {
      pending_content_search_events = erase job_id state.pending_content_search_events;
    }
    else state

unfoldable pub absorb_job : FileOctopusState → JsString → FileOctopusState
absorb_job state job_id =
    let cleared = clear_buffered_job state job_id in
    if includes cleared.absorbed_content_search_job_ids job_id then cleared else record cleared {
      absorbed_content_search_job_ids =
          take_last 128 (cleared.absorbed_content_search_job_ids ++ job_id ∷ []);
    }

unfoldable pub buffer_match : FileOctopusState → ContentSearchMatchEventDto → FileOctopusState
buffer_match state event =
    let buffered = pending_events state event.job_id in
    if includes state.absorbed_content_search_job_ids event.job_id
    then state
    else if any (λ (e : ContentSearchMatchEventDto). is_same_match e.item event.item)
        buffered.matches
    then state
    else set_buffered_job state event.job_id
        (record buffered { matches = take_last 500 (buffered.matches ++ event ∷ []) })

unfoldable pub buffer_completion :
    FileOctopusState → ContentSearchCompletedEventDto → FileOctopusState
buffer_completion state event =
    if includes state.absorbed_content_search_job_ids event.job_id
    then state
    else set_buffered_job state event.job_id
        (record (pending_events state event.job_id) { completion = some event })

unfoldable pub buffer_terminal :
    FileOctopusState → JsString → TerminalStatus → JsString → FileOctopusState
buffer_terminal state job_id status error =
    if includes state.absorbed_content_search_job_ids job_id
    then state
    else set_buffered_job state job_id
        (record (pending_events state job_id) { terminal = some (status, error) })
