-- ===== src/Panel/Valid/Searching.antt =====
-- The slice of content searches on well formed states: it changes searches and pending events only.
use file_octopus.Base.{
  Bool, true, false, Option, none, some, ◌≡◌, inl, inr, JsString, arith, Bool-cases, if◌then◌else◌,
}
use file_octopus.Panel.Entry.{ContentSearchMatchEventDto, ContentSearchCompletedEventDto}
use file_octopus.Panel.Types.{
  PanelId, PanelTabState, FileOctopusState, PanelAction, ContentSearchState, TerminalStatus,
}
use file_octopus.Panel.Search.{
  clear_buffered_job, absorb_job, set_buffered_job, buffer_match, buffer_completion,
  buffer_terminal, put_search, search_at, start_search_tab, awaits, fail_start_tab, bind_search,
  bind_job_state, accepts, append_match, complete, terminate, is_running, is_content_search_active,
  find_search_by_job_id, apply_match_state, apply_completed_state, terminate_job_state,
  fail_waiting, bind_waiting, match_at, match_found, complete_at, complete_found, terminate_at,
  terminate_found,
}
use file_octopus.Panel.Reducer.{reduce_content_search}
use file_octopus.Panel.Valid.{TabIsValid, IsValid}
use file_octopus.Panel.Valid.States.{update_panel_tab-IsValid}

IsValid-panels : (s t : FileOctopusState) → t.panels ≡ s.panels → IsValid s → IsValid t
IsValid-panels s t e v = record { left = rw e v.left; right = rw e v.right }

pub panels-absorb_job :
    (s : FileOctopusState) (job_id : JsString) → (absorb_job s job_id).panels ≡ s.panels
unfolding absorb_job clear_buffered_job
panels-absorb_job s job_id = ground arith

pub panels-clear_buffered_job :
    (s : FileOctopusState) (job_id : JsString) → (clear_buffered_job s job_id).panels ≡ s.panels
unfolding clear_buffered_job
panels-clear_buffered_job s job_id = ground arith

absorb_job-IsValid :
    (s : FileOctopusState) (job_id : JsString) → IsValid s → IsValid (absorb_job s job_id)
absorb_job-IsValid s job_id = IsValid-panels s (absorb_job s job_id) (panels-absorb_job s job_id)

put_search-IsValid :
    (s : FileOctopusState) (p : PanelId) (tab_id : JsString) (search : ContentSearchState)
    → IsValid s
    → IsValid (put_search s p tab_id search)
unfolding put_search
put_search-IsValid s p tab_id search v =
    update_panel_tab-IsValid s p tab_id _ v
      (λ tab w. record { listing = w.listing; in_background = w.in_background })

fail_waiting-TabIsValid :
    (request_id error : JsString) (tab : PanelTabState) (search : Option ContentSearchState)
    → TabIsValid tab
    → TabIsValid (fail_waiting request_id error tab search)
unfolding fail_waiting
fail_waiting-TabIsValid request_id error tab none v = v
fail_waiting-TabIsValid request_id error tab (some search) v =
    elim (Bool-cases (awaits request_id search)) [
      | inl e ↦ rw e (record { listing = v.listing; in_background = v.in_background })
      | inr e ↦ rw e v
    ]

either-IsValid :
    (b : Bool) (s t : FileOctopusState) → IsValid s → IsValid t → IsValid (if b then s else t)
either-IsValid true s t v w = v
either-IsValid false s t v w = w

module _ (s : FileOctopusState) (v : IsValid s) where
  put-IsValid :
      (p : PanelId) (tab_id : JsString) (search : ContentSearchState)
      → IsValid (put_search s p tab_id search)
  put-IsValid p tab_id search = put_search-IsValid s p tab_id search v

  bind_waiting-IsValid :
      (p : PanelId) (tab_id request_id job_id : JsString) (search : Option ContentSearchState)
      → IsValid (bind_waiting s p tab_id request_id job_id search)
  unfolding bind_waiting
  bind_waiting-IsValid p tab_id request_id job_id none = v
  bind_waiting-IsValid p tab_id request_id job_id (some search) =
      either-IsValid (awaits request_id search) _ s
        (IsValid-panels chosen _ (panels-clear_buffered_job chosen job_id) (
          either-IsValid (is_running (bind_search s job_id search).status) _ _ bound
            (absorb_job-IsValid _ job_id bound)))
        v
    where
      next : FileOctopusState
      next = put_search s p tab_id (bind_search s job_id search)

      chosen : FileOctopusState
      chosen =
          if is_running (bind_search s job_id search).status then next else absorb_job next job_id

      bound : IsValid next
      bound = put-IsValid p tab_id (bind_search s job_id search)

  buffer_match-IsValid : (event : ContentSearchMatchEventDto) → IsValid (buffer_match s event)
  buffer_match-IsValid event =
      IsValid-panels s (buffer_match s event) (unfold buffer_match set_buffered_job in ground arith)
        v

  match_at-IsValid :
      (event : ContentSearchMatchEventDto) (p : PanelId) (tab_id : JsString)
      (search : Option ContentSearchState)
      → IsValid (match_at s event p tab_id search)
  unfolding match_at
  match_at-IsValid event p tab_id none = v
  match_at-IsValid event p tab_id (some search) =
      either-IsValid (accepts search event.uri event.query) _ _
        (either-IsValid _ s _ v (put-IsValid p tab_id (append_match search event.item))) v

  match_found-IsValid :
      (event : ContentSearchMatchEventDto) (found : Option (PanelId × JsString))
      → IsValid (match_found s event found)
  unfolding match_found
  match_found-IsValid event none = buffer_match-IsValid event
  match_found-IsValid event (some (p, tab_id)) =
      match_at-IsValid event p tab_id (search_at s p tab_id)

  complete_at-IsValid :
      (event : ContentSearchCompletedEventDto) (p : PanelId) (tab_id : JsString)
      (search : Option ContentSearchState)
      → IsValid (complete_at s event p tab_id search)
  unfolding complete_at
  complete_at-IsValid event p tab_id none = v
  complete_at-IsValid event p tab_id (some search) =
      either-IsValid (accepts search event.uri event.query) _ _
        (absorb_job-IsValid _ event.job_id (put-IsValid p tab_id (complete search event.result))) v

  complete_found-IsValid :
      (event : ContentSearchCompletedEventDto) (found : Option (PanelId × JsString))
      → IsValid (complete_found s event found)
  unfolding complete_found buffer_completion set_buffered_job
  complete_found-IsValid event none = IsValid-panels s _ (ground arith) v
  complete_found-IsValid event (some (p, tab_id)) =
      complete_at-IsValid event p tab_id (search_at s p tab_id)

  module _ (job_id : JsString) (status : TerminalStatus) (error : JsString) where
    terminate_at-IsValid :
        (p : PanelId) (tab_id : JsString) (search : Option ContentSearchState)
        → IsValid (terminate_at s job_id status error p tab_id search)
    unfolding terminate_at
    terminate_at-IsValid p tab_id none = v
    terminate_at-IsValid p tab_id (some search) =
        either-IsValid (is_content_search_active search) _ _
          (absorb_job-IsValid _ job_id (put-IsValid p tab_id (terminate search status error))) v

    terminate_found-IsValid :
        (found : Option (PanelId × JsString))
        → IsValid (terminate_found s job_id status error found)
    unfolding terminate_found buffer_terminal set_buffered_job
    terminate_found-IsValid none = IsValid-panels s _ (ground arith) v
    terminate_found-IsValid (some (p, tab_id)) =
        terminate_at-IsValid p tab_id (search_at s p tab_id)

pub reduce_content_search-IsValid :
    (s : FileOctopusState) (action : PanelAction)
    → IsValid s
    → IsValid (reduce_content_search s action)
unfolding reduce_content_search fail_start_tab start_search_tab bind_job_state apply_match_state
    apply_completed_state terminate_job_state
reduce_content_search-IsValid s (PanelAction.set_content_search_query p tab_id query) v =
    update_panel_tab-IsValid s p tab_id _ v
      (λ tab w. record { listing = w.listing; in_background = w.in_background })
reduce_content_search-IsValid s
      (PanelAction.start_content_search p tab_id request_id root query options) v =
    update_panel_tab-IsValid s p tab_id _ v
      (λ tab w. record { listing = w.listing; in_background = w.in_background })
reduce_content_search-IsValid s (PanelAction.bind_content_search_job p tab_id request_id job_id) v =
    bind_waiting-IsValid s v p tab_id request_id job_id (search_at s p tab_id)
reduce_content_search-IsValid s (PanelAction.fail_content_search_start p tab_id request_id error)
      v =
    update_panel_tab-IsValid s p tab_id _ v
      (λ tab w. fail_waiting-TabIsValid request_id error tab tab.content_search w)
reduce_content_search-IsValid s (PanelAction.apply_content_search_match event) v =
    match_found-IsValid s v event (find_search_by_job_id s event.job_id)
reduce_content_search-IsValid s (PanelAction.apply_content_search_completed event) v =
    complete_found-IsValid s v event (find_search_by_job_id s event.job_id)
reduce_content_search-IsValid s (PanelAction.terminate_content_search_job job_id status error) v =
    terminate_found-IsValid s v job_id status error (find_search_by_job_id s job_id)
reduce_content_search-IsValid s (PanelAction.discard_content_search_job_events job_id) v =
    absorb_job-IsValid s job_id v
reduce_content_search-IsValid s _ v = v
