-- ===== src/Panel/Bounded.antt =====
-- The bounds on what content searches keep beside the tabs
-- (packages/frontend/src/state/slices/contentSearchSlice.ts).
use file_octopus.Base.{
  ◌≤◌, Bool, true, false, Option, none, some, inl, inr, JsString, lookup, has, includes, any,
  length, length-take_last, AllValues, AllValues-insert, AllValues-erase, AllValues-lookup, arith,
  Bool-cases, Option-cases, if◌then◌else◌,
}
use file_octopus.Panel.Entry.{ContentSearchMatchEventDto, ContentSearchCompletedEventDto}
use file_octopus.Panel.Types.{
  PanelId, PanelTabState, ContentSearchState, TerminalStatus, PendingContentSearchEvents,
  FileOctopusState, PanelAction, panel_of,
}
use file_octopus.Panel.Update.{put_tab, put_existing, update_panel_tab}
use file_octopus.Panel.Search.{
  pending_events, set_buffered_job, clear_buffered_job, absorb_job, buffer_match, buffer_completion,
  buffer_terminal, put_search, search_at, is_same_match, is_running, bind_search, bind_waiting,
  bind_job_state, awaits, accepts, match_at, match_found, apply_match_state, complete_at,
  complete_found, apply_completed_state, terminate_at, terminate_found, terminate_job_state,
  find_search_by_job_id, complete, terminate, append_match, is_content_search_active,
}
use file_octopus.Panel.Reducer.{reduce_content_search}

abbrev HasFew : PendingContentSearchEvents → Type 0
HasFew events = length events.matches ≤ 500

-- At most 500 matches are kept for each job, and at most 128 jobs that are over.
pub record IsBounded (s : FileOctopusState) : Type 0 where
  pub matches : AllValues HasFew s.pending_content_search_events
  pub absorbed : length s.absorbed_content_search_job_ids ≤ 128

IsBounded-update_panel_tab :
    (s : FileOctopusState) (p : PanelId) (tab_id : JsString) (f : PanelTabState → PanelTabState)
    → IsBounded s
    → IsBounded (update_panel_tab s p tab_id f)
unfolding update_panel_tab
IsBounded-update_panel_tab s p tab_id f b = go (lookup tab_id (panel_of s.panels p).tabs)
  where
    go : (found : Option PanelTabState) → IsBounded (put_existing s p tab_id f found)
    go none = unfold put_existing in b
    go (some tab) =
        unfold put_existing put_tab in record { matches = b.matches; absorbed = b.absorbed }

clear_buffered_job-IsBounded :
    (s : FileOctopusState) (job_id : JsString)
    → IsBounded s
    → IsBounded (clear_buffered_job s job_id)
unfolding clear_buffered_job
clear_buffered_job-IsBounded s job_id b =
    elim (Bool-cases (has s.pending_content_search_events job_id)) [
      | inl e ↦ rw e (record {
        matches = AllValues-erase HasFew job_id s.pending_content_search_events b.matches;
        absorbed = b.absorbed;
      })
      | inr e ↦ rw e b
    ]

absorb_job-IsBounded :
    (s : FileOctopusState) (job_id : JsString) → IsBounded s → IsBounded (absorb_job s job_id)
unfolding absorb_job
absorb_job-IsBounded s job_id b =
    let c = clear_buffered_job-IsBounded s job_id b in
    elim (Bool-cases
      (includes (clear_buffered_job s job_id).absorbed_content_search_job_ids job_id)) [
        | inl e ↦ rw e c
        | inr e ↦ rw e (record { matches = c.matches; absorbed = length-take_last 128 _ })
      ]

pending_events-HasFew :
    (s : FileOctopusState) (job_id : JsString) → IsBounded s → HasFew (pending_events s job_id)
unfolding pending_events
pending_events-HasFew s job_id b =
    elim (Option-cases (lookup job_id s.pending_content_search_events)) [
      | inl e ↦ rw e (omega arith)
      | inr (events, e) ↦
          rw e (AllValues-lookup HasFew job_id s.pending_content_search_events b.matches e)
    ]

set_buffered_job-IsBounded :
    (s : FileOctopusState) (job_id : JsString) (events : PendingContentSearchEvents)
    → IsBounded s
    → HasFew events
    → IsBounded (set_buffered_job s job_id events)
unfolding set_buffered_job
set_buffered_job-IsBounded s job_id events b few = record {
  matches = AllValues-insert HasFew job_id events s.pending_content_search_events few b.matches;
  absorbed = b.absorbed;
}

either-IsBounded :
    (c : Bool) (s t : FileOctopusState) → IsBounded s → IsBounded t → IsBounded (if c then s else t)
either-IsBounded true s t b d = b
either-IsBounded false s t b d = d

module _ (s : FileOctopusState) (b : IsBounded s) where
  put_search-IsBounded :
      (p : PanelId) (tab_id : JsString) (content : ContentSearchState)
      → IsBounded (put_search s p tab_id content)
  unfolding put_search
  put_search-IsBounded p tab_id content = IsBounded-update_panel_tab s p tab_id _ b

  bind_waiting-IsBounded :
      (p : PanelId) (tab_id request_id job_id : JsString) (content : Option ContentSearchState)
      → IsBounded (bind_waiting s p tab_id request_id job_id content)
  unfolding bind_waiting
  bind_waiting-IsBounded p tab_id request_id job_id none = b
  bind_waiting-IsBounded p tab_id request_id job_id (some content) =
      let next = put_search-IsBounded p tab_id (bind_search s job_id content) in
      either-IsBounded (awaits request_id content) _ s
        (clear_buffered_job-IsBounded _ job_id (
          either-IsBounded (is_running (bind_search s job_id content).status) _ _ next
            (absorb_job-IsBounded _ job_id next)))
        b

  match_found-IsBounded :
      (event : ContentSearchMatchEventDto) (found : Option (PanelId × JsString))
      → IsBounded (match_found s event found)
  unfolding match_found match_at buffer_match
  match_found-IsBounded event none =
      either-IsBounded (includes s.absorbed_content_search_job_ids event.job_id) s _ b (
        either-IsBounded
          (any (λ (e : ContentSearchMatchEventDto). is_same_match e.item event.item)
            (pending_events s event.job_id).matches)
          s _ b (set_buffered_job-IsBounded s event.job_id _ b (length-take_last 500 _)))
  match_found-IsBounded event (some (p, tab_id)) = at (search_at s p tab_id)
    where
      at : (content : Option ContentSearchState) → IsBounded (match_at s event p tab_id content)
      at none = b
      at (some content) =
          either-IsBounded (accepts content event.uri event.query) _ _
            (either-IsBounded _ s _ b
              (put_search-IsBounded p tab_id (append_match content event.item)))
            b

  complete_found-IsBounded :
      (event : ContentSearchCompletedEventDto) (found : Option (PanelId × JsString))
      → IsBounded (complete_found s event found)
  unfolding complete_found complete_at buffer_completion
  complete_found-IsBounded event none =
      either-IsBounded (includes s.absorbed_content_search_job_ids event.job_id) s _ b
        (set_buffered_job-IsBounded s event.job_id _ b (pending_events-HasFew s event.job_id b))
  complete_found-IsBounded event (some (p, tab_id)) = at (search_at s p tab_id)
    where
      at : (content : Option ContentSearchState) → IsBounded (complete_at s event p tab_id content)
      at none = b
      at (some content) =
          either-IsBounded (accepts content event.uri event.query) _ _
            (absorb_job-IsBounded _ event.job_id
              (put_search-IsBounded p tab_id (complete content event.result)))
            b

  terminate_found-IsBounded :
      (job_id : JsString) (status : TerminalStatus) (error : JsString)
      (found : Option (PanelId × JsString))
      → IsBounded (terminate_found s job_id status error found)
  unfolding terminate_found terminate_at buffer_terminal
  terminate_found-IsBounded job_id status error none =
      either-IsBounded (includes s.absorbed_content_search_job_ids job_id) s _ b
        (set_buffered_job-IsBounded s job_id _ b (pending_events-HasFew s job_id b))
  terminate_found-IsBounded job_id status error (some (p, tab_id)) = at (search_at s p tab_id)
    where
      at :
          (content : Option ContentSearchState)
          → IsBounded (terminate_at s job_id status error p tab_id content)
      at none = b
      at (some content) =
          either-IsBounded (is_content_search_active content) _ _
            (absorb_job-IsBounded _ job_id
              (put_search-IsBounded p tab_id (terminate content status error)))
            b

-- The actions of the slice of content searches keep the bounds on what is kept beside the tabs: at most
-- 500 matches for each job that no search is bound to, and at most 128 jobs that are over.
pub reduce_content_search-IsBounded :
    (s : FileOctopusState) (action : PanelAction)
    → IsBounded s
    → IsBounded (reduce_content_search s action)
unfolding reduce_content_search bind_job_state apply_match_state apply_completed_state
    terminate_job_state
reduce_content_search-IsBounded s (PanelAction.set_content_search_query p tab_id query) b =
    IsBounded-update_panel_tab s p tab_id _ b
reduce_content_search-IsBounded s
      (PanelAction.start_content_search p tab_id request_id root query options) b =
    IsBounded-update_panel_tab s p tab_id _ b
reduce_content_search-IsBounded s (PanelAction.bind_content_search_job p tab_id request_id job_id)
      b =
    bind_waiting-IsBounded s b p tab_id request_id job_id (search_at s p tab_id)
reduce_content_search-IsBounded s (PanelAction.fail_content_search_start p tab_id request_id error)
      b =
    IsBounded-update_panel_tab s p tab_id _ b
reduce_content_search-IsBounded s (PanelAction.apply_content_search_match event) b =
    match_found-IsBounded s b event (find_search_by_job_id s event.job_id)
reduce_content_search-IsBounded s (PanelAction.apply_content_search_completed event) b =
    complete_found-IsBounded s b event (find_search_by_job_id s event.job_id)
reduce_content_search-IsBounded s (PanelAction.terminate_content_search_job job_id status error) b =
    terminate_found-IsBounded s b job_id status error (find_search_by_job_id s job_id)
reduce_content_search-IsBounded s (PanelAction.discard_content_search_job_events job_id) b =
    absorb_job-IsBounded s job_id b
reduce_content_search-IsBounded s _ b = b
