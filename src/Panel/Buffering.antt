-- ===== src/Panel/Buffering.antt =====
-- Content search events that arrive before the search knows its job
-- (packages/frontend/src/state/slices/contentSearchSlice.ts).
use file_octopus.Base.{
  ◌≤◌, ◌<◌, true, false, Option, none, some, List, [], ◌∷◌, ◌++◌, ◌≡◌, refl, sym, ap, subst, ◌∙◌,
  inl, inr, JsString, eq_refl, lookup, lookup-insert, includes, any, length, length-append,
  take_last_all, or_else, arith, Bool-cases, if◌then◌else◌,
}
use file_octopus.Panel.Entry.{ContentSearchMatchDto, ContentSearchMatchEventDto}
use file_octopus.Panel.Types.{
  ContentSearchState, ContentSearchStatus, PendingContentSearchEvents, FileOctopusState,
}
use file_octopus.Panel.Search.{
  is_same_match, append_match, no_events, pending_events, set_buffered_job, buffer_match, is_about,
  replay_matches, replay, bind_search,
}
use file_octopus.Panel.Matches.{
  found, found-append_match_self, found-append_match, is_about-append_match, append_match_known,
}

-- All the events are about the search's root and query.
abbrev pub AllAbout : ContentSearchState → List ContentSearchMatchEventDto → Type 0
AllAbout content [] = Unit
AllAbout content (event ∷ events) =
    (is_about content event.uri event.query ≡ true) × AllAbout content events

AllAbout-append_match :
    (content : ContentSearchState) (x : ContentSearchMatchDto)
    (events : List ContentSearchMatchEventDto)
    → AllAbout content events
    → AllAbout (append_match content x) events
AllAbout-append_match content x [] a = tt
AllAbout-append_match content x (event ∷ events) a = (
  is_about-append_match content x event.uri event.query ∙ a.0,
  AllAbout-append_match content x events a.1,
)

replay_matches-about :
    (content : ContentSearchState) (event : ContentSearchMatchEventDto)
    (events : List ContentSearchMatchEventDto)
    → is_about content event.uri event.query ≡ true
    → replay_matches content (event ∷ events)
      ≡ replay_matches (append_match content event.item) events
unfolding replay_matches
replay_matches-about content event events e =
    ap (λ b. replay_matches (if b then append_match content event.item else content) events) e

replay_matches-append :
    (content : ContentSearchState) (events : List ContentSearchMatchEventDto)
    (event : ContentSearchMatchEventDto)
    → AllAbout content events
    → is_about content event.uri event.query ≡ true
    → replay_matches content (events ++ event ∷ [])
      ≡ append_match (replay_matches content events) event.item
unfolding replay_matches
replay_matches-append content [] event a e = replay_matches-about content event [] e
replay_matches-append content (x ∷ events) event a e =
    replay_matches-about content x (events ++ event ∷ []) a.0
    ∙ replay_matches-append (append_match content x.item) events event
        (AllAbout-append_match content x.item events a.1)
        (is_about-append_match content x.item event.uri event.query ∙ e)
    ∙ ap (λ s. append_match s event.item) (sym (replay_matches-about content x events a.0))

found-replay_matches :
    (content : ContentSearchState) (events : List ContentSearchMatchEventDto)
    (item : ContentSearchMatchDto)
    → AllAbout content events
    → found item content ≡ true
    → found item (replay_matches content events) ≡ true
unfolding replay_matches
found-replay_matches content [] item a e = e
found-replay_matches content (x ∷ events) item a e =
    subst (λ s. found item s ≡ true) (sym (replay_matches-about content x events a.0))
      (found-replay_matches (append_match content x.item) events item
        (AllAbout-append_match content x.item events a.1)
        (found-append_match content x.item item e))

replayed_found :
    (content : ContentSearchState) (events : List ContentSearchMatchEventDto)
    (item : ContentSearchMatchDto)
    → AllAbout content events
    → any (λ (e : ContentSearchMatchEventDto). is_same_match e.item item) events ≡ true
    → found item (replay_matches content events) ≡ true
unfolding replay_matches
replayed_found content [] item a e = cc
replayed_found content (x ∷ events) item a e = elim (Bool-cases (is_same_match x.item item)) [
  | inl f ↦
      subst (λ s. found item s ≡ true) (sym (replay_matches-about content x events a.0))
        (found-replay_matches (append_match content x.item) events item
          (AllAbout-append_match content x.item events a.1)
          (found-append_match_self content x.item item f))
  | inr f ↦
      subst (λ s. found item s ≡ true) (sym (replay_matches-about content x events a.0))
        (replayed_found (append_match content x.item) events item
          (AllAbout-append_match content x.item events a.1) (rw f at e))
]

replay_pending :
    (content : ContentSearchState) (events : Option PendingContentSearchEvents)
    → replay content events ≡ replay content (some (or_else events no_events))
unfolding replay replay_matches
replay_pending content none = refl
replay_pending content (some events) = refl

-- The search that a job is bound to.
abbrev bound : ContentSearchState → JsString → ContentSearchState
bound content job_id = record content { status = ContentSearchStatus.running; job_id = some job_id }

AllAbout-bound :
    (content : ContentSearchState) (job_id : JsString) (events : List ContentSearchMatchEventDto)
    → AllAbout content events
    → AllAbout (bound content job_id) events
unfolding is_about
AllAbout-bound content job_id [] a = tt
AllAbout-bound content job_id (event ∷ events) a = (a.0, AllAbout-bound content job_id events a.1)

-- What is kept for a job, when it is matches and no end.
abbrev only_matches : List ContentSearchMatchEventDto → PendingContentSearchEvents
only_matches events = record { matches = events; completion = none; terminal = none }

bind_search-pending :
    (s : FileOctopusState) (content : ContentSearchState) (job_id : JsString)
    (events : List ContentSearchMatchEventDto)
    → pending_events s job_id ≡ only_matches events
    → bind_search s job_id content ≡ replay_matches (bound content job_id) events
unfolding bind_search pending_events replay
bind_search-pending s content job_id events kept =
    replay_pending (bound content job_id) (lookup job_id s.pending_content_search_events)
    ∙ ap (λ e. replay (bound content job_id) (some e)) kept

pending_events-buffer_match :
    (s : FileOctopusState) (event : ContentSearchMatchEventDto)
    (events : List ContentSearchMatchEventDto)
    → includes s.absorbed_content_search_job_ids event.job_id ≡ false
    → pending_events s event.job_id ≡ only_matches events
    → length events < 500
    → any (λ (e : ContentSearchMatchEventDto). is_same_match e.item event.item) events ≡ false
    → pending_events (buffer_match s event) event.job_id ≡ only_matches (events ++ event ∷ [])
unfolding pending_events buffer_match set_buffered_job
pending_events-buffer_match s event events fresh kept few new =
    rw
      (
        fresh,
        kept,
        new,
        lookup-insert event.job_id event.job_id,
        eq_refl event.job_id,
        take_last_all 500 (events ++ event ∷ []) short,
      )
      refl
  where
    short : length (events ++ event ∷ []) ≤ 500
    short = omega (arith, length-append events (event ∷ []))

buffer_match_known :
    (s : FileOctopusState) (event : ContentSearchMatchEventDto)
    (events : List ContentSearchMatchEventDto)
    → pending_events s event.job_id ≡ only_matches events
    → any (λ (e : ContentSearchMatchEventDto). is_same_match e.item event.item) events ≡ true
    → buffer_match s event ≡ s
unfolding buffer_match
buffer_match_known s event events kept known =
    elim (Bool-cases (includes s.absorbed_content_search_job_ids event.job_id)) [
      | inl e ↦ rw e refl
      | inr e ↦ rw (e, kept, known) refl
    ]

-- For a job that is not absorbed, with fewer than 500 matches and no end kept for it, all about the
-- search's root and query: a match event for it, about the same, that comes before the search is bound
-- to the job has the effect that it would have had afterwards.
pub bind_search-buffer_match :
    (s : FileOctopusState) (content : ContentSearchState) (event : ContentSearchMatchEventDto)
    (events : List ContentSearchMatchEventDto)
    → includes s.absorbed_content_search_job_ids event.job_id ≡ false
    → pending_events s event.job_id ≡ only_matches events
    → length events < 500
    → AllAbout content events
    → is_about content event.uri event.query ≡ true
    → bind_search (buffer_match s event) event.job_id content
      ≡ append_match (bind_search s event.job_id content) event.item
unfolding is_about
bind_search-buffer_match s content event events fresh kept few all_about about =
    let before : bind_search s event.job_id content ≡ replay_matches start events =
      bind_search-pending s content event.job_id events kept in
    elim (Bool-cases
      (any (λ (e : ContentSearchMatchEventDto). is_same_match e.item event.item) events)) [
        | inl known ↦
            ap (λ t. bind_search t event.job_id content)
              (buffer_match_known s event events kept known)
            ∙ before
            ∙ sym (
                append_match_known (replay_matches start events) event.item
                  (replayed_found start events event.item started known))
            ∙ ap (λ r. append_match r event.item) (sym before)
        | inr new ↦
            bind_search-pending (buffer_match s event) content event.job_id (events ++ event ∷ [])
              (pending_events-buffer_match s event events fresh kept few new)
            ∙ replay_matches-append start events event started about
            ∙ ap (λ r. append_match r event.item) (sym before)
      ]
  where
    start : ContentSearchState
    start = bound content event.job_id

    started : AllAbout (bound content event.job_id) events
    started = AllAbout-bound content event.job_id events all_about
