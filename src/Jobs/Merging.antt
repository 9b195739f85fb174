-- ===== src/Jobs/Merging.antt =====
-- What the merges of job events keep, in any order of the events.
use file_octopus.Base.{
  ◌≤◌, Bool, true, false, ◌||◌, Option, some, List, [], ◌∷◌, ◌≡◌, refl, ap, ◌∙◌, inl, inr, JsString,
  ◌==◌, eq_iff, Dict, lookup, lookup-insert, arith, Bool-cases, ℤ, none, is_neg-sub_self,
}
use file_octopus.Jobs.{
  JobSnapshot, JobEvent, is_terminal_status, job_id_of, snapshot_from_started, merge_known,
  merge_job_snapshot, merge_progress, merge_completed, merge_failed, merge_cancelled, merge_paused,
  merge_resumed, merge_event, apply_event, apply_events, is_older, earlier,
}

module _ (parse : JsString → Option ℤ) where
  merge_event_terminal :
      (jobs : Dict JobSnapshot) (event : JobEvent) (job : JobSnapshot)
      → lookup (job_id_of event) jobs ≡ some job
      → is_terminal_status job.status ≡ true
      → merge_event parse jobs event ≡ job
  unfolding merge_event merge_job_snapshot merge_known merge_progress merge_completed merge_failed
      merge_cancelled merge_paused merge_resumed job_id_of snapshot_from_started
  merge_event_terminal jobs (JobEvent.started event) job e t = rw (e, t) refl
  merge_event_terminal jobs (JobEvent.snapshot event) job e t = rw (e, t) refl
  merge_event_terminal jobs (JobEvent.progress event) job e t = rw (e, t) refl
  merge_event_terminal jobs (JobEvent.completed event) job e t = rw (e, t) refl
  merge_event_terminal jobs (JobEvent.failed event) job e t = rw (e, t) refl
  merge_event_terminal jobs (JobEvent.cancelled event) job e t = rw (e, t) refl
  merge_event_terminal jobs (JobEvent.paused event) job e t = rw (e, t) refl
  merge_event_terminal jobs (JobEvent.resumed event) job e t = rw (e, t) refl

  apply_event_terminal :
      (jobs : Dict JobSnapshot) (event : JobEvent) (id : JsString) (job : JobSnapshot)
      → lookup id jobs ≡ some job
      → is_terminal_status job.status ≡ true
      → lookup id (apply_event parse jobs event) ≡ some job
  unfolding apply_event
  apply_event_terminal jobs event id job e t = elim (Bool-cases (job_id_of event == id)) [
    | inl same ↦
        lookup-insert (job_id_of event) id (merge_event parse jobs event) jobs
        ∙ rw same (
            ap some (
              merge_event_terminal jobs event job
                (ap (λ k. lookup k jobs) ((eq_iff (job_id_of event) id).0 same) ∙ e) t))
    | inr other ↦
        lookup-insert (job_id_of event) id (merge_event parse jobs event) jobs ∙ rw other e
  ]

  -- A job that is completed, failed or cancelled stays as it is, whatever events come after.
  pub apply_events_terminal :
      (jobs : Dict JobSnapshot) (events : List JobEvent) (id : JsString) (job : JobSnapshot)
      → lookup id jobs ≡ some job
      → is_terminal_status job.status ≡ true
      → lookup id (apply_events parse jobs events) ≡ some job
  unfolding apply_events
  apply_events_terminal jobs [] id job e t = e
  apply_events_terminal jobs (event ∷ events) id job e t =
      apply_events_terminal (apply_event parse jobs event) events id job
        (apply_event_terminal jobs event id job e t) t

  -- The event replaces what is known of the job, and does not add to it.
  abbrev pub restates : JobEvent → Bool
  restates (JobEvent.started _) = true
  restates (JobEvent.snapshot _) = true
  restates _ = false

  -- An event other than a start or a snapshot never takes back items or bytes of a known job that are
  -- done.
  pub merge_event_counts :
      (jobs : Dict JobSnapshot) (event : JobEvent) (job : JobSnapshot)
      → lookup (job_id_of event) jobs ≡ some job
      → restates event ≡ false
      → (job.completed_items ≤ (merge_event parse jobs event).completed_items)
        × (job.completed_bytes ≤ (merge_event parse jobs event).completed_bytes)
  unfolding merge_event merge_job_snapshot merge_known merge_progress merge_completed merge_failed
      merge_cancelled merge_paused merge_resumed job_id_of snapshot_from_started
  merge_event_counts jobs (JobEvent.started event) job e r = cc
  merge_event_counts jobs (JobEvent.snapshot event) job e r = cc
  merge_event_counts jobs (JobEvent.progress event) job e r =
      elim (Bool-cases (is_terminal_status job.status || is_older parse event.updated_at job)) [
        | inl f ↦ rw (e, f) (omega arith, omega arith)
        | inr f ↦ rw (e, f) (omega arith, omega arith)
      ]
  merge_event_counts jobs (JobEvent.completed event) job e r =
      elim (Bool-cases (is_terminal_status job.status)) [
        | inl f ↦ rw (e, f) (omega arith, omega arith)
        | inr f ↦ rw (e, f) (omega arith, omega arith)
      ]
  merge_event_counts jobs (JobEvent.failed event) job e r =
      elim (Bool-cases (is_terminal_status job.status)) [
        | inl f ↦ rw (e, f) (omega arith, omega arith)
        | inr f ↦ rw (e, f) (omega arith, omega arith)
      ]
  merge_event_counts jobs (JobEvent.cancelled event) job e r =
      elim (Bool-cases (is_terminal_status job.status)) [
        | inl f ↦ rw (e, f) (omega arith, omega arith)
        | inr f ↦ rw (e, f) (omega arith, omega arith)
      ]
  merge_event_counts jobs (JobEvent.paused event) job e r =
      elim (Bool-cases (is_terminal_status job.status || is_older parse event.paused_at job)) [
        | inl f ↦ rw (e, f) (omega arith, omega arith)
        | inr f ↦ rw (e, f) (omega arith, omega arith)
      ]
  merge_event_counts jobs (JobEvent.resumed event) job e r =
      elim (Bool-cases (is_terminal_status job.status || is_older parse event.resumed_at job)) [
        | inl f ↦ rw (e, f) (omega arith, omega arith)
        | inr f ↦ rw (e, f) (omega arith, omega arith)
      ]

  earlier_irrefl : (x : Option ℤ) → earlier x x ≡ false
  earlier_irrefl none = refl
  earlier_irrefl (some x) = is_neg-sub_self x

  -- The end of a job, whatever its time.
  abbrev pub ends : JobEvent → Bool
  ends (JobEvent.completed _) = true
  ends (JobEvent.failed _) = true
  ends (JobEvent.cancelled _) = true
  ends _ = false

  -- An event other than an end never takes a known job back to an earlier time.
  pub merge_event_time :
      (jobs : Dict JobSnapshot) (event : JobEvent) (job : JobSnapshot)
      → lookup (job_id_of event) jobs ≡ some job
      → ends event ≡ false
      → is_older parse (merge_event parse jobs event).updated_at job ≡ false
  unfolding merge_event merge_job_snapshot merge_known merge_progress merge_completed merge_failed
      merge_cancelled merge_paused merge_resumed job_id_of snapshot_from_started is_older
  merge_event_time jobs (JobEvent.started event) job e r =
      elim (Bool-cases (
        is_terminal_status job.status || earlier (parse event.started_at) (parse job.updated_at))) [
          | inl f ↦ rw (e, f) (earlier_irrefl (parse job.updated_at))
          | inr f ↦ rw (e, f) (ground (arith, f))
        ]
  merge_event_time jobs (JobEvent.snapshot event) job e r =
      elim (Bool-cases (
        is_terminal_status job.status || earlier (parse event.updated_at) (parse job.updated_at))) [
          | inl f ↦ rw (e, f) (earlier_irrefl (parse job.updated_at))
          | inr f ↦ rw (e, f) (ground (arith, f))
        ]
  merge_event_time jobs (JobEvent.progress event) job e r =
      elim (Bool-cases (
        is_terminal_status job.status || earlier (parse event.updated_at) (parse job.updated_at))) [
          | inl f ↦ rw (e, f) (earlier_irrefl (parse job.updated_at))
          | inr f ↦ rw (e, f) (ground (arith, f))
        ]
  merge_event_time jobs (JobEvent.completed event) job e r = cc
  merge_event_time jobs (JobEvent.failed event) job e r = cc
  merge_event_time jobs (JobEvent.cancelled event) job e r = cc
  merge_event_time jobs (JobEvent.paused event) job e r =
      elim (Bool-cases
        (is_terminal_status job.status || earlier (parse event.paused_at) (parse job.updated_at))) [
          | inl f ↦ rw (e, f) (earlier_irrefl (parse job.updated_at))
          | inr f ↦ rw (e, f) (ground (arith, f))
        ]
  merge_event_time jobs (JobEvent.resumed event) job e r =
      elim (Bool-cases (
        is_terminal_status job.status || earlier (parse event.resumed_at) (parse job.updated_at))) [
          | inl f ↦ rw (e, f) (earlier_irrefl (parse job.updated_at))
          | inr f ↦ rw (e, f) (ground (arith, f))
        ]
