-- ===== src/Jobs.antt =====
-- The jobs that the frontend knows: packages/frontend/src/dialogs/operationJobState.ts, and the updates
-- of the table of jobs in packages/frontend/src/hooks/useJobEventListeners.ts. The types of the events
-- are those of crates/jobs/src/lib.rs.
pub mod Merging
mod Runs
use file_octopus.Base.{
  ℕ, max, Bool, true, false, ◌||◌, Option, none, some, List, [], ◌∷◌, JsString, Dict, lookup,
  insert, or_else, if◌then◌else◌, ℤ, ◌-ℤ◌, is_neg,
}

pub data JobStatus : Type 0 where
  queued running paused cancelled completed failed : JobStatus

pub record JobSnapshot : Type 0 where
  pub job_id : JsString
  pub operation_kind : JsString
  pub status : JobStatus
  pub current_item : Option JsString
  pub completed_items : ℕ
  pub total_items : ℕ
  pub completed_bytes : ℕ
  pub total_bytes : Option ℕ
  pub error_code : Option JsString
  pub message : Option JsString
  pub started_at : JsString
  pub updated_at : JsString

pub record JobStartedEvent : Type 0 where
  pub job_id : JsString
  pub operation_kind : JsString
  pub total_items : ℕ
  pub total_bytes : Option ℕ
  pub started_at : JsString

pub record JobProgressEvent : Type 0 where
  pub job_id : JsString
  pub operation_kind : JsString
  pub current_item : Option JsString
  pub completed_items : ℕ
  pub total_items : ℕ
  pub completed_bytes : ℕ
  pub total_bytes : Option ℕ
  pub updated_at : JsString

pub record JobCompletedEvent : Type 0 where
  pub job_id : JsString
  pub operation_kind : JsString
  pub completed_items : ℕ
  pub completed_bytes : ℕ
  pub completed_at : JsString

pub record JobFailedEvent : Type 0 where
  pub job_id : JsString
  pub operation_kind : JsString
  pub error_code : JsString
  pub message : JsString
  pub failed_at : JsString

pub record JobCancelledEvent : Type 0 where
  pub job_id : JsString
  pub operation_kind : JsString
  pub cancelled_at : JsString

pub record JobPausedEvent : Type 0 where
  pub job_id : JsString
  pub operation_kind : JsString
  pub paused_at : JsString

pub record JobResumedEvent : Type 0 where
  pub job_id : JsString
  pub operation_kind : JsString
  pub resumed_at : JsString

unfoldable pub is_terminal_status : JobStatus → Bool
is_terminal_status JobStatus.completed = true
is_terminal_status JobStatus.failed = true
is_terminal_status JobStatus.cancelled = true
is_terminal_status JobStatus.queued = false
is_terminal_status JobStatus.running = false
is_terminal_status JobStatus.paused = false

abbrev pub after_progress : JobStatus → JobStatus
after_progress JobStatus.paused = JobStatus.paused
after_progress JobStatus.queued = JobStatus.running
after_progress JobStatus.running = JobStatus.running
after_progress JobStatus.cancelled = JobStatus.running
after_progress JobStatus.completed = JobStatus.running
after_progress JobStatus.failed = JobStatus.running

unfoldable pub snapshot_from_started : JobStartedEvent → JobSnapshot
snapshot_from_started event = record {
  job_id = event.job_id;
  operation_kind = event.operation_kind;
  status = JobStatus.running;
  current_item = none;
  completed_items = 0;
  total_items = event.total_items;
  completed_bytes = 0;
  total_bytes = event.total_bytes;
  error_code = none;
  message = none;
  started_at = event.started_at;
  updated_at = event.started_at;
}

-- What the handlers take for a job that is not known.
abbrev pub first_snapshot : JsString → JsString → ℕ → Option ℕ → JsString → JobSnapshot
unfolding snapshot_from_started
first_snapshot job_id operation_kind total_items total_bytes started_at =
    snapshot_from_started (record {
      job_id = job_id;
      operation_kind = operation_kind;
      total_items = total_items;
      total_bytes = total_bytes;
      started_at = started_at;
    })

-- An event, or a snapshot from the backend.
pub data JobEvent : Type 0 where
  started : JobStartedEvent → JobEvent
  snapshot : JobSnapshot → JobEvent
  progress : JobProgressEvent → JobEvent
  completed : JobCompletedEvent → JobEvent
  failed : JobFailedEvent → JobEvent
  cancelled : JobCancelledEvent → JobEvent
  paused : JobPausedEvent → JobEvent
  resumed : JobResumedEvent → JobEvent

unfoldable pub job_id_of : JobEvent → JsString
job_id_of (JobEvent.started event) = event.job_id
job_id_of (JobEvent.snapshot event) = event.job_id
job_id_of (JobEvent.progress event) = event.job_id
job_id_of (JobEvent.completed event) = event.job_id
job_id_of (JobEvent.failed event) = event.job_id
job_id_of (JobEvent.cancelled event) = event.job_id
job_id_of (JobEvent.paused event) = event.job_id
job_id_of (JobEvent.resumed event) = event.job_id

-- The comparison of two times, of which either may be NaN.
abbrev pub earlier : Option ℤ → Option ℤ → Bool
earlier none _ = false
earlier (some x) none = false
earlier (some x) (some y) = is_neg (x -ℤ y)

-- `parse` is `Date.parse`, with `none` for NaN, which is less than nothing.
module _ (parse : JsString → Option ℤ) where
  unfoldable pub is_older : JsString → JobSnapshot → Bool
  is_older timestamp existing = earlier (parse timestamp) (parse existing.updated_at)

  unfoldable pub merge_known : JobSnapshot → Option JobSnapshot → JobSnapshot
  merge_known incoming none = incoming
  merge_known incoming (some existing) =
      if is_terminal_status existing.status || is_older incoming.updated_at existing
      then existing
      else incoming

  unfoldable pub merge_job_snapshot : Dict JobSnapshot → JobSnapshot → JobSnapshot
  merge_job_snapshot current incoming = merge_known incoming (lookup incoming.job_id current)

  unfoldable pub merge_progress : Dict JobSnapshot → JobProgressEvent → JobSnapshot
  merge_progress current event =
      let existing = or_else (lookup event.job_id current) (
        first_snapshot event.job_id event.operation_kind event.total_items event.total_bytes
          event.updated_at) in
      if is_terminal_status existing.status || is_older event.updated_at existing
      then existing
      else record existing {
        status = after_progress existing.status;
        current_item = event.current_item;
        completed_items = max existing.completed_items event.completed_items;
        total_items = max existing.total_items event.total_items;
        completed_bytes = max existing.completed_bytes event.completed_bytes;
        total_bytes = event.total_bytes;
        updated_at = event.updated_at;
      }

  unfoldable pub merge_completed : Dict JobSnapshot → JobCompletedEvent → JobSnapshot
  merge_completed current event =
      let existing = or_else (lookup event.job_id current) (
        first_snapshot event.job_id event.operation_kind event.completed_items
          (some event.completed_bytes) event.completed_at) in
      if is_terminal_status existing.status then existing else record existing {
        status = JobStatus.completed;
        completed_items = max existing.completed_items event.completed_items;
        completed_bytes = max existing.completed_bytes event.completed_bytes;
        updated_at = event.completed_at;
      }

  unfoldable pub merge_failed : Dict JobSnapshot → JobFailedEvent → JobSnapshot
  merge_failed current event =
      let existing =
        or_else (lookup event.job_id current)
          (first_snapshot event.job_id event.operation_kind 0 (some 0) event.failed_at) in
      if is_terminal_status existing.status then existing else record existing {
        status = JobStatus.failed;
        error_code = some event.error_code;
        message = some event.message;
        updated_at = event.failed_at;
      }

  unfoldable pub merge_cancelled : Dict JobSnapshot → JobCancelledEvent → JobSnapshot
  merge_cancelled current event =
      let existing =
        or_else (lookup event.job_id current)
          (first_snapshot event.job_id event.operation_kind 0 (some 0) event.cancelled_at) in
      if is_terminal_status existing.status
      then existing
      else record existing { status = JobStatus.cancelled; updated_at = event.cancelled_at }

  unfoldable pub merge_paused : Dict JobSnapshot → JobPausedEvent → JobSnapshot
  merge_paused current event =
      let existing =
        or_else (lookup event.job_id current)
          (first_snapshot event.job_id event.operation_kind 0 (some 0) event.paused_at) in
      if is_terminal_status existing.status || is_older event.paused_at existing
      then existing
      else record existing { status = JobStatus.paused; updated_at = event.paused_at }

  unfoldable pub merge_resumed : Dict JobSnapshot → JobResumedEvent → JobSnapshot
  merge_resumed current event =
      let existing =
        or_else (lookup event.job_id current)
          (first_snapshot event.job_id event.operation_kind 0 (some 0) event.resumed_at) in
      if is_terminal_status existing.status || is_older event.resumed_at existing
      then existing
      else record existing { status = JobStatus.running; updated_at = event.resumed_at }

  -- What the table holds for the job after the event.
  unfoldable pub merge_event : Dict JobSnapshot → JobEvent → JobSnapshot
  merge_event jobs (JobEvent.started event) = merge_job_snapshot jobs (snapshot_from_started event)
  merge_event jobs (JobEvent.snapshot event) = merge_job_snapshot jobs event
  merge_event jobs (JobEvent.progress event) = merge_progress jobs event
  merge_event jobs (JobEvent.completed event) = merge_completed jobs event
  merge_event jobs (JobEvent.failed event) = merge_failed jobs event
  merge_event jobs (JobEvent.cancelled event) = merge_cancelled jobs event
  merge_event jobs (JobEvent.paused event) = merge_paused jobs event
  merge_event jobs (JobEvent.resumed event) = merge_resumed jobs event

  -- `setJobs((current) => ({ ...current, [id]: merge(current, event) }))`
  unfoldable pub apply_event : Dict JobSnapshot → JobEvent → Dict JobSnapshot
  apply_event jobs event = insert (job_id_of event) (merge_event jobs event) jobs

  unfoldable pub apply_events : Dict JobSnapshot → List JobEvent → Dict JobSnapshot
  apply_events jobs [] = jobs
  apply_events jobs (event ∷ events) = apply_events (apply_event jobs event) events
