-- ===== src/Jobs/Runs.antt =====
-- The theorems on jobs at concrete tables.
use file_octopus.Base.{
  false, ◌≤◌, Option, none, some, [], ◌∷◌, ◌≡◌, refl, JsString, js, ◌==◌, lookup, ℤ, pos, length,
}
use file_octopus.Jobs.{
  is_older, JobStatus, JobSnapshot, JobEvent, JobProgressEvent, is_terminal_status, job_id_of,
  merge_event, apply_events,
}
use file_octopus.Jobs.Merging.{merge_event_time, apply_events_terminal, merge_event_counts}

-- A clock that reads a time as the number of its characters.
abbrev parse : JsString → Option ℤ
parse s = some (pos (length s))

abbrev copying : JobSnapshot
copying = record {
  job_id = js "j";
  operation_kind = js "copy";
  status = JobStatus.running;
  current_item = none;
  completed_items = 4;
  total_items = 9;
  completed_bytes = 100;
  total_bytes = some 900;
  error_code = none;
  message = none;
  started_at = js "1";
  updated_at = js "11";
}

abbrev cancelled_copy : JobSnapshot
cancelled_copy = record copying { status = JobStatus.cancelled }

abbrev progress : JobProgressEvent
progress = record {
  job_id = js "j";
  operation_kind = js "copy";
  current_item = none;
  completed_items = 3;
  total_items = 9;
  completed_bytes = 200;
  total_bytes = some 900;
  updated_at = js "111";
}

apply_events_terminal_example :
    lookup (js "j") (
      apply_events parse
        ((js "j", cancelled_copy) ∷ [])
        (JobEvent.progress progress ∷ JobEvent.snapshot copying ∷ []))
    ≡ some cancelled_copy
unfolding lookup ◌==◌ is_terminal_status
apply_events_terminal_example =
    apply_events_terminal parse ((js "j", cancelled_copy) ∷ [])
      (JobEvent.progress progress ∷ JobEvent.snapshot copying ∷ []) (js "j") cancelled_copy refl
      refl

merge_event_counts_example :
    (copying.completed_items
      ≤ (merge_event parse ((js "j", copying) ∷ []) (JobEvent.progress progress)).completed_items)
    × (copying.completed_bytes
        ≤ (merge_event parse ((js "j", copying) ∷ []) (JobEvent.progress progress)).completed_bytes)
unfolding lookup ◌==◌ job_id_of
merge_event_counts_example =
    merge_event_counts parse ((js "j", copying) ∷ []) (JobEvent.progress progress) copying refl refl

merge_event_time_example :
    is_older parse
      (merge_event parse ((js "j", copying) ∷ []) (JobEvent.progress progress)).updated_at
      copying
    ≡ false
unfolding lookup ◌==◌ job_id_of
merge_event_time_example =
    merge_event_time parse ((js "j", copying) ∷ []) (JobEvent.progress progress) copying refl refl
