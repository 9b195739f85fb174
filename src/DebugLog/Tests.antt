-- ===== src/DebugLog/Tests.antt =====
-- A run of the debug log, and the theorem at it.
use file_octopus.Base.{[], ◌∷◌, List, ◌≡◌, js, take_last}
use file_octopus.DebugLog.{
  LogCall, append_log_entry, subscribe_debug_log, clear_debug_log, text, warn, info, empty_log,
  max_entries,
}
use file_octopus.DebugLog.History.{call_all, record_calls, buffer-call_all}

abbrev calls : List LogCall
calls =
    append_log_entry 5 warn (text (js "a") ∷ [])
    ∷ clear_debug_log
    ∷ subscribe_debug_log 3
    ∷ append_log_entry 6 info (text (js "b") ∷ text (js "c") ∷ [])
    ∷ []

buffer-call_all_example :
    (call_all (λ s. s) calls empty_log).buffer
    ≡ take_last max_entries
        (record_calls (λ s. s) calls (record { next_id = 1; entries = [] })).entries
buffer-call_all_example = buffer-call_all (λ s. s) calls
