-- ===== src/DebugLog.antt =====
-- The log of the debug console: packages/frontend/src/dev/debugLogStore.ts. The texts that the engine
-- makes of an argument, `toLowerCase` and the clock are parameters. A listener is a number.
pub mod History
mod Tests
use file_octopus.Base.{
  ℕ, ◌+◌, ◌-◌, Bool, true, false, not, Option, none, some, List, [], ◌∷◌, ◌++◌, JsString, js, ◌==◌,
  join, keep, if◌then◌else◌, eqb, ltb, length, drop,
}

pub data DebugLogLevel : Type 0 where
  trace debug info log warn error : DebugLogLevel

pub data DebugLogSource : Type 0 where
  frontend backend : DebugLogSource

pub record DebugLogEntry : Type 0 where
  pub id : ℕ
  pub level : DebugLogLevel
  pub source : DebugLogSource
  pub timestamp : ℕ
  pub message : JsString
  pub target : Option JsString

pub record BackendLogRecord : Type 0 where
  pub level : JsString
  pub target : JsString
  pub message : JsString
  pub timestamp_ms : ℕ

-- An argument of the console: a text, an error, or another value with the text that `JSON.stringify`,
-- or else `String`, makes of it.
pub data LogArgument : Type 0 where
  text : JsString → LogArgument
  thrown : JsString → JsString → LogArgument
  value : JsString → LogArgument

unfoldable pub serialize_arg : LogArgument → JsString
serialize_arg (text s) = s
serialize_arg (thrown name message) = name ++ (js ": " ++ message)
serialize_arg (value s) = s

serialize_args : List LogArgument → List JsString
unfolding serialize_arg
serialize_args [] = []
serialize_args (arg ∷ args) = serialize_arg arg ∷ serialize_args args

abbrev pub max_entries : ℕ
max_entries = 1000

pub record DebugLog : Type 0 where
  pub next_id : ℕ
  pub buffer : List DebugLogEntry
  pub listeners : List ℕ

abbrev pub empty_log : DebugLog
empty_log = record { next_id = 1; buffer = []; listeners = [] }

-- A call of a listener with a snapshot of the buffer.
abbrev pub Notification : Type 0
Notification = ℕ × List DebugLogEntry

notify_all : List DebugLogEntry → List ℕ → List Notification
notify_all snapshot [] = []
notify_all snapshot (listener ∷ listeners) = (listener, snapshot) ∷ notify_all snapshot listeners

unfoldable pub notify : DebugLog → List Notification
unfolding notify_all
notify l = notify_all l.buffer l.listeners

-- The buffer without the entries that are too many, the oldest.
unfoldable pub trim_buffer : List DebugLogEntry → List DebugLogEntry
trim_buffer buffer =
    if ltb max_entries (length buffer) then drop (length buffer - max_entries) buffer else buffer

unfoldable pub push_entry : DebugLogEntry → DebugLog → DebugLog
unfolding trim_buffer
push_entry entry l = record l {
  next_id = l.next_id + 1;
  buffer = trim_buffer (l.buffer ++ entry ∷ []);
}

unfoldable pub log_entry : ℕ → ℕ → DebugLogLevel → List LogArgument → DebugLogEntry
unfolding serialize_args
log_entry id now level args = record {
  id = id;
  level = level;
  source = frontend;
  timestamp = now;
  message = join (js " ") (serialize_args args);
  target = none;
}

backend_level : JsString → DebugLogLevel
backend_level level =
    if level == js "trace"
    then trace
    else if level == js "debug"
    then debug
    else if level == js "info"
    then info
    else if level == js "warn"
    then warn
    else if level == js "error"
    then error
    else log

unfoldable pub backend_entry : (JsString → JsString) → ℕ → ℕ → BackendLogRecord → DebugLogEntry
unfolding backend_level
backend_entry to_lower_case id now r = record {
  id = id;
  level = backend_level (to_lower_case r.level);
  source = backend;
  timestamp = if eqb r.timestamp_ms 0 then now else r.timestamp_ms;
  message = r.message;
  target = some r.target;
}

-- The calls of the module, with the time of the clock where it is read.
pub data LogCall : Type 0 where
  append_log_entry : ℕ → DebugLogLevel → List LogArgument → LogCall
  push_backend_log : ℕ → BackendLogRecord → LogCall
  subscribe_debug_log unsubscribe_debug_log : ℕ → LogCall
  clear_debug_log : LogCall

-- The log after a call, and the notifications that the call makes.
unfoldable pub call_log : (JsString → JsString) → LogCall → DebugLog → DebugLog × List Notification
unfolding push_entry notify log_entry backend_entry
call_log to_lower_case (append_log_entry now level args) l =
    let next = push_entry (log_entry l.next_id now level args) l in (next, notify next)
call_log to_lower_case (push_backend_log now r) l =
    let next = push_entry (backend_entry to_lower_case l.next_id now r) l in (next, notify next)
call_log to_lower_case (subscribe_debug_log listener) l =
    (record l { listeners = l.listeners ++ listener ∷ [] }, [])
call_log to_lower_case (unsubscribe_debug_log listener) l =
    (record l { listeners = keep (λ k. not (eqb k listener)) l.listeners }, [])
call_log to_lower_case clear_debug_log l =
    let next = record l { buffer = [] } in (next, notify next)
