-- ===== src/DebugLog/History.antt =====
-- The buffer of the debug log, and the log without a bound that it stands for.
use file_octopus.Base.{
  ℕ, zero, suc, ◌+◌, ◌-◌, ◌≤◌, List, [], ◌∷◌, ◌++◌, ◌≡◌, refl, sym, ap, subst, ◌∙◌, inl, inr,
  JsString, length, length-append, length-drop, drop, take_last, ltb, arith, Bool-cases,
}
use file_octopus.DebugLog.{
  DebugLogEntry, DebugLog, LogCall, append_log_entry, push_backend_log, subscribe_debug_log,
  unsubscribe_debug_log, clear_debug_log, max_entries, empty_log, trim_buffer, push_entry,
  log_entry, backend_entry, call_log,
}

-- All entries since the log was cleared, and the number of the next one.
pub record Recorded : Type 0 where
  pub next_id : ℕ
  pub entries : List DebugLogEntry

-- What a call records, with no bound.
pub record_call : (JsString → JsString) → LogCall → Recorded → Recorded
record_call to_lower_case (append_log_entry now level args) r = record {
  next_id = r.next_id + 1;
  entries = r.entries ++ log_entry r.next_id now level args ∷ [];
}
record_call to_lower_case (push_backend_log now b) r = record {
  next_id = r.next_id + 1;
  entries = r.entries ++ backend_entry to_lower_case r.next_id now b ∷ [];
}
record_call to_lower_case (subscribe_debug_log listener) r = r
record_call to_lower_case (unsubscribe_debug_log listener) r = r
record_call to_lower_case clear_debug_log r = record r { entries = [] }

pub record_calls : (JsString → JsString) → List LogCall → Recorded → Recorded
record_calls to_lower_case [] r = r
record_calls to_lower_case (call ∷ calls) r =
    record_calls to_lower_case calls (record_call to_lower_case call r)

unfoldable pub call_all : (JsString → JsString) → List LogCall → DebugLog → DebugLog
call_all to_lower_case [] l = l
call_all to_lower_case (call ∷ calls) l =
    call_all to_lower_case calls (call_log to_lower_case call l).0

trim-take_last : (xs : List DebugLogEntry) → trim_buffer xs ≡ take_last max_entries xs
unfolding trim_buffer take_last
trim-take_last xs = elim (Bool-cases (ltb max_entries (length xs))) [
  | inl more ↦ rw more refl
  | inr fits ↦ let e : length xs - max_entries ≡ 0 = ground (arith, fits) in rw (fits, e) refl
]

drop-append :
    (n : ℕ) (xs ys : List DebugLogEntry) → n ≤ length xs → drop n (xs ++ ys) ≡ drop n xs ++ ys
drop-append zero xs ys h = refl
drop-append (suc n) [] ys h = absurd (omega arith)
drop-append (suc n) (x ∷ xs) ys h = drop-append n xs ys (omega arith)

drop-nil : (n : ℕ) → drop {A = DebugLogEntry} n [] ≡ []
drop-nil zero = refl
drop-nil (suc n) = refl

drop-drop : (m n : ℕ) (xs : List DebugLogEntry) → drop m (drop n xs) ≡ drop (n + m) xs
drop-drop m zero xs = let e : 0 + m ≡ m = omega arith in rw e refl
drop-drop m (suc n) [] = rw (drop-nil m, drop-nil (suc n + m)) refl
drop-drop m (suc n) (x ∷ xs) =
    let e : suc n + m ≡ suc (n + m) = omega arith in rw e (drop-drop m n xs)

-- What is forgotten before an entry is added makes no difference.
take_last-take_last :
    (n : ℕ) (xs : List DebugLogEntry) (x : DebugLogEntry)
    → take_last n (take_last n xs ++ x ∷ []) ≡ take_last n (xs ++ x ∷ [])
unfolding take_last
take_last-take_last n xs x =
    let k = length xs - n in
    let le : k ≤ length xs = omega arith in
    let kept = sym (drop-append k xs (x ∷ []) le) in
    let size = length-append xs (x ∷ []) in
    let left = length-drop k (xs ++ x ∷ []) in
    let e : k + (length (drop k (xs ++ x ∷ [])) - n) ≡ length (xs ++ x ∷ []) - n =
      omega (arith, size, left) in
    rw (kept, drop-drop (length (drop k (xs ++ x ∷ [])) - n) k (xs ++ x ∷ []), e) refl

-- The buffer is the end of the record, and both count alike.
record Shows (l : DebugLog) (r : Recorded) : Type 0 where
  counted : l.next_id ≡ r.next_id
  shown : l.buffer ≡ take_last max_entries r.entries

push_entry-Shows :
    (l : DebugLog) (r : Recorded) (entry : DebugLogEntry)
    → Shows l r
    → Shows
        (push_entry entry l)
        (record { next_id = r.next_id + 1; entries = r.entries ++ entry ∷ [] })
unfolding push_entry
push_entry-Shows l r entry s = record {
  counted = omega (arith, s.counted);
  shown =
      trim-take_last (l.buffer ++ entry ∷ [])
      ∙ (ap (λ xs. take_last max_entries (xs ++ entry ∷ [])) s.shown
          ∙ take_last-take_last max_entries r.entries entry);
}

call_log-Shows :
    (to_lower_case : JsString → JsString) (call : LogCall) (l : DebugLog) (r : Recorded)
    → Shows l r
    → Shows (call_log to_lower_case call l).0 (record_call to_lower_case call r)
unfolding call_log record_call take_last
call_log-Shows to_lower_case (append_log_entry now level args) l r s =
    subst
      (λ id. Shows (push_entry (log_entry id now level args) l) (record {
        next_id = r.next_id + 1;
        entries = r.entries ++ log_entry r.next_id now level args ∷ [];
      }))
      (sym s.counted) (push_entry-Shows l r (log_entry r.next_id now level args) s)
call_log-Shows to_lower_case (push_backend_log now b) l r s =
    subst
      (λ id. Shows (push_entry (backend_entry to_lower_case id now b) l) (record {
        next_id = r.next_id + 1;
        entries = r.entries ++ backend_entry to_lower_case r.next_id now b ∷ [];
      }))
      (sym s.counted) (push_entry-Shows l r (backend_entry to_lower_case r.next_id now b) s)
call_log-Shows to_lower_case (subscribe_debug_log listener) l r s = record {
  counted = s.counted;
  shown = s.shown;
}
call_log-Shows to_lower_case (unsubscribe_debug_log listener) l r s = record {
  counted = s.counted;
  shown = s.shown;
}
call_log-Shows to_lower_case clear_debug_log l r s = record { counted = s.counted; shown = refl }

call_all-Shows :
    (to_lower_case : JsString → JsString) (calls : List LogCall) (l : DebugLog) (r : Recorded)
    → Shows l r
    → Shows (call_all to_lower_case calls l) (record_calls to_lower_case calls r)
unfolding call_all record_calls
call_all-Shows to_lower_case [] l r s = s
call_all-Shows to_lower_case (call ∷ calls) l r s =
    call_all-Shows to_lower_case calls (call_log to_lower_case call l).0
      (record_call to_lower_case call r) (call_log-Shows to_lower_case call l r s)

-- After any calls on the empty log, the buffer holds the last 1000 of the entries that came since the
-- log was cleared, or all if there are fewer, in their order and under the numbers of their coming.
pub buffer-call_all :
    (to_lower_case : JsString → JsString) (calls : List LogCall)
    → (call_all to_lower_case calls empty_log).buffer
      ≡ take_last max_entries
          (record_calls to_lower_case calls (record { next_id = 1; entries = [] })).entries
unfolding take_last
buffer-call_all to_lower_case calls =
    (call_all-Shows to_lower_case calls empty_log (record { next_id = 1; entries = [] })
      (record { counted = refl; shown = refl })).shown
