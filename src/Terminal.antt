-- ===== src/Terminal.antt =====
-- packages/frontend/src/terminal/terminalSlice.ts: terminal sessions, and the terminal area of each
-- pane. A split ratio is a number of millionths; NaN is left out.
pub mod Sessions
pub mod Closing
pub mod Input
pub mod Quoting
mod Runs
mod Shells
mod Types
unfoldable pub use Types.*
use file_octopus.Base.{
  ℕ, ◌+◌, ◌-◌, min, max, Bool, true, false, not, ◌&&◌, Option, none, some, List, [], ◌∷◌, ◌++◌, map,
  JsString, js, ◌==◌, is, keep, find, find_index, get_elem?, head?, get_last?, any, split,
  non_empty, length, eqb, drop_last, or_else, or_maybe, if◌then◌else◌,
}
use file_octopus.Panel.Types.{PanelId, left, right}

abbrev pub create_pane_terminal_chrome : PaneTerminalChrome
create_pane_terminal_chrome = record {
  is_open = false;
  collapsed = false;
  maximized = false;
  split_ratio = default_pane_terminal_split;
  session_id = none;
}

abbrev pub create_initial_terminal_state : TerminalState
create_initial_terminal_state = record {
  segment = activity;
  sessions = [];
  active_session_id = none;
  panes = record { left = create_pane_terminal_chrome; right = create_pane_terminal_chrome };
}

abbrev pub clamp_pane_split : ℕ → ℕ
clamp_pane_split ratio = min max_pane_terminal_split (max min_pane_terminal_split ratio)

abbrev pub chrome_of : PaneChromes → PanelId → PaneTerminalChrome
chrome_of ps left = ps.left
chrome_of ps right = ps.right

abbrev pub set_chrome : PaneChromes → PanelId → PaneTerminalChrome → PaneChromes
set_chrome ps left c = record ps { left = c }
set_chrome ps right c = record ps { right = c }

-- `{ ...state, pane: { ...state.pane, [panelId]: f(state.pane[panelId]) } }`
abbrev pub update_chrome :
    PanelId → (PaneTerminalChrome → PaneTerminalChrome) → TerminalState → TerminalState
update_chrome p f state = record state {
  panes = set_chrome state.panes p (f (chrome_of state.panes p));
}

abbrev pub is_in_pane : PanelId → TerminalSession → Bool
is_in_pane p session = elim session.pane_id [
  | rail ↦ false
  | pane q ↦ (elim q [
    | left ↦ (elim p [ left ↦ true | right ↦ false ])
    | right ↦ (elim p [ left ↦ false | right ↦ true ])
  ])
]

abbrev pub is_on_rail : TerminalSession → Bool
is_on_rail session = elim session.pane_id [ rail ↦ true | pane q ↦ false ]

abbrev pub has_id : JsString → TerminalSession → Bool
has_id session_id session = session.id == session_id

-- `session?.id ?? null`
abbrev pub id_of : Option TerminalSession → Option JsString
id_of none = none
id_of (some session) = some session.id

abbrev is_found : Option TerminalSession → Bool
is_found none = false
is_found (some _) = true

-- One round of the loop over the panes.
unfoldable pub clear_chrome :
    PanelId → JsString → List TerminalSession → PaneTerminalChrome → PaneTerminalChrome
clear_chrome p session_id remaining_sessions chrome =
    let sibling = find (is_in_pane p) remaining_sessions in
    if is chrome.session_id session_id
    then record chrome {
      is_open = is_found sibling;
      collapsed = false;
      maximized = false;
      session_id = id_of sibling;
    }
    else chrome

unfoldable pub clear_pane_binding : PaneChromes → JsString → List TerminalSession → PaneChromes
clear_pane_binding ps session_id remaining_sessions = record {
  left = clear_chrome left session_id remaining_sessions ps.left;
  right = clear_chrome right session_id remaining_sessions ps.right;
}

-- The update of the sessions that have the identifier.
unfoldable pub update_session :
    JsString → (TerminalSession → TerminalSession) → TerminalState → TerminalState
update_session session_id f state = record state {
  sessions =
      map (λ (session : TerminalSession). if session.id == session_id then f session else session)
        state.sessions;
}

abbrev pub bind_added : TerminalSession → PaneTerminalChrome → PaneTerminalChrome
bind_added session chrome = record chrome {
  is_open = true;
  collapsed = false;
  maximized = false;
  session_id = some session.id;
}

abbrev pub bind_panes : TerminalSession → TerminalPaneId → PaneChromes → PaneChromes
bind_panes session rail ps = ps
bind_panes session (pane p) ps = set_chrome ps p (bind_added session (chrome_of ps p))

unfoldable pub add_session_state : TerminalSession → Bool → TerminalState → TerminalState
add_session_state session make_active state =
    let added = record session { transport = some (or_else session.transport local) } in
    record state {
      sessions = state.sessions ++ added ∷ [];
      panes = bind_panes session session.pane_id state.panes;
      active_session_id = if make_active then some session.id else state.active_session_id;
      segment = if is_on_rail session then terminal else state.segment;
    }

-- The chrome of a pane whose shown session is chosen.
abbrev pub show_session : JsString → PaneTerminalChrome → PaneTerminalChrome
show_session session_id chrome = record chrome {
  is_open = true;
  collapsed = false;
  session_id = some session_id;
}

abbrev pub switch_panes : Option TerminalSession → PaneChromes → PaneChromes
switch_panes none ps = ps
switch_panes (some session) ps = elim session.pane_id [
  | rail ↦ ps
  | pane p ↦ set_chrome ps p (show_session session.id (chrome_of ps p))
]

abbrev is_rail_session : Option TerminalSession → Bool
is_rail_session none = false
is_rail_session (some session) = is_on_rail session

unfoldable pub switch_session_state : JsString → TerminalState → TerminalState
switch_session_state session_id state =
    let session = find (has_id session_id) state.sessions in
    record state {
      active_session_id = some session_id;
      panes = switch_panes session state.panes;
      segment = if is_rail_session session then terminal else state.segment;
    }

-- `sessions[Math.max(0, index - 1)] ?? sessions[0] ?? null`; an index of -1 gives 0.
unfoldable pub fallback_session : Option ℕ → List TerminalSession → Option TerminalSession
fallback_session index sessions =
    or_maybe (get_elem? sessions (or_else index 0 - 1)) (head? sessions)

abbrev is_terminal_segment : ActivityRailSegment → Bool
is_terminal_segment terminal = true
is_terminal_segment activity = false
is_terminal_segment history = false

unfoldable pub close_session_state : JsString → TerminalState → TerminalState
close_session_state session_id state =
    let sessions = keep (λ session. not (has_id session_id session)) state.sessions in
    record state {
      sessions = sessions;
      active_session_id =
          if is state.active_session_id session_id
          then id_of (fallback_session (find_index (has_id session_id) state.sessions) sessions)
          else state.active_session_id;
      panes = clear_pane_binding state.panes session_id sessions;
      segment =
          if eqb (length sessions) 0 && is_terminal_segment state.segment
          then activity
          else state.segment;
    }

unfoldable pub terminal_reducer : TerminalState → TerminalAction → TerminalState
terminal_reducer state (set_segment segment) = record state { segment = segment }
terminal_reducer state (add_session session make_active) =
    add_session_state session make_active state
terminal_reducer state (set_session_status session_id status) =
    update_session session_id (λ session. record session { status = status }) state
terminal_reducer state (set_session_exited session_id exit_code) =
    update_session session_id (λ session. record session { status = exited; exit_code = exit_code })
      state
terminal_reducer state (rename_session session_id label) =
    update_session session_id (λ session. record session { label = label }) state
terminal_reducer state (switch_session session_id) = switch_session_state session_id state
terminal_reducer state (close_session session_id) = close_session_state session_id state
terminal_reducer state (open_pane_terminal p session_id split_ratio) =
    update_chrome p
      (λ (chrome : PaneTerminalChrome). record chrome {
        is_open = true;
        collapsed = false;
        maximized = false;
        session_id = some session_id;
        split_ratio = clamp_pane_split (or_else split_ratio chrome.split_ratio);
      })
      (record state { active_session_id = some session_id })
terminal_reducer state (set_pane_terminal_collapsed p collapsed) =
    update_chrome p
      (λ (chrome : PaneTerminalChrome). record chrome {
        collapsed = collapsed;
        maximized = if collapsed then false else chrome.maximized;
      })
      state
terminal_reducer state (set_pane_terminal_maximized p maximized) =
    update_chrome p
      (λ (chrome : PaneTerminalChrome). record chrome {
        maximized = maximized;
        collapsed = if maximized then false else chrome.collapsed;
      })
      state
terminal_reducer state (set_pane_terminal_split p split_ratio) =
    update_chrome p
      (λ (chrome : PaneTerminalChrome). record chrome {
        split_ratio = clamp_pane_split split_ratio;
      })
      state
terminal_reducer state (set_pane_active_session p session_id) =
    update_chrome p (show_session session_id) (record state { active_session_id = some session_id })
terminal_reducer state (close_pane_terminal p) =
    update_chrome p
      (λ (chrome : PaneTerminalChrome). record chrome {
        is_open = false;
        collapsed = false;
        maximized = false;
        session_id = none;
      })
      state
terminal_reducer state (hydrate_pane_terminal_preferences left_height right_height) =
    update_chrome right
      (λ (chrome : PaneTerminalChrome). record chrome {
        split_ratio = clamp_pane_split right_height;
      })
      (update_chrome left
        (λ (chrome : PaneTerminalChrome). record chrome {
          split_ratio = clamp_pane_split left_height;
        })
        state)

abbrev is_exited : TerminalSessionStatus → Bool
is_exited exited = true
is_exited starting = false
is_exited running = false

unfoldable pub sessions_for_activity_rail : List TerminalSession → List TerminalSession
sessions_for_activity_rail = keep is_on_rail

unfoldable pub sessions_for_pane : List TerminalSession → PanelId → List TerminalSession
sessions_for_pane sessions p = keep (is_in_pane p) sessions

unfoldable pub has_running_pane_sessions : List TerminalSession → PanelId → Bool
has_running_pane_sessions sessions p =
    any (λ (session : TerminalSession). not (is_exited session.status))
      (sessions_for_pane sessions p)

abbrev ends_with_slash : Option ℕ → Bool
ends_with_slash none = false
ends_with_slash (some c) = eqb c b'/'

-- `uri.replace(/\/$/, "")`
strip_slash : JsString → JsString
strip_slash uri = if ends_with_slash (get_last? uri) then drop_last uri else uri

unfoldable pub tab_label_for_uri : JsString → JsString
unfolding strip_slash
tab_label_for_uri uri = or_else (get_last? (non_empty (split b'/' (strip_slash uri)))) (js "Shell")
