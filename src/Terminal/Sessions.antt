-- ===== src/Terminal/Sessions.antt =====
-- What the terminal reducer keeps: bounds of the split ratios, and no pane is collapsed and maximized
-- at once; and closing a session leaves nothing that refers to it.
use file_octopus.Base.{
  ◌≤◌, false, ◌&&◌, Option, none, some, List, ◌≡◌, refl, inl, inr, JsString, is, find, arith,
  Bool-cases,
}
use file_octopus.Panel.Types.{PanelId, left, right}
use file_octopus.Terminal.{
  TerminalPaneId, rail, pane, TerminalSession, PaneTerminalChrome, PaneChromes, TerminalState,
  TerminalAction, set_segment, add_session, set_session_status, set_session_exited, rename_session,
  switch_session, close_session, open_pane_terminal, set_pane_terminal_collapsed,
  set_pane_terminal_maximized, set_pane_terminal_split, set_pane_active_session,
  close_pane_terminal, hydrate_pane_terminal_preferences, min_pane_terminal_split,
  max_pane_terminal_split, show_session, chrome_of, set_chrome, has_id, clear_chrome,
  clear_pane_binding, update_session, add_session_state, switch_panes, switch_session_state,
  close_session_state, terminal_reducer, bind_panes,
}

-- A terminal area whose ratio is in its bounds, and which is not collapsed and maximized at once.
pub record ChromeIsValid (chrome : PaneTerminalChrome) : Type 0 where
  pub low : min_pane_terminal_split ≤ chrome.split_ratio
  pub high : chrome.split_ratio ≤ max_pane_terminal_split
  pub apart : (chrome.collapsed && chrome.maximized) ≡ false

pub record TerminalIsValid (state : TerminalState) : Type 0 where
  pub left : ChromeIsValid state.panes.left
  pub right : ChromeIsValid state.panes.right

chrome_of-ChromeIsValid :
    (state : TerminalState) (p : PanelId)
    → TerminalIsValid state
    → ChromeIsValid (chrome_of state.panes p)
chrome_of-ChromeIsValid state left v = v.left
chrome_of-ChromeIsValid state right v = v.right

set_chrome-TerminalIsValid :
    (state next : TerminalState) (p : PanelId) (chrome : PaneTerminalChrome)
    → TerminalIsValid state
    → ChromeIsValid chrome
    → next.panes ≡ set_chrome state.panes p chrome
    → TerminalIsValid next
set_chrome-TerminalIsValid state next left chrome v c e = record {
  left = rw e c;
  right = rw e v.right;
}
set_chrome-TerminalIsValid state next right chrome v c e = record {
  left = rw e v.left;
  right = rw e c;
}

-- The same chrome with the flags of an area that is on show.
shown-ChromeIsValid :
    (chrome next : PaneTerminalChrome)
    → ChromeIsValid chrome
    → next.split_ratio ≡ chrome.split_ratio
    → next.collapsed ≡ false
    → ChromeIsValid next
shown-ChromeIsValid chrome next c e f = record {
  low = rw e c.low;
  high = rw e c.high;
  apart = rw f refl;
}

clear_chrome-ChromeIsValid :
    (p : PanelId) (session_id : JsString) (sessions : List TerminalSession)
    (chrome : PaneTerminalChrome)
    → ChromeIsValid chrome
    → ChromeIsValid (clear_chrome p session_id sessions chrome)
unfolding clear_chrome
clear_chrome-ChromeIsValid p session_id sessions chrome c =
    elim (Bool-cases (is chrome.session_id session_id)) [
      | inl e ↦ rw e (record { low = c.low; high = c.high; apart = refl })
      | inr e ↦ rw e c
    ]

switch_panes-TerminalIsValid :
    (state next : TerminalState) (session : Option TerminalSession)
    → TerminalIsValid state
    → next.panes ≡ switch_panes session state.panes
    → TerminalIsValid next
switch_panes-TerminalIsValid state next none v e = record {
  left = rw e v.left;
  right = rw e v.right;
}
switch_panes-TerminalIsValid state next (some session) v e = go session.pane_id e
  where
    go :
        (id : TerminalPaneId)
        → next.panes ≡ (elim id as (λ _. PaneChromes) [
          | rail ↦ state.panes
          | pane p ↦ set_chrome state.panes p (show_session session.id (chrome_of state.panes p))
        ])
        → TerminalIsValid next
    go rail f = record { left = rw f v.left; right = rw f v.right }
    go (pane p) f =
        set_chrome-TerminalIsValid state next p _ v
          (shown-ChromeIsValid _ _ (chrome_of-ChromeIsValid state p v) refl refl) f

bind_panes-TerminalIsValid :
    (state next : TerminalState) (session : TerminalSession) (id : TerminalPaneId)
    → TerminalIsValid state
    → next.panes ≡ bind_panes session id state.panes
    → TerminalIsValid next
bind_panes-TerminalIsValid state next session rail v e = record {
  left = rw e v.left;
  right = rw e v.right;
}
bind_panes-TerminalIsValid state next session (pane p) v e =
    set_chrome-TerminalIsValid state next p _ v
      (shown-ChromeIsValid _ _ (chrome_of-ChromeIsValid state p v) refl refl) e

-- Each action keeps the split ratios between 0.15 and 0.85, and never leaves a terminal area both
-- collapsed and maximized.
pub terminal_reducer-TerminalIsValid :
    (state : TerminalState) (action : TerminalAction)
    → TerminalIsValid state
    → TerminalIsValid (terminal_reducer state action)
unfolding terminal_reducer add_session_state switch_session_state close_session_state
    clear_pane_binding update_session
terminal_reducer-TerminalIsValid state (set_segment segment) v = record {
  left = v.left;
  right = v.right;
}
terminal_reducer-TerminalIsValid state (add_session session make_active) v =
    bind_panes-TerminalIsValid state _ session session.pane_id v refl
terminal_reducer-TerminalIsValid state (set_session_status id status) v = record {
  left = v.left;
  right = v.right;
}
terminal_reducer-TerminalIsValid state (set_session_exited id exit_code) v = record {
  left = v.left;
  right = v.right;
}
terminal_reducer-TerminalIsValid state (rename_session id label) v = record {
  left = v.left;
  right = v.right;
}
terminal_reducer-TerminalIsValid state (switch_session id) v =
    switch_panes-TerminalIsValid state _ (find (has_id id) state.sessions) v refl
terminal_reducer-TerminalIsValid state (close_session id) v = record {
  left = clear_chrome-ChromeIsValid left id _ state.panes.left v.left;
  right = clear_chrome-ChromeIsValid right id _ state.panes.right v.right;
}
terminal_reducer-TerminalIsValid state (open_pane_terminal p id split_ratio) v =
    set_chrome-TerminalIsValid state _ p _ v
      (record { low = omega arith; high = omega arith; apart = refl }) refl
terminal_reducer-TerminalIsValid state (set_pane_terminal_collapsed p collapsed) v =
    let c = chrome_of-ChromeIsValid state p v in
    set_chrome-TerminalIsValid state _ p _ v
      (record { low = c.low; high = c.high; apart = ground arith }) refl
terminal_reducer-TerminalIsValid state (set_pane_terminal_maximized p maximized) v =
    let c = chrome_of-ChromeIsValid state p v in
    set_chrome-TerminalIsValid state _ p _ v
      (record { low = c.low; high = c.high; apart = ground arith }) refl
terminal_reducer-TerminalIsValid state (set_pane_terminal_split p ratio) v =
    let c = chrome_of-ChromeIsValid state p v in
    set_chrome-TerminalIsValid state _ p _ v
      (record { low = omega arith; high = omega arith; apart = c.apart }) refl
terminal_reducer-TerminalIsValid state (set_pane_active_session p id) v =
    set_chrome-TerminalIsValid state _ p _ v
      (shown-ChromeIsValid _ _ (chrome_of-ChromeIsValid state p v) refl refl) refl
terminal_reducer-TerminalIsValid state (close_pane_terminal p) v =
    set_chrome-TerminalIsValid state _ p _ v
      (shown-ChromeIsValid _ _ (chrome_of-ChromeIsValid state p v) refl refl) refl
terminal_reducer-TerminalIsValid state (hydrate_pane_terminal_preferences l r) v = record {
  left = record { low = omega arith; high = omega arith; apart = v.left.apart };
  right = record { low = omega arith; high = omega arith; apart = v.right.apart };
}
