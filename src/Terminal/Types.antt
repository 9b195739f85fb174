-- ===== src/Terminal/Types.antt =====
-- The types and constants of packages/frontend/src/terminal/terminalSlice.ts.
use file_octopus.Base.{ℕ, Bool, Option, List, JsString, ℤ}
use file_octopus.Panel.Types.{PanelId}

pub data ActivityRailSegment : Type 0 where
  activity history terminal : ActivityRailSegment

pub data TerminalSessionStatus : Type 0 where
  starting running exited : TerminalSessionStatus

-- `PanelId | "rail"`
pub data TerminalPaneId : Type 0 where
  pane : PanelId → TerminalPaneId
  rail : TerminalPaneId

pub data TerminalTransport : Type 0 where
  local ssh : TerminalTransport

-- The profile of a session is passed on and never read: it is left out.
pub record TerminalSession : Type 0 where
  pub id : JsString
  pub uri : JsString
  pub label : JsString
  pub status : TerminalSessionStatus
  pub exit_code : Option ℤ
  pub pane_id : TerminalPaneId
  pub transport : Option TerminalTransport
  pub terminal_profile_id : Option JsString

pub record PaneTerminalChrome : Type 0 where
  pub is_open : Bool
  pub collapsed : Bool
  pub maximized : Bool
  pub split_ratio : ℕ
  pub session_id : Option JsString

pub record PaneChromes : Type 0 where
  pub left : PaneTerminalChrome
  pub right : PaneTerminalChrome

pub record TerminalState : Type 0 where
  pub segment : ActivityRailSegment
  pub sessions : List TerminalSession
  pub active_session_id : Option JsString
  pub panes : PaneChromes

-- In `add_session` the flag is `makeActive`, true where it is left out.
pub data TerminalAction : Type 0 where
  set_segment : ActivityRailSegment → TerminalAction
  add_session : TerminalSession → Bool → TerminalAction
  set_session_status : JsString → TerminalSessionStatus → TerminalAction
  set_session_exited : JsString → Option ℤ → TerminalAction
  rename_session : JsString → JsString → TerminalAction
  switch_session close_session : JsString → TerminalAction
  open_pane_terminal : PanelId → JsString → Option ℕ → TerminalAction
  set_pane_terminal_collapsed set_pane_terminal_maximized : PanelId → Bool → TerminalAction
  set_pane_terminal_split : PanelId → ℕ → TerminalAction
  set_pane_active_session : PanelId → JsString → TerminalAction
  close_pane_terminal : PanelId → TerminalAction
  hydrate_pane_terminal_preferences : ℕ → ℕ → TerminalAction

abbrev pub default_pane_terminal_split : ℕ
default_pane_terminal_split = 350000

abbrev pub min_pane_terminal_split : ℕ
min_pane_terminal_split = 150000

abbrev pub max_pane_terminal_split : ℕ
max_pane_terminal_split = 850000
