-- ===== src/Terminal/Runs.antt =====
-- The theorems on terminals at concrete states.
use file_octopus.Base.{true, false, none, some, ◌≡◌, refl, js, is, All, arith}
use file_octopus.Panel.Types.{left}
use file_octopus.Terminal.{
  pane, running, local, TerminalSession, TerminalState, close_session, open_pane_terminal,
  create_initial_terminal_state, add_session_state, terminal_reducer,
}
use file_octopus.Terminal.Sessions.{TerminalIsValid, terminal_reducer-TerminalIsValid}
use file_octopus.Terminal.Closing.{IsOther, close_session_forgets}

abbrev shell : TerminalSession
shell = record {
  id = js "one";
  uri = js "local:///m";
  label = js "m";
  status = running;
  exit_code = none;
  pane_id = pane left;
  transport = some local;
  terminal_profile_id = none;
}

-- Two sessions in the left pane, the second one active.
abbrev two_shells : TerminalState
two_shells =
    add_session_state (record shell { id = js "two" }) true
      (add_session_state shell true create_initial_terminal_state)

initial-TerminalIsValid : TerminalIsValid create_initial_terminal_state
initial-TerminalIsValid = record {
  left = record { low = omega arith; high = omega arith; apart = refl };
  right = record { low = omega arith; high = omega arith; apart = refl };
}

terminal_reducer-TerminalIsValid_example : TerminalIsValid (
    terminal_reducer create_initial_terminal_state
      (open_pane_terminal left (js "one") (some 990000)))
terminal_reducer-TerminalIsValid_example =
    terminal_reducer-TerminalIsValid create_initial_terminal_state
      (open_pane_terminal left (js "one") (some 990000)) initial-TerminalIsValid

close_session_forgets_example :
    All (IsOther (js "two")) (terminal_reducer two_shells (close_session (js "two"))).sessions
    × (is (terminal_reducer two_shells (close_session (js "two"))).active_session_id (js "two")
        ≡ false)
    × (is (terminal_reducer two_shells (close_session (js "two"))).panes.left.session_id (js "two")
        ≡ false)
    × (is (terminal_reducer two_shells (close_session (js "two"))).panes.right.session_id (js "two")
        ≡ false)
close_session_forgets_example = close_session_forgets (js "two") two_shells
