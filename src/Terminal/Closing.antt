-- ===== src/Terminal/Closing.antt =====
-- Closing a terminal session: nothing refers to it afterwards.
use file_octopus.Base.{
  ℕ, zero, suc, ◌-◌, Bool, false, not, Option, none, some, List, [], ◌∷◌, ◌≡◌, refl, inl, inr,
  JsString, is, keep, find, find_index, get_elem?, head?, or_else, or_maybe, All, Bool-cases,
}
use file_octopus.Panel.Types.{PanelId, left, right}
use file_octopus.Terminal.{
  TerminalSession, PaneTerminalChrome, TerminalState, close_session, has_id, id_of, is_in_pane,
  clear_chrome, clear_pane_binding, fallback_session, close_session_state, terminal_reducer,
}

module _ (session_id : JsString) where
  -- The session is another one.
  abbrev pub IsOther : TerminalSession → Type 0
  IsOther session = has_id session_id session ≡ false

  -- The session that may be there is another one.
  abbrev IsOtherIfAny : Option TerminalSession → Type 0
  IsOtherIfAny found = is (id_of found) session_id ≡ false

  others :
      (sessions : List TerminalSession)
      → All IsOther (keep (λ s. not (has_id session_id s)) sessions)
  others [] = tt
  others (s ∷ sessions) = elim (Bool-cases (has_id session_id s)) [
    | inl e ↦ rw e (others sessions)
    | inr e ↦ rw e (e, others sessions)
  ]

  find_other :
      (test : TerminalSession → Bool) (sessions : List TerminalSession)
      → All IsOther sessions
      → IsOtherIfAny (find test sessions)
  find_other test [] a = refl
  find_other test (s ∷ sessions) a = elim (Bool-cases (test s)) [
    | inl e ↦ rw e a.0
    | inr e ↦ rw e (find_other test sessions a.1)
  ]

  get_other :
      (sessions : List TerminalSession) (i : ℕ)
      → All IsOther sessions
      → IsOtherIfAny (or_maybe (get_elem? sessions i) (head? sessions))
  get_other [] i a = refl
  get_other (s ∷ sessions) zero a = a.0
  get_other (s ∷ sessions) (suc i) a = or_other (get_elem? sessions i) (at sessions i a.1)
    where
      or_other :
          (found : Option TerminalSession)
          → IsOtherIfAny found
          → IsOtherIfAny (or_maybe found (some s))
      or_other none h = a.0
      or_other (some t) h = h

      at :
          (sessions : List TerminalSession) (i : ℕ)
          → All IsOther sessions
          → IsOtherIfAny (get_elem? sessions i)
      at [] i a = refl
      at (s ∷ sessions) zero a = a.0
      at (s ∷ sessions) (suc i) a = at sessions i a.1

  clear_chrome_other :
      (p : PanelId) (sessions : List TerminalSession) (chrome : PaneTerminalChrome)
      → All IsOther sessions
      → is (clear_chrome p session_id sessions chrome).session_id session_id ≡ false
  unfolding clear_chrome
  clear_chrome_other p sessions chrome a = elim (Bool-cases (is chrome.session_id session_id)) [
    | inl e ↦ rw e (find_other (is_in_pane p) sessions a)
    | inr e ↦ rw e e
  ]

  -- After a session is closed no session has its identifier, it is not the active session, and no
  -- terminal area shows it.
  pub close_session_forgets :
      (state : TerminalState)
      → All IsOther (terminal_reducer state (close_session session_id)).sessions
        × (is (terminal_reducer state (close_session session_id)).active_session_id session_id
            ≡ false)
        × (is (terminal_reducer state (close_session session_id)).panes.left.session_id session_id
            ≡ false)
        × (is (terminal_reducer state (close_session session_id)).panes.right.session_id session_id
            ≡ false)
  unfolding terminal_reducer close_session_state clear_pane_binding fallback_session
  close_session_forgets state = (
    rest,
    active,
    clear_chrome_other left _ state.panes.left rest,
    clear_chrome_other right _ state.panes.right rest,
  )
    where
      rest : All IsOther (keep (λ s. not (has_id session_id s)) state.sessions)
      rest = others state.sessions

      active : is (close_session_state session_id state).active_session_id session_id ≡ false
      active = elim (Bool-cases (is state.active_session_id session_id)) [
        | inl e ↦ rw e (
            get_other (keep (λ s. not (has_id session_id s)) state.sessions)
              (or_else (find_index (has_id session_id) state.sessions) 0 - 1) rest)
        | inr e ↦ rw e e
      ]
