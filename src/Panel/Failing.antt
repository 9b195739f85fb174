-- ===== src/Panel/Failing.antt =====
-- A navigation whose listing the backend refuses, carried out by the panel store.
use file_octopus.Base.{
  ℕ, Bool, true, false, Option, none, some, List, [], ◌∷◌, ◌++◌, ◌≡◌, refl, sym, JsString, eq_refl,
  if◌then◌else◌, ◌>>=◌,
}
use file_octopus.Uri.{is_network_uri, is_supported_navigation_uri}
use file_octopus.Panel.Entry.{IpcError}
use file_octopus.Panel.Host.{Host, World}
use file_octopus.Panel.LoadState.{load_state_from_batch_error}
use file_octopus.Panel.Navigation.{normalize_local_input, navigate_tab}
use file_octopus.Panel.Requests.{start_request_tab, request_error_tab}
use file_octopus.Panel.Stale.{active_request-navigate_tab}
use file_octopus.Panel.Types.{
  PanelId, NavigateFlags, PanelTabState, FileOctopusState, PanelAction, panel_of,
}
use file_octopus.Panel.Update.{active_tab, put_tab}
use file_octopus.Panel.Valid.Reducer.{run_actions}
use file_octopus.Panel.Controller.{
  failed, ListStartRequest, visit, hidden_of, load, Backend, Step, dispatched, NavigateOptions,
  flags_of, navigate_panel, start_listing, after_list_start, pane_error,
}
use file_octopus.Panel.Awaiting.{
  NotAwaited, IsFresh, awaited-found, put_tab-IsFresh, active_id, lookup-put_tab, active_id-put_tab,
  active_tab-put_tab, active_tab-put_known, navigate-step, start_request-step, pane_error-step,
}

-- The actions among the steps, all at one time.
pub actions_in : ℕ → List Step → List (ℕ × PanelAction)
actions_in now [] = []
actions_in now (dispatched action ∷ steps) = (now, action) ∷ actions_in now steps
actions_in now (Step.search_reset p ∷ steps) = actions_in now steps
actions_in now (Step.terminal_cwd_synced p uri ∷ steps) = actions_in now steps
actions_in now (Step.visit_recorded uri label ∷ steps) = actions_in now steps

-- The tab shows the error, and waits for nothing.
pub record ShowsError (e : IpcError) (tab : PanelTabState) : Type 0 where
  load_state : tab.load_state ≡ load_state_from_batch_error (some e)
  error : tab.error ≡ some e.message
  error_code : tab.error_code ≡ some e.code
  request : tab.active_request_id ≡ none
  session : tab.session_id ≡ none

-- The three actions of a navigation that fails.
failing_run :
    (h : Host) (w : World) (s : FileOctopusState) (p : PanelId) (uri request_id : JsString)
    (flags : NavigateFlags) (background_refresh : Bool) (now : ℕ) (e : IpcError)
    (tab : PanelTabState)
    → active_tab (panel_of s.panels p) ≡ some tab
    → IsFresh request_id s
    → (t : FileOctopusState × World) × (run_actions h w s (
          (now, PanelAction.navigate p uri flags)
          ∷ (now, PanelAction.start_request p request_id background_refresh)
          ∷ (
            now,
            PanelAction.set_pane_error p
                (some request_id)
                (some e.message)
                (some e.code)
                (some (load_state_from_batch_error (some e))),
          )
          ∷ [])
        ≡ some t)
      × (shown : PanelTabState) × (active_tab (panel_of t.0.panels p) ≡ some shown)
      × ShowsError e shown
unfolding run_actions start_request_tab request_error_tab
failing_run h w s p uri request_id flags background_refresh now e tab there f =
    let w1 = record w { now = now } in
    let a = active_id s p in
    let tab1 = navigate_tab uri flags tab in
    let s1 = put_tab s p a tab1 in
    let tab2 = start_request_tab request_id background_refresh tab1 in
    let there1 = active_tab-put_tab s p tab1 in
    let idle : NotAwaited request_id tab1 = rw (active_request-navigate_tab uri flags tab) refl in
    let f1 = put_tab-IsFresh s p request_id a tab1 f idle in
    let a1 = active_id s1 p in
    let s2 = put_tab s1 p a1 tab2 in
    let found = awaited-found s1 p request_id a1 tab2 f1 (eq_refl request_id) in
    let tab3 =
      request_error_tab (some e.message) (some e.code) (some (load_state_from_batch_error (some e)))
        tab2 in
    let first = navigate-step h w1 s p uri flags tab there in
    let second = start_request-step h w1 s1 p request_id background_refresh tab1 there1 in
    let third =
      pane_error-step h w1 s2 p request_id a1 e (load_state_from_batch_error (some e)) tab2 f.full
        found (lookup-put_tab s1 p a1 tab2) in
    let last : active_tab (panel_of (put_tab s2 p a1 tab3).panels p) ≡ some tab3 =
      active_tab-put_known s2 p a1 tab3 (sym (active_id-put_tab s1 p a1 tab2)) in
    (
      (put_tab s2 p a1 tab3, w1),
      rw (first, second, third) refl,
      tab3,
      last,
      record { load_state = refl; error = refl; error_code = refl; request = refl; session = refl },
    )

-- The dispatched actions do not depend on whether the navigation is a soft refresh.
actions_in-navigation :
    (b : Backend) (p : PanelId) (uri : JsString) (now : ℕ) (soft : Bool)
    (first second third : PanelAction)
    → is_network_uri uri ≡ false
    → actions_in now (
        dispatched first
        ∷ ((if soft then [] else Step.search_reset p ∷ [])
            ++ ((dispatched second ∷ dispatched third ∷ [])
                ++ (if soft then [] else visit b p uri))))
      ≡ (now, first) ∷ (now, second) ∷ (now, third) ∷ []
unfolding actions_in visit
actions_in-navigation b p uri now true first second third plain = refl
actions_in-navigation b p uri now false first second third plain = rw plain refl

hidden_of-some :
    (include_hidden : Option Bool) (tab : PanelTabState)
    → (v : Bool) × (hidden_of include_hidden (some tab) ≡ some v)
unfolding hidden_of
hidden_of-some none tab = (tab.show_hidden, refl)
hidden_of-some (some v) tab = (v, refl)

-- A navigation of a panel with an active tab, to a supported address outside of the network
-- neighbourhood, with a request identifier that is not empty or padded and that no tab waits for: if the
-- backend refuses every listing with an error, then the panel store carries the actions of the
-- navigation out, when no other comes between, and the active tab shows the error and its load state,
-- and waits for no request and no session.
pub failed_navigation :
    (b : Backend) (h : Host) (w : World) (s : FileOctopusState) (p : PanelId)
    (input request_id : JsString) (options : NavigateOptions) (now : ℕ) (e : IpcError)
    (tab : PanelTabState)
    → active_tab (panel_of s.panels p) ≡ some tab
    → IsFresh request_id s
    → is_supported_navigation_uri (normalize_local_input input) ≡ true
    → is_network_uri (normalize_local_input input) ≡ false
    → ((r : ListStartRequest) → b.list_start r ≡ failed e)
    → (t : FileOctopusState × World) × ((do
      steps ← navigate_panel b request_id s p input options
      run_actions h w s (actions_in now steps))
        ≡ some t)
      × (shown : PanelTabState) × (active_tab (panel_of t.0.panels p) ≡ some shown)
      × ShowsError e shown
unfolding navigate_panel load start_listing after_list_start pane_error
failed_navigation b h w s p input request_id options now e tab there f supported plain fails =
    let uri = normalize_local_input input in
    let (v, hidden) = hidden_of-some options.include_hidden tab in
    let (t, ran, shown, found, error) =
      failing_run h w s p uri request_id (flags_of options) options.background_refresh now e tab
        there f in
    (
      t,
      rw
          (
            supported,
            plain,
            there,
            hidden,
            fails (record {
              uri = uri;
              request_id = request_id;
              panel_id = p;
              batch_size = 256;
              include_hidden = v;
            }),
            actions_in-navigation b p uri now options.soft_refresh
                (PanelAction.navigate p uri (flags_of options))
                (PanelAction.start_request p request_id options.background_refresh)
                (PanelAction.set_pane_error p (some request_id) (some e.message) (some e.code)
                  (some (load_state_from_batch_error (some e))))
                plain,
          )
          ran,
      shown,
      found,
      error,
    )
