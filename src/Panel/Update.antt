-- ===== src/Panel/Update.antt =====
-- The updates of one tab, and the search for the tab that an event is for
-- (packages/frontend/src/panelStore.ts). An update of a missing active tab is an
-- exception, also where the source, which does not read the tab, would store the new fields alone.
use file_octopus.Base.{
  Bool, ◌||◌, Option, none, some, JsString, is, truthy, trim, lookup, insert, find, if◌then◌else◌,
  ◌>>=◌,
}
use file_octopus.Panel.Types.{
  PanelId, left, right, PanelTabState, PanelState, FileOctopusState, panel_of, set_panel, is_panel,
}

unfoldable pub active_tab : PanelState → Option PanelTabState
active_tab panel = lookup panel.active_tab_id panel.tabs

-- `{ ...state, panels: { ...state.panels, [panelId]: { ...panel, tabs: { ...panel.tabs, [tabId]: tab } } } }`
unfoldable pub put_tab : FileOctopusState → PanelId → JsString → PanelTabState → FileOctopusState
put_tab state panel_id tab_id tab =
    let panel = panel_of state.panels panel_id in
    record state {
      panels =
          set_panel state.panels panel_id (record panel { tabs = insert tab_id tab panel.tabs });
    }

-- `update` may throw.
unfoldable pub update_panel :
    FileOctopusState → PanelId → (PanelTabState → Option PanelTabState) → Option FileOctopusState
update_panel state panel_id update = do
  tab ← active_tab (panel_of state.panels panel_id)
  next ← update tab
  some (put_tab state panel_id (panel_of state.panels panel_id).active_tab_id next)

unfoldable pub put_existing :
    FileOctopusState
    → PanelId
    → JsString
    → (PanelTabState → PanelTabState)
    → Option PanelTabState
    → FileOctopusState
put_existing state panel_id tab_id update none = state
put_existing state panel_id tab_id update (some tab) = put_tab state panel_id tab_id (update tab)

unfoldable pub update_panel_tab :
    FileOctopusState → PanelId → JsString → (PanelTabState → PanelTabState) → FileOctopusState
update_panel_tab state panel_id tab_id update =
    put_existing state panel_id tab_id update (lookup tab_id (panel_of state.panels panel_id).tabs)

-- The first tab that passes a test, in the order of the panels and of their tabs.
unfoldable pub find_tab : (PanelTabState → Bool) → FileOctopusState → Option (PanelId × JsString)
find_tab test state =
    elim (find (λ (t : JsString × PanelTabState). test t.1) state.panels.left.tabs) [
      | some (tab_id, tab) ↦ some (left, tab_id)
      | none ↦ (elim (find (λ (t : JsString × PanelTabState). test t.1) state.panels.right.tabs) [
        | some (tab_id, tab) ↦ some (right, tab_id)
        | none ↦ none
      ])
    ]

-- The session of the listing in the background, if any.
abbrev background_session : PanelTabState → Option JsString
background_session tab = do background ← tab.background_listing; background.session_id

unfoldable pub find_tab_by_session : FileOctopusState → JsString → Option (PanelId × JsString)
find_tab_by_session state session_id =
    find_tab (λ tab. is tab.session_id session_id || is (background_session tab) session_id) state

unfoldable pub find_tab_by_request : FileOctopusState → JsString → Option (PanelId × JsString)
find_tab_by_request state request_id =
    let trimmed = trim request_id in
    if truthy trimmed then find_tab (λ tab. is tab.active_request_id trimmed) state else none

unfoldable pub update_found :
    FileOctopusState
    → PanelId
    → (PanelTabState → PanelTabState)
    → Option (PanelId × JsString)
    → FileOctopusState
update_found state panel_id update none = state
update_found state panel_id update (some (found, tab_id)) =
    if is_panel found panel_id then update_panel_tab state found tab_id update else state

unfoldable pub update_request_tab :
    FileOctopusState → PanelId → JsString → (PanelTabState → PanelTabState) → FileOctopusState
update_request_tab state panel_id request_id update =
    update_found state panel_id update (find_tab_by_request state request_id)
