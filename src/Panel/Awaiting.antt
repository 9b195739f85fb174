-- ===== src/Panel/Awaiting.antt =====
-- The tab that waits for a request, and the steps of a navigation in the panel store.
use file_octopus.Base.{
  Bool, true, false, none, some, [], ◌∷◌, ◌≡◌, refl, sym, ap, subst, ◌∙◌, inl, inr, JsString, ◌==◌,
  eq_iff, eq_refl, is, truthy, trim, Dict, lookup, insert, lookup-insert, find, AllValues,
  AllValues-insert, Bool-cases, if◌then◌else◌,
}
use file_octopus.Panel.Entry.{IpcError}
use file_octopus.Panel.Host.{Host, World}
use file_octopus.Panel.Navigation.{navigate_tab, navigate_state}
use file_octopus.Panel.Requests.{start_request_tab, request_error_tab, update_requested}
use file_octopus.Panel.Types.{
  PanelId, left, right, PaneLoadState, NavigateFlags, PanelTabState, FileOctopusState, PanelAction,
  panel_of, is_panel,
}
use file_octopus.Panel.Update.{
  active_tab, put_tab, update_panel, put_existing, update_panel_tab, find_tab, find_tab_by_request,
  update_found, update_request_tab,
}
use file_octopus.Panel.Reducer.{
  panel_reducer, reduce_panel_action, reduce_navigation, reduce_listing, is_tab_action,
  is_content_search_action, is_navigation_action, is_listing_action,
}

-- No tab waits for the request.
abbrev pub NotAwaited : JsString → PanelTabState → Type 0
NotAwaited request_id tab = is tab.active_request_id request_id ≡ false

pub record IsFresh (request_id : JsString) (s : FileOctopusState) : Type 0 where
  pub full : truthy request_id ≡ true
  pub trimmed : trim request_id ≡ request_id
  pub on_left : AllValues (NotAwaited request_id) s.panels.left.tabs
  pub on_right : AllValues (NotAwaited request_id) s.panels.right.tabs

abbrev awaits_request : JsString → JsString × PanelTabState → Bool
awaits_request request_id t = is t.1.active_request_id request_id

find-none :
    (request_id : JsString) (tabs : Dict PanelTabState)
    → AllValues (NotAwaited request_id) tabs
    → find (awaits_request request_id) tabs ≡ none
find-none request_id [] h = refl
find-none request_id ((k, t) ∷ tabs) h = rw h.0 (find-none request_id tabs h.1)

find-insert :
    (request_id key : JsString) (tab : PanelTabState) (tabs : Dict PanelTabState)
    → is tab.active_request_id request_id ≡ true
    → AllValues (NotAwaited request_id) tabs
    → find (awaits_request request_id) (insert key tab tabs) ≡ some (key, tab)
unfolding insert
find-insert request_id key tab [] there h = rw there refl
find-insert request_id key tab ((k, t) ∷ tabs) there h = elim (Bool-cases (k == key)) [
  | inl same ↦
      let e : k ≡ key = (eq_iff k key).0 same in
      rw (same, there) (ap (λ (j : JsString). some (j, tab)) e)
  | inr other ↦ rw (other, h.0) (find-insert request_id key tab tabs there h.1)
]

find_tab-left :
    (test : PanelTabState → Bool) (s : FileOctopusState) {key : JsString} {tab : PanelTabState}
    → find (λ (t : JsString × PanelTabState). test t.1) s.panels.left.tabs ≡ some (key, tab)
    → find_tab test s ≡ some (left, key)
unfolding find_tab
find_tab-left test s e = rw (e, find_tab) refl

find_tab-right :
    (test : PanelTabState → Bool) (s : FileOctopusState) {key : JsString} {tab : PanelTabState}
    → find (λ (t : JsString × PanelTabState). test t.1) s.panels.left.tabs ≡ none
    → find (λ (t : JsString × PanelTabState). test t.1) s.panels.right.tabs ≡ some (key, tab)
    → find_tab test s ≡ some (right, key)
unfolding find_tab
find_tab-right test s e f = rw (e, f, find_tab) refl

pub awaited-found :
    (s : FileOctopusState) (p : PanelId) (request_id key : JsString) (tab : PanelTabState)
    → IsFresh request_id s
    → is tab.active_request_id request_id ≡ true
    → find_tab_by_request (put_tab s p key tab) request_id ≡ some (p, key)
unfolding find_tab_by_request put_tab
awaited-found s left request_id key tab f there =
    rw (f.trimmed, f.full)
      (find_tab-left (λ t. is t.active_request_id request_id) (put_tab s left key tab)
        (find-insert request_id key tab s.panels.left.tabs there f.on_left))
awaited-found s right request_id key tab f there =
    rw (f.trimmed, f.full)
      (find_tab-right (λ t. is t.active_request_id request_id) (put_tab s right key tab)
        (find-none request_id s.panels.left.tabs f.on_left)
        (find-insert request_id key tab s.panels.right.tabs there f.on_right))

pub put_tab-IsFresh :
    (s : FileOctopusState) (p : PanelId) (request_id key : JsString) (tab : PanelTabState)
    → IsFresh request_id s
    → NotAwaited request_id tab
    → IsFresh request_id (put_tab s p key tab)
unfolding put_tab
put_tab-IsFresh s left request_id key tab f other = record {
  full = f.full;
  trimmed = f.trimmed;
  on_left = AllValues-insert (NotAwaited request_id) key tab s.panels.left.tabs other f.on_left;
  on_right = f.on_right;
}
put_tab-IsFresh s right request_id key tab f other = record {
  full = f.full;
  trimmed = f.trimmed;
  on_left = f.on_left;
  on_right = AllValues-insert (NotAwaited request_id) key tab s.panels.right.tabs other f.on_right;
}

abbrev pub active_id : FileOctopusState → PanelId → JsString
active_id s p = (panel_of s.panels p).active_tab_id

pub lookup-put_tab :
    (s : FileOctopusState) (p : PanelId) (key : JsString) (tab : PanelTabState)
    → lookup key (panel_of (put_tab s p key tab).panels p).tabs ≡ some tab
unfolding put_tab
lookup-put_tab s left key tab =
    lookup-insert key key tab s.panels.left.tabs
    ∙ ap (λ b. if b then some tab else lookup key s.panels.left.tabs) (eq_refl key)
lookup-put_tab s right key tab =
    lookup-insert key key tab s.panels.right.tabs
    ∙ ap (λ b. if b then some tab else lookup key s.panels.right.tabs) (eq_refl key)

pub active_id-put_tab :
    (s : FileOctopusState) (p : PanelId) (key : JsString) (tab : PanelTabState)
    → active_id (put_tab s p key tab) p ≡ active_id s p
unfolding put_tab
active_id-put_tab s left key tab = refl
active_id-put_tab s right key tab = refl

-- The active tab after it is put in its place.
pub active_tab-put_tab :
    (s : FileOctopusState) (p : PanelId) (tab : PanelTabState)
    → active_tab (panel_of (put_tab s p (active_id s p) tab).panels p) ≡ some tab
unfolding active_tab
active_tab-put_tab s p tab =
    rw (active_id-put_tab s p (active_id s p) tab) (lookup-put_tab s p (active_id s p) tab)

pub active_tab-put_known :
    (s : FileOctopusState) (p : PanelId) (key : JsString) (tab : PanelTabState)
    → key ≡ active_id s p
    → active_tab (panel_of (put_tab s p key tab).panels p) ≡ some tab
active_tab-put_known s p key tab e =
    subst (λ k. active_tab (panel_of (put_tab s p k tab).panels p) ≡ some tab) (sym e)
      (active_tab-put_tab s p tab)

is_panel_refl : (p : PanelId) → is_panel p p ≡ true
is_panel_refl left = refl
is_panel_refl right = refl

module _ (h : Host) (w : World) (s : FileOctopusState) (p : PanelId) where
  pub navigate-step :
      (uri : JsString) (flags : NavigateFlags) (tab : PanelTabState)
      → active_tab (panel_of s.panels p) ≡ some tab
      → panel_reducer h w s (PanelAction.navigate p uri flags)
        ≡ some (put_tab s p (active_id s p) (navigate_tab uri flags tab), w)
  unfolding panel_reducer reduce_panel_action reduce_navigation navigate_state update_panel
      is_tab_action is_content_search_action is_navigation_action
  navigate-step uri flags tab there = rw there refl

  pub start_request-step :
      (request_id : JsString) (background_refresh : Bool) (tab : PanelTabState)
      → active_tab (panel_of s.panels p) ≡ some tab
      → panel_reducer h w s (PanelAction.start_request p request_id background_refresh)
        ≡ some
            (put_tab s p (active_id s p) (start_request_tab request_id background_refresh tab), w)
  unfolding panel_reducer reduce_panel_action reduce_listing update_panel is_tab_action
      is_content_search_action is_navigation_action is_listing_action
  start_request-step request_id background_refresh tab there = rw there refl

  pub pane_error-step :
      (request_id key : JsString) (e : IpcError) (load_state : PaneLoadState) (tab : PanelTabState)
      → truthy request_id ≡ true
      → find_tab_by_request s request_id ≡ some (p, key)
      → lookup key (panel_of s.panels p).tabs ≡ some tab
      → panel_reducer h w s (
          PanelAction.set_pane_error p
            (some request_id)
            (some e.message)
            (some e.code)
            (some load_state))
        ≡ some (
          put_tab s p key (request_error_tab (some e.message) (some e.code) (some load_state) tab),
          w,
        )
  unfolding panel_reducer reduce_panel_action reduce_listing update_requested update_request_tab
      update_found update_panel_tab put_existing is_tab_action is_content_search_action
      is_navigation_action is_listing_action
  pane_error-step request_id key e load_state tab full found there =
      rw (full, found, is_panel_refl p, there) refl
