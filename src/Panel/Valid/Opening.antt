-- ===== src/Panel/Valid/Opening.antt =====
-- The slices for tabs and for sort orders, filters and preferences, on well formed states.
use file_octopus.Base.{
  Bool, not, Option, none, some, ◌≡◌, refl, inl, inr, ◌||◌, JsString, lookup, Bool-cases, ◌>>=◌,
  AllValues-lookup, AllValues-find,
}
use file_octopus.Panel.Entry.{FileEntryDto}
use file_octopus.Panel.Host.{Host, World}
use file_octopus.Panel.Types.{
  PanelId, left, right, TabKind, SortField, ViewMode, PanelTabState, FileOctopusState, PanelAction,
  panel_of, set_panel,
}
use file_octopus.Panel.Storage.{
  persist_value, sort_key, sort_json, view_mode_key, view_mode_text, show_hidden_key, bool_text,
}
use file_octopus.Panel.Update.{active_tab}
use file_octopus.Panel.SortFilter.{
  next_sort, set_sort_state, set_view_mode_state, toggle_hidden_tab, toggle_hidden_state,
  hydrate_tab, hydrate_state, set_hash_tab,
}
use file_octopus.Panel.Tabs.{
  blank_tab, create_fresh_tab, create_content_tab, create_git_review_tab, open_with, reviews,
  find_review, refresh_review, open_git_review_state, replace_entry_tab, replace_content_state,
  show_review, replace_existing, is_preview, is_editor,
}
use file_octopus.Panel.Reducer.{with_panel, reduce_sort_filter, reduce_tab}
use file_octopus.Panel.Valid.{TabIsValid, IsValid}
use file_octopus.Panel.Valid.Updates.{create_fresh_tab-TabIsValid}
use file_octopus.Panel.Valid.States.{
  Succeeds, panel_of-PanelIsValid, set_panel-IsValid, active_tab_found, put_tab-IsValid,
  update_panel_keeps, add_tab-IsValid, switch_tab_panel-PanelIsValid,
}
use file_octopus.Panel.Valid.Close.{close_tab_panel_succeeds}

-- The result of a slice that may write to the world.
abbrev pub SucceedsIn : Option (FileOctopusState × World) → Type 0
SucceedsIn result = (r : FileOctopusState × World) × (result ≡ some r) × IsValid r.0

pub in_world-Succeeds :
    (w : World) (result : Option FileOctopusState)
    → Succeeds result
    → SucceedsIn (do state ← result; some (state, w))
in_world-Succeeds w result (s, e, v) = ((s, w), rw e, v)

toggle_hidden_tab-TabIsValid :
    (tab : PanelTabState) → TabIsValid tab → TabIsValid (toggle_hidden_tab tab)
unfolding toggle_hidden_tab
toggle_hidden_tab-TabIsValid tab v = record { listing = tt; in_background = v.in_background }

hydrate_state-Succeeds :
    (w : World) (s : FileOctopusState) (show_hidden : Bool) (view_mode : ViewMode)
    → IsValid s
    → Succeeds (hydrate_state w s show_hidden view_mode)
unfolding hydrate_state hydrate_tab
hydrate_state-Succeeds w s show_hidden view_mode v =
    let (one, e, k) =
      update_panel_keeps s left (hydrate_tab w left show_hidden view_mode) v
        (λ tab t. record { listing = t.listing; in_background = t.in_background }) in
    let (two, f, l) =
      update_panel_keeps one right (hydrate_tab w right show_hidden view_mode) k
        (λ tab t. record { listing = t.listing; in_background = t.in_background }) in
    (two, rw e f, l)

set_sort_state_succeeds :
    (w : World) (s : FileOctopusState) (p : PanelId) (field : SortField)
    → IsValid s
    → SucceedsIn (set_sort_state w s p field)
unfolding set_sort_state
set_sort_state_succeeds w s p field v =
    let (tab, found, h) = active_tab_found (panel_of-PanelIsValid v p) in
    let (next, e, k) =
      update_panel_keeps s p (λ t. record t { sort = next_sort field t.sort }) v
        (λ tab t. record { listing = t.listing; in_background = t.in_background }) in
    ((next, persist_value (sort_key p) (sort_json (next_sort field tab.sort)) w), rw (found, e), k)

set_view_mode_state_succeeds :
    (w : World) (s : FileOctopusState) (p : PanelId) (view_mode : ViewMode)
    → IsValid s
    → SucceedsIn (set_view_mode_state w s p view_mode)
unfolding set_view_mode_state
set_view_mode_state_succeeds w s p view_mode v =
    let (next, e, k) =
      update_panel_keeps s p (λ t. record t { view_mode = view_mode }) v
        (λ tab t. record { listing = t.listing; in_background = t.in_background }) in
    ((next, persist_value (view_mode_key p) (view_mode_text view_mode) w), rw e, k)

toggle_hidden_state_succeeds :
    (w : World) (s : FileOctopusState) (p : PanelId)
    → IsValid s
    → SucceedsIn (toggle_hidden_state w s p)
unfolding toggle_hidden_state
toggle_hidden_state_succeeds w s p v =
    let (tab, found, h) = active_tab_found (panel_of-PanelIsValid v p) in
    let (next, e, k) = update_panel_keeps s p toggle_hidden_tab v toggle_hidden_tab-TabIsValid in
    (
      (next, persist_value (show_hidden_key p) (bool_text (not tab.show_hidden)) w),
      rw (found, e),
      k,
    )

pub reduce_sort_filter_succeeds :
    (w : World) (s : FileOctopusState) (action : PanelAction)
    → IsValid s
    → SucceedsIn (reduce_sort_filter w s action)
unfolding reduce_sort_filter set_hash_tab
reduce_sort_filter_succeeds w s (PanelAction.set_filter p filter) v = in_world-Succeeds w _ (
    update_panel_keeps s p _ v
      (λ tab t. record { listing = t.listing; in_background = t.in_background }))
reduce_sort_filter_succeeds w s (PanelAction.set_recursive_query p query) v =
    in_world-Succeeds w _ (
      update_panel_keeps s p _ v
        (λ tab t. record { listing = t.listing; in_background = t.in_background }))
reduce_sort_filter_succeeds w s (PanelAction.set_sort p field) v =
    set_sort_state_succeeds w s p field v
reduce_sort_filter_succeeds w s (PanelAction.set_view_mode p view_mode) v =
    set_view_mode_state_succeeds w s p view_mode v
reduce_sort_filter_succeeds w s (PanelAction.toggle_hidden p) v =
    toggle_hidden_state_succeeds w s p v
reduce_sort_filter_succeeds w s (PanelAction.hydrate_preferences show_hidden view_mode) v =
    in_world-Succeeds w _ (hydrate_state-Succeeds w s show_hidden view_mode v)
reduce_sort_filter_succeeds w s (PanelAction.set_hash p entry_id hash_state) v =
    in_world-Succeeds w _ (
      update_panel_keeps s p (set_hash_tab entry_id hash_state) v
        (λ tab t. record { listing = t.listing; in_background = t.in_background }))
reduce_sort_filter_succeeds w s _ v = ((s, w), refl, v)

open_with-IsValid :
    (w : World) (s : FileOctopusState) (p : PanelId) (create : Option PanelTabState → PanelTabState)
    → IsValid s
    → ((source : Option PanelTabState)
        → ((tab : PanelTabState) → source ≡ some tab → TabIsValid tab)
        → TabIsValid (create source))
    → IsValid (open_with w s p create).0
unfolding open_with active_tab
open_with-IsValid w s p create v keeps = add_tab-IsValid s p _ _ v (
    keeps (lookup (panel_of s.panels p).active_tab_id (panel_of s.panels p).tabs)
      (λ tab e. AllValues-lookup TabIsValid _ _ (panel_of-PanelIsValid v p).each e))

show_review-IsValid :
    (h : Host) (w : World) (s : FileOctopusState) (p : PanelId) (root source label : JsString)
    (found : Option (JsString × PanelTabState))
    → IsValid s
    → ((t : JsString × PanelTabState) → found ≡ some t → TabIsValid t.1)
    → IsValid (show_review h w s p root source label found).0
unfolding show_review refresh_review create_git_review_tab blank_tab
show_review-IsValid h w s p root source label none v is_valid =
    open_with-IsValid w s p (create_git_review_tab h w root source label) v
      (λ _ _. record { listing = tt; in_background = tt })
show_review-IsValid h w s p root source label (some (tab_id, tab)) v is_valid =
    add_tab-IsValid s p tab_id (refresh_review root source label tab) v (record {
      listing = (is_valid (tab_id, tab) refl).listing;
      in_background = (is_valid (tab_id, tab) refl).in_background;
    })

open_git_review_state-IsValid :
    (h : Host) (w : World) (s : FileOctopusState) (p : PanelId) (root source label : JsString)
    → IsValid s
    → IsValid (open_git_review_state h w s p root source label).0
unfolding open_git_review_state find_review
open_git_review_state-IsValid h w s p root source label v =
    show_review-IsValid h w s p root source label (find_review (panel_of s.panels p) root) v (λ t e.
      AllValues-find TabIsValid (λ (t : JsString × PanelTabState). reviews root t.1) _ {t = t}
        (panel_of-PanelIsValid v p).each e)

replace_existing-IsValid :
    (s : FileOctopusState) (p : PanelId) (tab_id : JsString) (entry : FileEntryDto)
    (found : Option PanelTabState)
    → IsValid s
    → ((tab : PanelTabState) → found ≡ some tab → TabIsValid tab)
    → IsValid (replace_existing s p tab_id entry found)
unfolding replace_existing replace_entry_tab
replace_existing-IsValid s p tab_id entry none v is_valid = v
replace_existing-IsValid s p tab_id entry (some tab) v is_valid =
    elim (Bool-cases (is_preview tab.tab_kind || is_editor tab.tab_kind)) [
      | inl f ↦ rw f (
          put_tab-IsValid s p tab_id (replace_entry_tab entry tab) v (record {
            listing = (is_valid tab refl).listing;
            in_background = (is_valid tab refl).in_background;
          }))
      | inr f ↦ rw f v
    ]

pub reduce_tab_succeeds :
    (h : Host) (w : World) (s : FileOctopusState) (action : PanelAction)
    → IsValid s
    → SucceedsIn (reduce_tab h w s action)
unfolding reduce_tab replace_content_state with_panel create_content_tab blank_tab
reduce_tab_succeeds h w s (PanelAction.open_tab p uri) v = (
  _,
  refl,
  open_with-IsValid w s p (create_fresh_tab h w uri) v (create_fresh_tab-TabIsValid h w uri),
)
reduce_tab_succeeds h w s (PanelAction.open_preview_tab p entry) v = (
  _,
  refl,
  open_with-IsValid w s p (create_content_tab h w TabKind.preview entry) v
      (λ _ _. record { listing = tt; in_background = tt }),
)
reduce_tab_succeeds h w s (PanelAction.open_editor_tab p entry) v = (
  _,
  refl,
  open_with-IsValid w s p (create_content_tab h w TabKind.editor entry) v
      (λ _ _. record { listing = tt; in_background = tt }),
)
reduce_tab_succeeds h w s (PanelAction.open_git_review_tab p root source label) v =
    (_, refl, open_git_review_state-IsValid h w s p root source label v)
reduce_tab_succeeds h w s (PanelAction.replace_content_tab_entry p tab_id entry) v = (
  _,
  refl,
  replace_existing-IsValid s p tab_id entry (lookup tab_id (panel_of s.panels p).tabs) v
      (λ tab e. AllValues-lookup TabIsValid tab_id _ (panel_of-PanelIsValid v p).each e),
)
reduce_tab_succeeds h w s (PanelAction.switch_tab p tab_id) v = (
  _,
  refl,
  set_panel-IsValid s p _ v (switch_tab_panel-PanelIsValid tab_id _ (panel_of-PanelIsValid v p)),
)
reduce_tab_succeeds h w s (PanelAction.close_tab p tab_id) v =
    let (q, e, k) =
      close_tab_panel_succeeds tab_id (panel_of s.panels p) (panel_of-PanelIsValid v p) in
    ((record s { panels = set_panel s.panels p q }, w), rw e, set_panel-IsValid s p q v k)
reduce_tab_succeeds h w s _ v = ((s, w), refl, v)
