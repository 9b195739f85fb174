-- ===== src/Panel/Stale.antt =====
-- Which batches a tab takes (`applyBatch` and `shouldApplyBatch` of packages/frontend/src/panelStore.ts
-- and its helpers): batches of an earlier request, and refreshes in the background.
use file_octopus.Base.{
  Bool, true, false, not, ◌&&◌, none, some, List, [], ◌∷◌, ◌≡◌, refl, sym, ◌∙◌, inl, inr, JsString,
  ◌==◌, eq_iff, truthy, trim, is_some, Bool-cases,
}
use file_octopus.Panel.Entry.{DirectoryBatchEventDto}
use file_octopus.Panel.Types.{NavigateFlags, BackgroundListing, PanelTabState}
use file_octopus.Panel.LoadState.{should_apply_batch}
use file_octopus.Panel.Navigation.{normalize_local_input, apply_navigation, navigate_tab, is_error}
use file_octopus.Panel.Listing.{deliver, batch_tab, batch_on, background_of, extend_background}
use file_octopus.Panel.Requests.{start_request_tab}

pub active_request-navigate_tab :
    (uri : JsString) (flags : NavigateFlags) (tab : PanelTabState)
    → (navigate_tab uri flags tab).active_request_id ≡ none
unfolding navigate_tab apply_navigation
active_request-navigate_tab uri flags tab =
    elim (Bool-cases (
      flags.soft_refresh
      && not (not (normalize_local_input uri == tab.uri))
      && not (is_error tab.load_state))) [ inl e ↦ rw e refl | inr e ↦ rw e refl ]

-- After a navigation, until the next request starts, a batch with a request identifier that is not
-- blank leaves the tab as it is; and after a request with a non-empty identifier starts, so does a batch
-- whose identifier, trimmed, is another one.
pub deliver_stale :
    (tab : PanelTabState) (batch : DirectoryBatchEventDto) (uri request_id : JsString)
    (flags : NavigateFlags) (background_refresh : Bool)
    → truthy (trim batch.request_id) ≡ true
    → truthy request_id ≡ true
    → (request_id == trim batch.request_id) ≡ false
    → (deliver batch (navigate_tab uri flags tab) ≡ navigate_tab uri flags tab)
      × (deliver batch (start_request_tab request_id background_refresh tab)
          ≡ start_request_tab request_id background_refresh tab)
unfolding deliver should_apply_batch start_request_tab
deliver_stale tab batch uri request_id flags background_refresh t u other =
    (rw (active_request-navigate_tab uri flags tab, t) refl, rw (u, t, other) refl)

abbrev pub deliver_all : List DirectoryBatchEventDto → PanelTabState → PanelTabState
deliver_all [] tab = tab
deliver_all (batch ∷ batches) tab = deliver_all batches (deliver batch tab)

-- Batches of the request that are not the last one.
abbrev AreUnfinished : JsString → List DirectoryBatchEventDto → Type 0
AreUnfinished request_id [] = Unit
AreUnfinished request_id (batch ∷ batches) =
    (batch.request_id ≡ request_id) × (batch.is_complete ≡ false) × AreUnfinished request_id batches

-- The tab shows the listing, while the request fills another one.
record Refreshes (request_id : JsString) (shown tab : PanelTabState) : Type 0 where
  entries : tab.entries_by_id ≡ shown.entries_by_id
  ids : tab.ordered_entry_ids ≡ shown.ordered_entry_ids
  listing :
      (b : BackgroundListing) × (tab.background_listing ≡ some b) × (b.request_id ≡ request_id)

deliver-Refreshes :
    (request_id : JsString) (shown tab : PanelTabState) (batch : DirectoryBatchEventDto)
    → batch.request_id ≡ request_id
    → batch.is_complete ≡ false
    → Refreshes request_id shown tab
    → Refreshes request_id shown (deliver batch tab)
unfolding deliver batch_tab batch_on background_of extend_background
deliver-Refreshes request_id shown tab batch e f r =
    let (b, g, k) = r.listing in
    let m : (b.request_id == batch.request_id) ≡ true =
      (eq_iff b.request_id batch.request_id).1 (k ∙ sym e) in
    elim (Bool-cases (should_apply_batch tab.active_request_id batch)) [
      | inr h ↦ rw h r
      | inl h ↦ elim (Bool-cases (is_some batch.error)) [
        | inl l ↦
            rw (h, l, f, g, m) (record { entries = r.entries; ids = r.ids; listing = (_, refl, k) })
        | inr l ↦
            rw (h, l, g, m, f) (record { entries = r.entries; ids = r.ids; listing = (_, refl, k) })
      ]
    ]

deliver_all-Refreshes :
    (request_id : JsString) (shown tab : PanelTabState) (batches : List DirectoryBatchEventDto)
    → AreUnfinished request_id batches
    → Refreshes request_id shown tab
    → Refreshes request_id shown (deliver_all batches tab)
deliver_all-Refreshes request_id shown tab [] u r = r
deliver_all-Refreshes request_id shown tab (batch ∷ batches) u r =
    deliver_all-Refreshes request_id shown (deliver batch tab) batches u.2
      (deliver-Refreshes request_id shown tab batch u.0 u.1 r)

-- While a refresh in the background is not finished, its batches leave the entries on show as they are,
-- and their order.
pub background_refresh_keeps_listing :
    (request_id : JsString) (tab : PanelTabState) (batches : List DirectoryBatchEventDto)
    → AreUnfinished request_id batches
    → ((deliver_all batches (start_request_tab request_id true tab)).entries_by_id
        ≡ tab.entries_by_id)
      × ((deliver_all batches (start_request_tab request_id true tab)).ordered_entry_ids
          ≡ tab.ordered_entry_ids)
unfolding start_request_tab
background_refresh_keeps_listing request_id tab batches u =
    let r =
      deliver_all-Refreshes request_id tab (start_request_tab request_id true tab) batches u
        (record { entries = refl; ids = refl; listing = (_, refl, refl) }) in
    (r.entries, r.ids)
