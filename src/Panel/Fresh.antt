-- ===== src/Panel/Fresh.antt =====
-- Identifiers of new tabs (`generateTabId` of packages/frontend/src/state/slices/tabsSlice.ts).
use file_octopus.Base.{
  ℕ, ◌+◌, ◌≤◌, false, Option, List, [], ◌∷◌, ◌++◌, ◌≡◌, refl, sym, ap, ◌∙◌, ◌⊎◌, inl, inr, JsString,
  js, ◌==◌, eq_iff, from, from-show_nat, show_nat, show_nat-injective, Dict, insert, keys, All,
  All-append, arith, Bool-cases,
}
use file_octopus.Panel.Host.{World}
use file_octopus.Panel.Types.{PanelId, left, right, PanelTabState, FileOctopusState, panel_of}
use file_octopus.Panel.Update.{put_tab}
use file_octopus.Panel.Storage.{generate_tab_id}
use file_octopus.Panel.Tabs.{add_tab, open_with}

abbrev tab_id : ℕ → ℕ → JsString
tab_id now counter = js "tab-" ++ (show_nat now ++ (js "-" ++ show_nat counter))

-- The identifier of the first tab, or one that was made while the counter was at most `counter`.
abbrev pub IsIssued : ℕ → JsString → Type 0
IsIssued counter id = (id ≡ js "main") ⊎ ((t : ℕ × ℕ) × (t.1 ≤ counter) × (id ≡ tab_id t.0 t.1))

tail_of : JsString → JsString
tail_of [] = []
tail_of (c ∷ s) = s

after_tab : JsString → JsString
unfolding tail_of
after_tab id = tail_of (from b'-' (tail_of (tail_of (tail_of (tail_of id)))))

after_tab-tab_id : (now counter : ℕ) → after_tab (tab_id now counter) ≡ show_nat counter
unfolding after_tab tail_of
after_tab-tab_id now counter = ap tail_of (from-show_nat now (show_nat counter))

tab_id-injective : (m n i j : ℕ) → tab_id m i ≡ tab_id n j → i ≡ j
tab_id-injective m n i j e =
    show_nat-injective i j (sym (after_tab-tab_id m i) ∙ ap after_tab e ∙ after_tab-tab_id n j)

main-other : (rest : JsString) → (js "main" == (js "tab-" ++ rest)) ≡ false
unfolding ◌==◌
main-other rest = refl

-- The next identifier is not among those that were issued.
new-other :
    (now counter : ℕ) (id : JsString)
    → IsIssued counter id
    → (id == tab_id now (counter + 1)) ≡ false
new-other now counter id (inl e) =
    ap (λ x. x == tab_id now (counter + 1)) e
    ∙ main-other (show_nat now ++ (js "-" ++ show_nat (counter + 1)))
new-other now counter id (inr (t, l, e)) = elim (Bool-cases (id == tab_id now (counter + 1))) [
  | inl same ↦ absurd (
      omega (
        arith,
        tab_id-injective t.0 now t.1 (counter + 1)
            (sym e ∙ (eq_iff id (tab_id now (counter + 1))).0 same),
      ))
  | inr other ↦ other
]

IsIssued-mono : (counter : ℕ) (id : JsString) → IsIssued counter id → IsIssued (counter + 1) id
IsIssued-mono counter id (inl e) = inl e
IsIssued-mono counter id (inr (t, l, e)) = inr (t, omega arith, e)

All-IsIssued-mono :
    (counter : ℕ) (ids : List JsString)
    → All (IsIssued counter) ids
    → All (IsIssued (counter + 1)) ids
All-IsIssued-mono counter [] a = tt
All-IsIssued-mono counter (id ∷ ids) a =
    (IsIssued-mono counter id a.0, All-IsIssued-mono counter ids a.1)

keys-insert_new :
    (now counter : ℕ) (tab : PanelTabState) (d : Dict PanelTabState)
    → All (IsIssued counter) (keys d)
    → keys (insert (tab_id now (counter + 1)) tab d) ≡ keys d ++ tab_id now (counter + 1) ∷ []
unfolding insert
keys-insert_new now counter tab [] a = refl
keys-insert_new now counter tab ((id, t) ∷ d) a =
    rw (new-other now counter id a.0) (ap (id ∷◌) (keys-insert_new now counter tab d a.1))

-- Where the identifiers of a panel's tabs were all issued, a new tab stands after them under an identifier
-- of its own, which is the active one, the other tabs keep theirs, and all are issued then.
pub open_with-keys :
    (w : World) (s : FileOctopusState) (p : PanelId) (create : Option PanelTabState → PanelTabState)
    → All (IsIssued w.tab_counter) (keys (panel_of s.panels p).tabs)
    → (keys (panel_of (open_with w s p create).0.panels p).tabs
        ≡ keys (panel_of s.panels p).tabs ++ (generate_tab_id w).0 ∷ [])
      × ((panel_of (open_with w s p create).0.panels p).active_tab_id ≡ (generate_tab_id w).0)
      × All
          (IsIssued (open_with w s p create).1.tab_counter)
          (keys (panel_of s.panels p).tabs ++ (generate_tab_id w).0 ∷ [])
unfolding open_with add_tab put_tab generate_tab_id
open_with-keys w s left create a = (
  keys-insert_new w.now w.tab_counter _ s.panels.left.tabs a,
  refl,
  All-append _ _ _ (All-IsIssued-mono w.tab_counter _ a)
      (inr ((w.now, w.tab_counter + 1), omega arith, refl), tt),
)
open_with-keys w s right create a = (
  keys-insert_new w.now w.tab_counter _ s.panels.right.tabs a,
  refl,
  All-append _ _ _ (All-IsIssued-mono w.tab_counter _ a)
      (inr ((w.now, w.tab_counter + 1), omega arith, refl), tt),
)
