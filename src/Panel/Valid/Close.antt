-- ===== src/Panel/Valid/Close.antt =====
-- Closing a tab: there is a neighbour to go to, and it is not the tab that is closed.
use file_octopus.Base.{
  ℕ, zero, suc, ◌≤◌, ◌<◌, true, some, List, [], ◌∷◌, ◌≡◌, ◌≢◌, refl, sym, ap, ◌∙◌, inl, inr,
  JsString, ◌==◌, eq_iff, eq_refl, erase, keys, has, includes, index_of, get_elem?, length, leb,
  arith, Bool-cases, ◌>>=◌, Distinct, AllValues-erase, keys-erase-Distinct, get_elem?-some,
  lt-length_of_get_elem?, includes-keys, lookup-erase,
}
use file_octopus.Panel.Types.{PanelState}
use file_octopus.Panel.Tabs.{close_tab_panel, neighbour}
use file_octopus.Panel.Valid.{TabIsValid, PanelIsValid}

-- What `indexOf` gives for an element is a position at which the element stands.
pub index_of_found :
    (ids : List JsString) (x : JsString)
    → includes ids x ≡ true
    → (i : ℕ) × (index_of ids x ≡ some i) × (get_elem? ids i ≡ some x)
unfolding includes index_of
index_of_found [] x h = cc
index_of_found (y ∷ ids) x h = elim (Bool-cases (y == x)) [
  | inl e ↦ (0, rw e, ap some ((eq_iff y x).0 e))
  | inr e ↦ let (i, f, g) = index_of_found ids x (rw e at h) in (suc i, rw (e, f), g)
]

pub includes-get_elem? :
    (ids : List JsString) (i : ℕ) {x : JsString} → get_elem? ids i ≡ some x → includes ids x ≡ true
unfolding includes
includes-get_elem? [] i h = cc
includes-get_elem? (y ∷ ids) zero {x} h = let e : y ≡ x = cc in rw (e, eq_refl)
includes-get_elem? (y ∷ ids) (suc i) {x} h = ground (arith, includes-get_elem? ids i {x = x} h)

-- In a list without repetitions an element stands at one position.
get_elem?-injective :
    (ids : List JsString) (i j : ℕ) {x : JsString}
    → Distinct ids
    → get_elem? ids i ≡ some x
    → get_elem? ids j ≡ some x
    → i ≡ j
get_elem?-injective [] i j d h k = cc
get_elem?-injective (y ∷ ids) zero zero d h k = refl
get_elem?-injective (y ∷ ids) zero (suc j) {x} d h k =
    let e : y ≡ x = cc in absurd (ground (arith, includes-get_elem? ids j {x = x} k, d.0))
get_elem?-injective (y ∷ ids) (suc i) zero {x} d h k =
    let e : y ≡ x = cc in absurd (ground (arith, includes-get_elem? ids i {x = x} h, d.0))
get_elem?-injective (y ∷ ids) (suc i) (suc j) d h k = ap suc (get_elem?-injective ids i j d.1 h k)

-- The neighbour of a tab among at least two is another tab of the list.
pub neighbour_found :
    (ids : List JsString) (i : ℕ) {x : JsString}
    → Distinct ids
    → 2 ≤ length ids
    → get_elem? ids i ≡ some x
    → (y : JsString) × (neighbour ids i ≡ some y) × (includes ids y ≡ true) × (x ≢ y)
unfolding neighbour
neighbour_found ids zero {x} d h e =
    let (y, f) = get_elem?-some ids 1 h in
    (
      y,
      f,
      includes-get_elem? ids 1 f,
      λ same. absurd (omega (arith, get_elem?-injective ids 0 1 {x = x} d e (rw same f))),
    )
neighbour_found ids (suc i) {x} d h e =
    let l : i < length ids = omega (arith, lt-length_of_get_elem? ids (suc i) e) in
    let (y, f) = get_elem?-some ids i l in
    (
      y,
      f,
      includes-get_elem? ids i f,
      λ same. absurd (omega (arith, get_elem?-injective ids (suc i) i {x = x} d e (rw same f))),
    )

module _ (tab_id : JsString) (panel : PanelState) (v : PanelIsValid panel) where
  abbrev tab_ids : List JsString
  tab_ids = keys panel.tabs

  -- A panel without the tab, where another one of its tabs is active.
  erased-PanelIsValid :
      (next : JsString)
      → has panel.tabs next ≡ true
      → tab_id ≢ next
      → PanelIsValid (record panel { active_tab_id = next; tabs = erase tab_id panel.tabs })
  erased-PanelIsValid next h ne = record {
    active = ground (arith, lookup-erase tab_id next panel.tabs, eq_iff tab_id next);
    distinct = keys-erase-Distinct tab_id panel.tabs v.distinct;
    each = AllValues-erase TabIsValid tab_id panel.tabs v.each;
  }

  close_active :
      2 ≤ length (keys panel.tabs)
      → has panel.tabs tab_id ≡ true
      → (q : PanelState) × ((do
        index ← index_of (keys panel.tabs) tab_id
        next ← neighbour (keys panel.tabs) index
        some (record panel { active_tab_id = next; tabs = erase tab_id panel.tabs }))
          ≡ some q)
        × PanelIsValid q
  close_active two h =
      let (i, e, f) =
        index_of_found (keys panel.tabs) tab_id (includes-keys tab_id panel.tabs ∙ h) in
      let (y, g, k, ne) = neighbour_found (keys panel.tabs) i v.distinct two f in
      (
        record panel { active_tab_id = y; tabs = erase tab_id panel.tabs },
        rw (e, g),
        erased-PanelIsValid y (sym (includes-keys y panel.tabs) ∙ k) ne,
      )

  -- Closing a tab succeeds, and leaves a well formed panel.
  pub close_tab_panel_succeeds :
      (q : PanelState) × (close_tab_panel tab_id panel ≡ some q) × PanelIsValid q
  unfolding close_tab_panel
  close_tab_panel_succeeds = elim (Bool-cases (leb (length (keys panel.tabs)) 1)) [
    | inl e ↦ (panel, rw e, v)
    | inr e ↦ elim (Bool-cases (has panel.tabs tab_id)) [
      | inr f ↦ (panel, rw (e, f), v)
      | inl f ↦ elim (Bool-cases (panel.active_tab_id == tab_id)) [
        | inl g ↦ let (q, k, w) = close_active (ground arith) f in (q, rw (e, f, g) k, w)
        | inr g ↦ (
          record panel { tabs = erase tab_id panel.tabs },
          rw (e, f, g),
          erased-PanelIsValid panel.active_tab_id v.active
              (λ same. ground (arith, eq_iff panel.active_tab_id tab_id)),
        )
      ]
    ]
  ]
