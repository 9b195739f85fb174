-- ===== src/Panel/Picking.antt =====
-- Selection of entries (packages/frontend/src/state/slices/selectionSlice.ts): toggles, ranges and
-- inversion.
use file_octopus.Base.{
  ◌++◌, ◌||◌, if◌then◌else◌, false, ℕ, zero, suc, ◌+◌, ◌-◌, ◌≤◌, ◌<◌, min, max, Bool, true, not,
  ◌&&◌, some, List, [], ◌∷◌, ◌≡◌, refl, sym, ap, subst, ◌∙◌, inl, inr, JsString, ◌==◌, eq_iff,
  eq_refl, includes, index_of, keep, get_elem?, none, ltb, leb, take, drop, or_else, or_maybe,
  arith, Bool-cases, Option-cases,
}
use file_octopus.Panel.Entry.{FileEntryDto}
use file_octopus.Panel.Host.{Host}
use file_octopus.Panel.Types.{PanelTabState, range}
use file_octopus.Panel.Visible.{
  select_visible_entries, select_displayed_entries, is_parent_directory_uri,
}
use file_octopus.Panel.Selection.{
  uris_of, between, select_range, with_selection, invert_selection_tab, select_entry_tab,
  select_slice, select_span, toggle_in, without,
}

includes-without :
    (x j : JsString) (xs : List JsString)
    → includes (without x xs) j ≡ (if x == j then false else includes xs j)
unfolding includes without
includes-without x j [] = ground arith
includes-without x j (y ∷ xs) =
    ground (arith, eq_iff x j, eq_iff y x, eq_iff y j, includes-without x j xs)

includes-append_one :
    (xs : List JsString) (x j : JsString) → includes (xs ++ x ∷ []) j ≡ (includes xs j || x == j)
unfolding includes
includes-append_one [] x j = ground arith
includes-append_one (y ∷ xs) x j = ground (arith, includes-append_one xs x j)

-- A toggle changes whether its identifier is selected, and nothing else.
includes-toggle_in :
    (x j : JsString) (selected : List JsString)
    → includes (toggle_in x selected) j
      ≡ (if x == j then not (includes selected j) else includes selected j)
unfolding toggle_in
includes-toggle_in x j selected =
    ground (arith, includes-without x j selected, includes-append_one selected x j, eq_iff x j)

get_elem?-drop : (m k : ℕ) (xs : List JsString) → get_elem? (drop m xs) k ≡ get_elem? xs (m + k)
get_elem?-drop zero k xs = ap (get_elem? xs) (let e : k ≡ 0 + k = omega arith in e)
get_elem?-drop (suc m) k [] = refl
get_elem?-drop (suc m) k (x ∷ xs) =
    get_elem?-drop m k xs
    ∙ ap (get_elem? (x ∷ xs)) (let e : suc (m + k) ≡ suc m + k = omega arith in e)

get_elem?-take : (n k : ℕ) (xs : List JsString) → k < n → get_elem? (take n xs) k ≡ get_elem? xs k
get_elem?-take zero k xs l = absurd (omega arith)
get_elem?-take (suc n) k [] l = refl
get_elem?-take (suc n) zero (x ∷ xs) l = refl
get_elem?-take (suc n) (suc k) (x ∷ xs) l = get_elem?-take n k xs (omega arith)

-- The entry at a position between two others, or at one of them, is in the range.
get_elem?-between :
    (i j k : ℕ) (xs : List JsString)
    → min i j ≤ k
    → k ≤ max i j
    → get_elem? (between i j xs) (k - min i j) ≡ get_elem? xs k
unfolding between
get_elem?-between i j k xs l u =
    let e : min i j + (k - min i j) ≡ k = omega arith in
    get_elem?-take (max i j + 1 - min i j) (k - min i j) (drop (min i j) xs) (omega arith)
    ∙ get_elem?-drop (min i j) (k - min i j) xs
    ∙ ap (get_elem? xs) e

get_elem?-index_of :
    (xs : List JsString) (x : JsString) (i : ℕ) → index_of xs x ≡ some i → get_elem? xs i ≡ some x
unfolding index_of
get_elem?-index_of [] x i e = cc
get_elem?-index_of (y ∷ xs) x i e = elim (Bool-cases (y == x)) [
  | inl same ↦
      let f : 0 ≡ i = ground (arith, rw same at e) in
      ap (get_elem? (y ∷ xs)) (sym f) ∙ ap some ((eq_iff y x).0 same)
  | inr other ↦ elim (Option-cases (index_of xs x)) [
    | inl f ↦ absurd (ground (arith, rw (other, f) at e))
    | inr (k, f) ↦
        let l : suc k ≡ i = ground (arith, rw (other, f) at e) in
        ap (get_elem? (y ∷ xs)) (sym l) ∙ get_elem?-index_of xs x k f
  ]
]

select_slice_full :
    (tab : PanelTabState) (entry_id anchor id : JsString) (slice : List JsString) (k : ℕ)
    → get_elem? slice k ≡ some id
    → ((select_slice tab entry_id anchor slice).selected_ids ≡ slice)
      × ((select_slice tab entry_id anchor slice).anchor_id ≡ some anchor)
      × ((select_slice tab entry_id anchor slice).focused_id ≡ some entry_id)
unfolding select_slice
select_slice_full tab entry_id anchor id [] k e = cc
select_slice_full tab entry_id anchor id (x ∷ slice) k e = (refl, refl, refl)

-- What a range is taken of: the displayed entries but the parent.
abbrev pub children : PanelTabState → List FileEntryDto → List JsString
children tab displayed = keep (λ id. not (is_parent_directory_uri id tab.uri)) (uris_of displayed)

get_elem?-take_all :
    (n k : ℕ) (xs : List JsString)
    → get_elem? (take n xs) k ≡ (if ltb k n then get_elem? xs k else none)
get_elem?-take_all zero k xs = ground arith
get_elem?-take_all (suc n) zero [] = ground arith
get_elem?-take_all (suc n) (suc k) [] = elim (Bool-cases (ltb k n)) [
  | inl l ↦ ground (arith, l)
  | inr l ↦ ground (arith, l)
]
get_elem?-take_all (suc n) zero (x ∷ xs) = ground arith
get_elem?-take_all (suc n) (suc k) (x ∷ xs) = ground (arith, get_elem?-take_all n k xs)

-- The range has the entries from the lower to the upper position, and no others.
get_elem?-between_all :
    (i j k : ℕ) (xs : List JsString)
    → get_elem? (between i j xs) k
      ≡ (if leb k (max i j - min i j) then get_elem? xs (min i j + k) else none)
unfolding between
get_elem?-between_all i j k xs =
    let e : ltb k (max i j + 1 - min i j) ≡ leb k (max i j - min i j) = ground arith in
    get_elem?-take_all (max i j + 1 - min i j) k (drop (min i j) xs)
    ∙ rw (e, get_elem?-drop (min i j) k xs) refl

-- A range selection of an entry, where the anchor (or else the focus, or else the entry itself) and
-- the entry stand in what is displayed, the parent entry left out: the entries from the lower to the
-- upper of the two positions are selected, in the displayed order, and no others; the anchor stays,
-- and the entry is in focus.
pub select_entry_tab-range :
    (h : Host) (tab : PanelTabState) (entry_id anchor : JsString) (displayed : List FileEntryDto)
    (i j k : ℕ)
    → select_displayed_entries h tab ≡ some displayed
    → or_else (or_maybe tab.anchor_id tab.focused_id) entry_id ≡ anchor
    → index_of (children tab displayed) anchor ≡ some i
    → index_of (children tab displayed) entry_id ≡ some j
    → (picked : PanelTabState) × (select_entry_tab h tab entry_id range ≡ some picked)
      × (get_elem? picked.selected_ids k ≡ (
          if leb k (max i j - min i j)
          then get_elem? (children tab displayed) (min i j + k)
          else none))
      × (picked.anchor_id ≡ some anchor)
      × (picked.focused_id ≡ some entry_id)
unfolding select_entry_tab select_range select_span
select_entry_tab-range h tab entry_id anchor displayed i j k shown same at_anchor at_entry =
    let first : get_elem? (between i j (children tab displayed)) (i - min i j) ≡ some anchor =
      get_elem?-between i j i (children tab displayed) (omega arith) (omega arith)
      ∙ get_elem?-index_of (children tab displayed) anchor i at_anchor in
    let full =
      select_slice_full tab entry_id anchor anchor (between i j (children tab displayed))
        (i - min i j) first in
    (
      select_slice tab entry_id anchor (between i j (children tab displayed)),
      rw (shown, same, at_anchor, at_entry) refl,
      ap (λ ids. get_elem? ids k) full.0 ∙ get_elem?-between_all i j k (children tab displayed),
      full.1,
      full.2,
    )

pub includes-keep :
    (p : JsString → Bool) (xs : List JsString) (j : JsString)
    → includes (keep p xs) j ≡ (includes xs j && p j)
unfolding includes
includes-keep p [] j = ground arith
includes-keep p (x ∷ xs) j = elim (Bool-cases (x == j)) [
  | inl e ↦
      subst (λ y. includes (keep p (x ∷ xs)) y ≡ (includes (x ∷ xs) y && p y)) ((eq_iff x j).0 e)
        (ground (arith, eq_refl x, includes-keep p xs x))
  | inr e ↦ ground (arith, e, includes-keep p xs j)
]

keep_within :
    (p q : JsString → Bool) (xs all : List JsString)
    → ((x : JsString) → includes all x ≡ true → p x ≡ q x)
    → ((x : JsString) → includes xs x ≡ true → includes all x ≡ true)
    → keep p xs ≡ keep q xs
unfolding includes
keep_within p q [] all same within = refl
keep_within p q (x ∷ xs) all same within = ground (
  arith,
  same x (within x (ground (arith, eq_refl x))),
  keep_within p q xs all same (λ y e. within y (ground arith)),
)

visible-with_selection :
    (h : Host) (tab : PanelTabState) (ids : List JsString)
    → select_visible_entries h (with_selection ids tab) ≡ select_visible_entries h tab
unfolding with_selection select_visible_entries
visible-with_selection h tab ids = refl

invert_selection_found :
    (h : Host) (tab : PanelTabState) (entries : List FileEntryDto)
    → select_visible_entries h tab ≡ some entries
    → invert_selection_tab h tab
      ≡ some
          (with_selection (keep (λ id. not (includes tab.selected_ids id)) (uris_of entries)) tab)
unfolding invert_selection_tab
invert_selection_found h tab entries e = rw e refl

-- What was not kept out of what is not selected is what is selected.
keep_twice :
    (selected ids : List JsString)
    → keep (λ id. not (includes (keep (λ x. not (includes selected x)) ids) id)) ids
      ≡ keep (includes selected) ids
keep_twice selected ids =
    keep_within _ _ ids ids
      (λ x e. ground (arith, includes-keep (λ x. not (includes selected x)) ids x, e)) (λ x e. e)

-- Where the visible entries are found, inverting the selection selects exactly the visible entries
-- that were not selected; inverting it once more leaves selected the visible entries that were
-- selected before, in their visible order.
pub includes-invert_selection_tab :
    (h : Host) (tab : PanelTabState) (entries : List FileEntryDto) (id : JsString)
    → select_visible_entries h tab ≡ some entries
    → (once : PanelTabState) × (invert_selection_tab h tab ≡ some once)
      × (includes once.selected_ids id
          ≡ (includes (uris_of entries) id && not (includes tab.selected_ids id)))
      × (twice : PanelTabState) × (invert_selection_tab h once ≡ some twice)
      × (twice.selected_ids ≡ keep (includes tab.selected_ids) (uris_of entries))
unfolding with_selection
includes-invert_selection_tab h tab entries id e =
    let rest : List JsString = keep (λ x. not (includes tab.selected_ids x)) (uris_of entries) in
    let back : List JsString = keep (λ x. not (includes rest x)) (uris_of entries) in
    (
      with_selection rest tab,
      invert_selection_found h tab entries e,
      includes-keep (λ x. not (includes tab.selected_ids x)) (uris_of entries) id,
      with_selection back (with_selection rest tab),
      invert_selection_found h (with_selection rest tab) entries
          (visible-with_selection h tab rest ∙ e),
      keep_twice tab.selected_ids (uris_of entries),
    )
