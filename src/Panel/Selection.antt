-- ===== src/Panel/Selection.antt =====
-- Selection: `selectEntry` and `moveSelection` of packages/frontend/src/panelStore.ts, and
-- packages/frontend/src/state/slices/selectionSlice.ts.
use file_octopus.Base.{
  ℕ, suc, ◌+◌, ◌-◌, min, max, not, ◌||◌, Option, none, some, List, [], ◌∷◌, ◌++◌, map, JsString,
  ◌==◌, is, truthy, has, includes, index_of, keep, find_index, get_elem?, get_last?, head?, take,
  drop, length, or_else, or_maybe, if◌then◌else◌, ◌>>=◌, ℤ, pos, negsuc,
}
use file_octopus.Panel.Entry.{FileEntryDto}
use file_octopus.Panel.Host.{Host}
use file_octopus.Panel.Types.{PanelTabState, SelectMode, single, toggle, range}
use file_octopus.Panel.Visible.{
  select_visible_entries, select_displayed_entries, is_parent_directory_uri,
}

abbrev pub uris_of : List FileEntryDto → List JsString
uris_of = map (λ (entry : FileEntryDto). entry.uri)

unfoldable pub select_single : PanelTabState → JsString → PanelTabState
select_single tab entry_id = record tab {
  selected_ids = entry_id ∷ [];
  selected_id = some entry_id;
  focused_id = some entry_id;
  anchor_id = some entry_id;
}

-- `new Set(xs)`, `set.delete(x)` and `set.add(x)`, a set being a list in the order of insertion.
unfoldable pub without : JsString → List JsString → List JsString
without x [] = []
without x (y ∷ ys) = let rest = without x ys in if y == x then rest else y ∷ rest

unfoldable pub set_of : List JsString → List JsString
set_of [] = []
set_of (x ∷ xs) = x ∷ without x (set_of xs)

unfoldable pub toggle_in : JsString → List JsString → List JsString
toggle_in x selected = if includes selected x then without x selected else selected ++ x ∷ []

unfoldable pub select_toggle : PanelTabState → JsString → PanelTabState
select_toggle tab entry_id =
    let selected =
      set_of (keep (λ id. not (is_parent_directory_uri id tab.uri)) tab.selected_ids) in
    let selected_ids = toggle_in entry_id selected in
    if is_parent_directory_uri entry_id tab.uri then select_single tab entry_id else record tab {
      selected_ids = selected_ids;
      selected_id = head? selected_ids;
      focused_id = some entry_id;
      anchor_id = some entry_id;
    }

-- `visible.slice(start, end + 1)` between two positions.
unfoldable pub between : ℕ → ℕ → List JsString → List JsString
between i j xs = take (max i j + 1 - min i j) (drop (min i j) xs)

-- The range that is taken, if it is not empty.
unfoldable pub select_slice : PanelTabState → JsString → JsString → List JsString → PanelTabState
select_slice tab entry_id anchor [] = select_single tab entry_id
select_slice tab entry_id anchor (id ∷ ids) = record tab {
  selected_ids = id ∷ ids;
  selected_id = some id;
  focused_id = some entry_id;
  anchor_id = some anchor;
}

-- The range between two positions, if both are found.
unfoldable pub select_span :
    List JsString → PanelTabState → JsString → JsString → Option ℕ → Option ℕ → PanelTabState
select_span visible tab entry_id anchor none _ = select_single tab entry_id
select_span visible tab entry_id anchor (some _) none = select_single tab entry_id
select_span visible tab entry_id anchor (some i) (some j) =
    select_slice tab entry_id anchor (between i j visible)

unfoldable pub select_range : List JsString → PanelTabState → JsString → PanelTabState
select_range visible tab entry_id =
    let anchor = or_else (or_maybe tab.anchor_id tab.focused_id) entry_id in
    select_span visible tab entry_id anchor (index_of visible anchor) (index_of visible entry_id)

unfoldable pub select_entry_tab :
    Host → PanelTabState → JsString → SelectMode → Option PanelTabState
select_entry_tab h tab entry_id single = some (select_single tab entry_id)
select_entry_tab h tab entry_id toggle = some (select_toggle tab entry_id)
select_entry_tab h tab entry_id range = do
  displayed ← select_displayed_entries h tab
  some (
      select_range (keep (λ id. not (is_parent_directory_uri id tab.uri)) (uris_of displayed)) tab
        entry_id)

-- `Math.max(index + delta, 0)`
unfoldable pub shifted : ℕ → ℤ → ℕ
shifted index (pos n) = index + n
shifted index (negsuc n) = index - suc n

unfoldable pub focus_at : ℕ → List FileEntryDto → PanelTabState → Option PanelTabState
focus_at index visible tab = do
  next ← get_elem? visible index
  some (record tab {
    selected_ids = next.uri ∷ [];
    selected_id = some next.uri;
    focused_id = some next.uri;
    anchor_id = some next.uri;
  })

-- `Math.max(0, findIndex(…))`
unfoldable pub current_index : PanelTabState → List FileEntryDto → ℕ
current_index tab visible =
    or_else
      (find_index
        (λ (entry : FileEntryDto). is tab.focused_id entry.uri || is tab.selected_id entry.uri)
        visible)
      0

unfoldable pub move_among : ℤ → PanelTabState → List FileEntryDto → Option PanelTabState
move_among delta tab [] = some (record tab { selected_id = none; focused_id = none })
move_among delta tab (entry ∷ entries) =
    focus_at
      (min (shifted (current_index tab (entry ∷ entries)) delta) (length (entry ∷ entries) - 1))
      (entry ∷ entries) tab

unfoldable pub move_selection_tab : Host → PanelTabState → ℤ → Option PanelTabState
move_selection_tab h tab delta = do
  visible ← select_displayed_entries h tab
  move_among delta tab visible

-- A selection whose first identifier is in focus.
unfoldable pub with_selection : List JsString → PanelTabState → PanelTabState
with_selection ids tab = record tab {
  selected_ids = ids;
  selected_id = head? ids;
  focused_id = head? ids;
  anchor_id = head? ids;
}

unfoldable pub set_selection_tab : Option JsString → PanelTabState → PanelTabState
set_selection_tab entry_id tab = record tab {
  selected_ids = (elim entry_id [ none ↦ [] | some id ↦ if truthy id then id ∷ [] else [] ]);
  selected_id = entry_id;
  focused_id = entry_id;
  anchor_id = entry_id;
}

unfoldable pub set_selection_many_tab : List JsString → PanelTabState → PanelTabState
set_selection_many_tab entry_ids tab =
    let ids = keep (has tab.entries_by_id) entry_ids in
    record tab {
      selected_ids = ids;
      selected_id = get_last? ids;
      focused_id = get_last? ids;
      anchor_id = head? ids;
    }

unfoldable pub select_all_tab : Host → PanelTabState → Option PanelTabState
select_all_tab h tab = do
  entries ← select_visible_entries h tab
  some (with_selection (uris_of entries) tab)

unfoldable pub invert_selection_tab : Host → PanelTabState → Option PanelTabState
invert_selection_tab h tab = do
  entries ← select_visible_entries h tab
  some (with_selection (keep (λ id. not (includes tab.selected_ids id)) (uris_of entries)) tab)

unfoldable pub clear_selection_tab : PanelTabState → PanelTabState
clear_selection_tab tab = record tab {
  selected_ids = [];
  selected_id = none;
  focused_id = none;
  anchor_id = none;
}
