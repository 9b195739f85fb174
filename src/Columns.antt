-- ===== src/Columns.antt =====
-- The columns of the table of files: packages/frontend/src/pane/columnWidths.ts. A width is a whole
-- number of pixels. `JSON.parse` is a parameter.
pub mod Reordering
pub mod Widths
mod Tests
use file_octopus.Base.{
  ℕ, ◌+◌, Bool, true, false, ◌&&◌, ◌||◌, not, Option, none, some, List, [], ◌∷◌, ◌++◌, map,
  JsString, js, ◌==◌, truthy, join, show_nat, any, keep, head?, get_elem?, take, drop, length,
  or_else, leb, max, if◌then◌else◌, ◌>>=◌, ℤ, pos, negsuc,
}

pub data ColumnId : Type 0 where
  name extension size modified kind : ColumnId

-- `Record<ColumnId, A>`
pub record PerColumn {ℓ} (A : Type ℓ) : Type ℓ where
  pub of_name : A
  pub of_extension : A
  pub of_size : A
  pub of_modified : A
  pub of_kind : A

abbrev pub ColumnWidths : Type 0
ColumnWidths = PerColumn ℕ

abbrev pub column_order : List ColumnId
column_order = name ∷ extension ∷ size ∷ modified ∷ kind ∷ []

abbrev pub default_column_widths : ColumnWidths
default_column_widths = record {
  of_name = 220;
  of_extension = 52;
  of_size = 78;
  of_modified = 126;
  of_kind = 110;
}

abbrev pub min_widths : ColumnWidths
min_widths = record {
  of_name = 80;
  of_extension = 30;
  of_size = 30;
  of_modified = 30;
  of_kind = 30;
}

abbrev pub default_visible_columns : List ColumnId
default_visible_columns = column_order

width_of : ColumnWidths → ColumnId → ℕ
width_of widths name = widths.of_name
width_of widths extension = widths.of_extension
width_of widths size = widths.of_size
width_of widths modified = widths.of_modified
width_of widths kind = widths.of_kind

-- The track of a column in the template of the grid.
unfoldable pub track : ColumnWidths → ColumnId → JsString
unfolding width_of
track widths name = js "minmax(" ++ (show_nat (width_of widths name) ++ js "px, 1fr)")
track widths id = show_nat (width_of widths id) ++ js "px"

unfoldable pub build_visible_grid_template : ColumnWidths → List ColumnId → JsString
unfolding track
build_visible_grid_template widths visible = join (js " ") (map (track widths) visible)

-- Between two columns stands the track of a handle.
unfoldable pub header_tracks : ColumnWidths → List ColumnId → List JsString
unfolding track
header_tracks widths [] = []
header_tracks widths (id ∷ []) = track widths id ∷ []
header_tracks widths (id ∷ next ∷ ids) =
    track widths id ∷ js "5px" ∷ header_tracks widths (next ∷ ids)

unfoldable pub build_visible_header_grid_template : ColumnWidths → List ColumnId → JsString
unfolding header_tracks
build_visible_header_grid_template widths visible = join (js " ") (header_tracks widths visible)

unfoldable pub build_grid_template : ColumnWidths → JsString
unfolding track
build_grid_template widths = join (js " ") (map (track widths) column_order)

unfoldable pub build_header_grid_template : ColumnWidths → JsString
unfolding header_tracks
build_header_grid_template widths = join (js " ") (header_tracks widths column_order)

-- What `JSON.parse` gives for widths: the columns whose value is a number.
abbrev pub ParsedWidths : Type 0
ParsedWidths = PerColumn (Option ℤ)

abbrev pub clamp : ℕ → ℤ → ℕ
clamp low (pos width) = max low width
clamp low (negsuc _) = low

-- Widths that are not all numbers are not valid.
unfoldable pub clamp_widths : ParsedWidths → Option ColumnWidths
clamp_widths parsed = do
  of_name ← parsed.of_name
  of_extension ← parsed.of_extension
  of_size ← parsed.of_size
  of_modified ← parsed.of_modified
  of_kind ← parsed.of_kind
  some (record {
    of_name = clamp min_widths.of_name of_name;
    of_extension = clamp min_widths.of_extension of_extension;
    of_size = clamp min_widths.of_size of_size;
    of_modified = clamp min_widths.of_modified of_modified;
    of_kind = clamp min_widths.of_kind of_kind;
  })

-- The stored text that is not empty.
unfoldable pub stored : Option JsString → Option JsString
stored none = none
stored (some raw) = if truthy raw then some raw else none

-- `raw` is the stored text, `none` where there is none or the read throws; `parse` gives `none` where
-- `JSON.parse`, or the look at a field, throws.
unfoldable pub stored_column_widths :
    (JsString → Option ParsedWidths) → Option JsString → ColumnWidths
unfolding stored clamp_widths
stored_column_widths parse raw =
    or_else (do text ← stored raw; parsed ← parse text; clamp_widths parsed) default_column_widths

abbrev pub is_name : ColumnId → Bool
is_name name = true
is_name extension = false
is_name size = false
is_name modified = false
is_name kind = false

abbrev pub is_name? : Option ColumnId → Bool
is_name? none = false
is_name? (some id) = is_name id

column_of : JsString → Option ColumnId
column_of text =
    if text == js "name"
    then some name
    else if text == js "extension"
    then some extension
    else if text == js "size"
    then some size
    else if text == js "modified"
    then some modified
    else if text == js "kind"
    then some kind
    else none

-- The elements of an array, `none` for one that is no text; the columns, if all are known.
unfoldable pub columns_of : List (Option JsString) → Option (List ColumnId)
unfolding column_of
columns_of [] = some []
columns_of (element ∷ elements) = do
  text ← element
  id ← column_of text
  ids ← columns_of elements
  some (id ∷ ids)

-- Columns that are valid: not empty, all known, the name among them.
unfoldable pub valid_visible_columns : List (Option JsString) → Option (List ColumnId)
unfolding columns_of
valid_visible_columns elements = do
  ids ← columns_of elements
  if any is_name ids then some ids else none

unfoldable pub normalize_visible_columns : List ColumnId → List ColumnId
normalize_visible_columns visible =
    if is_name? (head? visible) then visible else name ∷ keep (λ id. not (is_name id)) visible

-- `next.splice(from, 1)` and `next.splice(to, 0, moved)`
unfoldable pub moved_to : List ColumnId → ℕ → ℕ → ColumnId → List ColumnId
moved_to visible from to moved =
    let next = take from visible ++ drop (from + 1) visible in
    take to next ++ (moved ∷ drop to next)

unfoldable pub reorder_at : List ColumnId → ℕ → ℕ → Option ColumnId → List ColumnId
unfolding normalize_visible_columns moved_to
reorder_at visible from to none = normalize_visible_columns visible
reorder_at visible from to (some moved) =
    if is_name moved
    then normalize_visible_columns visible
    else normalize_visible_columns (moved_to visible from (max 1 to) moved)

unfoldable pub reorder_visible_columns : List ColumnId → ℤ → ℤ → List ColumnId
unfolding reorder_at normalize_visible_columns
reorder_visible_columns visible (pos from) (pos to) =
    if leb (length visible) from || leb (length visible) to
    then normalize_visible_columns visible
    else reorder_at visible from to (get_elem? visible from)
reorder_visible_columns visible (negsuc _) to = normalize_visible_columns visible
reorder_visible_columns visible (pos _) (negsuc _) = normalize_visible_columns visible

unfoldable pub visible_or_default : Option (List ColumnId) → List ColumnId
unfolding normalize_visible_columns
visible_or_default none = default_visible_columns
visible_or_default (some ids) = normalize_visible_columns ids

-- `raw` is as above; `parse` gives `none` where `JSON.parse` throws or gives no array.
unfoldable pub stored_visible_columns :
    (JsString → Option (List (Option JsString))) → Option JsString → List ColumnId
unfolding stored valid_visible_columns visible_or_default
stored_visible_columns parse raw =
    visible_or_default (do text ← stored raw; elements ← parse text; valid_visible_columns elements)
