-- ===== src/Columns/Tests.antt =====
-- Runs on concrete columns, and the theorems at them.
use mathlib.Core.List.{Perm}
use file_octopus.Base.{
  true, none, some, List, [], ◌∷◌, ◌≡◌, refl, js, head?, get_elem?, max, pos, negsuc, arith,
}
use file_octopus.Columns.{
  ColumnId, ParsedWidths, name, extension, size, kind, is_name?, reorder_visible_columns,
  reorder_at, moved_to, normalize_visible_columns, stored_column_widths, stored_visible_columns,
}
use file_octopus.Columns.Reordering.{
  reorder_visible_columns-Perm, get_elem?-reorder_visible_columns,
}
use file_octopus.Columns.Widths.{AreWide, stored-AreWide}

abbrev rest : List ColumnId
rest = extension ∷ size ∷ kind ∷ []

second : reorder_visible_columns (name ∷ rest) (pos 3) (pos 0) ≡ name ∷ kind ∷ extension ∷ size ∷ []
unfolding reorder_visible_columns reorder_at moved_to normalize_visible_columns
second = refl

reorder_visible_columns-Perm_example :
    Perm (reorder_visible_columns (name ∷ rest) (pos 3) (negsuc 0)) (name ∷ rest)
    × (is_name? (head? (reorder_visible_columns (name ∷ rest) (pos 3) (negsuc 0))) ≡ true)
reorder_visible_columns-Perm_example = reorder_visible_columns-Perm rest (pos 3) (negsuc 0)

get_elem?-reorder_visible_columns_example :
    get_elem? (reorder_visible_columns (name ∷ rest) (pos 3) (pos 1)) (max 1 1) ≡ some kind
get_elem?-reorder_visible_columns_example =
    get_elem?-reorder_visible_columns rest 2 1 kind refl refl (omega arith)

abbrev narrow : ParsedWidths
narrow = record {
  of_name = some (negsuc 4);
  of_extension = some (pos 3);
  of_size = some (pos 300);
  of_modified = some (pos 30);
  of_kind = some (pos 0);
}

stored-AreWide_example :
    AreWide (stored_column_widths (λ _. some narrow) (some (js "{}")))
    × (is_name? (
          head?
            (stored_visible_columns (λ _. some (some (js "name") ∷ none ∷ [])) (some (js "{}"))))
        ≡ true)
stored-AreWide_example =
    stored-AreWide (λ _. some narrow) (λ _. some (some (js "name") ∷ none ∷ [])) (some (js "{}"))
