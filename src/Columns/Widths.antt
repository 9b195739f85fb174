-- ===== src/Columns/Widths.antt =====
-- What is read of the stored columns, whatever is stored.
use file_octopus.Base.{
  ℕ, ◌≤◌, true, Option, none, some, List, ◌≡◌, refl, inl, inr, JsString, head?, or_else, arith,
  Bool-cases, Option-cases, ◌>>=◌, ℤ, pos, negsuc,
}
use file_octopus.Columns.{
  ColumnId, ColumnWidths, ParsedWidths, default_column_widths, clamp, clamp_widths, stored,
  stored_column_widths, is_name?, normalize_visible_columns, valid_visible_columns,
  stored_visible_columns,
}

-- No column is narrower than its least width.
pub record AreWide (widths : ColumnWidths) : Type 0 where
  of_name : 80 ≤ widths.of_name
  of_extension : 30 ≤ widths.of_extension
  of_size : 30 ≤ widths.of_size
  of_modified : 30 ≤ widths.of_modified
  of_kind : 30 ≤ widths.of_kind

le-clamp : (low : ℕ) (width : ℤ) → low ≤ clamp low width
le-clamp low (pos width) = omega arith
le-clamp low (negsuc width) = omega arith

default_AreWide : AreWide default_column_widths
default_AreWide = omega arith

-- Each result of a computation is wide.
abbrev Widens : Option ColumnWidths → Type 0
Widens none = Unit
Widens (some widths) = AreWide widths

clamp_widths-Widens : (parsed : ParsedWidths) → Widens (clamp_widths parsed)
unfolding clamp_widths
clamp_widths-Widens parsed = elim (Option-cases parsed.of_name) [
  | inl e ↦ rw e tt
  | inr (a, e) ↦ elim (Option-cases parsed.of_extension) [
    | inl f ↦ rw (e, f) tt
    | inr (b, f) ↦ elim (Option-cases parsed.of_size) [
      | inl g ↦ rw (e, f, g) tt
      | inr (c, g) ↦ elim (Option-cases parsed.of_modified) [
        | inl h ↦ rw (e, f, g, h) tt
        | inr (d, h) ↦ elim (Option-cases parsed.of_kind) [
          | inl k ↦ rw (e, f, g, h, k) tt
          | inr (i, k) ↦
              rw (e, f, g, h, k)
                (record {
                  of_name = le-clamp 80 a;
                  of_extension = le-clamp 30 b;
                  of_size = le-clamp 30 c;
                  of_modified = le-clamp 30 d;
                  of_kind = le-clamp 30 i;
                })
        ]
      ]
    ]
  ]
]

or_else-AreWide : (o : Option ColumnWidths) → Widens o → AreWide (or_else o default_column_widths)
or_else-AreWide none h = default_AreWide
or_else-AreWide (some widths) h = h

>>=-Widens :
    {A : Type 0} (o : Option A) (f : A → Option ColumnWidths)
    → ((a : A) → Widens (f a))
    → Widens (o >>= f)
>>=-Widens none f h = tt
>>=-Widens (some a) f h = h a

pub name-normalize : (ids : List ColumnId) → is_name? (head? (normalize_visible_columns ids)) ≡ true
unfolding normalize_visible_columns
name-normalize ids = elim (Bool-cases (is_name? (head? ids))) [
  | inl first ↦ rw (first, first) refl
  | inr other ↦ rw other refl
]

-- Whatever text is stored, and whatever is parsed of it, no column is narrower than its least width, and
-- the visible columns start with the name.
pub stored-AreWide :
    (parse_widths : JsString → Option ParsedWidths)
    (parse_columns : JsString → Option (List (Option JsString))) (raw : Option JsString)
    → AreWide (stored_column_widths parse_widths raw)
      × (is_name? (head? (stored_visible_columns parse_columns raw)) ≡ true)
unfolding stored_column_widths stored_visible_columns
stored-AreWide parse_widths parse_columns raw = (
  or_else-AreWide _ (
      >>=-Widens (stored raw) _
        λ text. >>=-Widens (parse_widths text) _ λ parsed. clamp_widths-Widens parsed),
  elim (Option-cases
      (do text ← stored raw; elements ← parse_columns text; valid_visible_columns elements)) [
        | inl e ↦ rw e refl
        | inr (ids, e) ↦ rw e (name-normalize ids)
      ],
)
