-- ===== src/Toolbar/Loose.antt =====
-- Lists of a toolbar without doubled separators and commands: packages/frontend/src/commands/toolbarConfig.ts.
use file_octopus.Base.{
  Bool, true, false, ◌&&◌, ◌||◌, not, List, [], ◌∷◌, ◌++◌, ◌≡◌, refl, inl, inr, JsString, eq_iff,
  any, get_last?, arith, Bool-cases,
}
use file_octopus.Toolbar.{
  ToolbarEntry, command, separator, is_separator, is_command, push_toolbar_entry,
  push_toolbar_entries,
}

-- No two separators stand side by side, and no command stands twice. `after` says that a separator
-- stands before the list.
unfoldable pub loose : Bool → List ToolbarEntry → Bool
loose after [] = true
loose after (separator ∷ entries) = not after && loose true entries
loose after (command id ∷ entries) = not (any (is_command id) entries) && loose false entries

-- Besides, the list does not end with a separator, nor is it empty after one.
unfoldable pub tidy_from : Bool → List ToolbarEntry → Bool
tidy_from after [] = not after
tidy_from after (separator ∷ entries) = not after && tidy_from true entries
tidy_from after (command id ∷ entries) =
    not (any (is_command id) entries) && tidy_from false entries

-- A toolbar that is not empty, neither starts nor ends with a separator, has no two separators side by
-- side, and no command twice.
abbrev pub IsTidy : List ToolbarEntry → Type 0
IsTidy entries = tidy_from true entries ≡ true

any-append :
    (id : JsString) (xs : List ToolbarEntry) (e : ToolbarEntry)
    → any (is_command id) (xs ++ e ∷ []) ≡ (any (is_command id) xs || is_command id e)
any-append id [] e = ground arith
any-append id (x ∷ xs) e = ground (arith, any-append id xs e)

pub any-middle :
    (id : JsString) (xs ys : List ToolbarEntry) (e : ToolbarEntry)
    → any (is_command id) (xs ++ e ∷ ys)
      ≡ (any (is_command id) xs || (is_command id e || any (is_command id) ys))
any-middle id [] ys e = refl
any-middle id (x ∷ xs) ys e = ground (arith, any-middle id xs ys e)

loose-append_command :
    (id : JsString) (after : Bool) (xs : List ToolbarEntry)
    → any (is_command id) xs ≡ false
    → loose after xs ≡ true
    → loose after (xs ++ command id ∷ []) ≡ true
unfolding loose
loose-append_command id after [] new h = refl
loose-append_command id after (separator ∷ xs) new h =
    ground (arith, loose-append_command id true xs)
loose-append_command id after (command other ∷ xs) new h = ground (
  arith,
  loose-append_command id false xs,
  any-append other xs (command id),
  eq_iff other id,
  eq_iff id other,
)

loose-append_separator :
    (after : Bool) (x : ToolbarEntry) (xs : List ToolbarEntry)
    → is_separator (get_last? (x ∷ xs)) ≡ false
    → loose after (x ∷ xs) ≡ true
    → loose after (x ∷ (xs ++ separator ∷ [])) ≡ true
unfolding loose
loose-append_separator after separator [] last h = cc
loose-append_separator after (command id) [] last h = refl
loose-append_separator after separator (y ∷ xs) last h =
    ground (arith, loose-append_separator true y xs last)
loose-append_separator after (command id) (y ∷ xs) last h =
    ground (arith, loose-append_separator false y xs last, any-append id (y ∷ xs) separator)

add_separator-loose :
    (xs : List ToolbarEntry)
    → loose false xs ≡ true
    → loose false (push_toolbar_entry xs separator) ≡ true
unfolding loose push_toolbar_entry
add_separator-loose [] h = refl
add_separator-loose (x ∷ xs) h = elim (Bool-cases (is_separator (get_last? (x ∷ xs)))) [
  | inl last ↦ rw last h
  | inr last ↦ rw last (loose-append_separator false x xs last h)
]

push_toolbar_entry-loose :
    (xs : List ToolbarEntry) (e : ToolbarEntry)
    → loose false xs ≡ true
    → loose false (push_toolbar_entry xs e) ≡ true
unfolding push_toolbar_entry
push_toolbar_entry-loose xs separator h = add_separator-loose xs h
push_toolbar_entry-loose xs (command id) h = elim (Bool-cases (any (is_command id) xs)) [
  | inl old ↦ rw old h
  | inr new ↦ rw new (loose-append_command id false xs new h)
]

pub push_toolbar_entries-loose :
    (xs entries : List ToolbarEntry)
    → loose false xs ≡ true
    → loose false (push_toolbar_entries xs entries) ≡ true
unfolding push_toolbar_entries
push_toolbar_entries-loose xs [] h = h
push_toolbar_entries-loose xs (e ∷ entries) h =
    push_toolbar_entries-loose (push_toolbar_entry xs e) entries (push_toolbar_entry-loose xs e h)
