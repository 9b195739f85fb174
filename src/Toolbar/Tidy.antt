-- ===== src/Toolbar/Tidy.antt =====
-- What a normalized toolbar looks like.
use mathlib.Core.List.{append-nil, append_assoc}
use file_octopus.Base.{
  Bool, true, false, ◌||◌, List, [], ◌∷◌, ◌++◌, ◌≡◌, refl, ◌∙◌, sym, ap, ◌⊎◌, inl, inr, JsString,
  ◌==◌, eq_iff, any, get_last?, arith,
}
use file_octopus.Toolbar.{
  ToolbarEntry, command, separator, is_separator, is_command, push_toolbar_entry,
  push_toolbar_entries, drop_first_separators, drop_last_separators, put_before, or_default,
  normalize_toolbar_entries,
}
use file_octopus.Toolbar.Loose.{loose, tidy_from, IsTidy, any-middle, push_toolbar_entries-loose}

drop_first-loose :
    (after : Bool) (xs : List ToolbarEntry)
    → loose after xs ≡ true
    → loose true (drop_first_separators xs) ≡ true
unfolding loose drop_first_separators
drop_first-loose after [] h = refl
drop_first-loose after (separator ∷ xs) h = drop_first-loose true xs (ground arith)
drop_first-loose after (command id ∷ xs) h = h

any-put_before :
    (id : JsString) (e : ToolbarEntry) (ys : List ToolbarEntry)
    → any (is_command id) (put_before e ys) ≡ (is_command id e || any (is_command id) ys)
unfolding put_before
any-put_before id separator [] = refl
any-put_before id (command other) [] = refl
any-put_before id separator (y ∷ ys) = refl
any-put_before id (command other) (y ∷ ys) = refl

any-drop_last :
    (id : JsString) (xs : List ToolbarEntry)
    → any (is_command id) (drop_last_separators xs) ≡ any (is_command id) xs
unfolding drop_last_separators
any-drop_last id [] = refl
any-drop_last id (x ∷ xs) =
    any-put_before id x (drop_last_separators xs)
    ∙ ap (λ b. is_command id x || b) (any-drop_last id xs)

tidy-put_separator :
    (after : Bool) (ys : List ToolbarEntry)
    → after ≡ false
    → (ys ≡ []) ⊎ (tidy_from true ys ≡ true)
    → (put_before separator ys ≡ []) ⊎ (tidy_from after (put_before separator ys) ≡ true)
unfolding put_before tidy_from
tidy-put_separator after [] start h = inl refl
tidy-put_separator after (y ∷ ys) start (inl e) = cc
tidy-put_separator after (y ∷ ys) start (inr h) = inr (rw start h)

tidy-put_command :
    (after : Bool) (id : JsString) (ys : List ToolbarEntry)
    → any (is_command id) ys ≡ false
    → (ys ≡ []) ⊎ (tidy_from false ys ≡ true)
    → tidy_from after (put_before (command id) ys) ≡ true
unfolding put_before tidy_from
tidy-put_command after id [] new h = refl
tidy-put_command after id (y ∷ ys) new (inl e) = cc
tidy-put_command after id (y ∷ ys) new (inr h) = rw new h

drop_last-tidy :
    (after : Bool) (xs : List ToolbarEntry)
    → loose after xs ≡ true
    → (drop_last_separators xs ≡ []) ⊎ (tidy_from after (drop_last_separators xs) ≡ true)
unfolding loose drop_last_separators
drop_last-tidy after [] h = inl refl
drop_last-tidy after (separator ∷ xs) h =
    tidy-put_separator after (drop_last_separators xs) (ground arith)
      (drop_last-tidy true xs (ground arith))
drop_last-tidy after (command id ∷ xs) h = inr (
    tidy-put_command after id (drop_last_separators xs) (any-drop_last id xs ∙ ground arith)
      (drop_last-tidy false xs (ground arith)))

or_default-IsTidy :
    (xs : List ToolbarEntry) → (xs ≡ []) ⊎ (tidy_from true xs ≡ true) → IsTidy (or_default xs)
unfolding or_default tidy_from ◌==◌
or_default-IsTidy [] h = refl
or_default-IsTidy (x ∷ xs) (inl e) = cc
or_default-IsTidy (x ∷ xs) (inr h) = h

-- A normalized toolbar is not empty, neither starts nor ends with a separator, has no two separators
-- side by side, and no command twice.
pub normalize_toolbar_entries-IsTidy :
    (entries : List ToolbarEntry) → IsTidy (normalize_toolbar_entries entries)
unfolding normalize_toolbar_entries loose
normalize_toolbar_entries-IsTidy entries =
    let kept = push_toolbar_entries-loose [] entries refl in
    let first = drop_first-loose false (push_toolbar_entries [] entries) kept in
    or_default-IsTidy _
      (drop_last-tidy true (drop_first_separators (push_toolbar_entries [] entries)) first)

-- A tidy rest is added to a loose list as it is.
separator-clashes :
    (xs ys : List ToolbarEntry) (after : Bool)
    → loose after (xs ++ separator ∷ ys) ≡ true
    → is_separator (get_last? xs) ≡ false
unfolding loose
separator-clashes [] ys after h = refl
separator-clashes (separator ∷ []) ys after h = ground arith
separator-clashes (command id ∷ []) ys after h = refl
separator-clashes (separator ∷ x ∷ xs) ys after h =
    separator-clashes (x ∷ xs) ys true (ground arith)
separator-clashes (command id ∷ x ∷ xs) ys after h =
    separator-clashes (x ∷ xs) ys false (ground arith)

command-clashes :
    (id : JsString) (xs ys : List ToolbarEntry) (after : Bool)
    → loose after (xs ++ command id ∷ ys) ≡ true
    → any (is_command id) xs ≡ false
unfolding loose
command-clashes id [] ys after h = refl
command-clashes id (separator ∷ xs) ys after h = command-clashes id xs ys true (ground arith)
command-clashes id (command other ∷ xs) ys after h = ground (
  arith,
  command-clashes id xs ys false,
  any-middle other xs ys (command id),
  eq_iff other id,
  eq_iff id other,
)

push_toolbar_entries-append :
    (xs ys : List ToolbarEntry)
    → loose false (xs ++ ys) ≡ true
    → push_toolbar_entries xs ys ≡ xs ++ ys
unfolding push_toolbar_entries push_toolbar_entry
push_toolbar_entries-append xs [] h = sym (append-nil xs)
push_toolbar_entries-append xs (separator ∷ ys) h = rw (separator-clashes xs ys false h) (
    push_toolbar_entries-append (xs ++ separator ∷ []) ys
      (rw (append_assoc xs (separator ∷ []) ys) h)
    ∙ append_assoc xs (separator ∷ []) ys)
push_toolbar_entries-append xs (command id ∷ ys) h = rw (command-clashes id xs ys false h) (
    push_toolbar_entries-append (xs ++ command id ∷ []) ys
      (rw (append_assoc xs (command id ∷ []) ys) h)
    ∙ append_assoc xs (command id ∷ []) ys)

tidy-loose :
    (after : Bool) (xs : List ToolbarEntry) → tidy_from after xs ≡ true → loose after xs ≡ true
unfolding tidy_from loose
tidy-loose after [] h = refl
tidy-loose after (separator ∷ xs) h = ground (arith, tidy-loose true xs)
tidy-loose after (command id ∷ xs) h = ground (arith, tidy-loose false xs)

drop_last-tidy_same :
    (after : Bool) (xs : List ToolbarEntry)
    → tidy_from after xs ≡ true
    → drop_last_separators xs ≡ xs
unfolding tidy_from drop_last_separators put_before
drop_last-tidy_same after [] h = refl
drop_last-tidy_same after (separator ∷ []) h = ground arith
drop_last-tidy_same after (command id ∷ []) h = refl
drop_last-tidy_same after (separator ∷ x ∷ xs) h =
    rw (drop_last-tidy_same true (x ∷ xs) (ground arith))
drop_last-tidy_same after (command id ∷ x ∷ xs) h =
    rw (drop_last-tidy_same false (x ∷ xs) (ground arith))

-- A tidy toolbar is normalized to itself.
pub normalize_tidy :
    (entries : List ToolbarEntry) → IsTidy entries → normalize_toolbar_entries entries ≡ entries
unfolding normalize_toolbar_entries or_default drop_first_separators tidy_from loose
normalize_tidy [] h = cc
normalize_tidy (separator ∷ entries) h = cc
normalize_tidy (command id ∷ entries) h = rw (
  push_toolbar_entries-append [] (command id ∷ entries) (tidy-loose true (command id ∷ entries) h),
  drop_last-tidy_same true (command id ∷ entries) h,
)
