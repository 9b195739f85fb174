-- ===== src/Columns/Reordering.antt =====
-- Moving a column of the table.
use mathlib.Core.List.{Perm, perm_middle}
use mathlib.Core.List.Perm
use file_octopus.Base.{
  ℕ, zero, suc, ◌+◌, ◌-◌, ◌≤◌, ◌<◌, true, false, ◌||◌, Option, none, some, List, [], ◌∷◌, ◌++◌, ◌≡◌,
  refl, sym, ap, subst, inl, inr, head?, get_elem?, lt-length_of_get_elem?, take, drop, length, leb,
  max, arith, Bool-cases, ℤ, pos, negsuc,
}
use file_octopus.Columns.{
  ColumnId, name, is_name, is_name?, normalize_visible_columns, moved_to, reorder_at,
  reorder_visible_columns,
}

take-drop : (n : ℕ) (xs : List ColumnId) → take n xs ++ drop n xs ≡ xs
take-drop zero xs = refl
take-drop (suc n) [] = refl
take-drop (suc n) (x ∷ xs) = ap (x ∷◌) (take-drop n xs)

-- A list without the element at a place, and that element before it.
without-Perm :
    (n : ℕ) (xs : List ColumnId) {x : ColumnId}
    → get_elem? xs n ≡ some x
    → Perm (x ∷ (take n xs ++ drop (suc n) xs)) xs
without-Perm n [] h = cc
without-Perm zero (y ∷ ys) {x} h =
    let e : x ≡ y = cc in subst (λ k. Perm (k ∷ ys) (y ∷ ys)) (sym e) (Perm.refl (y ∷ ys))
without-Perm (suc n) (y ∷ ys) {x} h =
    Perm.trans (Perm.swap y x (take n ys ++ drop (suc n) ys)) (Perm.cons y (without-Perm n ys h))

put-Perm :
    (n : ℕ) (xs : List ColumnId) (x : ColumnId) → Perm (take n xs ++ (x ∷ drop n xs)) (x ∷ xs)
put-Perm n xs x =
    subst (λ ys. Perm (take n xs ++ (x ∷ drop n xs)) (x ∷ ys)) (take-drop n xs)
      (perm_middle (take n xs) (drop n xs))

moved_to-Perm :
    (visible : List ColumnId) (from to : ℕ) (moved : ColumnId)
    → get_elem? visible from ≡ some moved
    → Perm (moved_to visible from to moved) visible
unfolding moved_to
moved_to-Perm visible from to moved h =
    let e : from + 1 ≡ suc from = omega arith in
    rw e (
      Perm.trans (put-Perm to (take from visible ++ drop (suc from) visible) moved)
        (without-Perm from visible h))

get_elem?-put :
    (n : ℕ) (xs : List ColumnId) (x : ColumnId)
    → n ≤ length xs
    → get_elem? (take n xs ++ (x ∷ drop n xs)) n ≡ some x
get_elem?-put zero xs x h = refl
get_elem?-put (suc n) [] x h = absurd (omega arith)
get_elem?-put (suc n) (y ∷ ys) x h = get_elem?-put n ys x (omega arith)

length-without :
    (n : ℕ) (xs : List ColumnId)
    → n < length xs
    → length (take n xs ++ drop (suc n) xs) + 1 ≡ length xs
length-without n [] h = absurd (omega arith)
length-without zero (y ∷ ys) h = omega arith
length-without (suc n) (y ∷ ys) h = omega (arith, length-without n ys (omega arith))

normalize-name :
    (ids : List ColumnId) → is_name? (head? ids) ≡ true → normalize_visible_columns ids ≡ ids
unfolding normalize_visible_columns
normalize-name ids h = rw h refl

module _ (rest : List ColumnId) where
  name-moved_to :
      (f to : ℕ) (moved : ColumnId)
      → is_name? (head? (moved_to (name ∷ rest) (suc f) (max 1 to) moved)) ≡ true
  unfolding moved_to
  name-moved_to f to moved = let e : max 1 to ≡ suc (max 1 to - 1) = omega arith in rw e refl

  -- A column is moved: the columns are the same, and the name stays first.
  abbrev IsMoved : List ColumnId → Type 0
  IsMoved ids = Perm ids (name ∷ rest) × (is_name? (head? ids) ≡ true)

  stays : IsMoved (normalize_visible_columns (name ∷ rest))
  stays = rw (normalize-name (name ∷ rest) refl) (Perm.refl (name ∷ rest), refl)

  reorder_at-IsMoved :
      (from to : ℕ) (found : Option ColumnId)
      → get_elem? (name ∷ rest) from ≡ found
      → IsMoved (reorder_at (name ∷ rest) from to found)
  unfolding reorder_at
  reorder_at-IsMoved from to none h = stays
  reorder_at-IsMoved zero to (some moved) h = let e : name ≡ moved = cc in rw (← e) stays
  reorder_at-IsMoved (suc f) to (some moved) h = elim (Bool-cases (is_name moved)) [
    | inl named ↦ rw named stays
    | inr other ↦
        rw
          (
            other,
            normalize-name (moved_to (name ∷ rest) (suc f) (max 1 to) moved)
                (name-moved_to f to moved),
          )
          (moved_to-Perm (name ∷ rest) (suc f) (max 1 to) moved h, name-moved_to f to moved)
  ]

-- Where the name stands first, moving a column from any index to any other, in range or not, gives the
-- same columns in some order, with the name first.
pub reorder_visible_columns-Perm :
    (rest : List ColumnId) (from to : ℤ)
    → Perm (reorder_visible_columns (name ∷ rest) from to) (name ∷ rest)
      × (is_name? (head? (reorder_visible_columns (name ∷ rest) from to)) ≡ true)
unfolding reorder_visible_columns
reorder_visible_columns-Perm rest (negsuc n) to = stays rest
reorder_visible_columns-Perm rest (pos from) (negsuc n) = stays rest
reorder_visible_columns-Perm rest (pos from) (pos to) =
    elim (Bool-cases (leb (length (name ∷ rest)) from || leb (length (name ∷ rest)) to)) [
      | inl out ↦ rw out (stays rest)
      | inr within ↦ rw within (reorder_at-IsMoved rest from to (get_elem? (name ∷ rest) from) refl)
    ]

-- Where the name stands first, a column other than the name that is moved to another index of the table
-- stands there afterwards, or second, if the index is the first one.
pub get_elem?-reorder_visible_columns :
    (rest : List ColumnId) (f to : ℕ) (moved : ColumnId)
    → get_elem? rest f ≡ some moved
    → is_name moved ≡ false
    → to ≤ length rest
    → get_elem? (reorder_visible_columns (name ∷ rest) (pos (suc f)) (pos to)) (max 1 to)
      ≡ some moved
unfolding reorder_visible_columns reorder_at moved_to
get_elem?-reorder_visible_columns rest f to moved h other high =
    let low = lt-length_of_get_elem? rest f h in
    let within : (leb (length (name ∷ rest)) (suc f) || leb (length (name ∷ rest)) to) ≡ false =
      ground arith in
    let e : suc f + 1 ≡ suc (suc f) = omega arith in
    rw
      (
        within,
        h,
        other,
        normalize-name (moved_to (name ∷ rest) (suc f) (max 1 to) moved)
            (name-moved_to rest f to moved),
        e,
      )
      (get_elem?-put (max 1 to) (name ∷ (take f rest ++ drop (suc f) rest)) moved
        (omega (arith, length-without f rest low)))
