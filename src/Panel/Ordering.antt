-- ===== src/Panel/Ordering.antt =====
-- The sort of the visible entries (packages/frontend/src/paneSort.ts).
use mathlib.Core.List.{Perm}
use mathlib.Core.List.Perm
use file_octopus.Base.{
  true, false, List, [], ◌∷◌, ◌≡◌, ◌⊎◌, inl, inr, is_neg, All, arith, Bool-cases,
}
use file_octopus.Panel.Entry.{FileEntryDto}
use file_octopus.Panel.Host.{Host}
use file_octopus.Panel.Types.{SortState}
use file_octopus.Panel.Order.{is_directory, compare_entries, insert_entry, sort_entries}

module _ (h : Host) (sort : SortState) where
  abbrev IsPlain : FileEntryDto → Type 0
  IsPlain entry = is_directory entry.kind ≡ false

  -- No directory stands after an entry of another kind.
  abbrev pub DirectoriesFirst : List FileEntryDto → Type 0
  DirectoriesFirst [] = Unit
  DirectoriesFirst (x ∷ xs) = ((is_directory x.kind ≡ true) ⊎ All IsPlain xs) × DirectoriesFirst xs

  All-insert_entry :
      (x : FileEntryDto) (xs : List FileEntryDto)
      → IsPlain x
      → All IsPlain xs
      → All IsPlain (insert_entry h sort x xs)
  unfolding insert_entry
  All-insert_entry x [] p a = (p, tt)
  All-insert_entry x (y ∷ ys) p a = elim (Bool-cases (is_neg (compare_entries h y x sort))) [
    | inl e ↦ rw e (a.0, All-insert_entry x ys p a.1)
    | inr e ↦ rw e (p, (a.0, a.1))
  ]

  -- Between a directory and an entry of another kind the directory comes first.
  compare_kinds :
      (x y : FileEntryDto)
      → sort.directories_first ≡ true
      → IsPlain x
      → is_neg (compare_entries h x y sort) ≡ true
      → IsPlain y
  unfolding compare_entries
  compare_kinds x y first p e = elim (Bool-cases (is_directory y.kind)) [
    | inl d ↦ absurd (ground (arith, rw (first, p, d) at e))
    | inr d ↦ d
  ]

  IsPlain-after :
      (y x : FileEntryDto)
      → sort.directories_first ≡ true
      → IsPlain x
      → is_neg (compare_entries h y x sort) ≡ false
      → IsPlain y
  unfolding compare_entries
  IsPlain-after y x first p e = elim (Bool-cases (is_directory y.kind)) [
    | inl k ↦ absurd (ground (arith, rw (first, k, p) at e))
    | inr k ↦ k
  ]

  All-IsPlain :
      (x : FileEntryDto) (xs : List FileEntryDto)
      → (is_directory x.kind ≡ true) ⊎ All IsPlain xs
      → IsPlain x
      → All IsPlain xs
  All-IsPlain x xs (inl d) p = cc
  All-IsPlain x xs (inr a) p = a

  insert_entry-DirectoriesFirst :
      (x : FileEntryDto) (xs : List FileEntryDto)
      → sort.directories_first ≡ true
      → DirectoriesFirst xs
      → DirectoriesFirst (insert_entry h sort x xs)
  unfolding insert_entry
  insert_entry-DirectoriesFirst x [] first d = (inr tt, tt)
  insert_entry-DirectoriesFirst x (y ∷ ys) first d =
      elim (Bool-cases (is_neg (compare_entries h y x sort))) [
        | inl e ↦ rw e (
          elim (Bool-cases (is_directory y.kind)) [
            | inl k ↦ inl k
            | inr p ↦
                inr (All-insert_entry x ys (compare_kinds y x first p e) (All-IsPlain y ys d.0 p))
          ],
          insert_entry-DirectoriesFirst x ys first d.1,
        )
        | inr e ↦ rw e (
          elim (Bool-cases (is_directory x.kind)) [
            | inl k ↦ inl k
            | inr p ↦ let q = IsPlain-after y x first p e in inr (q, All-IsPlain y ys d.0 q)
          ],
          (d.0, d.1),
        )
      ]

  insert_entry-Perm :
      (x : FileEntryDto) (xs : List FileEntryDto) → Perm (insert_entry h sort x xs) (x ∷ xs)
  unfolding insert_entry
  insert_entry-Perm x [] = Perm.refl (x ∷ [])
  insert_entry-Perm x (y ∷ ys) = elim (Bool-cases (is_neg (compare_entries h y x sort))) [
    | inl e ↦ rw e (Perm.trans (Perm.cons y (insert_entry-Perm x ys)) (Perm.swap x y ys))
    | inr e ↦ rw e (Perm.refl (x ∷ y ∷ ys))
  ]

  -- The sort gives the same entries, each as often as before, in some order.
  pub sort_entries-Perm : (entries : List FileEntryDto) → Perm (sort_entries h sort entries) entries
  unfolding sort_entries
  sort_entries-Perm [] = Perm.refl []
  sort_entries-Perm (x ∷ xs) =
      Perm.trans (insert_entry-Perm x (sort_entries h sort xs)) (Perm.cons x (sort_entries-Perm xs))

  -- With directories first no directory stands after an entry of another kind, whatever the field and
  -- the direction of the sort, and however the host compares names.
  pub sort_entries-DirectoriesFirst :
      (entries : List FileEntryDto)
      → sort.directories_first ≡ true
      → DirectoriesFirst (sort_entries h sort entries)
  unfolding sort_entries
  sort_entries-DirectoriesFirst [] first = tt
  sort_entries-DirectoriesFirst (x ∷ xs) first =
      insert_entry-DirectoriesFirst x (sort_entries h sort xs) first
        (sort_entries-DirectoriesFirst xs first)
