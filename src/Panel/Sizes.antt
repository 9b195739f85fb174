-- ===== src/Panel/Sizes.antt =====
-- The sort by size (packages/frontend/src/paneSort.ts).
use mathlib.Core.List.{Perm}
use file_octopus.Base.{
  ℕ, suc, ◌+◌, ◌-◌, ◌<◌, Bool, true, false, ◌&&◌, ◌||◌, Option, none, some, List, [], ◌∷◌, ◌≡◌,
  refl, ◌⊎◌, inl, inr, ℤ, pos, negsuc, ◌-ℤ◌, sub_ℕ, is_neg, negate, All, ltb, leb, eqb, arith,
  Bool-cases, if◌then◌else◌,
}
use file_octopus.Panel.Entry.{FileEntryDto}
use file_octopus.Panel.Host.{Host}
use file_octopus.Panel.Types.{SortField, SortDirection, asc, desc, SortState}
use file_octopus.Panel.Order.{
  is_directory, size_value, or_then, directed, compare_field, compare_entries, insert_entry,
  sort_entries,
}
use file_octopus.Panel.Ordering.{sort_entries-Perm}

-- A missing size counts less than every size.
abbrev size_key : Option ℕ → ℕ
size_key none = 0
size_key (some n) = suc n

abbrev in_direction : SortDirection → ℕ → ℕ → Bool
in_direction asc a b = leb a b
in_direction desc a b = leb b a

-- Directories come before the others where the sort says so.
abbrev rank : SortState → FileEntryDto → ℕ
rank sort e = if sort.directories_first then (if is_directory e.kind then 0 else 1) else 0

-- What may stand before what in a sort by size.
abbrev pub may_precede : SortState → FileEntryDto → FileEntryDto → Bool
may_precede sort x y =
    ltb (rank sort x) (rank sort y)
    || (eqb (rank sort x) (rank sort y)
        && in_direction sort.direction (size_key x.size) (size_key y.size))

-- Each entry may stand before all that follow.
abbrev pub IsSizeOrdered : SortState → List FileEntryDto → Type 0
IsSizeOrdered sort [] = Unit
IsSizeOrdered sort (x ∷ xs) = All (λ y. may_precede sort x y ≡ true) xs × IsSizeOrdered sort xs

-- A difference is negative, zero or positive.
sub_cases :
    (p q : ℕ)
    → ((p < q) × (k : ℕ) × (sub_ℕ p q ≡ negsuc k))
      ⊎ ((p ≡ q) × (sub_ℕ p q ≡ pos 0))
      ⊎ ((q < p) × (k : ℕ) × (sub_ℕ p q ≡ pos (suc k)))
sub_cases p q = elim (Bool-cases (leb q p)) [
  | inl e ↦ elim (Bool-cases (leb p q)) [
    | inl f ↦ inr (inl (ground arith, ground arith))
    | inr f ↦ inr (inr (ground arith, p - q - 1, ground arith))
  ]
  | inr e ↦ inl (ground arith, q - p - 1, ground arith)
]

HasSign : ℕ → ℕ → ℤ → Type 0
HasSign p q d =
    ((p < q) × (k : ℕ) × (d ≡ negsuc k))
    ⊎ ((p ≡ q) × (d ≡ pos 0))
    ⊎ ((q < p) × (k : ℕ) × (d ≡ pos (suc k)))

shifted-HasSign :
    (p q p' q' : ℕ) (d : ℤ)
    → ((p < q → p' < q') × (p ≡ q → p' ≡ q') × (q < p → q' < p'))
    → HasSign p q d
    → HasSign p' q' d
unfolding HasSign
shifted-HasSign p q p' q' d t (inl (l, k, e)) = inl (t.0 l, k, e)
shifted-HasSign p q p' q' d t (inr (inl (l, e))) = inr (inl (t.1 l, e))
shifted-HasSign p q p' q' d t (inr (inr (l, k, e))) = inr (inr (t.2 l, k, e))

size_value-HasSign :
    (a b : Option ℕ) → HasSign (size_key a) (size_key b) (size_value a -ℤ size_value b)
unfolding HasSign ◌-ℤ◌ size_value
size_value-HasSign none none =
    shifted-HasSign 1 1 0 0 _ (λ l. omega arith, λ l. refl, λ l. omega arith) (sub_cases 1 1)
size_value-HasSign none (some n) =
    shifted-HasSign (0 + 0) (1 + n) 0 (suc n) _
      (λ l. omega arith, λ l. omega arith, λ l. omega arith) (sub_cases (0 + 0) (1 + n))
size_value-HasSign (some m) none =
    shifted-HasSign (m + 1) (0 + 0) (suc m) 0 _
      (λ l. omega arith, λ l. omega arith, λ l. omega arith) (sub_cases (m + 1) (0 + 0))
size_value-HasSign (some m) (some n) =
    shifted-HasSign (m + 0) (0 + n) (suc m) (suc n) _
      (λ l. omega arith, λ l. omega arith, λ l. omega arith) (sub_cases (m + 0) (0 + n))

-- What a negative comparison says of two numbers, and what another one says.
signs :
    (p q : ℕ) (d z : ℤ) (direction : SortDirection)
    → HasSign p q d
    → (is_neg (directed direction (or_then d z)) ≡ true → in_direction direction p q ≡ true)
      × (is_neg (directed direction (or_then d z)) ≡ false → in_direction direction q p ≡ true)
unfolding HasSign directed or_then negate
signs p q d z asc (inl (l, k, e)) = rw e (λ h. ground arith, λ h. cc)
signs p q d z asc (inr (inl (l, e))) = (λ h. ground arith, λ h. ground arith)
signs p q d z asc (inr (inr (l, k, e))) = rw e (λ h. cc, λ h. ground arith)
signs p q d z desc (inl (l, k, e)) = rw e (λ h. cc, λ h. ground arith)
signs p q d z desc (inr (inl (l, e))) = (λ h. ground arith, λ h. ground arith)
signs p q d z desc (inr (inr (l, k, e))) = rw e (λ h. ground arith, λ h. cc)

chained :
    (direction : SortDirection) (a b c p q r : ℕ)
    → (ltb a b || (eqb a b && in_direction direction p q)) ≡ true
    → (ltb b c || (eqb b c && in_direction direction q r)) ≡ true
    → (ltb a c || (eqb a c && in_direction direction p r)) ≡ true
chained asc a b c p q r e f = ground arith
chained desc a b c p q r e f = ground arith

All-may_precede :
    (sort : SortState) (x y : FileEntryDto) (ys : List FileEntryDto)
    → may_precede sort x y ≡ true
    → All (λ z. may_precede sort y z ≡ true) ys
    → All (λ z. may_precede sort x z ≡ true) ys
All-may_precede sort x y [] l a = tt
All-may_precede sort x y (z ∷ ys) l a = (
  chained sort.direction (rank sort x) (rank sort y) (rank sort z) (size_key x.size)
      (size_key y.size) (size_key z.size) l a.0,
  All-may_precede sort x y ys l a.1,
)

module _ (h : Host) (sort : SortState) (by_size : sort.field ≡ SortField.size) where
  compare_signs :
      (x y : FileEntryDto)
      → (is_neg (compare_entries h x y sort) ≡ true → may_precede sort x y ≡ true)
        × (is_neg (compare_entries h x y sort) ≡ false → may_precede sort y x ≡ true)
  unfolding compare_entries compare_field
  compare_signs x y =
      let s =
        signs (size_key x.size) (size_key y.size) (size_value x.size -ℤ size_value y.size)
          (h.locale_compare x.name y.name) sort.direction (size_value-HasSign x.size y.size) in
      rw by_size (elim (Bool-cases sort.directories_first) [
        | inl first ↦ elim (Bool-cases (is_directory x.kind)) [
          | inl dx ↦ elim (Bool-cases (is_directory y.kind)) [
            | inl dy ↦ rw (first, dx, dy) s
            | inr dy ↦ rw (first, dx, dy) (λ i. refl, λ i. cc)
          ]
          | inr dx ↦ elim (Bool-cases (is_directory y.kind)) [
            | inl dy ↦ rw (first, dx, dy) (λ i. cc, λ i. refl)
            | inr dy ↦ rw (first, dx, dy) s
          ]
        ]
        | inr first ↦ rw first s
      ])

  All-insert :
      (P : FileEntryDto → Type 0) (x : FileEntryDto) (xs : List FileEntryDto)
      → P x
      → All P xs
      → All P (insert_entry h sort x xs)
  unfolding insert_entry
  All-insert P x [] p a = (p, tt)
  All-insert P x (y ∷ ys) p a = elim (Bool-cases (is_neg (compare_entries h y x sort))) [
    | inl e ↦ rw e (a.0, All-insert P x ys p a.1)
    | inr e ↦ rw e (p, (a.0, a.1))
  ]

  insert_entry-IsSizeOrdered :
      (x : FileEntryDto) (xs : List FileEntryDto)
      → IsSizeOrdered sort xs
      → IsSizeOrdered sort (insert_entry h sort x xs)
  unfolding insert_entry
  insert_entry-IsSizeOrdered x [] d = (tt, tt)
  insert_entry-IsSizeOrdered x (y ∷ ys) d =
      elim (Bool-cases (is_neg (compare_entries h y x sort))) [
        | inl e ↦ rw e (
          All-insert (λ z. may_precede sort y z ≡ true) x ys ((compare_signs y x).0 e) d.0,
          insert_entry-IsSizeOrdered x ys d.1,
        )
        | inr e ↦
            let l = (compare_signs y x).1 e in
            rw e ((l, All-may_precede sort x y ys l d.0), (d.0, d.1))
      ]

  size_ordered : (entries : List FileEntryDto) → IsSizeOrdered sort (sort_entries h sort entries)
  unfolding sort_entries
  size_ordered [] = tt
  size_ordered (x ∷ xs) = insert_entry-IsSizeOrdered x (sort_entries h sort xs) (size_ordered xs)

  -- Sorted by size, the same entries stand so that each may precede all that follow: directories
  -- before the others where the sort says so, and besides in the order of their sizes, upwards or
  -- downwards, a missing size being less than every size, however the host compares names.
  pub sort_entries-IsSizeOrdered :
      (entries : List FileEntryDto)
      → IsSizeOrdered sort (sort_entries h sort entries)
        × Perm (sort_entries h sort entries) entries
  sort_entries-IsSizeOrdered entries = (size_ordered entries, sort_entries-Perm h sort entries)
