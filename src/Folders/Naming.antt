-- ===== src/Folders/Naming.antt =====
-- The search for the name of a new folder ends, and finds a name that is not in use.
use file_octopus.Base.{
  ℕ, zero, suc, ◌+◌, ◌≤◌, ◌<◌, ◌≡◌, refl, ap, inl, inr, true, false, some, List, [], ◌∷◌, ◌++◌,
  JsString, ◌==◌, eq_iff, includes, show_nat-injective, length, arith, Bool-cases, if◌then◌else◌,
}
use file_octopus.Panel.Entry.{FileEntryDto}
use file_octopus.Folders.{
  default_folder_name, numbered, directory_names, free_suffix, free_name, next_folder_name,
}

tail_of : JsString → JsString
tail_of [] = []
tail_of (_ ∷ s) = s

append-injective : (xs ys zs : JsString) → xs ++ ys ≡ xs ++ zs → ys ≡ zs
unfolding tail_of
append-injective [] ys zs e = e
append-injective (x ∷ xs) ys zs e = append-injective xs ys zs (ap tail_of e)

numbered-injective : (m n : ℕ) → numbered m ≡ numbered n → m ≡ n
unfolding numbered tail_of
numbered-injective m n e =
    show_nat-injective m n (ap tail_of (append-injective default_folder_name _ _ e))

-- `xs` without `x`.
other_than : JsString → List JsString → List JsString
other_than x [] = []
other_than x (y ∷ ys) = let rest = other_than x ys in if y == x then rest else y ∷ rest

length-other_than-le : (x : JsString) (xs : List JsString) → length (other_than x xs) ≤ length xs
unfolding other_than
length-other_than-le x [] = omega arith
length-other_than-le x (y ∷ ys) = ground (arith, length-other_than-le x ys)

length-other_than-lt :
    (x : JsString) (xs : List JsString)
    → includes xs x ≡ true
    → length (other_than x xs) < length xs
unfolding other_than includes
length-other_than-lt x [] h = cc
length-other_than-lt x (y ∷ ys) h =
    ground (arith, length-other_than-le x ys, length-other_than-lt x ys)

includes-other_than :
    (x y : JsString) (xs : List JsString)
    → includes (other_than x xs) y ≡ false
    → (x == y) ≡ false
    → includes xs y ≡ false
unfolding other_than includes
includes-other_than x y [] h e = refl
includes-other_than x y (z ∷ zs) h e =
    ground (arith, eq_iff z x, eq_iff z y, eq_iff x y, includes-other_than x y zs)

-- Among more numbers than there are names, one is free.
free_number :
    (fuel suffix : ℕ) (existing : List JsString)
    → length existing < fuel
    → (k : ℕ) × (suffix ≤ k) × (k < suffix + fuel) × (includes existing (numbered k) ≡ false)
free_number zero suffix existing h = absurd (omega arith)
free_number (suc fuel) suffix existing h = elim (Bool-cases (includes existing (numbered suffix))) [
  | inr free ↦ (suffix, omega arith, omega arith, free)
  | inl used ↦
      let shorter = length-other_than-lt (numbered suffix) existing used in
      let (k, low, high, free) =
        free_number fuel (suffix + 1) (other_than (numbered suffix) existing) (omega arith) in
      let other : (numbered suffix == numbered k) ≡ false =
        ground (arith, eq_iff (numbered suffix) (numbered k), numbered-injective suffix k, low) in
      (
        k,
        omega arith,
        omega arith,
        includes-other_than (numbered suffix) (numbered k) existing free other,
      )
]

-- The loop finds a free number where there is one within its fuel.
free_suffix-some :
    (fuel suffix k : ℕ) (existing : List JsString)
    → suffix ≤ k
    → k < suffix + fuel
    → includes existing (numbered k) ≡ false
    → (r : ℕ) × (free_suffix fuel suffix existing ≡ some r)
      × (includes existing (numbered r) ≡ false)
unfolding free_suffix
free_suffix-some zero suffix k existing low high free = absurd (omega arith)
free_suffix-some (suc fuel) suffix k existing low high free =
    elim (Bool-cases (includes existing (numbered suffix))) [
      | inr here ↦ (suffix, rw here refl, here)
      | inl used ↦ rw used (
          free_suffix-some fuel (suffix + 1) k existing
            (let ne : suffix ≡ k → ⊥ = λ e. cc (used, free, ap numbered e) in ground (arith, ne))
            (omega arith) free)
    ]

-- The search for the name of a new folder ends with a name, and no directory of the listing has that
-- name.
pub next_folder_name_free :
    (entries : List FileEntryDto)
    → (name : JsString) × (next_folder_name entries ≡ some name)
      × (includes (directory_names entries) name ≡ false)
unfolding next_folder_name free_name
next_folder_name_free entries =
    elim (Bool-cases (includes (directory_names entries) default_folder_name)) [
      | inr free ↦ (default_folder_name, rw free refl, free)
      | inl used ↦
          let existing = directory_names entries in
          let (k, low, high, free) = free_number (suc (length existing)) 2 existing (omega arith) in
          let (r, found, unused) =
            free_suffix-some (suc (length existing)) 2 k existing low high free in
          (numbered r, rw (used, found) refl, unused)
    ]
