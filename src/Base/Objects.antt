-- ===== src/Base/Objects.antt =====
-- Objects used as dictionaries: association lists in the order of insertion.
use mathlib.Core.Path.{◌≡◌, refl, subst}
use mathlib.Core.Logic.{inl, inr}
use mathlib.Core.Bool.{Bool, true, false}
use mathlib.Core.Option.{Option, none, some}
use mathlib.Core.List.{List, [], ◌∷◌}
use native.Mathlib.Omega.{arith}
use file_octopus.Base.Lists.{find}
use file_octopus.Base.Tests.{if◌then◌else◌, is_some, Bool-cases}
use file_octopus.Base.Text.{JsString, ◌==◌, eq_iff, includes}

abbrev pub Dict {ℓ} : Type ℓ → Type ℓ
Dict V = List (JsString × V)

module _ {ℓ} {V : Type ℓ} where
  -- `d[key]`
  unfoldable pub lookup : JsString → Dict V → Option V
  lookup key [] = none
  lookup key ((k, v) ∷ d) = if k == key then some v else lookup key d

  -- `{ ...d, [key]: v }`: an old key keeps its place.
  unfoldable pub insert : JsString → V → Dict V → Dict V
  insert key v [] = (key, v) ∷ []
  insert key v ((k, w) ∷ d) = if k == key then (k, v) ∷ d else (k, w) ∷ insert key v d

  -- `delete d[key]`
  unfoldable pub erase : JsString → Dict V → Dict V
  erase key [] = []
  erase key ((k, w) ∷ d) = let rest = erase key d in if k == key then rest else (k, w) ∷ rest

  -- `Object.keys(d)`
  abbrev pub keys : Dict V → List JsString
  keys [] = []
  keys ((k, _) ∷ d) = k ∷ keys d

  abbrev pub has : Dict V → JsString → Bool
  has d key = is_some (lookup key d)

module _ {ℓ} {V : Type ℓ} where
  pub lookup-insert :
      (key j : JsString) (v : V) (d : Dict V)
      → lookup j (insert key v d) ≡ (if key == j then some v else lookup j d)
  unfolding lookup insert
  lookup-insert key j v [] = refl
  lookup-insert key j v ((k, w) ∷ d) =
      ground (arith, eq_iff key j, eq_iff k key, eq_iff k j, lookup-insert key j v d)

  pub lookup-erase :
      (key j : JsString) (d : Dict V)
      → lookup j (erase key d) ≡ (if key == j then none else lookup j d)
  unfolding lookup erase
  lookup-erase key j [] = ground arith
  lookup-erase key j ((k, w) ∷ d) =
      ground (arith, eq_iff key j, eq_iff k key, eq_iff k j, lookup-erase key j d)

  pub includes-keys : (key : JsString) (d : Dict V) → includes (keys d) key ≡ has d key
  unfolding lookup includes
  includes-keys key [] = refl
  includes-keys key ((k, w) ∷ d) = ground (arith, includes-keys key d)

-- No text stands twice in a list.
abbrev pub Distinct : List JsString → Type 0
Distinct [] = Unit
Distinct (x ∷ xs) = (includes xs x ≡ false) × Distinct xs

module _ {ℓ} {V : Type ℓ} where
  pub has-insert :
      (key j : JsString) (v : V) (d : Dict V) → has d j ≡ true → has (insert key v d) j ≡ true
  has-insert key j v d h = ground (arith, lookup-insert key j v d)

  pub has-insert_self : (key : JsString) (v : V) (d : Dict V) → has (insert key v d) key ≡ true
  has-insert_self key v d = ground (arith, lookup-insert key key v d, eq_iff key key)

  pub includes-keys-insert :
      (key j : JsString) (v : V) (d : Dict V)
      → includes (keys (insert key v d)) j ≡ (if key == j then true else includes (keys d) j)
  includes-keys-insert key j v d =
      ground (arith, includes-keys j (insert key v d), includes-keys j d, lookup-insert key j v d)

  pub includes-keys-erase :
      (key j : JsString) (d : Dict V)
      → includes (keys (erase key d)) j ≡ (if key == j then false else includes (keys d) j)
  includes-keys-erase key j d =
      ground (arith, includes-keys j (erase key d), includes-keys j d, lookup-erase key j d)

  pub keys-insert-Distinct :
      (key : JsString) (v : V) (d : Dict V) → Distinct (keys d) → Distinct (keys (insert key v d))
  unfolding insert includes
  keys-insert-Distinct key v [] h = (refl, tt)
  keys-insert-Distinct key v ((k, w) ∷ d) h = elim (Bool-cases (k == key)) [
    | inl same ↦ rw same h
    | inr other ↦ rw other (
      ground (arith, includes-keys-insert key k v d, eq_iff key k, eq_iff k key, h.0),
      keys-insert-Distinct key v d h.1,
    )
  ]

  pub keys-erase-Distinct :
      (key : JsString) (d : Dict V) → Distinct (keys d) → Distinct (keys (erase key d))
  unfolding erase
  keys-erase-Distinct key [] h = tt
  keys-erase-Distinct key ((k, w) ∷ d) h = elim (Bool-cases (k == key)) [
    | inl same ↦ rw same (keys-erase-Distinct key d h.1)
    | inr other ↦
        rw other (ground (arith, includes-keys-erase key k d, h.0), keys-erase-Distinct key d h.1)
  ]

-- A property of every value of a dictionary.
module _ {ℓ κ} {V : Type ℓ} (P : V → Type κ) where
  abbrev pub AllValues : Dict V → Type κ
  AllValues [] = Unit
  AllValues ((_, v) ∷ d) = P v × AllValues d

  pub AllValues-insert :
      (key : JsString) (v : V) (d : Dict V) → P v → AllValues d → AllValues (insert key v d)
  unfolding insert
  AllValues-insert key v [] p h = (p, tt)
  AllValues-insert key v ((k, w) ∷ d) p h = elim (Bool-cases (k == key)) [
    | inl same ↦ rw same (p, h.1)
    | inr other ↦ rw other (h.0, AllValues-insert key v d p h.1)
  ]

  pub AllValues-erase : (key : JsString) (d : Dict V) → AllValues d → AllValues (erase key d)
  unfolding erase
  AllValues-erase key [] h = tt
  AllValues-erase key ((k, w) ∷ d) h = elim (Bool-cases (k == key)) [
    | inl same ↦ rw same (AllValues-erase key d h.1)
    | inr other ↦ rw other (h.0, AllValues-erase key d h.1)
  ]

  pub AllValues-lookup :
      (key : JsString) (d : Dict V) {v : V} → AllValues d → lookup key d ≡ some v → P v
  unfolding lookup
  AllValues-lookup key [] h e = cc
  AllValues-lookup key ((k, w) ∷ d) {v} h e = elim (Bool-cases (k == key)) [
    | inl same ↦ let g : some w ≡ some v = rw same at e in subst P (cc) h.0
    | inr other ↦ AllValues-lookup key d h.1 (rw other at e)
  ]

  -- The value that `find` gives has the property of all the values.
  pub AllValues-find :
      (test : JsString × V → Bool) (d : Dict V) {t : JsString × V}
      → AllValues d
      → find test d ≡ some t
      → P t.1
  AllValues-find test [] h e = cc
  AllValues-find test ((k, w) ∷ d) {t} h e = elim (Bool-cases (test (k, w))) [
    | inl same ↦ let g : some (k, w) ≡ some t = rw same at e in subst P (cc) h.0
    | inr other ↦ AllValues-find test d {t = t} h.1 (rw other at e)
  ]
