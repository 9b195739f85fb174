-- ===== src/Commands/Shortcuts.antt =====
-- Which command an event of the keyboard runs.
use file_octopus.Base.{
  Bool, true, false, Option, none, some, List, [], ◌∷◌, ◌≡◌, refl, ap, ◌∙◌, inl, inr, JsString,
  ◌==◌, eq_iff, eq_refl, any, lookup, insert, keys, includes, includes-keys, is_some, Distinct,
  Dict, or_else, or_maybe, or_maybe_assoc, lookup-insert, keys-insert-Distinct, Bool-cases,
  Option-cases, if◌then◌else◌,
}
use file_octopus.Commands.Keys.{KeyCombo, matches_key_combo}
use file_octopus.Commands.Bindings.{KeyBindings, set_bindings, merge_bindings, bound_command}

-- The last binding of a command.
unfoldable pub last_of : JsString → KeyBindings → Option (List KeyCombo)
last_of id [] = none
last_of id ((k, combos) ∷ bindings) =
    or_maybe (last_of id bindings) (if k == id then some combos else none)

-- The combinations of a command: the custom ones if there are any, and else the default ones.
unfoldable pub combos_of : JsString → KeyBindings → KeyBindings → List KeyCombo
unfolding last_of
combos_of id defaults custom = or_else (or_maybe (last_of id custom) (last_of id defaults)) []

or_none :
    {A : Type 0} (x y : Option (List A))
    → or_else (or_maybe x (or_maybe y none)) [] ≡ or_else (or_maybe x y) []
or_none none none = refl
or_none none (some y) = refl
or_none (some x) y = refl

lookup-set_bindings :
    (id : JsString) (bindings : KeyBindings) (d : Dict (List KeyCombo))
    → lookup id (set_bindings bindings d) ≡ or_maybe (last_of id bindings) (lookup id d)
unfolding set_bindings last_of
lookup-set_bindings id [] d = refl
lookup-set_bindings id ((k, combos) ∷ bindings) d =
    rw (lookup-set_bindings id bindings (insert k combos d), lookup-insert k id combos d)
      (or_maybe_assoc (last_of id bindings) (k == id) combos (lookup id d))

set_bindings-Distinct :
    (bindings : KeyBindings) (d : Dict (List KeyCombo))
    → Distinct (keys d)
    → Distinct (keys (set_bindings bindings d))
unfolding set_bindings
set_bindings-Distinct [] d h = h
set_bindings-Distinct ((k, combos) ∷ bindings) d h =
    set_bindings-Distinct bindings (insert k combos d) (keys-insert-Distinct k combos d h)

module _ (lower : JsString → JsString) (event : KeyCombo) where
  abbrev pressed : List KeyCombo → Bool
  pressed combos = any (matches_key_combo lower event) combos

  -- A command that is not bound is not pressed.
  pressed-bound :
      (id : JsString) (d : Dict (List KeyCombo))
      → pressed (or_else (lookup id d) []) ≡ true
      → includes (keys d) id ≡ true
  pressed-bound id d h = elim (Option-cases (lookup id d)) [
    | inl e ↦
        let idle : pressed (or_else (lookup id d) []) ≡ false =
          ap (λ o. pressed (or_else o [])) e in
        cc
    | inr (combos, e) ↦ includes-keys id d ∙ ap is_some e
  ]

  -- The binding that stands before the others is not the one that was found in them.
  pressed-behind :
      (k id : JsString) (combos : List KeyCombo) (d : Dict (List KeyCombo))
      → includes (keys d) k ≡ false
      → pressed (or_else (lookup id d) []) ≡ true
      → pressed (or_else (lookup id ((k, combos) ∷ d)) []) ≡ true
  unfolding lookup
  pressed-behind k id combos d fresh h = elim (Bool-cases (k == id)) [
    | inl same ↦
        let there = pressed-bound id d h in
        let e = ap (includes (keys d)) ((eq_iff k id).0 same) in cc
    | inr other ↦ rw other h
  ]

  pressed-ahead :
      (k id : JsString) (combos : List KeyCombo) (d : Dict (List KeyCombo))
      → pressed combos ≡ false
      → pressed (or_else (lookup id ((k, combos) ∷ d)) []) ≡ true
      → pressed (or_else (lookup id d) []) ≡ true
  unfolding lookup
  pressed-ahead k id combos d idle h = elim (Bool-cases (k == id)) [
    | inl same ↦ let h' : pressed combos ≡ true = rw same at h in cc
    | inr other ↦ rw other at h
  ]

  pressed-here :
      (k : JsString) (combos : List KeyCombo) (d : Dict (List KeyCombo))
      → pressed combos ≡ true
      → pressed (or_else (lookup k ((k, combos) ∷ d)) []) ≡ true
  unfolding lookup
  pressed-here k combos d down = rw (eq_refl k) down

  bound-pressed :
      (id : JsString) (d : Dict (List KeyCombo))
      → Distinct (keys d)
      → pressed (or_else (lookup id d) []) ≡ true
      → (other : JsString) × (bound_command lower event d ≡ some other)
        × (pressed (or_else (lookup other d) []) ≡ true)
  unfolding bound_command lookup
  bound-pressed id [] distinct h = cc
  bound-pressed id ((k, combos) ∷ d) distinct h = elim (Bool-cases (pressed combos)) [
    | inl down ↦ (k, rw down refl, pressed-here k combos d down)
    | inr idle ↦
        let found = bound-pressed id d distinct.1 (pressed-ahead k id combos d idle h) in
        (found.0, rw idle found.1, pressed-behind k found.0 combos d distinct.0 found.2)
  ]

merged_combos :
    (id : JsString) (defaults custom : KeyBindings)
    → or_else (lookup id (merge_bindings defaults custom)) [] ≡ combos_of id defaults custom
unfolding merge_bindings combos_of lookup
merged_combos id defaults custom =
    rw
      (lookup-set_bindings id custom (set_bindings defaults []), lookup-set_bindings id defaults [])
      (or_none (last_of id custom) (last_of id defaults))

merge_bindings-Distinct :
    (defaults custom : KeyBindings) → Distinct (keys (merge_bindings defaults custom))
unfolding merge_bindings
merge_bindings-Distinct defaults custom =
    set_bindings-Distinct custom (set_bindings defaults []) (set_bindings-Distinct defaults [] tt)

-- An event that is a combination of some command has a bound command, and it is a combination of that
-- one. The combinations of a command are the custom ones if there are any, and else those of its
-- last default binding.
pub bound_command-merge_bindings :
    (lower : JsString → JsString) (event : KeyCombo) (defaults custom : KeyBindings) (id : JsString)
    → any (matches_key_combo lower event) (combos_of id defaults custom) ≡ true
    → (other : JsString) × (bound_command lower event (merge_bindings defaults custom) ≡ some other)
      × (any (matches_key_combo lower event) (combos_of other defaults custom) ≡ true)
bound_command-merge_bindings lower event defaults custom id h =
    let found =
      bound-pressed lower event id (merge_bindings defaults custom)
        (merge_bindings-Distinct defaults custom) (rw (merged_combos id defaults custom) h) in
    (found.0, found.1, rw (merged_combos found.0 defaults custom) at found.2)
