-- ===== src/Commands/Bindings.antt =====
-- The bindings of keys to commands: packages/frontend/src/commands/defaultBindings.ts, and
-- parseCustomShortcuts, mergeBindings and the search for a binding of
-- packages/frontend/src/hooks/useKeyboardShortcuts.ts.
use file_octopus.Base.{
  ℕ, zero, suc, ◌-◌, Option, none, some, List, [], ◌∷◌, ◌++◌, JsString, js, eqb, length, truthy,
  starts_with, trim, any, Dict, insert, if◌then◌else◌,
}
use file_octopus.Commands.Types.{CommandDefinition}
use file_octopus.Commands.Registry.{command_registry}
use file_octopus.Commands.Keys.{KeyCombo, parse_key_combo, matches_key_combo}

-- A list of bindings may have several for one command, so it is not a dictionary, though a list of
-- the same pairs.
abbrev pub KeyBindings : Type 0
KeyBindings = List (JsString × List KeyCombo)

-- `combos.push(combo)` where the combination is read
push_combo : Option KeyCombo → List KeyCombo → List KeyCombo
push_combo none combos = combos
push_combo (some combo) combos = combo ∷ combos

unfoldable pub read_combos : (JsString → JsString) → List JsString → List KeyCombo
unfolding push_combo
read_combos lower [] = []
read_combos lower (str ∷ strs) = push_combo (parse_key_combo lower str) (read_combos lower strs)

-- `str.split(sep)`; `skip` characters of a separator are still to be passed over.
split_text_from : JsString → ℕ → JsString → JsString → List JsString
split_text_from sep skip part [] = part ∷ []
split_text_from sep (suc skip) part (c ∷ s) = split_text_from sep skip part s
split_text_from sep zero part (c ∷ s) =
    let closed = split_text_from sep (length sep - 1) [] s in
    let longer = split_text_from sep zero (part ++ c ∷ []) s in
    if starts_with (c ∷ s) sep then part ∷ closed else longer

-- The signs of the keys of a Mac: command, option, shift and control.
spell_signs : JsString → JsString
spell_signs [] = []
spell_signs (c ∷ s) =
    let rest = spell_signs s in
    if eqb c 8984
    then js "Meta+" ++ rest
    else if eqb c 8997
    then js "Alt+" ++ rest
    else if eqb c 8679
    then js "Shift+" ++ rest
    else if eqb c 8963
    then js "Ctrl+" ++ rest
    else c ∷ rest

spell_parts : List JsString → List JsString
unfolding spell_signs
spell_parts [] = []
spell_parts (part ∷ parts) = spell_signs (trim part) ∷ spell_parts parts

unfoldable pub parse_shortcut_string : (JsString → JsString) → Option JsString → List KeyCombo
unfolding split_text_from spell_parts read_combos
parse_shortcut_string lower none = []
parse_shortcut_string lower (some str) =
    if truthy str
    then read_combos lower (spell_parts (split_text_from (js " or ") 0 [] str))
    else []

bind_some : JsString → List KeyCombo → KeyBindings → KeyBindings
bind_some id [] bindings = bindings
bind_some id (combo ∷ combos) bindings = (id, combo ∷ combos) ∷ bindings

registry_bindings : (JsString → JsString) → List CommandDefinition → KeyBindings
unfolding bind_some parse_shortcut_string
registry_bindings lower [] = []
registry_bindings lower (cmd ∷ commands) =
    bind_some cmd.id (parse_shortcut_string lower cmd.shortcut_win)
      (registry_bindings lower commands)

-- `existing` is the first binding of the command; it is changed in place.
extend_binding : JsString → List KeyCombo → KeyBindings → KeyBindings
extend_binding id [] bindings = bindings
extend_binding id (combo ∷ combos) bindings = insert id (combo ∷ combos) bindings

unfoldable pub build_default_bindings : (JsString → JsString) → KeyBindings
unfolding registry_bindings extend_binding read_combos
build_default_bindings lower =
    let pushed =
      registry_bindings lower command_registry
      ++ (js "search.focusFilter", read_combos lower (js "Ctrl+F" ∷ []))
        ∷ (js "search.recursive", read_combos lower (js "Ctrl+Shift+F" ∷ []))
        ∷ (js "op.delete", read_combos lower (js "Delete" ∷ []))
        ∷ [] in
    extend_binding (js "app.commandPalette")
      (read_combos lower (js "Ctrl+P" ∷ js "Ctrl+Shift+P" ∷ js "F10" ∷ []))
      (extend_binding (js "app.shortcuts") (read_combos lower (js "Ctrl+/" ∷ js "F1" ∷ [])) pushed)

-- The entries of the parsed preference; an exception gives none.
unfoldable pub parse_custom_shortcuts : (JsString → JsString) → Dict (List JsString) → KeyBindings
unfolding bind_some read_combos
parse_custom_shortcuts lower [] = []
parse_custom_shortcuts lower ((id, strs) ∷ entries) =
    bind_some id (read_combos lower strs) (parse_custom_shortcuts lower entries)

unfoldable pub set_bindings : KeyBindings → Dict (List KeyCombo) → Dict (List KeyCombo)
set_bindings [] d = d
set_bindings ((id, combos) ∷ bindings) d = set_bindings bindings (insert id combos d)

unfoldable pub merge_bindings : KeyBindings → KeyBindings → Dict (List KeyCombo)
unfolding set_bindings
merge_bindings defaults custom = set_bindings custom (set_bindings defaults [])

-- The command of the first binding that has a combination of the event.
unfoldable pub bound_command :
    (JsString → JsString) → KeyCombo → Dict (List KeyCombo) → Option JsString
bound_command lower event [] = none
bound_command lower event ((id, combos) ∷ bindings) =
    let rest = bound_command lower event bindings in
    if any (matches_key_combo lower event) combos then some id else rest
