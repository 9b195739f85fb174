-- ===== src/Commands/Keys.antt =====
-- Key combinations: packages/frontend/src/commands/keyCombo.ts. `lower` is `toLowerCase`.
use file_octopus.Base.{
  Bool, true, false, ◌&&◌, Option, none, some, List, [], ◌∷◌, ◌++◌, JsString, js, ◌==◌, eqb, leb,
  length, truthy, trim, split, join, all, includes, Dict, lookup, if◌then◌else◌,
}

pub record KeyCombo : Type 0 where
  pub key : JsString
  pub ctrl : Bool
  pub alt : Bool
  pub shift : Bool
  pub meta : Bool

same_flag : Bool → Bool → Bool
same_flag true b = b
same_flag false true = false
same_flag false false = true

abbrev no_combo : KeyCombo
no_combo = record { key = []; ctrl = false; alt = false; shift = false; meta = false }

-- The names of keys that are not the key of an event. The cases of the source for single characters
-- give the character, as the default does.
named_keys : Dict JsString
named_keys =
    (js "arrowleft", js "ArrowLeft")
    ∷ (js "left", js "ArrowLeft")
    ∷ (js "arrowright", js "ArrowRight")
    ∷ (js "right", js "ArrowRight")
    ∷ (js "arrowup", js "ArrowUp")
    ∷ (js "up", js "ArrowUp")
    ∷ (js "arrowdown", js "ArrowDown")
    ∷ (js "down", js "ArrowDown")
    ∷ (js "return", js "Enter")
    ∷ (js "enter", js "Enter")
    ∷ (js "esc", js "Escape")
    ∷ (js "del", js "Delete")
    ∷ (js "ins", js "Insert")
    ∷ (js "pgup", js "PageUp")
    ∷ (js "pageup", js "PageUp")
    ∷ (js "pgdn", js "PageDown")
    ∷ (js "pagedown", js "PageDown")
    ∷ []

-- `/^\d+$/.test(s)`
is_digits : JsString → Bool
is_digits s = truthy s && all (λ c. leb 48 c && leb c 57) s

-- A letter f before digits is the function key's F.
other_key : JsString → JsString
unfolding is_digits
other_key [] = []
other_key (c ∷ digits) = if eqb c 102 && is_digits digits then 70 ∷ digits else c ∷ digits

unfoldable pub key_of_part : JsString → JsString
unfolding named_keys other_key
key_of_part part = elim (lookup part named_keys) [ some key ↦ key | none ↦ other_key part ]

unfoldable pub read_part : JsString → KeyCombo → KeyCombo
unfolding key_of_part
read_part part combo =
    if includes (js "ctrl" ∷ js "control" ∷ []) part
    then record combo { ctrl = true }
    else if includes (js "alt" ∷ js "option" ∷ js "opt" ∷ []) part
    then record combo { alt = true }
    else if part == js "shift"
    then record combo { shift = true }
    else if includes (js "meta" ∷ js "cmd" ∷ js "command" ∷ js "win" ∷ js "windows" ∷ []) part
    then record combo { meta = true }
    else record combo { key = key_of_part part }

unfoldable pub read_parts : (JsString → JsString) → List JsString → KeyCombo → KeyCombo
unfolding read_part
read_parts lower [] combo = combo
read_parts lower (part ∷ parts) combo = read_parts lower parts (read_part (lower (trim part)) combo)

-- `split` never gives the empty list.
unfoldable pub parse_key_combo : (JsString → JsString) → JsString → Option KeyCombo
unfolding read_parts
parse_key_combo lower str =
    let combo = read_parts lower (split 43 str) no_combo in
    if truthy combo.key then some combo else none

part_if : Bool → JsString → List JsString
part_if true part = part ∷ []
part_if false part = []

written_key : (JsString → JsString) → JsString → JsString
written_key lower key =
    if key == 32 ∷ [] then js "Space" else if eqb (length key) 1 then lower key else key

unfoldable pub serialize_key_combo : (JsString → JsString) → KeyCombo → JsString
unfolding part_if written_key
serialize_key_combo lower combo = join (js "+") (
    part_if combo.ctrl (js "Ctrl")
    ++ part_if combo.alt (js "Alt")
    ++ part_if combo.shift (js "Shift")
    ++ part_if combo.meta (js "Meta")
    ++ written_key lower combo.key ∷ [])

-- The keys that an event carries, as `eventToKeyCombo` gives them.
unfoldable pub matches_key_combo : (JsString → JsString) → KeyCombo → KeyCombo → Bool
unfolding same_flag
matches_key_combo lower event combo =
    (if event.key == combo.key then true else lower event.key == lower combo.key)
    && same_flag event.ctrl combo.ctrl
    && same_flag event.alt combo.alt
    && same_flag event.shift combo.shift
    && same_flag event.meta combo.meta
