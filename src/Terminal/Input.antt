-- ===== src/Terminal/Input.antt =====
-- Text for the shell and control characters for the terminal:
-- packages/frontend/src/terminal/shellEscape.ts. `to_lower_case` is the engine's.
use file_octopus.Base.{
  ◌-◌, Bool, ◌&&◌, ◌||◌, not, Option, none, some, [], ◌∷◌, ◌++◌, JsString, js, ◌==◌, truthy,
  if◌then◌else◌, eqb, leb,
}

-- `path.replace(/'/g, "'\\''")`
unfoldable pub escape_quotes : JsString → JsString
escape_quotes [] = []
escape_quotes (c ∷ path) =
    let rest = escape_quotes path in if eqb c 39 then 39 ∷ 92 ∷ 39 ∷ 39 ∷ rest else c ∷ rest

unfoldable pub shell_escape_posix_path : JsString → JsString
unfolding escape_quotes
shell_escape_posix_path path =
    if truthy path then 39 ∷ (escape_quotes path ++ 39 ∷ []) else 39 ∷ 39 ∷ []

-- `KeyboardEvent`
pub record KeyEvent : Type 0 where
  pub type : JsString
  pub key : JsString
  pub code : JsString
  pub ctrl_key : Bool
  pub alt_key : Bool
  pub meta_key : Bool

-- `key.length === 1 && key >= "a" && key <= "z"`: the letter's control character.
letter_control : JsString → Option JsString
letter_control (c ∷ []) = if leb b'a' c && leb c b'z' then some ((c - 96) ∷ []) else none
letter_control _ = none

-- `/^Key[A-Z]$/`
code_control : JsString → Option JsString
code_control (k ∷ e ∷ y ∷ c ∷ []) =
    if eqb k b'K' && eqb e b'e' && eqb y b'y' && leb b'A' c && leb c b'Z'
    then some ((c - 64) ∷ [])
    else none
code_control _ = none

bracket_control : KeyEvent → Option JsString
bracket_control event =
    if event.key == js "[" || event.code == js "BracketLeft"
    then some (27 ∷ [])
    else if event.key == (92 ∷ []) || event.code == js "Backslash"
    then some (28 ∷ [])
    else if event.key == js "]" || event.code == js "BracketRight"
    then some (29 ∷ [])
    else none

ctrl_control : (JsString → JsString) → KeyEvent → Option JsString
unfolding letter_control code_control bracket_control
ctrl_control to_lower_case event =
    if event.key == (3 ∷ [])
    then some (3 ∷ [])
    else if event.key == (4 ∷ [])
    then some (4 ∷ [])
    else if event.key == (26 ∷ [])
    then some (26 ∷ [])
    else elim (letter_control (to_lower_case event.key)) [
      | some control ↦ some control
      | none ↦ (elim (code_control event.code) [
        | some control ↦ some control
        | none ↦ bracket_control event
      ])
    ]

unfoldable pub terminal_control_from_keydown : (JsString → JsString) → KeyEvent → Option JsString
unfolding ctrl_control
terminal_control_from_keydown to_lower_case event =
    if not (event.type == js "keydown")
    then none
    else if event.meta_key && not event.ctrl_key
    then none
    else if event.alt_key
    then none
    else if event.key == js "Backspace"
    then some (127 ∷ [])
    else if event.key == js "Delete"
    then some (27 ∷ js "[3~")
    else if not event.ctrl_key
    then none
    else ctrl_control to_lower_case event
