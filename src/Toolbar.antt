-- ===== src/Toolbar.antt =====
-- The entries of the toolbar: packages/frontend/src/commands/toolbarConfig.ts. `JSON.parse` is a
-- parameter.
pub mod Loose
pub mod Tidy
mod Tests
use file_octopus.Base.{
  Bool, true, false, ◌||◌, Option, none, some, List, [], ◌∷◌, ◌++◌, JsString, js, ◌==◌, truthy,
  trim, any, or_else, if◌then◌else◌, ◌>>=◌, get_last?,
}
use file_octopus.Commands.Registry.{is_command_id}

pub data ToolbarEntry : Type 0 where
  command : JsString → ToolbarEntry
  separator : ToolbarEntry

abbrev pub default_toolbar_entries : List ToolbarEntry
default_toolbar_entries =
    command (js "op.view")
    ∷ command (js "op.edit")
    ∷ command (js "op.openDefault")
    ∷ command (js "op.rename")
    ∷ command (js "op.copyTo")
    ∷ command (js "op.moveTo")
    ∷ command (js "create.folder")
    ∷ command (js "op.delete")
    ∷ command (js "op.properties")
    ∷ []

-- A value of JSON, as far as `parseEntry` looks into it: an object with a field `kind`, with the texts
-- of its fields `kind` and `commandId`.
pub data RawEntry : Type 0 where
  text : JsString → RawEntry
  object : Option JsString → Option JsString → RawEntry
  other : RawEntry

-- `command` where the identifier is known.
known_command : JsString → Option ToolbarEntry
known_command id = if is_command_id id then some (command id) else none

entry_of_kind : Option JsString → Option JsString → Option ToolbarEntry
unfolding known_command
entry_of_kind none command_id = none
entry_of_kind (some kind) none = if kind == js "separator" then some separator else none
entry_of_kind (some kind) (some command_id) =
    if kind == js "separator"
    then some separator
    else if kind == js "command"
    then (if truthy command_id then known_command command_id else none)
    else none

unfoldable pub parse_entry : RawEntry → Option ToolbarEntry
unfolding known_command entry_of_kind
parse_entry (text raw) = if raw == js "separator" then some separator else known_command raw
parse_entry (object kind command_id) = entry_of_kind kind command_id
parse_entry other = none

unfoldable pub parse_entries : List RawEntry → List ToolbarEntry
unfolding parse_entry
parse_entries [] = []
parse_entries (raw ∷ raws) = elim (parse_entry raw) [
  | none ↦ parse_entries raws
  | some entry ↦ entry ∷ parse_entries raws
]

abbrev pub is_separator : Option ToolbarEntry → Bool
is_separator none = false
is_separator (some separator) = true
is_separator (some (command _)) = false

abbrev pub is_command : JsString → ToolbarEntry → Bool
is_command id separator = false
is_command id (command other_id) = other_id == id

-- One round of the loop over the entries.
unfoldable pub push_toolbar_entry : List ToolbarEntry → ToolbarEntry → List ToolbarEntry
push_toolbar_entry normalized separator =
    if is_separator (get_last? normalized) then normalized else normalized ++ separator ∷ []
push_toolbar_entry normalized (command id) =
    if any (is_command id) normalized then normalized else normalized ++ command id ∷ []

unfoldable pub push_toolbar_entries : List ToolbarEntry → List ToolbarEntry → List ToolbarEntry
unfolding push_toolbar_entry
push_toolbar_entries normalized [] = normalized
push_toolbar_entries normalized (entry ∷ entries) =
    push_toolbar_entries (push_toolbar_entry normalized entry) entries

-- `while (normalized[0]?.kind === "separator") normalized.shift()`
unfoldable pub drop_first_separators : List ToolbarEntry → List ToolbarEntry
drop_first_separators [] = []
drop_first_separators (separator ∷ entries) = drop_first_separators entries
drop_first_separators (command id ∷ entries) = command id ∷ entries

-- `while (normalized[normalized.length - 1]?.kind === "separator") normalized.pop()`
unfoldable pub put_before : ToolbarEntry → List ToolbarEntry → List ToolbarEntry
put_before separator [] = []
put_before (command id) [] = command id ∷ []
put_before entry (e ∷ entries) = entry ∷ e ∷ entries

unfoldable pub drop_last_separators : List ToolbarEntry → List ToolbarEntry
unfolding put_before
drop_last_separators [] = []
drop_last_separators (entry ∷ entries) = put_before entry (drop_last_separators entries)

unfoldable pub or_default : List ToolbarEntry → List ToolbarEntry
or_default [] = default_toolbar_entries
or_default (entry ∷ entries) = entry ∷ entries

unfoldable pub normalize_toolbar_entries : List ToolbarEntry → List ToolbarEntry
unfolding push_toolbar_entries drop_first_separators drop_last_separators or_default
normalize_toolbar_entries entries =
    or_default (drop_last_separators (drop_first_separators (push_toolbar_entries [] entries)))

-- `parse` gives `none` where `JSON.parse` throws or gives no array.
unfoldable pub parse_toolbar_entries_json :
    (JsString → Option (List RawEntry)) → Option JsString → Option (List ToolbarEntry)
unfolding parse_entries normalize_toolbar_entries
parse_toolbar_entries_json parse none = none
parse_toolbar_entries_json parse (some raw) =
    if truthy (trim raw)
    then (do raws ← parse raw; some (normalize_toolbar_entries (parse_entries raws)))
    else none

unfoldable pub toolbar_entries_from_preference :
    (JsString → Option (List RawEntry)) → Option JsString → List ToolbarEntry
unfolding parse_toolbar_entries_json
toolbar_entries_from_preference parse raw =
    or_else (parse_toolbar_entries_json parse raw) default_toolbar_entries

read_raw : (JsString → Option (List RawEntry)) → Option JsString → Option (List ToolbarEntry)
unfolding parse_entries normalize_toolbar_entries
read_raw parse none = none
read_raw parse (some raw) =
    if truthy raw
    then (do raws ← parse raw; some (normalize_toolbar_entries (parse_entries raws)))
    else none

-- The stored text; `none` where there is none, or the read throws.
unfoldable pub read_stored_toolbar_entries :
    (JsString → Option (List RawEntry)) → Option JsString → List ToolbarEntry
unfolding read_raw
read_stored_toolbar_entries parse raw = or_else (read_raw parse raw) default_toolbar_entries
