-- ===== src/Folders.antt =====
-- The name that a new folder is given: `nextFolderName` of
-- packages/frontend/src/hooks/fileOps/useMutationHandlers.ts. Its loop runs on fuel; `none` means that
-- the fuel ran out.
pub mod Naming
mod Tests
use file_octopus.Base.{
  ℕ, zero, suc, ◌+◌, Bool, true, false, Option, none, some, List, [], ◌∷◌, ◌++◌, JsString, js,
  includes, show_nat, length, if◌then◌else◌, ◌>>=◌,
}
use file_octopus.Panel.Entry.{FileEntryDto, FileKind}

abbrev pub default_folder_name : JsString
default_folder_name = js "New Folder"

unfoldable pub numbered : ℕ → JsString
numbered suffix = default_folder_name ++ (b' ' ∷ show_nat suffix)

is_directory_kind : FileKind → Bool
is_directory_kind FileKind.directory = true
is_directory_kind _ = false

-- The names in use: those of the directories.
unfoldable pub directory_names : List FileEntryDto → List JsString
unfolding is_directory_kind
directory_names [] = []
directory_names (entry ∷ entries) =
    let rest = directory_names entries in
    if is_directory_kind entry.kind then entry.name ∷ rest else rest

unfoldable pub free_suffix : ℕ → ℕ → List JsString → Option ℕ
free_suffix zero suffix existing = none
free_suffix (suc fuel) suffix existing =
    let rest = free_suffix fuel (suffix + 1) existing in
    if includes existing (numbered suffix) then rest else some suffix

unfoldable pub free_name : List JsString → Option JsString
unfolding numbered free_suffix
free_name existing =
    if includes existing default_folder_name
    then (do suffix ← free_suffix (suc (length existing)) 2 existing; some (numbered suffix))
    else some default_folder_name

unfoldable pub next_folder_name : List FileEntryDto → Option JsString
unfolding free_name directory_names
next_folder_name entries = free_name (directory_names entries)
