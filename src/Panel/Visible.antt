-- ===== src/Panel/Visible.antt =====
-- The entries that a tab shows: packages/frontend/src/utils/parentEntry.ts, and the selectors of
-- packages/frontend/src/panelStore.ts. An identifier without an entry makes the source throw.
use file_octopus.Base.{
  ℕ, Bool, true, false, ◌||◌, not, Option, none, some, List, [], ◌∷◌, JsString, js, ◌==◌, Dict,
  lookup, has, trim, truthy, has_text, length, any, keep, or_else, if◌then◌else◌, ◌>>=◌,
}
use file_octopus.Uri.{parent_uri_from_uri, uri_scheme}
use file_octopus.Panel.Entry.{FileKind, FileEntryDto}
use file_octopus.Panel.Host.{Host}
use file_octopus.Panel.Types.{PanelTabState}
use file_octopus.Panel.Order.{sort_entries}

-- `tab.orderedEntryIds.map((id) => tab.entriesById[id])`, where the first use of a missing entry throws
unfoldable pub entries_of : Dict FileEntryDto → List JsString → Option (List FileEntryDto)
entries_of d [] = some []
entries_of d (id ∷ ids) = do entry ← lookup id d; rest ← entries_of d ids; some (entry ∷ rest)

unfoldable pub passes_filter : Host → JsString → FileEntryDto → Bool
passes_filter h filter entry = not (truthy filter) || has_text (h.to_lower_case entry.name) filter

-- With an empty filter a missing entry passes the filter, the sort puts it last, and the first use of
-- the result throws; the model throws here already.
unfoldable pub select_visible_entries : Host → PanelTabState → Option (List FileEntryDto)
select_visible_entries h tab =
    let filter = h.to_lower_case (trim tab.filter) in
    do
      entries ← entries_of tab.entries_by_id tab.ordered_entry_ids
      some (sort_entries h tab.sort (keep (passes_filter h filter) entries))

unfoldable pub provider_id_from_uri : JsString → JsString
provider_id_from_uri uri = or_else (uri_scheme uri) (js "local")

abbrev pub parent_directory_name : JsString
parent_directory_name = js ".."

unfoldable pub create_parent_directory_entry : JsString → Option FileEntryDto
create_parent_directory_entry current_uri = do
  uri ← parent_uri_from_uri current_uri
  if truthy uri
      then some (record {
        uri = uri;
        name = parent_directory_name;
        extension = none;
        kind = FileKind.directory;
        size = none;
        modified_at = none;
        created_at = none;
        accessed_at = none;
        is_hidden = false;
        is_symlink = false;
        is_placeholder = false;
        symlink_target = none;
        provider_id = provider_id_from_uri current_uri;
        can_read = true;
        can_list = true;
        can_write = false;
        can_delete = false;
        can_rename = false;
        permissions = none;
        owner = none;
        target_uri = none;
        virtual_kind = none;
        protocol = none;
        status = none;
        description = none;
      })
      else none

unfoldable pub is_parent_directory_uri : JsString → JsString → Bool
is_parent_directory_uri uri current_uri = elim (parent_uri_from_uri current_uri) [
  | none ↦ false
  | some parent ↦ uri == parent
]

unfoldable pub prepend_parent_directory_entry : JsString → List FileEntryDto → List FileEntryDto
prepend_parent_directory_entry current_uri entries =
    elim (create_parent_directory_entry current_uri) [
      | none ↦ entries
      | some parent ↦
          if any (λ (entry : FileEntryDto). entry.name == parent_directory_name) entries
          then entries
          else parent ∷ entries
    ]

unfoldable pub select_displayed_entries : Host → PanelTabState → Option (List FileEntryDto)
select_displayed_entries h tab = do
  entries ← select_visible_entries h tab
  some (prepend_parent_directory_entry tab.uri entries)

unfoldable pub operational_selection_ids : PanelTabState → List JsString
operational_selection_ids tab = keep (has tab.entries_by_id) tab.selected_ids

unfoldable pub count_operational_selection : PanelTabState → ℕ
count_operational_selection tab = length (operational_selection_ids tab)
