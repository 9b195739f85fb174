-- ===== src/Refreshing/Tests.antt =====
-- A deletion on the panel that shows the deleted entry.
use file_octopus.Base.{
  true, false, none, some, [], ◌∷◌, ◌++◌, ◌≡◌, refl, js, ◌==◌, includes, lookup, insert, find_text,
  strip_trailing, before_last, ◌>>=◌,
}
use file_octopus.Uri.{
  parent_uri_from_uri, is_network_uri, uri_scheme, is_remote_uri, local_unc_path,
}
use file_octopus.Panel.Types.{left, right, PanelTabState, TabKind, PaneLoadState}
use file_octopus.Panel.Storage.{documents_uri}
use file_octopus.Panel.Tabs.{blank_tab, create_fresh_tab, add_tab}
use file_octopus.Panel.Update.{active_tab, put_tab}
use file_octopus.Panel.Reducer.{create_panel, create_initial_state}
use file_octopus.Panel.Examples.{host, world, opened, note}
use file_octopus.Refreshing.{
  FileOperationPlan, register_operation_refresh, folder_of, take_operation_refresh_targets,
  refresh_if, refresh_operation_targets,
}
use file_octopus.Refreshing.Deleting.{is_folder_of, deleted_folders_refreshed}

abbrev note_deletion : FileOperationPlan
note_deletion = record { kind = js "deleteToTrash"; sources = note.uri ∷ []; destination = none }

abbrev left_tab : PanelTabState
left_tab = create_fresh_tab host world (js "local:///m") none

abbrev right_tab : PanelTabState
right_tab = record (blank_tab host world none TabKind.directory (documents_uri host world)) {
  load_state = PaneLoadState.idle;
}

deleted_folders_refreshed_example :
    let taken =
      take_operation_refresh_targets
        (js "j")
        (register_operation_refresh (js "j") note_deletion []) in
    (taken.0 >>= λ found. refresh_operation_targets opened (some found.folder_uris) false)
      ≡ some (
          refresh_if (is_folder_of left_tab.uri note_deletion.sources) left true
          ++ refresh_if (is_folder_of right_tab.uri note_deletion.sources) right true)
    × (take_operation_refresh_targets (js "j") taken.1).0 ≡ none
unfolding create_initial_state create_panel active_tab lookup ◌==◌ includes is_folder_of add_tab
    put_tab insert folder_of parent_uri_from_uri is_network_uri uri_scheme find_text is_remote_uri
    local_unc_path strip_trailing before_last create_fresh_tab blank_tab
deleted_folders_refreshed_example =
    deleted_folders_refreshed (js "j") note_deletion [] opened left_tab right_tab false refl refl
      refl refl
