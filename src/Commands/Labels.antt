-- ===== src/Commands/Labels.antt =====
-- The labels of the switch of `dispatchCommand` (packages/frontend/src/commands/dispatch.ts), and the
-- command that each stands for.
use file_octopus.Base.{Option, [], ◌∷◌, JsString, js, Dict, lookup}

pub data Command : Type 0 where
  app_settings app_customize_toolbar app_shortcuts app_diagnostics app_debug_console : Command
  app_documentation app_about app_operation_history app_command_palette view_toggle_sidebar :
      Command
  view_toggle_dual_pane view_toggle_activity view_toggle_status_bar view_toggle_toolbar : Command
  view_sort view_sort_ascending view_sort_descending preferences_theme preferences_cycle_theme :
      Command
  preferences_accent_color preferences_font_scale preferences_icon_scale preferences_density :
      Command
  layout_switch_pane layout_equalize_panes layout_swap_panes layout_toggle_pane_direction : Command
  nav_back nav_forward nav_up nav_home nav_root nav_refresh nav_open_uri nav_reveal_uri : Command
  nav_go_to_location nav_volume_picker nav_network_locations nav_add_server nav_connect_server :
      Command
  nav_manage_favorites nav_recent_locations nav_clear_recent_locations nav_clear_recent : Command
  nav_remove_recent view_toggle_hidden view_details view_list view_compact view_icons : Command
  view_columns create_folder create_file op_rename op_copy op_cut op_paste op_delete op_trash :
      Command
  op_delete_permanent search_recursive search_focus_filter op_view op_properties op_permissions :
      Command
  op_compress op_extract op_checksum op_open_terminal op_open_terminal_external : Command
  terminal_run_command terminal_spawn_and_run view_toggle_terminal op_calculate_size : Command
  op_toggle_starred nav_add_favorite nav_remove_favorite nav_rename_favorite op_copy_to : Command
  op_move_to op_open op_edit op_open_default op_reveal git_review_changes clipboard_copy_path :
      Command
  clipboard_copy_name clipboard_copy_parent clipboard_copy_uri clipboard_clear selection_invert :
      Command
  selection_select_all selection_clear tools_multi_rename tools_sync_directories : Command
  tools_open_hotlist tools_manage_hotlist : Command

abbrev pub command_labels : Dict Command
command_labels =
    (js "app.settings", app_settings)
    ∷ (js "app.customizeToolbar", app_customize_toolbar)
    ∷ (js "app.shortcuts", app_shortcuts)
    ∷ (js "app.diagnostics", app_diagnostics)
    ∷ (js "app.debugConsole", app_debug_console)
    ∷ (js "app.documentation", app_documentation)
    ∷ (js "app.about", app_about)
    ∷ (js "app.operationHistory", app_operation_history)
    ∷ (js "app.commandPalette", app_command_palette)
    ∷ (js "view.toggleSidebar", view_toggle_sidebar)
    ∷ (js "view.toggleDualPane", view_toggle_dual_pane)
    ∷ (js "view.toggleActivity", view_toggle_activity)
    ∷ (js "view.toggleStatusBar", view_toggle_status_bar)
    ∷ (js "view.toggleToolbar", view_toggle_toolbar)
    ∷ (js "view.sort", view_sort)
    ∷ (js "view.sortAscending", view_sort_ascending)
    ∷ (js "view.sortDescending", view_sort_descending)
    ∷ (js "preferences.theme", preferences_theme)
    ∷ (js "preferences.cycleTheme", preferences_cycle_theme)
    ∷ (js "preferences.accentColor", preferences_accent_color)
    ∷ (js "preferences.fontScale", preferences_font_scale)
    ∷ (js "preferences.iconScale", preferences_icon_scale)
    ∷ (js "preferences.density", preferences_density)
    ∷ (js "layout.switchPane", layout_switch_pane)
    ∷ (js "layout.equalizePanes", layout_equalize_panes)
    ∷ (js "layout.swapPanes", layout_swap_panes)
    ∷ (js "layout.togglePaneDirection", layout_toggle_pane_direction)
    ∷ (js "nav.back", nav_back)
    ∷ (js "nav.forward", nav_forward)
    ∷ (js "nav.up", nav_up)
    ∷ (js "nav.home", nav_home)
    ∷ (js "nav.root", nav_root)
    ∷ (js "nav.refresh", nav_refresh)
    ∷ (js "nav.openUri", nav_open_uri)
    ∷ (js "nav.revealUri", nav_reveal_uri)
    ∷ (js "nav.goToLocation", nav_go_to_location)
    ∷ (js "nav.volumePicker", nav_volume_picker)
    ∷ (js "nav.networkLocations", nav_network_locations)
    ∷ (js "nav.addServer", nav_add_server)
    ∷ (js "nav.connectServer", nav_connect_server)
    ∷ (js "nav.manageFavorites", nav_manage_favorites)
    ∷ (js "nav.recentLocations", nav_recent_locations)
    ∷ (js "nav.clearRecentLocations", nav_clear_recent_locations)
    ∷ (js "nav.clearRecent", nav_clear_recent)
    ∷ (js "nav.removeRecent", nav_remove_recent)
    ∷ (js "view.toggleHidden", view_toggle_hidden)
    ∷ (js "view.details", view_details)
    ∷ (js "view.list", view_list)
    ∷ (js "view.compact", view_compact)
    ∷ (js "view.icons", view_icons)
    ∷ (js "view.columns", view_columns)
    ∷ (js "create.folder", create_folder)
    ∷ (js "create.file", create_file)
    ∷ (js "op.rename", op_rename)
    ∷ (js "op.copy", op_copy)
    ∷ (js "op.cut", op_cut)
    ∷ (js "op.paste", op_paste)
    ∷ (js "op.delete", op_delete)
    ∷ (js "op.trash", op_trash)
    ∷ (js "op.deletePermanent", op_delete_permanent)
    ∷ (js "search.recursive", search_recursive)
    ∷ (js "search.focusFilter", search_focus_filter)
    ∷ (js "op.view", op_view)
    ∷ (js "op.properties", op_properties)
    ∷ (js "op.permissions", op_permissions)
    ∷ (js "op.compress", op_compress)
    ∷ (js "op.extract", op_extract)
    ∷ (js "op.checksum", op_checksum)
    ∷ (js "op.openTerminal", op_open_terminal)
    ∷ (js "op.openTerminalExternal", op_open_terminal_external)
    ∷ (js "terminal.runCommand", terminal_run_command)
    ∷ (js "terminal.spawnAndRun", terminal_spawn_and_run)
    ∷ (js "view.toggleTerminal", view_toggle_terminal)
    ∷ (js "op.calculateSize", op_calculate_size)
    ∷ (js "op.toggleStarred", op_toggle_starred)
    ∷ (js "nav.addFavorite", nav_add_favorite)
    ∷ (js "nav.removeFavorite", nav_remove_favorite)
    ∷ (js "nav.renameFavorite", nav_rename_favorite)
    ∷ (js "op.copyTo", op_copy_to)
    ∷ (js "op.moveTo", op_move_to)
    ∷ (js "op.open", op_open)
    ∷ (js "op.edit", op_edit)
    ∷ (js "op.openDefault", op_open_default)
    ∷ (js "op.reveal", op_reveal)
    ∷ (js "git.reviewChanges", git_review_changes)
    ∷ (js "clipboard.copyPath", clipboard_copy_path)
    ∷ (js "clipboard.copyName", clipboard_copy_name)
    ∷ (js "clipboard.copyParent", clipboard_copy_parent)
    ∷ (js "clipboard.copyUri", clipboard_copy_uri)
    ∷ (js "clipboard.clear", clipboard_clear)
    ∷ (js "selection.invert", selection_invert)
    ∷ (js "selection.selectAll", selection_select_all)
    ∷ (js "selection.clear", selection_clear)
    ∷ (js "tools.multiRename", tools_multi_rename)
    ∷ (js "tools.syncDirectories", tools_sync_directories)
    ∷ (js "tools.openHotlist", tools_open_hotlist)
    ∷ (js "tools.manageHotlist", tools_manage_hotlist)
    ∷ []

unfoldable pub command_of : JsString → Option Command
command_of id = lookup id command_labels
