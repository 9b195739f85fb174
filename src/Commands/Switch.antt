-- ===== src/Commands/Switch.antt =====
-- The switch of `dispatchCommand` (packages/frontend/src/commands/dispatch.ts). `none` is an exception,
-- as on a missing active tab.
use file_octopus.Base.{true, false, Option, none, some, [], ◌∷◌, JsString, js, or_else}
use file_octopus.Panel.Storage.{home_uri}
use file_octopus.Panel.Types.{PanelId, SortDirection, ViewMode, PanelAction}
use file_octopus.Commands.Effects.{
  Effect, Dialog, Direction, CopyMode, CopiedText, CommandDispatchDeps, DispatchCommandOptions,
  Dispatched,
}
use file_octopus.Commands.Labels.{Command, command_of}
use file_octopus.Commands.Branches.{
  done, refused, tab_of, selected_entry, when, with_text, toggle_sidebar, toggle_dual_pane,
  toggle_activity, sort_by, sort_towards, choose_theme, cycle_theme, choose_density, switch_pane,
  toggle_pane_direction, navigate_up, navigate_root, connect_server, connect_profile, view_entry,
  edit_entry, open_default, star_entry,
}
use file_octopus.Commands.Dispatch.{
  resolve_command_id, terminal_command, favorite_effect, remove_favorite, rename_favorite,
}

unfoldable pub run_command :
    CommandDispatchDeps → DispatchCommandOptions → PanelId → Command → Option Dispatched
run_command d o p Command.app_settings = done (Effect.show_dialog Dialog.settings ∷ [])
run_command d o p Command.app_customize_toolbar =
    done (Effect.show_dialog Dialog.toolbar_customize ∷ [])
run_command d o p Command.app_shortcuts = done (Effect.show_dialog Dialog.shortcuts ∷ [])
run_command d o p Command.app_diagnostics = done (Effect.show_dialog Dialog.diagnostics ∷ [])
run_command d o p Command.app_debug_console = done (Effect.show_dialog Dialog.debug_console ∷ [])
run_command d o p Command.app_documentation = done (Effect.show_dialog Dialog.help ∷ [])
run_command d o p Command.app_about = done (Effect.show_dialog Dialog.about ∷ [])
run_command d o p Command.app_operation_history =
    done (Effect.show_dialog Dialog.operation_history ∷ [])
run_command d o p Command.app_command_palette =
    done (Effect.show_dialog Dialog.command_palette ∷ [])
run_command d o p Command.view_toggle_sidebar = toggle_sidebar d.preferences
run_command d o p Command.view_toggle_dual_pane = toggle_dual_pane d.preferences
run_command d o p Command.view_toggle_activity = toggle_activity d
run_command d o p Command.view_toggle_status_bar = done (Effect.toggle_status_bar ∷ [])
run_command d o p Command.view_toggle_toolbar = done (Effect.toggle_toolbar ∷ [])
run_command d o p Command.view_sort = sort_by p o.sort_field
run_command d o p Command.view_sort_ascending = sort_towards SortDirection.asc p (tab_of d p)
run_command d o p Command.view_sort_descending = sort_towards SortDirection.desc p (tab_of d p)
run_command d o p Command.preferences_theme = choose_theme o.preference_value
run_command d o p Command.preferences_cycle_theme = cycle_theme d.preferences
run_command d o p Command.preferences_accent_color = done (Effect.show_dialog Dialog.settings ∷ [])
run_command d o p Command.preferences_font_scale = done (Effect.show_dialog Dialog.settings ∷ [])
run_command d o p Command.preferences_icon_scale = done (Effect.show_dialog Dialog.settings ∷ [])
run_command d o p Command.preferences_density = choose_density o.preference_value
run_command d o p Command.layout_switch_pane = switch_pane p
run_command d o p Command.layout_equalize_panes = done (Effect.equalize_panes ∷ [])
run_command d o p Command.layout_swap_panes = done (Effect.panel_action PanelAction.swap_panes ∷ [])
run_command d o p Command.layout_toggle_pane_direction = toggle_pane_direction d.preferences
run_command d o p Command.nav_back = done (Effect.go_history p Direction.back ∷ [])
run_command d o p Command.nav_forward = done (Effect.go_history p Direction.forward ∷ [])
run_command d o p Command.nav_up = navigate_up p (tab_of d p)
run_command d o p Command.nav_home = done (Effect.navigate_panel p (home_uri d.host d.world) ∷ [])
run_command d o p Command.nav_root = navigate_root d.to_upper_case p (tab_of d p)
run_command d o p Command.nav_refresh = done (Effect.refresh_panel p ∷ [])
run_command d o p Command.nav_open_uri = with_text o.target_uri (Effect.navigate_panel p)
run_command d o p Command.nav_reveal_uri = with_text o.target_uri Effect.reveal_uri
run_command d o p Command.nav_go_to_location = done (Effect.show_dialog Dialog.go_to_location ∷ [])
run_command d o p Command.nav_volume_picker = done (Effect.show_dialog Dialog.volume_picker ∷ [])
run_command d o p Command.nav_network_locations =
    done (Effect.navigate_panel p (js "network:///") ∷ [])
run_command d o p Command.nav_add_server = done (connect_server d none)
run_command d o p Command.nav_connect_server = connect_profile d o.network_profile
run_command d o p Command.nav_manage_favorites =
    done (Effect.show_dialog Dialog.manage_favorites ∷ [])
run_command d o p Command.nav_recent_locations =
    done (Effect.show_dialog Dialog.recent_locations ∷ [])
run_command d o p Command.nav_clear_recent_locations =
    done (Effect.show_dialog Dialog.clear_recent_locations ∷ [])
run_command d o p Command.nav_clear_recent = done (Effect.clear_recent_entries ∷ [])
run_command d o p Command.nav_remove_recent = with_text o.target_uri Effect.remove_recent_entry
run_command d o p Command.view_toggle_hidden = done (Effect.toggle_hidden p ∷ [])
run_command d o p Command.view_details =
    done (Effect.panel_action (PanelAction.set_view_mode p ViewMode.details) ∷ [])
run_command d o p Command.view_list =
    done (Effect.panel_action (PanelAction.set_view_mode p ViewMode.list) ∷ [])
run_command d o p Command.view_compact =
    done (Effect.panel_action (PanelAction.set_view_mode p ViewMode.compact) ∷ [])
run_command d o p Command.view_icons =
    done (Effect.panel_action (PanelAction.set_view_mode p ViewMode.icons) ∷ [])
run_command d o p Command.view_columns =
    done (Effect.panel_action (PanelAction.set_view_mode p ViewMode.columns) ∷ [])
run_command d o p Command.create_folder = done (Effect.handle_create_folder p ∷ [])
run_command d o p Command.create_file = done (Effect.handle_create_file p ∷ [])
run_command d o p Command.op_rename = done (Effect.start_inline_rename p ∷ [])
run_command d o p Command.op_copy =
    done (Effect.copy_selection_to_file_clipboard p CopyMode.copy ∷ [])
run_command d o p Command.op_cut =
    done (Effect.copy_selection_to_file_clipboard p CopyMode.move ∷ [])
run_command d o p Command.op_paste = done (Effect.paste_clipboard p ∷ [])
run_command d o p Command.op_delete = done (Effect.handle_delete p ∷ [])
run_command d o p Command.op_trash = done (Effect.handle_trash p ∷ [])
run_command d o p Command.op_delete_permanent = done (Effect.handle_permanent_delete p ∷ [])
run_command d o p Command.search_recursive = done (Effect.focus_recursive_search ∷ [])
run_command d o p Command.search_focus_filter = done (Effect.focus_filter ∷ [])
run_command d o p Command.op_view = view_entry d p (selected_entry d o p)
run_command d o p Command.op_properties =
    done (Effect.handle_properties p (selected_entry d o p) false ∷ [])
run_command d o p Command.op_permissions =
    done (Effect.handle_properties p (selected_entry d o p) true ∷ [])
run_command d o p Command.op_compress = done (Effect.handle_compress p ∷ [])
run_command d o p Command.op_extract = done (Effect.handle_extract p ∷ [])
run_command d o p Command.op_checksum = done (Effect.handle_checksum p ∷ [])
run_command d o p Command.op_open_terminal = done (Effect.open_embedded_terminal p ∷ [])
run_command d o p Command.op_open_terminal_external = done (Effect.open_terminal_external p ∷ [])
run_command d o p Command.terminal_run_command =
    terminal_command d o d.has_run_terminal_command (js "Run command in active terminal")
      Effect.run_terminal_command
run_command d o p Command.terminal_spawn_and_run =
    terminal_command d o d.has_spawn_and_run_terminal_command (js "Spawn terminal and run command")
      (Effect.spawn_and_run_terminal_command p)
run_command d o p Command.view_toggle_terminal = done (Effect.toggle_pane_terminal p ∷ [])
run_command d o p Command.op_calculate_size =
    done (Effect.calculate_size p (selected_entry d o p) ∷ [])
run_command d o p Command.op_toggle_starred = star_entry (selected_entry d o p)
run_command d o p Command.nav_add_favorite = favorite_effect d o p
run_command d o p Command.nav_remove_favorite = remove_favorite o.favorite_id
run_command d o p Command.nav_rename_favorite = rename_favorite o.favorite_id o.preference_value
run_command d o p Command.op_copy_to = done (Effect.handle_copy_or_move p CopyMode.copy ∷ [])
run_command d o p Command.op_move_to = done (Effect.handle_copy_or_move p CopyMode.move ∷ [])
run_command d o p Command.op_open = done (Effect.activate_entry p (selected_entry d o p) ∷ [])
run_command d o p Command.op_edit = edit_entry d p (selected_entry d o p)
run_command d o p Command.op_open_default = open_default d p (selected_entry d o p)
run_command d o p Command.op_reveal = done (Effect.reveal_entry p (selected_entry d o p) ∷ [])
run_command d o p Command.git_review_changes =
    done (when d.has_open_git_review_in_opposite_pane (Effect.open_git_review_in_opposite_pane p))
run_command d o p Command.clipboard_copy_path =
    done (Effect.copy_text_from_selection p CopiedText.path ∷ [])
run_command d o p Command.clipboard_copy_name =
    done (Effect.copy_text_from_selection p CopiedText.name ∷ [])
run_command d o p Command.clipboard_copy_parent =
    done (Effect.copy_text_from_selection p CopiedText.parent_path ∷ [])
run_command d o p Command.clipboard_copy_uri =
    done (Effect.copy_text_from_selection p CopiedText.uri ∷ [])
run_command d o p Command.clipboard_clear = done (Effect.clear_clipboard ∷ [])
run_command d o p Command.selection_invert =
    done (Effect.panel_action (PanelAction.invert_selection p) ∷ [])
run_command d o p Command.selection_select_all =
    done (Effect.panel_action (PanelAction.select_all p) ∷ [])
run_command d o p Command.selection_clear =
    done (Effect.panel_action (PanelAction.clear_selection p) ∷ [])
run_command d o p Command.tools_multi_rename = done (Effect.show_dialog Dialog.multi_rename ∷ [])
run_command d o p Command.tools_sync_directories =
    done (Effect.show_dialog Dialog.sync_directories ∷ [])
run_command d o p Command.tools_open_hotlist = done (Effect.show_dialog Dialog.hotlist ∷ [])
run_command d o p Command.tools_manage_hotlist =
    done (Effect.show_dialog Dialog.manage_hotlist ∷ [])

unfoldable pub run_labelled :
    CommandDispatchDeps → DispatchCommandOptions → PanelId → Option Command → Option Dispatched
unfolding run_command
run_labelled d o p none = refused
run_labelled d o p (some command) = run_command d o p command

unfoldable pub dispatch_command :
    JsString → CommandDispatchDeps → DispatchCommandOptions → Option Dispatched
unfolding run_labelled
dispatch_command id d o =
    run_labelled d o (or_else o.panel_id d.state.active_panel_id)
      (command_of (resolve_command_id id))
