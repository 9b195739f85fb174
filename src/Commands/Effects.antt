-- ===== src/Commands/Effects.antt =====
-- What the dispatch of a command does: the calls of `CommandDispatchDeps`
-- (packages/frontend/src/commands/dispatch.ts), and what it reads from there.
use file_octopus.Base.{ℕ, Bool, Option, List, JsString}
use file_octopus.Panel.Entry.{FileEntryDto}
use file_octopus.Panel.Host.{Host, World}
use file_octopus.Panel.Types.{PanelId, SortField, FileOctopusState, PanelAction}

-- `setXOpen(true)`
pub data Dialog : Type 0 where
  settings toolbar_customize shortcuts diagnostics debug_console help about go_to_location : Dialog
  manage_favorites recent_locations clear_recent_locations operation_history : Dialog
  volume_picker connect_server viewer editor command_palette multi_rename : Dialog
  sync_directories hotlist manage_hotlist : Dialog

pub data Direction : Type 0 where
  back forward : Direction

pub data CopyMode : Type 0 where
  copy move : CopyMode

pub data CopiedText : Type 0 where
  path name parent_path uri : CopiedText

pub data Effect : Type 0 where
  show_dialog : Dialog → Effect
  -- `deps.dispatch(action)`
  panel_action : PanelAction → Effect
  update_preference : JsString → JsString → Effect
  request_pane_mode_change : JsString → Effect
  set_theme set_density : JsString → Effect
  mark_activity_pinned_open : Effect
  set_activity_collapsed : Bool → Effect
  toggle_status_bar toggle_toolbar equalize_panes clear_clipboard clear_recent_entries : Effect
  navigate_panel : PanelId → JsString → Effect
  go_history : PanelId → Direction → Effect
  refresh_panel toggle_hidden : PanelId → Effect
  reveal_uri remove_recent_entry : JsString → Effect
  -- the profile's identifier; `none` is null
  set_connect_server_profile : Option JsString → Effect
  reset_connect_server_initial : Effect
  handle_create_folder handle_create_file start_inline_rename paste_clipboard : PanelId → Effect
  handle_delete handle_trash handle_permanent_delete : PanelId → Effect
  copy_selection_to_file_clipboard handle_copy_or_move : PanelId → CopyMode → Effect
  focus_recursive_search focus_filter clear_operation_error : Effect
  open_preview_in_opposite_pane open_editor_in_opposite_pane : PanelId → FileEntryDto → Effect
  set_viewer_entry set_editor_entry open_external toggle_starred : FileEntryDto → Effect
  handle_properties : PanelId → Option FileEntryDto → Bool → Effect
  calculate_size activate_entry reveal_entry : PanelId → Option FileEntryDto → Effect
  handle_compress handle_extract handle_checksum : PanelId → Effect
  open_embedded_terminal open_terminal_external toggle_pane_terminal : PanelId → Effect
  request_terminal_command : JsString → Effect
  run_terminal_command : JsString → Effect
  spawn_and_run_terminal_command : PanelId → JsString → Effect
  add_favorite : PanelId → JsString → JsString → Effect
  remove_favorite : ℕ → Effect
  rename_favorite : ℕ → JsString → Effect
  open_git_review_in_opposite_pane : PanelId → Effect
  copy_text_from_selection : PanelId → CopiedText → Effect

pub record Preferences : Type 0 where
  pub sidebar_visible : Bool
  pub pane_mode : JsString
  pub theme : JsString
  pub pane_direction : JsString

-- A flag says whether the function of that name is there; `asked_command` is the answer of
-- `requestTerminalCommand` to its label.
pub record CommandDispatchDeps : Type 0 where
  pub host : Host
  -- `toUpperCase`
  pub to_upper_case : JsString → JsString
  pub world : World
  pub state : FileOctopusState
  pub preferences : Option Preferences
  pub activity_collapsed : Bool
  pub selected_entries : PanelId → List FileEntryDto
  pub is_text_editable : FileEntryDto → Bool
  pub asked_command : Option (JsString → Option JsString)
  pub has_mark_activity_pinned_open : Bool
  pub has_set_connect_server_initial : Bool
  pub has_open_preview_in_opposite_pane : Bool
  pub has_open_editor_in_opposite_pane : Bool
  pub has_open_git_review_in_opposite_pane : Bool
  pub has_run_terminal_command : Bool
  pub has_spawn_and_run_terminal_command : Bool

-- `DispatchCommandOptions`; `entry` is twice an option, since it may be null or left out.
pub record DispatchCommandOptions : Type 0 where
  pub entry : Option (Option FileEntryDto)
  pub target_uri : Option JsString
  pub favorite_id : Option ℕ
  pub sort_field : Option SortField
  pub preference_value : Option JsString
  pub network_profile : Option JsString
  pub terminal_command : Option JsString
  pub panel_id : Option PanelId

-- The value that the dispatch returns, and its calls in their order.
pub record Dispatched : Type 0 where
  pub handled : Bool
  pub effects : List Effect
