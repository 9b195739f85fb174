-- ===== src/Panel/Types.antt =====
-- The types of packages/frontend/src/panelStore.ts: the state and the actions.
use file_octopus.Base.{ℕ, Bool, Option, List, JsString, Dict, ℤ}
use file_octopus.Panel.Entry.{
  FileEntryDto, DirectoryBatchEventDto, ContentSearchResultDto, ContentSearchMatchEventDto,
  ContentSearchCompletedEventDto,
}

pub data PanelId : Type 0 where
  left right : PanelId

pub data SortField : Type 0 where
  name type size modified created extension permissions owner : SortField

pub data SortDirection : Type 0 where
  asc desc : SortDirection

-- `unchecked` is any other stored text, which the source casts to the type.
pub data ViewMode : Type 0 where
  details list compact icons columns : ViewMode
  unchecked : JsString → ViewMode

pub data TabKind : Type 0 where
  directory preview editor git_review : TabKind

pub data PaneLoadState : Type 0 where
  idle loading loaded empty error not_found permission_denied timeout offline : PaneLoadState

pub record GitReviewTabState : Type 0 where
  pub repo_root_uri : JsString
  pub source_uri : JsString
  pub repo_label : JsString
  pub refresh_token : ℕ

pub record SortState : Type 0 where
  pub field : SortField
  pub direction : SortDirection
  pub directories_first : Bool

pub record ContentSearchOptions : Type 0 where
  pub case_sensitive : Bool
  pub use_regex : Bool
  pub file_pattern : JsString

pub data ContentSearchStatus : Type 0 where
  starting running completed failed cancelled : ContentSearchStatus

pub record ContentSearchState : Type 0 where
  pub request_id : JsString
  pub root_uri : JsString
  pub query : JsString
  pub options : ContentSearchOptions
  pub status : ContentSearchStatus
  pub job_id : Option JsString
  pub result : Option ContentSearchResultDto
  pub error : Option JsString

-- `"failed" | "cancelled"`
pub data TerminalStatus : Type 0 where
  failed cancelled : TerminalStatus

pub record PendingContentSearchEvents : Type 0 where
  pub matches : List ContentSearchMatchEventDto
  pub completion : Option ContentSearchCompletedEventDto
  pub terminal : Option (TerminalStatus × JsString)

-- `undefined | "computing" | "error" | string`
abbrev pub HashState : Type 0
HashState = Option JsString

pub record BackgroundListing : Type 0 where
  pub request_id : JsString
  pub session_id : Option JsString
  pub entries_by_id : Dict FileEntryDto
  pub ordered_entry_ids : List JsString

pub record PanelTabState : Type 0 where
  pub tab_kind : TabKind
  pub uri : JsString
  pub preview_entry : Option FileEntryDto
  pub editor_entry : Option FileEntryDto
  pub git_review : Option GitReviewTabState
  pub entries_by_id : Dict FileEntryDto
  pub ordered_entry_ids : List JsString
  pub selected_ids : List JsString
  pub selected_id : Option JsString
  pub focused_id : Option JsString
  pub anchor_id : Option JsString
  pub session_id : Option JsString
  pub active_request_id : Option JsString
  pub load_state : PaneLoadState
  pub error : Option JsString
  pub error_code : Option JsString
  pub filter : JsString
  pub recursive_query : JsString
  pub content_search_query : JsString
  pub content_search : Option ContentSearchState
  pub sort : SortState
  pub view_mode : ViewMode
  pub show_hidden : Bool
  pub back_stack : List JsString
  pub forward_stack : List JsString
  pub hash_map : Dict HashState
  pub background_listing : Option BackgroundListing

pub record PanelState : Type 0 where
  pub id : PanelId
  pub active_tab_id : JsString
  pub tabs : Dict PanelTabState

-- `Record<PanelId, PanelState>`, whose keys are `left` and `right` in this order.
pub record Panels : Type 0 where
  pub left : PanelState
  pub right : PanelState

pub record FileOctopusState : Type 0 where
  pub active_panel_id : PanelId
  pub panels : Panels
  pub pending_content_search_events : Dict PendingContentSearchEvents
  pub absorbed_content_search_job_ids : List JsString

pub data SelectMode : Type 0 where
  single toggle range : SelectMode

-- A flag that may be left out is false, and a value that may be left out is an `Option`.
pub record NavigateFlags : Type 0 where
  pub replace : Bool
  pub soft_refresh : Bool
  pub background_refresh : Bool

pub data PanelAction : Type 0 where
  set_active_panel : PanelId → PanelAction
  navigate : PanelId → JsString → NavigateFlags → PanelAction
  go_back go_forward : PanelId → PanelAction
  start_request : PanelId → JsString → Bool → PanelAction
  start_session : PanelId → JsString → JsString → PanelAction
  apply_batch : DirectoryBatchEventDto → PanelAction
  rename_entry : JsString → JsString → JsString → PanelAction
  set_selection : PanelId → Option JsString → PanelAction
  set_selection_many : PanelId → List JsString → PanelAction
  select_all invert_selection clear_selection : PanelId → PanelAction
  select_entry : PanelId → JsString → SelectMode → PanelAction
  move_selection : PanelId → ℤ → PanelAction
  set_pane_error :
      PanelId
      → Option JsString
      → Option JsString
      → Option JsString
      → Option PaneLoadState
      → PanelAction
  set_filter set_recursive_query : PanelId → JsString → PanelAction
  set_content_search_query : PanelId → JsString → JsString → PanelAction
  start_content_search :
      PanelId → JsString → JsString → JsString → JsString → ContentSearchOptions → PanelAction
  bind_content_search_job : PanelId → JsString → JsString → JsString → PanelAction
  fail_content_search_start : PanelId → JsString → JsString → JsString → PanelAction
  apply_content_search_match : ContentSearchMatchEventDto → PanelAction
  apply_content_search_completed : ContentSearchCompletedEventDto → PanelAction
  terminate_content_search_job : JsString → TerminalStatus → JsString → PanelAction
  discard_content_search_job_events : JsString → PanelAction
  set_sort : PanelId → SortField → PanelAction
  set_view_mode : PanelId → ViewMode → PanelAction
  toggle_hidden : PanelId → PanelAction
  hydrate_preferences : Bool → ViewMode → PanelAction
  set_hash : PanelId → JsString → HashState → PanelAction
  swap_panes : PanelAction
  open_tab : PanelId → JsString → PanelAction
  open_preview_tab open_editor_tab : PanelId → FileEntryDto → PanelAction
  open_git_review_tab : PanelId → JsString → JsString → JsString → PanelAction
  replace_content_tab_entry : PanelId → JsString → FileEntryDto → PanelAction
  close_tab switch_tab : PanelId → JsString → PanelAction
  set_archive_entries : PanelId → Option JsString → JsString → List FileEntryDto → PanelAction
  remove_entries : List JsString → PanelAction

-- The panel `state.panels[id]`, and the update of it.
abbrev pub panel_of : Panels → PanelId → PanelState
panel_of ps left = ps.left
panel_of ps right = ps.right

abbrev pub set_panel : Panels → PanelId → PanelState → Panels
set_panel ps left p = record ps { left = p }
set_panel ps right p = record ps { right = p }

abbrev pub is_panel : PanelId → PanelId → Bool
is_panel left left = Bool.true
is_panel left right = Bool.false
is_panel right left = Bool.false
is_panel right right = Bool.true
