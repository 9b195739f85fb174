-- ===== src/Panel/Controller.antt =====
-- What the navigation dispatches to the panel store, and what else it does, in order:
-- packages/frontend/src/navigation/navigationController.ts. The backend is a record of functions that
-- answer or fail. Between two of the actions others may come.
use file_octopus.Base.{
  ℕ, Bool, true, false, Option, none, some, List, [], ◌∷◌, ◌++◌, JsString, js, truthy, get_last?,
  head?, or_else, if◌then◌else◌, ◌>>=◌,
}
use file_octopus.Uri.{is_remote_uri, is_network_uri, is_supported_navigation_uri}
use file_octopus.Uri.Display.{display_path_from_uri}
use file_octopus.Panel.Entry.{FileEntryDto, IpcError}
use file_octopus.Panel.LoadState.{load_state_from_batch_error}
use file_octopus.Panel.Navigation.{normalize_local_input}
use file_octopus.Panel.Types.{
  PanelId, TabKind, PaneLoadState, NavigateFlags, PanelTabState, FileOctopusState, PanelAction,
  panel_of,
}
use file_octopus.Panel.Update.{active_tab}

-- A call of the backend: its answer, or the error that it fails with.
pub data Answer (A : Type 0) : Type 0 where
  answered : A → Answer A
  failed : IpcError → Answer A

pub record ListStartRequest : Type 0 where
  pub uri : JsString
  pub request_id : JsString
  pub panel_id : PanelId
  pub batch_size : ℕ
  pub include_hidden : Bool

pub record ListStartResponse : Type 0 where
  pub session_id : JsString
  pub request_id : JsString

pub record Neighborhood : Type 0 where
  pub uri : JsString
  pub entries : List FileEntryDto

pub record Backend : Type 0 where
  pub list_start : ListStartRequest → Answer ListStartResponse
  pub discover_neighborhood : JsString → Answer Neighborhood
  pub list_archive : JsString → Answer (List FileEntryDto)
  -- `toUpperCase`
  pub to_upper_case : JsString → JsString

pub data Step : Type 0 where
  dispatched : PanelAction → Step
  -- `setSearch`: the result of a search in the panel is forgotten
  search_reset : PanelId → Step
  terminal_cwd_synced : PanelId → JsString → Step
  visit_recorded : JsString → JsString → Step

pub record NavigateOptions : Type 0 where
  pub replace : Bool
  pub include_hidden : Option Bool
  pub soft_refresh : Bool
  pub background_refresh : Bool

abbrev pub no_options : NavigateOptions
no_options = record {
  replace = false;
  include_hidden = none;
  soft_refresh = false;
  background_refresh = false;
}

abbrev pub flags_of : NavigateOptions → NavigateFlags
flags_of options = record {
  replace = options.replace;
  soft_refresh = options.soft_refresh;
  background_refresh = options.background_refresh;
}

-- The error of a request, as the pane shows it.
unfoldable pub pane_error : PanelId → JsString → IpcError → PaneLoadState → Step
pane_error p request_id error load_state = dispatched (
    PanelAction.set_pane_error p (some request_id) (some error.message) (some error.code)
      (some load_state))

unfoldable pub after_list_start : PanelId → JsString → Answer ListStartResponse → Step
unfolding pane_error
after_list_start p request_id (answered response) =
    dispatched (PanelAction.start_session p response.session_id response.request_id)
after_list_start p request_id (failed error) =
    pane_error p request_id error (load_state_from_batch_error (some error))

unfoldable pub start_listing : Backend → JsString → PanelId → JsString → Bool → Bool → List Step
unfolding after_list_start
start_listing b request_id p uri include_hidden background_refresh =
    dispatched (PanelAction.start_request p request_id background_refresh)
    ∷ after_list_start p request_id (
        b.list_start (record {
          uri = uri;
          request_id = request_id;
          panel_id = p;
          batch_size = 256;
          include_hidden = include_hidden;
        }))
    ∷ []

after_discovery : PanelId → JsString → Answer Neighborhood → Step
unfolding pane_error
after_discovery p request_id (answered response) =
    dispatched (PanelAction.set_archive_entries p (some request_id) response.uri response.entries)
after_discovery p request_id (failed error) =
    pane_error p request_id error (load_state_from_batch_error (some error))

unfoldable pub load_network_neighborhood : Backend → JsString → PanelId → JsString → List Step
unfolding after_discovery
load_network_neighborhood b request_id p uri =
    dispatched (PanelAction.start_request p request_id false)
    ∷ after_discovery p request_id (b.discover_neighborhood uri)
    ∷ []

-- The end of a navigation that is no soft refresh.
unfoldable pub visit : Backend → PanelId → JsString → List Step
visit b p uri =
    (if is_network_uri uri then [] else terminal_cwd_synced p uri ∷ [])
    ++ visit_recorded uri
        (if is_remote_uri uri then uri else display_path_from_uri b.to_upper_case uri)
      ∷ []

-- `options.includeHidden ?? tab.showHidden`, which reads the tab only without the option.
unfoldable pub hidden_of : Option Bool → Option PanelTabState → Option Bool
hidden_of (some include_hidden) tab = some include_hidden
hidden_of none none = none
hidden_of none (some tab) = some tab.show_hidden

unfoldable pub load :
    Backend
    → JsString
    → FileOctopusState
    → PanelId
    → JsString
    → NavigateOptions
    → Option (List Step)
unfolding load_network_neighborhood start_listing hidden_of
load b request_id state p uri options =
    if is_network_uri uri then some (load_network_neighborhood b request_id p uri) else (do
      include_hidden ← hidden_of options.include_hidden (active_tab (panel_of state.panels p))
      some (start_listing b request_id p uri include_hidden options.background_refresh))

-- `none` is an exception on a missing active tab. The terminal follows where it is asked to.
unfoldable pub navigate_panel :
    Backend
    → JsString
    → FileOctopusState
    → PanelId
    → JsString
    → NavigateOptions
    → Option (List Step)
navigate_panel b request_id state p input options =
    let uri = normalize_local_input input in
    if is_supported_navigation_uri uri
    then (do
      loading ← load b request_id state p uri options
      some (
          dispatched (PanelAction.navigate p uri (flags_of options))
          ∷ ((if options.soft_refresh then [] else search_reset p ∷ [])
              ++ (loading ++ (if options.soft_refresh then [] else visit b p uri)))))
    else some (
        dispatched (
          PanelAction.set_pane_error p none
            (some (js "Enter a local path or supported remote URI (sftp://)"))
            (some (js "invalid_uri")) (some PaneLoadState.error))
        ∷ [])

pub data HistoryDirection : Type 0 where
  back forward : HistoryDirection

history_target : HistoryDirection → PanelTabState → Option JsString
history_target back tab = get_last? tab.back_stack
history_target forward tab = head? tab.forward_stack

history_action : HistoryDirection → PanelId → PanelAction
history_action back p = PanelAction.go_back p
history_action forward p = PanelAction.go_forward p

go_to : Backend → JsString → PanelId → HistoryDirection → Bool → Option JsString → List Step
unfolding history_action load_network_neighborhood start_listing
go_to b request_id p direction show_hidden none = []
go_to b request_id p direction show_hidden (some uri) =
    if truthy uri
    then dispatched (history_action direction p)
      ∷ (if is_network_uri uri
          then load_network_neighborhood b request_id p uri
          else start_listing b request_id p uri show_hidden false)
    else []

unfoldable pub go_history :
    Backend → JsString → FileOctopusState → PanelId → HistoryDirection → Option (List Step)
unfolding go_to history_target
go_history b request_id state p direction = do
  tab ← active_tab (panel_of state.panels p)
  some (go_to b request_id p direction tab.show_hidden (history_target direction tab))

is_directory_tab : TabKind → Bool
is_directory_tab TabKind.directory = true
is_directory_tab TabKind.preview = false
is_directory_tab TabKind.editor = false
is_directory_tab TabKind.git_review = false

-- `replace` may be left out, and is true then.
unfoldable pub refresh_panel :
    Backend
    → JsString
    → FileOctopusState
    → PanelId
    → Option Bool
    → NavigateOptions
    → Option (List Step)
unfolding is_directory_tab navigate_panel
refresh_panel b request_id state p replace options = do
  tab ← active_tab (panel_of state.panels p)
  if is_directory_tab tab.tab_kind
      then navigate_panel b request_id state p tab.uri (record {
        replace = or_else replace true;
        include_hidden = some (or_else options.include_hidden tab.show_hidden);
        soft_refresh = options.soft_refresh;
        background_refresh = options.background_refresh;
      })
      else some []

-- The listing of an archive. Any error is shown as one.
after_archive : PanelId → JsString → JsString → Answer (List FileEntryDto) → Step
unfolding pane_error
after_archive p request_id uri (answered entries) =
    dispatched (PanelAction.set_archive_entries p (some request_id) uri entries)
after_archive p request_id uri (failed error) = pane_error p request_id error PaneLoadState.error

unfoldable pub navigate_archive : Backend → JsString → PanelId → FileEntryDto → List Step
unfolding after_archive
navigate_archive b request_id p entry =
    dispatched (PanelAction.navigate p entry.uri (flags_of no_options))
    ∷ dispatched (PanelAction.start_request p request_id false)
    ∷ after_archive p request_id entry.uri (b.list_archive entry.uri)
    ∷ []
