-- ===== src/Refreshing.antt =====
-- Which panels are refreshed after an operation:
-- packages/frontend/src/hooks/useOperationRefreshTargets.ts. The map in the ref is a dictionary that the
-- functions take and give back.
pub mod Deleting
mod Tests
use file_octopus.Base.{
  Bool, true, false, not, Option, none, some, List, [], ◌∷◌, ◌++◌, JsString, js, ◌==◌, truthy,
  includes, Dict, lookup, insert, erase, or_else, if◌then◌else◌, ◌>>=◌,
}
use file_octopus.Uri.{parent_uri_from_uri}
use file_octopus.Panel.Types.{PanelId, left, right, PanelTabState, FileOctopusState, panel_of}
use file_octopus.Panel.Update.{active_tab}

-- What is read of a `FileOperationPlanDto`.
pub record FileOperationPlan : Type 0 where
  pub kind : JsString
  pub sources : List JsString
  pub destination : Option JsString

pub record OperationRefreshTargetSet : Type 0 where
  pub folder_uris : List JsString
  pub removed_entry_uris : List JsString

-- `folderUris.add(uri)`
unfoldable pub add_to_set : JsString → List JsString → List JsString
add_to_set uri uris = if includes uris uri then uris else uris ++ uri ∷ []

unfoldable pub folder_of : JsString → JsString
folder_of uri = or_else (parent_uri_from_uri uri) uri

unfoldable pub add_parent : Option JsString → List JsString → List JsString
unfolding add_to_set folder_of
add_parent none uris = uris
add_parent (some uri) uris = if truthy uri then add_to_set (folder_of uri) uris else uris

unfoldable pub add_sources : List JsString → List JsString → List JsString
unfolding add_parent
add_sources [] uris = uris
add_sources (source ∷ sources) uris = add_sources sources (add_parent (some source) uris)

abbrev pub destination_kinds : List JsString
destination_kinds =
    js "copy"
    ∷ js "createArchive"
    ∷ js "extractArchive"
    ∷ js "createDirectory"
    ∷ js "createFile"
    ∷ js "writeTextFile"
    ∷ []

abbrev pub delete_kinds : List JsString
delete_kinds = js "deleteToTrash" ∷ js "deletePermanently" ∷ []

unfoldable pub targets_of : FileOperationPlan → OperationRefreshTargetSet
unfolding add_parent add_sources
targets_of plan =
    if includes destination_kinds plan.kind
    then record { folder_uris = add_parent plan.destination []; removed_entry_uris = [] }
    else if includes delete_kinds plan.kind
    then record { folder_uris = add_sources plan.sources []; removed_entry_uris = plan.sources }
    else record {
      folder_uris = add_parent plan.destination (add_sources plan.sources []);
      removed_entry_uris = [];
    }

abbrev pub RefreshTargets : Type 0
RefreshTargets = Dict OperationRefreshTargetSet

unfoldable pub register_operation_refresh :
    JsString → FileOperationPlan → RefreshTargets → RefreshTargets
unfolding targets_of
register_operation_refresh job_id plan targets = insert job_id (targets_of plan) targets

unfoldable pub take_operation_refresh_targets :
    JsString → RefreshTargets → Option OperationRefreshTargetSet × RefreshTargets
take_operation_refresh_targets job_id targets = (lookup job_id targets, erase job_id targets)

-- The panel is refreshed; the flags `softRefresh` and `backgroundRefresh` are both the second field.
-- `replace` is always set.
pub record Refresh : Type 0 where
  pub panel_id : PanelId
  pub soft : Bool

-- Where targets are given, whether the tab is at one of them.
unfoldable pub is_target : Option (List JsString) → PanelTabState → Bool
is_target none tab = false
is_target (some uris) tab = includes uris tab.uri

unfoldable pub refresh_if : Bool → PanelId → Bool → List Refresh
refresh_if true p soft = record { panel_id = p; soft = soft } ∷ []
refresh_if false p soft = []

-- `refreshVisiblePanels` refreshes both.
unfoldable pub or_visible : Bool → List Refresh → List Refresh
or_visible soft [] =
    record { panel_id = left; soft = soft } ∷ record { panel_id = right; soft = soft } ∷ []
or_visible soft (r ∷ refreshes) = r ∷ refreshes

-- `none` is an exception on a missing active tab.
unfoldable pub refresh_operation_targets :
    FileOctopusState → Option (List JsString) → Bool → Option (List Refresh)
unfolding is_target refresh_if or_visible
refresh_operation_targets state uris full_reload = do
  left_tab ← active_tab state.panels.left
  right_tab ← active_tab state.panels.right
  let soft = not full_reload
  some (
      or_visible soft (
        refresh_if (is_target uris left_tab) left soft
        ++ refresh_if (is_target uris right_tab) right soft))
