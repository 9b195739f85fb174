-- ===== src/Panel/LoadState.antt =====
-- packages/frontend/src/paneTypes.ts: load states, and when a batch belongs to a tab.
use file_octopus.Base.{
  ℕ, Bool, Option, none, some, JsString, js, ◌==◌, truthy, trim, eqb, if◌then◌else◌, not, ◌&&◌,
}
use file_octopus.Panel.Entry.{IpcError, DirectoryBatchEventDto}
use file_octopus.Panel.Types.{PaneLoadState}

unfoldable pub load_state_from_batch_error : Option IpcError → PaneLoadState
load_state_from_batch_error none = PaneLoadState.error
load_state_from_batch_error (some e) =
    if e.code == js "not_found"
    then PaneLoadState.not_found
    else if e.code == js "permission_denied"
    then PaneLoadState.permission_denied
    else if e.code == js "timeout"
    then PaneLoadState.timeout
    else if e.code == js "device_unavailable"
    then PaneLoadState.offline
    else PaneLoadState.error

unfoldable pub terminal_load_state : ℕ → Option IpcError → PaneLoadState
terminal_load_state count none = if eqb count 0 then PaneLoadState.empty else PaneLoadState.loaded
terminal_load_state count (some e) = load_state_from_batch_error (some e)

-- The batch's identifier is trimmed, the tab's is not.
unfoldable pub should_apply_batch : Option JsString → DirectoryBatchEventDto → Bool
should_apply_batch none batch = not (truthy (trim batch.request_id))
should_apply_batch (some id) batch =
    let batch_request_id = trim batch.request_id in
    if truthy id
    then truthy batch_request_id && id == batch_request_id
    else not (truthy batch_request_id)
