-- ===== src/Refreshing/Deleting.antt =====
-- The refresh after a deletion.
use file_octopus.Base.{
  Bool, true, false, ◌||◌, ◌&&◌, not, none, some, List, [], ◌∷◌, ◌++◌, ◌≡◌, refl, ap, subst, inl,
  inr, JsString, js, ◌==◌, eq_iff, eq_refl, truthy, includes, lookup, insert, lookup-insert,
  lookup-erase, arith, Bool-cases, ◌>>=◌,
}
use file_octopus.Panel.Types.{left, right, PanelTabState, FileOctopusState}
use file_octopus.Panel.Update.{active_tab}
use file_octopus.Refreshing.{
  FileOperationPlan, RefreshTargets, add_to_set, folder_of, add_parent, add_sources, delete_kinds,
  destination_kinds, targets_of, register_operation_refresh, take_operation_refresh_targets,
  is_target, refresh_if, or_visible, refresh_operation_targets,
}

includes-append :
    (xs : List JsString) (y z : JsString) → includes (xs ++ y ∷ []) z ≡ (includes xs z || y == z)
unfolding includes
includes-append [] y z = ground arith
includes-append (x ∷ xs) y z = ground (arith, includes-append xs y z)

includes-kept :
    (uris : List JsString) (uri z : JsString)
    → includes uris uri ≡ true
    → includes uris z ≡ (includes uris z || uri == z)
includes-kept uris uri z old = elim (Bool-cases (uri == z)) [
  | inl same ↦
      let e : uri ≡ z = (eq_iff uri z).0 same in
      let there : includes uris z ≡ true = cc (old, ap (includes uris) e) in rw there refl
  | inr other ↦ ground (arith, other)
]

includes-add_to_set :
    (uri z : JsString) (uris : List JsString)
    → includes (add_to_set uri uris) z ≡ (includes uris z || uri == z)
unfolding add_to_set
includes-add_to_set uri z uris = elim (Bool-cases (includes uris uri)) [
  | inl old ↦ rw old (includes-kept uris uri z old)
  | inr new ↦ rw new (includes-append uris uri z)
]

-- Whether the folder of one of the sources is at the address.
unfoldable pub is_folder_of : JsString → List JsString → Bool
is_folder_of z [] = false
is_folder_of z (s ∷ sources) = (truthy s && folder_of s == z) || is_folder_of z sources

includes-add_parent :
    (s z : JsString) (uris : List JsString)
    → includes (add_parent (some s) uris) z ≡ (includes uris z || (truthy s && folder_of s == z))
unfolding add_parent
includes-add_parent s z uris = elim (Bool-cases (truthy s)) [
  | inl full ↦ rw (full, includes-add_to_set (folder_of s) z uris) refl
  | inr blank ↦ rw blank (ground arith)
]

includes-add_sources :
    (sources : List JsString) (z : JsString) (uris : List JsString)
    → includes (add_sources sources uris) z ≡ (includes uris z || is_folder_of z sources)
unfolding add_sources is_folder_of
includes-add_sources [] z uris = ground arith
includes-add_sources (s ∷ sources) z uris =
    rw (includes-add_sources sources z (add_parent (some s) uris), includes-add_parent s z uris)
      (ground arith)

no_destination_kind :
    includes destination_kinds (js "deleteToTrash") ≡ false
    × includes destination_kinds (js "deletePermanently") ≡ false
unfolding includes ◌==◌
no_destination_kind = (refl, refl)

-- A kind of deletion is not a kind that only writes to its destination.
delete-destination :
    (kind : JsString) → includes delete_kinds kind ≡ true → includes destination_kinds kind ≡ false
unfolding includes
delete-destination kind h = elim (Bool-cases (js "deleteToTrash" == kind)) [
  | inl same ↦
      subst (λ k. includes destination_kinds k ≡ false) ((eq_iff (js "deleteToTrash") kind).0 same)
        no_destination_kind.0
  | inr other ↦
      subst (λ k. includes destination_kinds k ≡ false)
        ((eq_iff (js "deletePermanently") kind).0 (ground (arith, h, other))) no_destination_kind.1
]

deleted_folders :
    (plan : FileOperationPlan) (z : JsString)
    → includes delete_kinds plan.kind ≡ true
    → includes (targets_of plan).folder_uris z ≡ is_folder_of z plan.sources
unfolding targets_of includes
deleted_folders plan z h =
    rw (delete-destination plan.kind h, h) (includes-add_sources plan.sources z [])

some_refreshed :
    (a b : Bool) (soft : Bool)
    → (a || b) ≡ true
    → or_visible soft (refresh_if a left soft ++ refresh_if b right soft)
      ≡ refresh_if a left soft ++ refresh_if b right soft
unfolding or_visible refresh_if
some_refreshed true b soft h = refl
some_refreshed false true soft h = refl
some_refreshed false false soft h = cc

-- The targets that were registered for a job are found once.
taken_once :
    (job_id : JsString) (plan : FileOperationPlan) (targets : RefreshTargets)
    → (take_operation_refresh_targets job_id (register_operation_refresh job_id plan targets)).0
        ≡ some (targets_of plan)
      × lookup job_id
          (take_operation_refresh_targets job_id (register_operation_refresh job_id plan targets)).1
        ≡ none
unfolding take_operation_refresh_targets register_operation_refresh
taken_once job_id plan targets = (
  ground (arith, lookup-insert job_id job_id (targets_of plan) targets, eq_refl job_id),
  ground
      (arith, lookup-erase job_id job_id (insert job_id (targets_of plan) targets), eq_refl job_id),
)

refresh_exact :
    (state : FileOctopusState) (uris : List JsString) (full_reload : Bool)
    (left_tab right_tab : PanelTabState)
    → active_tab state.panels.left ≡ some left_tab
    → active_tab state.panels.right ≡ some right_tab
    → (includes uris left_tab.uri || includes uris right_tab.uri) ≡ true
    → refresh_operation_targets state (some uris) full_reload
      ≡ some (
          refresh_if (includes uris left_tab.uri) left (not full_reload)
          ++ refresh_if (includes uris right_tab.uri) right (not full_reload))
unfolding refresh_operation_targets is_target
refresh_exact state uris full_reload left_tab right_tab l r h =
    rw (l, r)
      (ap some (
        some_refreshed (includes uris left_tab.uri) (includes uris right_tab.uri) (not full_reload)
          h))

-- After the plan of a deletion was registered for a job, its targets are found, and only once. Where
-- the active tab of a panel shows the folder of an entry of the plan, exactly the panels whose active
-- tabs show such a folder are refreshed, softly unless a full reload is asked for.
pub deleted_folders_refreshed :
    (job_id : JsString) (plan : FileOperationPlan) (targets : RefreshTargets)
    (state : FileOctopusState) (left_tab right_tab : PanelTabState) (full_reload : Bool)
    → includes delete_kinds plan.kind ≡ true
    → active_tab state.panels.left ≡ some left_tab
    → active_tab state.panels.right ≡ some right_tab
    → (is_folder_of left_tab.uri plan.sources || is_folder_of right_tab.uri plan.sources) ≡ true
    → let taken =
        take_operation_refresh_targets job_id (register_operation_refresh job_id plan targets) in
      (taken.0 >>= λ found. refresh_operation_targets state (some found.folder_uris) full_reload)
        ≡ some (
            refresh_if (is_folder_of left_tab.uri plan.sources) left (not full_reload)
            ++ refresh_if (is_folder_of right_tab.uri plan.sources) right (not full_reload))
      × (take_operation_refresh_targets job_id taken.1).0 ≡ none
unfolding take_operation_refresh_targets
deleted_folders_refreshed job_id plan targets state left_tab right_tab full_reload h l r shown =
    let at_left = deleted_folders plan left_tab.uri h in
    let at_right = deleted_folders plan right_tab.uri h in
    let once = taken_once job_id plan targets in
    (
      rw once.0 (
          rw
            (
              refresh_exact state (targets_of plan).folder_uris full_reload left_tab right_tab l r
                  (rw (at_left, at_right) shown),
              at_left,
              at_right,
            )
            refl),
      once.1,
    )
