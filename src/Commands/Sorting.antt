-- ===== src/Commands/Sorting.antt =====
-- The commands that choose the direction of the sort order, with the panel reducer that carries their
-- actions out.
use file_octopus.Base.{
  ℕ, true, false, some, List, [], ◌∷◌, ◌≡◌, refl, ap, ◌∙◌, inl, inr, JsString, js, ◌==◌, ◌&&◌,
  eq_refl, lookup, lookup-insert, or_else, arith, Bool-cases, if◌then◌else◌,
}
use file_octopus.Panel.Host.{Host, World}
use file_octopus.Panel.Types.{
  PanelId, left, right, SortField, SortDirection, asc, desc, FileOctopusState, PanelTabState,
  PanelAction, panel_of,
}
use file_octopus.Panel.Update.{active_tab, put_tab, update_panel}
use file_octopus.Panel.Storage.{persist_value, sort_key, sort_json}
use file_octopus.Panel.SortFilter.{same_field, is_asc, next_sort, set_sort_state}
use file_octopus.Panel.Reducer.{
  panel_reducer, reduce_panel_action, reduce_sort_filter, is_tab_action, is_content_search_action,
  is_navigation_action, is_listing_action, is_selection_action, is_sort_filter_action,
}
use file_octopus.Panel.Valid.Reducer.{run_actions}
use file_octopus.Commands.Effects.{Effect, CommandDispatchDeps, DispatchCommandOptions, Dispatched}
use file_octopus.Commands.Labels.{command_of}
use file_octopus.Commands.Branches.{tab_of, sort_towards, same_direction}
use file_octopus.Commands.Dispatch.{resolve_command_id}
use file_octopus.Commands.Switch.{run_command, run_labelled, dispatch_command}

-- The actions that the dispatch sends to the panel store, all at one time.
unfoldable pub actions_of : ℕ → List Effect → List (ℕ × PanelAction)
actions_of now [] = []
actions_of now (Effect.panel_action action ∷ effects) = (now, action) ∷ actions_of now effects
actions_of now (_ ∷ effects) = actions_of now effects

abbrev pub sort_label : SortDirection → JsString
sort_label asc = js "view.sortAscending"
sort_label desc = js "view.sortDescending"

-- The tab with its sort order in the direction.
abbrev pub sorted_towards : SortDirection → PanelTabState → PanelTabState
sorted_towards direction tab = record tab { sort = record tab.sort { direction = direction } }

active_tab-put_tab :
    (s : FileOctopusState) (p : PanelId) (tab : PanelTabState)
    → active_tab (panel_of (put_tab s p (panel_of s.panels p).active_tab_id tab).panels p)
      ≡ some tab
unfolding active_tab put_tab
active_tab-put_tab s left tab = ground (
  arith,
  lookup-insert s.panels.left.active_tab_id s.panels.left.active_tab_id tab s.panels.left.tabs,
  eq_refl s.panels.left.active_tab_id,
)
active_tab-put_tab s right tab = ground (
  arith,
  lookup-insert s.panels.right.active_tab_id s.panels.right.active_tab_id tab s.panels.right.tabs,
  eq_refl s.panels.right.active_tab_id,
)

sort_label-dispatch :
    (direction : SortDirection) (d : CommandDispatchDeps) (o : DispatchCommandOptions)
    → dispatch_command (sort_label direction) d o
      ≡ sort_towards direction
          (or_else o.panel_id d.state.active_panel_id)
          (tab_of d (or_else o.panel_id d.state.active_panel_id))
unfolding dispatch_command run_labelled run_command command_of resolve_command_id lookup ◌==◌
sort_label-dispatch asc d o = refl
sort_label-dispatch desc d o = refl

same_field_refl : (field : SortField) → same_field field field ≡ true
same_field_refl SortField.name = refl
same_field_refl field = refl

turned :
    (old direction : SortDirection)
    → same_direction old direction ≡ false
    → (if is_asc old then desc else asc) ≡ direction
unfolding same_direction
turned asc asc h = cc
turned asc desc h = refl
turned desc asc h = refl
turned desc desc h = cc

kept : (old direction : SortDirection) → same_direction old direction ≡ true → old ≡ direction
unfolding same_direction
kept asc asc h = refl
kept asc desc h = cc
kept desc asc h = cc
kept desc desc h = refl

next_sort-turns :
    (direction : SortDirection) (tab : PanelTabState)
    → same_direction tab.sort.direction direction ≡ false
    → record tab { sort = next_sort tab.sort.field tab.sort } ≡ sorted_towards direction tab
unfolding next_sort
next_sort-turns direction tab h =
    let e : (if same_field tab.sort.field tab.sort.field && is_asc tab.sort.direction
          then desc
          else asc)
        ≡ direction =
      rw (same_field_refl tab.sort.field) (turned tab.sort.direction direction h) in
    ap (λ (k : SortDirection). record tab { sort = record tab.sort { direction = k } }) e

-- The reduction of the change of the order.
set_sort-turns :
    (h : Host) (w : World) (s : FileOctopusState) (p : PanelId) (tab : PanelTabState)
    (direction : SortDirection)
    → active_tab (panel_of s.panels p) ≡ some tab
    → same_direction tab.sort.direction direction ≡ false
    → (w' : World) × (panel_reducer h w s (PanelAction.set_sort p tab.sort.field)
        ≡ some (put_tab s p (panel_of s.panels p).active_tab_id (sorted_towards direction tab), w'))
unfolding panel_reducer reduce_panel_action reduce_sort_filter set_sort_state update_panel
    is_tab_action is_content_search_action is_navigation_action is_listing_action
    is_selection_action is_sort_filter_action
set_sort-turns h w s p tab direction there other = (
  persist_value (sort_key p) (sort_json (next_sort tab.sort.field tab.sort)) w,
  rw (there, next_sort-turns direction tab other) refl,
)

-- The commands that sort in ascending or in descending order, on a panel with an active tab: the dispatch
-- throws nothing and handles the command, its actions are carried out by the panel store, and then the
-- active tab of the panel has the direction, and is otherwise as it was.
pub sort_label-sorted_towards :
    (direction : SortDirection) (d : CommandDispatchDeps) (o : DispatchCommandOptions) (now : ℕ)
    (tab : PanelTabState)
    → tab_of d (or_else o.panel_id d.state.active_panel_id) ≡ some tab
    → (r : Dispatched) × (dispatch_command (sort_label direction) d o ≡ some r)
      × (r.handled ≡ true)
      × (t : FileOctopusState × World) × (run_actions d.host d.world d.state
            (actions_of now r.effects)
          ≡ some t)
      × (active_tab (panel_of t.0.panels (or_else o.panel_id d.state.active_panel_id))
          ≡ some (sorted_towards direction tab))
unfolding sort_towards actions_of run_actions
sort_label-sorted_towards direction d o now tab there =
    let p = or_else o.panel_id d.state.active_panel_id in
    let e = sort_label-dispatch direction d o in
    elim (Bool-cases (same_direction tab.sort.direction direction)) [
      | inl same ↦ (
        record { handled = true; effects = [] },
        rw (e, there, same) refl,
        refl,
        (d.state, d.world),
        refl,
        there
            ∙ ap
                (λ (k : SortDirection).
                  some (record tab { sort = record tab.sort { direction = k } }))
                (kept tab.sort.direction direction same),
      )
      | inr other ↦
          let (w', f) =
            set_sort-turns d.host (record d.world { now = now }) d.state p tab direction there
              other in
          (
            record {
              handled = true;
              effects = Effect.panel_action (PanelAction.set_sort p tab.sort.field) ∷ [];
            },
            rw (e, there, other) refl,
            refl,
            (
              put_tab d.state p (panel_of d.state.panels p).active_tab_id
                  (sorted_towards direction tab),
              w',
            ),
            rw f refl,
            active_tab-put_tab d.state p (sorted_towards direction tab),
          )
    ]
