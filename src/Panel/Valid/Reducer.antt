-- ===== src/Panel/Valid/Reducer.antt =====
-- The reducer on well formed states.
use file_octopus.Base.{
  ℕ, List, [], ◌∷◌, ◌>>=◌, Bool, Option, some, ◌≡◌, refl, lookup, ◌==◌, includes, JsString,
  if◌then◌else◌,
}
use file_octopus.Panel.Host.{Host, World}
use file_octopus.Panel.Types.{PanelId, left, right, FileOctopusState, PanelAction}
use file_octopus.Panel.Storage.{home_uri, documents_uri}
use file_octopus.Panel.Tabs.{blank_tab}
use file_octopus.Panel.Reducer.{
  create_panel, create_initial_state, is_tab_action, is_content_search_action, is_navigation_action,
  is_listing_action, is_selection_action, is_sort_filter_action, reduce_content_search,
  reduce_panel_action, panel_reducer,
}
use file_octopus.Panel.Valid.{PanelIsValid, IsValid}
use file_octopus.Panel.Valid.Opening.{
  SucceedsIn, in_world-Succeeds, reduce_tab_succeeds, reduce_sort_filter_succeeds,
}
use file_octopus.Panel.Valid.Listing.{reduce_navigation-Succeeds, reduce_listing-Succeeds}
use file_octopus.Panel.Valid.Selecting.{reduce_selection-Succeeds}
use file_octopus.Panel.Valid.Searching.{reduce_content_search-IsValid}

create_panel-PanelIsValid :
    (h : Host) (w : World) (p : PanelId) (uri : JsString) → PanelIsValid (create_panel h w p uri)
unfolding create_panel blank_tab lookup ◌==◌ includes
create_panel-PanelIsValid h w p uri = record {
  active = refl;
  distinct = (refl, tt);
  each = (record { listing = tt; in_background = tt }, tt);
}

-- The state that the store starts with is well formed.
pub create_initial_state-IsValid : (h : Host) (w : World) → IsValid (create_initial_state h w)
unfolding create_initial_state
create_initial_state-IsValid h w = record {
  left = create_panel-PanelIsValid h w left (home_uri h w);
  right = create_panel-PanelIsValid h w right (documents_uri h w);
}

module _ (h : Host) (w : World) (s : FileOctopusState) (v : IsValid s) where
  -- One step of a chain of tests.
  either_succeeds :
      (b : Bool) (x y : Option (FileOctopusState × World))
      → SucceedsIn x
      → SucceedsIn y
      → SucceedsIn (if b then x else y)
  either_succeeds Bool.true x y p q = p
  either_succeeds Bool.false x y p q = q

  reduce_panel_action_succeeds :
      (action : PanelAction) → SucceedsIn (reduce_panel_action h w s action)
  unfolding reduce_panel_action
  reduce_panel_action_succeeds action =
      either_succeeds (is_tab_action action) _ _ (reduce_tab_succeeds h w s action v) (
        either_succeeds (is_content_search_action action) _ _
          ((reduce_content_search s action, w), refl, reduce_content_search-IsValid s action v)
          (either_succeeds (is_navigation_action action) _ _
            (in_world-Succeeds w _ (reduce_navigation-Succeeds s action v))
            (either_succeeds (is_listing_action action) _ _
              (in_world-Succeeds w _ (reduce_listing-Succeeds s action v))
              (either_succeeds (is_selection_action action) _ _
                (in_world-Succeeds w _ (reduce_selection-Succeeds h s action v))
                (either_succeeds (is_sort_filter_action action) _ _
                  (reduce_sort_filter_succeeds w s action v) ((s, w), refl, v))))))

-- On a well formed state the reducer throws on no action, and the new state is well formed.
pub panel_reducer_succeeds :
    (h : Host) (w : World) (s : FileOctopusState) (action : PanelAction)
    → IsValid s
    → (r : FileOctopusState × World) × (panel_reducer h w s action ≡ some r) × IsValid r.0
unfolding panel_reducer
panel_reducer_succeeds h w s PanelAction.swap_panes v =
    (_, refl, record { left = v.right; right = v.left })
panel_reducer_succeeds h w s action v = reduce_panel_action_succeeds h w s v action

-- Actions in the order in which they come, each with the time at which it comes.
unfoldable pub run_actions :
    Host → World → FileOctopusState → List (ℕ × PanelAction) → Option (FileOctopusState × World)
run_actions h w s [] = some (s, w)
run_actions h w s ((now, action) ∷ actions) = do
  r ← panel_reducer h (record w { now = now }) s action
  run_actions h r.1 r.0 actions

run_actions-SucceedsIn :
    (h : Host) (w : World) (s : FileOctopusState) (actions : List (ℕ × PanelAction))
    → IsValid s
    → SucceedsIn (run_actions h w s actions)
unfolding run_actions
run_actions-SucceedsIn h w s [] v = ((s, w), refl, v)
run_actions-SucceedsIn h w s ((now, action) ∷ actions) v =
    let (r, e, k) = panel_reducer_succeeds h (record w { now = now }) s action v in
    let (t, f, l) = run_actions-SucceedsIn h r.1 r.0 actions k in (t, rw e f, l)

-- From the state that the store starts with, every sequence of actions, at whatever times they come, is
-- carried out without an exception and ends in a well formed state.
pub run_from_start :
    (h : Host) (w : World) (actions : List (ℕ × PanelAction))
    → (r : FileOctopusState × World) × (run_actions h w (create_initial_state h w) actions ≡ some r)
      × IsValid r.0
run_from_start h w actions =
    run_actions-SucceedsIn h w (create_initial_state h w) actions (create_initial_state-IsValid h w)
