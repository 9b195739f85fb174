-- ===== src/Commands/Handled.antt =====
-- The dispatch of the registered commands.
use file_octopus.Base.{
  ℕ, Bool, true, false, Option, none, some, List, [], ◌∷◌, ◌≡◌, refl, ap, ◌⊎◌, inl, inr, JsString,
  ◌==◌, eq_iff, includes, lookup, Dict, is_some, all, has, truthy, trim, or_else, arith, Bool-cases,
  Option-cases,
}
use file_octopus.Panel.Entry.{FileEntryDto}
use file_octopus.Panel.Types.{
  PanelId, left, right, SortField, SortDirection, FileOctopusState, PanelTabState, panel_of,
}
use file_octopus.Panel.Update.{active_tab}
use file_octopus.Panel.Valid.{IsValid}
use file_octopus.Commands.Registry.{ids_of, is_command_id, command_registry}
use file_octopus.Commands.Effects.{Effect, CommandDispatchDeps, DispatchCommandOptions, Dispatched}
use file_octopus.Commands.Labels.{Command, command_of}
use file_octopus.Commands.Branches.{
  tab_of, selected_entry, with_text, toggle_sidebar, sort_by, sort_towards, navigate_up,
  navigate_root, connect_profile, view_entry, edit_entry, open_default, star_entry,
  toggle_dual_pane, toggle_activity, choose_theme, cycle_theme, choose_density, switch_pane,
  toggle_pane_direction,
}
use file_octopus.Commands.Dispatch.{
  resolve_command_id, terminal_command, favorite_effect, remove_favorite, rename_favorite,
}
use file_octopus.Commands.Switch.{run_command, run_labelled, dispatch_command}

-- The commands that are refused where the options or the dependencies lack something.
abbrev pub needs_context : Option Command → Bool
needs_context none = false
needs_context (some Command.view_sort) = true
needs_context (some Command.nav_open_uri) = true
needs_context (some Command.nav_reveal_uri) = true
needs_context (some Command.nav_connect_server) = true
needs_context (some Command.nav_remove_recent) = true
needs_context (some Command.nav_remove_favorite) = true
needs_context (some Command.nav_rename_favorite) = true
needs_context (some Command.terminal_run_command) = true
needs_context (some Command.terminal_spawn_and_run) = true
needs_context (some _) = false

-- No exception; a command that is not handled has no effect, and is one that needs its context.
abbrev pub IsCarriedOut : Bool → Option Dispatched → Type 0
IsCarriedOut needs none = ⊥
IsCarriedOut needs (some r) = (r.handled ≡ true) ⊎ ((needs ≡ true) × (r.effects ≡ []))

with_text-IsCarriedOut :
    (text : Option JsString) (effect : JsString → Effect)
    → IsCarriedOut true (with_text text effect)
unfolding with_text
with_text-IsCarriedOut none effect = inr (refl, refl)
with_text-IsCarriedOut (some text) effect = elim (Bool-cases (truthy text)) [
  | inl full ↦ rw full (inl refl)
  | inr blank ↦ rw blank (inr (refl, refl))
]

module _ (d : CommandDispatchDeps) (o : DispatchCommandOptions) (p : PanelId) where
  view_entry-IsCarriedOut :
      (entry : Option FileEntryDto) → IsCarriedOut false (view_entry d p entry)
  unfolding view_entry
  view_entry-IsCarriedOut none = inl refl
  view_entry-IsCarriedOut (some entry) = inl refl

  edit_entry-IsCarriedOut :
      (entry : Option FileEntryDto) → IsCarriedOut false (edit_entry d p entry)
  unfolding edit_entry
  edit_entry-IsCarriedOut none = inl refl
  edit_entry-IsCarriedOut (some entry) = inl refl

  open_default-IsCarriedOut :
      (entry : Option FileEntryDto) → IsCarriedOut false (open_default d p entry)
  unfolding open_default
  open_default-IsCarriedOut none = inl refl
  open_default-IsCarriedOut (some entry) = inl refl

  connect_profile-IsCarriedOut :
      (profile : Option JsString) → IsCarriedOut true (connect_profile d profile)
  unfolding connect_profile
  connect_profile-IsCarriedOut none = inr (refl, refl)
  connect_profile-IsCarriedOut (some profile) = inl refl

  terminal_command-IsCarriedOut :
      (there : Bool) (label : JsString) (effect : JsString → Effect)
      → IsCarriedOut true (terminal_command d o there label effect)
  unfolding terminal_command
  terminal_command-IsCarriedOut true label effect = inl refl
  terminal_command-IsCarriedOut false label effect = inr (refl, refl)

  sort_by-IsCarriedOut : (field : Option SortField) → IsCarriedOut true (sort_by p field)
  unfolding sort_by
  sort_by-IsCarriedOut none = inr (refl, refl)
  sort_by-IsCarriedOut (some field) = inl refl

star_entry-IsCarriedOut : (entry : Option FileEntryDto) → IsCarriedOut false (star_entry entry)
unfolding star_entry
star_entry-IsCarriedOut none = inl refl
star_entry-IsCarriedOut (some entry) = inl refl

remove_favorite-IsCarriedOut : (id : Option ℕ) → IsCarriedOut true (remove_favorite id)
unfolding remove_favorite
remove_favorite-IsCarriedOut none = inr (refl, refl)
remove_favorite-IsCarriedOut (some id) = inl refl

rename_favorite-IsCarriedOut :
    (id : Option ℕ) (label : Option JsString) → IsCarriedOut true (rename_favorite id label)
unfolding rename_favorite
rename_favorite-IsCarriedOut none label = inr (refl, refl)
rename_favorite-IsCarriedOut (some id) none = inr (refl, refl)
rename_favorite-IsCarriedOut (some id) (some label) = elim (Bool-cases (truthy (trim label))) [
  | inl full ↦ rw full (inl refl)
  | inr blank ↦ rw blank (inr (refl, refl))
]

has_label : JsString → Bool
has_label id = is_some (command_of (resolve_command_id id))

-- A test that all texts of a list pass, each of them passes.
all-includes :
    (test : JsString → Bool) (xs : List JsString) (x : JsString)
    → all test xs ≡ true
    → includes xs x ≡ true
    → test x ≡ true
unfolding includes
all-includes test [] x h m = cc
all-includes test (y ∷ ys) x h m = elim (Bool-cases (y == x)) [
  | inl same ↦
      let e : y ≡ x = (eq_iff y x).0 same in
      let first : test y ≡ true = ground arith in cc (ap test e)
  | inr other ↦ all-includes test ys x (ground arith) (rw other at m)
]

registry_labelled : all has_label (ids_of command_registry) ≡ true
unfolding has_label ids_of command_of resolve_command_id lookup ◌==◌
registry_labelled = refl

is_some-cases : (c : Option Command) → is_some c ≡ true → (command : Command) × (c ≡ some command)
is_some-cases none h = cc
is_some-cases (some command) h = (command, refl)

-- Every registered command has a branch of the switch.
registered-label :
    (id : JsString)
    → is_command_id id ≡ true
    → (command : Command) × (command_of (resolve_command_id id) ≡ some command)
unfolding is_command_id has_label
registered-label id h =
    is_some-cases (command_of (resolve_command_id id))
      (all-includes has_label (ids_of command_registry) id registry_labelled h)

module _ (d : CommandDispatchDeps) (o : DispatchCommandOptions) (p : PanelId) (tab : PanelTabState)
    (there : tab_of d p ≡ some tab) where
  sort_towards-IsCarriedOut :
      (direction : SortDirection) → IsCarriedOut false (sort_towards direction p (tab_of d p))
  unfolding sort_towards
  sort_towards-IsCarriedOut direction = rw there (inl refl)

  navigate_up-IsCarriedOut : IsCarriedOut false (navigate_up p (tab_of d p))
  unfolding navigate_up
  navigate_up-IsCarriedOut = rw there (inl refl)

  navigate_root-IsCarriedOut : IsCarriedOut false (navigate_root d.to_upper_case p (tab_of d p))
  unfolding navigate_root
  navigate_root-IsCarriedOut = rw there (inl refl)

  favorite_effect-IsCarriedOut : IsCarriedOut false (favorite_effect d o p)
  unfolding favorite_effect
  favorite_effect-IsCarriedOut = elim (Option-cases o.target_uri) [
    | inr (uri, e) ↦ rw e (inl refl)
    | inl e ↦ elim (Option-cases (selected_entry d o p)) [
      | inr (entry, f) ↦ rw (e, f) (inl refl)
      | inl f ↦ rw (e, f, there) (inl refl)
    ]
  ]

  run_command-IsCarriedOut :
      (command : Command) → IsCarriedOut (needs_context (some command)) (run_command d o p command)
  unfolding run_command toggle_sidebar toggle_dual_pane toggle_activity choose_theme cycle_theme
      choose_density switch_pane toggle_pane_direction
  run_command-IsCarriedOut Command.view_sort = sort_by-IsCarriedOut d o p o.sort_field
  run_command-IsCarriedOut Command.view_toggle_sidebar = elim (Option-cases d.preferences) [
    | inl e ↦ rw e (inl refl)
    | inr (preferences, e) ↦ rw e (inl refl)
  ]
  run_command-IsCarriedOut Command.view_sort_ascending = sort_towards-IsCarriedOut SortDirection.asc
  run_command-IsCarriedOut Command.view_sort_descending =
      sort_towards-IsCarriedOut SortDirection.desc
  run_command-IsCarriedOut Command.nav_up = navigate_up-IsCarriedOut
  run_command-IsCarriedOut Command.nav_root = navigate_root-IsCarriedOut
  run_command-IsCarriedOut Command.nav_open_uri = with_text-IsCarriedOut o.target_uri _
  run_command-IsCarriedOut Command.nav_reveal_uri = with_text-IsCarriedOut o.target_uri _
  run_command-IsCarriedOut Command.nav_remove_recent = with_text-IsCarriedOut o.target_uri _
  run_command-IsCarriedOut Command.nav_connect_server =
      connect_profile-IsCarriedOut d o p o.network_profile
  run_command-IsCarriedOut Command.op_view = view_entry-IsCarriedOut d o p (selected_entry d o p)
  run_command-IsCarriedOut Command.op_edit = edit_entry-IsCarriedOut d o p (selected_entry d o p)
  run_command-IsCarriedOut Command.op_open_default =
      open_default-IsCarriedOut d o p (selected_entry d o p)
  run_command-IsCarriedOut Command.op_toggle_starred =
      star_entry-IsCarriedOut (selected_entry d o p)
  run_command-IsCarriedOut Command.terminal_run_command =
      terminal_command-IsCarriedOut d o p d.has_run_terminal_command _ _
  run_command-IsCarriedOut Command.terminal_spawn_and_run =
      terminal_command-IsCarriedOut d o p d.has_spawn_and_run_terminal_command _ _
  run_command-IsCarriedOut Command.nav_add_favorite = favorite_effect-IsCarriedOut
  run_command-IsCarriedOut Command.nav_remove_favorite = remove_favorite-IsCarriedOut o.favorite_id
  run_command-IsCarriedOut Command.nav_rename_favorite =
      rename_favorite-IsCarriedOut o.favorite_id o.preference_value
  run_command-IsCarriedOut command = inl refl

lookup-some :
    (key : JsString) (tabs : Dict PanelTabState)
    → has tabs key ≡ true
    → (tab : PanelTabState) × (lookup key tabs ≡ some tab)
lookup-some key tabs h = elim (Option-cases (lookup key tabs)) [
  | inl e ↦ absurd (ground (arith, e, h))
  | inr found ↦ found
]

active-tab :
    (s : FileOctopusState) (p : PanelId)
    → IsValid s
    → (tab : PanelTabState) × (active_tab (panel_of s.panels p) ≡ some tab)
unfolding active_tab
active-tab s left v = lookup-some _ _ v.left.active
active-tab s right v = lookup-some _ _ v.right.active

-- On a well formed state, every registered command is dispatched without an exception. It is handled,
-- unless it is one of the nine that may lack their context; one that is not handled has no effect.
pub dispatch_registered :
    (id : JsString) (d : CommandDispatchDeps) (o : DispatchCommandOptions)
    → is_command_id id ≡ true
    → IsValid d.state
    → IsCarriedOut (needs_context (command_of (resolve_command_id id))) (dispatch_command id d o)
unfolding dispatch_command run_labelled
dispatch_registered id d o known v =
    let (command, e) = registered-label id known in
    let p = or_else o.panel_id d.state.active_panel_id in
    let (tab, there) = active-tab d.state p v in
    rw e (run_command-IsCarriedOut d o p tab there command)
