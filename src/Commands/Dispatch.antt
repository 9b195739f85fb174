-- ===== src/Commands/Dispatch.antt =====
-- Aliases of commands, and the branches on favourites and terminals, of
-- packages/frontend/src/commands/dispatch.ts. `none` is an exception.
use file_octopus.Base.{
  ℕ, Bool, true, false, Option, none, some, List, [], ◌∷◌, ◌++◌, JsString, js, Dict, lookup, truthy,
  trim, split, non_empty, get_last?, or_else, or_maybe, if◌then◌else◌, ◌>>=◌,
}
use file_octopus.Panel.Entry.{FileEntryDto}
use file_octopus.Panel.Types.{PanelId, PanelTabState}
use file_octopus.Commands.Effects.{Effect, CommandDispatchDeps, DispatchCommandOptions, Dispatched}
use file_octopus.Commands.Branches.{done, refused, tab_of, selected_entry}

abbrev legacy_command_aliases : Dict JsString
legacy_command_aliases =
    (js "settings", js "app.settings")
    ∷ (js "shortcuts", js "app.shortcuts")
    ∷ (js "diagnostics", js "app.diagnostics")
    ∷ (js "up", js "nav.up")
    ∷ (js "refresh", js "nav.refresh")
    ∷ (js "toggle-hidden", js "view.toggleHidden")
    ∷ (js "switch-pane", js "layout.switchPane")
    ∷ []

unfoldable pub resolve_command_id : JsString → JsString
resolve_command_id id = or_else (lookup id legacy_command_aliases) id

-- The answer to the label, if anything can be asked.
ask : Option (JsString → Option JsString) → JsString → Option JsString
ask none label = none
ask (some answer) label = answer label

-- The effect of asking, where the options name no command.
asking : Option (JsString → Option JsString) → Option JsString → JsString → List Effect
asking asked (some command) label = []
asking none none label = []
asking (some answer) none label = Effect.request_terminal_command label ∷ []

run_text : Option JsString → (JsString → Effect) → List Effect
run_text none effect = []
run_text (some command) effect =
    let trimmed = trim command in if truthy trimmed then effect trimmed ∷ [] else []

unfoldable pub terminal_command :
    CommandDispatchDeps
    → DispatchCommandOptions
    → Bool
    → JsString
    → (JsString → Effect)
    → Option Dispatched
unfolding ask asking run_text
terminal_command d o true label effect = done (
    asking d.asked_command o.terminal_command label
    ++ run_text (or_maybe o.terminal_command (ask d.asked_command label)) effect)
terminal_command d o false label effect = refused

uri_of_entry : Option FileEntryDto → Option JsString
uri_of_entry none = none
uri_of_entry (some entry) = some entry.uri

uri_of_tab : Option PanelTabState → Option JsString
uri_of_tab none = none
uri_of_tab (some tab) = some tab.uri

unfoldable pub favorite_effect :
    CommandDispatchDeps → DispatchCommandOptions → PanelId → Option Dispatched
unfolding uri_of_entry uri_of_tab
favorite_effect d o p = do
  uri ←
      or_maybe o.target_uri
        (or_maybe (uri_of_entry (selected_entry d o p)) (uri_of_tab (tab_of d p)))
  let label = or_else o.preference_value (or_else (get_last? (non_empty (split b'/' uri))) uri)
  done (Effect.add_favorite p uri label ∷ [])

unfoldable pub remove_favorite : Option ℕ → Option Dispatched
remove_favorite none = refused
remove_favorite (some id) = done (Effect.remove_favorite id ∷ [])

unfoldable pub rename_favorite : Option ℕ → Option JsString → Option Dispatched
rename_favorite none label = refused
rename_favorite (some id) none = refused
rename_favorite (some id) (some label) =
    if truthy (trim label) then done (Effect.rename_favorite id (trim label) ∷ []) else refused
