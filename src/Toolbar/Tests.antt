-- ===== src/Toolbar/Tests.antt =====
-- Runs on concrete toolbars, and the theorems at them.
use file_octopus.Base.{List, [], ◌∷◌, ◌≡◌, refl, js, ◌==◌}
use file_octopus.Toolbar.{
  ToolbarEntry, command, separator, push_toolbar_entry, push_toolbar_entries, drop_first_separators,
  put_before, drop_last_separators, or_default, normalize_toolbar_entries,
}
use file_octopus.Toolbar.Loose.{IsTidy, tidy_from}
use file_octopus.Toolbar.Tidy.{normalize_toolbar_entries-IsTidy, normalize_tidy}

abbrev view : ToolbarEntry
view = command (js "op.view")

abbrev edit : ToolbarEntry
edit = command (js "op.edit")

abbrev untidy : List ToolbarEntry
untidy = separator ∷ view ∷ separator ∷ separator ∷ edit ∷ view ∷ separator ∷ []

tidied : normalize_toolbar_entries untidy ≡ view ∷ separator ∷ edit ∷ []
unfolding normalize_toolbar_entries push_toolbar_entries push_toolbar_entry drop_first_separators
    drop_last_separators put_before or_default ◌==◌
tidied = refl

normalize_toolbar_entries-IsTidy_example : IsTidy (normalize_toolbar_entries untidy)
normalize_toolbar_entries-IsTidy_example = normalize_toolbar_entries-IsTidy untidy

normalize_tidy_example :
    normalize_toolbar_entries (view ∷ separator ∷ edit ∷ []) ≡ view ∷ separator ∷ edit ∷ []
unfolding tidy_from ◌==◌
normalize_tidy_example = normalize_tidy (view ∷ separator ∷ edit ∷ []) refl
