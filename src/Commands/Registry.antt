-- ===== src/Commands/Registry.antt =====
-- The registry of commands: packages/frontend/src/commands/registry.ts.
use file_octopus.Base.{
  Bool, true, false, Option, none, some, List, [], ◌∷◌, ◌++◌, JsString, js, ◌==◌, includes, any,
  find, keep, ◌>>=◌,
}
use file_octopus.Commands.Types.{
  CommandDefinition, CommandGroup, CommandSurface, navigation, creation, operation, tools, view,
  selection, clipboard, app, git, toolbar, menu, fkey, palette, context,
}
use file_octopus.Commands.Navigating.{navigating_commands}
use file_octopus.Commands.Operating.{operating_commands}
use file_octopus.Commands.Viewing.{viewing_commands}
use file_octopus.Commands.Serving.{serving_commands}

abbrev pub command_registry : List CommandDefinition
command_registry =
    navigating_commands ++ (operating_commands ++ (viewing_commands ++ serving_commands))

unfoldable pub ids_of : List CommandDefinition → List JsString
ids_of [] = []
ids_of (c ∷ commands) = c.id ∷ ids_of commands

-- `COMMAND_DEFINITIONS.some((command) => command.id === value)`
unfoldable pub is_command_id : JsString → Bool
unfolding ids_of
is_command_id value = includes (ids_of command_registry) value

-- `byId.get(id)`: the identifiers of the registry are distinct.
unfoldable pub by_id : JsString → Option CommandDefinition
by_id id = find (λ (c : CommandDefinition). c.id == id) command_registry

same_group : CommandGroup → CommandGroup → Bool
same_group navigation navigation = true
same_group creation creation = true
same_group operation operation = true
same_group tools tools = true
same_group view view = true
same_group selection selection = true
same_group clipboard clipboard = true
same_group app app = true
same_group git git = true
same_group _ _ = false

unfoldable pub commands_in_group : CommandGroup → List CommandDefinition
unfolding same_group
commands_in_group group =
    keep (λ (c : CommandDefinition). same_group c.group group) command_registry

same_surface : CommandSurface → CommandSurface → Bool
same_surface toolbar toolbar = true
same_surface menu menu = true
same_surface fkey fkey = true
same_surface palette palette = true
same_surface context context = true
same_surface _ _ = false

toolbar_groups : List CommandGroup
toolbar_groups = navigation ∷ creation ∷ operation ∷ view ∷ []

fkey_command_ids : List JsString
fkey_command_ids =
    js "op.view"
    ∷ js "op.edit"
    ∷ js "op.copyTo"
    ∷ js "op.moveTo"
    ∷ js "create.folder"
    ∷ js "op.delete"
    ∷ js "op.rename"
    ∷ js "app.settings"
    ∷ []

-- A command without surfaces of its own.
legacy_surface : CommandDefinition → CommandSurface → Bool
unfolding same_group toolbar_groups fkey_command_ids
legacy_surface c toolbar = any (same_group c.group) toolbar_groups
legacy_surface c fkey = includes fkey_command_ids c.id
legacy_surface c menu = true
legacy_surface c palette = true
legacy_surface c context = true

on_surface : CommandDefinition → CommandSurface → Option (List CommandSurface) → Bool
unfolding same_surface legacy_surface
on_surface c surface none = legacy_surface c surface
on_surface c surface (some surfaces) = any (same_surface surface) surfaces

unfoldable pub commands_for_surface : CommandSurface → List CommandDefinition
unfolding on_surface
commands_for_surface surface =
    keep (λ (c : CommandDefinition). on_surface c surface c.surfaces) command_registry

pub data Platform : Type 0 where
  mac windows_linux : Platform

shortcut_on : Platform → CommandDefinition → Option JsString
shortcut_on mac c = c.shortcut_mac
shortcut_on windows_linux c = c.shortcut_win

unfoldable pub format_command_shortcut : JsString → Platform → Option JsString
unfolding by_id shortcut_on
format_command_shortcut id platform = do c ← by_id id; shortcut_on platform c
