-- ===== src/Commands/Navigating.antt =====
-- Commands of packages/frontend/src/commands/registryData.ts, from `nav.back` to
-- `create.file`.
use file_octopus.Base.{false, none, some, List, [], ◌∷◌, js}
use file_octopus.Commands.Types.{
  CommandDefinition, CommandGroup, context, fkey, menu, palette, toolbar, define,
}

abbrev pub navigating_commands : List CommandDefinition
navigating_commands =
    define (js "nav.back") (js "Back") CommandGroup.navigation (some (js "⌥←")) (some (js "Alt+←"))
      false (toolbar ∷ menu ∷ palette ∷ [])
    ∷ define (js "nav.forward") (js "Forward") CommandGroup.navigation (some (js "⌥→"))
        (some (js "Alt+→")) false (toolbar ∷ menu ∷ palette ∷ [])
    ∷ define (js "nav.up") (js "Up") CommandGroup.navigation (some (js "Backspace"))
        (some (js "Backspace")) false (toolbar ∷ menu ∷ palette ∷ [])
    ∷ define (js "nav.refresh") (js "Refresh") CommandGroup.navigation (some (js "⌘R"))
        (some (js "Ctrl+R")) false (toolbar ∷ menu ∷ palette ∷ [])
    ∷ define (js "nav.home") (js "Home") CommandGroup.navigation none none false
        (toolbar ∷ menu ∷ palette ∷ [])
    ∷ define (js "nav.root") (js "Root") CommandGroup.navigation none none false
        (menu ∷ palette ∷ [])
    ∷ define (js "nav.volumePicker") (js "Drives") CommandGroup.navigation none none false
        (toolbar ∷ menu ∷ palette ∷ [])
    ∷ define (js "nav.networkLocations") (js "Network") CommandGroup.navigation none none false
        (menu ∷ palette ∷ [])
    ∷ define (js "nav.addServer") (js "Add Connection…") CommandGroup.navigation none none false
        (menu ∷ palette ∷ [])
    ∷ define (js "nav.connectServer") (js "Edit Connection…") CommandGroup.navigation none none
        false (menu ∷ palette ∷ [])
    ∷ define (js "nav.goToLocation") (js "Go to Location…") CommandGroup.navigation (some (js "⌘L"))
        (some (js "Ctrl+L")) false (menu ∷ palette ∷ [])
    ∷ define (js "nav.manageFavorites") (js "Manage Favorites…") CommandGroup.navigation none none
        false (menu ∷ palette ∷ [])
    ∷ define (js "nav.addFavorite") (js "Add to Favorites") CommandGroup.navigation none none false
        (menu ∷ palette ∷ context ∷ [])
    ∷ define (js "nav.openUri") (js "Open Location") CommandGroup.navigation none none false
        (menu ∷ palette ∷ [])
    ∷ define (js "nav.revealUri") (js "Reveal in File Manager") CommandGroup.navigation none none
        false (menu ∷ palette ∷ [])
    ∷ define (js "nav.removeFavorite") (js "Remove Favorite") CommandGroup.navigation none none
        false (menu ∷ palette ∷ context ∷ [])
    ∷ define (js "nav.renameFavorite") (js "Rename Favorite") CommandGroup.navigation none none
        false (menu ∷ palette ∷ context ∷ [])
    ∷ define (js "nav.recentLocations") (js "Recent Locations…") CommandGroup.navigation none none
        false (menu ∷ palette ∷ [])
    ∷ define (js "nav.clearRecentLocations") (js "Clear Recent Locations…") CommandGroup.navigation
        none none false (menu ∷ palette ∷ [])
    ∷ define (js "nav.clearRecent") (js "Clear Recent") CommandGroup.navigation none none false
        (menu ∷ palette ∷ [])
    ∷ define (js "nav.removeRecent") (js "Remove Recent") CommandGroup.navigation none none false
        (context ∷ [])
    ∷ define (js "create.folder") (js "New Folder") CommandGroup.creation (some (js "F7"))
        (some (js "F7")) false (toolbar ∷ menu ∷ fkey ∷ palette ∷ context ∷ [])
    ∷ define (js "create.file") (js "New File") CommandGroup.creation none none false
        (toolbar ∷ menu ∷ palette ∷ context ∷ [])
    ∷ []
