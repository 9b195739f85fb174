-- ===== src/Commands/Viewing.antt =====
-- Commands of packages/frontend/src/commands/registryData.ts, from `op.calculateSize` to
-- `layout.equalizePanes`.
use file_octopus.Base.{false, none, some, List, [], ◌∷◌, js}
use file_octopus.Commands.Types.{
  CommandDefinition, CommandGroup, context, menu, palette, toolbar, define,
}

abbrev pub viewing_commands : List CommandDefinition
viewing_commands =
    define (js "op.calculateSize") (js "Calculate Size") CommandGroup.operation none none false
      (menu ∷ palette ∷ context ∷ [])
    ∷ define (js "op.toggleStarred") (js "Toggle Star") CommandGroup.operation none none false
        (toolbar ∷ menu ∷ palette ∷ context ∷ [])
    ∷ define (js "view.details") (js "Details") CommandGroup.view none none false
        (toolbar ∷ menu ∷ palette ∷ [])
    ∷ define (js "view.list") (js "List") CommandGroup.view none none false
        (toolbar ∷ menu ∷ palette ∷ [])
    ∷ define (js "view.compact") (js "Compact") CommandGroup.view none none false
        (toolbar ∷ menu ∷ palette ∷ [])
    ∷ define (js "view.icons") (js "Icons") CommandGroup.view none none false
        (toolbar ∷ menu ∷ palette ∷ [])
    ∷ define (js "view.columns") (js "Columns") CommandGroup.view none none false
        (toolbar ∷ menu ∷ palette ∷ [])
    ∷ define (js "view.toggleHidden") (js "Show Hidden Files") CommandGroup.view
        (some (js "⌘. or ⌘H")) (some (js "Ctrl+. or Ctrl+H")) false (toolbar ∷ menu ∷ palette ∷ [])
    ∷ define (js "view.toggleSidebar") (js "Toggle Sidebar") CommandGroup.view none none false
        (menu ∷ palette ∷ [])
    ∷ define (js "view.toggleDualPane") (js "Toggle Dual Pane") CommandGroup.view none none false
        (menu ∷ palette ∷ [])
    ∷ define (js "view.toggleStatusBar") (js "Toggle Status Bar") CommandGroup.view none none false
        (menu ∷ palette ∷ [])
    ∷ define (js "view.toggleToolbar") (js "Toggle Toolbar") CommandGroup.view none none false
        (menu ∷ palette ∷ [])
    ∷ define (js "view.toggleActivity") (js "Jobs & Activity") CommandGroup.view none none false
        (toolbar ∷ menu ∷ palette ∷ [])
    ∷ define (js "view.sort") (js "Sort") CommandGroup.view none none false (menu ∷ palette ∷ [])
    ∷ define (js "view.sortAscending") (js "Sort Ascending") CommandGroup.view none none false
        (menu ∷ palette ∷ [])
    ∷ define (js "view.sortDescending") (js "Sort Descending") CommandGroup.view none none false
        (menu ∷ palette ∷ [])
    ∷ define (js "preferences.theme") (js "Theme") CommandGroup.app none none false
        (menu ∷ palette ∷ [])
    ∷ define (js "preferences.cycleTheme") (js "Cycle Theme") CommandGroup.app (some (js "⌘⇧T"))
        (some (js "Ctrl+Shift+T")) false (menu ∷ palette ∷ [])
    ∷ define (js "preferences.accentColor") (js "Accent Color") CommandGroup.app none none false
        (menu ∷ palette ∷ [])
    ∷ define (js "preferences.fontScale") (js "Font Size") CommandGroup.app none none false
        (menu ∷ palette ∷ [])
    ∷ define (js "preferences.iconScale") (js "Icon Size") CommandGroup.app none none false
        (menu ∷ palette ∷ [])
    ∷ define (js "preferences.density") (js "Density") CommandGroup.app none none false
        (menu ∷ palette ∷ [])
    ∷ define (js "layout.switchPane") (js "Switch Pane") CommandGroup.view (some (js "Tab"))
        (some (js "Tab")) false (menu ∷ palette ∷ [])
    ∷ define (js "layout.equalizePanes") (js "Equalize Panes") CommandGroup.view none none false
        (menu ∷ palette ∷ [])
    ∷ []
