-- ===== src/Commands/Serving.antt =====
-- Commands of packages/frontend/src/commands/registryData.ts, from `layout.swapPanes` to
-- `tools.manageHotlist`.
use file_octopus.Base.{false, none, some, List, [], ◌∷◌, js}
use file_octopus.Commands.Types.{
  CommandDefinition, CommandGroup, context, fkey, menu, palette, toolbar, define,
}

abbrev pub serving_commands : List CommandDefinition
serving_commands =
    define (js "layout.swapPanes") (js "Swap Panes") CommandGroup.view (some (js "⌘U"))
      (some (js "Ctrl+U")) false (menu ∷ palette ∷ [])
    ∷ define (js "layout.togglePaneDirection") (js "Toggle Split Direction") CommandGroup.view none
        none false (menu ∷ palette ∷ [])
    ∷ define (js "search.recursive") (js "Search") CommandGroup.view (some (js "⌘F"))
        (some (js "Ctrl+F")) false (toolbar ∷ menu ∷ palette ∷ [])
    ∷ define (js "search.focusFilter") (js "Filter") CommandGroup.view (some (js "⌘⇧F"))
        (some (js "Ctrl+Shift+F")) false (toolbar ∷ menu ∷ palette ∷ [])
    ∷ define (js "selection.selectAll") (js "Select All") CommandGroup.selection (some (js "⌘A"))
        (some (js "Ctrl+A")) false (menu ∷ palette ∷ context ∷ [])
    ∷ define (js "selection.clear") (js "Clear Selection") CommandGroup.selection
        (some (js "Escape")) (some (js "Escape")) false (menu ∷ palette ∷ context ∷ [])
    ∷ define (js "selection.invert") (js "Invert Selection") CommandGroup.selection none none false
        (menu ∷ palette ∷ context ∷ [])
    ∷ define (js "clipboard.copyPath") (js "Copy Full Path") CommandGroup.clipboard none none false
        (menu ∷ palette ∷ context ∷ [])
    ∷ define (js "clipboard.copyName") (js "Copy File Name") CommandGroup.clipboard none none false
        (menu ∷ palette ∷ context ∷ [])
    ∷ define (js "clipboard.copyParent") (js "Copy Parent Folder Path") CommandGroup.clipboard none
        none false (menu ∷ palette ∷ context ∷ [])
    ∷ define (js "clipboard.copyUri") (js "Copy Resource URI") CommandGroup.clipboard none none
        false (menu ∷ palette ∷ context ∷ [])
    ∷ define (js "clipboard.clear") (js "Clear File Clipboard") CommandGroup.clipboard none none
        false (menu ∷ palette ∷ [])
    ∷ define (js "app.customizeToolbar") (js "Customize Button Bar") CommandGroup.app none none
        false (menu ∷ palette ∷ [])
    ∷ define (js "app.settings") (js "Settings") CommandGroup.app (some (js "⌘,"))
        (some (js "Ctrl+,")) false (toolbar ∷ menu ∷ fkey ∷ palette ∷ [])
    ∷ define (js "app.shortcuts") (js "Keyboard Shortcuts") CommandGroup.app (some (js "⌘/"))
        (some (js "Ctrl+/")) false (menu ∷ palette ∷ [])
    ∷ define (js "app.diagnostics") (js "Diagnostics") CommandGroup.app none none false
        (menu ∷ palette ∷ [])
    ∷ define (js "app.debugConsole") (js "Debug Console") CommandGroup.app (some (js "⌘⌥L"))
        (some (js "Ctrl+Alt+L")) false []
    ∷ define (js "app.commandPalette") (js "Command Palette") CommandGroup.app (some (js "⌘P"))
        (some (js "Ctrl+P")) false (menu ∷ palette ∷ [])
    ∷ define (js "app.documentation") (js "Documentation") CommandGroup.app none none false
        (menu ∷ palette ∷ [])
    ∷ define (js "app.about") (js "About FileOctopus") CommandGroup.app none none false
        (menu ∷ palette ∷ [])
    ∷ define (js "app.operationHistory") (js "Operation History…") CommandGroup.app none none false
        (menu ∷ palette ∷ [])
    ∷ define (js "git.reviewChanges") (js "Review Git Changes") CommandGroup.git none none false
        (palette ∷ [])
    ∷ define (js "tools.multiRename") (js "Multi-Rename…") CommandGroup.tools (some (js "⌘M"))
        (some (js "Ctrl+M")) false (toolbar ∷ menu ∷ palette ∷ context ∷ [])
    ∷ define (js "tools.syncDirectories") (js "Compare Directories…") CommandGroup.tools none none
        false (toolbar ∷ menu ∷ palette ∷ [])
    ∷ define (js "tools.openHotlist") (js "Open Hotlist…") CommandGroup.tools (some (js "⌘D"))
        (some (js "Ctrl+D")) false (toolbar ∷ menu ∷ palette ∷ [])
    ∷ define (js "tools.manageHotlist") (js "Manage Hotlist…") CommandGroup.tools none none false
        (menu ∷ palette ∷ [])
    ∷ []
