-- ===== src/Commands/Operating.antt =====
-- Commands of packages/frontend/src/commands/registryData.ts, from `op.copy` to
-- `view.toggleTerminal`.
use file_octopus.Base.{false, true, none, some, List, [], ◌∷◌, js}
use file_octopus.Commands.Types.{
  CommandDefinition, CommandGroup, context, fkey, menu, palette, toolbar, define,
}

abbrev pub operating_commands : List CommandDefinition
operating_commands =
    define (js "op.copy") (js "Copy") CommandGroup.operation (some (js "⌘C")) (some (js "Ctrl+C"))
      false (toolbar ∷ menu ∷ palette ∷ context ∷ [])
    ∷ define (js "op.cut") (js "Cut") CommandGroup.operation (some (js "⌘X")) (some (js "Ctrl+X"))
        false (toolbar ∷ menu ∷ palette ∷ context ∷ [])
    ∷ define (js "op.paste") (js "Paste") CommandGroup.operation (some (js "⌘V"))
        (some (js "Ctrl+V")) false (toolbar ∷ menu ∷ palette ∷ context ∷ [])
    ∷ define (js "op.copyTo") (js "Copy To…") CommandGroup.operation (some (js "F5"))
        (some (js "F5")) false (toolbar ∷ menu ∷ fkey ∷ palette ∷ context ∷ [])
    ∷ define (js "op.moveTo") (js "Move To…") CommandGroup.operation (some (js "F6"))
        (some (js "F6")) false (toolbar ∷ menu ∷ fkey ∷ palette ∷ context ∷ [])
    ∷ define (js "op.rename") (js "Rename") CommandGroup.operation (some (js "F2")) (some (js "F2"))
        false (toolbar ∷ menu ∷ fkey ∷ palette ∷ context ∷ [])
    ∷ define (js "op.delete") (js "Delete") CommandGroup.operation (some (js "F8")) (some (js "F8"))
        false (toolbar ∷ menu ∷ fkey ∷ palette ∷ context ∷ [])
    ∷ define (js "op.trash") (js "Move to Trash") CommandGroup.operation none none false
        (palette ∷ context ∷ [])
    ∷ define (js "op.deletePermanent") (js "Delete Permanently") CommandGroup.operation
        (some (js "⇧Delete")) (some (js "Shift+Delete")) true (menu ∷ palette ∷ context ∷ [])
    ∷ define (js "op.properties") (js "Properties") CommandGroup.operation (some (js "⌥Return"))
        (some (js "Alt+Enter")) false (toolbar ∷ menu ∷ palette ∷ context ∷ [])
    ∷ define (js "op.permissions") (js "Permissions…") CommandGroup.operation none none false
        (menu ∷ palette ∷ context ∷ [])
    ∷ define (js "op.reveal") (js "Reveal in System File Manager") CommandGroup.operation none none
        false (menu ∷ palette ∷ context ∷ [])
    ∷ define (js "op.open") (js "Open") CommandGroup.operation (some (js "Return"))
        (some (js "Enter")) false (toolbar ∷ menu ∷ palette ∷ context ∷ [])
    ∷ define (js "op.view") (js "View") CommandGroup.operation (some (js "F3")) (some (js "F3"))
        false (toolbar ∷ menu ∷ fkey ∷ palette ∷ context ∷ [])
    ∷ define (js "op.edit") (js "Edit") CommandGroup.operation (some (js "F4")) (some (js "F4"))
        false (toolbar ∷ menu ∷ fkey ∷ palette ∷ context ∷ [])
    ∷ define (js "op.openDefault") (js "Open With Default App") CommandGroup.operation none none
        false (menu ∷ palette ∷ context ∷ [])
    ∷ define (js "op.compress") (js "Pack") CommandGroup.operation none none false
        (toolbar ∷ menu ∷ palette ∷ context ∷ [])
    ∷ define (js "op.extract") (js "Unpack") CommandGroup.operation none none false
        (toolbar ∷ menu ∷ palette ∷ context ∷ [])
    ∷ define (js "op.checksum") (js "Checksum…") CommandGroup.operation none none false
        (menu ∷ palette ∷ context ∷ [])
    ∷ define (js "op.openTerminal") (js "Open Terminal") CommandGroup.operation none none false
        (toolbar ∷ menu ∷ palette ∷ [])
    ∷ define (js "op.openTerminalExternal") (js "Open External Terminal") CommandGroup.operation
        none none false (menu ∷ palette ∷ [])
    ∷ define (js "terminal.runCommand") (js "Run Command in Terminal…") CommandGroup.tools none none
        false (toolbar ∷ menu ∷ palette ∷ [])
    ∷ define (js "terminal.spawnAndRun") (js "Spawn Terminal and Run Command…") CommandGroup.tools
        none none false (toolbar ∷ menu ∷ palette ∷ [])
    ∷ define (js "view.toggleTerminal") (js "Toggle Terminal Panel") CommandGroup.view none none
        false (toolbar ∷ menu ∷ palette ∷ [])
    ∷ []
