-- ===== src/Commands/Types.antt =====
-- What a command is: packages/frontend/src/commands/types.ts.
use file_octopus.Base.{Bool, Option, some, List, JsString}

pub data CommandGroup : Type 0 where
  navigation creation operation tools view selection clipboard app git : CommandGroup

pub data CommandSurface : Type 0 where
  toolbar menu fkey palette context : CommandSurface

pub record CommandDefinition : Type 0 where
  pub id : JsString
  pub label : JsString
  pub group : CommandGroup
  pub shortcut_mac : Option JsString
  pub shortcut_win : Option JsString
  pub destructive : Bool
  pub surfaces : Option (List CommandSurface)

abbrev pub define :
    JsString
    → JsString
    → CommandGroup
    → Option JsString
    → Option JsString
    → Bool
    → List CommandSurface
    → CommandDefinition
define id label group shortcut_mac shortcut_win destructive surfaces = record {
  id = id;
  label = label;
  group = group;
  shortcut_mac = shortcut_mac;
  shortcut_win = shortcut_win;
  destructive = destructive;
  surfaces = some surfaces;
}
