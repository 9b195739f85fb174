-- ===== src/Panel/Storage.antt =====
-- packages/frontend/src/panelStorage.ts, the writes to storage of
-- packages/frontend/src/state/slices/sortFilterSlice.ts, and the tab identifiers of
-- packages/frontend/src/state/slices/tabsSlice.ts.
use file_octopus.Base.{
  ◌+◌, Bool, true, Option, none, some, ◌++◌, JsString, js, ◌==◌, is, truthy, starts_with, get_last?,
  show_nat, lookup, insert, if◌then◌else◌, [], ◌∷◌,
}
use file_octopus.Panel.Host.{Host, World}
use file_octopus.Panel.Types.{
  PanelId, left, right, SortField, SortDirection, asc, desc, SortState, ViewMode,
}

pub stored_show_hidden : World → Bool
stored_show_hidden w = is (lookup (js "fileoctopus.showHidden") w.storage) (js "true")

-- The text of a field that is not one of the names reads as `name`.
sort_field : Option JsString → SortField
sort_field t =
    if is t (js "type")
    then SortField.type
    else if is t (js "size")
    then SortField.size
    else if is t (js "modified")
    then SortField.modified
    else if is t (js "created")
    then SortField.created
    else if is t (js "extension")
    then SortField.extension
    else if is t (js "permissions")
    then SortField.permissions
    else if is t (js "owner")
    then SortField.owner
    else SortField.name

default_sort : Option JsString → Option JsString → SortState
unfolding sort_field
default_sort field direction = record {
  field = sort_field field;
  direction = if is direction (js "desc") then desc else asc;
  directories_first = true;
}

unfoldable pub stored_sort : Host → World → SortState
unfolding default_sort
stored_sort h w = elim (lookup (js "fileoctopus.sort") w.storage) [
  | none ↦ default_sort none none
  | some value ↦
      if truthy value
      then (elim (h.parse_sort value) [
        | none ↦ default_sort none none
        | some (field, direction) ↦ default_sort field direction
      ])
      else default_sort none none
]

platform_home : Host → JsString
platform_home h = if starts_with h.platform (js "Win") then js "local://C:/" else js "local:///"

unfoldable pub home_uri : Host → World → JsString
unfolding platform_home
home_uri h w = elim (lookup (js "fileoctopus.homeUri") w.storage) [
  | none ↦ platform_home h
  | some home ↦ if truthy home then home else platform_home h
]

unfoldable pub documents_uri : Host → World → JsString
documents_uri h w =
    let home = home_uri h w in
    if is (elim (get_last? home) [ none ↦ none | some c ↦ some (c ∷ []) ]) (js "/")
    then home
    else home ++ js "/Documents"

-- `localStorage.setItem` in a `try` block
unfoldable pub persist_value : JsString → JsString → World → World
persist_value key value w = record w {
  storage = if w.accepts_writes then insert key value w.storage else w.storage;
}

unfoldable pub panel_text : PanelId → JsString
panel_text left = js "left"
panel_text right = js "right"

unfoldable pub field_text : SortField → JsString
field_text SortField.name = js "name"
field_text SortField.type = js "type"
field_text SortField.size = js "size"
field_text SortField.modified = js "modified"
field_text SortField.created = js "created"
field_text SortField.extension = js "extension"
field_text SortField.permissions = js "permissions"
field_text SortField.owner = js "owner"

direction_text : SortDirection → JsString
direction_text asc = js "asc"
direction_text desc = js "desc"

unfoldable pub bool_text : Bool → JsString
bool_text b = if b then js "true" else js "false"

unfoldable pub view_mode_text : ViewMode → JsString
view_mode_text ViewMode.details = js "details"
view_mode_text ViewMode.list = js "list"
view_mode_text ViewMode.compact = js "compact"
view_mode_text ViewMode.icons = js "icons"
view_mode_text ViewMode.columns = js "columns"
view_mode_text (ViewMode.unchecked s) = s

-- A stored text, cast to `ViewMode`.
unfoldable pub view_mode_of : JsString → ViewMode
view_mode_of s =
    if s == js "details"
    then ViewMode.details
    else if s == js "list"
    then ViewMode.list
    else if s == js "compact"
    then ViewMode.compact
    else if s == js "icons"
    then ViewMode.icons
    else if s == js "columns"
    then ViewMode.columns
    else ViewMode.unchecked s

-- `JSON.stringify` of a sort order
unfoldable pub sort_json : SortState → JsString
unfolding direction_text
sort_json s =
    js "{\"field\":\""
    ++ (field_text s.field
        ++ (js "\",\"direction\":\""
            ++ (direction_text s.direction
                ++ (js "\",\"directoriesFirst\":" ++ (bool_text s.directories_first ++ js "}")))))

unfoldable pub sort_key : PanelId → JsString
sort_key p = js "fileoctopus.sort." ++ panel_text p

unfoldable pub view_mode_key : PanelId → JsString
view_mode_key p = js "fileoctopus.viewMode." ++ panel_text p

unfoldable pub show_hidden_key : PanelId → JsString
show_hidden_key p = js "fileoctopus.showHidden." ++ panel_text p

unfoldable pub generate_tab_id : World → JsString × World
generate_tab_id w =
    let counter = w.tab_counter + 1 in
    (
      js "tab-" ++ (show_nat w.now ++ (js "-" ++ show_nat counter)),
      record w { tab_counter = counter },
    )
