-- ===== src/Panel/Order.antt =====
-- packages/frontend/src/paneSort.ts, and the sort of the visible entries.
use file_octopus.Base.{
  ℕ, Bool, true, false, Option, none, some, List, [], ◌∷◌, JsString, js, ℤ, pos, negsuc, ◌-ℤ◌,
  negate, is_neg, is_zero, or_else, truthy, if◌then◌else◌,
}
use file_octopus.Panel.Entry.{
  FileKind, file, directory, symlink, archive, virtual, unknown, FileEntryDto,
}
use file_octopus.Panel.Host.{Host}
use file_octopus.Panel.Types.{SortField, SortDirection, asc, desc, SortState}

unfoldable pub kind_text : FileKind → JsString
kind_text file = js "file"
kind_text directory = js "directory"
kind_text symlink = js "symlink"
kind_text archive = js "archive"
kind_text virtual = js "virtual"
kind_text unknown = js "unknown"

abbrev pub is_directory : FileKind → Bool
is_directory directory = true
is_directory file = false
is_directory symlink = false
is_directory archive = false
is_directory virtual = false
is_directory unknown = false

-- `Date.parse(value) || 0`, where NaN counts as false
date_value : Host → Option JsString → ℤ
date_value h none = pos 0
date_value h (some value) = if truthy value then or_else (h.date_parse value) (pos 0) else pos 0

-- `x || y` on numbers
unfoldable pub or_then : ℤ → ℤ → ℤ
or_then x y = if is_zero x then y else x

unfoldable pub size_value : Option ℕ → ℤ
size_value none = negsuc 0
size_value (some n) = pos n

unfoldable pub compare_field : Host → FileEntryDto → FileEntryDto → SortField → ℤ
unfolding or_then size_value date_value
compare_field h l r SortField.type =
    or_then (h.locale_compare (kind_text l.kind) (kind_text r.kind))
      (h.locale_compare l.name r.name)
compare_field h l r SortField.size =
    or_then (size_value l.size -ℤ size_value r.size) (h.locale_compare l.name r.name)
compare_field h l r SortField.modified =
    or_then (date_value h l.modified_at -ℤ date_value h r.modified_at)
      (h.locale_compare l.name r.name)
compare_field h l r SortField.created =
    or_then (date_value h l.created_at -ℤ date_value h r.created_at)
      (h.locale_compare l.name r.name)
compare_field h l r SortField.extension =
    or_then (h.locale_compare (or_else l.extension []) (or_else r.extension []))
      (h.locale_compare l.name r.name)
compare_field h l r SortField.permissions =
    or_then (h.locale_compare (or_else l.permissions []) (or_else r.permissions []))
      (h.locale_compare l.name r.name)
compare_field h l r SortField.owner =
    or_then (h.locale_compare (or_else l.owner []) (or_else r.owner []))
      (h.locale_compare l.name r.name)
compare_field h l r SortField.name = h.locale_compare_numeric l.name r.name

unfoldable pub directed : SortDirection → ℤ → ℤ
directed asc x = x
directed desc x = negate x

-- Entries of different kinds of which neither is a directory are compared by the field.
unfoldable pub compare_entries : Host → FileEntryDto → FileEntryDto → SortState → ℤ
unfolding compare_field directed
compare_entries h l r sort =
    let by_field = directed sort.direction (compare_field h l r sort.field) in
    if sort.directories_first
    then (if is_directory l.kind
        then (if is_directory r.kind then by_field else negsuc 0)
        else if is_directory r.kind
        then pos 1
        else by_field)
    else by_field

-- `Array.prototype.sort`, a stable sort, by insertion.
unfoldable pub insert_entry :
    Host → SortState → FileEntryDto → List FileEntryDto → List FileEntryDto
insert_entry h sort x [] = x ∷ []
insert_entry h sort x (y ∷ ys) =
    if is_neg (compare_entries h y x sort) then y ∷ insert_entry h sort x ys else x ∷ y ∷ ys

unfoldable pub sort_entries : Host → SortState → List FileEntryDto → List FileEntryDto
sort_entries h sort [] = []
sort_entries h sort (x ∷ xs) = insert_entry h sort x (sort_entries h sort xs)
