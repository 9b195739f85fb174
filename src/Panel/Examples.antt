-- ===== src/Panel/Examples.antt =====
-- Concrete surroundings, entries and states of the panel store, on which the theorems are run.
use file_octopus.Base.{true, false, none, some, List, [], ◌∷◌, JsString, js, pos}
use file_octopus.Panel.Entry.{
  FileKind, FileEntryDto, DirectoryBatchEventDto, ContentSearchMatchDto, ContentSearchMatchEventDto,
}
use file_octopus.Panel.Host.{Host, World}
use file_octopus.Panel.Types.{
  left, TabKind, PanelTabState, FileOctopusState, SortField, asc, SortState, ContentSearchStatus,
  ContentSearchState,
}
use file_octopus.Panel.Tabs.{blank_tab, create_fresh_tab, add_tab}
use file_octopus.Panel.Reducer.{create_initial_state}

-- A host that finds all texts equal, leaves their case as it is and reads no dates.
abbrev pub host : Host
host = record {
  to_lower_case = λ s. s;
  locale_compare = λ _ _. pos 0;
  locale_compare_numeric = λ _ _. pos 0;
  date_parse = λ _. none;
  parse_sort = λ _. none;
  platform = js "Linux";
}

abbrev pub world : World
world = record { storage = []; accepts_writes = true; tab_counter = 0; now = 7 }

abbrev pub entry : JsString → JsString → FileKind → FileEntryDto
entry uri name kind = record {
  uri = uri;
  name = name;
  extension = none;
  kind = kind;
  size = none;
  modified_at = none;
  created_at = none;
  accessed_at = none;
  is_hidden = false;
  is_symlink = false;
  is_placeholder = false;
  symlink_target = none;
  provider_id = js "local";
  can_read = true;
  can_list = true;
  can_write = true;
  can_delete = true;
  can_rename = true;
  permissions = none;
  owner = none;
  target_uri = none;
  virtual_kind = none;
  protocol = none;
  status = none;
  description = none;
}

abbrev pub note : FileEntryDto
note = entry (js "local:///m/note") (js "note") FileKind.file

abbrev pub music : FileEntryDto
music = entry (js "local:///m/music") (js "music") FileKind.directory

abbrev pub photo : FileEntryDto
photo = entry (js "local:///m/photo") (js "photo") FileKind.file

abbrev pub by_name : SortState
by_name = record { field = SortField.name; direction = asc; directories_first = true }

abbrev pub by_size : SortState
by_size = record { field = SortField.size; direction = asc; directories_first = true }

abbrev pub initial : FileOctopusState
initial = create_initial_state host world

-- Two tabs on the left.
abbrev pub opened : FileOctopusState
opened = add_tab initial left (js "tab-7-1") (create_fresh_tab host world (js "local:///m") none)

-- A tab that came from one place and can go on to another.
abbrev pub travelled : PanelTabState
travelled = record (blank_tab host world none TabKind.directory (js "local:///b")) {
  back_stack = js "local:///a" ∷ [];
  forward_stack = js "local:///c" ∷ [];
}

-- A tab that lists two entries, the first one of them selected.
abbrev pub listing : PanelTabState
listing = record (blank_tab host world none TabKind.directory (js "local:///m")) {
  entries_by_id = (note.uri, note) ∷ (music.uri, music) ∷ [];
  ordered_entry_ids = note.uri ∷ music.uri ∷ [];
  selected_ids = note.uri ∷ [];
  anchor_id = some note.uri;
}

abbrev pub batch : JsString → List FileEntryDto → DirectoryBatchEventDto
batch request_id entries = record {
  session_id = js "s";
  request_id = request_id;
  uri = js "local:///m";
  entries = entries;
  batch_index = 0;
  is_complete = false;
  total_hint = none;
  error = none;
}

abbrev pub line : ContentSearchMatchDto
line = record {
  uri = js "local:///m/note";
  parent_uri = js "local:///m";
  name = js "note";
  kind = FileKind.file;
  size = none;
  modified_at = none;
  line_number = 3;
  line_content = js "a sea";
  match_start = 2;
  match_end = 5;
}

abbrev pub match_event : ContentSearchMatchEventDto
match_event = record { job_id = js "job"; uri = js "local:///m"; query = js "sea"; item = line }

abbrev pub started_search : ContentSearchState
started_search = record {
  request_id = js "r";
  root_uri = js "local:///m";
  query = js "sea";
  options = record { case_sensitive = false; use_regex = false; file_pattern = [] };
  status = ContentSearchStatus.starting;
  job_id = none;
  result = none;
  error = none;
}
