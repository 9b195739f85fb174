-- ===== src/Folders/Tests.antt =====
-- Runs of the search for the name of a new folder, and the theorem at a listing.
use file_octopus.Base.{
  false, ◌≡◌, refl, some, List, [], ◌∷◌, JsString, js, ◌==◌, includes, show_nat,
}
use file_octopus.Panel.Entry.{FileEntryDto, FileKind}
use file_octopus.Panel.Examples.{entry}
use file_octopus.Folders.{numbered, free_suffix, free_name, next_folder_name, directory_names}
use file_octopus.Folders.Naming.{next_folder_name_free}

abbrev folder : JsString → FileEntryDto
folder name = entry name name FileKind.directory

abbrev listing : List FileEntryDto
listing =
    folder (js "New Folder")
    ∷ folder (js "New Folder 3")
    ∷ entry (js "x") (js "New Folder 2") FileKind.file
    ∷ folder (js "New Folder 2")
    ∷ []

fourth : next_folder_name listing ≡ some (js "New Folder 4")
unfolding next_folder_name directory_names free_name free_suffix numbered includes ◌==◌ show_nat
fourth = refl

next_folder_name_free_example :
    (name : JsString) × (next_folder_name listing ≡ some name)
    × (includes (directory_names listing) name ≡ false)
next_folder_name_free_example = next_folder_name_free listing
