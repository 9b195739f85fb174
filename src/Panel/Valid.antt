-- ===== src/Panel/Valid.antt =====
-- When a state of the panel store is well formed: in every panel the active tab exists and no two tabs
-- have one identifier, and in every tab each listed identifier has an entry.
mod Lists
pub mod Updates
pub mod States
pub mod Close
mod Selecting
mod Searching
mod Listing
mod Opening
pub mod Reducer
use file_octopus.Base.{
  Bool, true, Option, none, some, List, ◌≡◌, JsString, Dict, has, keys, All, AllValues, Distinct,
}
use file_octopus.Panel.Entry.{FileEntryDto}
use file_octopus.Panel.Types.{BackgroundListing, PanelTabState, PanelState, FileOctopusState}

-- Every identifier of the list has an entry.
abbrev pub Covered : Dict FileEntryDto → List JsString → Type 0
Covered d ids = All (λ id. has d id ≡ true) ids

abbrev pub BackgroundIsValid : Option BackgroundListing → Type 0
BackgroundIsValid none = Unit
BackgroundIsValid (some b) = Covered b.entries_by_id b.ordered_entry_ids

pub record TabIsValid (tab : PanelTabState) : Type 0 where
  pub listing : Covered tab.entries_by_id tab.ordered_entry_ids
  pub in_background : BackgroundIsValid tab.background_listing

pub record PanelIsValid (panel : PanelState) : Type 0 where
  pub active : has panel.tabs panel.active_tab_id ≡ true
  pub distinct : Distinct (keys panel.tabs)
  pub each : AllValues TabIsValid panel.tabs

pub record IsValid (state : FileOctopusState) : Type 0 where
  pub left : PanelIsValid state.panels.left
  pub right : PanelIsValid state.panels.right
