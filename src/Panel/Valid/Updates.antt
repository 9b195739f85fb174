-- ===== src/Panel/Valid/Updates.antt =====
-- Each update of a tab keeps it well formed.
use file_octopus.Base.{
  Bool, true, false, not, Option, none, some, List, [], ◌∷◌, ◌≡◌, refl, inl, inr, JsString, ◌==◌,
  includes, any, ◌&&◌, ◌>>=◌, truthy, Bool-cases, is_some, if◌then◌else◌,
}
use file_octopus.Panel.Entry.{FileEntryDto, DirectoryBatchEventDto}
use file_octopus.Panel.Host.{Host, World}
use file_octopus.Panel.Types.{BackgroundListing, PanelTabState}
use file_octopus.Panel.Navigation.{
  NavigationOptions, apply_navigation, back_to, forward_to, is_error,
}
use file_octopus.Panel.Listing.{
  foreground, background, background_of, fail_listing, extend_background, show_listing, batch_on,
  batch_tab, deliver, remove_from_tab, rename_known,
}
use file_octopus.Panel.LoadState.{should_apply_batch}
use file_octopus.Panel.Requests.{bind_background, start_session_tab, set_archive_entries_tab}
use file_octopus.Panel.Tabs.{blank_tab, create_fresh_tab, can_clone_listing}
use file_octopus.Panel.Valid.{BackgroundIsValid, TabIsValid}
use file_octopus.Panel.Valid.Lists.{
  add_entries-Covered, erase_all-Covered, rename-Covered, archive_ids-Covered,
}

pub apply_navigation-TabIsValid :
    (tab : PanelTabState) (uri : JsString) (options : NavigationOptions)
    → TabIsValid tab
    → TabIsValid (apply_navigation tab uri options)
unfolding apply_navigation
apply_navigation-TabIsValid tab uri options v =
    elim (Bool-cases
      (options.soft_refresh && not (not (uri == tab.uri)) && not (is_error tab.load_state))) [
        | inl e ↦ rw e (record { listing = v.listing; in_background = tt })
        | inr e ↦ rw e (record { listing = tt; in_background = tt })
      ]

pub back_to-TabIsValid :
    (tab : PanelTabState) (target : Option JsString)
    → TabIsValid tab
    → TabIsValid (back_to tab target)
unfolding back_to
back_to-TabIsValid tab none v = v
back_to-TabIsValid tab (some uri) v = elim (Bool-cases (truthy uri)) [
  | inl t ↦ rw t (apply_navigation-TabIsValid tab uri _ v)
  | inr t ↦ rw t v
]

pub forward_to-TabIsValid :
    (tab : PanelTabState) (stack : List JsString)
    → TabIsValid tab
    → TabIsValid (forward_to tab stack)
unfolding forward_to
forward_to-TabIsValid tab [] v = v
forward_to-TabIsValid tab (uri ∷ rest) v = elim (Bool-cases (truthy uri)) [
  | inl t ↦ rw t (apply_navigation-TabIsValid tab uri _ v)
  | inr t ↦ rw t v
]

-- The listing in the background that a batch finds is the tab's.
background_of-IsValid :
    (tab : PanelTabState) (request_id : JsString)
    → BackgroundIsValid tab.background_listing
    → BackgroundIsValid (background_of tab request_id)
unfolding background_of
background_of-IsValid tab request_id v = go tab.background_listing v
  where
    go :
        (b : Option BackgroundListing)
        → BackgroundIsValid b
        → BackgroundIsValid (b >>= λ x. if x.request_id == request_id then some x else none)
    go none v = tt
    go (some x) v = elim (Bool-cases (x.request_id == request_id)) [
      | inl e ↦ rw e v
      | inr e ↦ rw e tt
    ]

cleared-IsValid :
    (b : Bool) (background_listing : Option BackgroundListing)
    → BackgroundIsValid background_listing
    → BackgroundIsValid (if b then none else background_listing)
cleared-IsValid true background_listing v = tt
cleared-IsValid false background_listing v = v

batch_on-TabIsValid :
    (batch : DirectoryBatchEventDto) (tab : PanelTabState) (b : Option BackgroundListing)
    → TabIsValid tab
    → BackgroundIsValid b
    → TabIsValid (batch_on batch tab b)
unfolding batch_on show_listing extend_background
batch_on-TabIsValid batch tab none v h = record {
  listing = add_entries-Covered (foreground tab) batch.entries v.listing;
  in_background = v.in_background;
}
batch_on-TabIsValid batch tab (some b) v h = elim (Bool-cases batch.is_complete) [
  | inl e ↦
      rw e (record {
        listing = add_entries-Covered (background b) batch.entries h;
        in_background = tt;
      })
  | inr e ↦ rw e (record {
    listing = v.listing;
    in_background = add_entries-Covered (background b) batch.entries h;
  })
]

pub deliver-TabIsValid :
    (batch : DirectoryBatchEventDto) (tab : PanelTabState)
    → TabIsValid tab
    → TabIsValid (deliver batch tab)
unfolding deliver fail_listing batch_tab
deliver-TabIsValid batch tab v =
    elim (Bool-cases (should_apply_batch tab.active_request_id batch)) [
      | inl e ↦ rw e (elim (Bool-cases (is_some batch.error && batch.is_complete)) [
        | inl f ↦ rw f (record {
          listing = v.listing;
          in_background = cleared-IsValid _ tab.background_listing v.in_background;
        })
        | inr f ↦ rw f (
            batch_on-TabIsValid batch tab (background_of tab batch.request_id) v
              (background_of-IsValid tab batch.request_id v.in_background))
      ])
      | inr e ↦ rw e v
    ]

pub remove_from_tab-TabIsValid :
    (uris : List JsString) (tab : PanelTabState)
    → TabIsValid tab
    → TabIsValid (remove_from_tab uris tab)
unfolding remove_from_tab
remove_from_tab-TabIsValid uris tab v =
    elim (Bool-cases (any (includes uris) tab.ordered_entry_ids)) [
      | inl e ↦ rw e (record {
        listing = erase_all-Covered uris tab.entries_by_id tab.ordered_entry_ids v.listing;
        in_background = v.in_background;
      })
      | inr e ↦ rw e v
    ]

pub rename_known-TabIsValid :
    (old_uri new_uri name : JsString) (tab : PanelTabState) (found : Option FileEntryDto)
    → TabIsValid tab
    → TabIsValid (rename_known old_uri new_uri name tab found)
unfolding rename_known
rename_known-TabIsValid old_uri new_uri name tab none v = v
rename_known-TabIsValid old_uri new_uri name tab (some entry) v = record {
  listing = rename-Covered old_uri new_uri _ tab.entries_by_id tab.ordered_entry_ids v.listing;
  in_background = v.in_background;
}

bind_background-IsValid :
    (session_id request_id : JsString) (b : Option BackgroundListing)
    → BackgroundIsValid b
    → BackgroundIsValid (bind_background session_id request_id b)
unfolding bind_background
bind_background-IsValid session_id request_id none v = tt
bind_background-IsValid session_id request_id (some b) v =
    elim (Bool-cases (b.request_id == request_id)) [ inl e ↦ rw e v | inr e ↦ rw e v ]

pub start_session_tab-TabIsValid :
    (session_id request_id : JsString) (tab : PanelTabState)
    → TabIsValid tab
    → TabIsValid (start_session_tab session_id request_id tab)
unfolding start_session_tab
start_session_tab-TabIsValid session_id request_id tab v = record {
  listing = v.listing;
  in_background =
      bind_background-IsValid session_id request_id tab.background_listing v.in_background;
}

pub set_archive_entries_tab-TabIsValid :
    (uri : JsString) (entries : List FileEntryDto) (tab : PanelTabState)
    → TabIsValid (set_archive_entries_tab uri entries tab)
unfolding set_archive_entries_tab
set_archive_entries_tab-TabIsValid uri entries tab = record {
  listing = archive_ids-Covered [] entries;
  in_background = tt;
}

pub create_fresh_tab-TabIsValid :
    (h : Host) (w : World) (uri : JsString) (source : Option PanelTabState)
    → ((tab : PanelTabState) → source ≡ some tab → TabIsValid tab)
    → TabIsValid (create_fresh_tab h w uri source)
unfolding create_fresh_tab blank_tab
create_fresh_tab-TabIsValid h w uri none v = record { listing = tt; in_background = tt }
create_fresh_tab-TabIsValid h w uri (some tab) v = elim (Bool-cases (can_clone_listing tab uri)) [
  | inl e ↦ rw e (record { listing = (v tab refl).listing; in_background = tt })
  | inr e ↦ rw e (record { listing = tt; in_background = tt })
]
