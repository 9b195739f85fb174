-- ===== src/Panel/Valid/Lists.antt =====
-- Listings that cover their identifiers: what the loops of the store keep.
use file_octopus.Base.{
  Bool, true, not, none, some, List, [], ◌∷◌, map, ◌≡◌, refl, inl, inr, JsString, ◌==◌, eq_iff,
  Dict, lookup, insert, erase, has, includes, keep, All-append, arith, Bool-cases, Option-cases,
  if◌then◌else◌, lookup-erase, has-insert, has-insert_self,
}
use file_octopus.Panel.Entry.{FileEntryDto}
use file_octopus.Panel.Visible.{entries_of}
use file_octopus.Panel.Listing.{Listed, add_entry, add_entries, erase_all, replace_id}
use file_octopus.Panel.Requests.{index_entries, archive_ids}
use file_octopus.Panel.Valid.{Covered}

pub Covered-mono :
    (d d' : Dict FileEntryDto) (ids : List JsString)
    → ((id : JsString) → has d id ≡ true → has d' id ≡ true)
    → Covered d ids
    → Covered d' ids
Covered-mono d d' [] h c = tt
Covered-mono d d' (id ∷ ids) h c = (h id c.0, Covered-mono d d' ids h c.1)

pub Covered-keep :
    (d : Dict FileEntryDto) (p : JsString → Bool) (ids : List JsString)
    → Covered d ids
    → Covered d (keep p ids)
Covered-keep d p [] c = tt
Covered-keep d p (id ∷ ids) c = elim (Bool-cases (p id)) [
  | inl e ↦ rw e (c.0, Covered-keep d p ids c.1)
  | inr e ↦ rw e (Covered-keep d p ids c.1)
]

add_entry-Covered :
    (l : Listed) (entry : FileEntryDto)
    → Covered l.entries_by_id l.ordered_entry_ids
    → Covered (add_entry l entry).entries_by_id (add_entry l entry).ordered_entry_ids
unfolding add_entry
add_entry-Covered l entry c = elim (Bool-cases (has l.entries_by_id entry.uri)) [
  | inl known ↦ rw known old
  | inr new ↦ rw new (
      All-append (λ id. has (insert entry.uri entry l.entries_by_id) id ≡ true) l.ordered_entry_ids
        (entry.uri ∷ []) old (has-insert_self entry.uri entry l.entries_by_id, tt))
]
  where
    old : Covered (insert entry.uri entry l.entries_by_id) l.ordered_entry_ids
    old =
        Covered-mono l.entries_by_id _ l.ordered_entry_ids
          (λ id. has-insert entry.uri id entry l.entries_by_id) c

-- The loop over a batch keeps the identifiers covered.
pub add_entries-Covered :
    (l : Listed) (entries : List FileEntryDto)
    → Covered l.entries_by_id l.ordered_entry_ids
    → Covered (add_entries l entries).entries_by_id (add_entries l entries).ordered_entry_ids
unfolding add_entries
add_entries-Covered l [] c = c
add_entries-Covered l (entry ∷ entries) c =
    add_entries-Covered (add_entry l entry) entries (add_entry-Covered l entry c)

pub lookup-erase_all :
    (uris : List JsString) (j : JsString) (d : Dict FileEntryDto)
    → lookup j (erase_all uris d) ≡ (if includes uris j then none else lookup j d)
unfolding erase_all includes
lookup-erase_all [] j d = refl
lookup-erase_all (uri ∷ uris) j d =
    ground (arith, lookup-erase_all uris j (erase uri d), lookup-erase uri j d)

-- What is left after entries are removed is covered by what is left of the entries.
pub erase_all-Covered :
    (uris : List JsString) (d : Dict FileEntryDto) (ids : List JsString)
    → Covered d ids
    → Covered (erase_all uris d) (keep (λ id. not (includes uris id)) ids)
erase_all-Covered uris d [] c = tt
erase_all-Covered uris d (id ∷ ids) c = elim (Bool-cases (includes uris id)) [
  | inl e ↦ rw e (erase_all-Covered uris d ids c.1)
  | inr e ↦ rw e (ground (arith, lookup-erase_all uris id d, c.0), erase_all-Covered uris d ids c.1)
]

pub rename-Covered :
    (old_uri new_uri : JsString) (entry : FileEntryDto) (d : Dict FileEntryDto)
    (ids : List JsString)
    → Covered d ids
    → Covered (insert new_uri entry (erase old_uri d)) (map (replace_id old_uri new_uri) ids)
unfolding replace_id
rename-Covered old_uri new_uri entry d [] c = tt
rename-Covered old_uri new_uri entry d (id ∷ ids) c = (
  elim (Bool-cases (id == old_uri)) [
    | inl e ↦ rw e (has-insert_self new_uri entry (erase old_uri d))
    | inr e ↦ rw e (
        has-insert new_uri id entry (erase old_uri d)
          (ground (arith, lookup-erase old_uri id d, c.0, eq_iff old_uri id, eq_iff id old_uri)))
  ],
  rename-Covered old_uri new_uri entry d ids c.1,
)

has-index_entries :
    (d : Dict FileEntryDto) (entries : List FileEntryDto) (id : JsString)
    → has d id ≡ true
    → has (index_entries d entries) id ≡ true
unfolding index_entries
has-index_entries d [] id h = h
has-index_entries d (entry ∷ entries) id h =
    has-index_entries (insert entry.uri entry d) entries id (has-insert entry.uri id entry d h)

pub archive_ids-Covered :
    (d : Dict FileEntryDto) (entries : List FileEntryDto)
    → Covered (index_entries d entries) (archive_ids entries)
unfolding index_entries archive_ids
archive_ids-Covered d [] = tt
archive_ids-Covered d (entry ∷ entries) = (
  has-index_entries (insert entry.uri entry d) entries entry.uri
      (has-insert_self entry.uri entry d),
  archive_ids-Covered (insert entry.uri entry d) entries,
)

-- The entries of covered identifiers are found.
pub entries_of_total :
    (d : Dict FileEntryDto) (ids : List JsString)
    → Covered d ids
    → (entries : List FileEntryDto) × (entries_of d ids ≡ some entries)
unfolding entries_of
entries_of_total d [] c = ([], refl)
entries_of_total d (id ∷ ids) c = elim (Option-cases (lookup id d)) [
  | inl missing ↦ absurd (ground (arith, c.0))
  | inr (entry, found) ↦
      let (entries, e) = entries_of_total d ids c.1 in (entry ∷ entries, rw (found, e))
]
