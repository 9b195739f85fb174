-- ===== src/Panel/Batches.antt =====
-- Batches of a directory listing (`applyBatch` of packages/frontend/src/panelStore.ts).
use mathlib.Core.List.{append-nil, append_assoc}
use file_octopus.Base.{
  if◌then◌else◌, lookup, keep, not, Option, none, some, or_maybe, false, ◌||◌, List, [], ◌∷◌, ◌++◌,
  ◌≡◌, refl, sym, ap, or_maybe_assoc, ◌∙◌, inl, inr, JsString, ◌==◌, eq_iff, has, includes, any,
  arith, Bool-cases, lookup-insert, Distinct,
}
use file_octopus.Panel.Entry.{FileEntryDto}
use file_octopus.Panel.Listing.{Listed, add_entry, add_entries}
use file_octopus.Panel.Selection.{uris_of, without, set_of}

includes-append :
    (xs ys : List JsString) (j : JsString)
    → includes (xs ++ ys) j ≡ (includes xs j || includes ys j)
unfolding includes
includes-append [] ys j = refl
includes-append (x ∷ xs) ys j = ground (arith, includes-append xs ys j)

Distinct-append :
    (xs : List JsString) (x : JsString)
    → Distinct xs
    → includes xs x ≡ false
    → Distinct (xs ++ x ∷ [])
unfolding includes
Distinct-append [] x d h = (refl, tt)
Distinct-append (y ∷ xs) x d h = (
  ground (arith, includes-append xs (x ∷ []) y, d.0, eq_iff x y, eq_iff y x),
  Distinct-append xs x d.1 (ground arith),
)

-- A listing in which the identifiers are those of the entries, each of them once.
pub record IsExact (l : Listed) : Type 0 where
  pub same : (id : JsString) → includes l.ordered_entry_ids id ≡ has l.entries_by_id id
  pub once : Distinct l.ordered_entry_ids

add_entry-IsExact : (l : Listed) (entry : FileEntryDto) → IsExact l → IsExact (add_entry l entry)
unfolding add_entry includes
add_entry-IsExact l entry v = elim (Bool-cases (has l.entries_by_id entry.uri)) [
  | inl e ↦ rw e (record {
    same = (λ id.
        ground (
          arith,
          v.same id,
          lookup-insert entry.uri id entry l.entries_by_id,
          eq_iff entry.uri id,
        ));
    once = v.once;
  })
  | inr e ↦ rw e (record {
    same = (λ id. ground (
      arith,
      includes-append l.ordered_entry_ids (entry.uri ∷ []) id,
      v.same id,
      lookup-insert entry.uri id entry l.entries_by_id,
    ));
    once = Distinct-append l.ordered_entry_ids entry.uri v.once (v.same entry.uri ∙ e);
  })
]

-- The loop over a batch keeps a listing exact: the identifiers stay those of the entries, without
-- repetitions.
pub add_entries-IsExact :
    (l : Listed) (entries : List FileEntryDto) → IsExact l → IsExact (add_entries l entries)
unfolding add_entries
add_entries-IsExact l [] v = v
add_entries-IsExact l (entry ∷ entries) v =
    add_entries-IsExact (add_entry l entry) entries (add_entry-IsExact l entry v)

has-add_entry :
    (l : Listed) (entry : FileEntryDto) (id : JsString)
    → has (add_entry l entry).entries_by_id id ≡ (entry.uri == id || has l.entries_by_id id)
unfolding add_entry
has-add_entry l entry id = ground (arith, lookup-insert entry.uri id entry l.entries_by_id)

-- In an exact listing, after a batch exactly the old identifiers and those of the batch are listed.
pub includes-add_entries :
    (l : Listed) (entries : List FileEntryDto) (id : JsString)
    → IsExact l
    → includes (add_entries l entries).ordered_entry_ids id
      ≡ (includes l.ordered_entry_ids id || any (λ (entry : FileEntryDto). entry.uri == id) entries)
unfolding add_entries
includes-add_entries l [] id v = ground arith
includes-add_entries l (entry ∷ entries) id v =
    let w = add_entry-IsExact l entry v in
    ground (
      arith,
      includes-add_entries (add_entry l entry) entries id w,
      w.same id,
      v.same id,
      has-add_entry l entry id,
    )

-- The last entry of a batch with an identifier.
unfoldable pub last_entry : JsString → List FileEntryDto → Option FileEntryDto
last_entry id [] = none
last_entry id (entry ∷ entries) =
    or_maybe (last_entry id entries) (if entry.uri == id then some entry else none)

lookup-add_entries :
    (l : Listed) (entries : List FileEntryDto) (id : JsString)
    → lookup id (add_entries l entries).entries_by_id
      ≡ or_maybe (last_entry id entries) (lookup id l.entries_by_id)
unfolding add_entries add_entry last_entry
lookup-add_entries l [] id = refl
lookup-add_entries l (entry ∷ entries) id =
    rw
      (
        lookup-add_entries (add_entry l entry) entries id,
        lookup-insert entry.uri id entry l.entries_by_id,
      )
      (or_maybe_assoc (last_entry id entries) (entry.uri == id) entry (lookup id l.entries_by_id))

without-without :
    (x y : JsString) (ids : List JsString) → without x (without y ids) ≡ without y (without x ids)
unfolding without
without-without x y [] = refl
without-without x y (z ∷ ids) = ground (arith, without-without x y ids)

without_twice : (x : JsString) (ids : List JsString) → without x (without x ids) ≡ without x ids
unfolding without
without_twice x [] = refl
without_twice x (z ∷ ids) = ground (arith, without_twice x ids)

without-set_of :
    (x : JsString) (ids : List JsString) → without x (set_of ids) ≡ set_of (without x ids)
unfolding without set_of
without-set_of x [] = refl
without-set_of x (y ∷ ids) = elim (Bool-cases (y == x)) [
  | inl e ↦ rw e (
      ap (λ z. without x (without z (set_of ids))) ((eq_iff y x).0 e)
      ∙ without_twice x (set_of ids)
      ∙ without-set_of x ids)
  | inr e ↦
      rw e (ap (y ∷◌) (without-without x y (set_of ids) ∙ ap (without y) (without-set_of x ids)))
]

keep_unlisted :
    (x : JsString) (listed ids : List JsString)
    → keep (λ id. not (includes (listed ++ x ∷ []) id)) ids
      ≡ without x (keep (λ id. not (includes listed id)) ids)
unfolding without includes
keep_unlisted x listed [] = refl
keep_unlisted x listed (y ∷ ids) =
    ground
      (arith, keep_unlisted x listed ids, includes-append listed (x ∷ []) y, eq_iff x y, eq_iff y x)

-- The identifiers of a batch that are not listed yet, each at its first place.
abbrev pub new_ids : Listed → List FileEntryDto → List JsString
new_ids l entries = set_of (keep (λ id. not (includes l.ordered_entry_ids id)) (uris_of entries))

unlisted_ids : List JsString → List JsString → List JsString
unlisted_ids listed ids = set_of (keep (λ id. not (includes listed id)) ids)

placed :
    (listed ids : List JsString) (x : JsString)
    → (if includes listed x then listed else listed ++ x ∷ [])
        ++ unlisted_ids (if includes listed x then listed else listed ++ x ∷ []) ids
      ≡ listed ++ unlisted_ids listed (x ∷ ids)
unfolding unlisted_ids set_of
placed listed ids x = elim (Bool-cases (includes listed x)) [
  | inl old ↦ rw old refl
  | inr new ↦
      let rest : List JsString = keep (λ id. not (includes listed id)) ids in
      rw (new, keep_unlisted x listed ids)
        (append_assoc listed (x ∷ []) (set_of (without x rest))
          ∙ ap (λ zs. listed ++ x ∷ zs) (sym (without-set_of x rest)))
]

ordered-add_entries :
    (l : Listed) (entries : List FileEntryDto)
    → IsExact l
    → (add_entries l entries).ordered_entry_ids ≡ l.ordered_entry_ids ++ new_ids l entries
unfolding add_entries set_of add_entry unlisted_ids
ordered-add_entries l [] v = sym (append-nil l.ordered_entry_ids)
ordered-add_entries l (entry ∷ entries) v =
    ordered-add_entries (add_entry l entry) entries (add_entry-IsExact l entry v)
    ∙ rw (sym (v.same entry.uri)) (placed l.ordered_entry_ids (uris_of entries) entry.uri)

-- After a batch, an exact listing lists what it listed before, in its order, and then the identifiers
-- of the batch that are new, each at its first place in the batch; under each identifier stands the
-- last entry of the batch that has it, or else the entry of before.
pub add_entries_listing :
    (l : Listed) (entries : List FileEntryDto) (id : JsString)
    → IsExact l
    → ((add_entries l entries).ordered_entry_ids ≡ l.ordered_entry_ids ++ new_ids l entries)
      × (lookup id (add_entries l entries).entries_by_id
          ≡ or_maybe (last_entry id entries) (lookup id l.entries_by_id))
add_entries_listing l entries id v =
    (ordered-add_entries l entries v, lookup-add_entries l entries id)
