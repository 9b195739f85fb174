-- ===== src/Panel/Valid/States.antt =====
-- The updates of a state keep it well formed, when the update of a tab does.
use file_octopus.Base.{
  Option, none, some, [], ◌∷◌, ◌≡◌, refl, sym, ◌∙◌, inl, inr, JsString, Dict, lookup, keys, has,
  arith, Bool-cases, Option-cases, AllValues, AllValues-insert, AllValues-lookup,
  keys-insert-Distinct, has-insert, has-insert_self, includes-keys,
}
use file_octopus.Panel.Types.{
  PanelId, left, right, PanelTabState, PanelState, FileOctopusState, panel_of, set_panel, is_panel,
}
use file_octopus.Panel.Update.{
  active_tab, put_tab, update_panel, put_existing, update_panel_tab, update_found,
}
use file_octopus.Panel.Listing.{map_tabs, update_all_tabs}
use file_octopus.Panel.Tabs.{add_tab, switch_tab_panel}
use file_octopus.Panel.Valid.{TabIsValid, PanelIsValid, IsValid}

pub panel_of-PanelIsValid :
    {s : FileOctopusState} → IsValid s → (p : PanelId) → PanelIsValid (panel_of s.panels p)
panel_of-PanelIsValid v left = v.left
panel_of-PanelIsValid v right = v.right

pub set_panel-IsValid :
    (s : FileOctopusState) (p : PanelId) (panel : PanelState)
    → IsValid s
    → PanelIsValid panel
    → IsValid (record s { panels = set_panel s.panels p panel })
set_panel-IsValid s left panel v h = record { left = h; right = v.right }
set_panel-IsValid s right panel v h = record { left = v.left; right = h }

-- The active tab of a well formed panel is there, and is well formed.
pub active_tab_found :
    {panel : PanelState}
    → PanelIsValid panel
    → (tab : PanelTabState) × (active_tab panel ≡ some tab) × TabIsValid tab
unfolding active_tab
active_tab_found {panel} v = elim (Option-cases (lookup panel.active_tab_id panel.tabs)) [
  | inl e ↦ absurd (ground (arith, v.active))
  | inr (tab, e) ↦ (tab, e, AllValues-lookup TabIsValid panel.active_tab_id panel.tabs v.each e)
]

pub put_tab-IsValid :
    (s : FileOctopusState) (p : PanelId) (tab_id : JsString) (tab : PanelTabState)
    → IsValid s
    → TabIsValid tab
    → IsValid (put_tab s p tab_id tab)
unfolding put_tab
put_tab-IsValid s p tab_id tab v h = set_panel-IsValid s p _ v (record {
  active = has-insert tab_id panel.active_tab_id tab panel.tabs w.active;
  distinct = keys-insert-Distinct tab_id tab panel.tabs w.distinct;
  each = AllValues-insert TabIsValid tab_id tab panel.tabs h w.each;
})
  where
    panel : PanelState
    panel = panel_of s.panels p

    w : PanelIsValid (panel_of s.panels p)
    w = panel_of-PanelIsValid v p

-- The result of an action on a well formed state: no exception, and a well formed state.
abbrev pub Succeeds : Option FileOctopusState → Type 0
Succeeds result = (s : FileOctopusState) × (result ≡ some s) × IsValid s

pub update_panel-Succeeds :
    (s : FileOctopusState) (p : PanelId) (update : PanelTabState → Option PanelTabState)
    → IsValid s
    → ((tab : PanelTabState)
        → TabIsValid tab
        → (next : PanelTabState) × (update tab ≡ some next) × TabIsValid next)
    → Succeeds (update_panel s p update)
unfolding update_panel
update_panel-Succeeds s p update v keeps =
    let (tab, found, h) = active_tab_found (panel_of-PanelIsValid v p) in
    let (next, e, k) = keeps tab h in
    (
      put_tab s p (panel_of s.panels p).active_tab_id next,
      rw (found, e),
      put_tab-IsValid s p (panel_of s.panels p).active_tab_id next v k,
    )

-- The same for an update that does not throw.
pub update_panel_keeps :
    (s : FileOctopusState) (p : PanelId) (update : PanelTabState → PanelTabState)
    → IsValid s
    → ((tab : PanelTabState) → TabIsValid tab → TabIsValid (update tab))
    → Succeeds (update_panel s p (λ tab. some (update tab)))
update_panel_keeps s p update v keeps =
    update_panel-Succeeds s p (λ tab. some (update tab)) v
      (λ tab h. (update tab, refl, keeps tab h))

pub update_panel_tab-IsValid :
    (s : FileOctopusState) (p : PanelId) (tab_id : JsString)
    (update : PanelTabState → PanelTabState)
    → IsValid s
    → ((tab : PanelTabState) → TabIsValid tab → TabIsValid (update tab))
    → IsValid (update_panel_tab s p tab_id update)
unfolding update_panel_tab put_existing
update_panel_tab-IsValid s p tab_id update v keeps =
    elim (Option-cases (lookup tab_id (panel_of s.panels p).tabs)) [
      | inl e ↦ rw (e, put_existing) v
      | inr (tab, e) ↦
          rw (e, put_existing)
            (put_tab-IsValid s p tab_id (update tab) v (
              keeps tab (
                AllValues-lookup TabIsValid tab_id (panel_of s.panels p).tabs
                  (panel_of-PanelIsValid v p).each e)))
    ]

pub update_found-IsValid :
    (s : FileOctopusState) (p : PanelId) (update : PanelTabState → PanelTabState)
    (found : Option (PanelId × JsString))
    → IsValid s
    → ((tab : PanelTabState) → TabIsValid tab → TabIsValid (update tab))
    → IsValid (update_found s p update found)
unfolding update_found
update_found-IsValid s p update none v keeps = v
update_found-IsValid s p update (some (q, tab_id)) v keeps = elim (Bool-cases (is_panel q p)) [
  | inl e ↦ rw e (update_panel_tab-IsValid s q tab_id update v keeps)
  | inr e ↦ rw e v
]

module _ (f : PanelTabState → PanelTabState) where
  keys-map_tabs : (d : Dict PanelTabState) → keys (map_tabs f d) ≡ keys d
  unfolding map_tabs
  keys-map_tabs [] = refl
  keys-map_tabs ((id, tab) ∷ d) = rw (keys-map_tabs d)

  has-map_tabs : (d : Dict PanelTabState) (id : JsString) → has (map_tabs f d) id ≡ has d id
  has-map_tabs d id =
      sym (includes-keys id (map_tabs f d)) ∙ (rw (keys-map_tabs d) (includes-keys id d))

  AllValues-map_tabs :
      (d : Dict PanelTabState)
      → ((tab : PanelTabState) → TabIsValid tab → TabIsValid (f tab))
      → AllValues TabIsValid d
      → AllValues TabIsValid (map_tabs f d)
  unfolding map_tabs
  AllValues-map_tabs [] keeps h = tt
  AllValues-map_tabs ((id, tab) ∷ d) keeps h = (keeps tab h.0, AllValues-map_tabs d keeps h.1)

  map_tabs-PanelIsValid :
      (panel : PanelState)
      → ((tab : PanelTabState) → TabIsValid tab → TabIsValid (f tab))
      → PanelIsValid panel
      → PanelIsValid (record panel { tabs = map_tabs f panel.tabs })
  map_tabs-PanelIsValid panel keeps v = record {
    active = has-map_tabs panel.tabs panel.active_tab_id ∙ v.active;
    distinct = rw (keys-map_tabs panel.tabs) v.distinct;
    each = AllValues-map_tabs panel.tabs keeps v.each;
  }

  pub update_all_tabs-IsValid :
      (s : FileOctopusState)
      → ((tab : PanelTabState) → TabIsValid tab → TabIsValid (f tab))
      → IsValid s
      → IsValid (update_all_tabs f s)
  unfolding update_all_tabs
  update_all_tabs-IsValid s keeps v = record {
    left = map_tabs-PanelIsValid s.panels.left keeps v.left;
    right = map_tabs-PanelIsValid s.panels.right keeps v.right;
  }

-- A tab that is put in and made the active one.
pub add_tab-IsValid :
    (s : FileOctopusState) (p : PanelId) (tab_id : JsString) (tab : PanelTabState)
    → IsValid s
    → TabIsValid tab
    → IsValid (add_tab s p tab_id tab)
unfolding add_tab put_tab
add_tab-IsValid s left tab_id tab v h = record {
  left = record {
    active = has-insert_self tab_id tab s.panels.left.tabs;
    distinct = keys-insert-Distinct tab_id tab s.panels.left.tabs v.left.distinct;
    each = AllValues-insert TabIsValid tab_id tab s.panels.left.tabs h v.left.each;
  };
  right = v.right;
}
add_tab-IsValid s right tab_id tab v h = record {
  left = v.left;
  right = record {
    active = has-insert_self tab_id tab s.panels.right.tabs;
    distinct = keys-insert-Distinct tab_id tab s.panels.right.tabs v.right.distinct;
    each = AllValues-insert TabIsValid tab_id tab s.panels.right.tabs h v.right.each;
  };
}

pub switch_tab_panel-PanelIsValid :
    (tab_id : JsString) (panel : PanelState)
    → PanelIsValid panel
    → PanelIsValid (switch_tab_panel tab_id panel)
unfolding switch_tab_panel
switch_tab_panel-PanelIsValid tab_id panel v = elim (Bool-cases (has panel.tabs tab_id)) [
  | inl e ↦ rw e (record { active = e; distinct = v.distinct; each = v.each })
  | inr e ↦ rw e v
]
