-- ===== src/Panel/History.antt =====
-- The history of a tab: what navigation, `goBack` and `goForward` do to the two stacks
-- (packages/frontend/src/state/slices/navigationSlice.ts).
use file_octopus.Base.{
  true, false, Option, none, some, List, [], ◌∷◌, ◌++◌, ◌≡◌, refl, sym, ap, ◌∙◌, inl, inr, JsString,
  ◌==◌, truthy, get_last?, drop_last, append-drop_last, Bool-cases,
}
use file_octopus.Panel.Types.{PanelTabState}
use file_octopus.Panel.Navigation.{
  normalize_local_input, apply_navigation, navigate_tab, back_to, go_back_tab, forward_to,
  go_forward_tab,
}

-- The places of a tab in the order in which they were visited.
abbrev pub trail : PanelTabState → List JsString
trail tab = tab.back_stack ++ tab.uri ∷ tab.forward_stack

append_assoc :
    (xs : List JsString) (x : JsString) (ys : List JsString) → (xs ++ x ∷ []) ++ ys ≡ xs ++ x ∷ ys
append_assoc [] x ys = refl
append_assoc (y ∷ xs) x ys = ap (y ∷◌) (append_assoc xs x ys)

trail-back_to :
    (tab : PanelTabState) (target : Option JsString)
    → target ≡ get_last? tab.back_stack
    → trail (back_to tab target) ≡ trail tab
unfolding back_to apply_navigation
trail-back_to tab none e = refl
trail-back_to tab (some uri) e = elim (Bool-cases (truthy uri)) [
  | inl t ↦ rw t (
      sym (append_assoc (drop_last tab.back_stack) uri (tab.uri ∷ tab.forward_stack))
      ∙ ap (◌++ tab.uri ∷ tab.forward_stack) (append-drop_last tab.back_stack (sym e)))
  | inr t ↦ rw t refl
]

trail-forward_to :
    (tab : PanelTabState) (stack : List JsString)
    → stack ≡ tab.forward_stack
    → trail (forward_to tab stack) ≡ trail tab
unfolding forward_to apply_navigation
trail-forward_to tab [] e = refl
trail-forward_to tab (uri ∷ rest) e = elim (Bool-cases (truthy uri)) [
  | inl t ↦ rw t (
      append_assoc tab.back_stack tab.uri (uri ∷ rest)
      ∙ ap (λ stack. tab.back_stack ++ tab.uri ∷ stack) e)
  | inr t ↦ rw t refl
]

-- Going back and going forward move within the places that were visited, and change neither the
-- places nor their order.
pub trail-go_back_and_forward :
    (tab : PanelTabState)
    → (trail (go_back_tab tab) ≡ trail tab) × (trail (go_forward_tab tab) ≡ trail tab)
unfolding go_back_tab go_forward_tab
trail-go_back_and_forward tab =
    (trail-back_to tab (get_last? tab.back_stack) refl, trail-forward_to tab tab.forward_stack refl)

-- The place and the stacks of a tab.
abbrev pub place : PanelTabState → List JsString × JsString × List JsString
place tab = (tab.back_stack, tab.uri, tab.forward_stack)

-- From a place that is not the empty text, going back to one that is not, and then forward, leads to
-- the same place with the same stacks.
pub go_forward-go_back :
    (tab : PanelTabState) (uri : JsString)
    → get_last? tab.back_stack ≡ some uri
    → truthy uri ≡ true
    → truthy tab.uri ≡ true
    → place (go_forward_tab (go_back_tab tab)) ≡ place tab
unfolding go_back_tab go_forward_tab back_to forward_to apply_navigation
go_forward-go_back tab uri e t u =
    rw (e, t, u)
      (ap (λ back. (back, tab.uri, tab.forward_stack)) (append-drop_last tab.back_stack e))

-- A navigation without flags to another place puts the old place on the back stack and forgets the
-- places ahead.
trail-navigate :
    (tab : PanelTabState) (uri : JsString)
    → (normalize_local_input uri == tab.uri) ≡ false
    → trail (
        navigate_tab uri
          (record { replace = false; soft_refresh = false; background_refresh = false })
          tab)
      ≡ tab.back_stack ++ tab.uri ∷ normalize_local_input uri ∷ []
unfolding navigate_tab apply_navigation
trail-navigate tab uri e =
    rw e (append_assoc tab.back_stack tab.uri (normalize_local_input uri ∷ []))
