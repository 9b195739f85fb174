-- ===== src/Panel/Matches.antt =====
-- Matches of a content search that are the same, and what an added match changes
-- (packages/frontend/src/state/slices/contentSearchSlice.ts).
use file_octopus.Base.{
  Bool, true, ◌||◌, List, [], ◌∷◌, ◌++◌, ◌≡◌, refl, inl, inr, JsString, eq_iff, eqb_iff, eq_refl,
  any, arith, Bool-cases,
}
use file_octopus.Panel.Entry.{ContentSearchMatchDto}
use file_octopus.Panel.Types.{ContentSearchState}
use file_octopus.Panel.Search.{is_same_match, result_of, append_match, is_about}

is_same_match_refl : (m : ContentSearchMatchDto) → is_same_match m m ≡ true
unfolding is_same_match
is_same_match_refl m = ground (
  arith,
  eq_refl m.uri,
  eqb_iff m.line_number m.line_number,
  eqb_iff m.match_start m.match_start,
  eqb_iff m.match_end m.match_end,
)

is_same_match_trans :
    (x y z : ContentSearchMatchDto)
    → is_same_match x y ≡ true
    → is_same_match y z ≡ true
    → is_same_match x z ≡ true
unfolding is_same_match
is_same_match_trans x y z e f = ground (
  arith,
  eq_iff x.uri y.uri,
  eq_iff y.uri z.uri,
  eq_iff x.uri z.uri,
  eqb_iff x.line_number y.line_number,
  eqb_iff y.line_number z.line_number,
  eqb_iff x.line_number z.line_number,
  eqb_iff x.match_start y.match_start,
  eqb_iff y.match_start z.match_start,
  eqb_iff x.match_start z.match_start,
  eqb_iff x.match_end y.match_end,
  eqb_iff y.match_end z.match_end,
  eqb_iff x.match_end z.match_end,
)

-- A match that is the same as the item is among the results.
abbrev pub found : ContentSearchMatchDto → ContentSearchState → Bool
found item content = any (λ m. is_same_match m item) (result_of content).matches

any-append :
    (item : ContentSearchMatchDto) (xs ys : List ContentSearchMatchDto)
    → any (λ m. is_same_match m item) (xs ++ ys)
      ≡ (any (λ m. is_same_match m item) xs || any (λ m. is_same_match m item) ys)
any-append item [] ys = refl
any-append item (x ∷ xs) ys = ground (arith, any-append item xs ys)

any_trans :
    (x item : ContentSearchMatchDto) (xs : List ContentSearchMatchDto)
    → is_same_match x item ≡ true
    → any (λ m. is_same_match m x) xs ≡ true
    → any (λ m. is_same_match m item) xs ≡ true
any_trans x item [] e f = cc
any_trans x item (m ∷ xs) e f = elim (Bool-cases (is_same_match m x)) [
  | inl g ↦ rw (is_same_match_trans m x item g e) refl
  | inr g ↦ ground (arith, any_trans x item xs e (rw g at f))
]

pub found-append_match_self :
    (content : ContentSearchState) (x item : ContentSearchMatchDto)
    → is_same_match x item ≡ true
    → found item (append_match content x) ≡ true
unfolding append_match
found-append_match_self content x item e =
    elim (Bool-cases (any (λ m. is_same_match m x) (result_of content).matches)) [
      | inl f ↦ rw f (any_trans x item (result_of content).matches e f)
      | inr f ↦ rw f (ground (arith, any-append item (result_of content).matches (x ∷ []), e))
    ]

pub found-append_match :
    (content : ContentSearchState) (x item : ContentSearchMatchDto)
    → found item content ≡ true
    → found item (append_match content x) ≡ true
unfolding append_match
found-append_match content x item e =
    elim (Bool-cases (any (λ m. is_same_match m x) (result_of content).matches)) [
      | inl f ↦ rw f e
      | inr f ↦ rw f (ground (arith, any-append item (result_of content).matches (x ∷ []), e))
    ]

pub is_about-append_match :
    (content : ContentSearchState) (x : ContentSearchMatchDto) (uri query : JsString)
    → is_about (append_match content x) uri query ≡ is_about content uri query
unfolding append_match is_about
is_about-append_match content x uri query =
    elim (Bool-cases (any (λ m. is_same_match m x) (result_of content).matches)) [
      | inl f ↦ rw f refl
      | inr f ↦ rw f refl
    ]

pub append_match_known :
    (content : ContentSearchState) (item : ContentSearchMatchDto)
    → found item content ≡ true
    → append_match content item ≡ content
unfolding append_match
append_match_known content item e = rw e refl
