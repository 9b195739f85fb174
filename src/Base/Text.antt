-- ===== src/Base/Text.antt =====
-- Strings of the source language: lists of UTF-16 code units, and the functions on them.
use Prim.Native.Char.{code}
use Prim.Native.String.{String}
use Prim.Native.Nat.{ℕ, zero, suc, ◌+◌, ◌-◌, ◌*◌, ◌/◌, ◌%◌, ◌<◌}
use mathlib.Core.Path.{◌≡◌, refl, sym, ap, ◌∙◌}
use mathlib.Core.Logic.{◌↔◌, inl, inr}
use mathlib.Core.Bool.{Bool, true, false, ◌&&◌, ◌||◌, not}
use mathlib.Core.Option.{Option, none, some}
use mathlib.Core.List.{List, [], ◌∷◌, ◌++◌, reverse}
use native.Mathlib.Omega.{arith}
use file_octopus.Base.Tests.{ltb, leb, eqb, if◌then◌else◌, Bool-cases}

abbrev pub JsString : Type 0
JsString = List ℕ

-- An ASCII literal.
abbrev pub js : String → JsString
js String.[] = []
js (String.◌∷◌ c s) = code c ∷ js s

infix 50 ◌==◌
unfoldable pub ◌==◌ : JsString → JsString → Bool
[] == [] = true
[] == (y ∷ t) = false
(x ∷ s) == [] = false
(x ∷ s) == (y ∷ t) = eqb x y && s == t

pub eq_iff : (s t : JsString) → ((s == t) ≡ true) ↔ (s ≡ t)
unfolding ◌==◌
eq_iff [] [] = ground arith
eq_iff [] (y ∷ t) = ground arith
eq_iff (x ∷ s) [] = ground arith
eq_iff (x ∷ s) (y ∷ t) = ground (arith, eq_iff s t)

pub eq_refl : (s : JsString) → (s == s) ≡ true
eq_refl s = (eq_iff s s).1 refl

-- `Boolean(s)`
abbrev pub truthy : JsString → Bool
truthy [] = false
truthy (_ ∷ _) = true

-- `a === b` where a value may be null
abbrev pub same : Option JsString → Option JsString → Bool
same none none = true
same none (some _) = false
same (some _) none = false
same (some a) (some b) = a == b

abbrev pub is : Option JsString → JsString → Bool
is none b = false
is (some a) b = a == b

-- `xs.includes(s)`
unfoldable pub includes : List JsString → JsString → Bool
includes [] s = false
includes (x ∷ xs) s = x == s || includes xs s

-- `xs.indexOf(s)`; `none` is -1
unfoldable pub index_of : List JsString → JsString → Option ℕ
index_of [] s = none
index_of (x ∷ xs) s =
    let rest = index_of xs s in
    if x == s then some 0 else (elim rest [ none ↦ none | some i ↦ some (suc i) ])

-- `s.startsWith(t)`
unfoldable pub starts_with : JsString → JsString → Bool
starts_with s [] = true
starts_with [] (c ∷ t) = false
starts_with (d ∷ s) (c ∷ t) = eqb d c && starts_with s t

-- `s.indexOf(t)`
unfoldable pub find_text : JsString → JsString → Option ℕ
unfolding starts_with
find_text [] t = if truthy t then none else some 0
find_text (c ∷ s) t =
    let rest = find_text s t in
    if starts_with (c ∷ s) t then some 0 else (elim rest [ none ↦ none | some i ↦ some (suc i) ])

-- `s.includes(t)`
unfoldable pub has_text : JsString → JsString → Bool
unfolding starts_with
has_text [] t = not (truthy t)
has_text (c ∷ s) t = starts_with (c ∷ s) t || has_text s t

-- White space and line ends of `String.prototype.trim`.
unfoldable pub is_space : ℕ → Bool
is_space c =
    (leb 9 c && leb c 13)
    || eqb c 32
    || eqb c 160
    || eqb c 0x1680
    || (leb 0x2000 c && leb c 0x200a)
    || eqb c 0x2028
    || eqb c 0x2029
    || eqb c 0x202f
    || eqb c 0x205f
    || eqb c 0x3000
    || eqb c 0xfeff

unfoldable pub trim_start : JsString → JsString
unfolding is_space
trim_start [] = []
trim_start (c ∷ s) = let rest = trim_start s in if is_space c then rest else c ∷ s

unfoldable pub trim : JsString → JsString
unfolding trim_start
trim s = reverse (trim_start (reverse (trim_start s)))

-- `s.indexOf(c)` cuts the text: what stands before the first `c`, and the rest from it on.
unfoldable pub before : ℕ → JsString → JsString
before c [] = []
before c (d ∷ s) = let rest = before c s in if eqb d c then [] else d ∷ rest

unfoldable pub from : ℕ → JsString → JsString
from c [] = []
from c (d ∷ s) = let rest = from c s in if eqb d c then d ∷ s else rest

-- `s.split(c)` at a separator of one character.
split_from : ℕ → JsString → JsString → List JsString
split_from c part [] = part ∷ []
split_from c part (d ∷ s) =
    let closed = split_from c [] s in
    let longer = split_from c (part ++ d ∷ []) s in if eqb d c then part ∷ closed else longer

unfoldable pub split : ℕ → JsString → List JsString
unfolding split_from
split c s = split_from c [] s

-- `parts.join(sep)`
unfoldable pub join : JsString → List JsString → JsString
join sep [] = []
join sep (x ∷ []) = x
join sep (x ∷ y ∷ xs) = x ++ (sep ++ join sep (y ∷ xs))

-- `parts.filter(Boolean)`
unfoldable pub non_empty : List JsString → List JsString
non_empty [] = []
non_empty (x ∷ xs) = if truthy x then x ∷ non_empty xs else non_empty xs

unfoldable pub drop_while : ℕ → JsString → JsString
drop_while c [] = []
drop_while c (d ∷ s) = let rest = drop_while c s in if eqb d c then rest else d ∷ s

-- `s.replace(/c+$/, "")`
unfoldable pub strip_trailing : ℕ → JsString → JsString
unfolding drop_while
strip_trailing c s = reverse (drop_while c (reverse s))

-- `s.lastIndexOf(c)`: what stands before the last `c`, or `none` if there is no `c`.
unfoldable pub before_last : ℕ → JsString → Option JsString
before_last c [] = none
before_last c (d ∷ s) =
    let rest = before_last c s in
    elim rest [ some t ↦ some (d ∷ t) | none ↦ if eqb d c then some [] else none ]

-- The decimal text of a number.
show_from : ℕ → ℕ → JsString → JsString
show_from zero n acc = acc
show_from (suc fuel) n acc =
    let more = show_from fuel (n / 10) ((48 + n % 10) ∷ acc) in
    if ltb n 10 then (48 + n) ∷ acc else more

unfoldable pub show_nat : ℕ → JsString
unfolding show_from
show_nat n = show_from (suc n) n []

-- The value of decimal digits, on top of `v`.
digits_value : ℕ → JsString → ℕ
digits_value v [] = v
digits_value v (c ∷ s) = digits_value (v * 10 + (c - 48)) s

show_from_value :
    (fuel n : ℕ) (acc : JsString)
    → n < fuel
    → digits_value 0 (show_from fuel n acc) ≡ digits_value n acc
unfolding show_from digits_value
show_from_value zero n acc h = absurd (omega arith)
show_from_value (suc fuel) n acc h = elim (Bool-cases (ltb n 10)) [
  | inl small ↦
      rw small
        (ap (λ v. digits_value v acc) (let e : 0 * 10 + (48 + n - 48) ≡ n = omega arith in e))
  | inr large ↦ rw large (
      show_from_value fuel (n / 10) ((48 + n % 10) ∷ acc) (ground arith)
      ∙ ap (λ v. digits_value v acc)
          (let e : n / 10 * 10 + (48 + n % 10 - 48) ≡ n = omega arith in e))
]

-- Different numbers have different texts.
pub show_nat-injective : (m n : ℕ) → show_nat m ≡ show_nat n → m ≡ n
unfolding show_nat digits_value
show_nat-injective m n h =
    sym (show_from_value (suc m) m [] (omega arith))
    ∙ (ap (digits_value 0) h ∙ show_from_value (suc n) n [] (omega arith))

-- No character of the text of a number is a dash.
IsDigits : JsString → Type 0
IsDigits [] = Unit
IsDigits (c ∷ s) = (45 < c) × IsDigits s

show_from-IsDigits : (fuel n : ℕ) (acc : JsString) → IsDigits acc → IsDigits (show_from fuel n acc)
unfolding show_from IsDigits
show_from-IsDigits zero n acc h = h
show_from-IsDigits (suc fuel) n acc h = elim (Bool-cases (ltb n 10)) [
  | inl small ↦ rw small (omega arith, h)
  | inr large ↦ rw large (show_from-IsDigits fuel (n / 10) ((48 + n % 10) ∷ acc) (omega arith, h))
]

from-digits : (s x : JsString) → IsDigits s → from b'-' (s ++ b'-' ∷ x) ≡ b'-' ∷ x
unfolding from IsDigits
from-digits [] x h = refl
from-digits (c ∷ s) x h =
    let e : eqb c b'-' ≡ false = ground (arith, h.0) in rw e (from-digits s x h.1)

-- A text that starts with a number and a dash tells the rest from the dash on.
pub from-show_nat : (n : ℕ) (x : JsString) → from b'-' (show_nat n ++ b'-' ∷ x) ≡ b'-' ∷ x
unfolding show_nat IsDigits
from-show_nat n x = from-digits (show_nat n) x (show_from-IsDigits (suc n) n [] tt)
