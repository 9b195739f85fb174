-- ===== src/Terminal/Quoting.antt =====
-- What a POSIX shell reads of an escaped path.
use file_octopus.Base.{
  ℕ, Bool, true, ◌||◌, Option, none, some, [], ◌∷◌, ◌++◌, ◌≡◌, refl, ap, ◌∙◌, inl, inr, JsString,
  if◌then◌else◌, eqb, eqb_iff, arith, Bool-cases,
}
use file_octopus.Terminal.Input.{escape_quotes, shell_escape_posix_path}
use mathlib.Core.List.{append_assoc}

-- Outside of quotes these characters end a word, or have a meaning of their own: white space,
-- `| & ; < > ( ) $ `, the back quote, `"`, `*`, `?`, `[`, `#`, `~`, `=`, `%`, `!`, `{` and `}`.
is_special : ℕ → Bool
is_special c =
    eqb c 9
    || eqb c 10
    || eqb c 32
    || eqb c b'|'
    || eqb c b'&'
    || eqb c b';'
    || eqb c b'<'
    || eqb c b'>'
    || eqb c b'('
    || eqb c b')'
    || eqb c b'$'
    || eqb c 96
    || eqb c 34
    || eqb c b'*'
    || eqb c b'?'
    || eqb c b'['
    || eqb c b'#'
    || eqb c b'~'
    || eqb c b'='
    || eqb c b'%'
    || eqb c b'!'
    || eqb c b'{'
    || eqb c b'}'

pub data Mode : Type 0 where
  bare quoted escaped : Mode

prepend : ℕ → Option (JsString × JsString) → Option (JsString × JsString)
prepend c none = none
prepend c (some (word, rest)) = some (c ∷ word, rest)

-- The word at the start of a text, and what follows it, from the first special character on. Between
-- single quotes every character stands for itself; outside of them so does the one after a backslash.
-- `none` is a quote or a backslash that is left open.
pub read_word : Mode → JsString → Option (JsString × JsString)
read_word bare [] = some ([], [])
read_word quoted [] = none
read_word escaped [] = none
read_word escaped (c ∷ s) = prepend c (read_word bare s)
read_word quoted (c ∷ s) =
    let closed = read_word bare s in
    let more = prepend c (read_word quoted s) in if eqb c 39 then closed else more
read_word bare (c ∷ s) =
    let opened = read_word quoted s in
    let literal = read_word escaped s in
    let more = prepend c (read_word bare s) in
    if eqb c 39
    then opened
    else if eqb c 92
    then literal
    else if is_special c
    then some ([], c ∷ s)
    else more

prepend_all : JsString → Option (JsString × JsString) → Option (JsString × JsString)
prepend_all [] r = r
prepend_all (c ∷ s) r = prepend c (prepend_all s r)

read_word-escape_quotes :
    (path rest : JsString)
    → read_word quoted (escape_quotes path ++ 39 ∷ rest) ≡ prepend_all path (read_word bare rest)
unfolding read_word escape_quotes prepend_all
read_word-escape_quotes [] rest = refl
read_word-escape_quotes (c ∷ path) rest = elim (Bool-cases (eqb c 39)) [
  | inl quote ↦
      let e : c ≡ 39 = (eqb_iff c 39).0 quote in
      rw (quote, e) (ap (prepend 39) (read_word-escape_quotes path rest))
  | inr other ↦ rw (other, other) (ap (prepend c) (read_word-escape_quotes path rest))
]

prepend_all-end : (path rest : JsString) → prepend_all path (some ([], rest)) ≡ some (path, rest)
unfolding prepend_all prepend
prepend_all-end [] rest = refl
prepend_all-end (c ∷ path) rest = ap (prepend c) (prepend_all-end path rest)

shell_escape_lem :
    (path : JsString) → shell_escape_posix_path path ≡ 39 ∷ (escape_quotes path ++ 39 ∷ [])
unfolding shell_escape_posix_path escape_quotes
shell_escape_lem [] = refl
shell_escape_lem (c ∷ path) = refl

-- A space or a line end ends a word.
read_word-end :
    (c : ℕ) (rest : JsString)
    → (eqb c 32 || eqb c 10) ≡ true
    → read_word bare (c ∷ rest) ≡ some ([], c ∷ rest)
unfolding read_word is_special
read_word-end c rest h = elim (Bool-cases (eqb c 32)) [
  | inl space ↦ let e : c ≡ 32 = (eqb_iff c 32).0 space in rw e refl
  | inr other ↦ let e : c ≡ 10 = ground (arith, other, h) in rw e refl
]

-- A shell that reads an escaped path, before a space or a line end, reads one word, which is the path
-- itself, whatever characters the path has, and goes on at the space or the line end.
pub read_word-shell_escape :
    (path rest : JsString) (c : ℕ)
    → (eqb c 32 || eqb c 10) ≡ true
    → read_word bare (shell_escape_posix_path path ++ c ∷ rest) ≡ some (path, c ∷ rest)
unfolding read_word
read_word-shell_escape path rest c h =
    rw (shell_escape_lem path, append_assoc (escape_quotes path) (39 ∷ []) (c ∷ rest))
      (read_word-escape_quotes path (c ∷ rest)
        ∙ (ap (prepend_all path) (read_word-end c rest h) ∙ prepend_all-end path (c ∷ rest)))
