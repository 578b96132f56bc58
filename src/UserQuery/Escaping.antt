-- ===== src/UserQuery/Escaping.antt =====
-- Escape and escapeID: what they write can be read back, and cannot be left.
use radondb_mysql_kubernetes.Prelude.{
  ℕ, ◌==◌, ◌≡◌, ◌≢◌, ◌⊎◌, Option, refl, ap, ap₂, ◌∙◌, inl, inr, Bool-cases, none, some,
  Option-cases, [], ◌∷◌, ◌++◌, Str, codes, str_eq, str_eq_iff, Lacks, false, arith, if◌then◌else◌,
}
use radondb_mysql_kubernetes.UserQuery.{escape_of, escape, escape_id, remove_backticks}

-- What a byte behind a backslash stands for in a quoted text of MySQL; the two wildcards keep
-- their backslash.
abbrev pub unescaped : ℕ → Str
unescaped e =
    if e == b'0'
    then 0 ∷ []
    else if e == b'n'
    then 10 ∷ []
    else if e == b'r'
    then 13 ∷ []
    else if e == b'Z'
    then 26 ∷ []
    else if e == b'b'
    then 8 ∷ []
    else if e == b't'
    then 9 ∷ []
    else if e == b'%'
    then 92 ∷ e ∷ []
    else if e == b'_'
    then 92 ∷ e ∷ []
    else e ∷ []

abbrev prepend : Str → Option (Str × Str) → Option (Str × Str)
prepend t none = none
prepend t (some (text, rest)) = some (t ++ text, rest)

-- A text behind an opening quote as MySQL reads it, with what follows the closing quote: a
-- backslash takes the next byte, two quotes are one of the text, and one quote ends it.
unfoldable pub read_quoted : ℕ → Str → Option (Str × Str)
read_quoted q [] = none
read_quoted q (c ∷ []) = if c == 92 then none else if c == q then some ([], []) else none
read_quoted q (c ∷ e ∷ s) =
    let pair = read_quoted q s in
    let plain = read_quoted q (e ∷ s) in
    if c == 92
    then prepend (unescaped e) pair
    else if c == q
    then (if e == q then prepend (q ∷ []) pair else some ([], e ∷ s))
    else prepend (c ∷ []) plain

-- A quote of MySQL.
abbrev pub IsQuote : ℕ → Type 0
IsQuote q = (q ≡ 39) ⊎ (q ≡ 34)

-- The text does not start with the byte.
abbrev pub NotFirst : ℕ → Str → Type 0
NotFirst q [] = Unit
NotFirst q (x ∷ s) = x ≢ q

unescaped-escape_of : (c e : ℕ) → escape_of c ≡ some e → unescaped e ≡ c ∷ []
unfolding escape_of
unescaped-escape_of c e h = ground arith

escape_of-none :
    (c q : ℕ) → IsQuote q → escape_of c ≡ none → ((c == 92) ≡ false) × ((c == q) ≡ false)
unfolding escape_of
escape_of-none c q (inl k) h = ground arith
escape_of-none c q (inr k) h = ground arith

read_quoted-pair :
    (q e : ℕ) (s : Str) → read_quoted q (92 ∷ e ∷ s) ≡ prepend (unescaped e) (read_quoted q s)
unfolding read_quoted
read_quoted-pair q e s = refl

read_quoted-plain :
    (q c : ℕ) (s : Str)
    → ((c == 92) ≡ false) × ((c == q) ≡ false)
    → read_quoted q (c ∷ s) ≡ prepend (c ∷ []) (read_quoted q s)
unfolding read_quoted
read_quoted-plain q c [] h = rw (h.0, h.1)
read_quoted-plain q c (e ∷ s) h = rw (h.0, h.1, read_quoted)

read_quoted-end :
    (q : ℕ) (rest : Str) → IsQuote q → NotFirst q rest → read_quoted q (q ∷ rest) ≡ some ([], rest)
unfolding read_quoted
read_quoted-end q [] k h = ground (arith, k)
read_quoted-end q (x ∷ rest) k h = ground (arith, k, h)

-- What Escape writes between two quotes, single or double, MySQL reads back as the text, and goes
-- on behind the closing quote, if no further quote follows that.
pub read_quoted-escape :
    (q : ℕ) (s rest : Str)
    → IsQuote q
    → NotFirst q rest
    → read_quoted q (escape s ++ q ∷ rest) ≡ some (s, rest)
unfolding escape
read_quoted-escape q [] rest k h = read_quoted-end q rest k h
read_quoted-escape q (c ∷ s) rest k h = elim (Option-cases (escape_of c)) [
  | inl n ↦
      rw (n, escape)
        (read_quoted-plain q c (escape s ++ q ∷ rest) (escape_of-none c q k n)
          ∙ ap (prepend (c ∷ [])) (read_quoted-escape q s rest k h))
  | inr (e, n) ↦
      rw (n, escape)
        (read_quoted-pair q e (escape s ++ q ∷ rest)
          ∙ ap₂ prepend (unescaped-escape_of c e n) (read_quoted-escape q s rest k h))
]

remove_backticks-Lacks : (s : Str) → Lacks 96 (remove_backticks s)
unfolding remove_backticks
remove_backticks-Lacks [] = tt
remove_backticks-Lacks (x ∷ s) = elim (Bool-cases (x == 96)) [
  | inl e ↦ rw (e, remove_backticks) (remove_backticks-Lacks s)
  | inr e ↦ rw (e, remove_backticks) (ground arith, remove_backticks-Lacks s)
]

-- But for the asterisk, escapeID writes a name between backticks that has none inside, which is
-- the name it is given if that has none.
pub escape_id_lem :
    (id : Str)
    → id ≢ codes "*"
    → (name : Str) × (escape_id id ≡ 96 ∷ (name ++ 96 ∷ []))
      × Lacks 96 name
      × (Lacks 96 id → name ≡ id)
unfolding escape_id
escape_id_lem id h = elim (Bool-cases (str_eq id (codes "*"))) [
  | inl e ↦ absurd (h ((str_eq_iff id (codes "*")).0 e))
  | inr e ↦ (remove_backticks id, rw (e, escape_id), remove_backticks-Lacks id, kept id)
]
  where
    kept : (s : Str) → Lacks 96 s → remove_backticks s ≡ s
    kept [] k = refl
    kept (x ∷ s) k = ground (arith, k.0, kept s k.1)
