-- ===== src/Prelude/Cut.antt =====
-- Cutting texts at a separator that their parts do not hold.
use Prim.Native.Nat.{ℕ}
use mathlib.Core.Path.{◌≡◌, refl, subst, sym, ◌∙◌, ap}
use mathlib.Core.Bool.{true, false}
use mathlib.Core.List.{List, [], ◌∷◌, ◌++◌, append_assoc, append-nil}
use mathlib.Core.Logic.{◌≢◌, ◌⊎◌, inl, inr}
use native.Mathlib.Omega.{arith}
use radondb_mysql_kubernetes.Prelude.Tests.{◌==◌, ==_iff, Bool-cases}
use radondb_mysql_kubernetes.Prelude.Text.{Str, Lacks, split, split_go}

-- The text before the first separator.
before : ℕ → Str → Str
before c [] = []
before c (x ∷ s) = let rest = before c s in elim (x == c) [ true ↦ [] | false ↦ x ∷ rest ]

before-append : (c : ℕ) (s t : Str) → Lacks c s → before c (s ++ c ∷ t) ≡ s
unfolding before
before-append c [] t h = ground arith
before-append c (x ∷ s) t h = ground (arith, before-append c s t h.1, h.0)

-- Two texts without the separator, followed by it, agree only if they are the same.
pub cut_injective :
    (c : ℕ) (s s' t t' : Str) → Lacks c s → Lacks c s' → s ++ c ∷ t ≡ s' ++ c ∷ t' → s ≡ s'
cut_injective c s s' t t' h h' e =
    sym (before-append c s t h) ∙ ap (before c) e ∙ before-append c s' t' h'

pub append_cancel : (p s t : Str) → p ++ s ≡ p ++ t → s ≡ t
append_cancel [] s t e = e
append_cancel (x ∷ p) s t e = append_cancel p s t (cc)

split_go-Lacks : (c : ℕ) (cur s : Str) → Lacks c s → split_go c cur s ≡ (cur ++ s) ∷ []
unfolding split_go
split_go-Lacks c cur [] h = rw append-nil
split_go-Lacks c cur (x ∷ s) h =
    rw (no_hit, split_go) (split_go-Lacks c (cur ++ x ∷ []) s h.1 ∙ rw append_assoc)
  where
    no_hit : (x == c) ≡ false
    no_hit = ground (arith, h.0)

split_go-append :
    (c : ℕ) (cur s t : Str) → Lacks c s → split_go c cur (s ++ c ∷ t) ≡ (cur ++ s) ∷ split_go c [] t
unfolding split_go
split_go-append c cur [] t h = rw (hit, split_go, append-nil)
  where
    hit : (c == c) ≡ true
    hit = ground arith
split_go-append c cur (x ∷ s) t h =
    rw (no_hit, split_go) (split_go-append c (cur ++ x ∷ []) s t h.1 ∙ rw append_assoc)
  where
    no_hit : (x == c) ≡ false
    no_hit = ground (arith, h.0)

-- `strings.Split` of a text without the separator.
pub split-Lacks : (c : ℕ) (s : Str) → Lacks c s → split s c ≡ s ∷ []
unfolding split
split-Lacks c s h = split_go-Lacks c [] s h

-- `strings.Split` of a first part, the separator and the rest.
pub split-append : (c : ℕ) (s t : Str) → Lacks c s → split (s ++ c ∷ t) c ≡ s ∷ split t c
unfolding split
split-append c s t h = split_go-append c [] s t h

Lacks-append : (c : ℕ) (s t : Str) → Lacks c s → Lacks c t → Lacks c (s ++ t)
Lacks-append c [] t h g = g
Lacks-append c (x ∷ s) t h g = (h.0, Lacks-append c s t h.1 g)

-- The first part of a text has no separator, and is the text or followed by one.
abbrev pub FirstPart : ℕ → Str → Str → Type 0
FirstPart c s first = Lacks c first × ((s ≡ first) ⊎ ((rest : Str) × (s ≡ first ++ c ∷ rest)))

split_go-FirstPart :
    (c : ℕ) (cur s : Str)
    → Lacks c cur
    → (first : Str) × (parts : List Str) × (split_go c cur s ≡ first ∷ parts)
      × FirstPart c (cur ++ s) first
unfolding split_go
split_go-FirstPart c cur [] h = (cur, [], refl, (h, inl (append-nil cur)))
split_go-FirstPart c cur (x ∷ s) h = elim (Bool-cases (x == c)) [
  | inl e ↦
      let same : x ≡ c = (==_iff x c).0 e in
      (cur, split_go c [] s, rw (e, split_go) refl, (h, inr (s, ap (λ y. cur ++ y ∷ s) same)))
  | inr e ↦
      let apart : x ≢ c = λ k. cc ((==_iff x c).1 k, e) in
      let (first, parts, split, (lacks, or)) =
        split_go-FirstPart c (cur ++ x ∷ []) s (Lacks-append c cur (x ∷ []) h (apart, tt)) in
      (
        first,
        parts,
        rw (e, split_go) split,
        subst (λ t. FirstPart c t first) (append_assoc cur (x ∷ []) s) (lacks, or),
      )
]

-- `strings.Split` of any text gives a first part.
pub split-FirstPart :
    (c : ℕ) (s : Str)
    → (first : Str) × (parts : List Str) × (split s c ≡ first ∷ parts) × FirstPart c s first
unfolding split
split-FirstPart c s = split_go-FirstPart c [] s tt
