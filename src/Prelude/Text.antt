-- ===== src/Prelude/Text.antt =====
-- Go strings as lists of bytes, with the functions of `strings` that the operator calls.
use Prim.Native.Nat.{ℕ}
use Prim.Native.Char.{code}
use Prim.Native.String.{String}
use mathlib.Core.Path.{◌≡◌, refl}
use mathlib.Core.Logic.{◌≢◌, ◌↔◌}
use mathlib.Core.Bool.{Bool, true, false, ◌&&◌, ◌||◌}
use mathlib.Core.Option.{Option, none, some}
use mathlib.Core.List.{List, [], ◌∷◌, ◌++◌}
use native.Mathlib.Omega.{arith}
use radondb_mysql_kubernetes.Prelude.Tests.{◌==◌, if◌then◌else◌}
use radondb_mysql_kubernetes.Prelude.Lists.{All}

abbrev pub Str : Type 0
Str = List ℕ

-- The bytes of an ASCII literal.
abbrev pub codes : String → Str
codes String.[] = []
codes (String.◌∷◌ c s) = code c ∷ codes s

unfoldable pub str_eq : Str → Str → Bool
str_eq [] [] = true
str_eq [] (y ∷ t) = false
str_eq (x ∷ s) [] = false
str_eq (x ∷ s) (y ∷ t) = (x == y) && str_eq s t

pub str_eq_sound : (s t : Str) → str_eq s t ≡ true → s ≡ t
unfolding str_eq
str_eq_sound [] [] h = refl
str_eq_sound [] (y ∷ t) h = cc
str_eq_sound (x ∷ s) [] h = cc
str_eq_sound (x ∷ s) (y ∷ t) h = ground (arith, str_eq_sound s t)

pub str_eq_refl : (s : Str) → str_eq s s ≡ true
unfolding str_eq
str_eq_refl [] = refl
str_eq_refl (x ∷ s) = ground (arith, str_eq_refl s)

pub str_eq_iff : (s t : Str) → (str_eq s t ≡ true) ↔ (s ≡ t)
str_eq_iff s t = (str_eq_sound s t, λ e. rw e (str_eq_refl t))

-- `len(s) == 0`
unfoldable pub is_empty : Str → Bool
is_empty [] = true
is_empty (x ∷ s) = false

pub is_empty_iff : (s : Str) → (is_empty s ≡ true) ↔ (s ≡ [])
unfolding is_empty
is_empty_iff [] = (λ h. refl, λ h. refl)
is_empty_iff (x ∷ s) = (λ h. cc, λ h. cc)

-- `strings.HasPrefix(s, p)`
unfoldable pub has_prefix : Str → Str → Bool
has_prefix s [] = true
has_prefix [] (y ∷ p) = false
has_prefix (x ∷ s) (y ∷ p) = (x == y) && has_prefix s p

-- `strings.TrimPrefix(s, p)`
unfoldable pub trim_prefix : Str → Str → Str
unfolding has_prefix
trim_prefix s p = if has_prefix s p then strip s p else s
  where
    strip : Str → Str → Str
    strip s [] = s
    strip [] (y ∷ p) = []
    strip (x ∷ s) (y ∷ p) = strip s p

-- `strings.Contains(s, p)`
unfoldable pub contains_str : Str → Str → Bool
unfolding has_prefix
contains_str [] p = has_prefix [] p
contains_str (x ∷ s) p = has_prefix (x ∷ s) p || contains_str s p

-- `strings.HasSuffix(s, p)`
unfoldable pub has_suffix : Str → Str → Bool
unfolding str_eq
has_suffix [] p = str_eq [] p
has_suffix (x ∷ s) p = str_eq (x ∷ s) p || has_suffix s p

-- `s[i+1:]` for `i = strings.LastIndexAny(s, c)`; `none` is an index of -1.
unfoldable pub after_last : ℕ → Str → Option Str
after_last c [] = none
after_last c (x ∷ s) = elim (after_last c s) [
  | none ↦ if x == c then some s else none
  | some r ↦ some r
]

-- `strings.Split(s, c)` for a separator of one byte: never an empty slice.
unfoldable pub split_go : ℕ → Str → Str → List Str
split_go c cur [] = cur ∷ []
split_go c cur (x ∷ s) = elim (x == c) [
  | true ↦ cur ∷ split_go c [] s
  | false ↦ split_go c (cur ++ x ∷ []) s
]

unfoldable pub split : Str → ℕ → List Str
unfolding split_go
split s c = split_go c [] s

abbrev pub Lacks : ℕ → Str → Type 0
Lacks c = All (λ x. x ≢ c)

pub after_last-none : (c : ℕ) (t : Str) → Lacks c t → after_last c t ≡ none
unfolding after_last
after_last-none c [] h = refl
after_last-none c (x ∷ t) h = rw (after_last-none c t h.1) (ground (arith, h.0))

-- What stands behind the last separator is found whole.
pub after_last-append : (c : ℕ) (s t : Str) → Lacks c t → after_last c (s ++ c ∷ t) ≡ some t
unfolding after_last
after_last-append c [] t h = rw (after_last-none c t h) (ground arith)
after_last-append c (x ∷ s) t h = rw (after_last-append c s t h)
