-- ===== src/Prelude/Numeral.antt =====
-- Reading back what `%d` prints.
use Prim.Native.Nat.{ℕ, zero, suc, ◌+◌, ◌-◌, ◌*◌, ◌/◌, ◌%◌, ◌^◌, ◌≤◌, ◌<◌}
use mathlib.Core.Path.{◌≡◌, refl, ◌∙◌}
use mathlib.Core.Logic.{◌≢◌, inl, inr}
use mathlib.Core.Bool.{false}
use mathlib.Core.Option.{some}
use mathlib.Core.List.{[], ◌∷◌}
use native.Mathlib.Omega.{arith}
use radondb_mysql_kubernetes.Prelude.Tests.{◌==◌, ltb, Bool-cases}
use radondb_mysql_kubernetes.Prelude.Lists.{All}
use radondb_mysql_kubernetes.Prelude.Text.{Str, Lacks}
use radondb_mysql_kubernetes.Prelude.Decimal.{pos, print_digits, itoa, scan, digits, atoi}

abbrev pub IsNumeral : Str → Type 0
IsNumeral = All (λ c. (b'0' ≤ c) × (c ≤ b'9'))

scan_digit :
    (c : ℕ) (s : Str) (n : ℕ) → b'0' ≤ c → c ≤ b'9' → scan (c ∷ s) n ≡ scan s (n * 10 + (c - b'0'))
unfolding scan
scan_digit c s n h k = ground arith

scan-print_digits :
    (fuel n : ℕ) (out : Str) → n < fuel → scan (print_digits fuel n out) 0 ≡ scan out n
unfolding print_digits
scan-print_digits zero n out h = elim h [ ]
scan-print_digits (suc fuel) n out h = elim (Bool-cases (ltb n 10)) [
  | inl small ↦
      rw small (scan_digit (b'0' + n) out 0 (omega arith) (ground arith) ∙ same_scan (ground arith))
  | inr large ↦ rw large (
      scan-print_digits fuel (n / 10) ((b'0' + n % 10) ∷ out) (ground arith)
      ∙ scan_digit (b'0' + n % 10) out (n / 10) (omega arith) (omega arith)
      ∙ same_scan (omega arith))
]
  where
    same_scan : {a b : ℕ} → a ≡ b → scan out a ≡ scan out b
    same_scan e = rw e

print_digits-IsNumeral :
    (fuel n : ℕ) (out : Str) → IsNumeral out → IsNumeral (print_digits fuel n out)
unfolding print_digits
print_digits-IsNumeral zero n out h = h
print_digits-IsNumeral (suc fuel) n out h = elim (Bool-cases (ltb n 10)) [
  | inl small ↦ rw small ((omega arith, ground arith), h)
  | inr large ↦
      rw large (
        print_digits-IsNumeral fuel (n / 10) ((b'0' + n % 10) ∷ out)
          ((omega arith, omega arith), h))
]

pub itoa-IsNumeral : (n : ℕ) → IsNumeral (itoa n)
unfolding itoa
itoa-IsNumeral n = print_digits-IsNumeral (suc n) n [] tt

Lacks-of_IsNumeral : (c : ℕ) (s : Str) → c < b'0' → IsNumeral s → Lacks c s
Lacks-of_IsNumeral c [] h k = tt
Lacks-of_IsNumeral c (x ∷ s) h k = (omega arith, Lacks-of_IsNumeral c s h k.1)

-- A printed number holds no byte below the digits: no `-`, `.` or `,`.
pub itoa-Lacks : (c n : ℕ) → c < b'0' → Lacks c (itoa n)
itoa-Lacks c n h = Lacks-of_IsNumeral c (itoa n) h (itoa-IsNumeral n)

digits_of_scan : (s : Str) (n : ℕ) → s ≢ [] → scan s 0 ≡ some n → digits s ≡ some n
unfolding digits
digits_of_scan [] n h e = absurd (h refl)
digits_of_scan (c ∷ s) n h e = e

print_digits-ne-nil : (fuel n : ℕ) (out : Str) → out ≢ [] → print_digits fuel n out ≢ []
unfolding print_digits
print_digits-ne-nil zero n out h = h
print_digits-ne-nil (suc fuel) n out h = elim (Bool-cases (ltb n 10)) [
  | inl small ↦ rw small (λ e. cc)
  | inr large ↦ rw large (print_digits-ne-nil fuel (n / 10) ((b'0' + n % 10) ∷ out) (λ e. cc))
]

itoa-ne-nil : (n : ℕ) → itoa n ≢ []
unfolding itoa print_digits
itoa-ne-nil n = elim (Bool-cases (ltb n 10)) [
  | inl small ↦ rw small (λ e. cc)
  | inr large ↦ rw large (print_digits-ne-nil n (n / 10) ((b'0' + n % 10) ∷ []) (λ e. cc))
]

pub digits-itoa : (n : ℕ) → digits (itoa n) ≡ some n
digits-itoa n =
    digits_of_scan (itoa n) n (itoa-ne-nil n)
      (unfold itoa scan in scan-print_digits (suc n) n [] (omega arith))

atoi_of_IsNumeral :
    (s : Str) (n : ℕ) → IsNumeral s → digits s ≡ some n → n < 2 ^ 63 → atoi s ≡ some (pos n)
unfolding atoi digits
atoi_of_IsNumeral [] n h e lt = cc
atoi_of_IsNumeral (c ∷ s) n h e lt =
    rw (sign b'-' c (omega arith), sign b'+' c (omega arith), e) (ground arith)
  where
    sign : (d c : ℕ) → d < c → (c == d) ≡ false
    sign d c h = ground arith

-- `strconv.Atoi` reads back what `%d` printed, for a number in the range of an `int`.
pub atoi-itoa : (n : ℕ) → n < 2 ^ 63 → atoi (itoa n) ≡ some (pos n)
atoi-itoa n h = atoi_of_IsNumeral (itoa n) n (itoa-IsNumeral n) (digits-itoa n) h
