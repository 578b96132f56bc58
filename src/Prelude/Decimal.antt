-- ===== src/Prelude/Decimal.antt =====
-- Decimal numbers as `strconv` and `fmt` print and read them.
use Prim.Native.Nat.{ℕ, zero, suc, ◌+◌, ◌-◌, ◌*◌, ◌/◌, ◌%◌, ◌^◌}
use mathlib.Core.Bool.{Bool, true, false, ◌&&◌}
use mathlib.Core.Option.{Option, none, some}
use mathlib.Core.List.{[], ◌∷◌}
use radondb_mysql_kubernetes.Prelude.Tests.{◌==◌, ltb, leb, if◌then◌else◌}
use radondb_mysql_kubernetes.Prelude.Text.{Str}

-- Go's `int`, of 64 bits: `negsuc n` is -(n + 1).
pub data ℤ : Type 0 where
  pos : ℕ → ℤ
  negsuc : ℕ → ℤ

-- One digit for each round; a round more than the number is fuel enough.
unfoldable pub print_digits : ℕ → ℕ → Str → Str
print_digits zero n out = out
print_digits (suc fuel) n out =
    let rest = print_digits fuel (n / 10) ((b'0' + n % 10) ∷ out) in
    if ltb n 10 then (b'0' + n) ∷ out else rest

-- `%d` of a number that is not negative.
unfoldable pub itoa : ℕ → Str
unfolding print_digits
itoa n = print_digits (suc n) n []

unfoldable pub is_digit : ℕ → Bool
is_digit c = leb b'0' c && leb c b'9'

unfoldable pub scan : Str → ℕ → Option ℕ
unfolding is_digit
scan [] n = some n
scan (c ∷ s) n = elim (is_digit c) [ true ↦ scan s (n * 10 + (c - b'0')) | false ↦ none ]

-- A number of one digit or more.
unfoldable pub digits : Str → Option ℕ
unfolding scan
digits [] = none
digits (c ∷ s) = scan (c ∷ s) 0

-- `strconv.ParseUint(s, 10, 64)`: no sign, and out of range is an error.
unfoldable pub parse_uint : Str → Option ℕ
unfolding digits
parse_uint s = elim (digits s) [ none ↦ none | some n ↦ if ltb n (2 ^ 64) then some n else none ]

to_pos : Option ℕ → Option ℤ
to_pos none = none
to_pos (some n) = if ltb n (2 ^ 63) then some (pos n) else none

to_neg : Option ℕ → Option ℤ
to_neg none = none
to_neg (some zero) = some (pos 0)
to_neg (some (suc n)) = if ltb n (2 ^ 63) then some (negsuc n) else none

-- `strconv.Atoi(s)`: one sign at most, then a number in the range of an `int`.
unfoldable pub atoi : Str → Option ℤ
unfolding digits to_pos to_neg
atoi [] = none
atoi (c ∷ s) =
    if c == b'-'
    then to_neg (digits s)
    else if c == b'+'
    then to_pos (digits s)
    else to_pos (digits (c ∷ s))
