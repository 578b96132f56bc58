-- ===== src/Utils/Ordinal.antt =====
-- GetOrdinal of utils/common.go against the names that StatefulSets give.
use radondb_mysql_kubernetes.Prelude.{
  ℕ, ◌^◌, ◌<◌, pos, ◌≡◌, Str, ok, ◌++◌, ◌∷◌, itoa, arith, after_last-append, itoa-Lacks, atoi-itoa,
}
use radondb_mysql_kubernetes.Utils.{get_ordinal, ordinal_of}

-- `GetOrdinal` of `fmt.Sprintf("%s-%d", name, n)` is `n`, for every name and every ordinal.
pub get_ordinal_of_name :
    (name : Str) (n : ℕ) → n < 2 ^ 63 → get_ordinal (name ++ b'-' ∷ itoa n) ≡ ok (pos n)
unfolding get_ordinal
get_ordinal_of_name name n h =
    rw (after_last-append b'-' name (itoa n) (itoa-Lacks b'-' n (omega arith)))
      (rw (atoi-itoa n h, ordinal_of))
