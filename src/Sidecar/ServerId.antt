-- ===== src/Sidecar/ServerId.antt =====
-- buildExtraConfig of sidecar/config.go: the server id of a MySQL server.
use radondb_mysql_kubernetes.Prelude.{
  ℕ, suc, ◌+◌, ◌-◌, ◌%◌, ◌^◌, ℤ, pos, negsuc, Bool, true, false, not, ◌&&◌, Option, none, some,
  List, Str, Result, ok, ◌>>=◌, codes, ltb, leb, if◌then◌else◌, str_eq, is_empty, split, atoi,
  get_elem?, length,
}
use radondb_mysql_kubernetes.Utils.{get_ordinal}
use radondb_mysql_kubernetes.Sidecar.{Config}

-- The keys that are written to the section `mysqld`.
pub record ExtraConfig : Type 0 where
  pub server_id : ℤ
  pub init_file : Str

-- The offset that the variable gives, if that is a number above 0.
unfoldable pub given_offset : Option ℤ → Option ℕ
given_offset none = none
given_offset (some (negsuc n)) = none
given_offset (some (pos n)) = if ltb 0 n then some n else none

unfoldable pub or_default : Option ℕ → ℕ
or_default none = 100
or_default (some n) = n

unfoldable pub is_given : Option ℕ → Bool
is_given none = false
is_given (some n) = true

-- `startIndex` before it is shifted: the offset, or mysqlServerIDOffset.
unfoldable pub start_index : Str → ℕ
unfolding given_offset or_default
start_index offset = or_default (given_offset (atoi offset))

unfoldable pub is_offset_given : Str → Bool
unfolding given_offset is_given
is_offset_given offset = is_given (given_offset (atoi offset))

is_text : Option Str → Str → Bool
is_text none text = false
is_text (some s) text = str_eq s text

-- `len(arr) >= 3 && arr[len(arr)-2] == "ro"`
unfoldable pub is_ro : List Str → Bool
unfolding is_text
is_ro arr = leb 3 (length arr) && is_text (get_elem? arr (length arr - 2)) (codes "ro")

-- mysqlServerIDOffsetInc
unfoldable pub increment : Bool → ℕ
increment shifted = if shifted then 100 else 0

-- `startIndex` after the increment for a remote cluster.
unfoldable pub remote_index : Str → Bool → ℕ
unfolding start_index is_offset_given increment
remote_index offset is_remote =
    start_index offset + increment (is_remote && not (is_offset_given offset))

-- `startIndex` after both of its increments.
unfoldable pub shifted_index : Config → ℕ
unfolding remote_index is_ro increment
shifted_index cfg =
    remote_index cfg.server_id_start_offset (not (is_empty cfg.remote_cluster_name))
    + increment (is_ro (split cfg.host_name b'-'))

-- An `int` of 64 bits from its bits.
unfoldable pub wrap : ℕ → ℤ
wrap n = let bits = n % 2 ^ 64 in if ltb bits (2 ^ 63) then pos bits else negsuc (2 ^ 64 - 1 - bits)

-- The sum of an `int` and one that is not below 0.
unfoldable pub add_int : ℕ → ℤ → ℤ
unfolding wrap
add_int start (pos n) = wrap (start + n)
add_int start (negsuc n) = wrap (start + (2 ^ 64 - suc n))

-- `NewKey` fails only for a key without a name.
unfoldable pub build_extra_config : Config → Str → Result ExtraConfig
unfolding shifted_index add_int get_ordinal
build_extra_config cfg file_path = get_ordinal cfg.host_name >>= (λ ordinal.
    ok (record { server_id = add_int (shifted_index cfg) ordinal; init_file = file_path }))
