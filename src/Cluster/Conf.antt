-- ===== src/Cluster/Conf.antt =====
-- mysqlcluster.go: EnsureMysqlConf, the sizes in the MySQL configuration, and sizeToBytes.
pub mod Pool
pub mod Log
use radondb_mysql_kubernetes.Prelude.{
  ℕ, zero, suc, ◌+◌, ◌-◌, ◌*◌, ◌/◌, ◌%◌, ◌^◌, ltb, leb, ℤ, pos, negsuc, Bool, true, false, not,
  ◌&&◌, ◌||◌, ◌==◌, Option, none, some, List, [], ◌∷◌, Str, codes, str_eq, Labels, find_label,
  label, put_label, itoa, parse_uint, atoi, if◌then◌else◌,
}
use radondb_mysql_kubernetes.Utils.{min, max}

abbrev pub kb : ℕ
kb = 1024

abbrev pub mb : ℕ
mb = 1048576

abbrev pub gb : ℕ
gb = 1073741824

-- White space and upper case, of ASCII text.
is_space : ℕ → Bool
is_space c = (c == 32) || (leb 9 c && leb c 13)

trim_left : Str → Str
unfolding is_space
trim_left [] = []
trim_left (c ∷ s) = let rest = trim_left s in if is_space c then rest else c ∷ s

-- `strings.TrimSpace` drops a space where nothing else follows.
trim_right : Str → Str
unfolding is_space
trim_right [] = []
trim_right (c ∷ s) = elim (trim_right s) [
  | [] ↦ if is_space c then [] else c ∷ []
  | d ∷ t ↦ c ∷ d ∷ t
]

to_upper : Str → Str
to_upper [] = []
to_upper (c ∷ s) = (if leb b'a' c && leb c b'z' then c - 32 else c) ∷ to_upper s

is_letter : ℕ → Bool
is_letter c = (leb b'A' c && leb c b'Z') || (leb b'a' c && leb c b'z')

-- The text before and from the first letter.
cut_unit : Str → Str × Str
unfolding is_letter
cut_unit [] = ([], [])
cut_unit (c ∷ s) =
    let (before, unit) = cut_unit s in if is_letter c then ([], c ∷ s) else (c ∷ before, unit)

-- A uint64 product.
with_unit : Str → ℕ → Option ℕ
with_unit unit nums =
    if str_eq unit []
    then some nums
    else if str_eq unit (codes "K")
    then some (nums * kb % 2 ^ 64)
    else if str_eq unit (codes "M")
    then some (nums * mb % 2 ^ 64)
    else if str_eq unit (codes "G")
    then some (nums * gb % 2 ^ 64)
    else none

parse_parts : Str × Str → Option ℕ
unfolding with_unit
parse_parts (before, unit) = elim (parse_uint before) [
  | none ↦ none
  | some nums ↦ with_unit unit nums
]

-- `sizeToBytes`; `none` is an error.
unfoldable pub size_to_bytes : Str → Option ℕ
unfolding parse_parts cut_unit to_upper trim_left trim_right
size_to_bytes s = parse_parts (cut_unit (to_upper (trim_left (trim_right s))))

-- `scaled p mem` is `uint64(p / 100 * float64(mem))`; `volume` is the value of the volume's size,
-- if that can be parsed.
module _ (scaled : ℕ → ℕ → ℕ) where
  unfoldable pub default_size : ℕ → ℕ
  default_size mem = if leb mem gb then scaled 45 mem else scaled 60 mem

  unfoldable pub max_size : ℕ → ℕ
  max_size mem = if leb mem gb then scaled 60 mem else scaled 80 mem

  -- The size of the buffer pool, by what the configuration says of it.
  unfoldable pub pool_size : ℕ → Option Str → ℕ
  unfolding default_size max_size
  pool_size mem none = max (default_size mem) (128 * mb)
  pool_size mem (some conf) = elim (size_to_bytes conf) [
    | none ↦ max (default_size mem) (128 * mb)
    | some nums ↦ min (max nums (128 * mb)) (max_size mem)
  ]

-- `math.Max(math.Min(math.Ceil(cpu / 1000), math.Floor(size / gb)), 1)`, exact below 2^53.
unfoldable pub pool_instances : ℕ → ℕ → ℕ
pool_instances cpu size = max (min ((cpu + 999) / 1000) (size / gb)) 1

-- `logGroups` as a uint64.
log_groups : Option ℤ → ℕ
log_groups none = 1
log_groups (some (pos n)) = n
log_groups (some (negsuc n)) = 2 ^ 64 - (n + 1)

-- The log file's size by the size of the pool; `none` is the panic of a division by zero.
unfoldable pub log_file_size : ℕ → ℕ → Option ℕ
log_file_size size groups =
    if ltb size (8 * gb)
    then if groups == 0 then none else some (512 * mb / groups)
    else if leb size (128 * gb)
    then some gb
    else some (2 * gb)

-- A log file that is larger than half of the volume is set to the default of 1 GB.
unfoldable pub checked_size : ℕ → ℕ → ℕ
checked_size volume size = if ltb (volume / 2) size then gb else size

write_log_size : Option ℕ → Option ℕ → Labels → Option Labels
unfolding checked_size
write_log_size none volume conf = none
write_log_size (some size) none conf = some conf
write_log_size (some size) (some volume) conf =
    some (put_label (codes "innodb_log_file_size") (itoa (checked_size volume size)) conf)

set_log_size : Option Str → ℕ → Option ℕ → Labels → Option Labels
unfolding write_log_size log_groups log_file_size
set_log_size (some given) size volume conf = some conf
set_log_size none size volume conf =
    write_log_size
      (log_file_size size (log_groups (atoi (label conf (codes "innodb_log_file_groups"))))) volume
      conf

set_log_error : Option Str → Bool → Labels → Labels
set_log_error (some given) log_pvc conf = conf
set_log_error none false conf = conf
set_log_error none true conf =
    put_label (codes "log-error") (codes "/var/log/mysql/mysql-error.log") conf

finish_conf : Bool → Option Labels → Option Labels
unfolding set_log_error
finish_conf log_pvc none = none
finish_conf log_pvc (some conf) =
    some (set_log_error (find_label (codes "log_error") conf) log_pvc conf)

-- `EnsureMysqlConf`: the configuration that it leaves, or `none` where it panics.
unfoldable pub ensure_mysql_conf : (ℕ → ℕ → ℕ) → ℕ → ℕ → Option ℕ → Bool → Labels → Option Labels
unfolding set_log_size finish_conf
ensure_mysql_conf scaled mem cpu volume log_pvc conf =
    let size = pool_size scaled mem (find_label (codes "innodb_buffer_pool_size") conf) in
    let conf' =
      put_label (codes "innodb_buffer_pool_instances") (itoa (pool_instances cpu size))
        (put_label (codes "innodb_buffer_pool_size") (itoa size) conf) in
    finish_conf log_pvc
      (set_log_size (find_label (codes "innodb_log_file_size") conf') size volume conf')
