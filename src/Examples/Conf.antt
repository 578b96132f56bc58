-- ===== src/Examples/Conf.antt =====
-- The sizes in the MySQL configuration at concrete inputs.
use radondb_mysql_kubernetes.Utils.{max}
use radondb_mysql_kubernetes.Prelude.{
  ℕ, ◌*◌, ◌/◌, ◌≤◌, ◌<◌, ◌≡◌, ◌↔◌, refl, none, some, Option, false, codes, itoa, find_label, Labels,
  [], arith, parse_uint,
}
use radondb_mysql_kubernetes.Cluster.Conf.{
  default_size, max_size, pool_size, ensure_mysql_conf, size_to_bytes,
}
use radondb_mysql_kubernetes.Cluster.Conf.Pool.{ensure_mysql_conf_stable}

abbrev percent : ℕ → ℕ → ℕ
percent p mem = p * mem / 100

-- 2 GB of memory
abbrev memory : ℕ
memory = 2147483648

units : size_to_bytes (codes " 512m ") ≡ some 536870912
unfolding size_to_bytes parse_uint radondb_mysql_kubernetes.Prelude.str_eq
units = refl

-- An empty configuration, without a known size of the volume.
abbrev first_round : Option Labels
first_round = ensure_mysql_conf percent memory 2000 none false []

abbrev conf_of : Option Labels → Labels
conf_of none = []
conf_of (some conf) = conf

ensure_mysql_conf_stable_example :
    (size : ℕ) × (134217728 ≤ size)
    × (size ≤ max_size percent memory)
    × (find_label (codes "innodb_buffer_pool_size") (conf_of first_round) ≡ some (itoa size))
    × (find_label
          (codes "innodb_buffer_pool_size")
          (conf_of (ensure_mysql_conf percent memory 2000 none false (conf_of first_round)))
        ≡ some (itoa size))
unfolding ensure_mysql_conf find_label radondb_mysql_kubernetes.Prelude.put_label
    radondb_mysql_kubernetes.Prelude.str_eq pool_size max radondb_mysql_kubernetes.Prelude.atoi
    radondb_mysql_kubernetes.Prelude.label size_to_bytes parse_uint itoa
    radondb_mysql_kubernetes.Utils.min
ensure_mysql_conf_stable_example =
    ensure_mysql_conf_stable percent memory 2000 none false [] (conf_of first_round)
      (conf_of (ensure_mysql_conf percent memory 2000 none false (conf_of first_round)))
      (unfold max_size default_size in (omega arith, omega arith)) (unfold max_size in omega arith)
      refl refl
