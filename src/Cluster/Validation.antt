-- ===== src/Cluster/Validation.antt =====
-- Validate of mysqlcluster.go, on every branch.
use radondb_mysql_kubernetes.Prelude.{
  ◌≡◌, ◌≢◌, ◌↔◌, ◌⊎◌, inl, inr, true, none, codes, arith, In, contains_str, str_eq_iff, str_eq,
  Bool-cases,
}
use radondb_mysql_kubernetes.Cluster.{reserved_users, validate}
use radondb_mysql_kubernetes.Cluster.Spec.{MysqlCluster}
use radondb_mysql_kubernetes.Utils.{string_in_array}
use radondb_mysql_kubernetes.Utils.Order.{string_in_array_iff}

-- Whether the cluster asks for TokuDB on an image of MySQL 8.0.
abbrev pub AsksToku80 : MysqlCluster → Type 0
AsksToku80 c =
    (contains_str c.mysql_opts.image (codes "8.0") ≡ true) × (c.mysql_opts.init_toku_db ≡ true)

-- A cluster is valid exactly if its user is none that the operator reserves and its root host is
-- not 127.0.0.1, but that the root host is free where TokuDB is asked for on MySQL 8.0.
pub validate_iff :
    (c : MysqlCluster)
    → (validate c ≡ none) ↔ (
        (¬ In c.mysql_opts.user reserved_users)
        × (AsksToku80 c ⊎ (c.mysql_opts.root_host ≢ codes "127.0.0.1")))
unfolding validate
validate_iff c = elim (Bool-cases (string_in_array c.mysql_opts.user reserved_users)) [
  | inl taken ↦ rw taken (λ h. cc, λ h. absurd (h.0 (member.0 taken)))
  | inr free ↦ rw free (
    λ h. (λ m. cc (member.1 m), ground (arith, host)),
    λ h. elim h.1 [ inl asks ↦ ground (arith, asks) | inr other ↦ ground (arith, host) ],
  )
]
  where
    member :
        (string_in_array c.mysql_opts.user reserved_users ≡ true)
        ↔ In c.mysql_opts.user reserved_users
    member = string_in_array_iff c.mysql_opts.user reserved_users

    host :
        (str_eq c.mysql_opts.root_host (codes "127.0.0.1") ≡ true)
        ↔ (c.mysql_opts.root_host ≡ codes "127.0.0.1")
    host = str_eq_iff c.mysql_opts.root_host (codes "127.0.0.1")
