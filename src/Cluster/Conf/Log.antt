-- ===== src/Cluster/Conf/Log.antt =====
-- EnsureMysqlConf: the size of the log file against that of the volume.
use radondb_mysql_kubernetes.Prelude.{ℕ, ◌<◌, ◌≡◌, ◌↔◌, none, some, arith}
use radondb_mysql_kubernetes.Cluster.Conf.{log_file_size, checked_size}

-- The size of the log file panics exactly for a pool below 8 GB and a number of groups of 0.
pub log_file_size_iff :
    (size groups : ℕ) → (log_file_size size groups ≡ none) ↔ ((size < 8589934592) × (groups ≡ 0))
unfolding log_file_size
log_file_size_iff size groups = ground arith

-- On a volume below 1 GB, the log file of one group is set to more than the whole volume.
pub checked_size_exceeds :
    (volume size log : ℕ)
    → volume < 1073741824
    → log_file_size size 1 ≡ some log
    → volume < checked_size volume log
unfolding checked_size log_file_size
checked_size_exceeds volume size log h e = ground (arith, h, e)
