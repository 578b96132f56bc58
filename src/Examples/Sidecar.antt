-- ===== src/Examples/Sidecar.antt =====
-- The init container at concrete inputs.
use radondb_mysql_kubernetes.Prelude.{
  ℕ, pos, ◌≡◌, refl, Bool, true, false, Option, none, some, List, [], ◌∷◌, ◌++◌, Str, codes, Result,
  ok, err, Error, is_empty, split, arith, ◌+◌, ◌≤◌, ◌<◌, if◌then◌else◌,
}
use radondb_mysql_kubernetes.Sidecar.{Config}
use radondb_mysql_kubernetes.Sidecar.ServerId.{
  build_extra_config, is_offset_given, is_ro, start_index,
}
use radondb_mysql_kubernetes.Sidecar.Bounds.{
  IsPod, build_extra_config-bounded, build_extra_config-Apart,
}
use radondb_mysql_kubernetes.Sidecar.Gtid.{
  get_xtrabackup_gtid_purged, lines_text, join_all, get_xtrabackup_gtid_purged-lines_text,
}
use radondb_mysql_kubernetes.Sidecar.Restore.{Machine, State, execute_nfs_restore}
use radondb_mysql_kubernetes.Sidecar.Fallback.{run_restore}
use radondb_mysql_kubernetes.Sidecar.Done.{Ends, nfs_acts, execute_nfs_restore-Ends}

-- A pod that is restored from the backup `b1` on NFS, up to the given point.
abbrev pod_config : Str → Str → Str → Config
pod_config host remote point = record {
  host_name = host;
  remote_cluster_name = remote;
  server_id_start_offset = [];
  clone_flag = false;
  restore_point = point;
  x_restore_from = codes "b1";
  x_restore_from_nfs = codes "nfs";
  x_cloud_s3_end_point = [];
  x_cloud_s3_access_key = [];
  x_cloud_s3_secret_key = [];
  x_cloud_s3_bucket = [];
  x_remote_date_source = [];
}

abbrev first_pod : Config
first_pod = pod_config (codes "db-mysql-0") [] (codes "noon")

abbrev ro_pod : Config
ro_pod = pod_config (codes "db-ro-0") [] []

abbrev standby_pod : Config
standby_pod = pod_config (codes "dr-mysql-0") (codes "db") []

first_pod_id :
    build_extra_config first_pod (codes "init.sql")
    ≡ ok (record { server_id = pos 100; init_file = codes "init.sql" })
unfolding build_extra_config radondb_mysql_kubernetes.Prelude.after_last
    radondb_mysql_kubernetes.Prelude.atoi is_empty split radondb_mysql_kubernetes.Prelude.str_eq
first_pod_id = refl

-- A read-only pod and a pod of a standby cluster have the same server id.
ro_pod_and_standby_pod : build_extra_config ro_pod [] ≡ build_extra_config standby_pod []
unfolding build_extra_config radondb_mysql_kubernetes.Prelude.atoi
    radondb_mysql_kubernetes.Prelude.after_last is_empty split
    radondb_mysql_kubernetes.Prelude.str_eq
ro_pod_and_standby_pod = refl

abbrev first_pod-IsPod : IsPod first_pod 0
unfolding radondb_mysql_kubernetes.Prelude.itoa start_index radondb_mysql_kubernetes.Prelude.atoi
first_pod-IsPod = record {
  set_name = codes "db-mysql";
  is_named = refl;
  is_small = omega arith;
  starts_low = omega arith;
}

build_extra_config-bounded_example :
    (id : ℕ) × (build_extra_config first_pod (codes "init.sql")
      ≡ ok (record { server_id = pos id; init_file = codes "init.sql" }))
    × (100 ≤ id)
    × (id < 400)
unfolding is_offset_given radondb_mysql_kubernetes.Prelude.atoi
build_extra_config-bounded_example =
    build_extra_config-bounded first_pod (codes "init.sql") 0 first_pod-IsPod refl

abbrev first_ordinal : ℕ
first_ordinal = 0

build_extra_config-Apart_example :
    (first_ordinal ≡ first_ordinal)
    × (is_ro (split first_pod.host_name b'-') ≡ is_ro (split first_pod.host_name b'-'))
build_extra_config-Apart_example =
    build_extra_config-Apart first_pod first_pod [] first_ordinal first_ordinal first_pod-IsPod
      first_pod-IsPod refl refl refl

-- Two lines of GTIDs.
abbrev gtid_lines : List Str
gtid_lines = codes "aa:1-7," ∷ codes "bb:1-3" ∷ []

get_xtrabackup_gtid_purged-lines_text_example :
    get_xtrabackup_gtid_purged
      (ok (codes "bin.1" ++ 9 ∷ (codes "154" ++ 9 ∷ lines_text gtid_lines)))
    ≡ ok (join_all gtid_lines)
get_xtrabackup_gtid_purged-lines_text_example =
    get_xtrabackup_gtid_purged-lines_text (codes "bin.1") (codes "154") gtid_lines (ground arith)
      (ground arith) (ground arith) (ground arith)

-- A machine without a data directory on which all commands succeed; a time is any text.
abbrev calm_machine : Machine
calm_machine = record {
  exists = λ acts path. false;
  fails = λ acts act. none;
  read_file = λ acts path. ok (codes "bin.1" ++ 9 ∷ (codes "154" ++ 9 ∷ codes "aa:1-7"));
  is_exist = λ e. false;
  parse_time = λ text. if is_empty text then err (codes "cannot parse") else ok text;
}

abbrev fresh : State
fresh = record { acts = []; gtid_purged = [] }

-- Without a point in time and without S3 a restore from NFS on which all commands succeed fails.
restore_without_point :
    (run_restore calm_machine ro_pod fresh).1
    ≡ some (codes "failed to restore from b1: do not have S3 information")
unfolding run_restore is_empty
restore_without_point = refl

execute_nfs_restore-Ends_example :
    Ends calm_machine first_pod
      (nfs_acts first_pod false)
      fresh
      (execute_nfs_restore calm_machine first_pod fresh)
unfolding execute_nfs_restore is_empty
execute_nfs_restore-Ends_example = execute_nfs_restore-Ends calm_machine first_pod fresh refl
