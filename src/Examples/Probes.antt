-- ===== src/Examples/Probes.antt =====
-- The readiness probe at concrete inputs.
use radondb_mysql_kubernetes.Prelude.{
  pos, ◌≡◌, refl, ◌↔◌, Bool, true, false, none, some, [], Str, Result, ok, err, codes,
}
use radondb_mysql_kubernetes.Probes.{SlaveStatus, Seen, readiness}
use radondb_mysql_kubernetes.Probes.Readiness.{MayServe, readiness_follower_iff}

abbrev stopped : SlaveStatus
stopped = record {
  slave_io_running = codes "Yes";
  slave_sql_running = codes "No";
  last_error = [];
  seconds_behind_master = pos 0;
}

-- A follower, by its slave status.
abbrev follower : Result SlaveStatus → Seen
follower slave_status = record {
  pod_name = codes "db-mysql-1";
  max_delay = pos 30;
  read_only = ok true;
  role_label = ok (some (codes "FOLLOWER"));
  raft_leader = ok (codes "db-mysql-0");
  slave_status = slave_status;
  update_file = false;
  read_only_off = none;
}

stopped_is_not_ready :
    (readiness (follower (ok stopped))).0 ≡ some (codes "replication threads are stopped")
unfolding readiness
stopped_is_not_ready = refl

unread_is_ready : (readiness (follower (err (codes "timeout")))).0 ≡ none
unfolding readiness
unread_is_ready = refl

readiness_follower_iff_example :
    ((readiness (follower (ok stopped))).0 ≡ none) ↔ MayServe (pos 30) (ok stopped)
unfolding radondb_mysql_kubernetes.Probes.get_role_by_label
    radondb_mysql_kubernetes.Prelude.is_empty
readiness_follower_iff_example =
    readiness_follower_iff (follower (ok stopped)) true (codes "db-mysql-0") refl refl refl refl
