-- ===== src/Probes/Readiness.antt =====
-- When readiness of cmd/mysql/main.go lets a follower be ready.
use radondb_mysql_kubernetes.Prelude.{
  ℤ, ◌≡◌, refl, ap, sym, ◌∙◌, ◌↔◌, Bool, true, false, none, some, Str, Result, ok, err, Error,
  codes, [], str_eq, is_empty, str_eq_iff, is_empty_iff, arith, if◌then◌else◌, not, ◌||◌,
}
use radondb_mysql_kubernetes.Probes.{
  SlaveStatus, Seen, is_above, check_row, check_slave, get_role_by_label, follower_check,
  check_role, readiness, with_role, with_read_only,
}

-- Both threads run, there is no error, and the delay is not above the most that is allowed.
pub record IsReplicating (max_delay : ℤ) (status : SlaveStatus) : Type 0 where
  pub io_runs : status.slave_io_running ≡ codes "Yes"
  pub sql_runs : status.slave_sql_running ≡ codes "Yes"
  pub no_error : status.last_error ≡ []
  pub is_close : is_above status.seconds_behind_master max_delay ≡ false

-- The slave status cannot be read, or it shows a server that replicates.
pub MayServe : ℤ → Result SlaveStatus → Type 0
MayServe max_delay (err e) = Unit
MayServe max_delay (ok status) = IsReplicating max_delay status

tests_pass :
    (io sql clean above : Bool) (a b c : Error)
    → ((if not io || not sql
          then some a
          else if not clean
          then some b
          else if above
          then some c
          else none)
        ≡ none)
      ↔ ((io ≡ true) × (sql ≡ true) × (clean ≡ true) × (above ≡ false))
tests_pass io sql clean above a b c = ground arith

check_row_iff :
    (max_delay : ℤ) (status : SlaveStatus)
    → (check_row max_delay status ≡ none) ↔ IsReplicating max_delay status
unfolding check_row
check_row_iff max_delay status = (
  λ h.
      let passed = (tests_pass io sql clean above _ _ _).0 h in
      record {
        io_runs = (str_eq_iff status.slave_io_running (codes "Yes")).0 passed.0;
        sql_runs = (str_eq_iff status.slave_sql_running (codes "Yes")).0 passed.1;
        no_error = (is_empty_iff status.last_error).0 passed.2;
        is_close = passed.3;
      },
  λ r. (tests_pass io sql clean above _ _ _).1 (
    (str_eq_iff status.slave_io_running (codes "Yes")).1 r.io_runs,
    (str_eq_iff status.slave_sql_running (codes "Yes")).1 r.sql_runs,
    (is_empty_iff status.last_error).1 r.no_error,
    r.is_close,
  ),
)
  where
    io : Bool
    io = str_eq status.slave_io_running (codes "Yes")

    sql : Bool
    sql = str_eq status.slave_sql_running (codes "Yes")

    clean : Bool
    clean = is_empty status.last_error

    above : Bool
    above = is_above status.seconds_behind_master max_delay

check_slave_iff :
    (max_delay : ℤ) (r : Result SlaveStatus)
    → (check_slave max_delay r ≡ none) ↔ MayServe max_delay r
unfolding check_slave MayServe
check_slave_iff max_delay (err e) = (λ h. tt, λ h. refl)
check_slave_iff max_delay (ok status) = check_row_iff max_delay status

follower_check-ok :
    (seen : Seen) (leader : Str)
    → is_empty leader ≡ false
    → follower_check seen (ok leader) ≡ check_slave seen.max_delay seen.slave_status
unfolding follower_check
follower_check-ok seen leader h = rw h

readiness-follower_check :
    (seen : Seen) (read_only : Bool)
    → seen.read_only ≡ ok read_only
    → get_role_by_label seen ≡ ok (codes "FOLLOWER")
    → (readiness seen).0 ≡ follower_check seen seen.raft_leader
unfolding readiness with_read_only with_role check_role str_eq
readiness-follower_check seen read_only h g =
    ap (λ r. (with_read_only seen r).0) h ∙ ap (λ r. (with_role seen read_only r).0) g

-- Of a follower of a cluster with a leader, where read_only, the label and xenon could be read,
-- readiness returns no error exactly if the slave status cannot be read, or both threads run,
-- there is no error in it, and the delay is not above the most that is allowed.
pub readiness_follower_iff :
    (seen : Seen) (read_only : Bool) (leader : Str)
    → seen.read_only ≡ ok read_only
    → get_role_by_label seen ≡ ok (codes "FOLLOWER")
    → seen.raft_leader ≡ ok leader
    → is_empty leader ≡ false
    → ((readiness seen).0 ≡ none) ↔ MayServe seen.max_delay seen.slave_status
readiness_follower_iff seen read_only leader h g r led = (
  λ done. (check_slave_iff seen.max_delay seen.slave_status).0 (sym checked ∙ done),
  λ serves. checked ∙ (check_slave_iff seen.max_delay seen.slave_status).1 serves,
)
  where
    checked : (readiness seen).0 ≡ check_slave seen.max_delay seen.slave_status
    checked =
        readiness-follower_check seen read_only h g
        ∙ ap (follower_check seen) r
        ∙ follower_check-ok seen leader led
