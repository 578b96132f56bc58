-- ===== src/Probes.antt =====
-- cmd/mysql/main.go: the readiness probe of the MySQL container. What the server, xenon and the API
-- server answer is the record `Seen`.
pub mod Readiness
use radondb_mysql_kubernetes.Prelude.{
  ℕ, ℤ, pos, negsuc, Bool, true, false, not, ◌&&◌, ◌||◌, Option, none, some, Str, Result, ok, err,
  Error, codes, ◌++◌, ltb, if◌then◌else◌, str_eq, is_empty, contains_str,
}

-- SlaveStatus: the columns that are read; the seconds are 0 where the column is null.
pub record SlaveStatus : Type 0 where
  pub slave_io_running : Str
  pub slave_sql_running : Str
  pub last_error : Str
  pub seconds_behind_master : ℤ

-- Agent, and the answers to it.
pub record Seen : Type 0 where
  pub pod_name : Str
  -- `int64(c.maxDelay.Seconds())`
  pub max_delay : ℤ
  pub read_only : Result Bool
  -- the role label of the pod
  pub role_label : Result (Option Str)
  pub raft_leader : Result Str
  pub slave_status : Result SlaveStatus
  pub update_file : Bool
  -- what `set global read_only=0` returns
  pub read_only_off : Option Error

-- The error of the probe, and whether the server was asked to leave read_only.
abbrev pub Outcome : Type 0
Outcome = Option Error × Bool

-- `a > b` of int64.
unfoldable pub is_above : ℤ → ℤ → Bool
is_above (pos a) (pos b) = ltb b a
is_above (pos a) (negsuc b) = true
is_above (negsuc a) (pos b) = false
is_above (negsuc a) (negsuc b) = ltb a b

unfoldable pub check_row : ℤ → SlaveStatus → Option Error
unfolding str_eq is_empty is_above
check_row max_delay status =
    if not (str_eq status.slave_io_running (codes "Yes"))
      || not (str_eq status.slave_sql_running (codes "Yes"))
    then some (codes "replication threads are stopped")
    else if not (is_empty status.last_error)
    then some (codes "slave has error: " ++ status.last_error)
    else if is_above status.seconds_behind_master max_delay
    then some (codes "slave is too far behind master")
    else none

-- For an error of the query the code returns `err`, which is nil there, and not `err1`.
unfoldable pub check_slave : ℤ → Result SlaveStatus → Option Error
unfolding check_row
check_slave max_delay (err e) = none
check_slave max_delay (ok status) = check_row max_delay status

role_of : Result (Option Str) → Result Str
role_of (err e) = err e
role_of (ok none) = err (codes "role label not found")
role_of (ok (some role)) = ok role

unfoldable pub get_role_by_label : Seen → Result Str
unfolding contains_str role_of
get_role_by_label seen =
    if contains_str seen.pod_name (codes "-ro-") then ok (codes "RO") else role_of seen.role_label

unfoldable pub follower_check : Seen → Result Str → Option Error
unfolding is_empty check_slave
follower_check seen (err e) = some e
follower_check seen (ok leader) =
    if is_empty leader then none else check_slave seen.max_delay seen.slave_status

off_error : Option Error → Option Error
off_error none = none
off_error (some e) = some (codes "failed to disable super_read_only: " ++ e)

leader_check : Seen → Bool → Outcome
unfolding off_error
leader_check seen read_only =
    if not seen.update_file && read_only
    then (off_error seen.read_only_off, true)
    else (none, false)

-- The switch over the role.
unfoldable pub check_role : Seen → Bool → Str → Outcome
unfolding str_eq follower_check leader_check contains_str check_slave
check_role seen read_only role =
    if str_eq role (codes "FOLLOWER")
    then (follower_check seen seen.raft_leader, false)
    else if str_eq role (codes "LEADER")
    then leader_check seen read_only
    else if contains_str seen.pod_name (codes "-ro-")
    then (check_slave seen.max_delay seen.slave_status, false)
    else (none, false)

with_role : Seen → Bool → Result Str → Outcome
unfolding check_role
with_role seen read_only (err e) = (some e, false)
with_role seen read_only (ok role) = check_role seen read_only role

with_read_only : Seen → Result Bool → Outcome
unfolding with_role get_role_by_label
with_read_only seen (err e) = (some e, false)
with_read_only seen (ok read_only) = with_role seen read_only (get_role_by_label seen)

unfoldable pub readiness : Seen → Outcome
unfolding with_read_only
readiness seen = with_read_only seen seen.read_only
