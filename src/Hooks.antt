-- ===== src/Hooks.antt =====
-- cmd/xenon/main.go: the commands that xenon and the kubelet run, leaderStop with its goroutine,
-- postStart and readiness, and KillThreads.
pub mod Stop
pub mod PostStart
use radondb_mysql_kubernetes.Prelude.{
  ℕ, ◌+◌, ltb, Bool, true, false, not, ◌||◌, ◌&&◌, Option, none, some, List, [], ◌∷◌, ◌++◌, Str,
  codes, str_eq, is_empty, split, Error, Result, ok, err, if◌then◌else◌,
}

-- What the goroutine of leaderStop does, in xenon and in the local server.
pub data StopAction : Type 0 where
  disable_my_raft set_event_scheduler_off set_read_only_on check_long_running_writes : StopAction
  kill_threads flush_tables_with_read_lock flush_binary_logs unlock_tables get_pid_file : StopAction

abbrev pub stop_plan : List StopAction
stop_plan =
    disable_my_raft ∷ set_event_scheduler_off ∷ set_read_only_on ∷ check_long_running_writes
    ∷ kill_threads ∷ flush_tables_with_read_lock ∷ flush_binary_logs ∷ unlock_tables ∷ get_pid_file
    ∷ []

-- Where the function that waits for the goroutine is: in its select, with the error that it
-- returns, or after the time of 5 seconds, when it kills mysqld.
pub data Waiter : Type 0 where
  selecting timed_out : Waiter
  received : Error → Waiter

-- The two sides: what the goroutine has left and has done, the error that it waits to send on the
-- channel, whether its deferred function has enabled raft again, the waiter, and whether the process
-- runs: `main` ends it after leaderStop has returned, and the goroutine with it.
pub record StopState : Type 0 where
  pub left : List StopAction
  pub made : List StopAction
  pub sending : Option Error
  pub raft_enabled_again : Bool
  pub waiter : Waiter
  pub running : Bool

abbrev pub stop_start : StopState
stop_start = record {
  left = stop_plan;
  made = [];
  sending = none;
  raft_enabled_again = false;
  waiter = selecting;
  running = true;
}

-- leaderStop has left its select.
abbrev pub HasLeft : Waiter → Type 0
HasLeft selecting = ⊥
HasLeft timed_out = Unit
HasLeft (received e) = Unit

-- One step of the goroutine, of the waiter or of `main`; `answer` is the error of an action. The
-- goroutine goes on after an error, once the waiter has taken it from the channel, which has no
-- buffer, until the process has ended.
pub data StopStep (answer : StopAction → Option Error) : StopState → StopState → Type 0 where
  act :
      (a : StopAction) (rest made : List StopAction) (w : Waiter)
      → StopStep answer
          (record {
            left = a ∷ rest;
            made = made;
            sending = none;
            raft_enabled_again = false;
            waiter = w;
            running = true;
          })
          (record {
            left = rest;
            made = made ++ a ∷ [];
            sending = answer a;
            raft_enabled_again = false;
            waiter = w;
            running = true;
          })
  send :
      (e : Error) (rest made : List StopAction)
      → StopStep answer
          (record {
            left = rest;
            made = made;
            sending = some e;
            raft_enabled_again = false;
            waiter = selecting;
            running = true;
          })
          (record {
            left = rest;
            made = made;
            sending = none;
            raft_enabled_again = false;
            waiter = received e;
            running = true;
          })
  enable_my_raft :
      (made : List StopAction) (w : Waiter)
      → StopStep answer
          (record {
            left = [];
            made = made;
            sending = none;
            raft_enabled_again = false;
            waiter = w;
            running = true;
          })
          (record {
            left = [];
            made = made;
            sending = none;
            raft_enabled_again = true;
            waiter = w;
            running = true;
          })
  time_out :
      (rest made : List StopAction) (o : Option Error) (b : Bool)
      → StopStep answer
          (record {
            left = rest;
            made = made;
            sending = o;
            raft_enabled_again = b;
            waiter = selecting;
            running = true;
          })
          (record {
            left = rest;
            made = made;
            sending = o;
            raft_enabled_again = b;
            waiter = timed_out;
            running = true;
          })
  exit :
      (rest made : List StopAction) (o : Option Error) (b : Bool) (w : Waiter)
      → HasLeft w
      → StopStep answer
          (record {
            left = rest;
            made = made;
            sending = o;
            raft_enabled_again = b;
            waiter = w;
            running = true;
          })
          (record {
            left = rest;
            made = made;
            sending = o;
            raft_enabled_again = b;
            waiter = w;
            running = false;
          })

pub data StopReach (answer : StopAction → Option Error) : StopState → Type 0 where
  stop_begin : StopReach answer stop_start
  stop_next : {s t : StopState} → StopReach answer s → StopStep answer s t → StopReach answer t

-- KillThreads: the ids that are read, each or the error of its scan, and the errors of KILL. The
-- result has the threads for which KILL was called.
unfoldable pub kill_each : (Str → Option Error) → List (Result Str) → Option Error × List Str
kill_each kill [] = (none, [])
kill_each kill (err e ∷ rows) = (some (codes "failed to scan rows: " ++ e), [])
kill_each kill (ok id ∷ rows) =
    let (e, killed) = kill_each kill rows in
    elim (kill id) [ none ↦ (e, id ∷ killed) | some x ↦ (some x, id ∷ []) ]

-- `KillThreads`
unfoldable pub kill_all_threads :
    Result (List (Result Str)) → (Str → Option Error) → Option Error × List Str
unfolding kill_each
kill_all_threads (err e) kill = (some e, [])
kill_all_threads (ok rows) kill = kill_each kill rows

-- GTID: the fields that are read
pub record Gtid : Type 0 where
  pub id : Str
  pub raft : Str
  pub executed_gtid_set : Str

-- The loop of postStart: it leaves when the pod is the leader, or ends with its own set, the
-- leader's set and the number of nodes alive.
pub data Scan : Type 0 where
  i_am_leader : Scan
  scanned : Str → Str → ℕ → Scan

abbrev pub is_alive : Gtid → Bool
is_alive g = not (str_eq g.raft (codes "UNKNOW")) && not (is_empty g.raft)

abbrev pub is_leader : Gtid → Bool
is_leader g = str_eq g.raft (codes "LEADER")

-- `strings.Split(id, ".")[0]`
abbrev pub first_of : List Str → Str
first_of [] = []
first_of (x ∷ parts) = x

unfoldable pub is_mine : Str → Gtid → Bool
is_mine pod_name g = str_eq (first_of (split g.id 46)) pod_name

unfoldable pub scan_gtids : Str → List Gtid → Str → Str → ℕ → Scan
unfolding is_mine
scan_gtids pod_name [] mine leader alive = scanned mine leader alive
scan_gtids pod_name (g ∷ gtids) mine leader alive =
    let past = scan_gtids pod_name gtids mine leader alive in
    let mine' = if is_mine pod_name g then g.executed_gtid_set else mine in
    let leader' = if is_leader g then g.executed_gtid_set else leader in
    let rest = scan_gtids pod_name gtids mine' leader' (alive + 1) in
    if not (is_alive g)
    then past
    else if is_mine pod_name g && is_leader g
    then i_am_leader
    else rest

-- What postStart finds: the variable AUTO_REBUILD, whether MySQL and xenon become available, the
-- list of GTIDs, the connection, the answer of gtid_subset and that of the patch of the pod.
pub record StartInput : Type 0 where
  pub auto_rebuild : Str
  pub mysql_available : Option Error
  pub xenon_available : Option Error
  pub gtids : List Gtid
  pub connection : Option Error
  pub gtid_subset : Str → Str → Result Bool
  pub patch : Option Error

-- The error that postStart returns, and whether the label rebuild was patched.
abbrev pub StartResult : Type 0
StartResult = Option Error × Bool

-- `HaveErrantTransactions`, which is true when there are none
unfoldable pub have_errant_transactions : StartInput → Str → Str → Result Bool
have_errant_transactions i leader mine = elim (i.gtid_subset mine leader) [
  | err e ↦ err (codes "failed to execute: " ++ e)
  | ok b ↦ ok b
]

unfoldable pub compare_sets : StartInput → Str → Str → StartResult
unfolding have_errant_transactions
compare_sets i mine leader = elim (have_errant_transactions i leader mine) [
  | err e ↦ (some e, false)
  | ok is_subset ↦
      if not is_subset
      then elim i.patch [
        | none ↦ (none, true)
        | some e ↦ (some (codes "failed to patch pod rebuild label: " ++ e), true)
      ]
      else (none, false)
]

unfoldable pub after_scan : StartInput → Scan → StartResult
unfolding compare_sets
after_scan i i_am_leader = (none, false)
after_scan i (scanned mine leader alive) =
    if ltb alive 3 || is_empty leader then (none, false) else elim i.connection [
      | some e ↦ (some (codes "failed to get the connection of local MySQL: " ++ e), false)
      | none ↦ compare_sets i mine leader
    ]

-- `postStart`
unfoldable pub post_start : Str → StartInput → StartResult
unfolding after_scan scan_gtids
post_start pod_name i =
    if not (str_eq i.auto_rebuild (codes "true")) then (none, false) else elim i.mysql_available [
      | some e ↦ (some (codes "failed to wait for mysql: " ++ e), false)
      | none ↦ elim i.xenon_available [
        | some e ↦ (some (codes "xenon is not available: failed to start xenon: " ++ e), false)
        | none ↦ after_scan i (scan_gtids pod_name i.gtids [] [] 0)
      ]
    ]
