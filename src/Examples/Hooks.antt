-- ===== src/Examples/Hooks.antt =====
-- leaderStop and postStart at concrete inputs.
use radondb_mysql_kubernetes.Prelude.{
  ◌≡◌, refl, true, false, Option, none, some, List, [], ◌∷◌, ◌++◌, Str, codes, Error, ok, is_empty,
  split, str_eq,
}
use radondb_mysql_kubernetes.Hooks.{
  StopAction, stop_plan, StopState, StopStep, StopReach, disable_my_raft, timed_out, Gtid,
  StartInput, post_start, set_event_scheduler_off, set_read_only_on, check_long_running_writes,
  kill_threads, flush_tables_with_read_lock, flush_binary_logs, unlock_tables, get_pid_file,
  selecting,
}
use radondb_mysql_kubernetes.Hooks.Stop.{Heard, AllMade, StopReach_lem}
use radondb_mysql_kubernetes.Hooks.PostStart.{Marked, post_start-Marked}

-- Every action fails.
abbrev refuse : StopAction → Option Error
refuse a = some (codes "refused")

abbrev after_disable : List StopAction
after_disable =
    set_event_scheduler_off ∷ set_read_only_on ∷ check_long_running_writes ∷ kill_threads
    ∷ flush_tables_with_read_lock ∷ flush_binary_logs ∷ unlock_tables ∷ get_pid_file ∷ []

-- The select has ended before the error of the first action was sent.
abbrev late : StopState
late = record {
  left = after_disable;
  made = disable_my_raft ∷ [];
  sending = some (codes "refused");
  raft_enabled_again = false;
  waiter = timed_out;
  running = true;
}

late_reach : StopReach refuse late
late_reach =
    StopReach.stop_next
      (StopReach.stop_next StopReach.stop_begin
        (StopStep.act disable_my_raft after_disable [] selecting))
      (StopStep.time_out after_disable (disable_my_raft ∷ []) (some (codes "refused")) false)

StopReach_lem_example :
    (late.made ++ late.left ≡ stop_plan)
    × Heard refuse late.waiter late.sending late.made
    × AllMade late.raft_enabled_again late.made
StopReach_lem_example = StopReach_lem refuse late_reach

abbrev gtid_of : Str → Str → Gtid
gtid_of id raft = record { id = id; raft = raft; executed_gtid_set = codes "uuid:1-5" }

-- Three nodes are alive, and the set of the second is not a subset of the leader's.
abbrev behind : StartInput
behind = record {
  auto_rebuild = codes "true";
  mysql_available = none;
  xenon_available = none;
  gtids =
      gtid_of (codes "sample-0.sample") (codes "LEADER")
      ∷ gtid_of (codes "sample-1.sample") (codes "FOLLOWER")
      ∷ gtid_of (codes "sample-2.sample") (codes "FOLLOWER")
      ∷ [];
  connection = none;
  gtid_subset = λ mine leader. ok false;
  patch = none;
}

marks : (post_start (codes "sample-1") behind).1 ≡ true
unfolding post_start str_eq is_empty split
marks = refl

post_start-Marked_example : Marked (codes "sample-1") behind
post_start-Marked_example = post_start-Marked (codes "sample-1") behind marks
