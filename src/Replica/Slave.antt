-- ===== src/Replica/Slave.antt =====
-- CheckSlaveStatus: when it says that a server replicates, and when that it lags.
use radondb_mysql_kubernetes.Prelude.{
  ℕ, ◌≡◌, ◌↔◌, ◌⊎◌, inl, inr, subst, Option, none, some, Option-cases, List, Str, codes,
  Result-cases, In, arith,
}
use radondb_mysql_kubernetes.Kube.{condition_true, condition_false}
use radondb_mysql_kubernetes.Replica.{
  Rows, query_failed, no_row, row_failed, row, Server, SlaveStatus, SlaveRow, read_row, judge_lag,
  judge_row, judge_read, judge_rows, check_slave_status, error_connection_states, not_replicating,
  not_known,
}

-- Both threads of the slave run, and its IO state is no error.
abbrev pub Runs : SlaveRow → Type 0
Runs r =
    (¬ In r.io_state error_connection_states)
    × (r.io_running ≡ codes "Yes")
    × (r.sql_running ≡ codes "Yes")

module _ {Float : Type 0} (server : Server Float) where
  -- The server shows a slave that runs.
  abbrev pub Replicates : Rows → Type 0
  Replicates rows =
      (cols : List Str) × (values : List Str) × (r : SlaveRow) × (rows ≡ row cols values)
      × (read_row cols values ≡ some r)
      × Runs r

  -- The lag of a server is known.
  abbrev pub LagKnown : SlaveStatus → Type 0
  LagKnown s = (s.is_lagged ≡ condition_true) ⊎ (s.is_lagged ≡ condition_false)

  judge_row_known :
      (lag : Option ℕ) (r : SlaveRow)
      → LagKnown (judge_row server lag r) ↔ ((judge_row server lag r).error ≡ none)
  unfolding judge_row judge_lag not_replicating
  judge_row_known lag r = elim (Result-cases server.long_query_time) [
    | inl (e, h) ↦ ground (arith, h)
    | inr (t, h) ↦ ground (arith, h)
  ]

  abbrev KnownRight : SlaveStatus → Type 0
  KnownRight s = LagKnown s ↔ (s.error ≡ none)

  lift : (x s : SlaveStatus) → some x ≡ some s → KnownRight x → KnownRight s
  lift x s h k = let same : x ≡ s = cc in subst KnownRight same k

  known :
      (lag : Option ℕ) (rows : Rows) (s : SlaveStatus)
      → judge_rows server lag rows ≡ some s
      → KnownRight s
  unfolding judge_rows judge_read not_known
  known lag (query_failed e) s h = lift _ s h (ground arith)
  known lag (no_row none) s h = lift _ s h (ground arith)
  known lag (no_row (some e)) s h = lift _ s h (ground arith)
  known lag (row_failed e) s h = lift _ s h (ground arith)
  known lag (row cols values) s h = elim (Option-cases (read_row cols values)) [
    | inl e ↦ cc (rw (e, judge_rows, judge_read) at h)
    | inr (r, e) ↦ lift _ s (rw (e, judge_rows, judge_read) at h) (judge_row_known lag r)
  ]

  -- CheckSlaveStatus returns no error exactly if it knows whether the server lags.
  pub check_slave_status_known :
      (lag : Option ℕ) (s : SlaveStatus)
      → check_slave_status server lag ≡ some s
      → LagKnown s ↔ (s.error ≡ none)
  unfolding check_slave_status
  check_slave_status_known lag s h = known lag server.show_slave_status s h
