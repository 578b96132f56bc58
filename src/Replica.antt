-- ===== src/Replica.antt =====
-- internal/sql_runner.go: what the operator asks a MySQL server: CheckSlaveStatus and its retries,
-- CheckReadOnly, CheckSuperReadOnly and CheckSemSync.
pub mod Slave
pub mod Retry
use radondb_mysql_kubernetes.Prelude.{
  ℕ, zero, suc, ◌+◌, ◌-◌, ◌==◌, ltb, leb, Bool, true, false, not, ◌&&◌, Option, none, some, List,
  [], ◌∷◌, ◌++◌, Str, codes, Error, Result, ok, err, str_eq, contains_str, get_elem?, if◌then◌else◌,
}
use radondb_mysql_kubernetes.Kube.{
  ConditionStatus, condition_true, condition_false, condition_unknown,
}
use radondb_mysql_kubernetes.Utils.{string_in_array}

-- errorConnectionStates
abbrev pub error_connection_states : List Str
error_connection_states =
    codes "connecting to master"
    ∷ codes "reconnecting after a failed binlog dump request"
    ∷ codes "reconnecting after a failed master event read"
    ∷ codes "waiting to reconnect after a failed binlog dump request"
    ∷ codes "waiting to reconnect after a failed master event read"
    ∷ []

-- `strings.ToLower` of ASCII text.
unfoldable pub to_lower : Str → Str
to_lower [] = []
to_lower (x ∷ s) = (if leb b'A' x && leb x b'Z' then x + 32 else x) ∷ to_lower s

-- What a query for one row gives: the error of the query, no row (with the error of `rows.Err`),
-- the error of `Columns` or `Scan`, or the columns with the values of the row.
pub data Rows : Type 0 where
  query_failed : Error → Rows
  no_row : Option Error → Rows
  row_failed : Error → Rows
  row : List Str → List Str → Rows

-- A position of the first of these columns by name, and the value that stands there. `none` is an
-- index out of range.
unfoldable pub column_value : List Str → List Str → Str → Option Str
column_value values [] name = some []
column_value values (col ∷ cols) name = elim (str_eq col name) [
  | true ↦ elim values [ [] ↦ none | v ∷ vs ↦ some v ]
  | false ↦ elim values [ [] ↦ column_value [] cols name | v ∷ vs ↦ column_value vs cols name ]
]

-- The named results `isLagged, isReplicating, err`.
pub record SlaveStatus : Type 0 where
  pub is_lagged : ConditionStatus
  pub is_replicating : ConditionStatus
  pub error : Option Error

-- A server, as CheckSlaveStatus asks it. Floating-point numbers are of a type of their own.
pub record Server (Float : Type 0) : Type 0 where
  pub show_slave_status : Rows
  pub long_query_time : Result Float
  -- `strconv.ParseFloat` with the error dropped
  pub parse_float : Str → Float
  pub hundredfold : Float → Float
  pub of_int : ℕ → Float
  pub greater : Float → Float → Bool

-- The values that are read from the row.
pub record SlaveRow : Type 0 where
  pub io_state : Str
  pub sql_running : Str
  pub io_running : Str
  pub last_sql_error : Str
  pub seconds_behind_master : Str

unfoldable pub read_row : List Str → List Str → Option SlaveRow
unfolding column_value to_lower
read_row cols values = elim (column_value values cols (codes "Slave_IO_State")) [
  | none ↦ none
  | some io_state ↦ elim (column_value values cols (codes "Slave_SQL_Running")) [
    | none ↦ none
    | some sql_running ↦ elim (column_value values cols (codes "Slave_IO_Running")) [
      | none ↦ none
      | some io_running ↦ elim (column_value values cols (codes "Last_SQL_Error")) [
        | none ↦ none
        | some last_sql_error ↦ elim (column_value values cols (codes "Seconds_Behind_Master")) [
          | none ↦ none
          | some seconds ↦ some (record {
            io_state = to_lower io_state;
            sql_running = sql_running;
            io_running = io_running;
            last_sql_error = last_sql_error;
            seconds_behind_master = seconds;
          })
        ]
      ]
    ]
  ]
]

module _ {Float : Type 0} (server : Server Float) where
  -- The threshold: the lag of the spec in seconds, or a hundred times `long_query_time`.
  lag_time : Option ℕ → Float → Float
  lag_time none long_query_time = server.hundredfold long_query_time
  lag_time (some replica_lag) long_query_time = server.of_int replica_lag

  judge_lag : Option ℕ → Str → Result Float → SlaveStatus
  unfolding lag_time
  judge_lag replica_lag seconds (err e) = record {
    is_lagged = condition_unknown;
    is_replicating = condition_true;
    error = some e;
  }
  judge_lag replica_lag seconds (ok long_query_time) = record {
    is_lagged =
        if server.greater (server.parse_float seconds) (lag_time replica_lag long_query_time)
        then condition_true
        else condition_false;
    is_replicating = condition_true;
    error = none;
  }

  not_replicating : Error → SlaveStatus
  not_replicating e = record {
    is_lagged = condition_unknown;
    is_replicating = condition_false;
    error = some e;
  }

  judge_row : Option ℕ → SlaveRow → SlaveStatus
  unfolding judge_lag not_replicating
  judge_row replica_lag r =
      let error = codes "Last_SQL_Error: " ++ r.last_sql_error in
      if string_in_array r.io_state error_connection_states
      then not_replicating (codes "Slave_IO_State: " ++ r.io_state)
      else if not (str_eq r.io_running (codes "Yes"))
      then not_replicating error
      else if not (str_eq r.sql_running (codes "Yes"))
      then not_replicating error
      else judge_lag replica_lag r.seconds_behind_master server.long_query_time

  not_known : Error → SlaveStatus
  not_known e = record {
    is_lagged = condition_unknown;
    is_replicating = condition_unknown;
    error = some e;
  }

  judge_read : Option ℕ → Option SlaveRow → Option SlaveStatus
  unfolding judge_row
  judge_read replica_lag none = none
  judge_read replica_lag (some r) = some (judge_row replica_lag r)

  judge_rows : Option ℕ → Rows → Option SlaveStatus
  unfolding judge_read read_row not_known
  judge_rows replica_lag (query_failed e) = some (not_known e)
  judge_rows replica_lag (no_row (some e)) = some (not_known e)
  judge_rows replica_lag (no_row none) =
      some (record { is_lagged = condition_false; is_replicating = condition_false; error = none })
  judge_rows replica_lag (row_failed e) = some (not_known e)
  judge_rows replica_lag (row cols values) = judge_read replica_lag (read_row cols values)

  -- `CheckSlaveStatus`; `none` is a panic.
  unfoldable pub check_slave_status : Option ℕ → Option SlaveStatus
  unfolding judge_rows
  check_slave_status replica_lag = judge_rows replica_lag server.show_slave_status

-- `CheckSlaveStatusWithRetry`: the servers are the server at each of the attempts, `i` the number
-- of the next one, and `last` the results so far.
unfoldable pub check_slave_status_from :
    {Float : Type 0} → (ℕ → Server Float) → Option ℕ → ℕ → ℕ → SlaveStatus → Option SlaveStatus
check_slave_status_from servers replica_lag i zero last = some last
check_slave_status_from servers replica_lag i (suc retry) last =
    elim (check_slave_status (servers i) replica_lag) [
      | none ↦ none
      | some s ↦ elim s.error [
        | none ↦ some s
        | some e ↦ check_slave_status_from servers replica_lag (i + 1) retry s
      ]
    ]

-- `CheckReadOnly`, `CheckSuperReadOnly` and `CheckSemSync`, by the variable that each reads.
unfoldable pub check_variable : Result ℕ → ConditionStatus × Option Error
check_variable (err e) = (condition_unknown, some e)
check_variable (ok zero) = (condition_false, none)
check_variable (ok (suc n)) = (condition_true, none)

-- A server's global variables, by `GetGlobalVariable` into a uint8.
module _ (variable : Str → Result ℕ) where
  unfoldable pub check_read_only : ConditionStatus × Option Error
  unfolding check_variable
  check_read_only = check_variable (variable (codes "read_only"))

  unfoldable pub check_super_read_only : ConditionStatus × Option Error
  unfolding check_variable
  check_super_read_only = check_variable (variable (codes "super_read_only"))

  unfoldable pub check_sem_sync : ConditionStatus × Option Error
  unfolding check_variable
  check_sem_sync = check_variable (variable (codes "rpl_semi_sync_slave_enabled"))
