-- ===== src/Examples/Replica.antt =====
-- The checks of a MySQL server at concrete inputs.
use radondb_mysql_kubernetes.Utils.{str_less, string_in_array}
use radondb_mysql_kubernetes.Prelude.{
  ℕ, zero, suc, ◌≡◌, refl, ltb, none, some, [], ◌∷◌, codes, ok, length, str_eq,
}
use radondb_mysql_kubernetes.Kube.{condition_true, condition_false, condition_unknown}
use radondb_mysql_kubernetes.Replica.{
  Server, SlaveStatus, row, query_failed, check_slave_status, check_slave_status_from,
}
use radondb_mysql_kubernetes.Replica.Retry.{Outcome, check_slave_status_from_lem}

-- A slave that runs, two seconds behind; the numbers are whole, and texts count by their length.
abbrev replica : Server ℕ
replica = record {
  show_slave_status =
      row
        (codes "Slave_IO_State"
          ∷ codes "Slave_IO_Running"
          ∷ codes "Slave_SQL_Running"
          ∷ codes "Seconds_Behind_Master"
          ∷ [])
        (codes "Waiting for master to send event" ∷ codes "Yes" ∷ codes "Yes" ∷ codes "22" ∷ []);
  long_query_time = ok 10;
  parse_float = length;
  hundredfold = λ n. n;
  of_int = λ n. n;
  greater = λ a b. ltb b a;
}

abbrev unreachable : Server ℕ
unreachable = record replica { show_slave_status = query_failed (codes "timeout") }

abbrev in_time : SlaveStatus
in_time = record { is_lagged = condition_false; is_replicating = condition_true; error = none }

abbrev unknown : SlaveStatus
unknown = record { is_lagged = condition_unknown; is_replicating = condition_unknown; error = none }

-- The first attempt fails.
abbrev attempts : ℕ → Server ℕ
attempts zero = unreachable
attempts (suc i) = replica

retried : check_slave_status_from attempts none 0 2 unknown ≡ some in_time
unfolding check_slave_status_from check_slave_status str_eq string_in_array str_less
retried = refl

check_slave_status_from_lem_example : Outcome attempts none 0 2 unknown in_time
check_slave_status_from_lem_example =
    check_slave_status_from_lem attempts none 0 2 unknown in_time retried
