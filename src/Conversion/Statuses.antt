-- ===== src/Conversion/Statuses.antt =====
-- What the status of a Backup keeps on its way from v1beta1 to v1alpha1 and back.
use radondb_mysql_kubernetes.Prelude.{
  ◌≡◌, Option, none, some, [], Str, Error, Result, ok, err, if◌then◌else◌, ap, refl,
}
use radondb_mysql_kubernetes.Backup.{
  BackupState, backup_succeeded, backup_failed, backup_start, backup_active,
}
use radondb_mysql_kubernetes.Conversion.{
  BetaBackupStatus, status_to_alpha, status_to_beta, conditions_of, is_completed, state_from,
  date_of,
}

-- A success is kept; a failure comes back as a start, and the other states are lost.
abbrev pub kept_state : Option BackupState → Option BackupState
kept_state (some backup_succeeded) = some backup_succeeded
kept_state (some backup_failed) = some backup_start
kept_state (some backup_start) = none
kept_state (some backup_active) = none
kept_state none = none

-- `format_time` and `parse_time` are Format and Parse of time with one layout, which has no zone:
-- what is read back is the printed date and time of day, in UTC.
module _ {Time : Type 0} (format_time : Time → Str) (parse_time : Str → Result Time)
    (in_utc : Time → Time) (parses : (t : Time) → parse_time (format_time t) ≡ ok (in_utc t))
    (e : Error) (no_text : parse_time [] ≡ err e) where
  -- What is kept: the names, the GTID, the completion time but for its zone, and the state as above;
  -- without a completion time there is an error.
  abbrev pub kept_status : BetaBackupStatus Time → Result (BetaBackupStatus Time)
  kept_status s = elim s.completion_time [
    | none ↦ err e
    | some t ↦ ok (record {
      initiator = none;
      backup_name = s.backup_name;
      backup_size = [];
      backup_type = s.backup_type;
      start_time = none;
      completion_time = some (in_utc t);
      state = kept_state s.state;
      gtid = s.gtid;
      manual_backup = none;
      scheduled_backups = [];
    })
  ]

  state_trip :
      (state : Option BackupState)
      → (if is_completed state then some (state_from backup_failed (conditions_of state)) else none)
        ≡ kept_state state
  unfolding is_completed state_from conditions_of
  state_trip none = refl
  state_trip (some backup_succeeded) = refl
  state_trip (some backup_failed) = refl
  state_trip (some backup_start) = refl
  state_trip (some backup_active) = refl

  abbrev completed_at : BetaBackupStatus Time → Option Time → BetaBackupStatus Time
  completed_at s time = record s { completion_time = time }

  time_trip :
      (s : BetaBackupStatus Time) (time : Option Time)
      → status_to_beta format_time parse_time
          (status_to_alpha format_time parse_time (completed_at s time))
        ≡ kept_status (completed_at s time)
  unfolding status_to_beta status_to_alpha date_of
  time_trip s none = rw (no_text, status_to_beta)
  time_trip s (some t) =
      rw (parses t, status_to_beta)
        (ap
          (λ state. ok (record {
            initiator = none;
            backup_name = s.backup_name;
            backup_size = [];
            backup_type = s.backup_type;
            start_time = none;
            completion_time = some (in_utc t);
            state = state;
            gtid = s.gtid;
            manual_backup = none;
            scheduled_backups = [];
          }))
          (state_trip s.state))

  -- On its way from v1beta1 to v1alpha1 and back the status of a Backup keeps its names, its GTID, the
  -- date and time of day of its completion, now in UTC, and the state Succeeded; Failed becomes
  -- Started, and the other states, the initiator, the size, the start and the statuses of the manual
  -- and scheduled backups are lost. Without a completion time the conversion back fails. It is assumed
  -- that what is printed of a time is read back as such a time in UTC, and the empty text not at all.
  pub status_to_beta-status_to_alpha :
      (s : BetaBackupStatus Time)
      → status_to_beta format_time parse_time (status_to_alpha format_time parse_time s)
        ≡ kept_status s
  status_to_beta-status_to_alpha s = time_trip s s.completion_time
