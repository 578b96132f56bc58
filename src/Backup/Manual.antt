-- ===== src/Backup/Manual.antt =====
-- controllers/backup/backup_controller.go: reconcileManualBackup, with createBinlogJob.
use radondb_mysql_kubernetes.Prelude.{
  ltb, Bool, true, false, ◌||◌, Option, none, some, List, [], ◌∷◌, ◌++◌, Str, codes, str_eq,
  is_empty, label, Labels, Error, ok, err, if◌then◌else◌,
}
use radondb_mysql_kubernetes.Kube.{
  Env, Act, Trace, succeed, fail, ◌>>◌, perform, update_backup, set_backup_owner, get_job,
  apply_job,
}
use radondb_mysql_kubernetes.Kube.Batch.{JobSpec, Nfs}
use radondb_mysql_kubernetes.Backup.{
  Backup, BackupCluster, BackupStatus, BackupState, backup_succeeded, backup_failed, backup_start,
  backup_active, ManualBackupStatus, new_manual_status, manual_initiator, Job,
}
use radondb_mysql_kubernetes.Backup.Jobs.{
  job_completed, job_failed, manual_backup_labels, backup_job_name, binlog_host,
}
use radondb_mysql_kubernetes.Backup.Template.{
  Surroundings, generate_backup_job_spec, binlog_job_spec,
}

-- The state that the counts of a job give.
unfoldable pub state_of_job : Job → BackupState
state_of_job job =
    if ltb 0 job.succeeded
    then backup_succeeded
    else if ltb 0 job.active
    then backup_active
    else if ltb 0 job.failed
    then backup_failed
    else backup_start

-- What the job of the backup says, in the status of the manual backup.
unfoldable pub observe_job : Job → ManualBackupStatus → ManualBackupStatus
unfolding state_of_job job_completed job_failed
observe_job job s =
    let completed = job_completed job in
    record {
      finished = if completed || job_failed job then true else s.finished;
      backup_name = if completed then label job.annotations (codes "backupName") else s.backup_name;
      start_time = job.start_time;
      completion_time = job.completion_time;
      succeeded = job.succeeded;
      active = job.active;
      failed = job.failed;
      reason = s.reason;
      backup_type = if completed then label job.annotations (codes "backupType") else s.backup_type;
      backup_size = if completed then label job.annotations (codes "backupSize") else s.backup_size;
      gtid = if completed then label job.annotations (codes "gtid") else s.gtid;
      state = some (state_of_job job);
    }

-- The status of the manual backup, in the status of the backup.
unfoldable pub publish_manual : ManualBackupStatus → BackupStatus → BackupStatus
publish_manual m s = record {
  initiator = some manual_initiator;
  backup_name = m.backup_name;
  backup_size = m.backup_size;
  backup_type = m.backup_type;
  start_time = m.start_time;
  completion_time = m.completion_time;
  state = m.state;
  gtid = m.gtid;
  manual_backup = some m;
  scheduled_backups = s.scheduled_backups;
}

-- The first job whose first owner is the backup; the outer `none` is the panic of
-- `GetOwnerReferences()[0]` on a job without owners.
unfoldable pub find_current : Str → List Job → Option (Option Job)
find_current name [] = some none
find_current name (job ∷ jobs) =
    let rest = find_current name jobs in
    elim job.owners [
      | [] ↦ none
      | owner ∷ owners ↦ if str_eq owner name then some (some job) else rest
    ]

-- The status after the job has been looked at.
unfoldable pub manual_status : Option Job → BackupStatus → BackupStatus
unfolding observe_job publish_manual
manual_status current s = elim s.manual_backup [
  | none ↦ record s { manual_backup = some new_manual_status }
  | some m ↦ elim current [ none ↦ s | some job ↦ publish_manual (observe_job job m) s ]
]

-- `manualStatus.Finished`
unfoldable pub is_finished : BackupStatus → Bool
is_finished s = elim s.manual_backup [ none ↦ false | some m ↦ m.finished ]

abbrev pub cluster_labels : Backup → Labels
cluster_labels b = (codes "cluster", b.spec.cluster_name) ∷ []

abbrev pub unlabelled : Backup → Bool
unlabelled b = is_empty (label b.labels (codes "cluster"))

unfoldable pub label_backup : Backup → Backup
label_backup b = if unlabelled b then record b { labels = cluster_labels b } else b

-- The labels of the job that copies the binary logs.
unfoldable pub binlog_labels : Backup → Labels
unfolding binlog_host
binlog_labels b =
    (codes "Host", binlog_host b)
    ∷ (codes "Type", codes "backup")
    ∷ (codes "Cluster", b.spec.cluster_name)
    ∷ []

-- The result of a function that changes the backup and makes calls.
pub record Round : Type 0 where
  pub error : Option Error
  pub backup : Backup
  pub trace : Trace

unfoldable pub after_act : Option Error × Trace → Backup → Round
after_act (e, tr) b = record { error = e; backup = b; trace = tr }

module _ (env : Env) (around : Surroundings) (random : Str) where
  -- A call whose error is only logged.
  unfoldable pub drop_error : Act → Act
  drop_error m tr = (none, (m tr).1)

  get_error : Backup → BackupCluster → Option Error → Option Error
  get_error b cluster none = none
  get_error b cluster (some e) = some (
      codes "failed to get Job "
      ++ (cluster.namespace
          ++ (codes "/" ++ (b.name ++ (codes "-binlogbak" ++ (codes ": " ++ e))))))

  -- The `Get` of the job, whose NotFound is no error.
  unfoldable pub read_job : Backup → BackupCluster → Act
  unfolding perform get_error
  read_job b cluster tr =
      let (e, tr') = perform env (get_job (b.name ++ codes "-binlogbak")) tr in
      (get_error b cluster e, tr')

  unfoldable pub binlog_job : Backup → BackupCluster → Nfs → Act
  unfolding perform ◌>>◌ drop_error read_job binlog_job_spec binlog_labels
  binlog_job b cluster nfs = do
    perform env (set_backup_owner (b.name ++ codes "-binlogbak"))
    read_job b cluster
    drop_error (
        perform env (
          apply_job (b.name ++ codes "-binlogbak") (binlog_labels b)
            (binlog_job_spec around b (cluster.last_backup ++ codes "bin") nfs)))

  -- `createBinlogJob`; the comparison of a pointer with a struct, before the job is applied, never
  -- finds them equal.
  unfoldable pub create_binlog_job : Backup → BackupCluster → Act
  unfolding binlog_job
  create_binlog_job b cluster =
      if is_empty cluster.last_backup_gtid || is_empty cluster.last_backup
      then succeed
      else elim b.spec.backup_opts.nfs [ none ↦ succeed | some nfs ↦ binlog_job b cluster nfs ]

  unfoldable pub job_name : BackupCluster → Option Job → Str
  unfolding backup_job_name
  job_name cluster none = backup_job_name cluster.name random
  job_name cluster (some job) = job.name

  unfoldable pub apply_spec : Backup → BackupCluster → Option Job → JobSpec → Act
  unfolding job_name create_binlog_job manual_backup_labels
  apply_spec b cluster current spec = do
    perform env (set_backup_owner (job_name cluster current))
    perform env (apply_job (job_name cluster current) (manual_backup_labels cluster.name) spec)
    create_binlog_job b cluster

  -- The job of a backup that is not finished; `none` is a panic.
  unfoldable pub apply_backup_job : Backup → BackupCluster → Option Job → Option Act
  unfolding apply_spec generate_backup_job_spec manual_backup_labels fail
  apply_backup_job b cluster current =
      elim (generate_backup_job_spec around b cluster (manual_backup_labels cluster.name)) [
        | none ↦ none
        | some (err e) ↦ some (fail e)
        | some (ok spec) ↦ some (apply_spec b cluster current spec)
      ]

  unfoldable pub finish_manual : Backup → BackupCluster → Option Job → Trace → Option Round
  unfolding apply_backup_job is_finished after_act
  finish_manual b cluster current tr =
      if is_finished b.status
      then some (record { error = none; backup = b; trace = tr })
      else elim (apply_backup_job b cluster current) [
        | none ↦ none
        | some act ↦ some (after_act (act tr) b)
      ]

  unfoldable pub label_act : Backup → Act
  unfolding perform
  label_act b =
      if unlabelled b then perform env (update_backup b.name (cluster_labels b)) else succeed

  unfoldable pub manual_round : Backup → List Job → BackupCluster → Trace → Option Round
  unfolding find_current manual_status finish_manual
  manual_round b jobs cluster tr = elim (find_current b.name jobs) [
    | none ↦ none
    | some current ↦
        finish_manual (record b { status = manual_status current b.status }) cluster current tr
  ]

  unfoldable pub after_label :
      Backup → List Job → BackupCluster → Option Error × Trace → Option Round
  unfolding manual_round
  after_label b jobs cluster (some e, tr) = some (record { error = some e; backup = b; trace = tr })
  after_label b jobs cluster (none, tr) = elim b.spec.backup_schedule [
    | some cron ↦ some (record { error = none; backup = b; trace = tr })
    | none ↦ manual_round b jobs cluster tr
  ]

  -- `reconcileManualBackup`; `none` is a panic.
  unfoldable pub reconcile_manual_backup : Backup → List Job → BackupCluster → Trace → Option Round
  unfolding label_act label_backup after_label
  reconcile_manual_backup b jobs cluster tr =
      after_label (label_backup b) jobs cluster (label_act b tr)
