-- ===== src/Backup/Cron.antt =====
-- controllers/backup/backup_controller.go: reconcileCronBackup and Reconcile.
use radondb_mysql_kubernetes.Prelude.{
  Bool, not, ◌||◌, ◌&&◌, Option, none, some, List, [], ◌∷◌, Str, codes, str_eq, is_empty, label,
  Error, Result, ok, err, if◌then◌else◌,
}
use radondb_mysql_kubernetes.Kube.{
  Env, Act, Trace, succeed, fail, ◌>>◌, perform, set_backup_owner, apply_cron_job,
  patch_backup_status,
}
use radondb_mysql_kubernetes.Kube.Batch.{JobSpec}
use radondb_mysql_kubernetes.Backup.{
  Backup, BackupCluster, BackupStatus, ScheduledBackupStatus, cron_job_initiator, Job, CronJob,
}
use radondb_mysql_kubernetes.Backup.Jobs.{
  job_completed, job_failed, cron_backup_labels, backup_job_name, label_cron_job, label_cluster,
}
use radondb_mysql_kubernetes.Backup.Template.{Surroundings, generate_backup_job_spec}
use radondb_mysql_kubernetes.Backup.Manual.{state_of_job, Round, after_act, reconcile_manual_backup}

unfoldable pub first_owner : List Str → Str
first_owner [] = []
first_owner (owner ∷ owners) = owner

-- The status of one scheduled backup; the reason is never set.
unfoldable pub scheduled_status : Job → ScheduledBackupStatus
unfolding state_of_job job_completed job_failed first_owner
scheduled_status job = record {
  cron_job_name = first_owner job.owners;
  backup_name = label job.annotations (codes "backupName");
  finished = job_completed job || job_failed job;
  backup_type = label job.annotations (codes "backupType");
  start_time = job.start_time;
  completion_time = job.completion_time;
  succeeded = job.succeeded;
  failed = job.failed;
  reason = [];
  backup_size = label job.annotations (codes "backupSize");
  gtid = label job.annotations (codes "gtid");
  state = some (state_of_job job);
}

-- The jobs of cron jobs, in order.
unfoldable pub scheduled_statuses : List Job → List ScheduledBackupStatus
unfolding scheduled_status
scheduled_statuses [] = []
scheduled_statuses (job ∷ jobs) =
    let rest = scheduled_statuses jobs in
    if not (is_empty (label job.labels label_cron_job)) then scheduled_status job ∷ rest else rest

unfoldable pub last_status : List ScheduledBackupStatus → Option ScheduledBackupStatus
last_status [] = none
last_status (s ∷ []) = some s
last_status (s ∷ t ∷ rest) = last_status (t ∷ rest)

-- The status with the latest scheduled backup and the list of all.
unfoldable pub cron_status : List ScheduledBackupStatus → BackupStatus → BackupStatus
unfolding last_status
cron_status scheduled s = elim (last_status scheduled) [
  | none ↦ record s { scheduled_backups = scheduled }
  | some latest ↦ record {
    initiator = some cron_job_initiator;
    backup_name = latest.backup_name;
    backup_size = latest.backup_size;
    backup_type = latest.backup_type;
    start_time = latest.start_time;
    completion_time = latest.completion_time;
    state = latest.state;
    gtid = latest.gtid;
    manual_backup = s.manual_backup;
    scheduled_backups = scheduled;
  }
]

unfoldable pub is_cron_of : Str → CronJob → Bool
is_cron_of cluster_name c =
    not c.deleted
    && (str_eq (label c.labels label_cluster) cluster_name
        && str_eq (label c.labels label_cron_job) (codes "true"))

-- The name of the last cron job of the cluster, or the one given where it has none.
unfoldable pub cron_job_name : Str → Str → List CronJob → Str
unfolding is_cron_of
cron_job_name cluster_name name [] = name
cron_job_name cluster_name name (c ∷ cron_jobs) =
    cron_job_name cluster_name (if is_cron_of cluster_name c then c.name else name) cron_jobs

unfoldable pub is_suspended : BackupCluster → Bool
is_suspended cluster = not cluster.ready || cluster.standby

module _ (env : Env) (around : Surroundings) (random : Str) where
  -- The call that applies the cron job, whose error is only logged.
  unfoldable pub log_apply : Str → BackupCluster → Str → JobSpec → Act
  unfolding perform is_suspended cron_backup_labels
  log_apply name cluster schedule spec tr =
      let call =
        apply_cron_job name (cron_backup_labels cluster.name) schedule (is_suspended cluster)
          spec in
      (none, (perform env call tr).1)

  unfoldable pub apply_cron : Str → BackupCluster → Str → JobSpec → Act
  unfolding perform ◌>>◌ log_apply
  apply_cron name cluster schedule spec = do
    perform env (set_backup_owner name)
    log_apply name cluster schedule spec

  -- The cron job of a schedule; `none` is a panic.
  unfoldable pub schedule_backup : Backup → BackupCluster → Str → List CronJob → Option Act
  unfolding apply_cron generate_backup_job_spec cron_backup_labels cron_job_name backup_job_name
      fail
  schedule_backup b cluster schedule cron_jobs =
      elim (generate_backup_job_spec around b cluster (cron_backup_labels cluster.name)) [
        | none ↦ none
        | some (err e) ↦ some (fail e)
        | some (ok spec) ↦ some (
            apply_cron (cron_job_name cluster.name (backup_job_name cluster.name random) cron_jobs)
              cluster schedule spec)
      ]

  -- `reconcileCronBackup`; `none` is a panic.
  unfoldable pub reconcile_cron_backup :
      Backup → List CronJob → List Job → BackupCluster → Trace → Option Round
  unfolding schedule_backup scheduled_statuses cron_status after_act
  reconcile_cron_backup b cron_jobs jobs cluster tr = elim b.spec.backup_schedule [
    | none ↦ some (record { error = none; backup = b; trace = tr })
    | some schedule ↦
        let seen = record b { status = cron_status (scheduled_statuses jobs) b.status } in
        elim (schedule_backup seen cluster schedule cron_jobs) [
          | none ↦ none
          | some act ↦ some (after_act (act tr) seen)
        ]
  ]

  -- The patch of the status, when it has changed; `changed` is the comparison DeepEqual.
  unfoldable pub patch_status :
      (BackupStatus → BackupStatus → Bool) → Backup → Round → Option Error × Trace
  unfolding perform
  patch_status changed before r =
      (if changed before.status r.backup.status
          then perform env (patch_backup_status before.name)
          else succeed)
        r.trace

  unfoldable pub then_patch : (BackupStatus → BackupStatus → Bool) → Backup → Round → Round
  unfolding patch_status after_act
  then_patch changed before r = after_act (patch_status changed before r) r.backup

  unfoldable pub then_cron :
      (BackupStatus → BackupStatus → Bool)
      → Backup
      → List CronJob
      → List Job
      → BackupCluster
      → Round
      → Option Round
  unfolding reconcile_cron_backup then_patch
  then_cron changed before cron_jobs jobs cluster r =
      elim (reconcile_cron_backup r.backup cron_jobs jobs cluster r.trace) [
        | none ↦ none
        | some r' ↦ some (then_patch changed before r')
      ]

  -- `Reconcile` of a backup that was found: `listed` is what getBackupResources returns. The errors
  -- of the two parts are only logged.
  unfoldable pub reconcile :
      (BackupStatus → BackupStatus → Bool)
      → Backup
      → Result (List Job × List CronJob)
      → BackupCluster
      → Trace
      → Option Round
  unfolding reconcile_manual_backup then_cron
  reconcile changed b listed cluster tr =
      if is_empty b.spec.cluster_name
      then some (record {
        error = some (codes "backup.Spec.ClusterName is empty");
        backup = b;
        trace = tr;
      })
      else elim listed [
        | err e ↦ some (record { error = some e; backup = b; trace = tr })
        | ok (jobs, cron_jobs) ↦
            elim (reconcile_manual_backup env around random b jobs cluster tr) [
              | none ↦ none
              | some r ↦ then_cron changed b cron_jobs jobs cluster r
            ]
      ]
