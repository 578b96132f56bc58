-- ===== src/Backup/Rounds.antt =====
-- The rounds of the controller over a manual backup, with edits of the backup between them.
use radondb_mysql_kubernetes.Prelude.{
  ◌≡◌, refl, sym, ap, ◌∙◌, inl, inr, true, Bool-cases, Option, none, some, Option-cases, List, Str,
}
use radondb_mysql_kubernetes.Kube.{Env, Trace}
use radondb_mysql_kubernetes.Backup.{
  Backup, BackupStatus, BackupCluster, Job, ManualBackupStatus, new_manual_status,
}
use radondb_mysql_kubernetes.Backup.Jobs.{job_completed, job_failed}
use radondb_mysql_kubernetes.Backup.Template.{Surroundings}
use radondb_mysql_kubernetes.Backup.Manual.{
  observe_job, publish_manual, manual_status, is_finished, Round, reconcile_manual_backup,
}
use radondb_mysql_kubernetes.Backup.Finished.{Settled, reconcile_manual_backup-finished}

-- One round, or an edit that leaves the status, as its subresource does.
pub data Rounds (b : Backup) : Backup → Type 0 where
  no_round : Rounds b b
  one_round :
      {c : Backup} (env : Env) (around : Surroundings) (random : Str) (jobs : List Job)
      (cluster : BackupCluster) (tr : Trace) (r : Round)
      → Rounds b c
      → reconcile_manual_backup env around random c jobs cluster tr ≡ some r
      → Rounds b r.backup
  edit : {c : Backup} (d : Backup) → Rounds b c → d.status ≡ c.status → Rounds b d

-- A backup that is finished stays so over all rounds and edits.
Rounds-finished :
    {b c : Backup} → is_finished b.status ≡ true → Rounds b c → is_finished c.status ≡ true
Rounds-finished h no_round = h
Rounds-finished h (one_round {c = c} env around random jobs cluster tr r before e) =
    (reconcile_manual_backup-finished env around random c jobs cluster tr r
      (Rounds-finished h before) e).0
Rounds-finished h (edit d before e) = ap is_finished e ∙ Rounds-finished h before

-- Once a manual backup is finished, it is so after all later rounds and edits that leave its status,
-- and a later round makes no call but the update of its labels.
pub Rounds-Settled :
    (env : Env) (around : Surroundings) (random : Str) {b c : Backup} (jobs : List Job)
    (cluster : BackupCluster) (tr : Trace) (r : Round)
    → is_finished b.status ≡ true
    → Rounds b c
    → reconcile_manual_backup env around random c jobs cluster tr ≡ some r
    → Settled c tr r
Rounds-Settled env around random {c = c} jobs cluster tr r h before e =
    reconcile_manual_backup-finished env around random c jobs cluster tr r
      (Rounds-finished h before) e

-- Looking at the same job again changes nothing.
observe_job_twice :
    (job : Job) (m : ManualBackupStatus) → observe_job job (observe_job job m) ≡ observe_job job m
unfolding observe_job
observe_job_twice job m = elim (Bool-cases (job_completed job)) [
  | inl e ↦ rw e refl
  | inr e ↦ elim (Bool-cases (job_failed job)) [ inl k ↦ rw (e, k) refl | inr k ↦ rw (e, k) refl ]
]

module _ (s : BackupStatus) where
  manual_status-started :
      (current : Option Job)
      → s.manual_backup ≡ none
      → manual_status current s ≡ record s { manual_backup = some new_manual_status }
  unfolding manual_status
  manual_status-started none e = rw e
  manual_status-started (some job) e = rw e

  manual_status-observed :
      (job : Job) (m : ManualBackupStatus)
      → s.manual_backup ≡ some m
      → manual_status (some job) s ≡ publish_manual (observe_job job m) s
  unfolding manual_status
  manual_status-observed job m e = rw e

  manual_status-kept :
      (m : ManualBackupStatus) → s.manual_backup ≡ some m → manual_status none s ≡ s
  unfolding manual_status
  manual_status-kept m e = rw e

manual_status_twice :
    (current : Option Job) (s : BackupStatus) (m : ManualBackupStatus)
    → s.manual_backup ≡ some m
    → manual_status current (manual_status current s) ≡ manual_status current s
unfolding publish_manual
manual_status_twice none s m e = ap (manual_status none) (manual_status-kept s m e)
manual_status_twice (some job) s m e =
    let seen : ManualBackupStatus = observe_job job m in
    let first : BackupStatus = publish_manual seen s in
    ap (manual_status (some job)) (manual_status-observed s job m e)
    ∙ manual_status-observed first job seen refl
    ∙ ap (λ x. publish_manual x first) (observe_job_twice job m)
    ∙ sym (manual_status-observed s job m e)

-- The status of a manual backup settles at the second look at the same job: a third one leaves the
-- status as it is.
pub manual_status_settles :
    (current : Option Job) (s : BackupStatus)
    → manual_status current (manual_status current (manual_status current s))
      ≡ manual_status current (manual_status current s)
manual_status_settles current s = elim (Option-cases s.manual_backup) [
  | inl e ↦
      manual_status_twice current (manual_status current s) new_manual_status
        (ap (λ t. t.manual_backup) (manual_status-started s current e))
  | inr (m, e) ↦ ap (manual_status current) (manual_status_twice current s m e)
]
