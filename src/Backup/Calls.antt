-- ===== src/Backup/Calls.antt =====
-- Reconcile of controllers/backup/backup_controller.go as a whole: its calls, by the schedule.
use radondb_mysql_kubernetes.Prelude.{
  All, All-from_In, ◌≡◌, refl, subst, ◌⊎◌, inl, inr, Option, none, some, List, Str, Error, Result,
  ok, err, In, Bool, is_empty, codes,
}
use radondb_mysql_kubernetes.Kube.{
  Env, Act, Call, Trace, patch_backup_status, set_backup_owner, apply_cron_job, perform, succeed,
  fail,
}
use radondb_mysql_kubernetes.Kube.Batch.{JobSpec}
use radondb_mysql_kubernetes.Kube.Makes.{
  Makes, fail-Makes, perform-Makes, succeed-Makes, if-Makes, >>_Makes,
}
use radondb_mysql_kubernetes.Backup.{Backup, BackupStatus, BackupCluster, Job, CronJob}
use radondb_mysql_kubernetes.Backup.Template.{Surroundings, generate_backup_job_spec}
use radondb_mysql_kubernetes.Backup.Jobs.{cron_backup_labels, backup_job_name}
use radondb_mysql_kubernetes.Backup.Manual.{Round, reconcile_manual_backup, after_act}
use radondb_mysql_kubernetes.Backup.Cron.{
  reconcile, reconcile_cron_backup, schedule_backup, log_apply, apply_cron, patch_status,
  then_patch, then_cron, cron_job_name, is_suspended, scheduled_statuses, cron_status,
}
use radondb_mysql_kubernetes.Backup.Kinds.{
  KindCall, RoundMakes, none-RoundMakes, some-RoundMakes, act-RoundMakes, if-RoundMakes,
}
use radondb_mysql_kubernetes.Backup.ManualCalls.{chain, reconcile_manual_backup-RoundMakes}

module _ (env : Env) (around : Surroundings) (random : Str) where
  apply_cron-Makes :
      (name : Str) (cluster : BackupCluster) (cron : Str) (spec : JobSpec) (o : Option Str)
      → o ≡ some cron
      → Makes (KindCall o) (apply_cron env around random name cluster cron spec)
  unfolding apply_cron log_apply
  apply_cron-Makes name cluster cron spec o e =
      >>_Makes (KindCall o) (perform env (set_backup_owner name))
        (log_apply env around random name cluster cron spec)
        (perform-Makes (KindCall o) env (set_backup_owner name) tt)
        λ tr c m.
          perform-Makes (KindCall o) env
            (apply_cron_job name (cron_backup_labels cluster.name) cron (is_suspended cluster) spec)
            e tr c m

  cron_spec-Makes :
      (cluster : BackupCluster) (cron name : Str) (x : Option (Result JobSpec)) (m : Act)
      (o : Option Str)
      → o ≡ some cron
      → (elim x [
        | none ↦ none
        | some (err e) ↦ some (fail e)
        | some (ok spec) ↦ some (apply_cron env around random name cluster cron spec)
      ])
        ≡ some m
      → Makes (KindCall o) m
  cron_spec-Makes cluster cron name none m o e h = cc
  cron_spec-Makes cluster cron name (some (err x)) m o e h =
      subst (Makes (KindCall o)) {x = fail x} {y = m} (cc) (fail-Makes (KindCall o) x)
  cron_spec-Makes cluster cron name (some (ok spec)) m o e h =
      subst (Makes (KindCall o)) {x = apply_cron env around random name cluster cron spec} {y = m}
        (cc) (apply_cron-Makes name cluster cron spec o e)

  cron-RoundMakes :
      (b : Backup) (cron_jobs : List CronJob) (jobs : List Job) (cluster : BackupCluster)
      (tr : Trace) (schedule : Option Str)
      → b.spec.backup_schedule ≡ schedule
      → RoundMakes b.spec.backup_schedule tr (elim schedule [
        | none ↦ some (record { error = none; backup = b; trace = tr })
        | some cron ↦
            let seen = record b { status = cron_status (scheduled_statuses jobs) b.status } in
            elim (schedule_backup env around random seen cluster cron cron_jobs) [
              | none ↦ none
              | some act ↦ some (after_act (act tr) seen)
            ]
      ])
  unfolding schedule_backup
  cron-RoundMakes b cron_jobs jobs cluster tr none e =
      some-RoundMakes b.spec.backup_schedule tr (record { error = none; backup = b; trace = tr })
        refl (λ c i. inl i)
  cron-RoundMakes b cron_jobs jobs cluster tr (some cron) e =
      let seen : Backup = record b { status = cron_status (scheduled_statuses jobs) b.status } in
      act-RoundMakes env around random b.spec.backup_schedule seen tr
        (schedule_backup env around random seen cluster cron cron_jobs) refl
        λ m h.
          cron_spec-Makes cluster cron
            (cron_job_name cluster.name (backup_job_name cluster.name random) cron_jobs)
            (generate_backup_job_spec around seen cluster (cron_backup_labels cluster.name)) m
            b.spec.backup_schedule e h

  then_patch-Makes :
      (changed : BackupStatus → BackupStatus → Bool) (before : Backup) (r : Round) (o : Option Str)
      (c : Call)
      → In c (then_patch env around random changed before r).trace
      → In c r.trace ⊎ KindCall o c
  unfolding then_patch patch_status after_act
  then_patch-Makes changed before r o c =
      if-Makes (KindCall o) (changed before.status r.backup.status)
        (perform env (patch_backup_status before.name)) succeed
        (perform-Makes (KindCall o) env (patch_backup_status before.name) tt)
        (succeed-Makes (KindCall o)) r.trace c

  patched-RoundMakes :
      (changed : BackupStatus → BackupStatus → Bool) (before : Backup) (o : Option Str) (tr : Trace)
      (x : Option Round)
      → RoundMakes o tr x
      → RoundMakes o tr
          (elim x [ none ↦ none | some r ↦ some (then_patch env around random changed before r) ])
  unfolding then_patch
  patched-RoundMakes changed before o tr none f = none-RoundMakes o tr
  patched-RoundMakes changed before o tr (some r) f =
      some-RoundMakes o tr (then_patch env around random changed before r) (f r refl).0 λ c m.
        elim (then_patch-Makes changed before r o c m) [ inl i ↦ (f r refl).1 c i | inr k ↦ inr k ]

  then_cron-RoundMakes :
      (changed : BackupStatus → BackupStatus → Bool) (before : Backup) (cron_jobs : List CronJob)
      (jobs : List Job) (cluster : BackupCluster) (o : Option Str) (tr : Trace) (x : Option Round)
      → RoundMakes o tr x
      → RoundMakes o tr (elim x [
        | none ↦ none
        | some r ↦ then_cron env around random changed before cron_jobs jobs cluster r
      ])
  unfolding then_cron reconcile_cron_backup
  then_cron-RoundMakes changed before cron_jobs jobs cluster o tr none f = none-RoundMakes o tr
  then_cron-RoundMakes changed before cron_jobs jobs cluster o tr (some r) f =
      patched-RoundMakes changed before o tr
        (reconcile_cron_backup env around random r.backup cron_jobs jobs cluster r.trace)
        (chain o tr r.trace
          (reconcile_cron_backup env around random r.backup cron_jobs jobs cluster r.trace)
          (f r refl).1
          (subst
            (λ s.
              RoundMakes s r.trace
                (reconcile_cron_backup env around random r.backup cron_jobs jobs cluster r.trace))
            (f r refl).0
            (cron-RoundMakes r.backup cron_jobs jobs cluster r.trace r.backup.spec.backup_schedule
              refl)))

  listed-RoundMakes :
      (changed : BackupStatus → BackupStatus → Bool) (b : Backup)
      (listed : Result (List Job × List CronJob)) (cluster : BackupCluster) (tr : Trace)
      → RoundMakes b.spec.backup_schedule tr (elim listed [
        | err e ↦ some (record { error = some e; backup = b; trace = tr })
        | ok (jobs, cron_jobs) ↦
            elim (reconcile_manual_backup env around random b jobs cluster tr) [
              | none ↦ none
              | some r ↦ then_cron env around random changed b cron_jobs jobs cluster r
            ]
      ])
  listed-RoundMakes changed b (err e) cluster tr =
      some-RoundMakes b.spec.backup_schedule tr (record { error = some e; backup = b; trace = tr })
        refl (λ c i. inl i)
  listed-RoundMakes changed b (ok (jobs, cron_jobs)) cluster tr =
      then_cron-RoundMakes changed b cron_jobs jobs cluster b.spec.backup_schedule tr
        (reconcile_manual_backup env around random b jobs cluster tr)
        (reconcile_manual_backup-RoundMakes env around random b jobs cluster tr)

  reconcile-RoundMakes :
      (changed : BackupStatus → BackupStatus → Bool) (b : Backup)
      (listed : Result (List Job × List CronJob)) (cluster : BackupCluster) (tr : Trace)
      → RoundMakes b.spec.backup_schedule tr
          (reconcile env around random changed b listed cluster tr)
  unfolding reconcile
  reconcile-RoundMakes changed b listed cluster tr =
      let failed : Error → Round = λ e. record { error = some e; backup = b; trace = tr } in
      if-RoundMakes env around random b.spec.backup_schedule tr (is_empty b.spec.cluster_name)
        (some (failed (codes "backup.Spec.ClusterName is empty")))
        (elim listed [
          | err e ↦ some (failed e)
          | ok (jobs, cron_jobs) ↦
              elim (reconcile_manual_backup env around random b jobs cluster tr) [
                | none ↦ none
                | some r ↦ then_cron env around random changed b cron_jobs jobs cluster r
              ]
        ])
        (some-RoundMakes b.spec.backup_schedule tr
          (failed (codes "backup.Spec.ClusterName is empty")) refl (λ c i. inl i))
        (listed-RoundMakes changed b listed cluster tr)

  -- A round of Reconcile leaves the schedule; it reads and applies a job only for a backup without one,
  -- and applies a cron job only for a backup with a schedule, which is the one of the cron job.
  pub reconcile-KindCall :
      (changed : BackupStatus → BackupStatus → Bool) (b : Backup)
      (listed : Result (List Job × List CronJob)) (cluster : BackupCluster) (tr : Trace) (r : Round)
      → reconcile env around random changed b listed cluster tr ≡ some r
      → (r.backup.spec.backup_schedule ≡ b.spec.backup_schedule)
        × All (λ c. In c tr ⊎ KindCall b.spec.backup_schedule c) r.trace
  reconcile-KindCall changed b listed cluster tr r h =
      let made = reconcile-RoundMakes changed b listed cluster tr r h in
      (made.0, All-from_In (λ c. In c tr ⊎ KindCall b.spec.backup_schedule c) r.trace made.1)
