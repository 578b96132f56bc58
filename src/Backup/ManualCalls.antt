-- ===== src/Backup/ManualCalls.antt =====
-- The calls of reconcileManualBackup, by the schedule of the backup.
use radondb_mysql_kubernetes.Prelude.{
  ◌≡◌, refl, subst, ◌⊎◌, inl, inr, Option, none, some, List, Str, Error, In, Bool-cases,
}
use radondb_mysql_kubernetes.Kube.{Env, Call, Trace, update_backup, perform, succeed}
use radondb_mysql_kubernetes.Kube.Makes.{Makes, perform-Makes, succeed-Makes, if-Makes}
use radondb_mysql_kubernetes.Backup.{Backup, BackupCluster, Job}
use radondb_mysql_kubernetes.Backup.Template.{Surroundings}
use radondb_mysql_kubernetes.Backup.Manual.{
  Round, reconcile_manual_backup, manual_round, after_label, label_act, label_backup, find_current,
  manual_status, finish_manual, unlabelled, cluster_labels,
}
use radondb_mysql_kubernetes.Backup.Kinds.{
  KindCall, RoundMakes, none-RoundMakes, some-RoundMakes, finish_manual-RoundMakes,
}

-- The calls of a round that starts from another trace.
pub chain :
    (schedule : Option Str) (tr made : Trace) (o : Option Round)
    → ((c : Call) → In c made → In c tr ⊎ KindCall schedule c)
    → RoundMakes schedule made o
    → RoundMakes schedule tr o
chain schedule tr made o f g r h =
    ((g r h).0, λ c m. elim ((g r h).1 c m) [ inl i ↦ f c i | inr k ↦ inr k ])

module _ (env : Env) (around : Surroundings) (random : Str) where
  found-RoundMakes :
      (b : Backup) (cluster : BackupCluster) (tr : Trace) (found : Option (Option Job))
      → b.spec.backup_schedule ≡ none
      → RoundMakes b.spec.backup_schedule tr (elim found [
        | none ↦ none
        | some current ↦
            finish_manual env around random
              (record b { status = manual_status current b.status })
              cluster
              current
              tr
      ])
  found-RoundMakes b cluster tr none e = none-RoundMakes b.spec.backup_schedule tr
  found-RoundMakes b cluster tr (some current) e =
      finish_manual-RoundMakes env around random b.spec.backup_schedule
        (record b { status = manual_status current b.status }) cluster current tr refl e

  schedule-RoundMakes :
      (b : Backup) (jobs : List Job) (cluster : BackupCluster) (tr : Trace) (schedule : Option Str)
      → b.spec.backup_schedule ≡ schedule
      → RoundMakes b.spec.backup_schedule tr (elim schedule [
        | some cron ↦ some (record { error = none; backup = b; trace = tr })
        | none ↦ manual_round env around random b jobs cluster tr
      ])
  unfolding manual_round
  schedule-RoundMakes b jobs cluster tr none e =
      found-RoundMakes b cluster tr (find_current b.name jobs) e
  schedule-RoundMakes b jobs cluster tr (some cron) e =
      some-RoundMakes b.spec.backup_schedule tr (record { error = none; backup = b; trace = tr })
        refl (λ c i. inl i)

  after_label-RoundMakes :
      (b : Backup) (jobs : List Job) (cluster : BackupCluster) (o : Option Error) (made : Trace)
      → RoundMakes b.spec.backup_schedule made
          (after_label env around random b jobs cluster (o, made))
  unfolding after_label
  after_label-RoundMakes b jobs cluster (some x) made =
      some-RoundMakes b.spec.backup_schedule made
        (record { error = some x; backup = b; trace = made }) refl (λ c i. inl i)
  after_label-RoundMakes b jobs cluster none made =
      schedule-RoundMakes b jobs cluster made b.spec.backup_schedule refl

  label_act-Makes :
      (b : Backup) → Makes (KindCall b.spec.backup_schedule) (label_act env around random b)
  unfolding label_act
  label_act-Makes b =
      if-Makes (KindCall b.spec.backup_schedule) (unlabelled b)
        (perform env (update_backup b.name (cluster_labels b))) succeed
        (perform-Makes (KindCall b.spec.backup_schedule) env
          (update_backup b.name (cluster_labels b)) tt)
        (succeed-Makes (KindCall b.spec.backup_schedule))

  label_backup_schedule :
      (b : Backup) → (label_backup b).spec.backup_schedule ≡ b.spec.backup_schedule
  unfolding label_backup
  label_backup_schedule b = elim (Bool-cases (unlabelled b)) [ inl k ↦ rw k | inr k ↦ rw k ]

  pub reconcile_manual_backup-RoundMakes :
      (b : Backup) (jobs : List Job) (cluster : BackupCluster) (tr : Trace)
      → RoundMakes b.spec.backup_schedule tr
          (reconcile_manual_backup env around random b jobs cluster tr)
  unfolding reconcile_manual_backup
  reconcile_manual_backup-RoundMakes b jobs cluster tr =
      let (o, made) = label_act env around random b tr in
      chain b.spec.backup_schedule tr made
        (after_label env around random (label_backup b) jobs cluster (o, made))
        (label_act-Makes b tr)
        (subst
          (λ s.
            RoundMakes s made
              (after_label env around random (label_backup b) jobs cluster (o, made)))
          (label_backup_schedule b) (after_label-RoundMakes (label_backup b) jobs cluster o made))
