-- ===== src/Backup/Kinds.antt =====
-- Reconcile of controllers/backup/backup_controller.go: the calls that it makes, for a backup with a
-- schedule and for one without.
use radondb_mysql_kubernetes.Prelude.{
  ◌≡◌, refl, subst, ◌⊎◌, inl, true, false, ◌||◌, Option, none, some, ◌++◌, codes, Str, Result, ok,
  err, In, is_empty, Bool, if◌then◌else◌,
}
use radondb_mysql_kubernetes.Kube.{
  Env, Act, Call, Trace, update_backup, patch_backup_status, set_backup_owner, get_job, apply_job,
  apply_cron_job, perform, ◌>>◌, succeed, fail,
}
use radondb_mysql_kubernetes.Kube.Batch.{JobSpec, Nfs}
use radondb_mysql_kubernetes.Kube.Makes.{
  Makes, succeed-Makes, fail-Makes, perform-Makes, >>_Makes, if-Makes, one_more,
}
use radondb_mysql_kubernetes.Backup.{Backup, BackupCluster, Job}
use radondb_mysql_kubernetes.Backup.Template.{
  Surroundings, generate_backup_job_spec, binlog_job_spec,
}
use radondb_mysql_kubernetes.Backup.Jobs.{manual_backup_labels}
use radondb_mysql_kubernetes.Backup.Manual.{
  Round, create_binlog_job, apply_backup_job, drop_error, binlog_job, read_job, apply_spec,
  job_name, finish_manual, after_act, is_finished, binlog_labels,
}

-- The calls for a backup, by its schedule: a job is read and applied only for one without, and a
-- cron job is applied only for one with a schedule.
abbrev pub KindCall : Option Str → Call → Type 0
KindCall schedule (update_backup name labels) = Unit
KindCall schedule (patch_backup_status name) = Unit
KindCall schedule (set_backup_owner name) = Unit
KindCall schedule (get_job name) = schedule ≡ none
KindCall schedule (apply_job name labels spec) = schedule ≡ none
KindCall schedule (apply_cron_job name labels cron suspend spec) = schedule ≡ some cron
KindCall schedule _ = ⊥

-- A round, if there is one, keeps the schedule and makes only such calls.
abbrev pub RoundMakes : Option Str → Trace → Option Round → Type 0
RoundMakes schedule tr o =
    (r : Round)
    → o ≡ some r
    → (r.backup.spec.backup_schedule ≡ schedule)
      × ((c : Call) → In c r.trace → In c tr ⊎ KindCall schedule c)

module _ (schedule : Option Str) where
  pub none-RoundMakes : (tr : Trace) → RoundMakes schedule tr none
  none-RoundMakes tr r h = cc

  pub some-RoundMakes :
      (tr : Trace) (s : Round)
      → s.backup.spec.backup_schedule ≡ schedule
      → ((c : Call) → In c s.trace → In c tr ⊎ KindCall schedule c)
      → RoundMakes schedule tr (some s)
  some-RoundMakes tr s k f r h =
      subst
        (λ x.
          (x.backup.spec.backup_schedule ≡ schedule)
          × ((c : Call) → In c x.trace → In c tr ⊎ KindCall schedule c))
        {x = s} {y = r} (cc) (k, f)

module _ (env : Env) (around : Surroundings) (random : Str) (o : Option Str) where
  abbrev pub KindActs : Act → Type 0
  KindActs m = Makes (KindCall o) m

  pub drop_error-Makes : (m : Act) → KindActs m → KindActs (drop_error env around random m)
  unfolding drop_error
  drop_error-Makes m h tr c i = h tr c i

  read_job-Makes :
      (b : Backup) (cluster : BackupCluster)
      → o ≡ none
      → KindActs (read_job env around random b cluster)
  unfolding read_job perform
  read_job-Makes b cluster e tr c m =
      one_more (KindCall o) tr c (get_job (b.name ++ codes "-binlogbak")) e m

  binlog_job-Makes :
      (b : Backup) (cluster : BackupCluster) (nfs : Nfs)
      → o ≡ none
      → KindActs (binlog_job env around random b cluster nfs)
  unfolding binlog_job
  binlog_job-Makes b cluster nfs e =
      let P = KindCall o in
      let name : Str = b.name ++ codes "-binlogbak" in
      let spec : JobSpec = binlog_job_spec around b (cluster.last_backup ++ codes "bin") nfs in
      let own : Act = perform env (set_backup_owner name) in
      let read : Act = read_job env around random b cluster in
      let apply : Act = perform env (apply_job name (binlog_labels b) spec) in
      let dropped : Act = drop_error env around random apply in
      >>_Makes P own (read >> dropped) (perform-Makes P env (set_backup_owner name) tt) (
        >>_Makes P read dropped (read_job-Makes b cluster e)
          (drop_error-Makes apply (perform-Makes P env (apply_job name (binlog_labels b) spec) e)))

  nfs-Makes :
      (b : Backup) (cluster : BackupCluster) (nfs : Option Nfs)
      → o ≡ none
      → KindActs (elim nfs [ none ↦ succeed | some x ↦ binlog_job env around random b cluster x ])
  nfs-Makes b cluster none e = succeed-Makes (KindCall o)
  nfs-Makes b cluster (some nfs) e = binlog_job-Makes b cluster nfs e

  create_binlog_job-Makes :
      (b : Backup) (cluster : BackupCluster)
      → o ≡ none
      → KindActs (create_binlog_job env around random b cluster)
  unfolding create_binlog_job
  create_binlog_job-Makes b cluster e =
      if-Makes (KindCall o) (is_empty cluster.last_backup_gtid || is_empty cluster.last_backup)
        succeed
        (elim b.spec.backup_opts.nfs [
          | none ↦ succeed
          | some nfs ↦ binlog_job env around random b cluster nfs
        ])
        (succeed-Makes (KindCall o)) (nfs-Makes b cluster b.spec.backup_opts.nfs e)

  apply_spec-Makes :
      (b : Backup) (cluster : BackupCluster) (current : Option Job) (spec : JobSpec)
      → o ≡ none
      → KindActs (apply_spec env around random b cluster current spec)
  unfolding apply_spec
  apply_spec-Makes b cluster current spec e =
      let P = KindCall o in
      let name : Str = job_name env around random cluster current in
      let own : Act = perform env (set_backup_owner name) in
      let apply : Act = perform env (apply_job name (manual_backup_labels cluster.name) spec) in
      let binlog : Act = create_binlog_job env around random b cluster in
      >>_Makes P own (apply >> binlog) (perform-Makes P env (set_backup_owner name) tt) (
        >>_Makes P apply binlog
          (perform-Makes P env (apply_job name (manual_backup_labels cluster.name) spec) e)
          (create_binlog_job-Makes b cluster e))

  spec-Makes :
      (b : Backup) (cluster : BackupCluster) (current : Option Job) (x : Option (Result JobSpec))
      (m : Act)
      → o ≡ none
      → (elim x [
        | none ↦ none
        | some (err e) ↦ some (fail e)
        | some (ok spec) ↦ some (apply_spec env around random b cluster current spec)
      ])
        ≡ some m
      → KindActs m
  spec-Makes b cluster current none m e h = cc
  spec-Makes b cluster current (some (err x)) m e h =
      subst KindActs {x = fail x} {y = m} (cc) (fail-Makes (KindCall o) x)
  spec-Makes b cluster current (some (ok spec)) m e h =
      subst KindActs {x = apply_spec env around random b cluster current spec} {y = m} (cc)
        (apply_spec-Makes b cluster current spec e)

  pub act-RoundMakes :
      (b : Backup) (tr : Trace) (a : Option Act)
      → b.spec.backup_schedule ≡ o
      → ((m : Act) → a ≡ some m → KindActs m)
      → RoundMakes o tr (elim a [ none ↦ none | some act ↦ some (after_act (act tr) b) ])
  unfolding after_act
  act-RoundMakes b tr none k f = none-RoundMakes o tr
  act-RoundMakes b tr (some m) k f =
      some-RoundMakes o tr (after_act (m tr) b) k λ c i. f m refl tr c i

  pub if-RoundMakes :
      (tr : Trace) (b : Bool) (x y : Option Round)
      → RoundMakes o tr x
      → RoundMakes o tr y
      → RoundMakes o tr (if b then x else y)
  if-RoundMakes tr true x y f g = f
  if-RoundMakes tr false x y f g = g

  pub finish_manual-RoundMakes :
      (b : Backup) (cluster : BackupCluster) (current : Option Job) (tr : Trace)
      → b.spec.backup_schedule ≡ o
      → o ≡ none
      → RoundMakes o tr (finish_manual env around random b cluster current tr)
  unfolding finish_manual apply_backup_job
  finish_manual-RoundMakes b cluster current tr k e =
      let act : Option Act = apply_backup_job env around random b cluster current in
      let quiet : Round = record { error = none; backup = b; trace = tr } in
      if-RoundMakes tr (is_finished b.status) (some quiet)
        (elim act [ none ↦ none | some m ↦ some (after_act (m tr) b) ])
        (some-RoundMakes o tr quiet k (λ c i. inl i))
        (act-RoundMakes b tr act k λ m h.
          spec-Makes b cluster current
            (generate_backup_job_spec around b cluster (manual_backup_labels cluster.name)) m e h)
