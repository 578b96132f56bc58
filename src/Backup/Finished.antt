-- ===== src/Backup/Finished.antt =====
-- A manual backup over the rounds of the controller: once it is finished it stays so, and no job is
-- applied for it again; and its status settles.
use radondb_mysql_kubernetes.Prelude.{
  All, All-from_In, ◌≡◌, refl, sym, ap, ◌∙◌, subst, ◌⊎◌, inl, inr, Bool, true, false, ◌||◌,
  Bool-cases, Option, none, some, Option-cases, List, Str, Error, In, if◌then◌else◌,
}
use radondb_mysql_kubernetes.Kube.{Env, Call, Trace, update_backup, perform, succeed}
use radondb_mysql_kubernetes.Kube.Makes.{one_more}
use radondb_mysql_kubernetes.Backup.{Backup, BackupStatus, BackupCluster, Job}
use radondb_mysql_kubernetes.Backup.Jobs.{job_completed, job_failed}
use radondb_mysql_kubernetes.Backup.Template.{Surroundings}
use radondb_mysql_kubernetes.Backup.Manual.{
  observe_job, publish_manual, manual_status, is_finished, Round, reconcile_manual_backup,
  label_backup, find_current, finish_manual, manual_round, after_label, label_act, cluster_labels,
  unlabelled,
}

or_left : (a b : Bool) → (if a || b then true else true) ≡ true
or_left true b = refl
or_left false true = refl
or_left false false = refl

-- Looking at a job does not undo the end of a backup.
manual_status-finished :
    (current : Option Job) (s : BackupStatus)
    → is_finished s ≡ true
    → is_finished (manual_status current s) ≡ true
unfolding is_finished manual_status publish_manual observe_job
manual_status-finished none s h = elim (Option-cases s.manual_backup) [
  | inl e ↦ cc (rw (e, is_finished) at h)
  | inr (m, e) ↦ rw (e, manual_status, is_finished) h
]
manual_status-finished (some job) s h = elim (Option-cases s.manual_backup) [
  | inl e ↦ cc (rw (e, is_finished) at h)
  | inr (m, e) ↦
      rw (e, manual_status, is_finished)
        (rw (rw (e, is_finished) at h) (or_left (job_completed job) (job_failed job)))
]

some_same : {A : Type 0} (a b : A) (o : Option A) → o ≡ some a → o ≡ some b → b ≡ a
some_same a b o h k = cc

-- A finished backup: its status stays finished, and no call is made but the one for the labels.
abbrev pub Settled : Backup → Trace → Round → Type 0
Settled b tr r =
    (is_finished r.backup.status ≡ true)
    × All (λ c. In c tr ⊎ (c ≡ update_backup b.name (cluster_labels b))) r.trace

module _ (env : Env) (around : Surroundings) (random : Str) where
  abbrev ended : Option Error → Backup → Trace → Round
  ended o b tr = record { error = o; backup = b; trace = tr }

  finish_manual-finished :
      (b : Backup) (cluster : BackupCluster) (current : Option Job) (tr : Trace)
      → is_finished b.status ≡ true
      → finish_manual env around random b cluster current tr ≡ some (ended none b tr)
  unfolding finish_manual
  finish_manual-finished b cluster current tr h = rw h

  ended-finished :
      (o : Option Error) (b : Backup) (tr : Trace) (r : Round)
      → is_finished b.status ≡ true
      → some (ended o b tr) ≡ some r
      → (is_finished r.backup.status ≡ true) × (r.trace ≡ tr)
  ended-finished o b tr r h e =
      subst (λ x. (is_finished x.backup.status ≡ true) × (x.trace ≡ tr)) {x = ended o b tr} {y = r}
        (some_same r (ended o b tr) (some r) refl (sym e)) (h, refl)

  -- The calls of a finished backup, from those that have been made.
  manual_round-finished :
      (b : Backup) (jobs : List Job) (cluster : BackupCluster) (tr : Trace) (r : Round)
      → is_finished b.status ≡ true
      → manual_round env around random b jobs cluster tr ≡ some r
      → (is_finished r.backup.status ≡ true) × (r.trace ≡ tr)
  unfolding manual_round
  manual_round-finished b jobs cluster tr r h e = elim (Option-cases (find_current b.name jobs)) [
    | inl k ↦ cc (rw (k, manual_round) at e)
    | inr (current, k) ↦
        let done = manual_status-finished current b.status h in
        let b' : Backup = record b { status = manual_status current b.status } in
        ended-finished none b' tr r done
          (sym (finish_manual-finished b' cluster current tr done) ∙ rw (k, manual_round) at e)
  ]

  after_label-finished :
      (b : Backup) (jobs : List Job) (cluster : BackupCluster) (o : Option Error) (tr : Trace)
      (r : Round)
      → is_finished b.status ≡ true
      → after_label env around random b jobs cluster (o, tr) ≡ some r
      → (is_finished r.backup.status ≡ true) × (r.trace ≡ tr)
  unfolding after_label
  after_label-finished b jobs cluster (some x) made r h e = ended-finished (some x) b made r h e
  after_label-finished b jobs cluster none made r h e = elim (Option-cases b.spec.backup_schedule) [
    | inl k ↦ manual_round-finished b jobs cluster made r h (rw (k, after_label) at e)
    | inr (cron, k) ↦ ended-finished none b made r h (rw (k, after_label) at e)
  ]

  label_backup_status : (b : Backup) → (label_backup b).status ≡ b.status
  unfolding label_backup
  label_backup_status b = elim (Bool-cases (unlabelled b)) [ inl k ↦ rw k | inr k ↦ rw k ]

  label_act-In :
      (b : Backup) (tr : Trace) (c : Call)
      → In c (label_act env around random b tr).1
      → In c tr ⊎ (c ≡ update_backup b.name (cluster_labels b))
  unfolding label_act perform succeed
  label_act-In b tr c m = elim (Bool-cases (unlabelled b)) [
    | inl k ↦
        one_more (λ d. d ≡ update_backup b.name (cluster_labels b)) tr c
          (update_backup b.name (cluster_labels b)) refl (rw (k, label_act) at m)
    | inr k ↦ inl (rw (k, label_act) at m)
  ]

  -- A round of a finished backup leaves it finished, and applies no job.
  pub reconcile_manual_backup-finished :
      (b : Backup) (jobs : List Job) (cluster : BackupCluster) (tr : Trace) (r : Round)
      → is_finished b.status ≡ true
      → reconcile_manual_backup env around random b jobs cluster tr ≡ some r
      → Settled b tr r
  unfolding reconcile_manual_backup
  reconcile_manual_backup-finished b jobs cluster tr r h e =
      let (o, made) = label_act env around random b tr in
      let (done, same) =
        after_label-finished (label_backup b) jobs cluster o made r
          (ap is_finished (label_backup_status b) ∙ h) e in
      (
        done,
        All-from_In (λ c. In c tr ⊎ (c ≡ update_backup b.name (cluster_labels b))) r.trace
            λ c m. label_act-In b tr c (subst (In c) same m),
      )
