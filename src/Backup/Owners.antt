-- ===== src/Backup/Owners.antt =====
-- reconcileManualBackup: when the search for the job of the backup panics.
use radondb_mysql_kubernetes.Prelude.{
  ◌≡◌, refl, sym, ap, ◌∙◌, inl, inr, ◌↔◌, Bool-cases, List-cases, true, false, none, List, [], ◌∷◌,
  ◌++◌, Str, str_eq, All,
}
use radondb_mysql_kubernetes.Backup.{Job}
use radondb_mysql_kubernetes.Backup.Manual.{find_current}

-- The first owner of the job has another name.
abbrev pub OwnedByOther : Str → Job → Type 0
OwnedByOther name job =
    (owner : Str) × (owners : List Str) × (job.owners ≡ owner ∷ owners)
    × (str_eq owner name ≡ false)

-- A job without owners, after jobs whose first owners have other names.
pub record Orphan (name : Str) (jobs : List Job) : Type 0 where
  pub before : List Job
  pub orphan : Job
  pub after : List Job
  pub jobs_split : jobs ≡ before ++ orphan ∷ after
  pub others : All (OwnedByOther name) before
  pub no_owner : orphan.owners ≡ []

find_current-orphaned :
    (name : Str) (job : Job) (jobs : List Job)
    → job.owners ≡ []
    → find_current name (job ∷ jobs) ≡ none
unfolding find_current
find_current-orphaned name job jobs e = rw e

find_current-other :
    (name : Str) (job : Job) (jobs : List Job)
    → OwnedByOther name job
    → find_current name (job ∷ jobs) ≡ find_current name jobs
unfolding find_current
find_current-other name job jobs (owner, owners, e, k) = rw (e, k)

find_current-own :
    (name owner : Str) (owners : List Str) (job : Job) (jobs : List Job)
    → job.owners ≡ owner ∷ owners
    → str_eq owner name ≡ true
    → ¬ (find_current name (job ∷ jobs) ≡ none)
unfolding find_current
find_current-own name owner owners job jobs e k h = cc (rw (e, k, find_current) at h)

later :
    (name : Str) (job : Job) (jobs : List Job)
    → OwnedByOther name job
    → Orphan name jobs
    → Orphan name (job ∷ jobs)
later name job jobs other o = record {
  before = job ∷ o.before;
  orphan = o.orphan;
  after = o.after;
  jobs_split = ap (λ js. job ∷ js) o.jobs_split;
  others = (other, o.others);
  no_owner = o.no_owner;
}

find-Orphan : (name : Str) (jobs : List Job) → find_current name jobs ≡ none → Orphan name jobs
unfolding find_current
find-Orphan name [] h = cc
find-Orphan name (job ∷ jobs) h = elim (List-cases job.owners) [
  | inl e ↦ record {
    before = [];
    orphan = job;
    after = jobs;
    jobs_split = refl;
    others = tt;
    no_owner = e;
  }
  | inr (owner, owners, e) ↦ elim (Bool-cases (str_eq owner name)) [
    | inl k ↦ absurd (find_current-own name owner owners job jobs e k h)
    | inr k ↦
        let other : OwnedByOther name job = (owner, owners, e, k) in
        later name job jobs other
          (find-Orphan name jobs (sym (find_current-other name job jobs other) ∙ h))
  ]
]

skip :
    (name : Str) (before rest : List Job)
    → All (OwnedByOther name) before
    → find_current name (before ++ rest) ≡ find_current name rest
skip name [] rest h = refl
skip name (job ∷ before) rest h =
    find_current-other name job (before ++ rest) h.0 ∙ skip name before rest h.1

-- The search for the job of a backup panics exactly when the jobs of the cluster have one without
-- owners, before any that the backup owns.
pub find_current_panics_iff :
    (name : Str) (jobs : List Job) → (find_current name jobs ≡ none) ↔ Orphan name jobs
find_current_panics_iff name jobs = (
  find-Orphan name jobs,
  λ o.
      ap (find_current name) o.jobs_split
      ∙ skip name o.before (o.orphan ∷ o.after) o.others
      ∙ find_current-orphaned name o.orphan o.after o.no_owner,
)
