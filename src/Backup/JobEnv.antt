-- ===== src/Backup/JobEnv.antt =====
-- generateBackupJobSpec: the environment and the volumes of the job that makes a backup.
use radondb_mysql_kubernetes.Prelude.{
  ◌≡◌, refl, ◌↔◌, false, Option, none, some, Str, Labels, Result, ok, err, All, In, is_empty, codes,
  Option-cases, arith, inl, inr, subst,
}
use radondb_mysql_kubernetes.Kube.Batch.{JobSpec, Nfs, Volume, nfs_volume, empty_dir}
use radondb_mysql_kubernetes.Backup.{S3, Backup, BackupCluster}
use radondb_mysql_kubernetes.Backup.Jobs.{get_backup_host, s3_env, get_env_var_from_secret}
use radondb_mysql_kubernetes.Backup.Template.{
  Surroundings, generate_backup_job_spec, spec_for, backup_job_spec, gen_binlog_job_template,
  common_env, s3_backup_env, backup_type_env, nfs_volumes, nfs_mounts, both_error,
}

abbrev volume_name : Volume → Str
volume_name (nfs_volume name nfs) = name
volume_name (empty_dir name) = name

-- Every mount is of one of the volumes.
abbrev pub Mounted : JobSpec → Type 0
Mounted spec = All (λ m. (v : Volume) × In v spec.volumes × (volume_name v ≡ m.0)) spec.mounts

-- Every environment variable has a name.
abbrev pub EnvNamed : JobSpec → Type 0
EnvNamed spec = All (λ v. is_empty v.name ≡ false) spec.env

-- Some storage is configured.
abbrev pub Configured : Option S3 → Option Nfs → Option S3 → Type 0
Configured none none none = ⊥
Configured s3 nfs s3_binlog = Unit

abbrev pub Both : Option S3 → Option Nfs → Type 0
Both (some s3) (some nfs) = Unit
Both s3 nfs = ⊥

-- The job, or the error, for the storages.
abbrev pub JobFor : Option S3 → Option Nfs → Option S3 → Result JobSpec → Type 0
JobFor s3 nfs s3_binlog (err e) = Both s3 nfs × (e ≡ both_error)
JobFor s3 nfs s3_binlog (ok spec) =
    (¬ Both s3 nfs) × Mounted spec × (EnvNamed spec ↔ Configured s3 nfs s3_binlog)

spec_for-JobFor :
    (around : Surroundings) (b : Backup) (cluster : BackupCluster) (job_labels : Labels)
    (host : Str) (s3 : Option S3) (nfs : Option Nfs) (s3_binlog : Option S3)
    → JobFor s3 nfs s3_binlog (spec_for around b cluster job_labels host s3 nfs s3_binlog)
unfolding spec_for backup_job_spec gen_binlog_job_template common_env s3_backup_env backup_type_env
    nfs_volumes nfs_mounts s3_env get_env_var_from_secret is_empty
spec_for-JobFor around b cluster job_labels host (some x) (some y) s3_binlog = (tt, refl)
spec_for-JobFor around b cluster job_labels host none none none = ground arith
spec_for-JobFor around b cluster job_labels host (some x) none none = ground arith
spec_for-JobFor around b cluster job_labels host none (some y) none =
    (λ x. x, ((nfs_volume (codes "nfs-backup") y, In.here refl, refl), tt), ground arith)
spec_for-JobFor around b cluster job_labels host none none (some z) =
    (λ x. x, ((empty_dir (codes "mysql-checker"), In.here refl, refl), tt), ground arith)
spec_for-JobFor around b cluster job_labels host (some x) none (some z) =
    (λ x. x, ((empty_dir (codes "mysql-checker"), In.here refl, refl), tt), ground arith)
spec_for-JobFor around b cluster job_labels host none (some y) (some z) =
    (λ x. x, ((empty_dir (codes "mysql-checker"), In.here refl, refl), tt), ground arith)

-- generateBackupJobSpec fails exactly when both S3 and NFS are configured; otherwise the job mounts
-- volumes that it has, and all its environment variables have names exactly when a storage is
-- configured.
pub generate_backup_job_spec-JobFor :
    (around : Surroundings) (b : Backup) (cluster : BackupCluster) (job_labels : Labels)
    (r : Result JobSpec)
    → generate_backup_job_spec around b cluster job_labels ≡ some r
    → JobFor b.spec.backup_opts.s3 b.spec.backup_opts.nfs b.spec.backup_opts.s3_binlog r
unfolding generate_backup_job_spec
generate_backup_job_spec-JobFor around b cluster job_labels r h =
    let opts = b.spec.backup_opts in
    elim (Option-cases (get_backup_host cluster.nodes)) [
      | inl e ↦ cc (rw (e, generate_backup_job_spec) at h)
      | inr (host, e) ↦
          subst (JobFor opts.s3 opts.nfs opts.s3_binlog)
            {x = spec_for around b cluster job_labels host opts.s3 opts.nfs opts.s3_binlog} {y = r}
            (cc (rw (e, generate_backup_job_spec) at h))
            (spec_for-JobFor around b cluster job_labels host opts.s3 opts.nfs opts.s3_binlog)
    ]
