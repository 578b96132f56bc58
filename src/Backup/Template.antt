-- ===== src/Backup/Template.antt =====
-- controllers/backup/backup_controller.go: generateBackupJobSpec and genBinlogJobTemplate, the jobs
-- that make a backup, and createJobPodTemplate, the job that copies the binary logs.
use radondb_mysql_kubernetes.Prelude.{
  true, not, Option, none, some, List, [], ◌∷◌, ◌++◌, Str, codes, is_empty, Labels, Result, ok, err,
  Error, if◌then◌else◌,
}
use radondb_mysql_kubernetes.Cluster.Image.{ImageEnv, get_image}
use radondb_mysql_kubernetes.Kube.Batch.{
  EnvVar, field_ref, Nfs, Volume, nfs_volume, empty_dir, JobSpec,
}
use radondb_mysql_kubernetes.Backup.{S3, Backup, BackupCluster}
use radondb_mysql_kubernetes.Backup.Jobs.{
  get_backup_host, get_xtrabackup_url, get_backup_url, env_value, get_env_var_from_secret, s3_env,
  binlog_host,
}

-- What the code reads outside the resources: the images' environment, and the root password in the
-- secret of the cluster, empty where the secret cannot be read.
pub record Surroundings : Type 0 where
  pub image_env : ImageEnv
  pub root_password : Str

abbrev pub both_error : Error
both_error = codes "backup can only be configured with one of S3 or NFS"

-- `backupTypeEnv`, the zero EnvVar where there is neither S3 nor NFS
unfoldable pub backup_type_env : Option S3 → Option Nfs → EnvVar
backup_type_env s3 (some nfs) = env_value (codes "BACKUP_TYPE") (codes "nfs")
backup_type_env (some s3) none = env_value (codes "BACKUP_TYPE") (codes "s3")
backup_type_env none none = env_value [] []

unfoldable pub s3_backup_env : Option S3 → List EnvVar
unfolding s3_env
s3_backup_env none = []
s3_backup_env (some s3) = s3_env s3.backup_secret_name

unfoldable pub nfs_volumes : Option Nfs → List Volume
nfs_volumes none = []
nfs_volumes (some nfs) = nfs_volume (codes "nfs-backup") nfs ∷ []

unfoldable pub nfs_mounts : Option Nfs → List (Str × Str)
nfs_mounts none = []
nfs_mounts (some nfs) = (codes "nfs-backup", codes "/backup") ∷ []

-- The URL that the job asks for a backup.
unfoldable pub backup_url : Backup → BackupCluster → Str → Str
unfolding get_backup_url get_xtrabackup_url
backup_url b cluster host =
    if not (is_empty b.spec.backup_opts.backup_host)
    then get_backup_url cluster.name b.spec.backup_opts.backup_host cluster.namespace
    else get_xtrabackup_url host

-- The environment of the container, up to the last variable.
unfoldable pub common_env : BackupCluster → Str → List EnvVar
unfolding get_env_var_from_secret
common_env cluster host =
    let secret : Str = cluster.name ++ codes "-secret" in
    env_value (codes "CONTAINER_TYPE") (codes "backup-job")
    ∷ env_value (codes "NAMESPACE") cluster.namespace
    ∷ env_value (codes "CLUSTER_NAME") cluster.name
    ∷ env_value (codes "SERVICE_NAME") (cluster.name ++ codes "-mysql")
    ∷ env_value (codes "HOST_NAME") host
    ∷ (record { name = codes "JOB_NAME"; source = field_ref (codes "metadata.labels['job-name']") })
    ∷ get_env_var_from_secret secret (codes "BACKUP_USER") (codes "backup-user") true
    ∷ get_env_var_from_secret secret (codes "BACKUP_PASSWORD") (codes "backup-password") true
    ∷ []

module _ (around : Surroundings) where
  -- `genBinlogJobTemplate`
  unfoldable pub gen_binlog_job_template : Backup → BackupCluster → S3 → JobSpec
  unfolding s3_env binlog_host
  gen_binlog_job_template b cluster s3 = record {
    labels =
        (codes "Host", binlog_host b)
        ∷ (codes "Type", codes "backup")
        ∷ (codes "Cluster", b.spec.cluster_name)
        ∷ [];
    init_command = some (
        codes "bash"
        ∷ codes "-c"
        ∷ codes "cp /mnt/s3upload /opt/radondb; chown -R 1001.1001 /opt/radondb"
        ∷ []);
    image = codes "percona:8.0";
    args =
        codes "bash"
        ∷ codes "-c"
        ∷ (codes "/opt/radondb/s3upload " ++ (binlog_host b ++ (codes " " ++ around.root_password)))
        ∷ [];
    env =
        s3_env s3.backup_secret_name
        ++ env_value (codes "BACKUP_TYPE") (codes "s3")
          ∷ env_value (codes "CLUSTER_NAME") cluster.name
          ∷ [];
    mounts = (codes "mysql-checker", codes "/opt/radondb") ∷ [];
    volumes = empty_dir (codes "mysql-checker") ∷ [];
    service_account_name = b.spec.cluster_name;
    backoff_limit = none;
    completions = none;
  }

  unfoldable pub backup_job_spec :
      Backup → BackupCluster → Labels → Str → Option S3 → Option Nfs → JobSpec
  unfolding get_image s3_backup_env nfs_volumes nfs_mounts backup_url common_env backup_type_env
  backup_job_spec b cluster job_labels host s3 nfs = record {
    labels = job_labels;
    init_command = none;
    image = get_image around.image_env cluster.backup_image;
    args = codes "request_a_backup" ∷ backup_url b cluster host ∷ [];
    env = common_env cluster host ++ (s3_backup_env s3 ++ backup_type_env s3 nfs ∷ []);
    mounts = nfs_mounts nfs;
    volumes = nfs_volumes nfs;
    service_account_name = b.spec.cluster_name;
    backoff_limit = some 1;
    completions = none;
  }

  unfoldable pub spec_for :
      Backup → BackupCluster → Labels → Str → Option S3 → Option Nfs → Option S3 → Result JobSpec
  unfolding backup_job_spec gen_binlog_job_template
  spec_for b cluster job_labels host (some s3) (some nfs) s3_binlog = err both_error
  spec_for b cluster job_labels host s3 nfs (some s3_binlog) =
      ok (gen_binlog_job_template b cluster s3_binlog)
  spec_for b cluster job_labels host s3 nfs none =
      ok (backup_job_spec b cluster job_labels host s3 nfs)

  -- `generateBackupJobSpec`; `none` is the panic of GetBackupHost.
  unfoldable pub generate_backup_job_spec :
      Backup → BackupCluster → Labels → Option (Result JobSpec)
  unfolding spec_for get_backup_host
  generate_backup_job_spec b cluster job_labels = elim (get_backup_host cluster.nodes) [
    | none ↦ none
    | some host ↦
        let opts = b.spec.backup_opts in
        some (spec_for b cluster job_labels host opts.s3 opts.nfs opts.s3_binlog)
  ]

  -- `createJobPodTemplate` in the job of createBinlogJob
  unfoldable pub binlog_job_spec : Backup → Str → Nfs → JobSpec
  unfolding binlog_host
  binlog_job_spec b backup_dir nfs =
      let host : Str = binlog_host b in
      let password : Str = around.root_password in
      record {
        labels = (codes "app", codes "binlogbackup") ∷ [];
        init_command = some (
            codes "sh"
            ∷ codes "-c"
            ∷ (codes "mkdir /backup/"
                ++ (backup_dir ++ (codes " && chown 1001:1001 /backup/" ++ backup_dir)))
            ∷ []);
        image = codes "percona:8.0";
        args =
            codes "/bin/bash"
            ∷ codes "-c"
            ∷ codes "--"
            ∷ (codes "cd /backup/"
                ++ (backup_dir
                    ++ (codes ";mysql -uroot -p"
                        ++ (password
                            ++ (codes " -h"
                                ++ (host
                                    ++ (codes
                                          " -N -e \"SHOW BINARY LOGS\" | awk '{print \"mysqlbinlog --read-from-remote-server --raw --host="
                                        ++ (host
                                            ++ (codes " --port=3306 --user=root --password="
                                                ++ (password
                                                    ++ codes " --raw\", $1}'|bash"))))))))))
            ∷ [];
        env = [];
        mounts = (codes "nfs-backup", codes "/backup") ∷ [];
        volumes = nfs_volume (codes "nfs-backup") nfs ∷ [];
        service_account_name = [];
        backoff_limit = some 0;
        completions = some 1;
      }
