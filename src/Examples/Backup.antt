-- ===== src/Examples/Backup.antt =====
-- Backups at concrete inputs.
use radondb_mysql_kubernetes.Prelude.{
  ◌≡◌, ◌↔◌, ◌⊎◌, refl, true, false, Option, none, some, [], ◌∷◌, codes, In, ok, err, All,
  find_label, is_empty, label, str_eq,
}
use radondb_mysql_kubernetes.Kube.{update_backup}
use radondb_mysql_kubernetes.Examples.Pods.{willing}
use radondb_mysql_kubernetes.Status.Types.{NodeStatus}
use radondb_mysql_kubernetes.Cluster.Image.{no_image_env}
use radondb_mysql_kubernetes.Backup.{
  Backup, BackupStatus, BackupCluster, Job, CronJob, new_manual_status, ManualBackupStatus,
}
use radondb_mysql_kubernetes.Backup.Jobs.{cron_backup_labels, get_backup_host}
use radondb_mysql_kubernetes.Backup.Template.{Surroundings, generate_backup_job_spec, both_error}
use radondb_mysql_kubernetes.Backup.Manual.{
  manual_status, find_current, reconcile_manual_backup, Round, is_finished,
}
use radondb_mysql_kubernetes.Backup.Cron.{reconcile}
use radondb_mysql_kubernetes.Backup.Hosts.{HostFound, get_backup_host_lem}
use radondb_mysql_kubernetes.Backup.Finished.{Settled}
use radondb_mysql_kubernetes.Backup.Rounds.{Rounds, Rounds-Settled}
use radondb_mysql_kubernetes.Backup.JobEnv.{JobFor, generate_backup_job_spec-JobFor}
use radondb_mysql_kubernetes.Backup.Kinds.{KindCall}
use radondb_mysql_kubernetes.Backup.Calls.{reconcile-KindCall}
use radondb_mysql_kubernetes.Backup.Owners.{Orphan, find_current_panics_iff}

abbrev follower : NodeStatus
follower = record {
  name = codes "sample-mysql-1";
  message = [];
  raft_status = record { role = codes "FOLLOWER"; leader = codes "sample-mysql-0"; nodes = [] };
  ro_status = none;
  conditions = [];
}

abbrev leader : NodeStatus
leader = record {
  name = codes "sample-mysql-0";
  message = [];
  raft_status = record { role = codes "LEADER"; leader = codes "sample-mysql-0"; nodes = [] };
  ro_status = none;
  conditions = [];
}

abbrev cluster : BackupCluster
cluster = record {
  name = codes "sample";
  namespace = codes "default";
  backup_image = codes "radondb/mysql57-sidecar:v2.2.0";
  ready = true;
  standby = false;
  last_backup = [];
  last_backup_gtid = [];
  nodes = leader ∷ [];
}

abbrev around : Surroundings
around = record { image_env = no_image_env; root_password = codes "secret" }

abbrev no_status : BackupStatus
no_status = record {
  initiator = none;
  backup_name = [];
  backup_size = [];
  backup_type = [];
  start_time = none;
  completion_time = none;
  state = none;
  gtid = [];
  manual_backup = none;
  scheduled_backups = [];
}

abbrev manual : Backup
manual = record {
  name = codes "backup-1";
  namespace = codes "default";
  labels = (codes "cluster", codes "sample") ∷ [];
  spec = record {
    cluster_name = codes "sample";
    backup_schedule = none;
    backup_opts = record {
      backup_host = [];
      s3 = some (record { backup_secret_name = codes "s3" });
      nfs = none;
      s3_binlog = none;
    };
  };
  status = no_status;
}

abbrev finished_status : ManualBackupStatus
finished_status = record new_manual_status { finished = true }

abbrev finished : Backup
finished = record manual {
  labels = [];
  status = record no_status { manual_backup = some finished_status };
}

abbrev job : Job
job = record {
  name = codes "sample-backup-x";
  labels = [];
  annotations = [];
  owners = codes "backup-1" ∷ [];
  conditions = [];
  start_time = some 10;
  completion_time = none;
  active = 1;
  succeeded = 0;
  failed = 0;
}

abbrev cron_job : CronJob
cron_job = record {
  name = codes "sample-backup-y";
  labels = cron_backup_labels (codes "sample");
  deleted = false;
}

abbrev scheduled : Backup
scheduled = record manual {
  spec = record manual.spec { backup_schedule = some (codes "0 0 * * *") };
}

get_backup_host_lem_example : HostFound [] (leader ∷ follower ∷ []) none
unfolding get_backup_host str_eq
get_backup_host_lem_example = get_backup_host_lem (leader ∷ follower ∷ [])

abbrev settled_round : Round
settled_round = record {
  error = none;
  backup = record finished {
    labels = (codes "cluster", codes "sample") ∷ [];
    status = manual_status (some job) finished.status;
  };
  trace = update_backup (codes "backup-1") ((codes "cluster", codes "sample") ∷ []) ∷ [];
}

settles :
    reconcile_manual_backup willing around (codes "abcd") finished (job ∷ []) cluster []
    ≡ some settled_round
unfolding reconcile_manual_backup is_empty label find_label str_eq
settles = refl

Rounds-Settled_example : Settled finished [] settled_round
unfolding is_finished
Rounds-Settled_example =
    Rounds-Settled willing around (codes "abcd") (job ∷ []) cluster [] settled_round refl
      (Rounds.no_round) settles

find_current_panics_iff_example :
    (find_current (codes "backup-1") (record job { owners = [] } ∷ job ∷ []) ≡ none)
    ↔ Orphan (codes "backup-1") (record job { owners = [] } ∷ job ∷ [])
find_current_panics_iff_example =
    find_current_panics_iff (codes "backup-1") (record job { owners = [] } ∷ job ∷ [])

-- With S3 and NFS both, there is no job.
abbrev both : Backup
both = record manual {
  spec = record manual.spec {
    backup_opts = record manual.spec.backup_opts {
      nfs = some (record { server = codes "10.0.0.1"; path = codes "/" });
    };
  };
}

refused : generate_backup_job_spec around both cluster [] ≡ some (err both_error)
unfolding generate_backup_job_spec str_eq
refused = refl

generate_backup_job_spec-JobFor_example :
    JobFor both.spec.backup_opts.s3 both.spec.backup_opts.nfs both.spec.backup_opts.s3_binlog
      (err both_error)
generate_backup_job_spec-JobFor_example =
    generate_backup_job_spec-JobFor around both cluster [] (err both_error) refused

abbrev round_of : Option Round → Round
round_of none = settled_round
round_of (some r) = r

-- The round of a backup with a schedule, whose cluster has no cron job yet.
abbrev scheduled_round : Round
scheduled_round =
    round_of (
      reconcile willing around (codes "abcd") (λ s t. true) scheduled (ok (job ∷ [], [])) cluster
        [])

rounds :
    reconcile willing around (codes "abcd") (λ s t. true) scheduled (ok (job ∷ [], [])) cluster []
    ≡ some scheduled_round
unfolding reconcile is_empty label find_label str_eq
rounds = refl

reconcile-KindCall_example :
    (scheduled_round.backup.spec.backup_schedule ≡ some (codes "0 0 * * *"))
    × All (λ c. In c [] ⊎ KindCall (some (codes "0 0 * * *")) c) scheduled_round.trace
reconcile-KindCall_example =
    reconcile-KindCall willing around (codes "abcd") (λ s t. true) scheduled (ok (job ∷ [], []))
      cluster [] scheduled_round rounds
