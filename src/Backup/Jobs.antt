-- ===== src/Backup/Jobs.antt =====
-- controllers/backup/utils.go and generateBackupJobSpec of controllers/backup/backup_controller.go:
-- when a job is completed or failed, and the job that makes a backup.
use radondb_mysql_kubernetes.Prelude.{
  ℕ, Bool, true, false, not, Option, none, some, List, [], ◌∷◌, ◌++◌, Str, codes, str_eq, is_empty,
  itoa, Labels, if◌then◌else◌,
}
use radondb_mysql_kubernetes.Kube.{
  ConditionStatus, condition_true, condition_false, condition_unknown,
}
use radondb_mysql_kubernetes.Kube.Batch.{EnvVar, value, secret_key}
use radondb_mysql_kubernetes.Status.Types.{NodeStatus, NodeCondition}
use radondb_mysql_kubernetes.Backup.{
  Backup, Job, JobCondition, JobConditionType, job_complete, job_failure,
}

unfoldable pub is_true : ConditionStatus → Bool
is_true condition_true = true
is_true condition_false = false
is_true condition_unknown = false

unfoldable pub is_complete_type : JobConditionType → Bool
is_complete_type job_complete = true
is_complete_type _ = false

unfoldable pub is_failure_type : JobConditionType → Bool
is_failure_type job_failure = true
is_failure_type _ = false

-- The first condition of a kind decides.
unfoldable pub first_condition : (JobConditionType → Bool) → List JobCondition → Bool
unfolding is_true
first_condition is_kind [] = false
first_condition is_kind (c ∷ conditions) =
    let rest = first_condition is_kind conditions in
    if is_kind c.kind then is_true c.status else rest

-- `jobCompleted`
unfoldable pub job_completed : Job → Bool
unfolding first_condition
job_completed job = first_condition is_complete_type job.conditions

-- `jobFailed`
unfoldable pub job_failed : Job → Bool
unfolding first_condition
job_failed job = first_condition is_failure_type job.conditions

abbrev pub label_cluster : Str
label_cluster = codes "backups.mysql.radondb.com/cluster"

abbrev pub label_cron_job : Str
label_cron_job = codes "backups.mysql.radondb.com/cronjob"

abbrev pub label_manual_job : Str
label_manual_job = codes "backups.mysql.radondb.com/manualjob"

-- `ManualBackupLabels`
unfoldable pub manual_backup_labels : Str → Labels
manual_backup_labels name = (label_cluster, name) ∷ (label_manual_job, codes "true") ∷ []

-- `CronBackupLabels`
unfoldable pub cron_backup_labels : Str → Labels
cron_backup_labels name = (label_cluster, name) ∷ (label_cron_job, codes "true") ∷ []

-- The name that ManualBackupJobMeta and CronBackupJobMeta make; `random` is `rand.String(4)`.
unfoldable pub backup_job_name : Str → Str → Str
backup_job_name name random = name ++ (codes "-backup-" ++ random)

unfoldable pub is_false : NodeCondition → Bool
is_false c = elim c.status [
  | condition_false ↦ true
  | condition_true ↦ false
  | condition_unknown ↦ false
]

-- The loop of GetBackupHost, in which the host is this node already where the test names it again;
-- `none` is the panic of `Conditions[0]` on a node without conditions.
unfoldable pub host_from : Str → List NodeStatus → Option Str
unfolding is_false
host_from host [] = some host
host_from host (node ∷ nodes) =
    let rest = host_from node.name nodes in
    if str_eq node.raft_status.role (codes "FOLLOWER")
    then elim node.conditions [ [] ↦ none | c ∷ conditions ↦ if is_false c then rest else rest ]
    else rest

-- `GetBackupHost`
unfoldable pub get_backup_host : List NodeStatus → Option Str
unfolding host_from
get_backup_host nodes = host_from [] nodes

abbrev pub x_backup_port : ℕ
x_backup_port = 8082

-- `GetXtrabackupURL`
unfoldable pub get_xtrabackup_url : Str → Str
get_xtrabackup_url host = host ++ (codes ":" ++ itoa x_backup_port)

-- `GetBackupURL`
unfoldable pub get_backup_url : Str → Str → Str → Str
get_backup_url cluster_name host namespace =
    if not (is_empty host)
    then host
      ++ (codes "."
          ++ (cluster_name
              ++ (codes "-mysql." ++ (namespace ++ (codes ":" ++ itoa x_backup_port)))))
    else cluster_name ++ (codes "-leader." ++ (namespace ++ (codes ":" ++ itoa x_backup_port)))

abbrev pub env_value : Str → Str → EnvVar
env_value n v = record { name = n; source = value v }

-- `getEnvVarFromSecret`
unfoldable pub get_env_var_from_secret : Str → Str → Str → Bool → EnvVar
get_env_var_from_secret secret n key opt = record { name = n; source = secret_key secret key opt }

unfoldable pub s3_env : Str → List EnvVar
unfolding get_env_var_from_secret
s3_env secret =
    get_env_var_from_secret secret (codes "S3_ENDPOINT") (codes "s3-endpoint") false
    ∷ get_env_var_from_secret secret (codes "S3_ACCESSKEY") (codes "s3-access-key") true
    ∷ get_env_var_from_secret secret (codes "S3_SECRETKEY") (codes "s3-secret-key") true
    ∷ get_env_var_from_secret secret (codes "S3_BUCKET") (codes "s3-bucket") true
    ∷ []

-- The host that a binlog job reads.
unfoldable pub binlog_host : Backup → Str
binlog_host b =
    if not (is_empty b.spec.backup_opts.backup_host)
    then b.spec.backup_opts.backup_host
      ++ (codes "." ++ (b.spec.cluster_name ++ (codes "-mysql." ++ b.namespace)))
    else b.spec.cluster_name ++ codes "-follower"
