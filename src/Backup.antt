-- ===== src/Backup.antt =====
-- api/v1beta1/backup_types.go: the Backup resource with its status, and the jobs, cron jobs and
-- cluster as controllers/backup reads them.
pub mod Jobs
pub mod Template
pub mod Manual
pub mod Cron
pub mod Hosts
pub mod Finished
pub mod Rounds
pub mod Kinds
pub mod ManualCalls
pub mod Calls
pub mod JobEnv
pub mod CronName
pub mod Owners
use radondb_mysql_kubernetes.Prelude.{ℕ, Bool, false, Option, none, [], List, Str, Labels}
use radondb_mysql_kubernetes.Kube.{ConditionStatus}
use radondb_mysql_kubernetes.Kube.Batch.{Nfs}
use radondb_mysql_kubernetes.Status.Types.{NodeStatus}

-- BackupConditionType; the empty string is `none` of an option.
pub data BackupState : Type 0 where
  backup_succeeded backup_failed backup_start backup_active : BackupState

-- BackupInitiator
pub data BackupInitiator : Type 0 where
  cron_job_initiator manual_initiator : BackupInitiator

-- S3 and S3Binlog
pub record S3 : Type 0 where
  pub backup_secret_name : Str

-- BackupOps
pub record BackupOps : Type 0 where
  pub backup_host : Str
  pub s3 : Option S3
  pub nfs : Option Nfs
  pub s3_binlog : Option S3

-- BackupSpec: the fields that the controller reads; of BackupSchedule the cron expression.
pub record BackupSpec : Type 0 where
  pub cluster_name : Str
  pub backup_schedule : Option Str
  pub backup_opts : BackupOps

-- ManualBackupStatus
pub record ManualBackupStatus : Type 0 where
  pub finished : Bool
  pub backup_name : Str
  pub start_time : Option ℕ
  pub completion_time : Option ℕ
  pub succeeded : ℕ
  pub active : ℕ
  pub failed : ℕ
  pub reason : Str
  pub backup_type : Str
  pub backup_size : Str
  pub gtid : Str
  pub state : Option BackupState

-- ScheduledBackupStatus
pub record ScheduledBackupStatus : Type 0 where
  pub cron_job_name : Str
  pub backup_name : Str
  pub finished : Bool
  pub backup_type : Str
  pub start_time : Option ℕ
  pub completion_time : Option ℕ
  pub succeeded : ℕ
  pub failed : ℕ
  pub reason : Str
  pub backup_size : Str
  pub gtid : Str
  pub state : Option BackupState

-- BackupStatus
pub record BackupStatus : Type 0 where
  pub initiator : Option BackupInitiator
  pub backup_name : Str
  pub backup_size : Str
  pub backup_type : Str
  pub start_time : Option ℕ
  pub completion_time : Option ℕ
  pub state : Option BackupState
  pub gtid : Str
  pub manual_backup : Option ManualBackupStatus
  pub scheduled_backups : List ScheduledBackupStatus

-- Backup
pub record Backup : Type 0 where
  pub name : Str
  pub namespace : Str
  pub labels : Labels
  pub spec : BackupSpec
  pub status : BackupStatus

-- batchv1.JobConditionType, with one constructor for the types that no code here names
pub data JobConditionType : Type 0 where
  job_complete job_failure other_job_condition : JobConditionType

pub record JobCondition : Type 0 where
  pub kind : JobConditionType
  pub status : ConditionStatus

-- batchv1.Job; `owners` has the names of the owner references.
pub record Job : Type 0 where
  pub name : Str
  pub labels : Labels
  pub annotations : Labels
  pub owners : List Str
  pub conditions : List JobCondition
  pub start_time : Option ℕ
  pub completion_time : Option ℕ
  pub active : ℕ
  pub succeeded : ℕ
  pub failed : ℕ

-- batchv1.CronJob: `deleted` says whether `DeletionTimestamp` is not nil.
pub record CronJob : Type 0 where
  pub name : Str
  pub labels : Labels
  pub deleted : Bool

-- v1beta1.MysqlCluster: what the controller reads of it.
pub record BackupCluster : Type 0 where
  pub name : Str
  pub namespace : Str
  pub backup_image : Str
  -- whether the state is ClusterReadyState
  pub ready : Bool
  -- whether `Standby` is not nil
  pub standby : Bool
  pub last_backup : Str
  pub last_backup_gtid : Str
  pub nodes : List NodeStatus

-- The status of a manual backup that has just been seen.
abbrev pub new_manual_status : ManualBackupStatus
new_manual_status = record {
  finished = false;
  backup_name = [];
  start_time = none;
  completion_time = none;
  succeeded = 0;
  active = 0;
  failed = 0;
  reason = [];
  backup_type = [];
  backup_size = [];
  gtid = [];
  state = none;
}
