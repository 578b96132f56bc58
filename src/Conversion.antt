-- ===== src/Conversion.antt =====
-- api/v1beta1/mysqlcluster_conversion.go: the conversions of a MysqlCluster and of the status of a
-- Backup between v1alpha1, the hub, and v1beta1. Parts that are passed on as they are, such as
-- resource requirements, are of the type `Part`.
pub mod Sources
pub mod Specs
pub mod Statuses
use radondb_mysql_kubernetes.Prelude.{
  ℕ, ℤ, pos, Bool, true, false, not, ◌&&◌, Option, none, some, List, [], ◌∷◌, ◌++◌, Str, codes,
  Labels, is_empty, split, Error, Result, ok, err, if◌then◌else◌, length, ◌==◌,
}
use radondb_mysql_kubernetes.Kube.{
  ConditionStatus, condition_true, condition_false, condition_unknown,
}
use radondb_mysql_kubernetes.Kube.Batch.{Nfs}
use radondb_mysql_kubernetes.Backup.{
  BackupInitiator, ManualBackupStatus, ScheduledBackupStatus, BackupState, backup_succeeded,
  backup_failed, backup_start, backup_active,
}

-- S3BackupDataSource
pub record S3Source : Type 0 where
  pub name : Str
  pub secret_name : Str

-- NFSBackupDataSource; of its volume also whether it is read-only.
pub record NfsSource : Type 0 where
  pub name : Str
  pub volume : Nfs
  pub read_only : Bool

-- DataSource of v1beta1
pub record DataSource (Part : Type 0) : Type 0 where
  pub source_config : Option Part
  pub remote_cluster : Option Part
  pub s3_backup : S3Source
  pub nfs_backup : Option NfsSource
  pub restore_point : Str

-- The fields of MysqlClusterSpec of v1alpha1 that say where the data comes from.
pub record AlphaSource (Part : Type 0) : Type 0 where
  pub source_config : Option Part
  pub remote_cluster : Option Part
  pub restore_from : Str
  pub backup_secret_name : Str
  pub restore_point : Str
  pub nfs_server_address : Str

-- PersistentVolumeClaimSpec: its access modes, storage class and requested storage, and its other
-- fields (selector, volume name, limits and the rest) with their values, by their names.
pub record PvcSpec (Quantity : Type 0) : Type 0 where
  pub access_modes : List Str
  pub storage_class : Option Str
  pub size : Quantity
  pub others : Labels

-- Persistence and LogPVC of v1alpha1
pub record Claim : Type 0 where
  pub access_modes : List Str
  pub storage_class : Option Str
  pub size : Str

-- SecretProjection: the name of the secret, the items, by key and path, and whether it is optional
pub record SecretProjection : Type 0 where
  pub name : Str
  pub items : Labels
  pub optional : Option Bool

-- XenonOpts
pub record XenonOpts (Part : Type 0) : Type 0 where
  pub image : Str
  pub admit_defeat_hearbeat_count : Option ℤ
  pub election_timeout : Option ℤ
  pub enable_auto_rebuild : Bool
  pub resources : Part

-- The fields that both versions have, under this name or another.
pub record Common (Part : Type 0) : Type 0 where
  pub replicas : Option ℤ
  pub read_onlys : Option Part
  pub replica_lag : Option ℤ
  pub mysql_version : Str
  pub min_available : Str
  pub leader_as_follower : Bool
  pub server_id_offset : ℤ
  pub user : Str
  pub config_template : Str
  pub mysql_conf : Labels
  pub plugin_conf : Labels
  pub resources : Part
  pub image : Str
  pub exporter_image : Str
  pub exporter_enabled : Bool
  pub exporter_resources : Part
  pub affinity : Option Part
  pub image_pull_policy : Str
  pub sidecar_image : Str
  pub extra_resources : Part
  pub slow_log_tail : Bool
  pub audit_log_tail : Bool
  pub tolerations : List Part
  pub priority_class_name : Str
  pub busybox_image : Str

-- MysqlClusterSpec of v1beta1
pub record BetaSpec (Part Quantity : Type 0) : Type 0 where
  pub common : Common Part
  pub custom_tls_secret : Option SecretProjection
  pub storage : PvcSpec Quantity
  pub xenon : XenonOpts Part
  pub max_lag_seconds : ℤ
  pub data_source : DataSource Part
  pub exporter_tls : Option SecretProjection
  pub standby : Option Part
  pub enable_auto_rebuild : Bool
  pub logfile_pvc : Option (PvcSpec Quantity)
  pub log_resources : Part
  pub service : Option Part

-- MysqlClusterSpec of v1alpha1
pub record AlphaSpec (Part : Type 0) : Type 0 where
  pub common : Common Part
  pub tls_secret_name : Str
  pub persistence : Claim
  pub xenon_opts : XenonOpts Part
  pub max_lag_seconds : ℤ
  pub source : AlphaSource Part
  pub logfile_pvc : Option Claim

-- `FormatQuantity`, over the two functions of resource.Quantity
unfoldable pub format_quantity :
    {Quantity : Type 0} → (Quantity → Bool) → (Quantity → Str) → Quantity → Str
format_quantity is_zero to_string q = if is_zero q then [] else to_string q

-- `fmt.Sprintf("%s:%s", ...)`
unfoldable pub nfs_address : Nfs → Str
nfs_address volume = volume.server ++ 58 ∷ volume.path

abbrev first_part : List Str → Str
first_part [] = []
first_part (x ∷ parts) = x

abbrev nfs_path : List Str → Str
nfs_path (server ∷ path ∷ []) = path
nfs_path _ = codes "/"

unfoldable pub nfs_of : Str → Str → Option NfsSource
nfs_of name address =
    if not (is_empty address)
    then some (record {
      name = name;
      volume = record {
        server = first_part (split address 58);
        path = nfs_path (split address 58);
      };
      read_only = false;
    })
    else none

module _ {Part : Type 0} where
  -- The data source, to v1alpha1
  unfoldable pub source_to_alpha : DataSource Part → AlphaSource Part
  unfolding nfs_address
  source_to_alpha d =
      let has_s3 : Bool = not (is_empty d.s3_backup.name) in
      record {
        source_config = d.source_config;
        remote_cluster = d.remote_cluster;
        restore_from = elim d.nfs_backup [
          | some nfs ↦ nfs.name
          | none ↦ if has_s3 then d.s3_backup.name else []
        ];
        backup_secret_name = if has_s3 then d.s3_backup.secret_name else [];
        restore_point = elim d.nfs_backup [
          | some nfs ↦ d.restore_point
          | none ↦ if has_s3 then d.restore_point else []
        ];
        nfs_server_address = elim d.nfs_backup [ some nfs ↦ nfs_address nfs.volume | none ↦ [] ];
      }

  -- and back
  unfoldable pub source_to_beta : AlphaSource Part → DataSource Part
  unfolding nfs_of
  source_to_beta a =
      let has_secret : Bool = not (is_empty a.backup_secret_name) in
      let has_nfs : Bool = not (is_empty a.nfs_server_address) in
      record {
        source_config = a.source_config;
        remote_cluster = a.remote_cluster;
        s3_backup =
            if has_secret
            then record { name = a.restore_from; secret_name = a.backup_secret_name }
            else record { name = []; secret_name = [] };
        nfs_backup = nfs_of a.restore_from a.nfs_server_address;
        restore_point =
            if has_nfs then a.restore_point else if has_secret then a.restore_point else [];
      }

unfoldable pub tls_to_alpha : Option SecretProjection → Str
tls_to_alpha none = []
tls_to_alpha (some secret) = secret.name

unfoldable pub tls_to_beta : Str → Option SecretProjection
tls_to_beta name =
    if is_empty name then none else some (record { name = name; items = []; optional = none })

module _ {Quantity : Type 0} (must_parse : Str → Option Quantity) (format : Quantity → Str) where
  unfoldable pub claim_to_alpha : PvcSpec Quantity → Claim
  claim_to_alpha c = record {
    access_modes = c.access_modes;
    storage_class = c.storage_class;
    size = format c.size;
  }

  unfoldable pub claim_to_beta : Claim → Option (PvcSpec Quantity)
  claim_to_beta c = elim (must_parse c.size) [
    | none ↦ none
    | some q ↦ some (record {
      access_modes = c.access_modes;
      storage_class = c.storage_class;
      size = q;
      others = [];
    })
  ]

  unfoldable pub logfile_to_alpha : Option (PvcSpec Quantity) → Option Claim
  unfolding claim_to_alpha
  logfile_to_alpha none = none
  logfile_to_alpha (some c) = some (claim_to_alpha c)

  -- The outer `none` is a panic of MustParse.
  unfoldable pub logfile_to_beta : Option Claim → Option (Option (PvcSpec Quantity))
  unfolding claim_to_beta
  logfile_to_beta none = some none
  logfile_to_beta (some c) = elim (claim_to_beta c) [ none ↦ none | some q ↦ some (some q) ]

module _ {Part Quantity : Type 0} (must_parse : Str → Option Quantity)
    (format : Quantity → Str) where
  -- `Convert_v1beta1_MysqlClusterSpec_To_v1alpha1_MysqlClusterSpec`
  unfoldable pub spec_to_alpha : BetaSpec Part Quantity → AlphaSpec Part
  unfolding source_to_alpha claim_to_alpha logfile_to_alpha tls_to_alpha
  spec_to_alpha s = record {
    common = s.common;
    tls_secret_name = tls_to_alpha s.custom_tls_secret;
    persistence = claim_to_alpha must_parse format s.storage;
    xenon_opts = record s.xenon { enable_auto_rebuild = s.enable_auto_rebuild };
    max_lag_seconds = pos 0;
    source = source_to_alpha s.data_source;
    logfile_pvc = logfile_to_alpha must_parse format s.logfile_pvc;
  }

  unfoldable pub beta_with :
      AlphaSpec Part → PvcSpec Quantity → Option (PvcSpec Quantity) → BetaSpec Part Quantity
  unfolding source_to_beta tls_to_beta
  beta_with a storage logfile = record {
    common = a.common;
    custom_tls_secret = tls_to_beta a.tls_secret_name;
    storage = storage;
    xenon = a.xenon_opts;
    max_lag_seconds = a.max_lag_seconds;
    data_source = source_to_beta a.source;
    exporter_tls = none;
    standby = none;
    enable_auto_rebuild = false;
    logfile_pvc = logfile;
    log_resources = a.common.extra_resources;
    service = none;
  }

  -- `Convert_v1alpha1_MysqlClusterSpec_To_v1beta1_MysqlClusterSpec`; `none` is a panic.
  unfoldable pub spec_to_beta : AlphaSpec Part → Option (BetaSpec Part Quantity)
  unfolding beta_with logfile_to_beta claim_to_beta
  spec_to_beta a = elim (logfile_to_beta must_parse format a.logfile_pvc) [
    | none ↦ none
    | some logfile ↦ elim (claim_to_beta must_parse format a.persistence) [
      | none ↦ none
      | some storage ↦ some (beta_with a storage logfile)
    ]
  ]

-- BackupConditionType of v1alpha1
pub data AlphaConditionType : Type 0 where
  alpha_complete alpha_failed alpha_start : AlphaConditionType

-- BackupCondition: the fields that are read
pub record AlphaCondition : Type 0 where
  pub kind : AlphaConditionType
  pub status : ConditionStatus

-- BackupStatus of v1beta1; a `Time` is an instant with its zone.
pub record BetaBackupStatus (Time : Type 0) : Type 0 where
  pub initiator : Option BackupInitiator
  pub backup_name : Str
  pub backup_size : Str
  pub backup_type : Str
  pub start_time : Option Time
  pub completion_time : Option Time
  pub state : Option BackupState
  pub gtid : Str
  pub manual_backup : Option ManualBackupStatus
  pub scheduled_backups : List ScheduledBackupStatus

-- BackupStatus of v1alpha1
pub record AlphaBackupStatus : Type 0 where
  pub completed : Bool
  pub backup_name : Str
  pub backup_date : Str
  pub backup_type : Str
  pub gtid : Str
  pub conditions : List AlphaCondition

abbrev truly : AlphaConditionType → AlphaCondition
truly k = record { kind = k; status = condition_true }

unfoldable pub conditions_of : Option BackupState → List AlphaCondition
conditions_of (some backup_failed) = truly alpha_start ∷ truly alpha_failed ∷ []
conditions_of (some backup_succeeded) = truly alpha_start ∷ truly alpha_complete ∷ []
conditions_of _ = []

unfoldable pub is_completed : Option BackupState → Bool
is_completed (some backup_failed) = true
is_completed (some backup_succeeded) = true
is_completed _ = false

abbrev holds : ConditionStatus → Bool
holds condition_true = true
holds condition_false = false
holds condition_unknown = false

abbrev is_success : BackupState → Bool
is_success backup_succeeded = true
is_success backup_failed = false
is_success backup_start = false
is_success backup_active = false

-- The loop over the conditions, from the state that it has found.
unfoldable pub state_from : BackupState → List AlphaCondition → BackupState
state_from state [] = state
state_from state (c ∷ conditions) = elim c.kind [
  | alpha_complete ↦ if holds c.status then backup_succeeded else state_from state conditions
  | alpha_failed ↦ state_from state conditions
  | alpha_start ↦
      state_from (if holds c.status && not (is_success state) then backup_start else state)
        conditions
]

module _ {Time : Type 0} (format_time : Time → Str) (parse_time : Str → Result Time) where
  unfoldable pub date_of : Option Time → Str
  date_of none = []
  date_of (some t) = format_time t

  -- `Convert_v1beta1_BackupStatus_To_v1alpha1_BackupStatus`
  unfoldable pub status_to_alpha : BetaBackupStatus Time → AlphaBackupStatus
  unfolding date_of conditions_of is_completed
  status_to_alpha s = record {
    completed = is_completed s.state;
    backup_name = s.backup_name;
    backup_date = date_of s.completion_time;
    backup_type = s.backup_type;
    gtid = s.gtid;
    conditions = conditions_of s.state;
  }

  -- `Convert_v1alpha1_BackupStatus_To_v1beta1_BackupStatus`
  unfoldable pub status_to_beta : AlphaBackupStatus → Result (BetaBackupStatus Time)
  unfolding state_from
  status_to_beta a = elim (parse_time a.backup_date) [
    | err e ↦ err e
    | ok t ↦ ok (record {
      initiator = none;
      backup_name = a.backup_name;
      backup_size = [];
      backup_type = a.backup_type;
      start_time = none;
      completion_time = some t;
      state = if a.completed then some (state_from backup_failed a.conditions) else none;
      gtid = a.gtid;
      manual_backup = none;
      scheduled_backups = [];
    })
  ]
