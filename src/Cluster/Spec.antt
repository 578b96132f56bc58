-- ===== src/Cluster/Spec.antt =====
-- api/v1alpha1/mysqlcluster_types.go: the fields of MysqlCluster that the operator's code reads.
use radondb_mysql_kubernetes.Prelude.{ℕ, Bool, Option, List, Str, Labels}

-- LogPVC
pub record LogPvc : Type 0 where
  pub access_modes : List Str
  pub storage_class : Option Str
  pub size : Str

-- MysqlOpts
pub record MysqlOpts : Type 0 where
  pub image : Str
  pub user : Str
  pub root_host : Str
  pub init_toku_db : Bool
  pub mysql_conf_template : Str
  pub mysql_conf : Labels
  pub logfile_pvc : Option LogPvc

-- Persistence, with the size as it is written
pub record Persistence : Type 0 where
  pub enabled : Bool
  pub access_modes : List Str
  pub storage_class : Option Str
  pub size : Str

-- ReadOnlyType
pub record ReadOnlyType : Type 0 where
  pub num : ℕ
  pub host : Str

-- RemoteClusterType
pub record RemoteClusterRef : Type 0 where
  pub name : Str
  pub namespace : Str

-- MysqlCluster with its metadata and spec. `replicas` stands for `*Spec.Replicas`: the schema's
-- default is 3 and it admits 0, 1, 2, 3 and 5 alone, so the pointer is set and not negative.
pub record MysqlCluster : Type 0 where
  pub name : Str
  pub namespace : Str
  pub annotations : Labels
  pub replicas : ℕ
  pub mysql_opts : MysqlOpts
  pub mysql_version : Str
  pub persistence : Persistence
  pub sidecar_image : Str
  pub nfs_server_address : Str
  pub backup_schedule : Str
  pub backup_secret_name : Str
  -- whether `BothS3NFS` is not nil
  pub both_s3_nfs : Bool
  pub read_onlys : Option ReadOnlyType
  pub tls_secret_name : Str
  -- the secret of `SourceConfig`
  pub source_config : Option Str
  pub remote_cluster : Option RemoteClusterRef
