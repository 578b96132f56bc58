-- ===== src/Sidecar.antt =====
-- sidecar/config.go: the configuration of the init container, as far as it is read here.
pub mod ServerId
pub mod Gtid
pub mod Restore
pub mod Fallback
pub mod Needs
pub mod Done
pub mod Bounds
use radondb_mysql_kubernetes.Prelude.{Bool, Str}

-- Config
pub record Config : Type 0 where
  pub host_name : Str
  pub remote_cluster_name : Str
  pub server_id_start_offset : Str
  pub clone_flag : Bool
  pub restore_point : Str
  pub x_restore_from : Str
  pub x_restore_from_nfs : Str
  pub x_cloud_s3_end_point : Str
  pub x_cloud_s3_access_key : Str
  pub x_cloud_s3_secret_key : Str
  pub x_cloud_s3_bucket : Str
  pub x_remote_date_source : Str
