-- ===== src/Kube/Batch.antt =====
-- The types of k8s.io/api/core/v1 and batch/v1 that a job is made of.
use radondb_mysql_kubernetes.Prelude.{ℕ, Bool, Option, List, Str, Labels}

-- corev1.NFSVolumeSource
pub record Nfs : Type 0 where
  pub server : Str
  pub path : Str

-- corev1.EnvVar: with a value, from the key of a secret, or from a field of the pod.
pub data EnvSource : Type 0 where
  value : Str → EnvSource
  secret_key : Str → Str → Bool → EnvSource
  field_ref : Str → EnvSource

pub record EnvVar : Type 0 where
  pub name : Str
  pub source : EnvSource

-- corev1.Volume: an NFS volume or an empty directory.
pub data Volume : Type 0 where
  nfs_volume : Str → Nfs → Volume
  empty_dir : Str → Volume

-- batchv1.JobSpec with its one container, and the init container where it has one. The tolerations
-- and the affinity of the cluster are passed on as they are, and left out.
pub record JobSpec : Type 0 where
  pub labels : Labels
  pub init_command : Option (List Str)
  pub image : Str
  pub args : List Str
  pub env : List EnvVar
  pub mounts : List (Str × Str)
  pub volumes : List Volume
  pub service_account_name : Str
  pub backoff_limit : Option ℕ
  pub completions : Option ℕ
