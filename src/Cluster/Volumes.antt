-- ===== src/Cluster/Volumes.antt =====
-- mysqlcluster.go: EnsureVolumes and EnsureVolumeClaimTemplates, the volumes and the volume claims
-- of the pods of a cluster, and ParseIPAndPath of utils/common.go.
pub mod Names
pub mod Provided
use radondb_mysql_kubernetes.Prelude.{
  ℕ, ◌==◌, Bool, true, false, not, ◌&&◌, Option, none, some, List, [], ◌∷◌, ◌++◌, Str, codes, Error,
  Result, ok, err, Labels, is_empty, split, str_eq, if◌then◌else◌,
}
use radondb_mysql_kubernetes.Cluster.{
  name_for_resource, get_labels, config_map, xenon_meta_data, remote_cluster,
}
use radondb_mysql_kubernetes.Cluster.Spec.{MysqlCluster, Persistence, LogPvc, RemoteClusterRef}

-- corev1.VolumeSource; a config map has its mode, where it is set.
pub data VolumeSource : Type 0 where
  empty_dir : VolumeSource
  host_path secret projected : Str → VolumeSource
  config_map_source : Str → Option ℕ → VolumeSource
  nfs : Str → Str → VolumeSource

-- corev1.Volume
pub record Volume : Type 0 where
  pub name : Str
  pub source : VolumeSource

-- `ParseIPAndPath`
unfoldable pub parse_ip_and_path : Str → Str × Str
parse_ip_and_path nfsaddr = elim (split nfsaddr b':') [
  | ip ∷ path ∷ [] ↦ (ip, path)
  | ip ∷ rest ↦ (ip, codes "/")
  | [] ↦ ([], codes "/")
]

abbrev is_set {ℓ} : {A : Type ℓ} → Option A → Bool
is_set none = false
is_set (some a) = true

-- `if b { volumes = append(volumes, vs...) }`
abbrev when {ℓ} : {A : Type ℓ} → Bool → List A → List A
when true xs = xs
when false xs = []

unfoldable pub scratch : Str → Volume
scratch name = record { name = name; source = empty_dir }

-- The volume of a projected source, where there is one.
source_volumes : Option Str → List Volume
source_volumes none = []
source_volumes (some name) = record { name = codes "rsrc"; source = projected name } ∷ []

-- The volumes that every pod has.
fixed_volumes : MysqlCluster → List Volume
unfolding scratch
fixed_volumes c =
    scratch (codes "mysql-conf")
    ∷ record {
      name = codes "mysql-cm";
      source = config_map_source (name_for_resource c config_map) none;
    }
    ∷ record {
      name = codes "xenon-cm";
      source = config_map_source (name_for_resource c xenon_meta_data) none;
    }
    ∷ scratch (codes "xenon-meta")
    ∷ scratch (codes "scripts")
    ∷ scratch (codes "xenon-conf")
    ∷ scratch (codes "init-mysql")
    ∷ record { name = codes "localtime"; source = host_path (codes "/etc/localtime") }
    ∷ []

nfs_volume : Str → Volume
unfolding parse_ip_and_path
nfs_volume address =
    let (ip, path) = parse_ip_and_path address in
    record { name = codes "backup"; source = nfs ip path }

tls_volumes : Str → List Volume
unfolding scratch
tls_volumes name =
    record { name = codes "tls-sidecar"; source = secret name } ∷ scratch (codes "tls") ∷ []

remote_volume : MysqlCluster → Volume
remote_volume c = record {
  name = codes "remote-cluster-cm";
  source = config_map_source (name_for_resource c remote_cluster) (some 511);
}

transparent_hugepage : Volume
transparent_hugepage = record {
  name = codes "host-sys";
  source = host_path (codes "/sys/kernel/mm/transparent_hugepage");
}

-- The volumes that EnsureVolumes appends after the fixed ones.
later_volumes : MysqlCluster → List Volume
unfolding nfs_volume tls_volumes source_volumes remote_volume scratch
later_volumes c =
    when (not (is_empty c.nfs_server_address)) (nfs_volume c.nfs_server_address ∷ [])
    ++ (when (not (is_empty c.tls_secret_name)) (tls_volumes c.tls_secret_name)
        ++ (scratch (codes "mysql-checker")
            ∷ (source_volumes c.source_config
                ++ when (is_set c.remote_cluster) (remote_volume c ∷ []))))

-- `EnsureVolumes`
unfoldable pub ensure_volumes : MysqlCluster → List Volume
unfolding scratch transparent_hugepage fixed_volumes later_volumes
ensure_volumes c =
    when (not c.persistence.enabled) (scratch (codes "data") ∷ [])
    ++ (when c.mysql_opts.init_toku_db (transparent_hugepage ∷ [])
        ++ (when (not (is_set c.mysql_opts.logfile_pvc)) (scratch (codes "logs") ∷ [])
            ++ (fixed_volumes c ++ later_volumes c)))

-- corev1.PersistentVolumeClaim, with the requested storage as it is written
pub record Claim : Type 0 where
  pub name : Str
  pub namespace : Str
  pub labels : Labels
  pub access_modes : List Str
  pub storage : Str
  pub storage_class : Option Str

-- "-" stands for the empty storage class.
unfoldable pub storage_class_of : Option Str → Option Str
storage_class_of none = none
storage_class_of (some storage_class) =
    if str_eq storage_class (codes "-") then some [] else some storage_class

-- A claim of this name, with what Persistence asks for.
claim : MysqlCluster → Str → Claim
claim c name = record {
  name = name;
  namespace = c.namespace;
  labels = get_labels c;
  access_modes = c.persistence.access_modes;
  storage = c.persistence.size;
  storage_class = c.persistence.storage_class;
}

-- The spec after the storage classes have been rewritten in place.
set_data_class : MysqlCluster → MysqlCluster
unfolding storage_class_of
set_data_class c = record c {
  persistence = record (c.persistence) {
    storage_class = storage_class_of c.persistence.storage_class;
  };
}

set_log_class : MysqlCluster → LogPvc → MysqlCluster
unfolding storage_class_of
set_log_class c log = record c {
  mysql_opts = record (c.mysql_opts) {
    logfile_pvc = some (record log { storage_class = storage_class_of log.storage_class });
  };
}

with_data_class : MysqlCluster → MysqlCluster
unfolding set_data_class
with_data_class c = if c.persistence.enabled then set_data_class c else c

-- The spec that EnsureVolumeClaimTemplates leaves, where it returns no error.
unfoldable pub rewritten_spec : MysqlCluster → MysqlCluster
unfolding with_data_class set_log_class
rewritten_spec c = elim (with_data_class c).mysql_opts.logfile_pvc [
  | none ↦ with_data_class c
  | some log ↦ set_log_class (with_data_class c) log
]

-- `resource.MustParse` panics for a text that is no quantity (`none`); `own` is the error of
-- `SetControllerReference` for the claim of this name.
module _ (is_quantity : Str → Bool) (own : Str → Option Error) where
  -- One claim, appended to those before it.
  add_claim : MysqlCluster → Str → List Claim → Option (Result (List Claim))
  unfolding claim
  add_claim c name claims =
      if is_quantity c.persistence.size
      then elim (own name) [
        | none ↦ some (ok (claims ++ claim c name ∷ []))
        | some e ↦ some (err (codes "failed setting controller reference: " ++ e))
      ]
      else none

  data_claims : MysqlCluster → Option (Result (List Claim))
  unfolding add_claim
  data_claims c = if c.persistence.enabled then add_claim c (codes "data") [] else some (ok [])

  log_claims :
      MysqlCluster → Option LogPvc → Option (Result (List Claim)) → Option (Result (List Claim))
  unfolding add_claim
  log_claims c none res = res
  log_claims c (some log) none = none
  log_claims c (some log) (some (err e)) = some (err e)
  log_claims c (some log) (some (ok claims)) = add_claim c (codes "logs") claims

  -- `EnsureVolumeClaimTemplates`: the claims, none of them without persistence and log claim.
  unfoldable pub ensure_volume_claim_templates : MysqlCluster → Option (Result (List Claim))
  unfolding data_claims log_claims with_data_class
  ensure_volume_claim_templates c =
      log_claims (with_data_class c) (with_data_class c).mysql_opts.logfile_pvc
        (data_claims (with_data_class c))
