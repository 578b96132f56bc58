-- ===== src/Examples/Cluster.antt =====
-- mysqlcluster/mysqlcluster.go at concrete inputs.
use radondb_mysql_kubernetes.Prelude.{◌≡◌, refl, true, false, none, [], ◌∷◌, codes, itoa}
use radondb_mysql_kubernetes.Cluster.{pod_host_name, name_for_resource}
use radondb_mysql_kubernetes.Cluster.Spec.{MysqlCluster}

abbrev pub sample : MysqlCluster
sample = record {
  name = codes "sample";
  namespace = codes "default";
  annotations = [];
  replicas = 3;
  mysql_opts = record {
    image = codes "percona/percona-server:5.7.34";
    user = codes "radondb_usr";
    root_host = codes "localhost";
    init_toku_db = false;
    mysql_conf_template = [];
    mysql_conf = [];
    logfile_pvc = none;
  };
  mysql_version = codes "5.7";
  persistence = record {
    enabled = true;
    access_modes = codes "ReadWriteOnce" ∷ [];
    storage_class = none;
    size = codes "20Gi";
  };
  sidecar_image = codes "radondb/mysql57-sidecar:v3.0.0";
  nfs_server_address = [];
  backup_schedule = [];
  backup_secret_name = [];
  both_s3_nfs = false;
  read_onlys = none;
  tls_secret_name = [];
  source_config = none;
  remote_cluster = none;
}

host_of_first : pod_host_name sample 0 ≡ codes "sample-mysql-0.sample-mysql.default"
unfolding pod_host_name name_for_resource itoa
host_of_first = refl
