-- ===== src/Examples/Pods.antt =====
-- The labels and rebuilds of pods at concrete inputs.
use radondb_mysql_kubernetes.Utils.{get_ordinal}
use radondb_mysql_kubernetes.Status.Conditions.{same_status}
use radondb_mysql_kubernetes.Prelude.{
  refl, Bool, true, false, none, [], ◌∷◌, codes, Error, In, label, after_last, atoi, find_label,
  put_label, str_eq,
}
use radondb_mysql_kubernetes.Cluster.Spec.{MysqlCluster}
use radondb_mysql_kubernetes.Examples.Cluster.{sample}
use radondb_mysql_kubernetes.Kube.{
  Pod, Env, Act, pod_running, condition_true, condition_false, delete_pvc, perform, ◌>>◌,
}
use radondb_mysql_kubernetes.Status.Pods.{
  update_pod_label, patch_ignoring, Labelled, healthy_by, is_running, label_pod, mysql_not_ready,
}
use radondb_mysql_kubernetes.Status.Pods.Labels.{LabelledRight, update_pod_label_lem}
use radondb_mysql_kubernetes.Status.Rebuild.{auto_rebuild, rebuild_label}
use radondb_mysql_kubernetes.Status.Rebuild.Claims.{auto_rebuild_keeps_claims}
use radondb_mysql_kubernetes.Status.Types.{
  NodeStatus, node_lagged, node_leader, node_read_only, node_replicating,
}

abbrev pub willing : Env
willing tr c = none

abbrev never : Error → Bool
never e = false

-- A pod that is to be rebuilt.
abbrev pub pod_2 : Pod
pod_2 = record {
  name = codes "sample-mysql-2";
  labels = (rebuild_label, codes "true") ∷ [];
  deleted = false;
  phase = pod_running;
  conditions = [];
  container_statuses = record { name = codes "mysql"; ready = true } ∷ [];
}

abbrev follower : NodeStatus
follower = record {
  name = codes "sample-mysql-2.sample-mysql.default";
  message = [];
  raft_status = record { role = codes "FOLLOWER"; leader = []; nodes = [] };
  ro_status = none;
  conditions =
      record { kind = node_lagged; status = condition_false; last_transition_time = 0 }
      ∷ record { kind = node_leader; status = condition_false; last_transition_time = 0 }
      ∷ record { kind = node_read_only; status = condition_true; last_transition_time = 0 }
      ∷ record { kind = node_replicating; status = condition_true; last_transition_time = 0 }
      ∷ [];
}

abbrev labelled : Labelled
labelled = record {
  pod = record pod_2 {
    labels =
        (rebuild_label, codes "true")
        ∷ (codes "healthy", codes "yes")
        ∷ (codes "role", codes "FOLLOWER")
        ∷ [];
  };
  node = follower;
  updated = true;
}

abbrev patching : Act
patching tr = (none, tr)

update_pod_label_lem_example :
    LabelledRight willing never pod_2 follower labelled
      (patch_ignoring willing never true labelled.pod)
unfolding update_pod_label label_pod healthy_by same_status str_eq label find_label is_running
    mysql_not_ready put_label
update_pod_label_lem_example =
    update_pod_label_lem willing never pod_2 follower labelled
      (patch_ignoring willing never true labelled.pod) refl

abbrev sample_8 : MysqlCluster
sample_8 = record sample { mysql_version = codes "8.0" }

auto_rebuild_keeps_claims_example : In (delete_pvc (codes "old")) (delete_pvc (codes "old") ∷ [])
unfolding auto_rebuild get_ordinal after_last atoi str_eq label find_label ◌>>◌ perform
auto_rebuild_keeps_claims_example =
    auto_rebuild_keeps_claims willing sample_8 pod_2 (pod_2 ∷ []) (delete_pvc (codes "old") ∷ [])
      (codes "old") refl (In.here refl)
