-- ===== src/Status/Pods.antt =====
-- status.go: the labels of pods, updatePodLabel.
pub mod Healthy
pub mod Labels
use radondb_mysql_kubernetes.Prelude.{
  ℕ, ◌==◌, ℤ, pos, negsuc, Bool, true, false, not, ◌&&◌, ◌||◌, Option, none, some, List, [], ◌∷◌,
  ◌++◌, Str, codes, Error, Result, ok, err, str_eq, is_empty, label, put_label, atoi, itoa,
  if◌then◌else◌, get_elem?,
}
use radondb_mysql_kubernetes.Cluster.{
  ResourceName, name_for_resource, stateful_set, read_only_headless_svc,
}
use radondb_mysql_kubernetes.Cluster.Spec.{MysqlCluster}
use radondb_mysql_kubernetes.Kube.{
  ConditionStatus, condition_true, condition_false, PodPhase, pod_running, ContainerStatus, Pod,
  Env, Act, succeed, fail, ◌>>◌, perform, update_pod, patch_pod, delete_pod, get_pvc, delete_pvc,
}
use radondb_mysql_kubernetes.Status.Conditions.{same_status}
use radondb_mysql_kubernetes.Status.Types.{
  NodeCondition, NodeStatus, index_lagged, index_leader, index_read_only, index_replicating,
}
use radondb_mysql_kubernetes.Utils.{get_ordinal}

-- A test that may panic; `and_also` and `or_also` are `&&` and `||`, which may skip a panic.
infixr 6 ◌and_also◌
abbrev pub ◌and_also◌ : Option Bool → Option Bool → Option Bool
none and_also b = none
some true and_also b = b
some false and_also b = some false

infixr 5 ◌or_also◌
abbrev pub ◌or_also◌ : Option Bool → Option Bool → Option Bool
none or_also b = none
some true or_also b = some true
some false or_also b = b

-- `conditions[i].Status == status`
status_is : List NodeCondition → ℕ → ConditionStatus → Option Bool
status_is conditions i status = elim (get_elem? conditions i) [
  | none ↦ none
  | some cond ↦ some (same_status cond.status status)
]

-- Whether the conditions of a node make it healthy.
unfoldable pub healthy_by : List NodeCondition → Option Bool
unfolding status_is
healthy_by conditions =
    status_is conditions index_lagged condition_false
    and_also ((status_is conditions index_leader condition_false
          and_also status_is conditions index_read_only condition_true
          and_also status_is conditions index_replicating condition_true)
        or_also (status_is conditions index_leader condition_true
            and_also status_is conditions index_replicating condition_false
            and_also status_is conditions index_read_only condition_false))

unfoldable pub is_running : PodPhase → Bool
is_running pod_running = true
is_running _ = false

-- The loop over the container statuses: whether it finds the mysql container not ready.
unfoldable pub mysql_not_ready : List ContainerStatus → Bool
mysql_not_ready [] = false
mysql_not_ready (s ∷ statuses) =
    let rest = mysql_not_ready statuses in
    if str_eq s.name (codes "mysql") && not s.ready then true else rest

-- The pod and the node after updatePodLabel, and whether it patches the pod.
pub record Labelled : Type 0 where
  pub pod : Pod
  pub node : NodeStatus
  pub updated : Bool

yes_or_no : Bool → Str
yes_or_no true = codes "yes"
yes_or_no false = codes "no"

-- `if pod.Labels[key] != value { pod.Labels[key] = value; updated = true }`
set_label : Str → Str → Labelled → Labelled
set_label key value l = if str_eq (label l.pod.labels key) value then l else record l {
  pod = record (l.pod) { labels = put_label key value l.pod.labels };
  updated = true;
}

pod_down : Pod → Bool
pod_down pod = pod.deleted || not (is_running pod.phase)

-- Before the labels: the role of a pod that is down, and whether its mysql container is ready.
before_labels : Pod → NodeStatus → Labelled
unfolding pod_down
before_labels pod node = record {
  pod = pod;
  node =
      if pod_down pod
      then record node { raft_status = record (node.raft_status) { role = codes "UNKNOW" } }
      else node;
  updated = mysql_not_ready pod.container_statuses;
}

label_as : Bool → Pod → NodeStatus → Labelled
unfolding before_labels set_label yes_or_no pod_down
label_as healthy pod node =
    let l = before_labels pod node in
    let healthy' =
      healthy && (not (pod_down pod) && not (mysql_not_ready pod.container_statuses)) in
    set_label (codes "role") l.node.raft_status.role
      (set_label (codes "healthy") (yes_or_no healthy') l)

-- `updatePodLabel` up to the patch; `none` is a panic.
unfoldable pub label_pod : Pod → NodeStatus → Option Labelled
unfolding label_as
label_pod pod node = elim (healthy_by node.conditions) [
  | none ↦ none
  | some healthy ↦ some (label_as healthy pod node)
]

module _ (env : Env) (is_not_found : Error → Bool) where
  ignore_not_found : Option Error → Option Error
  ignore_not_found none = none
  ignore_not_found (some e) = if is_not_found e then none else some e

  unfoldable pub patch_ignoring : Bool → Pod → Act
  unfolding ignore_not_found
  patch_ignoring false pod = succeed
  patch_ignoring true pod =
      λ tr. let (e, tr') = perform env (patch_pod pod) tr in (ignore_not_found e, tr')

  -- `updatePodLabel`; the calls to the API server are the patch, where there is one.
  unfoldable pub update_pod_label : Pod → NodeStatus → Option (Labelled × Act)
  unfolding patch_ignoring
  update_pod_label pod node = elim (label_pod pod node) [
    | none ↦ none
    | some l ↦ some (l, patch_ignoring l.updated l.pod)
  ]
