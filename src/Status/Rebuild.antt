-- ===== src/Status/Rebuild.antt =====
-- status.go: rebuilding a pod that has the label `rebuild`: AutoRebuild and DoRoRebuild.
pub mod Plan
pub mod Claims
use radondb_mysql_kubernetes.Prelude.{
  ℕ, ◌+◌, ◌==◌, ℤ, pos, negsuc, Bool, true, false, not, ◌&&◌, ◌||◌, Option, none, some, List, [],
  ◌∷◌, ◌++◌, Str, codes, Error, Result, ok, err, str_eq, is_empty, label, put_label, atoi, itoa,
  if◌then◌else◌, get_elem?,
}
use radondb_mysql_kubernetes.Cluster.{
  ResourceName, name_for_resource, stateful_set, read_only_headless_svc,
}
use radondb_mysql_kubernetes.Cluster.Spec.{MysqlCluster}
use radondb_mysql_kubernetes.Kube.{
  ConditionStatus, condition_true, condition_false, PodPhase, pod_running, ContainerStatus, Pod,
  Env, Act, succeed, fail, ◌>>◌, perform, update_pod, patch_pod, delete_pod, get_pvc, delete_pvc,
}
use radondb_mysql_kubernetes.Status.Conditions.{same_status}
use radondb_mysql_kubernetes.Status.Types.{
  NodeCondition, NodeStatus, index_lagged, index_leader, index_read_only, index_replicating,
}
use radondb_mysql_kubernetes.Utils.{get_ordinal}

-- What the search for the pod to rebuild from finds. A name without an ordinal before it ends
-- the whole rebuild, without an error: the code returns the wrong variable.
pub data Source : Type 0 where
  found : Pod → Source
  missing gave_up : Source

int_eq : ℤ → ℤ → Bool
int_eq (pos a) (pos b) = a == b
int_eq (negsuc a) (negsuc b) = a == b
int_eq _ _ = false

unfoldable pub search_source : ℤ → List Pod → Source
unfolding int_eq
search_source number [] = missing
search_source number (other ∷ items) =
    let rest = search_source number items in
    elim (get_ordinal other.name) [
      | err e ↦ gave_up
      | ok ord ↦ if int_eq ord number then found other else rest
    ]

unfoldable pub with_label : Str → Str → Pod → Pod
with_label key value pod = record pod { labels = put_label key value pod.labels }

abbrev pub rebuild_label : Str
rebuild_label = codes "rebuild"

-- `rebuild-from` on the pod's labels too, where the source is the pod: they share the map.
unfoldable pub shared_labels : Pod → Pod → Pod
shared_labels other pod =
    if str_eq other.name pod.name then with_label (codes "rebuild-from") (codes "true") pod else pod

unfoldable pub pvc_name : MysqlCluster → ResourceName → ℤ → Str
pvc_name c resource (pos n) =
    codes "data-" ++ (name_for_resource c resource ++ (codes "-" ++ itoa n))
pvc_name c resource (negsuc n) =
    codes "data-" ++ (name_for_resource c resource ++ (codes "--" ++ itoa (n + 1)))

-- What AutoRebuild and DoRoRebuild have in common, up to the volume claim.
module _ (env : Env) where
  remove_pod : Pod → Act → Act
  remove_pod pod rest = do
    perform env (update_pod (with_label (codes "healthy") (codes "no") pod))
    perform env (delete_pod (with_label (codes "healthy") (codes "no") pod))
    rest

  remove_pvc : Str → Act
  remove_pvc name = do perform env (get_pvc name); perform env (delete_pvc name)

  -- After the search: `k` removes the pod, which may share its labels with the source.
  from_source : Source → Pod → (Pod → Pod → Pod) → (Pod → Act) → Act
  from_source missing pod share k = k pod
  from_source gave_up pod share k = succeed
  from_source (found other) pod share k = do
    perform env (update_pod (with_label (codes "rebuild-from") (codes "true") other))
    k (share other pod)

  from_number : Option ℤ → Pod → List Pod → (Pod → Pod → Pod) → (Pod → Act) → Act
  unfolding from_source
  from_number none pod items share k = fail (codes "rebuild label should be true, or number")
  from_number (some number) pod items share k = from_source (search_source number items) pod share k

  choose_source : Pod → List Pod → (Pod → Pod → Pod) → (Pod → Act) → Act
  unfolding from_number
  choose_source pod items share k =
      if str_eq (label pod.labels rebuild_label) (codes "true")
      then k pod
      else from_number (atoi (label pod.labels rebuild_label)) pod items share k

  -- `AutoRebuild`, for a pod of the items. On 8.0 the volume claim stays.
  unfoldable pub auto_rebuild : MysqlCluster → Pod → List Pod → Act
  unfolding choose_source remove_pod remove_pvc pvc_name shared_labels
  auto_rebuild c pod items = elim (get_ordinal pod.name) [
    | err e ↦ fail e
    | ok ordinal ↦ choose_source pod items shared_labels λ pod'. remove_pod pod' (
        if str_eq c.mysql_version (codes "8.0")
        then succeed
        else remove_pvc (pvc_name c stateful_set ordinal))
  ]

  -- `DoRoRebuild`, for a read-only pod; the items are the pods of the cluster.
  unfoldable pub do_ro_rebuild : MysqlCluster → Pod → List Pod → Act
  unfolding choose_source remove_pod remove_pvc pvc_name
  do_ro_rebuild c pod items =
      if is_empty (label pod.labels rebuild_label) then succeed else elim (get_ordinal pod.name) [
        | err e ↦ fail e
        | ok ordinal ↦
            choose_source pod items (λ other p. p)
              λ pod'. remove_pod pod' (remove_pvc (pvc_name c read_only_headless_svc ordinal))
      ]
