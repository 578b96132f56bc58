-- ===== src/Examples/Status.antt =====
-- mysqlcluster/syncer/status.go at concrete inputs.
use radondb_mysql_kubernetes.Utils.{string_diff_in}
use radondb_mysql_kubernetes.Cluster.{name_for_resource, peer, pod_host_name}
use radondb_mysql_kubernetes.Prelude.{
  ◌≤◌, ◌≡◌, ◌↔◌, ◌⊎◌, ◌<◌, refl, none, some, List, [], ◌∷◌, Str, codes, In, arith, length,
  has_prefix, str_eq,
}
use radondb_mysql_kubernetes.Examples.Cluster.{sample}
use radondb_mysql_kubernetes.Kube.{Env, condition_true, perform, ◌>>◌}
use radondb_mysql_kubernetes.Kube.Runs.{StoppedAt}
use radondb_mysql_kubernetes.Status.Conditions.{
  update_cluster_status, initial_conditions, settle_ready,
}
use radondb_mysql_kubernetes.Status.Conditions.Ready.{AllHave, settle_ready_lem}
use radondb_mysql_kubernetes.Status.Conditions.Transitions.{Moves, update_cluster_status-Moves}
use radondb_mysql_kubernetes.Status.Types.{
  ClusterStatus, NodeStatus, ready_state, condition_init, ClusterCondition,
}
use radondb_mysql_kubernetes.Status.Xenon.{
  get_expect_xenon_nodes, reconcile_xenon, add_nodes_in_xenon, remove_nodes_from_xenon,
}
use radondb_mysql_kubernetes.Status.Xenon.Members.{members_after}
use radondb_mysql_kubernetes.Status.Xenon.Converge.{reconcile_xenon_members}
use radondb_mysql_kubernetes.Status.Xenon.Plan.{plan, reconcile_xenon_failure}

-- Every call succeeds.
abbrev calm : Env
calm calls call = none

-- No call succeeds.
abbrev broken : Env
broken calls call = some (codes "connection refused")

abbrev first_node : NodeStatus
first_node = record {
  name = codes "sample-mysql-0.sample-mysql.default";
  message = [];
  raft_status = record {
    role = codes "LEADER";
    leader = codes "sample-mysql-0";
    nodes = codes "old:8801" ∷ [];
  };
  ro_status = none;
  conditions = [];
}

reconcile_xenon_members_example :
    In (codes "old:8801") (
      members_after first_node.name
        (reconcile_xenon calm sample (first_node ∷ []) 2 []).1
        (codes "old:8801" ∷ []))
    ↔ In (codes "old:8801") (get_expect_xenon_nodes sample 2)
unfolding has_prefix name_for_resource ◌>>◌ remove_nodes_from_xenon perform string_diff_in str_eq
    peer pod_host_name add_nodes_in_xenon
reconcile_xenon_members_example =
    reconcile_xenon_members calm sample (first_node ∷ []) 2 first_node (codes "old:8801")
      (unfold reconcile_xenon get_expect_xenon_nodes in refl) (tt, tt) (In.here refl) refl

reconcile_xenon_failure_example :
    StoppedAt broken
      (plan sample (get_expect_xenon_nodes sample 2) (first_node ∷ []))
      []
      (codes "connection refused")
      (reconcile_xenon broken sample (first_node ∷ []) 2 []).1
unfolding has_prefix name_for_resource ◌>>◌ remove_nodes_from_xenon perform
reconcile_xenon_failure_example =
    reconcile_xenon_failure broken sample (first_node ∷ []) 2 [] (codes "connection refused")
      (unfold reconcile_xenon in refl)

abbrev fresh_status : ClusterStatus
fresh_status = record {
  ready_nodes = 2;
  state = ready_state;
  last_backup = [];
  last_backup_time = 0;
  last_backup_gtid = [];
  conditions = [];
  nodes = first_node ∷ [];
}

update_cluster_status-Moves_example :
    Moves 3 2 ready_state (update_cluster_status 50 3 fresh_status).status.state
update_cluster_status-Moves_example = update_cluster_status-Moves 50 3 fresh_status

abbrev full_status : ClusterStatus
full_status = record fresh_status {
  conditions = unfold initial_conditions in initial_conditions 10;
}

abbrev true_condition : ClusterCondition
true_condition = record {
  kind = condition_init;
  status = condition_true;
  last_transition_time = 50;
  reason = [];
  message = [];
}

settle_ready_lem_example :
    ((length full_status.conditions < 7)
      × (settle_ready none 3 3 true_condition full_status ≡ none))
    ⊎ ((7 ≤ length full_status.conditions)
        × ((s' : ClusterStatus) × (settle_ready none 3 3 true_condition full_status ≡ some s')
            × (s'.state ≡ ready_state)
            × AllHave condition_true s'))
settle_ready_lem_example = settle_ready_lem 3 true_condition full_status (omega arith)

abbrev node_named : Str → NodeStatus
node_named name = record first_node { name = name }

-- Two pods of the cluster, one read-only pod of the two that are asked for.
abbrev three_nodes : List NodeStatus
three_nodes = node_named (codes "a") ∷ node_named (codes "b") ∷ node_named (codes "ro") ∷ []
