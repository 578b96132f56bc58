-- ===== src/Status/Nodes.antt =====
-- status.go: the statuses of the nodes: getNodeStatusIndex, getRoStatusIndex, updateNodeCondition,
-- updateNodeRaftStatus and the removal of nodes that are gone.
pub mod Index
pub mod Trim
use radondb_mysql_kubernetes.Prelude.{
  ℕ, zero, suc, ◌+◌, ◌-◌, Bool, true, false, Option, none, some, List, [], ◌∷◌, ◌++◌, Str, Error,
  Result, ok, err, codes, str_eq, ltb, if◌then◌else◌, length, get_elem?, set, take, drop,
}
use radondb_mysql_kubernetes.Cluster.Spec.{MysqlCluster, ReadOnlyType}
use radondb_mysql_kubernetes.Kube.{
  ConditionStatus, condition_true, condition_false, condition_unknown,
}
use radondb_mysql_kubernetes.Status.Conditions.{same_status}
use radondb_mysql_kubernetes.Status.Types.{
  NodeStatus, NodeCondition, NodeConditionType, node_lagged, node_leader, node_read_only,
  node_replicating, node_ro_initial, node_ro_read_only, node_ro_semi_close, node_ro_replicating,
  RaftStatus, ClusterStatus, index_leader,
}

-- The status of a node that the operator has not met: every condition is unknown.
unfoldable pub new_node : Str → List NodeConditionType → ℕ → NodeStatus
new_node name kinds now = record {
  name = name;
  message = [];
  raft_status = record { role = []; leader = []; nodes = [] };
  ro_status = none;
  conditions = unknown_conditions kinds;
}
  where
    unknown_conditions : List NodeConditionType → List NodeCondition
    unknown_conditions [] = []
    unknown_conditions (kind ∷ kinds) =
        record { kind = kind; status = condition_unknown; last_transition_time = now }
        ∷ unknown_conditions kinds

abbrev pub node_kinds : List NodeConditionType
node_kinds = node_lagged ∷ node_leader ∷ node_read_only ∷ node_replicating ∷ []

abbrev pub ro_kinds : List NodeConditionType
ro_kinds = node_ro_initial ∷ node_ro_read_only ∷ node_ro_semi_close ∷ node_ro_replicating ∷ []

-- The loop over the nodes from index `i`: the first of this name, or the end of the list, where
-- `fresh` is appended.
index_from : Str → NodeStatus → ℕ → List NodeStatus → ℕ × List NodeStatus
index_from name fresh i [] = (i, fresh ∷ [])
index_from name fresh i (node ∷ nodes) =
    let (j, nodes') = index_from name fresh (i + 1) nodes in
    if str_eq node.name name then (i, node ∷ nodes) else (j, node ∷ nodes')

-- `getNodeStatusIndex`
unfoldable pub get_node_status_index : Str → ℕ → List NodeStatus → ℕ × List NodeStatus
unfolding index_from new_node
get_node_status_index name now nodes = index_from name (new_node name node_kinds now) 0 nodes

-- `getRoStatusIndex`
unfoldable pub get_ro_status_index : Str → ℕ → List NodeStatus → ℕ × List NodeStatus
unfolding index_from new_node
get_ro_status_index name now nodes = index_from name (new_node name ro_kinds now) 0 nodes

write_node_condition :
    Option NodeCondition
    → ℕ
    → ConditionStatus
    → ℕ
    → List NodeCondition
    → Option (List NodeCondition)
unfolding same_status
write_node_condition none idx status now conditions = none
write_node_condition (some old) idx status now conditions = some (
    if same_status old.status status
    then conditions
    else set conditions idx (record old { status = status; last_transition_time = now }))

with_conditions : NodeStatus → Option (List NodeCondition) → Option NodeStatus
with_conditions node none = none
with_conditions node (some conditions) = some (record node { conditions = conditions })

-- `updateNodeCondition`; `none` is the panic of an index out of range.
unfoldable pub update_node_condition : ℕ → NodeStatus → ℕ → ConditionStatus → Option NodeStatus
unfolding write_node_condition with_conditions
update_node_condition now node idx status =
    with_conditions node
      (write_node_condition (get_elem? node.conditions idx) idx status now node.conditions)

-- What the answer of `XenonExecutor.RaftStatus` makes of the node.
raft_of : Result RaftStatus → RaftStatus
raft_of (ok status) = status
raft_of (err e) = record { role = codes "UNKNOW"; leader = codes "UNKNOWN"; nodes = [] }

leader_of : Result RaftStatus → ConditionStatus
leader_of (ok status) =
    if str_eq status.role (codes "LEADER") then condition_true else condition_false
leader_of (err e) = condition_false

-- `updateNodeRaftStatus`, with the answer that xenon gives for the node.
unfoldable pub update_node_raft_status : ℕ → NodeStatus → Result RaftStatus → Option NodeStatus
unfolding raft_of leader_of update_node_condition
update_node_raft_status now node answer =
    update_node_condition now (record node { raft_status = raft_of answer }) index_leader
      (leader_of answer)

-- `s.Status.Nodes[len-num:len]`; `none` is the panic of a negative bound.
last_nodes : ℕ → List NodeStatus → Option (List NodeStatus)
last_nodes num nodes =
    if ltb (length nodes) num then none else some (drop (length nodes - num) nodes)

append_last : List NodeStatus → Option (List NodeStatus) → Option (List NodeStatus)
append_last kept none = none
append_last kept (some ro_nodes) = some (kept ++ ro_nodes)

trim : Option ReadOnlyType → ℕ → List NodeStatus → Option (List NodeStatus)
unfolding last_nodes append_last
trim none pods nodes = some (take pods nodes)
trim (some ro) pods nodes = append_last (take pods nodes) (last_nodes ro.num nodes)

-- The end of `updateNodeStatus`: the first nodes, as many as there are pods, and the last ones, as
-- many as the spec asks for read-only pods.
unfoldable pub trim_nodes : Option ReadOnlyType → ℕ → List NodeStatus → Option (List NodeStatus)
unfolding trim
trim_nodes read_onlys pods nodes =
    if ltb pods (length nodes) then trim read_onlys pods nodes else some nodes
