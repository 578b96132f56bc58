-- ===== src/Status/Types.antt =====
-- The status types of api/v1alpha1/mysqlcluster_types.go.
use radondb_mysql_kubernetes.Prelude.{ℕ, Bool, Option, List, Str}
use radondb_mysql_kubernetes.Kube.{ConditionStatus}

-- ClusterState; `no_state` is the empty string of a cluster that has no status yet.
pub data ClusterState : Type 0 where
  no_state init_state update_state ready_state remote_completed : ClusterState
  close_state scale_in_state scale_out_state : ClusterState

-- ClusterConditionType. The last two are strings without a constant of this type, which a cast of
-- a state gives.
pub data ClusterConditionType : Type 0 where
  condition_init condition_update condition_ready condition_close : ClusterConditionType
  condition_error condition_scale_in condition_scale_out condition_remote_slave :
      ClusterConditionType
  remote_completed_type empty_type : ClusterConditionType

-- `ClusterConditionType(state)`: the strings of the states are those of the conditions.
unfoldable pub condition_of_state : ClusterState → ClusterConditionType
condition_of_state no_state = empty_type
condition_of_state init_state = condition_init
condition_of_state update_state = condition_update
condition_of_state ready_state = condition_ready
condition_of_state remote_completed = remote_completed_type
condition_of_state close_state = condition_close
condition_of_state scale_in_state = condition_scale_in
condition_of_state scale_out_state = condition_scale_out

-- Times are seconds.
pub record ClusterCondition : Type 0 where
  pub kind : ClusterConditionType
  pub status : ConditionStatus
  pub last_transition_time : ℕ
  pub reason : Str
  pub message : Str

-- ClusterConditionsIndex
abbrev pub cl_index_init : ℕ
cl_index_init = 0

abbrev pub cl_index_update : ℕ
cl_index_update = 1

abbrev pub cl_index_ready : ℕ
cl_index_ready = 2

abbrev pub cl_index_close : ℕ
cl_index_close = 3

abbrev pub cl_index_error : ℕ
cl_index_error = 4

abbrev pub cl_index_scale_in : ℕ
cl_index_scale_in = 5

abbrev pub cl_index_scale_out : ℕ
cl_index_scale_out = 6

abbrev pub cl_index_remote_slave : ℕ
cl_index_remote_slave = 7

pub record RaftStatus : Type 0 where
  pub role : Str
  pub leader : Str
  pub nodes : List Str

pub record RoStatus : Type 0 where
  pub read_only : Bool
  pub replication : Bool
  pub master : Str

-- NodeConditionType
pub data NodeConditionType : Type 0 where
  node_lagged node_leader node_read_only node_replicating : NodeConditionType
  node_ro_initial node_ro_read_only node_ro_semi_close node_ro_replicating : NodeConditionType

pub record NodeCondition : Type 0 where
  pub kind : NodeConditionType
  pub status : ConditionStatus
  pub last_transition_time : ℕ

-- NodeConditionsIndex
abbrev pub index_lagged : ℕ
index_lagged = 0

abbrev pub index_leader : ℕ
index_leader = 1

abbrev pub index_read_only : ℕ
index_read_only = 2

abbrev pub index_replicating : ℕ
index_replicating = 3

pub record NodeStatus : Type 0 where
  pub name : Str
  pub message : Str
  pub raft_status : RaftStatus
  pub ro_status : Option RoStatus
  pub conditions : List NodeCondition

-- MysqlClusterStatus
pub record ClusterStatus : Type 0 where
  pub ready_nodes : ℕ
  pub state : ClusterState
  pub last_backup : Str
  pub last_backup_time : ℕ
  pub last_backup_gtid : Str
  pub conditions : List ClusterCondition
  pub nodes : List NodeStatus
