-- ===== src/Status/Conditions/Transitions.antt =====
-- The state machine of updateClusterStatus and the conditions that it reports.
use radondb_mysql_kubernetes.Prelude.{
  ℕ, ◌<◌, ◌≡◌, ◌≢◌, Bool, none, some, length, length-set, Option, get_elem?, get_elem?_lt,
  get_elem?-set_self, get_elem?-set_ne, arith,
}
use radondb_mysql_kubernetes.Kube.{ConditionStatus, condition_true}
use radondb_mysql_kubernetes.Status.Types.{
  ClusterState, no_state, update_state, init_state, ready_state, close_state, scale_in_state,
  scale_out_state, condition_of_state, ClusterStatus, ClusterCondition, ClusterConditionType,
}
use radondb_mysql_kubernetes.Status.Conditions.{
  update_cluster_status, update_cluster_condition, initial_conditions,
}

-- The moves that updateClusterStatus makes, with what it has seen of the replicas.
pub data Moves (replicas ready : ℕ) : ClusterState → ClusterState → Type 0 where
  start : Moves replicas ready no_state init_state
  close :
      {s : ClusterState}
      → s ≢ no_state
      → s ≢ update_state
      → replicas ≡ 0
      → ready ≡ 0
      → Moves replicas ready s close_state
  grow_ready : ready < replicas → Moves replicas ready ready_state scale_out_state
  grow_closed : ready < replicas → Moves replicas ready close_state scale_out_state
  shrink_ready : replicas < ready → Moves replicas ready ready_state scale_in_state
  shrink_closed : replicas < ready → Moves replicas ready close_state scale_in_state
  stay : {s : ClusterState} → Moves replicas ready s s

ruleset moves = (start, close, grow_ready, grow_closed, shrink_ready, shrink_closed, stay)

module _ (now replicas : ℕ) where
  -- Every change of state is one of the moves.
  pub update_cluster_status-Moves :
      (s : ClusterStatus)
      → Moves replicas s.ready_nodes s.state (update_cluster_status now replicas s).status.state
  unfolding update_cluster_status
  update_cluster_status-Moves s = grind (arith, moves)

  -- The condition is always true, and is that of the new state.
  pub update_cluster_status_condition :
      (s : ClusterStatus)
      → ((update_cluster_status now replicas s).condition.status ≡ condition_true)
        × ((update_cluster_status now replicas s).condition.kind
            ≡ condition_of_state (update_cluster_status now replicas s).status.state)
  unfolding update_cluster_status condition_of_state
  update_cluster_status_condition s = ground arith

-- The status of the condition at an index.
abbrev pub status_in : Option ClusterCondition → Option ConditionStatus
status_in none = none
status_in (some c) = some c.status

abbrev pub status_at : ℕ → ClusterStatus → Option ConditionStatus
status_at i s = status_in (get_elem? s.conditions i)

abbrev pub kind_in : Option ClusterCondition → Option ClusterConditionType
kind_in none = none
kind_in (some c) = some c.kind

module _ (now replicas : ℕ) where
  -- An index is returned exactly if the state is set or the cluster is updating, and the condition
  -- is then of the type that Sync's initial conditions have at that index.
  pub update_cluster_status_index :
      (s : ClusterStatus) (i : ℕ)
      → (update_cluster_status now replicas s).index ≡ some i
      → kind_in (get_elem? (initial_conditions now) i)
        ≡ some (update_cluster_status now replicas s).condition.kind
  unfolding update_cluster_status initial_conditions
  update_cluster_status_index s i h = ground arith

-- A write to the conditions: what the index has then, if it is in range.
pub update_cluster_condition_at :
    (i : ℕ) (cond : ClusterCondition) (force : Bool) (s : ClusterStatus)
    → i < length s.conditions
    → status_at i (update_cluster_condition i cond force s) ≡ some cond.status
unfolding update_cluster_condition
update_cluster_condition_at i cond force s h =
    let (old, e) = get_elem?_lt s.conditions i h in
    ground (arith, e, get_elem?-set_self s.conditions i cond h)

-- The other indices keep their conditions, and their number stays.
pub update_cluster_condition_other :
    (i j : ℕ) (cond : ClusterCondition) (force : Bool) (s : ClusterStatus)
    → i < length s.conditions
    → i ≢ j
    → (length (update_cluster_condition i cond force s).conditions ≡ length s.conditions)
      × (get_elem? (update_cluster_condition i cond force s).conditions j
          ≡ get_elem? s.conditions j)
unfolding update_cluster_condition
update_cluster_condition_other i j cond force s h ne =
    let (old, e) = get_elem?_lt s.conditions i h in
    (
      ground (arith, e, length-set s.conditions i cond),
      ground (arith, e, get_elem?-set_ne s.conditions i j cond ne),
    )
