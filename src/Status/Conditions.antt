-- ===== src/Status/Conditions.antt =====
-- status.go: updateClusterStatus, updateClusterCondition, and what Sync does with them before and
-- after it looks at the pods.
pub mod Transitions
pub mod Ready
use radondb_mysql_kubernetes.Prelude.{
  ℕ, zero, suc, Bool, true, false, ◌&&◌, ◌||◌, not, Option, none, some, List, [], ◌∷◌, Str, ltb,
  leb, ◌==◌, if◌then◌else◌, length, get_elem?, set, codes,
}
use radondb_mysql_kubernetes.Kube.{
  ConditionStatus, condition_true, condition_false, condition_unknown,
}
use radondb_mysql_kubernetes.Status.Types.{
  ClusterState, no_state, update_state, init_state, ready_state, close_state, scale_in_state,
  scale_out_state, remote_completed, ClusterConditionType, condition_init, condition_update,
  condition_ready, condition_close, condition_error, condition_scale_in, condition_scale_out,
  condition_remote_slave, condition_of_state, ClusterCondition, ClusterStatus, cl_index_init,
  cl_index_update, cl_index_ready, cl_index_close, cl_index_error, cl_index_scale_in,
  cl_index_scale_out,
}

-- `a == b` on condition statuses.
unfoldable pub same_status : ConditionStatus → ConditionStatus → Bool
same_status condition_true condition_true = true
same_status condition_false condition_false = true
same_status condition_unknown condition_unknown = true
same_status _ _ = false

-- A condition of this type and status, with no reason or message.
unfoldable pub plain_condition : ClusterConditionType → ConditionStatus → ℕ → ClusterCondition
plain_condition kind status now = record {
  kind = kind;
  status = status;
  last_transition_time = now;
  reason = [];
  message = [];
}

-- The write of `updateClusterCondition` at an index in range.
write_condition :
    Option ClusterCondition
    → ℕ
    → ClusterCondition
    → Bool
    → List ClusterCondition
    → List ClusterCondition
unfolding same_status
write_condition none idx cond force conditions = conditions
write_condition (some old) idx cond force conditions =
    if force || not (same_status old.status cond.status)
    then set conditions idx cond
    else conditions

-- `updateClusterCondition`: an index out of range clears the conditions.
unfoldable pub update_cluster_condition :
    ℕ → ClusterCondition → Bool → ClusterStatus → ClusterStatus
unfolding write_condition
update_cluster_condition idx cond force s =
    if leb (length s.conditions) idx then record s { conditions = [] } else record s {
      conditions = write_condition (get_elem? s.conditions idx) idx cond force s.conditions;
    }

-- What `updateClusterStatus` returns: the condition, and its index unless that is -1.
pub record StatusUpdate : Type 0 where
  pub status : ClusterStatus
  pub condition : ClusterCondition
  pub index : Option ℕ

abbrev pub is_ready_or_closed : ClusterState → Bool
is_ready_or_closed ready_state = true
is_ready_or_closed close_state = true
is_ready_or_closed _ = false

update_after : ℕ → ℕ → ClusterStatus → ClusterState → StatusUpdate
unfolding plain_condition condition_of_state
update_after now replicas s no_state = record {
  status = record s { state = init_state };
  condition = plain_condition condition_init condition_true now;
  index = some cl_index_init;
}
update_after now replicas s update_state = record {
  status = s;
  condition = plain_condition condition_update condition_true now;
  index = some cl_index_update;
}
update_after now replicas s old_state =
    if replicas == 0 && s.ready_nodes == 0
    then record {
      status = record s { state = close_state };
      condition = plain_condition condition_close condition_true now;
      index = some cl_index_close;
    }
    else if is_ready_or_closed old_state && ltb s.ready_nodes replicas
    then record {
      status = record s { state = scale_out_state };
      condition = plain_condition condition_scale_out condition_true now;
      index = some cl_index_scale_out;
    }
    else if is_ready_or_closed old_state && ltb replicas s.ready_nodes
    then record {
      status = record s { state = scale_in_state };
      condition = plain_condition condition_scale_in condition_true now;
      index = some cl_index_scale_in;
    }
    else record {
      status = s;
      condition = plain_condition (condition_of_state old_state) condition_true now;
      index = none;
    }

-- `updateClusterStatus`
unfoldable pub update_cluster_status : ℕ → ℕ → ClusterStatus → StatusUpdate
unfolding update_after
update_cluster_status now replicas s = update_after now replicas s s.state

-- The conditions that Sync gives a cluster that has none.
unfoldable pub initial_conditions : ℕ → List ClusterCondition
unfolding plain_condition
initial_conditions now =
    plain_condition condition_init condition_false now
    ∷ plain_condition condition_update condition_false now
    ∷ plain_condition condition_ready condition_false now
    ∷ plain_condition condition_close condition_false now
    ∷ plain_condition condition_error condition_false now
    ∷ plain_condition condition_scale_in condition_false now
    ∷ plain_condition condition_scale_out condition_false now
    ∷ plain_condition condition_remote_slave condition_false now
    ∷ []

-- The head of Sync: fill in the conditions, or take the error back.
prepare_conditions : ℕ → ClusterStatus → List ClusterCondition → ClusterStatus
unfolding initial_conditions update_cluster_condition plain_condition
prepare_conditions now s [] = record s { conditions = initial_conditions now }
prepare_conditions now s (_ ∷ _) =
    update_cluster_condition cl_index_error (plain_condition condition_error condition_false now)
      false s

record_update : Option ℕ → ClusterCondition → ClusterStatus → ClusterStatus
unfolding update_cluster_condition
record_update none cond s = s
record_update (some idx) cond s = update_cluster_condition idx cond false s

-- Sync up to the call of `GetLabels`: the status, and `clusterCondition`.
unfoldable pub begin_sync : ℕ → ℕ → ClusterStatus → ClusterStatus × ClusterCondition
unfolding prepare_conditions update_cluster_status record_update
begin_sync now replicas s =
    let u = update_cluster_status now replicas (prepare_conditions now s s.conditions) in
    (record_update u.index u.condition u.status, u.condition)

-- The rounds over `ClIndexInit`, `ClIndexScaleIn` and `ClIndexScaleOut`: each reads the condition
-- at its index, and `none` is the panic of an index out of range. The copy `tmpCond` that is set
-- to false is not what is written: `clusterCondition` is.
clear_round : ClusterCondition → ℕ → Option ClusterCondition → ClusterStatus → Option ClusterStatus
clear_round cond ind none s = none
clear_round cond ind (some tmp_cond) s = some (update_cluster_condition ind cond false s)

clear_rounds : ClusterCondition → List ℕ → ClusterStatus → Option ClusterStatus
clear_rounds cond [] s = some s
clear_rounds cond (ind ∷ inds) s = elim (clear_round cond ind (get_elem? s.conditions ind) s) [
  | none ↦ none
  | some s' ↦ clear_rounds cond inds s'
]

-- The branch of Sync for a reconcileXenon that returned no error.
mark_ready : ClusterCondition → ClusterStatus → Option ClusterStatus
mark_ready cluster_condition s =
    let cond = record cluster_condition { kind = condition_ready } in
    clear_rounds cond (cl_index_init ∷ cl_index_scale_in ∷ cl_index_scale_out ∷ [])
      (update_cluster_condition cl_index_ready cond false (record s { state = ready_state }))

-- The branch for an error of reconcileXenon.
mark_error : Str → ClusterCondition → ClusterStatus → ClusterStatus
unfolding update_cluster_condition
mark_error message cluster_condition s =
    update_cluster_condition cl_index_error
      (record cluster_condition { kind = condition_error; message = message }) false s

judge_xenon : Option Str → ClusterCondition → ClusterStatus → Option ClusterStatus
judge_xenon none cluster_condition s = mark_ready cluster_condition s
judge_xenon (some message) cluster_condition s = some (mark_error message cluster_condition s)

-- Sync after the pods are counted: `xenon` is what reconcileXenon returns, if it is called.
unfoldable pub settle_ready :
    Option Str → ℕ → ℕ → ClusterCondition → ClusterStatus → Option ClusterStatus
unfolding judge_xenon mark_error mark_ready clear_rounds clear_round update_cluster_condition
settle_ready xenon replicas ready_nodes cluster_condition s =
    let s' = record s { ready_nodes = ready_nodes } in
    if ready_nodes == replicas && not (replicas == 0)
    then judge_xenon xenon cluster_condition s'
    else some s'
