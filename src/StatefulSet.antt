-- ===== src/StatefulSet.antt =====
-- mysqlcluster/syncer/statefulset.go: the rolling update of the pods (updatePod, applyNWait,
-- backupIsRunning) and the removal of volume claims (updatePVC).
pub mod Deletes
pub mod Waits
pub mod Claims
pub mod Order
use radondb_mysql_kubernetes.Prelude.{
  ℕ, ◌==◌, ltb, ℤ, pos, negsuc, Bool, true, false, not, ◌&&◌, ◌||◌, Option, none, some, List, [],
  ◌∷◌, ◌++◌, Str, codes, Error, Result, ok, err, is_empty, str_eq, label, if◌then◌else◌,
}
use radondb_mysql_kubernetes.Kube.{
  Pod, PodPhase, pod_failed, Env, Act, Call, Trace, mark_updating, succeed, fail, ◌>>◌, perform,
  delete_pod, delete_pvc,
}
use radondb_mysql_kubernetes.Utils.{get_ordinal}

-- A volume claim: its name, and whether it is being deleted.
pub record PvcItem : Type 0 where
  pub name : Str
  pub deleted : Bool

-- One `Get` of a pod in a poll.
pub data Read : Type 0 where
  read : Pod → Read
  not_found : Read
  failed : Error → Read

abbrev pub revision_label : Str
revision_label = codes "controller-revision-hash"

-- `ordinal >= int(*s.Spec.Replicas)`
unfoldable pub beyond : ℕ → ℤ → Bool
beyond replicas (pos n) = not (ltb n replicas)
beyond replicas (negsuc n) = false

unfoldable pub is_failed : PodPhase → Bool
is_failed pod_failed = true
is_failed _ = false

-- `wait.ErrWaitTimeout`
abbrev pub timeout : Error
timeout = codes "timed out waiting for the condition"

-- The end of the second poll of applyNWait: goes on, or ends with or without an error.
pub data Verdict : Type 0 where
  again done : Verdict
  stop : Error → Verdict

judge_pod : ℕ → Str → Pod → Result ℤ → Verdict
judge_pod replicas revision pod (err e) = stop e
judge_pod replicas revision pod (ok ordinal) =
    let healthy = str_eq (label pod.labels (codes "healthy")) (codes "yes") in
    let updated = str_eq (label pod.labels revision_label) revision in
    if beyond replicas ordinal
    then done
    else if is_failed pod.phase
    then stop (codes "pod " ++ (pod.name ++ codes " is in failed phase"))
    else if healthy && updated
    then done
    else if healthy && not updated
    then stop (codes "pod " ++ (pod.name ++ codes " is ready, wait next schedule"))
    else again

-- The second poll, over the reads of the pod; a pod that is not found is judged as it was.
unfoldable pub wait_updated : ℕ → Str → Pod → List Read → Option Error
unfolding judge_pod
wait_updated replicas revision pod [] = some timeout
wait_updated replicas revision pod (failed e ∷ reads) = some e
wait_updated replicas revision pod (not_found ∷ reads) =
    elim (judge_pod replicas revision pod (get_ordinal pod.name)) [
      | again ↦ wait_updated replicas revision pod reads
      | done ↦ none
      | stop e ↦ some e
    ]
wait_updated replicas revision pod (read p ∷ reads) =
    elim (judge_pod replicas revision p (get_ordinal p.name)) [
      | again ↦ wait_updated replicas revision p reads
      | done ↦ none
      | stop e ↦ some e
    ]

-- The reads of a poll for the health of a pod: `none` is a `Get` that failed, after which the pod
-- is as it was. The result is the pod that was found healthy.
unfoldable pub poll_healthy : Pod → List (Option Pod) → Option Pod
poll_healthy pod [] = none
poll_healthy pod (none ∷ reads) =
    let rest = poll_healthy pod reads in
    if str_eq (label pod.labels (codes "healthy")) (codes "yes") then some pod else rest
poll_healthy pod (some p ∷ reads) =
    let rest = poll_healthy p reads in
    if str_eq (label p.labels (codes "healthy")) (codes "yes") then some p else rest

-- What the polls read, given the calls made before them.
pub record Polls : Type 0 where
  pub health : Trace → Pod → List (Option Pod)
  pub restart : Trace → Pod → List (Option Pod)
  pub updated : Trace → Pod → List Read

pub record SetStatus : Type 0 where
  pub replicas_of_set : ℕ
  pub updated_replicas : ℕ
  pub ready_replicas : ℕ
  pub replicas : ℕ
  pub update_revision : Str

module _ (env : Env) (polls : Polls) (spec_replicas : ℕ) (status : SetStatus) where
  -- The first poll of applyNWait: the pod is deleted until it comes back with the new revision;
  -- `k` goes on with the pod as it was read last.
  restart : Pod → List (Option Pod) → (Pod → Act) → Act
  restart pod [] k = fail timeout
  restart pod (none ∷ reads) k = restart pod reads k
  restart pod (some p ∷ reads) k =
      let rest = restart p reads k in
      if spec_replicas == 0
      then k p
      else if p.deleted
      then rest
      else if not (str_eq (label p.labels revision_label) status.update_revision)
      then perform env (delete_pod p) >> rest
      else k p

  await : Pod → Act
  await pod tr = (wait_updated spec_replicas status.update_revision pod (polls.updated tr pod), tr)

  start_restart : Pod → Act
  unfolding restart await
  start_restart pod tr = restart pod (polls.restart tr pod) await tr

  -- The status says that the cluster is updating.
  mark_state : Act
  mark_state tr = (none, tr ++ mark_updating ∷ [])

  -- `applyNWait`
  unfoldable pub apply_n_wait : Pod → Act
  unfolding start_restart await mark_state
  apply_n_wait pod =
      if is_empty status.update_revision
      then fail (codes "update revision is empty")
      else if str_eq (label pod.labels revision_label) status.update_revision
      then await pod
      else do mark_state; start_restart pod

  apply_leader : Option Pod → Act
  unfolding apply_n_wait
  apply_leader none = succeed
  apply_leader (some leader) = apply_n_wait leader

  is_leader : Pod → Option Pod → Bool
  is_leader pod none = str_eq (label pod.labels (codes "role")) (codes "LEADER")
  is_leader pod (some leader) = false

  -- The loop of updatePod, with the leader found so far; the leader is updated after the others.
  update_each : List Pod → Option Pod → Act
  unfolding apply_n_wait apply_leader is_leader
  update_each [] leader tr = apply_leader leader tr
  update_each (pod ∷ pods) leader tr = elim (poll_healthy pod (polls.health tr pod)) [
    | none ↦ (
      some (codes "can't start/continue 'update': pod[" ++ (pod.name ++ codes "] is unhealthy")),
      tr,
    )
    | some p ↦
        if is_leader p leader
        then update_each pods (some p) tr
        else (apply_n_wait p >> update_each pods leader) tr
  ]

  -- `updatePod`; `backuping` is what backupIsRunning returns.
  unfoldable pub update_pods : Bool → Result (List Pod) → Act
  unfolding update_each
  update_pods backuping listed =
      if status.updated_replicas == status.replicas_of_set
      then succeed
      else if ltb status.ready_replicas status.replicas
      then succeed
      else if backuping
      then fail (codes "can't start/continue 'update': waiting for all backup completed")
      else elim listed [ err e ↦ fail e | ok pods ↦ update_each pods none ]

-- `backupIsRunning`, over the completions of the listed backups, with the error that updatePod drops.
unfoldable pub backup_is_running : List Bool → Bool
backup_is_running [] = false
backup_is_running (completed ∷ backups) =
    let rest = backup_is_running backups in if not completed then true else rest

module _ (env : Env) (spec_replicas : ℕ) where
  remove_claims : List PvcItem → Act
  remove_claims [] = succeed
  remove_claims (item ∷ items) =
      let rest = remove_claims items in
      if item.deleted then rest else elim (get_ordinal item.name) [
        | err e ↦ rest
        | ok ordinal ↦
            if beyond spec_replicas ordinal
            then perform env (delete_pvc item.name) >> rest
            else rest
      ]

  -- `updatePVC`
  unfoldable pub update_pvc : Result (List PvcItem) → Act
  unfolding remove_claims
  update_pvc listed =
      if spec_replicas == 0
      then succeed
      else elim listed [ err e ↦ fail e | ok items ↦ remove_claims items ]
