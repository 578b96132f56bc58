-- ===== src/StatefulSet/Deletes.antt =====
-- updatePod and applyNWait: which pods they delete.
use radondb_mysql_kubernetes.Prelude.{
  ℕ, ◌==◌, ◌≡◌, ◌≢◌, inl, inr, refl, Bool, true, false, not, Bool-cases, Option, none, some,
  Option-cases, List, [], ◌∷◌, Str, Result, ok, err, label, str_eq, str_eq_iff, is_empty, ltb,
  if◌then◌else◌,
}
use radondb_mysql_kubernetes.Kube.{
  Pod, Env, Act, Call, fail, ◌>>◌, perform, delete_pod, mark_updating,
}
use radondb_mysql_kubernetes.StatefulSet.{
  Polls, SetStatus, revision_label, restart, await, start_restart, mark_state, apply_n_wait,
  apply_leader, is_leader, update_each, update_pods, poll_healthy,
}
use radondb_mysql_kubernetes.Kube.Makes.{
  Makes, succeed-Makes, fail-Makes, one_more, perform-Makes, >>_Makes, if-Makes,
}

-- The call is no deletion of a pod, or that of a pod whose revision is not the new one.
abbrev pub DeletesOld : Str → Call → Type 0
DeletesOld revision (delete_pod p) = label p.labels revision_label ≢ revision
DeletesOld revision _ = Unit

module _ (env : Env) (polls : Polls) (spec_replicas : ℕ) (status : SetStatus) where
  abbrev Old : Call → Type 0
  Old = DeletesOld status.update_revision

  await-Makes : (pod : Pod) → Makes Old (await env polls spec_replicas status pod)
  unfolding await
  await-Makes pod tr c m = inl m

  delete_or_go :
      (p : Pod) (rest go : Act) (b : Bool)
      → str_eq (label p.labels revision_label) status.update_revision ≡ b
      → Makes Old rest
      → Makes Old go
      → Makes Old (if not b then perform env (delete_pod p) >> rest else go)
  delete_or_go p rest go true e f g = g
  delete_or_go p rest go false e f g =
      >>_Makes Old (perform env (delete_pod p)) rest
        (perform-Makes Old env (delete_pod p) (λ h. cc ((str_eq_iff _ _).1 h))) f

  restart-Makes :
      (pod : Pod) (reads : List (Option Pod)) (k : Pod → Act)
      → ((p : Pod) → Makes Old (k p))
      → Makes Old (restart env polls spec_replicas status pod reads k)
  unfolding restart
  restart-Makes pod [] k f = fail-Makes Old _
  restart-Makes pod (none ∷ reads) k f = restart-Makes pod reads k f
  restart-Makes pod (some p ∷ reads) k f = if-Makes Old (spec_replicas == 0) (k p) _ (f p) (
      if-Makes Old p.deleted (restart env polls spec_replicas status p reads k) _
        (restart-Makes p reads k f)
        (delete_or_go p (restart env polls spec_replicas status p reads k) (k p)
          (str_eq (label p.labels revision_label) status.update_revision) refl
          (restart-Makes p reads k f) (f p)))

  apply_n_wait-Makes : (pod : Pod) → Makes Old (apply_n_wait env polls spec_replicas status pod)
  unfolding apply_n_wait start_restart mark_state
  apply_n_wait-Makes pod = if-Makes Old (is_empty status.update_revision) _ _ (fail-Makes Old _) (
      if-Makes Old (str_eq (label pod.labels revision_label) status.update_revision) _ _
        (await-Makes pod)
        (>>_Makes Old (mark_state env polls spec_replicas status)
          (start_restart env polls spec_replicas status pod)
          (λ tr c m. one_more Old tr c mark_updating tt m)
          (λ tr c m. restart-Makes pod (polls.restart tr pod) _ await-Makes tr c m)))

  update_each-Makes :
      (pods : List Pod) (leader : Option Pod)
      → Makes Old (update_each env polls spec_replicas status pods leader)
  unfolding update_each apply_leader
  update_each-Makes [] none tr c m = succeed-Makes Old tr c m
  update_each-Makes [] (some leader) tr c m = apply_n_wait-Makes leader tr c m
  update_each-Makes (pod ∷ pods) leader tr c m =
      elim (Option-cases (poll_healthy pod (polls.health tr pod))) [
        | inl e ↦ inl (rw (e, update_each) at m)
        | inr (p, e) ↦ elim (Bool-cases (is_leader env polls spec_replicas status p leader)) [
          | inl l ↦ update_each-Makes pods (some p) tr c (rw (e, l, update_each) at m)
          | inr l ↦
              >>_Makes Old (apply_n_wait env polls spec_replicas status p)
                (update_each env polls spec_replicas status pods leader) (apply_n_wait-Makes p)
                (update_each-Makes pods leader) tr c (rw (e, l, update_each) at m)
        ]
      ]

  -- The rolling update deletes only pods that do not have the new revision when they are read.
  pub update_pods-Makes :
      (backuping : Bool) (listed : Result (List Pod))
      → Makes
          (DeletesOld status.update_revision)
          (update_pods env polls spec_replicas status backuping listed)
  unfolding update_pods
  update_pods-Makes backuping listed =
      if-Makes Old (status.updated_replicas == status.replicas_of_set) _ _ (succeed-Makes Old) (
        if-Makes Old (ltb status.ready_replicas status.replicas) _ _ (succeed-Makes Old)
          (if-Makes Old backuping _ _ (fail-Makes Old _) (with_list listed)))
    where
      with_list :
          (listed : Result (List Pod))
          → Makes Old (elim listed [
            | err e ↦ fail e
            | ok pods ↦ update_each env polls spec_replicas status pods none
          ])
      with_list (err e) = fail-Makes Old e
      with_list (ok pods) = update_each-Makes pods none
