-- ===== src/Examples/StatefulSet.antt =====
-- The rolling update and the removal of claims at concrete inputs.
use radondb_mysql_kubernetes.Utils.{get_ordinal}
use radondb_mysql_kubernetes.Prelude.{
  ◌≡◌, ◌⊎◌, refl, false, none, some, [], ◌∷◌, codes, ok, In, label, after_last, atoi, find_label,
  is_empty, str_eq,
}
use radondb_mysql_kubernetes.Examples.Pods.{willing, pod_2}
use radondb_mysql_kubernetes.Kube.{Pod, delete_pod, delete_pvc, perform, ◌>>◌}
use radondb_mysql_kubernetes.StatefulSet.{
  Polls, SetStatus, PvcItem, read, wait_updated, update_pods, update_pvc, revision_label, beyond,
  is_failed, poll_healthy,
}
use radondb_mysql_kubernetes.StatefulSet.Claims.{DeletesSurplus, update_pvc-Makes}
use radondb_mysql_kubernetes.StatefulSet.Deletes.{DeletesOld, update_pods-Makes}
use radondb_mysql_kubernetes.StatefulSet.Order.{Idle, Ordered, update_pods_order}
use radondb_mysql_kubernetes.StatefulSet.Waits.{Settled, wait_updated_lem}

abbrev old_pod : Pod
old_pod = record pod_2 {
  labels = (codes "healthy", codes "yes") ∷ (revision_label, codes "rev-1") ∷ [];
}

abbrev new_pod : Pod
new_pod = record pod_2 {
  labels = (codes "healthy", codes "yes") ∷ (revision_label, codes "rev-2") ∷ [];
}

-- The old pod is read once and deleted; then the new one is there.
abbrev polls : Polls
polls = record {
  health = λ tr pod. none ∷ [];
  restart = λ tr pod. some old_pod ∷ some new_pod ∷ [];
  updated = λ tr pod. read new_pod ∷ [];
}

abbrev status : SetStatus
status = record {
  replicas_of_set = 3;
  updated_replicas = 2;
  ready_replicas = 3;
  replicas = 3;
  update_revision = codes "rev-2";
}

rolled : (update_pods willing polls 3 status false (ok (old_pod ∷ [])) []).0 ≡ none
unfolding update_pods poll_healthy str_eq label find_label ◌>>◌ is_empty perform wait_updated
    get_ordinal after_last atoi beyond is_failed
rolled = refl

old_deleted :
    In (delete_pod old_pod) (update_pods willing polls 3 status false (ok (old_pod ∷ [])) []).1
unfolding update_pods poll_healthy str_eq label find_label ◌>>◌ is_empty perform wait_updated
    get_ordinal after_last atoi beyond is_failed
old_deleted = In.there (In.here refl)

update_pods-Makes_example :
    In (delete_pod old_pod) [] ⊎ DeletesOld (codes "rev-2") (delete_pod old_pod)
update_pods-Makes_example =
    update_pods-Makes willing polls 3 status false (ok (old_pod ∷ [])) [] (delete_pod old_pod)
      old_deleted

wait_updated_lem_example :
    (p : Pod) × ((p ≡ old_pod) ⊎ In (read p) (read new_pod ∷ [])) × Settled 3 (codes "rev-2") p
unfolding wait_updated get_ordinal after_last atoi beyond is_failed str_eq label find_label
wait_updated_lem_example = wait_updated_lem 3 (codes "rev-2") old_pod (read new_pod ∷ []) refl

abbrev third_claim : PvcItem
third_claim = record { name = codes "data-sample-mysql-3"; deleted = false }

third_deleted :
    In
      (delete_pvc (codes "data-sample-mysql-3"))
      (update_pvc willing 3 (ok (third_claim ∷ [])) []).1
unfolding update_pvc get_ordinal after_last atoi beyond ◌>>◌ perform
third_deleted = In.here refl

update_pvc-Makes_example :
    In (delete_pvc (codes "data-sample-mysql-3")) []
    ⊎ DeletesSurplus 3 (third_claim ∷ []) (delete_pvc (codes "data-sample-mysql-3"))
update_pvc-Makes_example =
    update_pvc-Makes willing 3 (third_claim ∷ []) [] (delete_pvc (codes "data-sample-mysql-3"))
      third_deleted

update_pods_order_example :
    (Idle status × (update_pods willing polls 3 status false (ok (old_pod ∷ [])) [] ≡ (none, [])))
    ⊎ ((¬ Idle status)
        × (false ≡ false)
        × Ordered willing polls 3 status none
            (old_pod ∷ [])
            []
            (update_pods willing polls 3 status false (ok (old_pod ∷ [])) []))
update_pods_order_example = update_pods_order willing polls 3 status false (old_pod ∷ []) [] rolled
