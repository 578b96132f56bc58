-- ===== src/Status/Pods/Labels.antt =====
-- updatePodLabel: when a pod is labelled healthy, and when it is patched.
use radondb_mysql_kubernetes.Prelude.{
  ◌≡◌, ◌≢◌, ◌↔◌, inl, inr, refl, sym, ap, ◌∙◌, Bool, true, false, not, ◌&&◌, Bool-cases, some,
  Option-cases, [], ◌∷◌, ◌++◌, subst, Str, codes, str_eq, str_eq_iff, label, label-put_label_self,
  label-put_label_ne, arith, Error,
}
use radondb_mysql_kubernetes.Kube.{Pod, Env, Trace, patch_pod, Act, Call, perform}
use radondb_mysql_kubernetes.Status.Types.{NodeStatus}
use radondb_mysql_kubernetes.Status.Pods.{
  healthy_by, mysql_not_ready, Labelled, yes_or_no, set_label, label_as, pod_down, before_labels,
  label_pod, update_pod_label, patch_ignoring,
}
use radondb_mysql_kubernetes.Status.Pods.Healthy.{
  HealthyNode, PodUp, healthy_by_iff, is_running_iff, mysql_not_ready_iff,
}

label-set_label_self : (k v : Str) (l : Labelled) → label (set_label k v l).pod.labels k ≡ v
unfolding set_label
label-set_label_self k v l = elim (Bool-cases (str_eq (label l.pod.labels k) v)) [
  | inl e ↦ rw (e, set_label) ((str_eq_iff (label l.pod.labels k) v).0 e)
  | inr e ↦ rw (e, set_label) (label-put_label_self k v l.pod.labels)
]

label-set_label_ne :
    (k j v : Str) (l : Labelled)
    → str_eq k j ≡ false
    → label (set_label k v l).pod.labels j ≡ label l.pod.labels j
unfolding set_label
label-set_label_ne k j v l ne = elim (Bool-cases (str_eq (label l.pod.labels k) v)) [
  | inl e ↦ rw (e, set_label)
  | inr e ↦ rw (e, set_label) (label-put_label_ne k j v l.pod.labels ne)
]

set_label-node : (k v : Str) (l : Labelled) → (set_label k v l).node ≡ l.node
unfolding set_label
set_label-node k v l = ground arith

-- Without a change the label already had the value.
set_label-kept :
    (k v : Str) (l : Labelled)
    → (set_label k v l).updated ≡ false
    → (l.updated ≡ false) × (set_label k v l ≡ l)
unfolding set_label
set_label-kept k v l h = ground arith

yes_iff : (b : Bool) → (yes_or_no b ≡ codes "yes") ↔ (b ≡ true)
unfolding yes_or_no
yes_iff true = (λ h. refl, λ h. refl)
yes_iff false = (λ h. cc, λ h. cc)

up_iff :
    (pod : Pod) (b : Bool)
    → ((b && (not (pod_down pod) && not (mysql_not_ready pod.container_statuses))) ≡ true)
      ↔ ((b ≡ true) × PodUp pod)
unfolding pod_down
up_iff pod b = ground (arith, is_running_iff pod.phase, mysql_not_ready_iff pod.container_statuses)

append_grows : (tr : Trace) (c : Call) → tr ++ c ∷ [] ≢ tr
append_grows [] c h = cc
append_grows (d ∷ tr) c h = append_grows tr c (cc)

module _ (env : Env) (is_not_found : Error → Bool) where
  -- What updatePodLabel promises of the pod and node that it leaves and of its calls.
  abbrev pub LabelledRight : Pod → NodeStatus → Labelled → Act → Type 0
  LabelledRight pod node l act =
      ((label l.pod.labels (codes "healthy") ≡ codes "yes")
        ↔ (HealthyNode node.conditions × PodUp pod))
      × (label l.pod.labels (codes "role") ≡ l.node.raft_status.role)
      × ((tr : Trace) → (act tr).1 ≡ tr → l.pod.labels ≡ pod.labels)

  quiet :
      (updated : Bool) (pod : Pod) (tr : Trace)
      → (patch_ignoring env is_not_found updated pod tr).1 ≡ tr
      → updated ≡ false
  unfolding patch_ignoring perform
  quiet true pod tr h = absurd (append_grows tr (patch_pod pod) h)
  quiet false pod tr h = refl

  label_as_right :
      (pod : Pod) (node : NodeStatus) (healthy : Bool)
      → healthy_by node.conditions ≡ some healthy
      → LabelledRight pod node (label_as healthy pod node) (
          patch_ignoring env is_not_found
            (label_as healthy pod node).updated
            (label_as healthy pod node).pod)
  unfolding label_as before_labels str_eq
  label_as_right pod node healthy e = (
    (
      λ h.
          let (well, up) = (up_iff pod healthy).0 ((yes_iff v).0 (sym labelled ∙ h)) in
          ((healthy_by_iff node.conditions).0 (e ∙ ap some well), up),
      λ (well, up).
          let same : healthy ≡ true = some_true (sym e ∙ (healthy_by_iff node.conditions).1 well) in
          labelled ∙ (yes_iff v).1 ((up_iff pod healthy).1 (same, up)),
    ),
    label-set_label_self (codes "role") role inner ∙ ap (λ n. n.raft_status.role) (sym kept_node),
    λ tr h.
        let (unmoved, outer) = set_label-kept (codes "role") role inner (quiet _ _ tr h) in
        let (first, same) = set_label-kept (codes "healthy") (yes_or_no v) base unmoved in
        ap (λ l. l.pod.labels) (outer ∙ same),
  )
    where
      v : Bool
      v = healthy && (not (pod_down pod) && not (mysql_not_ready pod.container_statuses))

      base : Labelled
      base = before_labels pod node

      role : Str
      role = base.node.raft_status.role

      inner : Labelled
      inner = set_label (codes "healthy") (yes_or_no v) base

      labelled : label (label_as healthy pod node).pod.labels (codes "healthy") ≡ yes_or_no v
      labelled =
          label-set_label_ne (codes "role") (codes "healthy") role inner refl
          ∙ label-set_label_self (codes "healthy") (yes_or_no v) base

      kept_node : (label_as healthy pod node).node ≡ base.node
      kept_node =
          set_label-node (codes "role") role inner
          ∙ set_label-node (codes "healthy") (yes_or_no v) base

      some_true : {b : Bool} → some b ≡ some true → b ≡ true
      some_true h = cc

  -- After updatePodLabel the pod is labelled healthy exactly if its node is healthy and the pod
  -- is up, and its role label is the role of the node; and where no call was made, the labels are
  -- those the pod had.
  pub update_pod_label_lem :
      (pod : Pod) (node : NodeStatus) (l : Labelled) (act : Act)
      → update_pod_label env is_not_found pod node ≡ some (l, act)
      → LabelledRight pod node l act
  unfolding update_pod_label label_pod
  update_pod_label_lem pod node l act h = elim (Option-cases (healthy_by node.conditions)) [
    | inl e ↦ cc (rw (e, update_pod_label, label_pod) at h)
    | inr (healthy, e) ↦
        let same : some (result healthy) ≡ some (l, act) =
          rw (e, update_pod_label, label_pod) at h in
        subst (λ x. LabelledRight pod node x.0 x.1) {x = result healthy} {y = (l, act)} (cc)
          (label_as_right pod node healthy e)
  ]
    where
      result : Bool → Labelled × Act
      result healthy =
          let made = label_as healthy pod node in
          (made, patch_ignoring env is_not_found made.updated made.pod)
