-- ===== src/Status/Pods/Healthy.antt =====
-- updatePodLabel: which nodes are healthy and which pods are up.
use radondb_mysql_kubernetes.Prelude.{
  ℕ, ◌≡◌, ◌↔◌, ◌⊎◌, inl, inr, refl, ap, Bool, true, false, Option, none, some, Option-cases, List,
  [], ◌∷◌, codes, str_eq_iff, get_elem?, All, arith,
}
use radondb_mysql_kubernetes.Kube.{
  ConditionStatus, condition_true, condition_false, condition_unknown, PodPhase, pod_running,
  pod_pending, pod_succeeded, pod_failed, pod_unknown, ContainerStatus, Pod,
}
use radondb_mysql_kubernetes.Status.Conditions.{same_status}
use radondb_mysql_kubernetes.Status.Types.{NodeCondition}
use radondb_mysql_kubernetes.Status.Pods.{
  ◌and_also◌, ◌or_also◌, status_is, healthy_by, is_running, mysql_not_ready,
}

-- The condition at an index has this status.
abbrev pub StatusAt : List NodeCondition → ℕ → ConditionStatus → Type 0
StatusAt conditions i status =
    (cond : NodeCondition) × (get_elem? conditions i ≡ some cond) × (cond.status ≡ status)

-- A node is healthy as a follower, read-only and replicating, or as a leader that is neither.
abbrev pub HealthyNode : List NodeCondition → Type 0
HealthyNode cs =
    StatusAt cs 0 condition_false
    × ((StatusAt cs 1 condition_false × StatusAt cs 2 condition_true × StatusAt cs 3 condition_true)
        ⊎ (StatusAt cs 1 condition_true
            × StatusAt cs 3 condition_false
            × StatusAt cs 2 condition_false))

-- A pod is up if it is not being deleted, runs, and its mysql container is ready.
abbrev pub PodUp : Pod → Type 0
PodUp pod =
    (pod.deleted ≡ false)
    × (pod.phase ≡ pod_running)
    × All (λ s. s.name ≡ codes "mysql" → s.ready ≡ true) pod.container_statuses

and_also_iff :
    (a b : Option Bool) → ((a and_also b) ≡ some true) ↔ ((a ≡ some true) × (b ≡ some true))
and_also_iff none b = ground arith
and_also_iff (some true) b = ground arith
and_also_iff (some false) b = ground arith

same_status_iff : (a b : ConditionStatus) → (same_status a b ≡ true) ↔ (a ≡ b)
unfolding same_status
same_status_iff condition_true condition_true = (λ h. refl, λ h. refl)
same_status_iff condition_true condition_false = (λ h. cc, λ h. cc)
same_status_iff condition_true condition_unknown = (λ h. cc, λ h. cc)
same_status_iff condition_false condition_true = (λ h. cc, λ h. cc)
same_status_iff condition_false condition_false = (λ h. refl, λ h. refl)
same_status_iff condition_false condition_unknown = (λ h. cc, λ h. cc)
same_status_iff condition_unknown condition_true = (λ h. cc, λ h. cc)
same_status_iff condition_unknown condition_false = (λ h. cc, λ h. cc)
same_status_iff condition_unknown condition_unknown = (λ h. refl, λ h. refl)

status_is_iff :
    (cs : List NodeCondition) (i : ℕ) (status : ConditionStatus)
    → (status_is cs i status ≡ some true) ↔ StatusAt cs i status
unfolding status_is
status_is_iff cs i status = elim (Option-cases (get_elem? cs i)) [
  | inl e ↦ rw (e, status_is) (λ h. cc, λ (c, h, k). cc)
  | inr (c, e) ↦
      rw (e, status_is)
        (
          λ h. (c, refl, (same_status_iff c.status status).0 (cc)),
          λ (c', h, k).
              let same : same_status c.status status ≡ true =
                (same_status_iff c.status status).1 (cc) in
              ap some same,
        )
]

pub is_running_iff : (phase : PodPhase) → (is_running phase ≡ true) ↔ (phase ≡ pod_running)
unfolding is_running
is_running_iff pod_pending = (λ h. cc, λ h. cc)
is_running_iff pod_running = (λ h. refl, λ h. refl)
is_running_iff pod_succeeded = (λ h. cc, λ h. cc)
is_running_iff pod_failed = (λ h. cc, λ h. cc)
is_running_iff pod_unknown = (λ h. cc, λ h. cc)

pub mysql_not_ready_iff :
    (statuses : List ContainerStatus)
    → (mysql_not_ready statuses ≡ false)
      ↔ All (λ s. s.name ≡ codes "mysql" → s.ready ≡ true) statuses
unfolding mysql_not_ready
mysql_not_ready_iff [] = (λ h. tt, λ h. refl)
mysql_not_ready_iff (s ∷ statuses) =
    ground (arith, str_eq_iff s.name (codes "mysql"), mysql_not_ready_iff statuses)

both_iff :
    {a b : Option Bool} {A B : Type 0}
    → (a ≡ some true) ↔ A
    → (b ≡ some true) ↔ B
    → ((a and_also b) ≡ some true) ↔ (A × B)
both_iff {a = a} {b = b} f g = (
  λ h. let (x, y) = (and_also_iff a b).0 h in (f.0 x, g.0 y),
  λ (x, y). (and_also_iff a b).1 (f.1 x, g.1 y),
)

three_iff :
    {a b c : Option Bool} {A B C : Type 0}
    → (a ≡ some true) ↔ A
    → (b ≡ some true) ↔ B
    → (c ≡ some true) ↔ C
    → ((a and_also b and_also c) ≡ some true) ↔ (A × B × C)
three_iff f g h =
    let (to, from) = both_iff f (both_iff g h) in
    (λ e. let (x, (y, z)) = to e in (x, y, z), λ (x, y, z). from (x, (y, z)))

-- The second test is made if the first is false.
either_iff :
    {a b : Option Bool} {A B : Type 0}
    → (a ≡ some true) ↔ A
    → (b ≡ some true) ↔ B
    → (B → a ≡ some false)
    → ((a or_also b) ≡ some true) ↔ (A ⊎ B)
either_iff {a = none} {b = b} f g skip = ground (arith, f, g, skip)
either_iff {a = some true} {b = b} f g skip = ground (arith, f, g, skip)
either_iff {a = some false} {b = b} f g skip = ground (arith, f, g, skip)

status_other_than :
    (cs : List NodeCondition) (i : ℕ)
    → StatusAt cs i condition_true
    → status_is cs i condition_false ≡ some false
unfolding status_is same_status
status_other_than cs i (c, e, k) = rw (e, status_is, k)

pub healthy_by_iff : (cs : List NodeCondition) → (healthy_by cs ≡ some true) ↔ HealthyNode cs
unfolding healthy_by
healthy_by_iff cs = both_iff (status_is_iff cs 0 condition_false) (
    either_iff
      (three_iff (status_is_iff cs 1 condition_false) (status_is_iff cs 2 condition_true)
        (status_is_iff cs 3 condition_true))
      (three_iff (status_is_iff cs 1 condition_true) (status_is_iff cs 3 condition_false)
        (status_is_iff cs 2 condition_false))
      λ (leader, rest, more). rw (status_other_than cs 1 leader))
