-- ===== src/Status/Conditions/Ready.antt =====
-- Sync's conditions when the pods are all ready: when it panics, and what it leaves true.
use radondb_mysql_kubernetes.Prelude.{
  ℕ, suc, Str, ◌<◌, ◌≤◌, ◌≡◌, ◌≢◌, refl, true, false, Option, none, some, List, [], ◌∷◌, length,
  get_elem?_lt, ◌∙◌, ◌⊎◌, inl, inr, Bool-cases, ltb, ltb→lt, not, ◌&&◌, ◌==◌, arith,
}
use radondb_mysql_kubernetes.Kube.{ConditionStatus}
use radondb_mysql_kubernetes.Status.Types.{
  ClusterStatus, ClusterCondition, ready_state, condition_ready,
}
use radondb_mysql_kubernetes.Status.Conditions.{
  mark_ready, judge_xenon, settle_ready, clear_rounds, clear_round, update_cluster_condition,
}
use radondb_mysql_kubernetes.Status.Conditions.Transitions.{
  status_at, update_cluster_condition_at, update_cluster_condition_other,
}

-- Too few conditions: the round for `ClIndexScaleOut`, or one before it, is out of range.
mark_ready_short :
    (cond : ClusterCondition) (s : ClusterStatus) (conditions : List ClusterCondition)
    → s.conditions ≡ conditions
    → length conditions < 7
    → mark_ready cond s ≡ none
unfolding mark_ready clear_rounds clear_round update_cluster_condition
mark_ready_short cond s [] e h = ground (arith, e)
mark_ready_short cond s (c0 ∷ []) e h = ground (arith, e)
mark_ready_short cond s (c0 ∷ c1 ∷ []) e h = ground (arith, e)
mark_ready_short cond s (c0 ∷ c1 ∷ c2 ∷ []) e h = ground (arith, e)
mark_ready_short cond s (c0 ∷ c1 ∷ c2 ∷ c3 ∷ []) e h = ground (arith, e)
mark_ready_short cond s (c0 ∷ c1 ∷ c2 ∷ c3 ∷ c4 ∷ []) e h = ground (arith, e)
mark_ready_short cond s (c0 ∷ c1 ∷ c2 ∷ c3 ∷ c4 ∷ c5 ∷ []) e h = ground (arith, e)
mark_ready_short cond s (c0 ∷ c1 ∷ c2 ∷ c3 ∷ c4 ∷ c5 ∷ c6 ∷ cs) e h = absurd (omega arith)

-- The conditions for initializing, ready, scaling in and scaling out have this status.
abbrev pub AllHave : ConditionStatus → ClusterStatus → Type 0
AllHave b s =
    (status_at 0 s ≡ some b)
    × (status_at 2 s ≡ some b)
    × (status_at 5 s ≡ some b)
    × (status_at 6 s ≡ some b)

update_cluster_condition-state :
    (i : ℕ) (cond : ClusterCondition) (s : ClusterStatus)
    → (update_cluster_condition i cond false s).state ≡ s.state
unfolding update_cluster_condition
update_cluster_condition-state i cond s = ground arith

status_other :
    (i j : ℕ) (cond : ClusterCondition) (s : ClusterStatus)
    → i < length s.conditions
    → i ≢ j
    → status_at j (update_cluster_condition i cond false s) ≡ status_at j s
status_other i j cond s h ne = rw (update_cluster_condition_other i j cond false s h ne).1

length_kept :
    (i : ℕ) (cond : ClusterCondition) (s : ClusterStatus)
    → i < length s.conditions
    → length (update_cluster_condition i cond false s).conditions ≡ length s.conditions
length_kept i cond s h = (update_cluster_condition_other i (suc i) cond false s h (omega arith)).0

clear_rounds_step :
    (cond : ClusterCondition) (ind : ℕ) (inds : List ℕ) (s : ClusterStatus)
    → ind < length s.conditions
    → clear_rounds cond (ind ∷ inds) s
      ≡ clear_rounds cond inds (update_cluster_condition ind cond false s)
unfolding clear_rounds clear_round
clear_rounds_step cond ind inds s h =
    let (old, e) = get_elem?_lt s.conditions ind h in rw (e, clear_rounds, clear_round)

module _ (cond : ClusterCondition) (s : ClusterStatus) (enough : 7 ≤ length s.conditions) where
  abbrev written : ClusterCondition
  written = record cond { kind = condition_ready }

  abbrev write : ℕ → ClusterStatus → ClusterStatus
  write i t = update_cluster_condition i written false t

  abbrev readied : ClusterStatus
  readied = record s { state = ready_state }

  length_1 : length (write 2 readied).conditions ≡ length s.conditions
  length_1 = length_kept 2 written readied (omega (arith, enough))

  length_2 : length (write 0 (write 2 readied)).conditions ≡ length s.conditions
  length_2 = length_kept 0 written (write 2 readied) (omega (arith, enough, length_1)) ∙ length_1

  length_3 : length (write 5 (write 0 (write 2 readied))).conditions ≡ length s.conditions
  length_3 =
      length_kept 5 written (write 0 (write 2 readied)) (omega (arith, enough, length_2)) ∙ length_2

  rounds :
      clear_rounds written (0 ∷ 5 ∷ 6 ∷ []) (write 2 readied)
      ≡ some (write 6 (write 5 (write 0 (write 2 readied))))
  rounds =
      clear_rounds_step written 0 (5 ∷ 6 ∷ []) (write 2 readied) (omega (arith, enough, length_1))
      ∙ clear_rounds_step written 5 (6 ∷ []) (write 0 (write 2 readied))
          (omega (arith, enough, length_2))
      ∙ clear_rounds_step written 6 [] (write 5 (write 0 (write 2 readied)))
          (omega (arith, enough, length_3))
      ∙ (unfold clear_rounds in refl)

  final_state : (write 6 (write 5 (write 0 (write 2 readied)))).state ≡ ready_state
  final_state =
      update_cluster_condition-state 6 written _
      ∙ update_cluster_condition-state 5 written _
      ∙ update_cluster_condition-state 0 written _
      ∙ update_cluster_condition-state 2 written readied

  final_true : AllHave cond.status (write 6 (write 5 (write 0 (write 2 readied))))
  final_true = (
    status_other 6 0 written _ (omega (arith, enough, length_3)) (omega arith)
        ∙ status_other 5 0 written _ (omega (arith, enough, length_2)) (omega arith)
        ∙ update_cluster_condition_at 0 written false _ (omega (arith, enough, length_1)),
    status_other 6 2 written _ (omega (arith, enough, length_3)) (omega arith)
        ∙ status_other 5 2 written _ (omega (arith, enough, length_2)) (omega arith)
        ∙ status_other 0 2 written _ (omega (arith, enough, length_1)) (omega arith)
        ∙ update_cluster_condition_at 2 written false readied (omega (arith, enough)),
    status_other 6 5 written _ (omega (arith, enough, length_3)) (omega arith)
        ∙ update_cluster_condition_at 5 written false _ (omega (arith, enough, length_2)),
    update_cluster_condition_at 6 written false _ (omega (arith, enough, length_3)),
  )

  -- With enough conditions Sync goes on, and the four conditions have the status of its own.
  mark_ready_long :
      (s' : ClusterStatus) × (mark_ready cond s ≡ some s')
      × (s'.state ≡ ready_state)
      × AllHave cond.status s'
  unfolding mark_ready
  mark_ready_long =
      (write 6 (write 5 (write 0 (write 2 readied))), mark_ready_rounds, final_state, final_true)
    where
      mark_ready_rounds : mark_ready cond s ≡ some (write 6 (write 5 (write 0 (write 2 readied))))
      mark_ready_rounds = rounds

settle_ready_called :
    (xenon : Option Str) (replicas : ℕ) (cond : ClusterCondition) (s : ClusterStatus)
    → 0 < replicas
    → settle_ready xenon replicas replicas cond s
      ≡ judge_xenon xenon cond (record s { ready_nodes = replicas })
unfolding settle_ready
settle_ready_called xenon replicas cond s h = rw (test, settle_ready)
  where
    test : (replicas == replicas && not (replicas == 0)) ≡ true
    test = ground arith

-- Sync on a cluster whose pods are all ready, after reconcileXenon has returned no error: with six
-- conditions or fewer it indexes out of range and panics; with seven or more it makes the cluster
-- ready, and the conditions for initializing, scaling in and scaling out get the status of its
-- own condition, as that for ready does.
pub settle_ready_lem :
    (replicas : ℕ) (cond : ClusterCondition) (s : ClusterStatus)
    → 0 < replicas
    → ((length s.conditions < 7) × (settle_ready none replicas replicas cond s ≡ none))
      ⊎ ((7 ≤ length s.conditions)
          × ((s' : ClusterStatus) × (settle_ready none replicas replicas cond s ≡ some s')
              × (s'.state ≡ ready_state)
              × AllHave cond.status s'))
settle_ready_lem replicas cond s h = elim (Bool-cases (ltb (length s.conditions) 7)) [
  | inl few ↦
      inl (ltb→lt _ _ few, called ∙ mark_ready_short cond s' s.conditions refl (ltb→lt _ _ few))
  | inr many ↦
      let (t, e, state, all) = mark_ready_long cond s' (ground arith) in
      inr (ground arith, (t, called ∙ e, state, all))
]
  where
    s' : ClusterStatus
    s' = record s { ready_nodes = replicas }

    called : settle_ready none replicas replicas cond s ≡ mark_ready cond s'
    called = settle_ready_called none replicas cond s h ∙ (unfold judge_xenon in refl)
