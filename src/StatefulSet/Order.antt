-- ===== src/StatefulSet/Order.antt =====
-- updatePod: the order in which the pods are updated.
use radondb_mysql_kubernetes.Prelude.{
  ℕ, ◌==◌, ltb, ◌<◌, ◌≡◌, ◌⊎◌, inl, inr, refl, sym, ap, ◌∙◌, subst, Bool, true, false, Bool-cases,
  Option, none, some, Option-cases, List, [], ◌∷◌, ◌++◌, codes, Error, ok, All, In, str_eq, label,
  str_eq_iff, arith,
}
use radondb_mysql_kubernetes.Kube.{Pod, Env, Act, Trace, succeed, fail, ◌>>◌}
use radondb_mysql_kubernetes.Kube.Runs.{>>_succeed, >>_none, >>_success}
use radondb_mysql_kubernetes.StatefulSet.{
  Polls, SetStatus, poll_healthy, apply_n_wait, apply_leader, is_leader, update_each, update_pods,
}

-- The pod is labelled as the leader.
abbrev pub Leads : Pod → Type 0
Leads pod = label pod.labels (codes "role") ≡ codes "LEADER"

-- The order of the update of pods that were found in one order, with the leader found before: it
-- comes behind them all. Without one, the order is kept where no pod leads, and the first pod that
-- leads moves to the end.
abbrev pub Arranged : Option Pod → List Pod → List Pod → Type 0
Arranged (some leader) found order = order ≡ found ++ leader ∷ []
Arranged none found order =
    ((order ≡ found) × All (λ p. ¬ Leads p) found)
    ⊎ ((before : List Pod) × (leader : Pod) × (after : List Pod) × (found
          ≡ before ++ leader ∷ after)
        × All (λ p. ¬ Leads p) before
        × Leads leader
        × (order ≡ before ++ (after ++ leader ∷ [])))

-- The poll for a pod has found it healthy: the pod as it was listed, or as the poll has read it.
abbrev pub FoundHealthy : Polls → Pod → Pod → Type 0
FoundHealthy polls pod p =
    (label p.labels (codes "healthy") ≡ codes "yes")
    × ((p ≡ pod) ⊎ ((tr : Trace) × In (some p) (polls.health tr pod)))

-- All pods of the set are updated, or some is not ready.
abbrev pub Idle : SetStatus → Type 0
Idle status =
    (status.updated_replicas ≡ status.replicas_of_set) ⊎ (status.ready_replicas < status.replicas)

-- Each listed pod was found healthy, in the order of the list.
abbrev pub AllFound : Polls → List Pod → List Pod → Type 0
AllFound polls [] [] = Unit
AllFound polls [] (p ∷ found) = ⊥
AllFound polls (pod ∷ pods) [] = ⊥
AllFound polls (pod ∷ pods) (p ∷ found) = FoundHealthy polls pod p × AllFound polls pods found

Read : Pod → List (Option Pod) → Pod → Type 0
Read pod reads p =
    (label p.labels (codes "healthy") ≡ codes "yes") × ((p ≡ pod) ⊎ In (some p) reads)

earlier_reading :
    (x p : Pod) (reads : List (Option Pod))
    → (p ≡ x) ⊎ In (some p) reads
    → In (some p) (some x ∷ reads)
earlier_reading x p reads (inl e) = In.here (ap some (sym e))
earlier_reading x p reads (inr m) = In.there m

poll_healthy-Read :
    (pod : Pod) (reads : List (Option Pod)) (p : Pod)
    → poll_healthy pod reads ≡ some p
    → Read pod reads p
unfolding poll_healthy Read
poll_healthy-Read pod [] p h = cc
poll_healthy-Read pod (none ∷ reads) p h =
    elim (Bool-cases (str_eq (label pod.labels (codes "healthy")) (codes "yes"))) [
      | inl e ↦
          let same : some pod ≡ some p = rw (e, poll_healthy) at h in
          let it : pod ≡ p = cc in
          (
            subst (λ x. label x.labels (codes "healthy") ≡ codes "yes") it ((str_eq_iff _ _).0 e),
            inl (sym it),
          )
      | inr e ↦
          let (healthy, from) = poll_healthy-Read pod reads p (rw (e, poll_healthy) at h) in
          (healthy, elim from [ inl same ↦ inl same | inr m ↦ inr (In.there m) ])
    ]
poll_healthy-Read pod (some x ∷ reads) p h =
    elim (Bool-cases (str_eq (label x.labels (codes "healthy")) (codes "yes"))) [
      | inl e ↦
          let same : some x ≡ some p = rw (e, poll_healthy) at h in
          let it : x ≡ p = cc in
          (
            subst (λ y. label y.labels (codes "healthy") ≡ codes "yes") it ((str_eq_iff _ _).0 e),
            inr (earlier_reading x p reads (inl (sym it))),
          )
      | inr e ↦
          let (healthy, from) = poll_healthy-Read x reads p (rw (e, poll_healthy) at h) in
          (healthy, inr (earlier_reading x p reads from))
    ]

module _ (env : Env) (polls : Polls) (spec_replicas : ℕ) (status : SetStatus) where
  -- The updates of the pods of a list, one after the other, up to the first that fails.
  pub apply_all : List Pod → Act
  apply_all [] = succeed
  apply_all (pod ∷ pods) = apply_n_wait env polls spec_replicas status pod >> apply_all pods

  -- A successful loop is the updates of the listed pods as they were found healthy, each once, in
  -- the order of the list but for the leader, which comes last.
  abbrev pub Ordered : Option Pod → List Pod → Trace → Option Error × Trace → Type 0
  Ordered leader pods tr r =
      (found : List Pod) × (order : List Pod) × AllFound polls pods found
      × Arranged leader found order
      × (r ≡ apply_all order tr)

  Arranged-cons :
      (leader : Option Pod) (p : Pod) (found order : List Pod)
      → is_leader env polls spec_replicas status p leader ≡ false
      → Arranged leader found order
      → Arranged leader (p ∷ found) (p ∷ order)
  unfolding is_leader
  Arranged-cons (some leader) p found order e h = ap (λ l. p ∷ l) h
  Arranged-cons none p found order e (inl (h, all)) = inl (
    ap (λ l. p ∷ l) h,
    (λ leads. cc ((str_eq_iff (label p.labels (codes "role")) (codes "LEADER")).1 leads), all),
  )
  Arranged-cons none p found order e (inr (before, leader, after, h, all, leads, g)) = inr (
    p ∷ before,
    leader,
    after,
    ap (λ l. p ∷ l) h,
    (λ k. cc ((str_eq_iff (label p.labels (codes "role")) (codes "LEADER")).1 k), all),
    leads,
    ap (λ l. p ∷ l) g,
  )

  -- The pod is the leader: it is kept for the end.
  held :
      (leader : Option Pod) (pod p : Pod) (pods : List Pod) (tr : Trace) (r : Option Error × Trace)
      → is_leader env polls spec_replicas status p leader ≡ true
      → FoundHealthy polls pod p
      → Ordered (some p) pods tr r
      → Ordered leader (pod ∷ pods) tr r
  unfolding is_leader
  held (some leader) pod p pods tr r l f ordered = cc
  held none pod p pods tr r l f (found, order, all, last, e) =
      (p ∷ found, order, (f, all), inr ([], p, found, refl, tt, (str_eq_iff _ _).0 l, last), e)

  -- The pod is updated now.
  next :
      (leader : Option Pod) (pod p : Pod) (pods : List Pod) (tr : Trace) (r : Option Error × Trace)
      → is_leader env polls spec_replicas status p leader ≡ false
      → FoundHealthy polls pod p
      → (apply_n_wait env polls spec_replicas status p tr).0 ≡ none
      → Ordered leader pods (apply_n_wait env polls spec_replicas status p tr).1 (
          update_each env polls spec_replicas status pods leader
            (apply_n_wait env polls spec_replicas status p tr).1)
      → r
        ≡ update_each env polls spec_replicas status pods leader
            (apply_n_wait env polls spec_replicas status p tr).1
      → Ordered leader (pod ∷ pods) tr r
  unfolding apply_all
  next leader pod p pods tr r l f first (found, order, all, last, e) rest = (
    p ∷ found,
    p ∷ order,
    (f, all),
    Arranged-cons leader p found order l last,
    rest
        ∙ e
        ∙ sym (>>_none (apply_n_wait env polls spec_replicas status p) (apply_all order) tr first),
  )

  found_at :
      (pod p : Pod) (tr : Trace)
      → poll_healthy pod (polls.health tr pod) ≡ some p
      → FoundHealthy polls pod p
  unfolding Read
  found_at pod p tr e =
      let (healthy, from) = poll_healthy-Read pod (polls.health tr pod) p e in
      (healthy, elim from [ inl same ↦ inl same | inr m ↦ inr (tr, m) ])

  update_each-Ordered :
      (pods : List Pod) (leader : Option Pod) (tr : Trace)
      → (update_each env polls spec_replicas status pods leader tr).0 ≡ none
      → Ordered leader pods tr (update_each env polls spec_replicas status pods leader tr)
  unfolding update_each apply_leader apply_all
  update_each-Ordered [] none tr h = ([], [], tt, inl (refl, tt), refl)
  update_each-Ordered [] (some leader) tr h = (
    [],
    leader ∷ [],
    tt,
    refl,
    ap (λ m. m tr) (sym (>>_succeed (apply_n_wait env polls spec_replicas status leader))),
  )
  update_each-Ordered (pod ∷ pods) leader tr h =
      elim (Option-cases (poll_healthy pod (polls.health tr pod))) [
        | inl e ↦ cc (rw (e, update_each) at h)
        | inr (p, e) ↦ elim (Bool-cases (is_leader env polls spec_replicas status p leader)) [
          | inl l ↦ subst (Ordered leader (pod ∷ pods) tr) (rw (e, l, update_each)) (
              held leader pod p pods tr _ l (found_at pod p tr e)
                (update_each-Ordered pods (some p) tr (rw (e, l, update_each) at h)))
          | inr l ↦
              let done : ((apply_n_wait env polls spec_replicas status p
                      >> update_each env polls spec_replicas status pods leader)
                    tr).0
                  ≡ none =
                rw (e, l, update_each) at h in
              let first =
                >>_success (apply_n_wait env polls spec_replicas status p)
                  (update_each env polls spec_replicas status pods leader) tr done in
              let rest =
                >>_none (apply_n_wait env polls spec_replicas status p)
                  (update_each env polls spec_replicas status pods leader) tr first in
              subst (Ordered leader (pod ∷ pods) tr) (rw (e, l, update_each)) (
                next leader pod p pods tr _ l (found_at pod p tr e) first
                  (update_each-Ordered pods leader _ (ap (λ r. r.0) (sym rest) ∙ done)) rest)
        ]
      ]

  -- Where updatePod returns no error, it has made no call, and all pods of the set are updated or
  -- some is not ready; or neither holds, no backup runs, and it has updated each listed pod, as its
  -- poll found it healthy, once and one after the other, in the order of the list, but for the first
  -- that leads, which comes last.
  pub update_pods_order :
      (backuping : Bool) (pods : List Pod) (tr : Trace)
      → (update_pods env polls spec_replicas status backuping (ok pods) tr).0 ≡ none
      → (Idle status
          × (update_pods env polls spec_replicas status backuping (ok pods) tr ≡ (none, tr)))
        ⊎ ((¬ Idle status)
            × (backuping ≡ false)
            × Ordered none pods tr
                (update_pods env polls spec_replicas status backuping (ok pods) tr))
  unfolding update_pods succeed fail
  update_pods_order backuping pods tr h =
      elim (Bool-cases (status.updated_replicas == status.replicas_of_set)) [
        | inl e ↦ inl (inl (ground (arith, e)), rw (e, update_pods))
        | inr e ↦ elim (Bool-cases (ltb status.ready_replicas status.replicas)) [
          | inl f ↦ inl (inr (ground (arith, f)), rw (e, f, update_pods))
          | inr f ↦ elim (Bool-cases backuping) [
            | inl g ↦ cc (rw (e, f, g, update_pods) at h)
            | inr g ↦ inr (
              (λ idle. elim idle [ inl x ↦ ground (arith, e, x) | inr x ↦ ground (arith, f, x) ]),
              g,
              subst (Ordered none pods tr) (rw (e, f, g, update_pods))
                  (update_each-Ordered pods none tr (rw (e, f, g, update_pods) at h)),
            )
          ]
        ]
      ]
