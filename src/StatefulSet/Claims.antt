-- ===== src/StatefulSet/Claims.antt =====
-- updatePVC: which volume claims it deletes.
use radondb_mysql_kubernetes.Prelude.{
  ℕ, ◌==◌, ◌<◌, ◌≤◌, ℤ, pos, negsuc, ◌≡◌, inl, inr, refl, true, false, Bool-cases, List, [], ◌∷◌,
  ok, Result-cases, In, arith,
}
use radondb_mysql_kubernetes.Kube.{Env, Call, succeed, perform, delete_pvc}
use radondb_mysql_kubernetes.Kube.Makes.{Makes, succeed-Makes, perform-Makes, >>_Makes}
use radondb_mysql_kubernetes.StatefulSet.{PvcItem, beyond, remove_claims, update_pvc}
use radondb_mysql_kubernetes.Utils.{get_ordinal}

-- The claim belongs to a pod that the cluster no longer has, and is not being deleted.
abbrev pub Surplus : ℕ → PvcItem → Type 0
Surplus replicas item =
    (item.deleted ≡ false) × ((n : ℕ) × (get_ordinal item.name ≡ ok (pos n)) × (replicas ≤ n))

-- The call deletes a surplus claim of the list, while the cluster has a pod.
abbrev pub DeletesSurplus : ℕ → List PvcItem → Call → Type 0
DeletesSurplus replicas items c =
    (0 < replicas)
    × ((item : PvcItem) × In item items × Surplus replicas item × (c ≡ delete_pvc item.name))

beyond-pos :
    (replicas : ℕ) (o : ℤ) → beyond replicas o ≡ true → (n : ℕ) × (o ≡ pos n) × (replicas ≤ n)
unfolding beyond
beyond-pos replicas (pos n) h = (n, refl, ground arith)
beyond-pos replicas (negsuc n) h = cc

module _ (env : Env) (replicas : ℕ) (all : List PvcItem) (some_pod : 0 < replicas) where
  remove_claims-Makes :
      (items : List PvcItem)
      → ((item : PvcItem) → In item items → In item all)
      → Makes (DeletesSurplus replicas all) (remove_claims env replicas items)
  unfolding remove_claims
  remove_claims-Makes [] sub tr c m = succeed-Makes (DeletesSurplus replicas all) tr c m
  remove_claims-Makes (item ∷ items) sub tr c m =
      let rest : Makes (DeletesSurplus replicas all) (remove_claims env replicas items) =
        remove_claims-Makes items (λ i n. sub i (In.there n)) in
      elim (Bool-cases item.deleted) [
        | inl e ↦ rest tr c (rw (e, remove_claims) at m)
        | inr live ↦ elim (Result-cases (get_ordinal item.name)) [
          | inl (x, e) ↦ rest tr c (rw (live, e, remove_claims) at m)
          | inr (o, e) ↦ elim (Bool-cases (beyond replicas o)) [
            | inr near ↦ rest tr c (rw (live, e, near, remove_claims) at m)
            | inl far ↦
                let (n, same, le) = beyond-pos replicas o far in
                >>_Makes (DeletesSurplus replicas all) (perform env (delete_pvc item.name))
                  (remove_claims env replicas items)
                  (perform-Makes (DeletesSurplus replicas all) env (delete_pvc item.name)
                    (some_pod, (item, sub item (In.here refl), (live, (n, cc, le)), refl)))
                  rest tr c (rw (live, e, far, remove_claims) at m)
          ]
        ]
      ]

-- updatePVC deletes claims only while the cluster has a pod, and only those whose ordinal is that
-- of no pod and that are not being deleted.
pub update_pvc-Makes :
    (env : Env) (replicas : ℕ) (items : List PvcItem)
    → Makes (DeletesSurplus replicas items) (update_pvc env replicas (ok items))
unfolding update_pvc succeed
update_pvc-Makes env replicas items tr c m = elim (Bool-cases (replicas == 0)) [
  | inl e ↦ inl (rw (e, update_pvc) at m)
  | inr e ↦
      remove_claims-Makes env replicas items (ground arith) items (λ i n. n) tr c
        (rw (e, update_pvc) at m)
]
