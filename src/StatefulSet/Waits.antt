-- ===== src/StatefulSet/Waits.antt =====
-- applyNWait: what it has seen when it ends without an error.
use radondb_mysql_kubernetes.Prelude.{
  ℕ, ℤ, ◌≡◌, ◌⊎◌, inl, inr, refl, sym, ap, true, none, List, [], ◌∷◌, Str, codes, Error, Result, ok,
  err, In, label, str_eq_iff, arith,
}
use radondb_mysql_kubernetes.Kube.{Pod}
use radondb_mysql_kubernetes.StatefulSet.{
  Read, read, not_found, failed, revision_label, beyond, Verdict, again, done, stop, judge_pod,
  wait_updated,
}
use radondb_mysql_kubernetes.Utils.{get_ordinal}

-- The pod has been scaled away, or it is healthy with the new revision.
abbrev pub Settled : ℕ → Str → Pod → Type 0
Settled replicas revision p =
    (ordinal : ℤ) × (get_ordinal p.name ≡ ok ordinal)
    × ((beyond replicas ordinal ≡ true)
        ⊎ ((label p.labels (codes "healthy") ≡ codes "yes")
            × (label p.labels revision_label ≡ revision)))

judge_pod-Settled :
    (replicas : ℕ) (revision : Str) (p : Pod) (o : Result ℤ)
    → get_ordinal p.name ≡ o
    → judge_pod replicas revision p o ≡ done
    → Settled replicas revision p
unfolding judge_pod
judge_pod-Settled replicas revision p (err x) e h = cc
judge_pod-Settled replicas revision p (ok ordinal) e h = (
  ordinal,
  e,
  ground (
    arith,
    str_eq_iff (label p.labels (codes "healthy")) (codes "yes"),
    str_eq_iff (label p.labels revision_label) revision,
  ),
)

Verdict-cases : (v : Verdict) → (v ≡ again) ⊎ (v ≡ done) ⊎ ((e : Error) × (v ≡ stop e))
Verdict-cases again = inl refl
Verdict-cases done = inr (inl refl)
Verdict-cases (stop e) = inr (inr (e, refl))

-- Where the wait ends without an error, the pod it was given or one that it read is settled.
pub wait_updated_lem :
    (replicas : ℕ) (revision : Str) (pod : Pod) (reads : List Read)
    → wait_updated replicas revision pod reads ≡ none
    → (p : Pod) × ((p ≡ pod) ⊎ In (read p) reads) × Settled replicas revision p
unfolding wait_updated
wait_updated_lem replicas revision pod [] h = cc
wait_updated_lem replicas revision pod (failed e ∷ reads) h = cc
wait_updated_lem replicas revision pod (not_found ∷ reads) h =
    elim (Verdict-cases (judge_pod replicas revision pod (get_ordinal pod.name))) [
      | inl e ↦ later (wait_updated_lem replicas revision pod reads (rw (e, wait_updated) at h))
      | inr (inl e) ↦ (pod, inl refl, judge_pod-Settled replicas revision pod _ refl e)
      | inr (inr (x, e)) ↦ cc (rw (e, wait_updated) at h)
    ]
  where
    later :
        (p : Pod) × ((p ≡ pod) ⊎ In (read p) reads) × Settled replicas revision p
        → (p : Pod) × ((p ≡ pod) ⊎ In (read p) (not_found ∷ reads)) × Settled replicas revision p
    later (p, inl e, s) = (p, inl e, s)
    later (p, inr m, s) = (p, inr (In.there m), s)
wait_updated_lem replicas revision pod (read q ∷ reads) h =
    elim (Verdict-cases (judge_pod replicas revision q (get_ordinal q.name))) [
      | inl e ↦ later (wait_updated_lem replicas revision q reads (rw (e, wait_updated) at h))
      | inr (inl e) ↦ (q, inr (In.here refl), judge_pod-Settled replicas revision q _ refl e)
      | inr (inr (x, e)) ↦ cc (rw (e, wait_updated) at h)
    ]
  where
    later :
        (p : Pod) × ((p ≡ q) ⊎ In (read p) reads) × Settled replicas revision p
        → (p : Pod) × ((p ≡ pod) ⊎ In (read p) (read q ∷ reads)) × Settled replicas revision p
    later (p, inl e, s) = (p, inr (In.here (ap read (sym e))), s)
    later (p, inr m, s) = (p, inr (In.there m), s)
