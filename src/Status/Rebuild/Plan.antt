-- ===== src/Status/Rebuild/Plan.antt =====
-- AutoRebuild and DoRoRebuild: the calls that a rebuild plans, and how far it gets.
use radondb_mysql_kubernetes.Prelude.{
  ℤ, ◌≡◌, ◌≢◌, ◌⊎◌, inl, inr, refl, sym, ap, subst, Bool-cases, Option, none, some, Option-cases,
  List, [], ◌∷◌, Str, codes, Error, if◌then◌else◌, is_empty, is_empty_iff, err, ok, Result-cases,
  str_eq, str_eq_iff, label, atoi,
}
use radondb_mysql_kubernetes.Cluster.{stateful_set, read_only_headless_svc}
use radondb_mysql_kubernetes.Cluster.Spec.{MysqlCluster}
use radondb_mysql_kubernetes.Kube.{
  Pod, Env, Act, Call, Trace, succeed, fail, ◌>>◌, perform, run_all, update_pod, delete_pod,
  get_pvc, delete_pvc,
}
use radondb_mysql_kubernetes.Kube.Runs.{>>_succeed, Ran, run_all-Ran}
use radondb_mysql_kubernetes.Status.Rebuild.{
  Source, found, missing, gave_up, search_source, with_label, rebuild_label, shared_labels,
  pvc_name, remove_pod, remove_pvc, from_source, from_number, choose_source, auto_rebuild,
  do_ro_rebuild,
}
use radondb_mysql_kubernetes.Utils.{get_ordinal}

-- A pod is marked unhealthy, then deleted, and only then its volume claim.
abbrev pub removal : Pod → List Call → List Call
removal pod pvc =
    update_pod (with_label (codes "healthy") (codes "no") pod)
    ∷ delete_pod (with_label (codes "healthy") (codes "no") pod)
    ∷ pvc

abbrev pub pvc_calls : Str → List Call
pvc_calls name = get_pvc name ∷ delete_pvc name ∷ []

-- The calls of a rebuild: of the pod alone, or after marking the pod to rebuild from, whose
-- number the label is; none where a pod without a number is met before it.
pub data Plan (share : Pod → Pod → Pod) (pvc : List Call) (pod : Pod) (items : List Pod)
    : List Call → Type 0 where
  alone : label pod.labels rebuild_label ≡ codes "true" → Plan share pvc pod items (removal pod pvc)
  unmarked :
      (n : ℤ)
      → atoi (label pod.labels rebuild_label) ≡ some n
      → search_source n items ≡ missing
      → Plan share pvc pod items (removal pod pvc)
  marked :
      (n : ℤ) (other : Pod)
      → atoi (label pod.labels rebuild_label) ≡ some n
      → search_source n items ≡ found other
      → Plan share pvc pod items (
          update_pod (with_label (codes "rebuild-from") (codes "true") other)
          ∷ removal (share other pod) pvc)
  abandoned :
      (n : ℤ)
      → atoi (label pod.labels rebuild_label) ≡ some n
      → search_source n items ≡ gave_up
      → Plan share pvc pod items []

-- The label is neither `true` nor a number.
abbrev pub BadLabel : Pod → Type 0
BadLabel pod =
    (label pod.labels rebuild_label ≢ codes "true") × (atoi (label pod.labels rebuild_label) ≡ none)

module _ (env : Env) where
  remove_pvc-run_all : (name : Str) → remove_pvc env name ≡ run_all env (pvc_calls name)
  unfolding remove_pvc run_all
  remove_pvc-run_all name = ap (λ m. perform env (get_pvc name) >> m) (sym (>>_succeed _))

  remove_pod-run_all :
      (pod : Pod) (rest : Act) (pvc : List Call)
      → rest ≡ run_all env pvc
      → remove_pod env pod rest ≡ run_all env (removal pod pvc)
  unfolding remove_pod run_all
  remove_pod-run_all pod rest pvc e =
      ap
        (λ m.
          perform env (update_pod (with_label (codes "healthy") (codes "no") pod))
          >> (perform env (delete_pod (with_label (codes "healthy") (codes "no") pod)) >> m))
        e

  -- What the choice of the source comes to: an error, or the calls of a plan.
  abbrev Chosen : (Pod → Pod → Pod) → List Call → Pod → List Pod → Act → Type 0
  Chosen share pvc pod items m =
      (BadLabel pod × (m ≡ fail (codes "rebuild label should be true, or number")))
      ⊎ ((calls : List Call) × Plan share pvc pod items calls × (m ≡ run_all env calls))

  from_source-Chosen :
      (share : Pod → Pod → Pod) (pvc : List Call) (pod : Pod) (items : List Pod) (k : Pod → Act)
      (n : ℤ) (source : Source)
      → ((p : Pod) → k p ≡ run_all env (removal p pvc))
      → atoi (label pod.labels rebuild_label) ≡ some n
      → search_source n items ≡ source
      → Chosen share pvc pod items (from_source env source pod share k)
  unfolding from_source run_all
  from_source-Chosen share pvc pod items k n missing kp num e =
      inr (removal pod pvc, Plan.unmarked n num e, kp pod)
  from_source-Chosen share pvc pod items k n gave_up kp num e =
      inr ([], Plan.abandoned n num e, refl)
  from_source-Chosen share pvc pod items k n (found other) kp num e = inr (
    update_pod (with_label (codes "rebuild-from") (codes "true") other)
        ∷ removal (share other pod) pvc,
    Plan.marked n other num e,
    ap (λ m. perform env (update_pod (with_label (codes "rebuild-from") (codes "true") other)) >> m)
        (kp (share other pod)),
  )

  choose_source-Chosen :
      (share : Pod → Pod → Pod) (pvc : List Call) (pod : Pod) (items : List Pod) (k : Pod → Act)
      → ((p : Pod) → k p ≡ run_all env (removal p pvc))
      → Chosen share pvc pod items (choose_source env pod items share k)
  unfolding choose_source from_number
  choose_source-Chosen share pvc pod items k kp =
      elim (Bool-cases (str_eq (label pod.labels rebuild_label) (codes "true"))) [
        | inl e ↦
            subst (Chosen share pvc pod items) (rw (e, choose_source))
              (inr (removal pod pvc, Plan.alone ((str_eq_iff _ _).0 e), kp pod))
        | inr e ↦ elim (Option-cases (atoi (label pod.labels rebuild_label))) [
          | inl num ↦
              subst (Chosen share pvc pod items) (rw (e, num, choose_source, from_number))
                (inl ((λ t. cc ((str_eq_iff _ _).1 t), num), refl))
          | inr (n, num) ↦
              subst (Chosen share pvc pod items) (rw (e, num, choose_source, from_number))
                (from_source-Chosen share pvc pod items k n (search_source n items) kp num refl)
        ]
      ]

  -- How a rebuild ends: refused for the pod's name or label, with no call made, or as far as its
  -- plan went.
  abbrev pub Rebuilt :
      (Pod → Pod → Pod) → (ℤ → List Call) → Pod → List Pod → Trace → Option Error × Trace → Type 0
  Rebuilt share pvc pod items tr r =
      ((e : Error) × (get_ordinal pod.name ≡ err e) × (r ≡ (some e, tr)))
      ⊎ ((ordinal : ℤ) × (get_ordinal pod.name ≡ ok ordinal)
          × ((BadLabel pod × (r ≡ (some (codes "rebuild label should be true, or number"), tr)))
              ⊎ ((calls : List Call) × Plan share (pvc ordinal) pod items calls
                  × Ran env calls tr r)))

  Chosen-Rebuilt :
      (share : Pod → Pod → Pod) (pvc : ℤ → List Call) (pod : Pod) (items : List Pod) (tr : Trace)
      (ordinal : ℤ) (m : Act)
      → get_ordinal pod.name ≡ ok ordinal
      → Chosen share (pvc ordinal) pod items m
      → Rebuilt share pvc pod items tr (m tr)
  unfolding fail
  Chosen-Rebuilt share pvc pod items tr ordinal m e (inl (bad, h)) =
      inr (ordinal, e, inl (bad, ap (λ a. a tr) h))
  Chosen-Rebuilt share pvc pod items tr ordinal m e (inr (calls, plan, h)) = inr (
    ordinal,
    e,
    inr (calls, plan, subst (λ a. Ran env calls tr (a tr)) (sym h) (run_all-Ran env calls tr)),
  )

  module _ (c : MysqlCluster) where
    -- On 8.0 no call for the volume claim is planned.
    abbrev pub auto_pvc : ℤ → List Call
    auto_pvc ordinal =
        if str_eq c.mysql_version (codes "8.0")
        then []
        else pvc_calls (pvc_name c stateful_set ordinal)

    auto_rest : ℤ → Act
    auto_rest ordinal =
        if str_eq c.mysql_version (codes "8.0")
        then succeed
        else remove_pvc env (pvc_name c stateful_set ordinal)

    auto_rest-run_all : (ordinal : ℤ) → auto_rest ordinal ≡ run_all env (auto_pvc ordinal)
    unfolding run_all auto_rest
    auto_rest-run_all ordinal = elim (Bool-cases (str_eq c.mysql_version (codes "8.0"))) [
      | inl e ↦ rw (e, auto_rest)
      | inr e ↦ rw (e, auto_rest) (remove_pvc-run_all (pvc_name c stateful_set ordinal))
    ]

    pub auto_rebuild_lem :
        (pod : Pod) (items : List Pod) (tr : Trace)
        → Rebuilt shared_labels auto_pvc pod items tr (auto_rebuild env c pod items tr)
    unfolding auto_rebuild fail auto_rest
    auto_rebuild_lem pod items tr = elim (Result-cases (get_ordinal pod.name)) [
      | inl (e, h) ↦ inl (e, h, rw (h, auto_rebuild))
      | inr (ordinal, h) ↦
          subst (Rebuilt shared_labels auto_pvc pod items tr) (rw (h, auto_rebuild)) (
            Chosen-Rebuilt shared_labels auto_pvc pod items tr ordinal _ h (
              choose_source-Chosen shared_labels (auto_pvc ordinal) pod items _ λ p.
                remove_pod-run_all p (auto_rest ordinal) (auto_pvc ordinal)
                  (auto_rest-run_all ordinal)))
    ]

    abbrev pub ro_pvc : ℤ → List Call
    ro_pvc ordinal = pvc_calls (pvc_name c read_only_headless_svc ordinal)

    -- DoRoRebuild does so for a read-only pod, whose volume claim is always deleted; without the label it makes no call.
    pub do_ro_rebuild_lem :
        (pod : Pod) (items : List Pod) (tr : Trace)
        → ((label pod.labels rebuild_label ≡ []) × (do_ro_rebuild env c pod items tr ≡ (none, tr)))
          ⊎ Rebuilt (λ other p. p) ro_pvc pod items tr (do_ro_rebuild env c pod items tr)
    unfolding do_ro_rebuild succeed fail
    do_ro_rebuild_lem pod items tr = elim (Bool-cases (is_empty (label pod.labels rebuild_label))) [
      | inl e ↦ inl ((is_empty_iff _).0 e, rw (e, do_ro_rebuild) refl)
      | inr e ↦ inr (elim (Result-cases (get_ordinal pod.name)) [
        | inl (x, h) ↦ inl (x, h, rw (e, h, do_ro_rebuild))
        | inr (ordinal, h) ↦
            subst (Rebuilt (λ other p. p) ro_pvc pod items tr) (rw (e, h, do_ro_rebuild)) (
              Chosen-Rebuilt (λ other p. p) ro_pvc pod items tr ordinal _ h
                (choose_source-Chosen (λ other p. p) (ro_pvc ordinal) pod items _
                  λ p. remove_pod-run_all p _ (ro_pvc ordinal) (remove_pvc-run_all _)))
      ])
    ]
