-- ===== src/Status/Rebuild/Claims.antt =====
-- AutoRebuild on 8.0: no volume claim is deleted.
use radondb_mysql_kubernetes.Prelude.{
  ℤ, ◌≡◌, inl, inr, ap, subst, List, [], Str, codes, str_eq_iff, In, In-cons_cases, not_In_nil,
}
use radondb_mysql_kubernetes.Cluster.Spec.{MysqlCluster}
use radondb_mysql_kubernetes.Kube.{Pod, Env, Call, Trace, delete_pvc}
use radondb_mysql_kubernetes.Kube.Runs.{Ran-In}
use radondb_mysql_kubernetes.Status.Rebuild.{shared_labels, auto_rebuild}
use radondb_mysql_kubernetes.Status.Rebuild.Plan.{Plan, removal, auto_pvc, auto_rebuild_lem}

removal-In :
    (name : Str) (pod : Pod) (calls : List Call)
    → calls ≡ removal pod []
    → ¬ In (delete_pvc name) calls
removal-In name pod calls e m = elim (In-cons_cases (subst (In (delete_pvc name)) e m)) [
  | inl h ↦ cc
  | inr n ↦ elim (In-cons_cases n) [ inl h ↦ cc | inr l ↦ not_In_nil l ]
]

Plan-In :
    (name : Str) (share : Pod → Pod → Pod) (pvc : List Call) (pod : Pod) (items : List Pod)
    (calls : List Call)
    → pvc ≡ []
    → Plan share pvc pod items calls
    → ¬ In (delete_pvc name) calls
Plan-In name share pvc pod items calls e (Plan.alone h) m =
    removal-In name pod _ (ap (removal pod) e) m
Plan-In name share pvc pod items calls e (Plan.unmarked n h k) m =
    removal-In name pod _ (ap (removal pod) e) m
Plan-In name share pvc pod items calls e (Plan.marked n other h k) m = elim (In-cons_cases m) [
  | inl x ↦ cc
  | inr l ↦ removal-In name (share other pod) _ (ap (removal (share other pod)) e) l
]
Plan-In name share pvc pod items calls e (Plan.abandoned n h k) m = not_In_nil m

module _ (env : Env) (c : MysqlCluster) where
  -- On MySQL 8.0 a rebuild deletes no volume claim, whatever the API server answers.
  pub auto_rebuild_keeps_claims :
      (pod : Pod) (items : List Pod) (tr : Trace) (name : Str)
      → c.mysql_version ≡ codes "8.0"
      → In (delete_pvc name) (auto_rebuild env c pod items tr).1
      → In (delete_pvc name) tr
  auto_rebuild_keeps_claims pod items tr name v m = elim (auto_rebuild_lem env c pod items tr) [
    | inl (e, h, r) ↦ subst (In (delete_pvc name)) (ap (λ p. p.1) r) m
    | inr (ordinal, h, inl (bad, r)) ↦ subst (In (delete_pvc name)) (ap (λ p. p.1) r) m
    | inr (ordinal, h, inr (calls, plan, ran)) ↦ elim (Ran-In env calls tr _ ran m) [
      | inl old ↦ old
      | inr new ↦ absurd (Plan-In name shared_labels _ pod items calls (no_pvc ordinal) plan new)
    ]
  ]
    where
      no_pvc : (ordinal : ℤ) → auto_pvc env c ordinal ≡ []
      no_pvc ordinal = rw ((str_eq_iff c.mysql_version (codes "8.0")).1 v)
