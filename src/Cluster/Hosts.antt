-- ===== src/Cluster/Hosts.antt =====
-- The names of pods and hosts that mysqlcluster.go gives tell the pods apart.
use radondb_mysql_kubernetes.Prelude.{
  ℕ, ◌^◌, ◌<◌, pos, ◌≡◌, ◌∙◌, sym, ap, [], ◌∷◌, ◌++◌, some, Str, Lacks, itoa, digits, digits-itoa,
  itoa-Lacks, cut_injective, append_cancel, arith, codes, split, split-append, get_elem?, ok,
  All-append, append_assoc,
}
use radondb_mysql_kubernetes.Cluster.{name_for_resource, stateful_set, headless_svc, pod_host_name}
use radondb_mysql_kubernetes.Cluster.Spec.{MysqlCluster}
use radondb_mysql_kubernetes.Utils.{get_ordinal}
use radondb_mysql_kubernetes.Utils.Ordinal.{get_ordinal_of_name}

itoa_injective : (p q : ℕ) → itoa p ≡ itoa q → p ≡ q
itoa_injective p q e = cc (digits-itoa p, digits-itoa q, ap digits e)

module _ (c : MysqlCluster) where
  -- The name of the StatefulSet's pod with an ordinal.
  abbrev pub pod_name : ℕ → Str
  pod_name p = name_for_resource c stateful_set ++ b'-' ∷ itoa p

  -- Two pods of a cluster have one host name only if they are the same pod.
  pub pod_host_name_injective : (p q : ℕ) → pod_host_name c p ≡ pod_host_name c q → p ≡ q
  unfolding pod_host_name
  pod_host_name_injective p q e = itoa_injective p q (
      cut_injective b'.' (itoa p) (itoa q) _ _ (itoa-Lacks b'.' p (omega arith))
        (itoa-Lacks b'.' q (omega arith))
        (append_cancel (b'-' ∷ []) _ _ (append_cancel (name_for_resource c stateful_set) _ _ e)))

  -- `GetOrdinal` reads the ordinal back from the name of a pod.
  pub get_ordinal-pod_name : (p : ℕ) → p < 2 ^ 63 → get_ordinal (pod_name p) ≡ ok (pos p)
  get_ordinal-pod_name p h = get_ordinal_of_name (name_for_resource c stateful_set) p h

  pod_name-Lacks : (p : ℕ) → Lacks b'.' c.name → Lacks b'.' (pod_name p)
  unfolding name_for_resource
  pod_name-Lacks p h =
      All-append _ (c.name ++ codes "-mysql") (b'-' ∷ itoa p)
        (All-append _ c.name (codes "-mysql") h (omega arith))
        (omega arith, itoa-Lacks b'.' p (omega arith))

  -- The first label of a pod's host name is the name of the pod.
  pub split-pod_host_name :
      (p : ℕ) → Lacks b'.' c.name → get_elem? (split (pod_host_name c p) b'.') 0 ≡ some (pod_name p)
  unfolding pod_host_name
  split-pod_host_name p h =
      ap (λ s. get_elem? (split s b'.') 0)
        (sym (append_assoc (name_for_resource c stateful_set) (b'-' ∷ itoa p) rest))
      ∙ ap (λ parts. get_elem? parts 0)
          (split-append b'.' (pod_name p) (name_for_resource c headless_svc ++ b'.' ∷ c.namespace)
            (pod_name-Lacks p h))
    where
      rest : Str
      rest = b'.' ∷ (name_for_resource c headless_svc ++ b'.' ∷ c.namespace)
