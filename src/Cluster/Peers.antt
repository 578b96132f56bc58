-- ===== src/Cluster/Peers.antt =====
-- CreatePeers of mysqlcluster.go: the text that xenon is given lists the hosts of the pods.
use radondb_mysql_kubernetes.Prelude.{
  ℕ, zero, suc, ◌+◌, ◌<◌, ◌≡◌, ◌∙◌, sym, ap, List, [], ◌∷◌, ◌++◌, Str, Lacks, itoa, itoa-Lacks,
  arith, codes, split, split-append, split-Lacks, All-append, append_assoc, append-nil, lt→ltb,
}
use radondb_mysql_kubernetes.Cluster.{
  name_for_resource, pod_host_name, peer, create_peers_from, create_peers,
}
use radondb_mysql_kubernetes.Cluster.Spec.{MysqlCluster}

module _ (c : MysqlCluster) where
  -- The peers of `n` pods from the `i`-th on.
  abbrev pub peers_from : ℕ → ℕ → List Str
  peers_from i zero = []
  peers_from i (suc n) = peer c i ∷ peers_from (i + 1) n

  joined_from : ℕ → ℕ → Str
  joined_from i zero = []
  joined_from i (suc n) = b',' ∷ (peer c i ++ joined_from (i + 1) n)

  create_peers_from_lem :
      (i n : ℕ) (str : Str) → 0 < i → create_peers_from c i n str ≡ str ++ joined_from i n
  unfolding create_peers_from joined_from
  create_peers_from_lem i zero str h = sym (append-nil str)
  create_peers_from_lem i (suc n) str h = rw (lt→ltb 0 i h) (
      create_peers_from_lem (i + 1) n ((str ++ codes ",") ++ peer c i) (omega arith)
      ∙ append_assoc (str ++ codes ",") (peer c i) (joined_from (i + 1) n)
      ∙ append_assoc str (codes ",") (peer c i ++ joined_from (i + 1) n))

  peer-Lacks : (i : ℕ) → Lacks b',' c.name → Lacks b',' c.namespace → Lacks b',' (peer c i)
  unfolding peer pod_host_name name_for_resource
  peer-Lacks i h k =
      All-append _ (pod_host_name c i) (codes ":8801")
        (All-append _ (c.name ++ codes "-mysql") _ service (
          omega arith,
          All-append _ (itoa i) _ (itoa-Lacks b',' i (omega arith))
              (omega arith, All-append _ (c.name ++ codes "-mysql") _ service (omega arith, k)),
        ))
        (omega arith)
    where
      service : Lacks b',' (c.name ++ codes "-mysql")
      service = All-append _ c.name (codes "-mysql") h (omega arith)

  split-joined_from :
      (p : Str) (i n : ℕ)
      → Lacks b',' c.name
      → Lacks b',' c.namespace
      → Lacks b',' p
      → split (p ++ joined_from i n) b',' ≡ p ∷ peers_from i n
  unfolding joined_from
  split-joined_from p i zero h k l = rw append-nil (split-Lacks b',' p l)
  split-joined_from p i (suc n) h k l =
      split-append b',' p (peer c i ++ joined_from (i + 1) n) l
      ∙ ap (λ parts. p ∷ parts) (split-joined_from (peer c i) (i + 1) n h k (peer-Lacks i h k))

  split-create_peers_from :
      (n : ℕ)
      → Lacks b',' c.name
      → Lacks b',' c.namespace
      → split (create_peers_from c 0 (suc n) []) b',' ≡ peers_from 0 (suc n)
  unfolding create_peers_from
  split-create_peers_from n h k =
      ap (λ s. split s b',') (create_peers_from_lem 1 n (peer c 0) (omega arith))
      ∙ split-joined_from (peer c 0) 1 n h k (peer-Lacks 0 h k)

  -- Cut at its commas, the text of `CreatePeers` is the list of the peers, in the pods' order.
  pub split-create_peers :
      0 < c.replicas
      → Lacks b',' c.name
      → Lacks b',' c.namespace
      → split (create_peers c) b',' ≡ peers_from 0 c.replicas
  unfolding create_peers
  split-create_peers z h k = at_replicas c.replicas z
    where
      at_replicas : (n : ℕ) → 0 < n → split (create_peers_from c 0 n []) b',' ≡ peers_from 0 n
      at_replicas zero z = elim z [ ]
      at_replicas (suc n) z = split-create_peers_from n h k
