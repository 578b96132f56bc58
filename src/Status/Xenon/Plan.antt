-- ===== src/Status/Xenon/Plan.antt =====
-- reconcileXenon makes a planned list of calls, and stops at the first that fails.
use radondb_mysql_kubernetes.Prelude.{
  ℕ, zero, suc, ◌+◌, ◌≡◌, refl, sym, subst, ◌∙◌, ap, ap₂, some, List, [], ◌∷◌, ◌++◌, append_assoc,
  append-nil, map, Str, Error, has_prefix, if◌then◌else◌, Bool-cases, inl, inr,
}
use radondb_mysql_kubernetes.Cluster.{name_for_resource, read_only_headless_svc}
use radondb_mysql_kubernetes.Cluster.Peers.{peers_from}
use radondb_mysql_kubernetes.Cluster.Spec.{MysqlCluster}
use radondb_mysql_kubernetes.Kube.{
  Call, Trace, Env, Act, ◌>>◌, perform, run_all, xenon_ping, cluster_add, cluster_remove,
}
use radondb_mysql_kubernetes.Kube.Runs.{>>_assoc, run_all-append, StoppedAt, run_all_failure}
use radondb_mysql_kubernetes.Status.Types.{NodeStatus}
use radondb_mysql_kubernetes.Status.Xenon.{
  expect_from, get_expect_xenon_nodes, remove_each, remove_nodes_from_xenon, add_each,
  add_nodes_in_xenon, reconcile_nodes, reconcile_xenon,
}
use radondb_mysql_kubernetes.Utils.{string_diff_in}

-- The calls for one node: drop what is not expected, then add what is missing.
abbrev pub node_plan : List Str → NodeStatus → List Call
node_plan expected node =
    (xenon_ping node.name
      ∷ map (cluster_remove node.name) (string_diff_in node.raft_status.nodes expected))
    ++ (xenon_ping node.name
        ∷ map (cluster_add node.name) (string_diff_in expected node.raft_status.nodes))

-- The calls for the nodes that are no read-only ones.
abbrev pub plan : MysqlCluster → List Str → List NodeStatus → List Call
plan c expected [] = []
plan c expected (node ∷ nodes) =
    if has_prefix node.name (name_for_resource c read_only_headless_svc)
    then plan c expected nodes
    else node_plan expected node ++ plan c expected nodes

expect_from_lem :
    (c : MysqlCluster) (i n : ℕ) (expected : List Str)
    → expect_from c i n expected ≡ expected ++ peers_from c i n
unfolding expect_from
expect_from_lem c i zero expected = sym (append-nil expected)
expect_from_lem c i (suc n) expected =
    expect_from_lem c (i + 1) n _ ∙ append_assoc expected _ (peers_from c (i + 1) n)

-- The expected nodes are the peers of the first pods.
pub get_expect_xenon_nodes-eq-peers_from :
    (c : MysqlCluster) (n : ℕ) → get_expect_xenon_nodes c n ≡ peers_from c 0 n
unfolding get_expect_xenon_nodes
get_expect_xenon_nodes-eq-peers_from c n = expect_from_lem c 0 n []

module _ (env : Env) where
  remove_each_lem :
      (host : Str) (hosts : List Str)
      → remove_each env host hosts ≡ run_all env (map (cluster_remove host) hosts)
  unfolding remove_each run_all
  remove_each_lem host [] = refl
  remove_each_lem host (h ∷ hosts) =
      ap (λ k. perform env (cluster_remove host h) >> k) (remove_each_lem host hosts)

  add_each_lem :
      (host : Str) (hosts : List Str)
      → add_each env host hosts ≡ run_all env (map (cluster_add host) hosts)
  unfolding add_each run_all
  add_each_lem host [] = refl
  add_each_lem host (h ∷ hosts) =
      ap (λ k. perform env (cluster_add host h) >> k) (add_each_lem host hosts)

  -- One round of the loop, and the rest of it.
  visit : (host : Str) (removed added : List Str) (rest : List Call) → Act
  visit host removed added rest = do
    remove_nodes_from_xenon env host removed
    add_nodes_in_xenon env host added
    run_all env rest

  visit_lem :
      (host : Str) (removed added : List Str) (rest : List Call)
      → visit host removed added rest
        ≡ run_all env (
            ((xenon_ping host ∷ map (cluster_remove host) removed)
              ++ (xenon_ping host ∷ map (cluster_add host) added))
            ++ rest)
  unfolding visit remove_nodes_from_xenon add_nodes_in_xenon run_all
  visit_lem host removed added rest =
      ap₂
        (λ k l.
          (perform env (xenon_ping host) >> k)
          >> ((perform env (xenon_ping host) >> l) >> run_all env rest))
        (remove_each_lem host removed) (add_each_lem host added)
      ∙ sym (>>_assoc (run_all env removing) (run_all env adding) (run_all env rest))
      ∙ ap (λ k. k >> run_all env rest) (sym (run_all-append env removing adding))
      ∙ sym (run_all-append env (removing ++ adding) rest)
    where
      removing : List Call
      removing = xenon_ping host ∷ map (cluster_remove host) removed

      adding : List Call
      adding = xenon_ping host ∷ map (cluster_add host) added

  reconcile_nodes_lem :
      (c : MysqlCluster) (expected : List Str) (nodes : List NodeStatus)
      → reconcile_nodes env c expected nodes ≡ run_all env (plan c expected nodes)
  unfolding reconcile_nodes
  reconcile_nodes_lem c expected [] = unfold run_all in refl
  reconcile_nodes_lem c expected (node ∷ nodes) =
      elim (Bool-cases (has_prefix node.name (name_for_resource c read_only_headless_svc))) [
        | inl ro ↦ rw (ro, plan) (reconcile_nodes_lem c expected nodes)
        | inr rw_node ↦
            rw (rw_node, plan)
              (ap
                  (λ k.
                    remove_nodes_from_xenon env node.name
                      (string_diff_in node.raft_status.nodes expected)
                    >> (add_nodes_in_xenon env node.name
                          (string_diff_in expected node.raft_status.nodes)
                        >> k))
                  (reconcile_nodes_lem c expected nodes)
                ∙ (unfold visit in visit_lem node.name _ _ (plan c expected nodes)))
      ]

  -- `reconcileXenon` makes the calls of its plan in order, up to the first that fails.
  pub reconcile_xenon-eq-run_all :
      (c : MysqlCluster) (nodes : List NodeStatus) (ready_nodes : ℕ)
      → reconcile_xenon env c nodes ready_nodes
        ≡ run_all env (plan c (get_expect_xenon_nodes c ready_nodes) nodes)
  unfolding reconcile_xenon
  reconcile_xenon-eq-run_all c nodes ready_nodes =
      reconcile_nodes_lem c (get_expect_xenon_nodes c ready_nodes) nodes

-- When `reconcileXenon` returns an error, it has made its calls in order up to the one that
-- returned that error, and none behind it.
pub reconcile_xenon_failure :
    (env : Env) (c : MysqlCluster) (nodes : List NodeStatus) (ready_nodes : ℕ) (before : Trace)
    (e : Error)
    → (reconcile_xenon env c nodes ready_nodes before).0 ≡ some e
    → StoppedAt env
        (plan c (get_expect_xenon_nodes c ready_nodes) nodes)
        before
        e
        (reconcile_xenon env c nodes ready_nodes before).1
reconcile_xenon_failure env c nodes ready_nodes before e h =
    subst
      (λ (m : Act).
        StoppedAt env (plan c (get_expect_xenon_nodes c ready_nodes) nodes) before e (m before).1)
      (sym (reconcile_xenon-eq-run_all env c nodes ready_nodes))
      (run_all_failure env (plan c (get_expect_xenon_nodes c ready_nodes) nodes) before e (
        subst (λ (m : Act). (m before).0 ≡ some e)
          (reconcile_xenon-eq-run_all env c nodes ready_nodes) h))
