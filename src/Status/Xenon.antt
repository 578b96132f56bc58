-- ===== src/Status/Xenon.antt =====
-- status.go: reconcileXenon, which brings the members that xenon knows in line with the pods.
pub mod Plan
pub mod Members
pub mod Converge
use radondb_mysql_kubernetes.Prelude.{
  ℕ, zero, suc, ◌+◌, List, [], ◌∷◌, ◌++◌, Str, has_prefix, if◌then◌else◌,
}
use radondb_mysql_kubernetes.Cluster.{name_for_resource, read_only_headless_svc, peer}
use radondb_mysql_kubernetes.Cluster.Spec.{MysqlCluster}
use radondb_mysql_kubernetes.Kube.{
  Env, Act, succeed, ◌>>◌, perform, xenon_ping, cluster_add, cluster_remove,
}
use radondb_mysql_kubernetes.Status.Types.{NodeStatus}
use radondb_mysql_kubernetes.Utils.{string_diff_in}

-- The loop of `getExpectXenonNodes` from `i`, with `n` rounds left.
expect_from : MysqlCluster → ℕ → ℕ → List Str → List Str
expect_from c i zero expected = expected
expect_from c i (suc n) expected = expect_from c (i + 1) n (expected ++ peer c i ∷ [])

-- `getExpectXenonNodes`
unfoldable pub get_expect_xenon_nodes : MysqlCluster → ℕ → List Str
unfolding expect_from
get_expect_xenon_nodes c ready_nodes = expect_from c 0 ready_nodes []

module _ (env : Env) where
  remove_each : Str → List Str → Act
  remove_each host [] = succeed
  remove_each host (remove_host ∷ to_remove) = do
    perform env (cluster_remove host remove_host)
    remove_each host to_remove

  -- `removeNodesFromXenon`
  unfoldable pub remove_nodes_from_xenon : Str → List Str → Act
  unfolding remove_each
  remove_nodes_from_xenon host to_remove = do
    perform env (xenon_ping host)
    remove_each host to_remove

  add_each : Str → List Str → Act
  add_each host [] = succeed
  add_each host (add_host ∷ to_add) = do
    perform env (cluster_add host add_host)
    add_each host to_add

  -- `addNodesInXenon`
  unfoldable pub add_nodes_in_xenon : Str → List Str → Act
  unfolding add_each
  add_nodes_in_xenon host to_add = do perform env (xenon_ping host); add_each host to_add

  -- The loop of `reconcileXenon` over the nodes of the status.
  reconcile_nodes : MysqlCluster → List Str → List NodeStatus → Act
  reconcile_nodes c expected [] = succeed
  reconcile_nodes c expected (node ∷ nodes) =
      let rest = reconcile_nodes c expected nodes in
      if has_prefix node.name (name_for_resource c read_only_headless_svc) then rest else do
        remove_nodes_from_xenon node.name (string_diff_in node.raft_status.nodes expected)
        add_nodes_in_xenon node.name (string_diff_in expected node.raft_status.nodes)
        rest

  -- `reconcileXenon`
  unfoldable pub reconcile_xenon : MysqlCluster → List NodeStatus → ℕ → Act
  unfolding reconcile_nodes
  reconcile_xenon c nodes ready_nodes =
      reconcile_nodes c (get_expect_xenon_nodes c ready_nodes) nodes
