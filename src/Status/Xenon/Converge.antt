-- ===== src/Status/Xenon/Converge.antt =====
-- reconcileXenon over all nodes of a status: each ends with the expected members.
use radondb_mysql_kubernetes.Prelude.{
  ℕ, ◌≡◌, ◌≢◌, ◌↔◌, ◌⊎◌, inl, inr, refl, sym, subst, ◌∙◌, ap, true, false, Bool, none, List, [],
  ◌∷◌, map, Str, has_prefix, str_eq, str_eq_sound, Bool-cases, In, All,
}
use radondb_mysql_kubernetes.Cluster.{name_for_resource, read_only_headless_svc}
use radondb_mysql_kubernetes.Cluster.Spec.{MysqlCluster}
use radondb_mysql_kubernetes.Kube.{Env, Trace, xenon_ping, cluster_add, cluster_remove}
use radondb_mysql_kubernetes.Kube.Runs.{run_all_success}
use radondb_mysql_kubernetes.Status.Types.{NodeStatus}
use radondb_mysql_kubernetes.Status.Xenon.{get_expect_xenon_nodes, reconcile_xenon}
use radondb_mysql_kubernetes.Status.Xenon.Plan.{node_plan, plan, reconcile_xenon-eq-run_all}
use radondb_mysql_kubernetes.Utils.{string_diff_in}
use radondb_mysql_kubernetes.Status.Xenon.Members.{
  member_step, members_after, members_after-append, node_plan_members,
}

-- The calls for another node leave the members of `host` alone.
other_removals :
    (host h : Str) (hosts members : List Str)
    → h ≢ host
    → members_after host (map (cluster_remove h) hosts) members ≡ members
other_removals host h [] members ne = refl
other_removals host h (a ∷ hosts) members ne =
    ap (members_after host (map (cluster_remove h) hosts)) (skip (Bool-cases (str_eq h host)))
    ∙ other_removals host h hosts members ne
  where
    skip :
        (str_eq h host ≡ true) ⊎ (str_eq h host ≡ false)
        → member_step host (cluster_remove h a) members ≡ members
    skip (inl e) = absurd (ne (str_eq_sound h host e))
    skip (inr e) = rw e

other_additions :
    (host h : Str) (hosts members : List Str)
    → h ≢ host
    → members_after host (map (cluster_add h) hosts) members ≡ members
other_additions host h [] members ne = refl
other_additions host h (a ∷ hosts) members ne =
    ap (members_after host (map (cluster_add h) hosts)) (skip (Bool-cases (str_eq h host)))
    ∙ other_additions host h hosts members ne
  where
    skip :
        (str_eq h host ≡ true) ⊎ (str_eq h host ≡ false)
        → member_step host (cluster_add h a) members ≡ members
    skip (inl e) = absurd (ne (str_eq_sound h host e))
    skip (inr e) = rw e

other_node_plan :
    (host : Str) (expected : List Str) (node : NodeStatus) (members : List Str)
    → node.name ≢ host
    → members_after host (node_plan expected node) members ≡ members
other_node_plan host expected node members ne =
    members_after-append host
      (xenon_ping node.name
        ∷ map (cluster_remove node.name) (string_diff_in node.raft_status.nodes expected))
      (xenon_ping node.name
        ∷ map (cluster_add node.name) (string_diff_in expected node.raft_status.nodes))
      members
    ∙ other_additions host node.name (string_diff_in expected node.raft_status.nodes) _ ne
    ∙ other_removals host node.name (string_diff_in node.raft_status.nodes expected) members ne

-- Whether a node of the status is of the read-only StatefulSet.
abbrev pub is_read_only_node : MysqlCluster → NodeStatus → Bool
is_read_only_node c node = has_prefix node.name (name_for_resource c read_only_headless_svc)

-- No two nodes of the status have one name.
abbrev pub NamesDiffer : List NodeStatus → Type 0
NamesDiffer [] = Unit
NamesDiffer (node ∷ nodes) = All (λ other. other.name ≢ node.name) nodes × NamesDiffer nodes

differs_In :
    {name : Str} {node : NodeStatus} {nodes : List NodeStatus}
    → In node nodes
    → All (λ other. other.name ≢ name) nodes
    → node.name ≢ name
differs_In {name} (In.here e) h = subst (λ (n : NodeStatus). n.name ≢ name) e h.0
differs_In (In.there m) h = differs_In m h.1

module _ (c : MysqlCluster) (expected : List Str) where
  skip_node :
      (host : Str) (node : NodeStatus) (nodes : List NodeStatus) (members : List Str)
      → node.name ≢ host
      → members_after host (plan c expected (node ∷ nodes)) members
        ≡ members_after host (plan c expected nodes) members
  skip_node host node nodes members ne = elim (Bool-cases (is_read_only_node c node)) [
    | inl ro ↦ rw (ro, plan)
    | inr full ↦
        rw (full, plan)
          (members_after-append host (node_plan expected node) (plan c expected nodes) members
            ∙ ap (members_after host (plan c expected nodes))
                (other_node_plan host expected node members ne))
  ]

  plan_without :
      (host : Str) (nodes : List NodeStatus) (members : List Str)
      → All (λ other. other.name ≢ host) nodes
      → members_after host (plan c expected nodes) members ≡ members
  plan_without host [] members h = refl
  plan_without host (node ∷ nodes) members h =
      skip_node host node nodes members h.0 ∙ plan_without host nodes members h.1

  plan_members :
      {node : NodeStatus} {nodes : List NodeStatus} (b : Str)
      → In node nodes
      → NamesDiffer nodes
      → is_read_only_node c node ≡ false
      → In b (members_after node.name (plan c expected nodes) node.raft_status.nodes)
        ↔ In b expected
  plan_members {node} b (In.here {x = first} {xs = nodes} e) differ full =
      subst
        (λ (n : NodeStatus).
          In b (members_after n.name (plan c expected (first ∷ nodes)) n.raft_status.nodes)
          ↔ In b expected)
        e
        (subst (λ ms. In b ms ↔ In b expected)
          (sym (own_calls (subst (λ n. is_read_only_node c n ≡ false) (sym e) full)))
          (node_plan_members expected first b))
    where
      own_calls :
          is_read_only_node c first ≡ false
          → members_after first.name (plan c expected (first ∷ nodes)) first.raft_status.nodes
            ≡ members_after first.name (node_plan expected first) first.raft_status.nodes
      own_calls full' =
          rw (full', plan)
            (members_after-append first.name (node_plan expected first) (plan c expected nodes) _
              ∙ plan_without first.name nodes _ differ.0)
  plan_members {node} b (In.there {x = first} {xs = nodes} m) differ full =
      subst (λ ms. In b ms ↔ In b expected)
        (sym (
          skip_node node.name first nodes node.raft_status.nodes
            (λ e. differs_In m differ.0 (sym e))))
        (plan_members b m differ.1 full)

-- After `reconcileXenon` has returned no error, each node that is no read-only one knows exactly
-- the expected members, if no two nodes share a name and a node's recorded members were its own.
pub reconcile_xenon_members :
    (env : Env) (c : MysqlCluster) (nodes : List NodeStatus) (ready_nodes : ℕ) (node : NodeStatus)
    (b : Str)
    → (reconcile_xenon env c nodes ready_nodes []).0 ≡ none
    → NamesDiffer nodes
    → In node nodes
    → is_read_only_node c node ≡ false
    → In b (
        members_after node.name
          (reconcile_xenon env c nodes ready_nodes []).1
          node.raft_status.nodes)
      ↔ In b (get_expect_xenon_nodes c ready_nodes)
reconcile_xenon_members env c nodes ready_nodes node b done differ m full =
    subst
      (λ tr.
        In b (members_after node.name tr node.raft_status.nodes)
        ↔ In b (get_expect_xenon_nodes c ready_nodes))
      (sym all_made) (plan_members c (get_expect_xenon_nodes c ready_nodes) b m differ full)
  where
    planned : Trace
    planned = plan c (get_expect_xenon_nodes c ready_nodes) nodes

    all_made : (reconcile_xenon env c nodes ready_nodes []).1 ≡ planned
    all_made = rw (reconcile_xenon-eq-run_all env c nodes ready_nodes) (
        run_all_success env planned []
          (rw (reconcile_xenon-eq-run_all env c nodes ready_nodes) at done))
