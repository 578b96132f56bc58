-- ===== src/Cluster.antt =====
-- mysqlcluster/mysqlcluster.go: the wrapper of a MysqlCluster and the names that it gives, over
-- the parts of api/v1alpha1/mysqlcluster_types.go that the operator reads.
pub mod Image
pub mod Spec
pub mod Hosts
pub mod Peers
pub mod Validation
pub mod Volumes
pub mod Conf
use radondb_mysql_kubernetes.Prelude.{
  ℕ, zero, suc, ◌+◌, ◌-◌, Bool, true, false, ◌&&◌, Option, none, some, List, [], ◌∷◌, ◌++◌, Str,
  codes, Error, itoa, ltb, if◌then◌else◌, str_eq, contains_str, is_empty, find_label, put_label,
  Labels, split, get_elem?,
}
use radondb_mysql_kubernetes.Utils.{string_in_array}
use Spec.{MysqlCluster}

-- utils.ResourceName, the aliases of utils/constants.go.
pub data ResourceName : Type 0 where
  headless_svc read_only_headless_svc read_only_svc stateful_set config_map : ResourceName
  leader_service follower_service metrics_service secret role role_binding : ResourceName
  service_account pod_disruption_budget xenon_meta_data remote_cluster : ResourceName

module _ (c : MysqlCluster) where
  -- `GetNameForResource`
  unfoldable pub name_for_resource : ResourceName → Str
  name_for_resource stateful_set = c.name ++ codes "-mysql"
  name_for_resource headless_svc = c.name ++ codes "-mysql"
  name_for_resource pod_disruption_budget = c.name ++ codes "-mysql"
  name_for_resource leader_service = c.name ++ codes "-leader"
  name_for_resource follower_service = c.name ++ codes "-follower"
  name_for_resource metrics_service = c.name ++ codes "-metrics"
  name_for_resource secret = c.name ++ codes "-secret"
  name_for_resource xenon_meta_data = c.name ++ codes "-xenon"
  name_for_resource remote_cluster = c.name ++ codes "-remote"
  name_for_resource config_map =
      if is_empty c.mysql_opts.mysql_conf_template
      then c.name ++ codes "-mysql"
      else c.mysql_opts.mysql_conf_template
  name_for_resource read_only_headless_svc = c.name ++ codes "-ro"
  name_for_resource read_only_svc = c.name ++ codes "-ro-nodeport"
  name_for_resource role = c.name
  name_for_resource role_binding = c.name
  name_for_resource service_account = c.name

  -- `GetPodHostName`: "%s-%d.%s.%s"
  unfoldable pub pod_host_name : ℕ → Str
  pod_host_name p =
      name_for_resource stateful_set
      ++ (b'-' ∷ (itoa p ++ (b'.' ∷ (name_for_resource headless_svc ++ (b'.' ∷ c.namespace)))))

  -- `fmt.Sprintf("%s:%d", GetPodHostName(i), utils.XenonPort)`
  unfoldable pub peer : ℕ → Str
  peer i = pod_host_name i ++ codes ":8801"

  -- The rounds of the loop of `CreatePeers` from `i`, `n` of them, after `str`.
  create_peers_from : ℕ → ℕ → Str → Str
  create_peers_from i zero str = str
  create_peers_from i (suc n) str =
      create_peers_from (i + 1) n ((if ltb 0 i then str ++ codes "," else str) ++ peer i)

  unfoldable pub create_peers : Str
  unfolding create_peers_from
  create_peers = create_peers_from 0 c.replicas []

  annotation_or : Option Str → Str → Str
  annotation_or none default = default
  annotation_or (some v) default = v

  with_part_of : Option Str → Labels → Labels
  with_part_of none labels = labels
  with_part_of (some part) labels = put_label (codes "app.kubernetes.io/part-of") part labels

  -- `GetLabels`
  unfoldable pub get_labels : Labels
  unfolding annotation_or with_part_of
  get_labels =
      let instance_name =
        annotation_or (find_label (codes "app.kubernetes.io/instance") c.annotations) c.name in
      let component =
        annotation_or (find_label (codes "app.kubernetes.io/component") c.annotations)
          (codes "database") in
      with_part_of (find_label (codes "app.kubernetes.io/part-of") c.annotations) (
        (codes "mysql.radondb.com/cluster", c.name)
        ∷ (codes "app.kubernetes.io/name", codes "mysql")
        ∷ (codes "app.kubernetes.io/instance", instance_name)
        ∷ (codes "app.kubernetes.io/component", component)
        ∷ (codes "app.kubernetes.io/managed-by", codes "mysql.radondb.com")
        ∷ [])

  -- `GetSelectorLabels`
  unfoldable pub get_selector_labels : Labels
  get_selector_labels =
      (codes "mysql.radondb.com/cluster", c.name)
      ∷ (codes "app.kubernetes.io/name", codes "mysql")
      ∷ (codes "app.kubernetes.io/managed-by", codes "mysql.radondb.com")
      ∷ []

-- The users that the operator keeps for itself, as `Validate` lists them.
abbrev pub reserved_users : List Str
reserved_users =
    codes "root" ∷ codes "radondb_repl" ∷ codes "radondb_operator" ∷ codes "radondb_metrics" ∷ []

-- `Validate`
unfoldable pub validate : MysqlCluster → Option Error
validate c =
    if string_in_array c.mysql_opts.user reserved_users
    then some
        (codes "spec.mysqlOpts.user cannot be root|radondb_repl|radondb_operator|radondb_metrics")
    else if contains_str c.mysql_opts.image (codes "8.0") && c.mysql_opts.init_toku_db
    then none
    else if str_eq c.mysql_opts.root_host (codes "127.0.0.1")
    then some (codes "spec.mysqlOpts.rootHost cannot be 127.0.0.1")
    else none
