-- ===== src/Status/Nodes/Index.antt =====
-- getNodeStatusIndex and getRoStatusIndex: the index is that of the node, and no other changes.
use radondb_mysql_kubernetes.Prelude.{
  ℕ, suc, ◌+◌, ◌≡◌, ◌≢◌, ◌⊎◌, inl, inr, refl, sym, ◌∙◌, ap, subst, Option, none, some, List, [],
  ◌∷◌, ◌++◌, Str, str_eq, str_eq_sound, str_eq_iff, Bool-cases, get_elem?, All, All-append, arith,
}
use radondb_mysql_kubernetes.Status.Nodes.{
  new_node, node_kinds, ro_kinds, index_from, get_node_status_index, get_ro_status_index,
}
use radondb_mysql_kubernetes.Status.Types.{NodeStatus}
use radondb_mysql_kubernetes.Status.Xenon.Converge.{NamesDiffer}

-- The node at an index has this name.
abbrev pub Named : Str → Option NodeStatus → Type 0
Named name none = ⊥
Named name (some node) = node.name ≡ name

-- The search for a name: the nodes passed over, and the node found or appended.
data Found (name : Str) (fresh : NodeStatus) : ℕ → List NodeStatus → List NodeStatus → Type 0 where
  hit :
      {node : NodeStatus} {nodes : List NodeStatus}
      → node.name ≡ name
      → Found name fresh 0 (node ∷ nodes) (node ∷ nodes)
  append : Found name fresh 0 [] (fresh ∷ [])
  skip :
      {node : NodeStatus} {k : ℕ} {nodes nodes' : List NodeStatus}
      → node.name ≢ name
      → Found name fresh k nodes nodes'
      → Found name fresh (suc k) (node ∷ nodes) (node ∷ nodes')

index_from-Found :
    (name : Str) (fresh : NodeStatus) (i : ℕ) (nodes : List NodeStatus)
    → (k : ℕ) × ((index_from name fresh i nodes).0 ≡ i + k)
      × Found name fresh k nodes (index_from name fresh i nodes).1
unfolding index_from
index_from-Found name fresh i [] = (0, omega arith, Found.append)
index_from-Found name fresh i (node ∷ nodes) = elim (Bool-cases (str_eq node.name name)) [
  | inl same ↦ rw same (0, omega arith, Found.hit (str_eq_sound node.name name same))
  | inr other ↦
      let (k, e, f) = index_from-Found name fresh (i + 1) nodes in
      rw other (suc k, omega (arith, e), Found.skip (λ n. cc ((str_eq_iff node.name name).1 n)) f)
]

Found-Named :
    {name : Str} {fresh : NodeStatus} {k : ℕ} {nodes nodes' : List NodeStatus}
    → fresh.name ≡ name
    → Found name fresh k nodes nodes'
    → Named name (get_elem? nodes' k)
Found-Named new (Found.hit e) = e
Found-Named new Found.append = new
Found-Named new (Found.skip ne f) = Found-Named new f

-- What the search leaves: the same nodes, or those and a new one, if none had the name.
abbrev pub Kept : Str → NodeStatus → List NodeStatus → List NodeStatus → Type 0
Kept name fresh nodes nodes' =
    (nodes' ≡ nodes) ⊎ ((nodes' ≡ nodes ++ fresh ∷ []) × All (λ node. node.name ≢ name) nodes)

Found-Kept :
    {name : Str} {fresh : NodeStatus} {k : ℕ} {nodes nodes' : List NodeStatus}
    → Found name fresh k nodes nodes'
    → Kept name fresh nodes nodes'
Found-Kept (Found.hit e) = inl refl
Found-Kept Found.append = inr (refl, tt)
Found-Kept (Found.skip {node = node} ne f) = elim (Found-Kept f) [
  | inl same ↦ inl (ap (λ l. node ∷ l) same)
  | inr (longer, fresh_name) ↦ inr (ap (λ l. node ∷ l) longer, (ne, fresh_name))
]

-- A lookup of a node's status.
module _ (name : Str) (fresh : NodeStatus) (new : fresh.name ≡ name) (nodes : List NodeStatus) where
  index_from_lem :
      Named name (get_elem? (index_from name fresh 0 nodes).1 (index_from name fresh 0 nodes).0)
      × Kept name fresh nodes (index_from name fresh 0 nodes).1
  index_from_lem =
      let (k, e, f) = index_from-Found name fresh 0 nodes in
      (
        subst (λ i. Named name (get_elem? (index_from name fresh 0 nodes).1 i)) (omega (arith, e))
            (Found-Named new f),
        Found-Kept f,
      )

pub get_node_status_index_lem :
    (name : Str) (now : ℕ) (nodes : List NodeStatus)
    → let (index, nodes') = get_node_status_index name now nodes in
      Named name (get_elem? nodes' index) × Kept name (new_node name node_kinds now) nodes nodes'
unfolding get_node_status_index
get_node_status_index_lem name now nodes =
    index_from_lem name (new_node name node_kinds now) refl nodes

-- The same of `getRoStatusIndex`.
pub get_ro_status_index_lem :
    (name : Str) (now : ℕ) (nodes : List NodeStatus)
    → let (index, nodes') = get_ro_status_index name now nodes in
      Named name (get_elem? nodes' index) × Kept name (new_node name ro_kinds now) nodes nodes'
unfolding get_ro_status_index
get_ro_status_index_lem name now nodes = index_from_lem name (new_node name ro_kinds now) refl nodes

differ-append :
    (name : Str) (fresh : NodeStatus) (nodes : List NodeStatus)
    → fresh.name ≡ name
    → All (λ node. node.name ≢ name) nodes
    → NamesDiffer nodes
    → NamesDiffer (nodes ++ fresh ∷ [])
differ-append name fresh [] new h d = (tt, tt)
differ-append name fresh (node ∷ nodes) new h d = (
  All-append (λ other. other.name ≢ node.name) nodes (fresh ∷ []) d.0 (λ e. h.0 (sym e ∙ new), tt),
  differ-append name fresh nodes new h.1 d.1,
)

-- Looking a node up keeps the names of the nodes different.
pub get_node_status_index-NamesDiffer :
    (name : Str) (now : ℕ) (nodes : List NodeStatus)
    → NamesDiffer nodes
    → NamesDiffer (get_node_status_index name now nodes).1
get_node_status_index-NamesDiffer name now nodes d =
    elim (get_node_status_index_lem name now nodes).1 [
      | inl same ↦ subst NamesDiffer (sym same) d
      | inr (longer, absent) ↦ subst NamesDiffer (sym longer) (
          differ-append name (new_node name node_kinds now) nodes (unfold new_node in refl) absent
            d)
    ]
