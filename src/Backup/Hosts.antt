-- ===== src/Backup/Hosts.antt =====
-- GetBackupHost of controllers/backup/utils.go: which node it returns.
use radondb_mysql_kubernetes.Prelude.{
  ◌≡◌, ◌⊎◌, inl, inr, refl, sym, subst, true, false, Bool, Bool-cases, List-cases, if◌then◌else◌,
  Option, none, some, List, [], ◌∷◌, Str, codes, str_eq, All, In,
}
use radondb_mysql_kubernetes.Status.Types.{NodeStatus}
use radondb_mysql_kubernetes.Backup.Jobs.{get_backup_host, host_from, is_false}

-- The name of the last node, or the one given.
abbrev pub last_name : Str → List NodeStatus → Str
last_name host [] = host
last_name host (node ∷ nodes) = last_name node.name nodes

-- A node with the role FOLLOWER that has no conditions.
abbrev pub Bare : NodeStatus → Type 0
Bare node = (str_eq node.raft_status.role (codes "FOLLOWER") ≡ true) × (node.conditions ≡ [])

-- The host that is found: a panic when a follower has no conditions, or else the last node.
abbrev pub HostFound : Str → List NodeStatus → Option Str → Type 0
HostFound host nodes found =
    ((node : NodeStatus) × In node nodes × Bare node × (found ≡ none))
    ⊎ (All (λ node. ¬ Bare node) nodes × (found ≡ some (last_name host nodes)))

one_more :
    (host : Str) (node : NodeStatus) (nodes : List NodeStatus) (found : Option Str)
    → ¬ Bare node
    → HostFound node.name nodes found
    → HostFound host (node ∷ nodes) found
one_more host node nodes found b (inl (n, m, bare, e)) = inl (n, In.there m, bare, e)
one_more host node nodes found b (inr (all, e)) = inr ((b, all), e)

if_same : (b : Bool) (x : Option Str) → (if b then x else x) ≡ x
if_same true x = refl
if_same false x = refl

host_from-Bare :
    (host : Str) (node : NodeStatus) (nodes : List NodeStatus)
    → Bare node
    → host_from host (node ∷ nodes) ≡ none
unfolding host_from
host_from-Bare host node nodes b = rw (b.0, b.1)

host_from_next :
    (host : Str) (node : NodeStatus) (nodes : List NodeStatus)
    → ((¬ Bare node) × (host_from host (node ∷ nodes) ≡ host_from node.name nodes)) ⊎ Bare node
unfolding host_from
host_from_next host node nodes =
    elim (Bool-cases (str_eq node.raft_status.role (codes "FOLLOWER"))) [
      | inr e ↦ inl ((λ b. cc (b.0, e)), rw e)
      | inl e ↦ elim (List-cases node.conditions) [
        | inl k ↦ inr (e, k)
        | inr (c, cs, k) ↦
            inl ((λ b. cc (b.1, k)), rw (e, k) (if_same (is_false c) (host_from node.name nodes)))
      ]
    ]

host_from_lem : (host : Str) (nodes : List NodeStatus) → HostFound host nodes (host_from host nodes)
unfolding host_from
host_from_lem host [] = inr (tt, refl)
host_from_lem host (node ∷ nodes) = elim (host_from_next host node nodes) [
  | inr b ↦ inl (node, In.here refl, b, host_from-Bare host node nodes b)
  | inl (b, e) ↦
      subst (HostFound host (node ∷ nodes)) (sym e)
        (one_more host node nodes (host_from node.name nodes) b (host_from_lem node.name nodes))
]

-- GetBackupHost panics when a node with the role FOLLOWER has no conditions; otherwise it returns
-- the last node, whatever the roles and the conditions are.
pub get_backup_host_lem : (nodes : List NodeStatus) → HostFound [] nodes (get_backup_host nodes)
unfolding get_backup_host
get_backup_host_lem nodes = host_from_lem [] nodes
