-- ===== src/Status/Nodes/Trim.antt =====
-- The removal of nodes that are gone, at the end of updateNodeStatus.
use radondb_mysql_kubernetes.Prelude.{
  ℕ, zero, suc, ◌+◌, ◌-◌, ◌<◌, ◌≤◌, ◌≡◌, refl, sym, ◌∙◌, ap, ap₂, Option, some, List, [], ◌∷◌, ◌++◌,
  append_assoc, length, length-append, get_elem?, take, drop, ltb, lt→ltb, arith, false,
}
use radondb_mysql_kubernetes.Cluster.Spec.{ReadOnlyType}
use radondb_mysql_kubernetes.Status.Nodes.{trim_nodes, trim}
use radondb_mysql_kubernetes.Status.Types.{NodeStatus}

module _ {A : Type 0} where
  take-append : (xs ys : List A) → take (length xs) (xs ++ ys) ≡ xs
  take-append [] ys = refl
  take-append (x ∷ xs) ys = ap (λ l. x ∷ l) (take-append xs ys)

  drop-append : (xs ys : List A) → drop (length xs) (xs ++ ys) ≡ ys
  drop-append [] ys = refl
  drop-append (x ∷ xs) ys = drop-append xs ys

  length-take_of_le : (n : ℕ) (xs : List A) → n ≤ length xs → length (take n xs) ≡ n
  length-take_of_le zero xs h = refl
  length-take_of_le (suc n) [] h = elim h [ ]
  length-take_of_le (suc n) (x ∷ xs) h = ap suc (length-take_of_le n xs (omega arith))

  get_elem?-take : (n i : ℕ) (xs : List A) → i < n → get_elem? (take n xs) i ≡ get_elem? xs i
  get_elem?-take zero i xs h = elim h [ ]
  get_elem?-take (suc n) i [] h = refl
  get_elem?-take (suc n) zero (x ∷ xs) h = refl
  get_elem?-take (suc n) (suc i) (x ∷ xs) h = get_elem?-take n i xs (omega arith)

  get_elem?-drop_zero : (n : ℕ) (xs : List A) → get_elem? (drop n xs) 0 ≡ get_elem? xs n
  get_elem?-drop_zero zero [] = refl
  get_elem?-drop_zero zero (x ∷ xs) = refl
  get_elem?-drop_zero (suc n) [] = refl
  get_elem?-drop_zero (suc n) (x ∷ xs) = get_elem?-drop_zero n xs

  get_elem?-behind : (xs ys : List A) → get_elem? (xs ++ ys) (length xs) ≡ get_elem? ys 0
  get_elem?-behind [] ys = refl
  get_elem?-behind (x ∷ xs) ys = get_elem?-behind xs ys

  get_elem?-before :
      (xs ys : List A) (i : ℕ) → i < length xs → get_elem? (xs ++ ys) i ≡ get_elem? xs i
  get_elem?-before [] ys i h = elim h [ ]
  get_elem?-before (x ∷ xs) ys zero h = refl
  get_elem?-before (x ∷ xs) ys (suc i) h = get_elem?-before xs ys i (omega arith)

trim_of_lt :
    (read_onlys : Option ReadOnlyType) (pods : ℕ) (nodes : List NodeStatus)
    → pods < length nodes
    → trim_nodes read_onlys pods nodes ≡ trim read_onlys pods nodes
trim_of_lt read_onlys pods nodes h = unfold trim_nodes in rw (lt→ltb pods (length nodes) h)

module _ (ro : ReadOnlyType) (pods : ℕ) (nodes : List NodeStatus) (few : pods < length nodes)
    (room : ro.num ≤ length nodes) where
  trim_some :
      trim_nodes (some ro) pods nodes ≡ some (take pods nodes ++ drop (length nodes - ro.num) nodes)
  trim_some = trim_of_lt (some ro) pods nodes few ∙ (unfold trim in rw in_range)
    where
      in_range : ltb (length nodes) ro.num ≡ false
      in_range = ground arith

trim_all_there :
    (read_onlys : Option ReadOnlyType) (pods : ℕ) (nodes : List NodeStatus)
    → length nodes ≤ pods
    → trim_nodes read_onlys pods nodes ≡ some nodes
trim_all_there read_onlys pods nodes h = unfold trim_nodes in rw none_gone
  where
    none_gone : ltb pods (length nodes) ≡ false
    none_gone = ground arith

-- Where the nodes are those of the pods, some that are gone, and those of the read-only pods, as
-- many as the spec asks for, exactly the nodes that are gone are removed.
pub trim_nodes_lem :
    (ro : ReadOnlyType) (cluster gone ro_nodes : List NodeStatus)
    → length ro_nodes ≡ ro.num
    → trim_nodes (some ro) (length cluster) (cluster ++ (gone ++ ro_nodes))
      ≡ some (cluster ++ ro_nodes)
trim_nodes_lem ro cluster [] [] e =
    let nothing : List NodeStatus = [] in
    trim_all_there (some ro) (length cluster) (cluster ++ nothing)
      (omega (arith, length-append cluster nothing))
trim_nodes_lem ro cluster gone ro_nodes e =
    trim_some ro (length cluster) (cluster ++ (gone ++ ro_nodes)) more room
    ∙ ap₂ (λ a b. some (a ++ b)) (take-append cluster (gone ++ ro_nodes)) last_part
  where
    total :
        length (cluster ++ (gone ++ ro_nodes)) ≡ length cluster + (length gone + length ro_nodes)
    total = omega (arith, length-append cluster (gone ++ ro_nodes), length-append gone ro_nodes)

    more : length cluster < length (cluster ++ (gone ++ ro_nodes))
    more = omega (arith, total)

    room : ro.num ≤ length (cluster ++ (gone ++ ro_nodes))
    room = omega (arith, total, e)

    place : length (cluster ++ (gone ++ ro_nodes)) - ro.num ≡ length (cluster ++ gone)
    place = omega (arith, total, e, length-append cluster gone)

    last_part :
        drop (length (cluster ++ (gone ++ ro_nodes)) - ro.num) (cluster ++ (gone ++ ro_nodes))
        ≡ ro_nodes
    last_part =
        ap (λ n. drop n (cluster ++ (gone ++ ro_nodes))) place
        ∙ ap (drop (length (cluster ++ gone))) (sym (append_assoc cluster gone ro_nodes))
        ∙ drop-append (cluster ++ gone) ro_nodes

-- Where fewer read-only nodes are known than the spec asks for, so that the last part reaches into
-- the first, the node at the overlap stands twice in the result.
pub trim_nodes_overlap :
    (ro : ReadOnlyType) (pods : ℕ) (nodes : List NodeStatus)
    → pods < length nodes
    → length nodes < pods + ro.num
    → ro.num ≤ length nodes
    → (kept : List NodeStatus) × (trim_nodes (some ro) pods nodes ≡ some kept)
      × (length nodes - ro.num < pods)
      × (get_elem? kept (length nodes - ro.num) ≡ get_elem? nodes (length nodes - ro.num))
      × (get_elem? kept pods ≡ get_elem? nodes (length nodes - ro.num))
trim_nodes_overlap ro pods nodes few short room = (
  take pods nodes ++ drop (length nodes - ro.num) nodes,
  trim_some ro pods nodes few room,
  omega arith,
  get_elem?-before (take pods nodes) _ (length nodes - ro.num) (omega (arith, first))
      ∙ get_elem?-take pods (length nodes - ro.num) nodes (omega arith),
  ap (get_elem? (take pods nodes ++ drop (length nodes - ro.num) nodes)) (sym first)
      ∙ get_elem?-behind (take pods nodes) (drop (length nodes - ro.num) nodes)
      ∙ get_elem?-drop_zero (length nodes - ro.num) nodes,
)
  where
    first : length (take pods nodes) ≡ pods
    first = length-take_of_le pods nodes (omega arith)
