-- ===== src/Hooks/PostStart.antt =====
-- postStart of cmd/xenon/main.go: when a pod marks itself for a rebuild.
use radondb_mysql_kubernetes.Prelude.{
  ℕ, ◌+◌, ◌≤◌, ◌≡◌, ◌⊎◌, ◌↔◌, refl, subst, split, FirstPart, split-FirstPart, split-Lacks,
  split-append, str_eq_refl, sym, ap, ◌∙◌, Option-cases, inl, inr, Bool, true, false, Bool-cases,
  ◌&&◌, ◌||◌, ltb, List, [], ◌∷◌, Str, codes, str_eq, str_eq_iff, is_empty, is_empty_iff, All, In,
  ok, Result-cases, arith, if◌then◌else◌,
}
use radondb_mysql_kubernetes.Hooks.{
  Gtid, first_of, is_alive, is_leader, is_mine, scan_gtids, Scan, i_am_leader, scanned, StartInput,
  post_start, after_scan, compare_sets, have_errant_transactions,
}

abbrev pub counted : Bool → ℕ
counted true = 1
counted false = 0

-- The entries that are alive.
abbrev pub alive_count : List Gtid → ℕ
alive_count [] = 0
alive_count (g ∷ gtids) = counted (is_alive g) + alive_count gtids

-- The entry is not a live leader that is this pod.
abbrev pub NotLeader : Str → Gtid → Type 0
NotLeader pod_name g = (is_alive g && (is_mine pod_name g && is_leader g)) ≡ false

-- A live leader has this set.
abbrev pub LeaderSet : List Gtid → Str → Type 0
LeaderSet gtids set =
    (g : Gtid) × In g gtids
    × (is_alive g ≡ true)
    × (is_leader g ≡ true)
    × (set ≡ g.executed_gtid_set)

-- The pod's name, which has no dot, is what the entry's id has before its first dot.
abbrev pub IsOf : Str → Gtid → Type 0
IsOf pod_name g = FirstPart 46 g.id pod_name

is_mine_iff : (pod_name : Str) (g : Gtid) → (is_mine pod_name g ≡ true) ↔ IsOf pod_name g
unfolding is_mine
is_mine_iff pod_name g = (
  λ h.
      let (first, parts, e, part) = split-FirstPart 46 g.id in
      let same : first ≡ pod_name =
        (str_eq_iff first pod_name).0 (ap (λ l. str_eq (first_of l) pod_name) (sym e) ∙ h) in
      subst (FirstPart 46 g.id) same part,
  λ (lacks, or). elim or [
    | inl e ↦
        ap (λ t. str_eq (first_of (split t 46)) pod_name) e
        ∙ ap (λ l. str_eq (first_of l) pod_name) (split-Lacks 46 pod_name lacks)
        ∙ str_eq_refl pod_name
    | inr (rest, e) ↦
        ap (λ t. str_eq (first_of (split t 46)) pod_name) e
        ∙ ap (λ l. str_eq (first_of l) pod_name) (split-append 46 pod_name rest lacks)
        ∙ str_eq_refl pod_name
  ],
)

-- A live entry of the pod has this set.
abbrev pub OwnEntry : Str → List Gtid → Str → Type 0
OwnEntry pod_name gtids set =
    (g : Gtid) × In g gtids × (is_alive g ≡ true) × IsOf pod_name g × (set ≡ g.executed_gtid_set)

-- The entry is not alive, or not the pod's.
abbrev pub NotOwn : Str → Gtid → Type 0
NotOwn pod_name g = (is_alive g ≡ false) ⊎ ¬ IsOf pod_name g

-- The set of the pod: that of a live entry of its own, or, if the list has none, the given one.
abbrev pub OwnSet : Str → Str → List Gtid → Str → Type 0
OwnSet pod_name start gtids set =
    OwnEntry pod_name gtids set ⊎ ((set ≡ start) × All (NotOwn pod_name) gtids)

abbrev alive_of : Scan → ℕ
alive_of i_am_leader = 0
alive_of (scanned mine leader alive) = alive

module _ (pod_name : Str) where
  -- What a finished scan says of the list.
  abbrev Scanned : List Gtid → Str → ℕ → Str → ℕ → Type 0
  Scanned gtids leader alive l n =
      All (NotLeader pod_name) gtids
      × (n ≡ alive + alive_count gtids)
      × ((l ≡ leader) ⊎ LeaderSet gtids l)

  further : (g : Gtid) (gtids : List Gtid) (l : Str) → LeaderSet gtids l → LeaderSet (g ∷ gtids) l
  further g gtids l (x, m, a, k, e) = (x, In.there m, a, k, e)

  scan_gtids_dead :
      (g : Gtid) (gtids : List Gtid) (mine leader : Str) (alive : ℕ)
      → is_alive g ≡ false
      → scan_gtids pod_name (g ∷ gtids) mine leader alive
        ≡ scan_gtids pod_name gtids mine leader alive
  unfolding scan_gtids
  scan_gtids_dead g gtids mine leader alive h = rw h

  scan_gtids_me :
      (g : Gtid) (gtids : List Gtid) (mine leader : Str) (alive : ℕ)
      → is_alive g ≡ true
      → (is_mine pod_name g && is_leader g) ≡ true
      → scan_gtids pod_name (g ∷ gtids) mine leader alive ≡ i_am_leader
  unfolding scan_gtids
  scan_gtids_me g gtids mine leader alive h k = rw (h, k)

  scan_gtids_other :
      (g : Gtid) (gtids : List Gtid) (mine leader : Str) (alive : ℕ)
      → is_alive g ≡ true
      → (is_mine pod_name g && is_leader g) ≡ false
      → scan_gtids pod_name (g ∷ gtids) mine leader alive
        ≡ scan_gtids pod_name gtids
            (if is_mine pod_name g then g.executed_gtid_set else mine)
            (if is_leader g then g.executed_gtid_set else leader)
            (alive + 1)
  unfolding scan_gtids
  scan_gtids_other g gtids mine leader alive h k = rw (h, k)

  one_dead :
      (g : Gtid) (gtids : List Gtid) (leader : Str) (alive : ℕ) (l : Str) (n : ℕ)
      → is_alive g ≡ false
      → Scanned gtids leader alive l n
      → Scanned (g ∷ gtids) leader alive l n
  one_dead g gtids leader alive l n e (all, count, set) =
      let zero_more : counted (is_alive g) ≡ 0 = ap counted e in
      (
        (ap (λ b. b && (is_mine pod_name g && is_leader g)) e, all),
        omega arith,
        elim set [ inl same ↦ inl same | inr found ↦ inr (further g gtids l found) ],
      )

  one_alive :
      (g : Gtid) (gtids : List Gtid) (leader : Str) (alive : ℕ) (l : Str) (n : ℕ)
      → is_alive g ≡ true
      → (is_mine pod_name g && is_leader g) ≡ false
      → Scanned gtids (if is_leader g then g.executed_gtid_set else leader) (alive + 1) l n
      → Scanned (g ∷ gtids) leader alive l n
  one_alive g gtids leader alive l n e k (all, count, set) =
      let one : counted (is_alive g) ≡ 1 = ap counted e in
      (
        (ap (λ b. b && (is_mine pod_name g && is_leader g)) e ∙ k, all),
        omega arith,
        elim set [
          | inr found ↦ inr (further g gtids l found)
          | inl same ↦ elim (Bool-cases (is_leader g)) [
            | inl t ↦ inr (
              g,
              In.here refl,
              e,
              t,
              same ∙ ap (λ b. if b then g.executed_gtid_set else leader) t,
            )
            | inr f ↦ inl (same ∙ ap (λ b. if b then g.executed_gtid_set else leader) f)
          ]
        ],
      )

  scan_gtids-Scanned :
      (gtids : List Gtid) (mine leader : Str) (alive : ℕ) (m l : Str) (n : ℕ)
      → scan_gtids pod_name gtids mine leader alive ≡ scanned m l n
      → Scanned gtids leader alive l n
  unfolding scan_gtids
  scan_gtids-Scanned [] mine leader alive m l n h = (tt, omega (arith, ap alive_of h), inl (cc))
  scan_gtids-Scanned (g ∷ gtids) mine leader alive m l n h = elim (Bool-cases (is_alive g)) [
    | inr e ↦ one_dead g gtids leader alive l n e (
        scan_gtids-Scanned gtids mine leader alive m l n
          (sym (scan_gtids_dead g gtids mine leader alive e) ∙ h))
    | inl e ↦ elim (Bool-cases (is_mine pod_name g && is_leader g)) [
      | inl k ↦ cc (scan_gtids_me g gtids mine leader alive e k, h)
      | inr k ↦ one_alive g gtids leader alive l n e k (
          scan_gtids-Scanned gtids (if is_mine pod_name g then g.executed_gtid_set else mine)
            (if is_leader g then g.executed_gtid_set else leader) (alive + 1) m l n
            (sym (scan_gtids_other g gtids mine leader alive e k) ∙ h))
    ]
  ]

module _ (pod_name : Str) where
  own_further :
      (g : Gtid) (gtids : List Gtid) (start set : Str)
      → NotOwn pod_name g
      → OwnSet pod_name start gtids set
      → OwnSet pod_name start (g ∷ gtids) set
  own_further g gtids start set n (inl (x, m, a, o, e)) = inl (x, In.there m, a, o, e)
  own_further g gtids start set n (inr (e, all)) = inr (e, (n, all))

  own_here :
      (g : Gtid) (gtids : List Gtid) (start set : Str)
      → is_alive g ≡ true
      → IsOf pod_name g
      → OwnSet pod_name g.executed_gtid_set gtids set
      → OwnSet pod_name start (g ∷ gtids) set
  own_here g gtids start set a o (inl (x, m, b, p, e)) = inl (x, In.there m, b, p, e)
  own_here g gtids start set a o (inr (e, all)) = inl (g, In.here refl, a, o, e)

  scan_gtids-OwnSet :
      (gtids : List Gtid) (mine leader : Str) (alive : ℕ) (m l : Str) (n : ℕ)
      → scan_gtids pod_name gtids mine leader alive ≡ scanned m l n
      → OwnSet pod_name mine gtids m
  unfolding scan_gtids
  scan_gtids-OwnSet [] mine leader alive m l n h = inr (cc, tt)
  scan_gtids-OwnSet (g ∷ gtids) mine leader alive m l n h = elim (Bool-cases (is_alive g)) [
    | inr e ↦ own_further g gtids mine m (inl e) (
        scan_gtids-OwnSet gtids mine leader alive m l n
          (sym (scan_gtids_dead pod_name g gtids mine leader alive e) ∙ h))
    | inl e ↦ elim (Bool-cases (is_mine pod_name g && is_leader g)) [
      | inl k ↦ cc (scan_gtids_me pod_name g gtids mine leader alive e k, h)
      | inr k ↦
          let rest =
            scan_gtids-OwnSet gtids (if is_mine pod_name g then g.executed_gtid_set else mine)
              (if is_leader g then g.executed_gtid_set else leader) (alive + 1) m l n
              (sym (scan_gtids_other pod_name g gtids mine leader alive e k) ∙ h) in
          elim (Bool-cases (is_mine pod_name g)) [
            | inl t ↦ own_here g gtids mine m e ((is_mine_iff pod_name g).0 t) (
                subst (λ b. OwnSet pod_name (if b then g.executed_gtid_set else mine) gtids m) t
                  rest)
            | inr f ↦ own_further g gtids mine m (inr (λ o. cc ((is_mine_iff pod_name g).1 o, f))) (
                subst (λ b. OwnSet pod_name (if b then g.executed_gtid_set else mine) gtids m) f
                  rest)
          ]
    ]
  ]

-- Why a pod marks itself: rebuilds are enabled, it is not a live leader, three nodes or more are
-- alive, and MySQL says that its set, or the empty set if the list has no live entry of the pod, is
-- not a subset of the set of a live leader.
pub record Marked (pod_name : Str) (i : StartInput) : Type 0 where
  pub enabled : i.auto_rebuild ≡ codes "true"
  pub not_leader : All (NotLeader pod_name) i.gtids
  pub enough : 3 ≤ alive_count i.gtids
  pub mine : Str
  pub own_set : OwnSet pod_name [] i.gtids mine
  pub leader : Str
  pub leader_set : LeaderSet i.gtids leader
  pub errant : i.gtid_subset mine leader ≡ ok false

-- A scan after which the pod marks itself.
abbrev Errant : StartInput → Scan → Type 0
Errant i i_am_leader = ⊥
Errant i (scanned mine leader alive) =
    (3 ≤ alive) × (is_empty leader ≡ false) × (i.gtid_subset mine leader ≡ ok false)

enough : (alive : ℕ) (b : Bool) → (ltb alive 3 || b) ≡ false → 3 ≤ alive
enough alive b h = ground arith

not_empty : (alive : ℕ) (b : Bool) → (ltb alive 3 || b) ≡ false → b ≡ false
not_empty alive b h = ground arith

compare_sets-errant :
    (i : StartInput) (mine leader : Str)
    → (compare_sets i mine leader).1 ≡ true
    → i.gtid_subset mine leader ≡ ok false
unfolding compare_sets have_errant_transactions
compare_sets-errant i mine leader h = elim (Result-cases (i.gtid_subset mine leader)) [
  | inl (x, e) ↦ cc (rw (e, compare_sets, have_errant_transactions) at h)
  | inr (b, e) ↦ elim (Bool-cases b) [
    | inl t ↦ cc (rw (e, t, compare_sets, have_errant_transactions) at h)
    | inr f ↦ e ∙ ap ok f
  ]
]

after_scan-Errant : (i : StartInput) (s : Scan) → (after_scan i s).1 ≡ true → Errant i s
unfolding after_scan
after_scan-Errant i i_am_leader h = cc
after_scan-Errant i (scanned mine leader alive) h =
    elim (Bool-cases (ltb alive 3 || is_empty leader)) [
      | inl e ↦ cc (rw (e, after_scan) at h)
      | inr e ↦ elim (Option-cases i.connection) [
        | inr (x, k) ↦ cc (rw (e, k, after_scan) at h)
        | inl k ↦ (
          enough alive (is_empty leader) e,
          not_empty alive (is_empty leader) e,
          compare_sets-errant i mine leader (rw (e, k, after_scan) at h),
        )
      ]
    ]

marked :
    (pod_name : Str) (i : StartInput)
    → str_eq i.auto_rebuild (codes "true") ≡ true
    → (s : Scan) → scan_gtids pod_name i.gtids [] [] 0 ≡ s
    → (after_scan i s).1 ≡ true
    → Marked pod_name i
marked pod_name i e i_am_leader k h = absurd (after_scan-Errant i i_am_leader h)
marked pod_name i e (scanned mine leader alive) k h =
    let (all, count, set) = scan_gtids-Scanned pod_name i.gtids [] [] 0 mine leader alive k in
    let (three, set_there, errant) = after_scan-Errant i (scanned mine leader alive) h in
    record {
      enabled = (str_eq_iff i.auto_rebuild (codes "true")).0 e;
      not_leader = all;
      enough = omega arith;
      mine = mine;
      own_set = scan_gtids-OwnSet pod_name i.gtids [] [] 0 mine leader alive k;
      leader = leader;
      leader_set = elim set [
        | inr found ↦ found
        | inl same ↦ cc ((is_empty_iff leader).1 same, set_there)
      ];
      errant = errant;
    }

-- postStart labels the pod for a rebuild only when that is enabled, the pod is not a live leader,
-- three nodes or more are alive, and its GTID set (that of a live entry with its name, or the empty
-- one without such an entry) is not a subset of a live leader's.
pub post_start-Marked :
    (pod_name : Str) (i : StartInput) → (post_start pod_name i).1 ≡ true → Marked pod_name i
unfolding post_start
post_start-Marked pod_name i h = elim (Bool-cases (str_eq i.auto_rebuild (codes "true"))) [
  | inr e ↦ cc (rw (e, post_start) at h)
  | inl e ↦ elim (Option-cases i.mysql_available) [
    | inr (x, k) ↦ cc (rw (e, k, post_start) at h)
    | inl k ↦ elim (Option-cases i.xenon_available) [
      | inr (x, l) ↦ cc (rw (e, k, l, post_start) at h)
      | inl l ↦
          marked pod_name i e (scan_gtids pod_name i.gtids [] [] 0) refl
            (rw (e, k, l, post_start) at h)
    ]
  ]
]
