-- ===== src/Status/Xenon/Members.antt =====
-- What the calls of reconcileXenon do to the members that each xenon node knows.
use radondb_mysql_kubernetes.Prelude.{
  ◌≡◌, ◌≢◌, ◌↔◌, ◌⊎◌, inl, inr, refl, sym, subst, ◌∙◌, List, [], ◌∷◌, ◌++◌, map, Str, str_eq,
  str_eq_iff, str_eq_refl, str_eq_sound, Bool-cases, if◌then◌else◌, In, In-cons_cases, not_In_nil,
}
use radondb_mysql_kubernetes.Kube.{Call, xenon_ping, cluster_add, cluster_remove}
use radondb_mysql_kubernetes.Status.Types.{NodeStatus}
use radondb_mysql_kubernetes.Status.Xenon.Plan.{node_plan}
use radondb_mysql_kubernetes.Utils.{string_diff_in, string_in}
use radondb_mysql_kubernetes.Utils.Membership.{
  In-string_diff_in, string_in_sound, string_in_complete,
}

abbrev without : Str → List Str → List Str
without a [] = []
without a (x ∷ xs) = let rest = without a xs in if str_eq x a then rest else x ∷ rest

-- One call, as the node `host` sees it: `cluster/add` and `cluster/remove` change its members.
abbrev pub member_step : Str → Call → List Str → List Str
member_step host (cluster_add h a) members = if str_eq h host then a ∷ members else members
member_step host (cluster_remove h a) members = if str_eq h host then without a members else members
member_step host _ members = members

abbrev pub members_after : Str → List Call → List Str → List Str
members_after host [] members = members
members_after host (c ∷ calls) members = members_after host calls (member_step host c members)

pub members_after-append :
    (host : Str) (xs ys : List Call) (members : List Str)
    → members_after host (xs ++ ys) members ≡ members_after host ys (members_after host xs members)
members_after-append host [] ys members = refl
members_after-append host (c ∷ xs) ys members =
    members_after-append host xs ys (member_step host c members)

without_sound : (b a : Str) (xs : List Str) → In b (without a xs) → In b xs × (b ≢ a)
without_sound b a [] m = absurd (not_In_nil m)
without_sound b a (x ∷ xs) m = elim (Bool-cases (str_eq x a)) [
  | inl e ↦ let (n, ne) = without_sound b a xs (rw (e, without) at m) in (In.there n, ne)
  | inr ne ↦ elim (In-cons_cases (rw (ne, without) at m)) [
    | inl x_is_b ↦ (In.here x_is_b, λ b_is_a. cc ((str_eq_iff x a).1 (x_is_b ∙ b_is_a)))
    | inr n ↦ let (n', other) = without_sound b a xs n in (In.there n', other)
  ]
]

without_complete : {b : Str} (a : Str) {xs : List Str} → In b xs → b ≢ a → In b (without a xs)
without_complete a (In.here {x = x} e) ne = elim (Bool-cases (str_eq x a)) [
  | inl same ↦ absurd (ne (sym e ∙ str_eq_sound x a same))
  | inr other ↦ rw (other, without) (In.here e)
]
without_complete a (In.there {x = x} m) ne = elim (Bool-cases (str_eq x a)) [
  | inl same ↦ rw (same, without) (without_complete a m ne)
  | inr other ↦ rw (other, without) (In.there (without_complete a m ne))
]

module _ (host : Str) where
  step_remove :
      (a : Str) (members : List Str)
      → member_step host (cluster_remove host a) members ≡ without a members
  step_remove a members = rw (str_eq_refl host)

  step_add :
      (a : Str) (members : List Str) → member_step host (cluster_add host a) members ≡ a ∷ members
  step_add a members = rw (str_eq_refl host)

  -- After the removals a member is one that was there and was not removed.
  after_removals :
      (b : Str) (removed members : List Str)
      → In b (members_after host (map (cluster_remove host) removed) members)
        ↔ (In b members × ¬ In b removed)
  after_removals b [] members = (λ m. (m, not_In_nil), λ h. h.0)
  after_removals b (a ∷ removed) members =
      subst
        (λ ms.
          In b (members_after host (map (cluster_remove host) removed) ms)
          ↔ (In b members × ¬ In b (a ∷ removed)))
        (sym (step_remove a members))
        (
          λ m.
              let (n, lacks) = (after_removals b removed (without a members)).0 m in
              let (n', other) = without_sound b a members n in
              (n', λ k. elim (In-cons_cases k) [ inl e ↦ other (sym e) | inr j ↦ lacks j ]),
          λ h.
              (after_removals b removed (without a members)).1
                (without_complete a h.0 (λ e. h.1 (In.here (sym e))), λ j. h.1 (In.there j)),
        )

  -- After the additions a member is one that was there or was added.
  after_additions :
      (b : Str) (added members : List Str)
      → In b (members_after host (map (cluster_add host) added) members)
        ↔ (In b added ⊎ In b members)
  after_additions b [] members =
      (λ m. inr m, λ h. elim h [ inl k ↦ absurd (not_In_nil k) | inr m ↦ m ])
  after_additions b (a ∷ added) members =
      subst
        (λ ms.
          In b (members_after host (map (cluster_add host) added) ms)
          ↔ (In b (a ∷ added) ⊎ In b members))
        (sym (step_add a members))
        (
          λ m. elim ((after_additions b added (a ∷ members)).0 m) [
            | inl k ↦ inl (In.there k)
            | inr j ↦ elim (In-cons_cases j) [ inl e ↦ inl (In.here e) | inr n ↦ inr n ]
          ],
          λ h. (after_additions b added (a ∷ members)).1 (elim h [
            | inl k ↦ elim (In-cons_cases k) [ inl e ↦ inr (In.here e) | inr j ↦ inl j ]
            | inr m ↦ inr (In.there m)
          ]),
        )

-- After the calls for a node its members are the expected ones.
pub node_plan_members :
    (expected : List Str) (node : NodeStatus) (b : Str)
    → In b (members_after node.name (node_plan expected node) node.raft_status.nodes)
      ↔ In b expected
node_plan_members expected node b =
    subst (λ ms. In b ms ↔ In b expected)
      (sym (
        members_after-append node.name
          (xenon_ping node.name ∷ map (cluster_remove node.name) removed)
          (xenon_ping node.name ∷ map (cluster_add node.name) added) known))
      (forth, back)
  where
    known : List Str
    known = node.raft_status.nodes

    removed : List Str
    removed = string_diff_in known expected

    added : List Str
    added = string_diff_in expected known

    kept : List Str
    kept = members_after node.name (map (cluster_remove node.name) removed) known

    result : List Str
    result = members_after node.name (map (cluster_add node.name) added) kept

    decide_in : (xs : List Str) → In b xs ⊎ (¬ In b xs)
    decide_in xs = elim (Bool-cases (string_in b xs 0).1) [
      | inl e ↦ inl (string_in_sound b xs 0 e)
      | inr e ↦ inr (λ m. cc (string_in_complete 0 m))
    ]

    forth : In b result → In b expected
    forth m = elim ((after_additions node.name b added kept).0 m) [
      | inl new ↦ ((In-string_diff_in b expected known).0 new).0
      | inr old ↦
          let (there_before, stays) = (after_removals node.name b removed known).0 old in
          elim (decide_in expected) [
            | inl wanted ↦ wanted
            | inr unwanted ↦
                absurd (stays ((In-string_diff_in b known expected).1 (there_before, unwanted)))
          ]
    ]

    back : In b expected → In b result
    back wanted = (after_additions node.name b added kept).1 (elim (decide_in known) [
      | inl there_before ↦ inr (
          (after_removals node.name b removed known).1
            (there_before, λ r. ((In-string_diff_in b known expected).0 r).1 wanted))
      | inr absent ↦ inl ((In-string_diff_in b expected known).1 (wanted, absent))
    ])
