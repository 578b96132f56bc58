-- ===== src/UserQuery/Grants.antt =====
-- BuildUserManagementSQL: every question mark of the whole statement has its argument.
use radondb_mysql_kubernetes.Prelude.{
  ◌≡◌, ◌≢◌, ◌∙◌, ◌⊎◌, inl, inr, refl, Bool, Bool-cases, none, List, [], ◌∷◌, ◌++◌, Str, codes, ok,
  err, length, All, All-append, arith,
}
use radondb_mysql_kubernetes.UserQuery.{
  Query, concatenate_queries, get_users_identification, escape_id, escape, UserPermission,
  join_escaped, grant_query, grants_of_tables, all_grants, permissions_to_query, MysqlUserSpec,
  grants_if_any, for_hosts, build_user_management_sql, get_create_user_query, get_alter_user_query,
  build_atomic_query,
}
use radondb_mysql_kubernetes.UserQuery.Placeholders.{
  marks, marks-append, Balanced, Plain, new_query-Balanced, concatenate_from-Balanced,
  build_atomic_query-Balanced, get_users_identification-marks, get_create_user_query-Balanced,
  get_alter_user_query-Balanced, escape_id-Plain, escape-Plain,
}

-- The texts of a permission have no question marks.
abbrev pub PlainPermission : UserPermission → Type 0
PlainPermission p = Plain p.database × All Plain p.tables × All Plain p.privileges

join_escaped-Plain :
    (privileges : List Str) → All Plain privileges → Plain (join_escaped privileges)
unfolding join_escaped marks
join_escaped-Plain [] h = refl
join_escaped-Plain (p ∷ []) h = escape-Plain p h.0
join_escaped-Plain (p ∷ p' ∷ ps) h =
    marks-append (escape p) (codes ", " ++ join_escaped (p' ∷ ps))
    ∙ omega (
      arith,
      escape-Plain p h.0,
      marks-append (codes ", ") (join_escaped (p' ∷ ps)),
      join_escaped-Plain (p' ∷ ps) h.1,
    )

module _ (user : Str) (hosts : List Str) (with_grant : Bool) where
  grant_query-Balanced :
      (perm : UserPermission) (table : Str)
      → PlainPermission perm
      → Plain table
      → Balanced (grant_query perm user hosts with_grant table)
  unfolding grant_query marks
  grant_query-Balanced perm table h k = elim (Bool-cases with_grant) [
    | inl e ↦
        rw (e, grant_query)
          (new_query-Balanced (query ++ codes " WITH GRANT OPTION") ids.1
            (marks-append query (codes " WITH GRANT OPTION") ∙ omega (arith, counted)))
    | inr e ↦ rw (e, grant_query) (new_query-Balanced query ids.1 counted)
  ]
    where
      ids : Str × List Str
      ids = get_users_identification user none hosts

      schema_table : Str
      schema_table = escape_id perm.database ++ (codes "." ++ escape_id table)

      query : Str
      query =
          codes "GRANT "
          ++ (join_escaped perm.privileges
              ++ (codes " ON " ++ (schema_table ++ (codes " TO" ++ ids.0))))

      counted : marks query ≡ length ids.1
      counted =
          marks-append (codes "GRANT ") (
            join_escaped perm.privileges
            ++ (codes " ON " ++ (schema_table ++ (codes " TO" ++ ids.0))))
          ∙ omega (
            arith,
            marks-append (join_escaped perm.privileges)
                (codes " ON " ++ (schema_table ++ (codes " TO" ++ ids.0))),
            marks-append (codes " ON ") (schema_table ++ (codes " TO" ++ ids.0)),
            marks-append schema_table (codes " TO" ++ ids.0),
            marks-append (codes " TO") ids.0,
            marks-append (escape_id perm.database) (codes "." ++ escape_id table),
            marks-append (codes ".") (escape_id table),
            join_escaped-Plain perm.privileges h.2,
            escape_id-Plain perm.database h.0,
            escape_id-Plain table k,
            get_users_identification-marks user none hosts,
          )

  grants_of_tables-Balanced :
      (perm : UserPermission) (tables : List Str)
      → PlainPermission perm
      → All Plain tables
      → All Balanced (grants_of_tables perm user hosts with_grant tables)
  unfolding grants_of_tables
  grants_of_tables-Balanced perm [] h k = tt
  grants_of_tables-Balanced perm (table ∷ tables) h k =
      (grant_query-Balanced perm table h k.0, grants_of_tables-Balanced perm tables h k.1)

  all_grants-Balanced :
      (permissions : List UserPermission)
      → All PlainPermission permissions
      → All Balanced (all_grants permissions user hosts with_grant)
  unfolding all_grants
  all_grants-Balanced [] h = tt
  all_grants-Balanced (perm ∷ permissions) h =
      All-append Balanced (grants_of_tables perm user hosts with_grant perm.tables)
        (all_grants permissions user hosts with_grant)
        (grants_of_tables-Balanced perm perm.tables h.0 h.0.1) (all_grants-Balanced permissions h.1)

grants_if_any-Balanced :
    (spec : MysqlUserSpec) (permissions : List UserPermission)
    → All PlainPermission permissions
    → All Balanced (grants_if_any spec permissions)
unfolding grants_if_any permissions_to_query concatenate_queries
grants_if_any-Balanced spec [] h = tt
grants_if_any-Balanced spec (perm ∷ permissions) h = (
  concatenate_from-Balanced [] []
      (all_grants (perm ∷ permissions) spec.user spec.hosts spec.with_grant_option)
      (unfold marks in refl)
      (all_grants-Balanced spec.user spec.hosts spec.with_grant_option (perm ∷ permissions) h),
  tt,
)

-- BuildUserManagementSQL fails exactly without hosts; else every question mark of its statement has its
-- argument, if the TLS type and the texts of the permissions have no question marks.
pub build_user_management_sql_lem :
    (spec : MysqlUserSpec) (pass : Str)
    → Plain spec.tls_type
    → All PlainPermission spec.permissions
    → ((spec.hosts ≡ [])
        × (build_user_management_sql spec pass ≡ err (codes "no allowedHosts specified")))
      ⊎ ((spec.hosts ≢ [])
          × ((q : Query) × (build_user_management_sql spec pass ≡ ok q) × Balanced q))
unfolding build_user_management_sql
build_user_management_sql_lem spec pass h k = by_hosts spec.hosts refl
  where
    built : Query
    built = build_atomic_query (
        get_create_user_query spec.user pass spec.hosts spec.tls_type
        ∷ get_alter_user_query spec.user pass spec.hosts
        ∷ grants_if_any spec spec.permissions)

    by_hosts :
        (hosts : List Str)
        → spec.hosts ≡ hosts
        → ((hosts ≡ []) × (for_hosts spec pass hosts ≡ err (codes "no allowedHosts specified")))
          ⊎ ((hosts ≢ []) × ((q : Query) × (for_hosts spec pass hosts ≡ ok q) × Balanced q))
    by_hosts [] e = inl (refl, refl)
    by_hosts (host ∷ hosts) e = inr (
      (λ k. cc),
      (
        built,
        refl,
        build_atomic_query-Balanced
            (get_create_user_query spec.user pass spec.hosts spec.tls_type
              ∷ get_alter_user_query spec.user pass spec.hosts
              ∷ grants_if_any spec spec.permissions)
            (
              get_create_user_query-Balanced spec.user pass spec.hosts spec.tls_type h,
              (
                get_alter_user_query-Balanced spec.user pass spec.hosts,
                grants_if_any-Balanced spec spec.permissions k,
              ),
            ),
      ),
    )
