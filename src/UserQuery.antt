-- ===== src/UserQuery.antt =====
-- internal/query.go and the statements on users of internal/sql_runner.go: BuildUserManagementSQL
-- and what it calls, Escape and escapeID.
pub mod Placeholders
pub mod Grants
pub mod Escaping
use radondb_mysql_kubernetes.Prelude.{
  ℕ, zero, suc, ◌+◌, ◌==◌, Bool, true, false, not, ◌&&◌, Option, none, some, List, [], ◌∷◌, ◌++◌,
  Str, codes, Error, Result, ok, err, is_empty, has_suffix, str_eq, if◌then◌else◌,
}

-- Query: a text with a question mark for each of the arguments.
pub record Query : Type 0 where
  pub escaped_query : Str
  pub args : List Str

-- `NewQuery`
unfoldable pub new_query : Str → List Str → Query
new_query q args = record {
  escaped_query = if has_suffix q (codes ";") then q else q ++ codes ";";
  args = args;
}

-- The loop of `ConcatenateQueries`, after `query` and `args`.
unfoldable pub concatenate_from : Str → List Str → List Query → Query
unfolding new_query
concatenate_from query args [] = new_query query args
concatenate_from query args (pq ∷ queries) =
    concatenate_from
      ((if not (is_empty query) && not (has_suffix query (codes "\n"))
          then query ++ codes "\n"
          else query)
        ++ pq.escaped_query)
      (args ++ pq.args) queries

-- `ConcatenateQueries`
unfoldable pub concatenate_queries : List Query → Query
unfolding concatenate_from
concatenate_queries queries = concatenate_from [] [] queries

-- `BuildAtomicQuery`
unfoldable pub build_atomic_query : List Query → Query
unfolding new_query concatenate_queries
build_atomic_query queries =
    concatenate_queries
      (new_query (codes "BEGIN") [] ∷ (queries ++ new_query (codes "COMMIT") [] ∷ []))

-- The part of `getUsersIdentification` for one host.
identification : Str → Option Str → Str → Str × List Str
identification user (some pwd) host = (codes " ?@? IDENTIFIED BY ?", user ∷ host ∷ pwd ∷ [])
identification user none host = (codes " ?@?", user ∷ host ∷ [])

-- Its loop, after `ids` and `args`.
identify_from : Str → Option Str → Bool → Str → List Str → List Str → Str × List Str
unfolding identification
identify_from user pwd first ids args [] = (ids, args)
identify_from user pwd first ids args (host ∷ allowed_hosts) =
    let (id, arg) = identification user pwd host in
    identify_from user pwd false ((if first then ids else ids ++ codes ",") ++ id) (args ++ arg)
      allowed_hosts

-- `getUsersIdentification`
unfoldable pub get_users_identification : Str → Option Str → List Str → Str × List Str
unfolding identify_from
get_users_identification user pwd allowed_hosts = identify_from user pwd true [] [] allowed_hosts

-- `getCreateUserQuery`, with the type of the TLS options
unfoldable pub get_create_user_query : Str → Str → List Str → Str → Query
unfolding get_users_identification new_query
get_create_user_query user pwd allowed_hosts tls_type =
    let (ids_tmpl, ids_args) = get_users_identification user (some pwd) allowed_hosts in
    new_query (codes "CREATE USER IF NOT EXISTS" ++ (ids_tmpl ++ (codes " REQUIRE " ++ tls_type)))
      ids_args

-- `getAlterUserQuery`
unfoldable pub get_alter_user_query : Str → Str → List Str → Query
unfolding get_users_identification new_query
get_alter_user_query user pwd allowed_hosts =
    let (ids, ids_args) = get_users_identification user (some pwd) allowed_hosts in
    new_query (codes "ALTER USER" ++ ids) ids_args

-- `strings.ReplaceAll(id, "`", "")`
remove_backticks : Str → Str
remove_backticks [] = []
remove_backticks (x ∷ id) = let rest = remove_backticks id in if x == 96 then rest else x ∷ rest

-- `escapeID`
unfoldable pub escape_id : Str → Str
unfolding remove_backticks
escape_id id = if str_eq id (codes "*") then id else 96 ∷ (remove_backticks id ++ 96 ∷ [])

-- The byte behind the backslash for a byte that is escaped.
unfoldable pub escape_of : ℕ → Option ℕ
escape_of c =
    if c == 0
    then some b'0'
    else if c == 10
    then some b'n'
    else if c == 13
    then some b'r'
    else if c == 92
    then some 92
    else if c == 39
    then some 39
    else if c == 34
    then some 34
    else if c == 26
    then some b'Z'
    else none

-- `Escape`
unfoldable pub escape : Str → Str
unfolding escape_of
escape [] = []
escape (c ∷ sql) = elim (escape_of c) [ some e ↦ 92 ∷ e ∷ escape sql | none ↦ c ∷ escape sql ]

-- UserPermission
pub record UserPermission : Type 0 where
  pub database : Str
  pub tables : List Str
  pub privileges : List Str

-- `strings.Join(escPerms, ", ")` of the escaped privileges
join_escaped : List Str → Str
unfolding escape
join_escaped [] = []
join_escaped (perm ∷ []) = escape perm
join_escaped (perm ∷ perm' ∷ privileges) =
    escape perm ++ (codes ", " ++ join_escaped (perm' ∷ privileges))

-- The statement for one table.
grant_query : UserPermission → Str → List Str → Bool → Str → Query
unfolding join_escaped escape_id get_users_identification new_query
grant_query perm user allowed_hosts with_grant table =
    let (ids_tmpl, ids_args) = get_users_identification user none allowed_hosts in
    let schema_table = escape_id perm.database ++ (codes "." ++ escape_id table) in
    let query =
      codes "GRANT "
      ++ (join_escaped perm.privileges
          ++ (codes " ON " ++ (schema_table ++ (codes " TO" ++ ids_tmpl)))) in
    new_query (if with_grant then query ++ codes " WITH GRANT OPTION" else query) ids_args

grants_of_tables : UserPermission → Str → List Str → Bool → List Str → List Query
unfolding grant_query
grants_of_tables perm user allowed_hosts with_grant [] = []
grants_of_tables perm user allowed_hosts with_grant (table ∷ tables) =
    grant_query perm user allowed_hosts with_grant table
    ∷ grants_of_tables perm user allowed_hosts with_grant tables

all_grants : List UserPermission → Str → List Str → Bool → List Query
unfolding grants_of_tables
all_grants [] user allowed_hosts with_grant = []
all_grants (perm ∷ permissions) user allowed_hosts with_grant =
    grants_of_tables perm user allowed_hosts with_grant perm.tables
    ++ all_grants permissions user allowed_hosts with_grant

-- `permissionsToQuery`
unfoldable pub permissions_to_query : List UserPermission → Str → List Str → Bool → Query
unfolding all_grants concatenate_queries
permissions_to_query permissions user allowed_hosts with_grant =
    concatenate_queries (all_grants permissions user allowed_hosts with_grant)

-- The fields of MysqlUserSpec that are read.
pub record MysqlUserSpec : Type 0 where
  pub user : Str
  pub hosts : List Str
  pub permissions : List UserPermission
  pub tls_type : Str
  pub with_grant_option : Bool

grants_if_any : MysqlUserSpec → List UserPermission → List Query
unfolding permissions_to_query
grants_if_any spec [] = []
grants_if_any spec (perm ∷ permissions) =
    permissions_to_query (perm ∷ permissions) spec.user spec.hosts spec.with_grant_option ∷ []

for_hosts : MysqlUserSpec → Str → List Str → Result Query
unfolding get_create_user_query get_alter_user_query grants_if_any build_atomic_query
for_hosts spec pass [] = err (codes "no allowedHosts specified")
for_hosts spec pass (host ∷ hosts) = ok (
    build_atomic_query (
      get_create_user_query spec.user pass spec.hosts spec.tls_type
      ∷ get_alter_user_query spec.user pass spec.hosts
      ∷ grants_if_any spec spec.permissions))

-- `BuildUserManagementSQL`
unfoldable pub build_user_management_sql : MysqlUserSpec → Str → Result Query
unfolding for_hosts
build_user_management_sql spec pass = for_hosts spec pass spec.hosts
