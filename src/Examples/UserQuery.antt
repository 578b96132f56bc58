-- ===== src/Examples/UserQuery.antt =====
-- The statements on users at concrete inputs.
use radondb_mysql_kubernetes.Prelude.{
  ◌≡◌, ◌≢◌, ◌⊎◌, refl, inl, some, true, [], ◌∷◌, ◌++◌, codes, err, ok, str_eq,
}
use radondb_mysql_kubernetes.UserQuery.{
  Query, MysqlUserSpec, build_user_management_sql, escape, escape_id,
}
use radondb_mysql_kubernetes.UserQuery.Escaping.{read_quoted, read_quoted-escape}
use radondb_mysql_kubernetes.UserQuery.Grants.{build_user_management_sql_lem}
use radondb_mysql_kubernetes.UserQuery.Placeholders.{Balanced, marks}

read_quoted-escape_example :
    read_quoted 39 (escape (codes "it's") ++ 39 ∷ codes " OR 1")
    ≡ some (codes "it's", codes " OR 1")
read_quoted-escape_example =
    read_quoted-escape 39 (codes "it's") (codes " OR 1") (inl refl) (λ e. cc)

escaped_id : escape_id (codes "db") ≡ 96 ∷ (codes "db" ++ 96 ∷ [])
unfolding escape_id str_eq
escaped_id = refl

abbrev reader : MysqlUserSpec
reader = record {
  user = codes "reader";
  hosts = codes "%" ∷ codes "10.0.0.1" ∷ [];
  permissions =
      record {
        database = codes "shop";
        tables = codes "*" ∷ [];
        privileges = codes "SELECT" ∷ codes "SHOW VIEW" ∷ [];
      }
      ∷ [];
  tls_type = codes "NONE";
  with_grant_option = true;
}

build_user_management_sql_lem_example :
    ((reader.hosts ≡ [])
      × (build_user_management_sql reader (codes "pw") ≡ err (codes "no allowedHosts specified")))
    ⊎ ((reader.hosts ≢ [])
        × ((q : Query) × (build_user_management_sql reader (codes "pw") ≡ ok q) × Balanced q))
unfolding marks
build_user_management_sql_lem_example =
    build_user_management_sql_lem reader (codes "pw") refl
      ((refl, (refl, tt), (refl, (refl, tt))), tt)
