-- ===== src/Examples/MysqlUser.antt =====
-- A user provisioned and removed, on a server that keeps its accounts in a list.
use radondb_mysql_kubernetes.Prelude.{
  ◌≡◌, refl, subst, Bool, true, false, ◌&&◌, ◌||◌, none, List, [], ◌∷◌, Str, codes, str_eq,
  str_eq_iff, Result, ok, if◌then◌else◌, arith, is_empty,
}
use radondb_mysql_kubernetes.UserQuery.{MysqlUserSpec}
use radondb_mysql_kubernetes.MysqlUser.{MysqlUser, Accounts, UserEnv, reconcile_user_in_db}
use radondb_mysql_kubernetes.MysqlUser.Drops.{is_in, Documented}
use radondb_mysql_kubernetes.MysqlUser.Provision.{Refined, reconcile_user_in_db-Refined}
use radondb_mysql_kubernetes.MysqlUser.Controller.{remove_user}
use radondb_mysql_kubernetes.MysqlUser.Removal.{Removed, remove_user-Removed}

abbrev Table : Type 0
Table = List (Str × Str)

abbrev has_account : Str → Str → Table → Bool
has_account n h [] = false
has_account n h ((user, host) ∷ table) = (str_eq n user && str_eq h host) || has_account n h table

abbrev drop_account : Str → Str → Table → Table
drop_account n h [] = []
drop_account n h ((user, host) ∷ table) =
    let rest = drop_account n h table in
    if str_eq n user && str_eq h host then rest else (user, host) ∷ rest

abbrev add_accounts : Str → List Str → Table → Table
add_accounts user [] table = table
add_accounts user (host ∷ hosts) table = (user, host) ∷ add_accounts user hosts table

-- The server, on which each statement makes the accounts of one spec.
abbrev server : MysqlUserSpec → Accounts Table
server spec = record {
  has = has_account;
  user_exists = λ name table. ok true;
  drop_user = λ name host table. ok (drop_account name host table);
  query_exec = λ q table. ok (add_accounts spec.user spec.hosts table);
}

drop_account-has :
    (name host n h : Str) (table : Table)
    → has_account n h (drop_account name host table)
      ≡ (if str_eq n name && str_eq h host then false else has_account n h table)
drop_account-has name host n h [] = ground arith
drop_account-has name host n h ((u, o) ∷ table) = ground (
  arith,
  str_eq_iff n name,
  str_eq_iff h host,
  str_eq_iff name u,
  str_eq_iff host o,
  str_eq_iff n u,
  str_eq_iff h o,
  drop_account-has name host n h table,
)

add_accounts-has :
    (user n h : Str) (hosts : List Str) (table : Table)
    → has_account n h (add_accounts user hosts table)
      ≡ (if str_eq n user && is_in h hosts then true else has_account n h table)
add_accounts-has user n h [] table = ground arith
add_accounts-has user n h (o ∷ hosts) table = ground (arith, add_accounts-has user n h hosts table)

server-Documented : (spec : MysqlUserSpec) → Documented (server spec) spec
server-Documented spec = record {
  dropped = λ name host db db' n h e.
      subst
        (λ t.
          has_account n h t
          ≡ (if str_eq n name && str_eq h host then false else has_account n h db))
        {x = drop_account name host db} {y = db'} (cc) (drop_account-has name host n h db);
  made = λ password q db db' n h b e.
      subst
        (λ t.
          has_account n h t
          ≡ (if str_eq n spec.user && is_in h spec.hosts then true else has_account n h db))
        {x = add_accounts spec.user spec.hosts db} {y = db'} (cc)
        (add_accounts-has spec.user n h spec.hosts db);
}

-- The spec has moved from one host to another.
abbrev moved : MysqlUser
moved = record {
  deleted = false;
  has_finalizer = true;
  spec = record {
    user = codes "reader";
    hosts = codes "10.0.0.2" ∷ [];
    permissions = [];
    tls_type = codes "NONE";
    with_grant_option = false;
  };
  status = record { conditions = []; allowed_hosts = codes "10.0.0.1" ∷ []; revision = [] };
}

abbrev user_env : UserEnv
user_env = record {
  connection = none;
  cluster_gone = false;
  password = ok (codes "pw");
  update = ok moved.status;
  update_status = none;
  now = 100;
}

abbrev table : Table
table = (codes "reader", codes "10.0.0.1") ∷ (codes "root", codes "%") ∷ []

abbrev hash : Str → Result Str
hash s = ok (codes "abc")

provisioned : (reconcile_user_in_db (server moved.spec) hash user_env moved table).error ≡ none
unfolding reconcile_user_in_db is_empty str_eq
provisioned = refl

moved_accounts :
    (reconcile_user_in_db (server moved.spec) hash user_env moved table).db
    ≡ (codes "reader", codes "10.0.0.2") ∷ (codes "root", codes "%") ∷ []
unfolding reconcile_user_in_db is_empty str_eq
moved_accounts = refl

reconcile_user_in_db-Refined_example :
    Refined
      (server moved.spec)
      hash
      user_env
      moved
      table
      (reconcile_user_in_db (server moved.spec) hash user_env moved table).db
reconcile_user_in_db-Refined_example =
    reconcile_user_in_db-Refined (server moved.spec) hash user_env moved
      (server-Documented moved.spec) table provisioned

forgotten : (remove_user (server moved.spec) hash user_env moved table).user.has_finalizer ≡ false
unfolding remove_user
forgotten = refl

remove_user-Removed_example :
    Removed
      (server moved.spec)
      hash
      (server-Documented moved.spec)
      user_env
      moved
      table
      (remove_user (server moved.spec) hash user_env moved table).db
remove_user-Removed_example =
    remove_user-Removed (server moved.spec) hash (server-Documented moved.spec) user_env moved table
      refl forgotten
