-- ===== src/MysqlUser.antt =====
-- controllers/mysqluser_controller.go with mysqluser/status.go: how a MysqlUser is provisioned in
-- MySQL and removed from it. The accounts of MySQL are an interface, `Accounts`.
pub mod Drops
pub mod Provision
pub mod Controller
pub mod Removal
use radondb_mysql_kubernetes.Prelude.{
  ℕ, Bool, true, false, not, ◌||◌, ◌&&◌, ◌≡◌, Option, none, some, List, [], ◌∷◌, ◌++◌, Str, codes,
  str_eq, is_empty, Error, Result, ok, err, if◌then◌else◌,
}
use radondb_mysql_kubernetes.Kube.{
  ConditionStatus, condition_true, condition_false, condition_unknown,
}
use radondb_mysql_kubernetes.Utils.{string_diff_in, string_in}
use radondb_mysql_kubernetes.UserQuery.{Query, MysqlUserSpec, build_user_management_sql}

-- MySQLUserCondition of the one type there is, MySQLUserReady. Times are seconds.
pub record UserCondition : Type 0 where
  pub status : ConditionStatus
  pub last_update_time : ℕ
  pub last_transition_time : ℕ
  pub reason : Str
  pub message : Str

-- UserStatus
pub record UserStatus : Type 0 where
  pub conditions : List UserCondition
  pub allowed_hosts : List Str
  pub revision : Str

-- MysqlUser: `deleted` says whether `DeletionTimestamp` is set, `has_finalizer` whether the
-- finalizer of the users is among its finalizers.
pub record MysqlUser : Type 0 where
  pub deleted : Bool
  pub has_finalizer : Bool
  pub spec : MysqlUserSpec
  pub status : UserStatus

unfoldable pub same_status : ConditionStatus → ConditionStatus → Bool
same_status condition_true condition_true = true
same_status condition_false condition_false = true
same_status condition_unknown condition_unknown = true
same_status _ _ = false

-- The condition that is there, with what has changed.
unfoldable pub update_condition : ℕ → ConditionStatus → Str → Str → UserCondition → UserCondition
unfolding same_status
update_condition now s reason message c = record {
  status = s;
  last_update_time =
      if not (str_eq message c.message) || not (str_eq reason c.reason)
      then now
      else c.last_update_time;
  last_transition_time = if not (same_status s c.status) then now else c.last_transition_time;
  reason = reason;
  message = message;
}

-- `UpdateStatusCondition`, with ConditionExists, which finds the first condition
unfoldable pub update_status_condition :
    ℕ → ConditionStatus → Str → Str → List UserCondition → List UserCondition
unfolding update_condition
update_status_condition now s reason message [] =
    (record {
      status = s;
      last_update_time = now;
      last_transition_time = now;
      reason = reason;
      message = message;
    })
    ∷ []
update_status_condition now s reason message (c ∷ conditions) =
    update_condition now s reason message c ∷ conditions

abbrev pub set_condition : ℕ → ConditionStatus → Str → Str → MysqlUser → MysqlUser
set_condition now s reason message u = record u {
  status = record u.status {
    conditions = update_status_condition now s reason message u.status.conditions;
  };
}

-- The accounts of a MySQL server: what the statements do, as MySQL's manual says. DROP USER takes one
-- account away; the statement of BuildUserManagementSQL creates the accounts of the hosts.
pub record Accounts (Db : Type 0) : Type 0 where
  pub has : Str → Str → Db → Bool
  pub user_exists : Str → Db → Result Bool
  pub drop_user : Str → Str → Db → Result Db
  pub query_exec : Query → Db → Result Db

-- What a round meets: the error of the connection, and whether it says that the cluster is gone; the
-- password in the secret; the answer of an
-- update of the object, with the status that is stored, and the error of one of its status; the time.
pub record UserEnv : Type 0 where
  pub connection : Option Error
  pub cluster_gone : Bool
  pub password : Result Str
  pub update : Result UserStatus
  pub update_status : Option Error
  pub now : ℕ

-- `fmt.Sprintf("%v", args)`
unfoldable pub join_args : List Str → Str
join_args [] = []
join_args (x ∷ []) = x
join_args (x ∷ y ∷ args) = x ++ (codes " " ++ join_args (y ∷ args))

unfoldable pub args_to_string : List Str → Str
unfolding join_args
args_to_string args = codes "[" ++ (join_args args ++ codes "]")

-- What a function that changes the user and the accounts returns.
pub record UserRound (Db : Type 0) : Type 0 where
  pub error : Option Error
  pub user : MysqlUser
  pub db : Db

module _ {Db : Type 0} (acc : Accounts Db) (hash : Str → Result Str) where
  -- `DropUser` for each of the hosts, up to the first error
  unfoldable pub drop_hosts : Str → List Str → Db → Option Error × Db
  drop_hosts name [] db = (none, db)
  drop_hosts name (host ∷ hosts) db = elim (acc.drop_user name host db) [
    | err e ↦ (some (codes "failed to delete user, err: " ++ e), db)
    | ok db' ↦ drop_hosts name hosts db'
  ]

  -- The hash, with the empty string on an error.
  unfoldable pub sql_hash : Query → Result Str
  unfolding args_to_string
  sql_hash q = hash (q.escaped_query ++ args_to_string q.args)

  unfoldable pub value_or_nothing : Result Str → Str
  value_or_nothing (ok s) = s
  value_or_nothing (err e) = []

  unfoldable pub unchanged : Result Str → Str → Bool
  unchanged (ok h) revision = str_eq h revision
  unchanged (err e) revision = false

  -- The statement, unless its hash is the revision of the status.
  unfoldable pub execute : Query → MysqlUser → Db → UserRound Db
  unfolding sql_hash value_or_nothing unchanged
  execute q u db =
      if unchanged (sql_hash q) u.status.revision
      then record { error = none; user = u; db = db }
      else elim (acc.query_exec q db) [
        | err e ↦ record { error = some e; user = u; db = db }
        | ok db' ↦ record {
          error = none;
          user = record u { status = record u.status { revision = value_or_nothing (sql_hash q) } };
          db = db';
        }
      ]

  unfoldable pub manage : Str → MysqlUser → Db → UserRound Db
  unfolding execute build_user_management_sql
  manage password u db = elim (build_user_management_sql u.spec password) [
    | err e ↦ record { error = some e; user = u; db = db }
    | ok q ↦ execute q u db
  ]

  unfoldable pub after_drops : Str → MysqlUser → Option Error × Db → UserRound Db
  unfolding manage
  after_drops password u (some e, db) = record { error = some e; user = u; db = db }
  after_drops password u (none, db) = manage password u db

  unfoldable pub forget_revision : Bool → MysqlUser → MysqlUser
  forget_revision true u = u
  forget_revision false u = record u { status = record u.status { revision = [] } }

  unfoldable pub with_password : Str → MysqlUser → Db → UserRound Db
  unfolding after_drops drop_hosts string_diff_in forget_revision
  with_password password u db =
      if is_empty password
      then record {
        error = some (codes "the MySQL user's password must not be empty");
        user = u;
        db = db;
      }
      else elim (acc.user_exists u.spec.user db) [
        | err e ↦ record {
          error = some (codes "failed to check if user exists: " ++ e);
          user = u;
          db = db;
        }
        | ok exists ↦
            after_drops password (forget_revision exists u)
              (drop_hosts u.spec.user (string_diff_in u.status.allowed_hosts u.spec.hosts) db)
      ]

  -- `reconcileUserInDB`
  unfoldable pub reconcile_user_in_db : UserEnv → MysqlUser → Db → UserRound Db
  unfolding with_password
  reconcile_user_in_db env u db = elim env.connection [
    | some e ↦ record { error = some e; user = u; db = db }
    | none ↦ elim env.password [
      | err e ↦ record { error = some e; user = u; db = db }
      | ok password ↦ with_password password u db
    ]
  ]
