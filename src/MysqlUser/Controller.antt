-- ===== src/MysqlUser/Controller.antt =====
-- controllers/mysqluser_controller.go: Reconcile, with the provisioning and the removal of a user.
use radondb_mysql_kubernetes.Prelude.{
  Bool, true, false, Option, none, some, ◌++◌, Str, codes, Error, Result, ok, err, if◌then◌else◌,
}
use radondb_mysql_kubernetes.Kube.{condition_true, condition_false}
use radondb_mysql_kubernetes.MysqlUser.{
  MysqlUser, UserStatus, Accounts, UserEnv, UserRound, drop_hosts, reconcile_user_in_db,
  set_condition,
}

module _ {Db : Type 0} (acc : Accounts Db) (hash : Str → Result Str) (env : UserEnv) where
  abbrev ended : Option Error → MysqlUser → Db → UserRound Db
  ended o u db = record { error = o; user = u; db = db }

  -- `setFailedStatus`
  unfoldable pub set_failed_status : UserRound Db → UserRound Db
  set_failed_status r = elim r.error [
    | none ↦ r
    | some e ↦
        ended (some e)
          (set_condition env.now condition_false (codes "ProvisionFailed")
            (codes "The user provisioning has failed: " ++ e) r.user)
          r.db
  ]

  -- The hosts and the condition of a user that has been provisioned.
  succeeded : MysqlUser → Db → UserRound Db
  succeeded u db =
      ended none
        (set_condition env.now condition_true (codes "ProvisionSucceeded")
          (codes "The user provisioning has succeeded.")
          (record u { status = record u.status { allowed_hosts = u.spec.hosts } }))
        db

  -- The finalizer, and the rest; the answer of the update has the status that is stored.
  unfoldable pub with_finalizer : UserRound Db → UserRound Db
  unfolding succeeded
  with_finalizer r = elim r.error [
    | some e ↦ r
    | none ↦ if r.user.has_finalizer then succeeded r.user r.db else elim env.update [
      | err e ↦ ended (some e) (record r.user { has_finalizer = true }) r.db
      | ok stored ↦ succeeded (record r.user { has_finalizer = true; status = stored }) r.db
    ]
  ]

  -- `reconcileUserInCluster`
  unfoldable pub reconcile_user_in_cluster : MysqlUser → Db → UserRound Db
  unfolding reconcile_user_in_db with_finalizer set_failed_status
  reconcile_user_in_cluster u db =
      set_failed_status (with_finalizer (reconcile_user_in_db acc hash env u db))

  -- `dropUserFromDB`
  unfoldable pub drop_user_from_db : MysqlUser → Db → Option Error × Db
  unfolding drop_hosts
  drop_user_from_db u db = elim env.connection [
    | some e ↦ if env.cluster_gone then (none, db) else (some e, db)
    | none ↦ drop_hosts acc hash u.spec.user u.status.allowed_hosts db
  ]

  unfoldable pub after_drop : MysqlUser → Option Error × Db → UserRound Db
  after_drop u (some e, db) = ended (some e) u db
  after_drop u (none, db) = elim env.update [
    | err e ↦ ended (some e) (record u { has_finalizer = false }) db
    | ok stored ↦ ended none (record u { has_finalizer = false; status = stored }) db
  ]

  -- `removeUser`
  unfoldable pub remove_user : MysqlUser → Db → UserRound Db
  unfolding drop_user_from_db after_drop
  remove_user u db =
      if u.has_finalizer then after_drop u (drop_user_from_db u db) else ended none u db

  -- `updateStatusAndErr`; `changed` is the comparison DeepEqual with the status before.
  unfoldable pub update_status_and_err : Bool → Option Error → Option Error
  update_status_and_err changed cu_err =
      if changed
      then elim env.update_status [
        | none ↦ cu_err
        | some e ↦ elim cu_err [
          | none ↦ some e
          | some x ↦
              some
                (codes "failed to update status: " ++ (e ++ (codes ", previous error was: " ++ x)))
        ]
      ]
      else cu_err

  provision : (UserStatus → UserStatus → Bool) → MysqlUser → UserRound Db → UserRound Db
  unfolding update_status_and_err
  provision changed u r =
      ended (update_status_and_err (changed u.status r.user.status) r.error) r.user r.db

  -- `Reconcile` of a user that was found
  unfoldable pub reconcile_user : (UserStatus → UserStatus → Bool) → MysqlUser → Db → UserRound Db
  unfolding provision remove_user reconcile_user_in_cluster
  reconcile_user changed u db =
      if u.deleted then remove_user u db else provision changed u (reconcile_user_in_cluster u db)
