-- ===== src/MysqlUser/Removal.antt =====
-- removeUser of controllers/mysqluser_controller.go: the finalizer goes only after the accounts.
use radondb_mysql_kubernetes.Prelude.{
  ◌≡◌, ◌⊎◌, refl, sym, ap, ◌∙◌, inl, inr, true, false, ◌&&◌, Bool-cases, Option-cases, Option, none,
  some, Str, Error, Result, Result-cases, subst, str_eq, if◌then◌else◌,
}
use radondb_mysql_kubernetes.UserQuery.{MysqlUserSpec}
use radondb_mysql_kubernetes.MysqlUser.{MysqlUser, Accounts, UserEnv}
use radondb_mysql_kubernetes.MysqlUser.Drops.{is_in, Documented, drop_hosts-has}
use radondb_mysql_kubernetes.MysqlUser.Controller.{drop_user_from_db, after_drop, remove_user}

module _ {Db : Type 0} (acc : Accounts Db) (hash : Str → Result Str) {spec : MysqlUserSpec}
    (doc : Documented acc spec) (env : UserEnv) where
  -- The cluster is gone; or the accounts of the listed hosts are, and no other account has changed.
  abbrev pub Removed : MysqlUser → Db → Db → Type 0
  Removed u db db' =
      ((e : Error) × (env.connection ≡ some e) × (env.cluster_gone ≡ true) × (db' ≡ db))
      ⊎ ((n h : Str)
          → acc.has n h db' ≡ (
              if str_eq n u.spec.user && is_in h u.status.allowed_hosts
              then false
              else acc.has n h db))

  drop_user_from_db-Removed :
      (u : MysqlUser) (db db' : Db)
      → drop_user_from_db acc hash env u db ≡ (none, db')
      → Removed u db db'
  unfolding drop_user_from_db
  drop_user_from_db-Removed u db db' h = elim (Option-cases env.connection) [
    | inl e ↦ inr λ n host.
        drop_hosts-has acc hash doc u.spec.user u.status.allowed_hosts db db' n host
          (rw (e, drop_user_from_db) at h)
    | inr (x, e) ↦ elim (Bool-cases env.cluster_gone) [
      | inl k ↦ inl (x, e, k, sym (ap (λ r. r.1) (rw (e, k, drop_user_from_db) at h)))
      | inr k ↦ cc (rw (e, k, drop_user_from_db) at h)
    ]
  ]

  after_drop_db : (u : MysqlUser) (db : Db) → (after_drop acc hash env u (none, db)).db ≡ db
  unfolding after_drop
  after_drop_db u db = elim (Result-cases env.update) [ inl (x, e) ↦ rw e | inr (s, e) ↦ rw e ]

  after_drop-Removed :
      (u : MysqlUser) (db : Db) (r : Option Error × Db)
      → drop_user_from_db acc hash env u db ≡ r
      → u.has_finalizer ≡ true
      → (after_drop acc hash env u r).user.has_finalizer ≡ false
      → Removed u db (after_drop acc hash env u r).db
  unfolding after_drop
  after_drop-Removed u db (some e, db') d f h = cc
  after_drop-Removed u db (none, db') d f h =
      subst (Removed u db) (sym (after_drop_db u db')) (drop_user_from_db-Removed u db db' d)

  remove_user_step :
      (u : MysqlUser) (db : Db)
      → u.has_finalizer ≡ true
      → remove_user acc hash env u db
        ≡ after_drop acc hash env u (drop_user_from_db acc hash env u db)
  unfolding remove_user
  remove_user_step u db f =
      ap
        (λ b.
          if b
          then after_drop acc hash env u (drop_user_from_db acc hash env u db)
          else record { error = none; user = u; db = db })
        f

  -- removeUser takes the finalizer from a user only when the cluster is gone, or when the accounts of
  -- all hosts that the status lists are, and no other account has changed.
  pub remove_user-Removed :
      (u : MysqlUser) (db : Db)
      → u.has_finalizer ≡ true
      → (remove_user acc hash env u db).user.has_finalizer ≡ false
      → Removed u db (remove_user acc hash env u db).db
  remove_user-Removed u db f h =
      let step = remove_user_step u db f in
      subst (λ r. Removed u db r.db) (sym step)
        (after_drop-Removed u db (drop_user_from_db acc hash env u db) refl f
          (ap (λ r. r.user.has_finalizer) (sym step) ∙ h))
