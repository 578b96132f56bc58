-- ===== src/MysqlUser/Provision.antt =====
-- The accounts after reconcileUserInDB of controllers/mysqluser_controller.go: the code refines a
-- specification of who can log in.
use radondb_mysql_kubernetes.Prelude.{
  ◌≡◌, ◌↔◌, ◌++◌, str_eq_iff, refl, subst, sym, ap, ◌∙◌, inl, inr, Bool, true, false, not, ◌&&◌,
  ◌||◌, Bool-cases, Option, none, some, Option-cases, Result, ok, err, Result-cases, [], Str,
  str_eq, Error, if◌then◌else◌, arith, is_empty,
}
use radondb_mysql_kubernetes.Utils.{string_diff_in}
use radondb_mysql_kubernetes.UserQuery.{Query, MysqlUserSpec, build_user_management_sql}
use radondb_mysql_kubernetes.MysqlUser.{
  MysqlUser, args_to_string, Accounts, UserEnv, drop_hosts, sql_hash, execute, manage, after_drops,
  forget_revision, with_password, reconcile_user_in_db, unchanged,
}
use radondb_mysql_kubernetes.MysqlUser.Drops.{
  is_in, Documented, drop_hosts-has, is_in-string_diff_in,
}

-- Who can log in: of the user's hosts, those of the spec, which are made if the statement is executed;
-- none of the hosts that the status lists and the spec does not; and all others as before.
abbrev pub wanted : MysqlUser → Bool → Bool → Str → Str → Bool
wanted u executed before n h =
    if str_eq n u.spec.user
    then (if is_in h u.spec.hosts
        then executed || before
        else (if is_in h u.status.allowed_hosts then false else before))
    else before

skipped : (b x : Bool) → (if b then false || x else x) ≡ x
skipped true x = refl
skipped false x = refl

-- The drops and then the statement.
together :
    (a b c e x : Bool)
    → (if a && b
        then e || (if a && (c && not b) then false else x)
        else (if a && (c && not b) then false else x))
      ≡ (if a then (if b then e || x else (if c then false else x)) else x)
together a b c e x = ground arith

module _ {Db : Type 0} (acc : Accounts Db) (hash : Str → Result Str) where
  unchanged_iff :
      (r : Result Str) (revision : Str) → (unchanged acc hash r revision ≡ true) ↔ (r ≡ ok revision)
  unfolding unchanged
  unchanged_iff (ok h) revision =
      (λ e. ap ok ((str_eq_iff h revision).0 e), λ e. (str_eq_iff h revision).1 (cc))
  unchanged_iff (err x) revision = (λ e. cc, λ e. cc)

  -- The hash of the statement with its arguments is this revision.
  abbrev pub Applied : Query → Str → Type 0
  Applied q revision = hash (q.escaped_query ++ args_to_string q.args) ≡ ok revision

  -- What the statement for the password leaves: it is skipped exactly if its hash is the revision.
  abbrev Executed : MysqlUserSpec → Str → Str → Db → Db → Type 0
  Executed spec password revision db db' =
      (q : Query) × (executed : Bool) × (build_user_management_sql spec password ≡ ok q)
      × ((executed ≡ false) ↔ Applied q revision)
      × ((n h : Str)
          → acc.has n h db' ≡ (
              if str_eq n spec.user && is_in h spec.hosts
              then executed || acc.has n h db
              else acc.has n h db))

  execute_skipped :
      (q : Query) (u : MysqlUser) (db : Db)
      → unchanged acc hash (sql_hash acc hash q) u.status.revision ≡ true
      → (execute acc hash q u db).db ≡ db
  unfolding execute
  execute_skipped q u db e = rw e

  execute_done :
      (q : Query) (u : MysqlUser) (db db' : Db)
      → unchanged acc hash (sql_hash acc hash q) u.status.revision ≡ false
      → acc.query_exec q db ≡ ok db'
      → (execute acc hash q u db).db ≡ db'
  unfolding execute
  execute_done q u db db' e k = rw (e, k)

  execute_refused :
      (q : Query) (u : MysqlUser) (db : Db) (x : Error)
      → unchanged acc hash (sql_hash acc hash q) u.status.revision ≡ false
      → acc.query_exec q db ≡ err x
      → (execute acc hash q u db).error ≡ some x
  unfolding execute
  execute_refused q u db x e k = rw (e, k)

  execute-Executed :
      (password : Str) (q : Query) (u : MysqlUser) (doc : Documented acc u.spec) (db : Db)
      → build_user_management_sql u.spec password ≡ ok q
      → (execute acc hash q u db).error ≡ none
      → Executed u.spec password u.status.revision db (execute acc hash q u db).db
  unfolding sql_hash
  execute-Executed password q u doc db b h =
      elim (Bool-cases (unchanged acc hash (sql_hash acc hash q) u.status.revision)) [
        | inl e ↦ (
          q,
          false,
          b,
          (λ k. (unchanged_iff (sql_hash acc hash q) u.status.revision).0 e, λ k. refl),
          λ n host.
              ap (acc.has n host) (execute_skipped q u db e)
              ∙ sym (skipped (str_eq n u.spec.user && is_in host u.spec.hosts) (acc.has n host db)),
        )
        | inr e ↦ elim (Result-cases (acc.query_exec q db)) [
          | inl (x, k) ↦ cc (execute_refused q u db x e k, h)
          | inr (db', k) ↦ (
            q,
            true,
            b,
            (λ l. cc, λ l. cc ((unchanged_iff (sql_hash acc hash q) u.status.revision).1 l, e)),
            λ n host.
                ap (acc.has n host) (execute_done q u db db' e k)
                ∙ doc.made password q db db' n host b k,
          )
        ]
      ]

  manage_built :
      (password : Str) (q : Query) (u : MysqlUser) (db : Db)
      → build_user_management_sql u.spec password ≡ ok q
      → manage acc hash password u db ≡ execute acc hash q u db
  unfolding manage
  manage_built password q u db e = rw (e, manage) refl

  with_password_known :
      (password : Str) (exists : Bool) (u : MysqlUser) (db : Db)
      → is_empty password ≡ false
      → acc.user_exists u.spec.user db ≡ ok exists
      → with_password acc hash password u db
        ≡ after_drops acc hash password (forget_revision acc hash exists u) (
            drop_hosts acc hash u.spec.user (string_diff_in u.status.allowed_hosts u.spec.hosts) db)
  unfolding with_password
  with_password_known password exists u db e k = rw (e, k)

  reconcile_known :
      (env : UserEnv) (password : Str) (u : MysqlUser) (db : Db)
      → env.connection ≡ none
      → env.password ≡ ok password
      → reconcile_user_in_db acc hash env u db ≡ with_password acc hash password u db
  unfolding reconcile_user_in_db
  reconcile_known env password u db e k = rw (e, k)

  manage-Executed :
      (password : Str) (u : MysqlUser) (doc : Documented acc u.spec) (db : Db)
      → (manage acc hash password u db).error ≡ none
      → Executed u.spec password u.status.revision db (manage acc hash password u db).db
  unfolding manage
  manage-Executed password u doc db h =
      elim (Result-cases (build_user_management_sql u.spec password)) [
        | inl (x, e) ↦ cc (rw (e, manage) at h)
        | inr (q, e) ↦
            let built = manage_built password q u db e in
            subst (λ x. Executed u.spec password u.status.revision db x.db) (sym built)
              (execute-Executed password q u doc db e (ap (λ x. x.error) (sym built) ∙ h))
      ]

  -- The revision that counts: none if the user does not exist.
  abbrev pub known_revision : Bool → MysqlUser → Str
  known_revision true u = u.status.revision
  known_revision false u = []

  -- The accounts are those of the specification: for the password of the secret there is a
  -- statement, which is skipped exactly if its hash is the revision that counts.
  abbrev pub Refined : UserEnv → MysqlUser → Db → Db → Type 0
  Refined env u db db' =
      (password : Str) × (exists : Bool) × (q : Query) × (executed : Bool) × (env.password
        ≡ ok password)
      × (acc.user_exists u.spec.user db ≡ ok exists)
      × (build_user_management_sql u.spec password ≡ ok q)
      × ((executed ≡ false) ↔ Applied q (known_revision exists u))
      × ((n h : Str) → acc.has n h db' ≡ wanted u executed (acc.has n h db) n h)

  module _ (env : UserEnv) (password : Str) (given : env.password ≡ ok password) where
    Executed-Refined :
        (u : MysqlUser) (doc : Documented acc u.spec) (exists : Bool) (db db1 db' : Db)
        → acc.user_exists u.spec.user db ≡ ok exists
        → drop_hosts acc hash u.spec.user (string_diff_in u.status.allowed_hosts u.spec.hosts) db
          ≡ (none, db1)
        → Executed u.spec password (known_revision exists u) db1 db'
        → Refined env u db db'
    Executed-Refined u doc exists db db1 db' k d (q, executed, built, skips, f) = (
      password,
      exists,
      q,
      executed,
      given,
      k,
      built,
      skips,
      λ n h.
          let a : Bool = str_eq n u.spec.user in
          let b : Bool = is_in h u.spec.hosts in
          let c : Bool = is_in h u.status.allowed_hosts in
          let gone =
            drop_hosts-has acc hash doc u.spec.user
              (string_diff_in u.status.allowed_hosts u.spec.hosts) db db1 n h d
            ∙ ap (λ x. if a && x then false else acc.has n h db)
                (is_in-string_diff_in h u.status.allowed_hosts u.spec.hosts) in
          f n h
          ∙ ap (λ x. if a && b then executed || x else x) gone
          ∙ together a b c executed (acc.has n h db),
    )

    after_drops-Refined :
        (u : MysqlUser) (doc : Documented acc u.spec) (exists : Bool) (db : Db)
        (r : Option Error × Db)
        → acc.user_exists u.spec.user db ≡ ok exists
        → drop_hosts acc hash u.spec.user (string_diff_in u.status.allowed_hosts u.spec.hosts) db
          ≡ r
        → (after_drops acc hash password (forget_revision acc hash exists u) r).error ≡ none
        → Refined env u db (after_drops acc hash password (forget_revision acc hash exists u) r).db
    unfolding after_drops forget_revision
    after_drops-Refined u doc exists db (some x, db1) k d h = cc
    after_drops-Refined u doc true db (none, db1) k d h =
        Executed-Refined u doc true db db1 (manage acc hash password u db1).db k d
          (manage-Executed password u doc db1 h)
    after_drops-Refined u doc false db (none, db1) k d h =
        let v : MysqlUser = record u { status = record u.status { revision = [] } } in
        Executed-Refined u doc false db db1 (manage acc hash password v db1).db k d
          (manage-Executed password v doc db1 h)

    with_password-Refined :
        (u : MysqlUser) (doc : Documented acc u.spec) (db : Db)
        → (with_password acc hash password u db).error ≡ none
        → Refined env u db (with_password acc hash password u db).db
    unfolding with_password
    with_password-Refined u doc db h = elim (Bool-cases (is_empty password)) [
      | inl e ↦ cc (rw (e, with_password) at h)
      | inr e ↦ elim (Result-cases (acc.user_exists u.spec.user db)) [
        | inl (x, k) ↦ cc (rw (e, k, with_password) at h)
        | inr (exists, k) ↦
            let known = with_password_known password exists u db e k in
            subst (λ x. Refined env u db x.db) (sym known)
              (after_drops-Refined u doc exists db
                (drop_hosts acc hash u.spec.user
                  (string_diff_in u.status.allowed_hosts u.spec.hosts) db)
                k refl (ap (λ x. x.error) (sym known) ∙ h))
      ]
    ]

  -- When reconcileUserInDB ends without an error, the accounts are those of the specification: of the
  -- hosts of the user, those that the status lists and the spec does not are gone; those of the spec
  -- have accounts, or, when the statement was skipped, have what they had; and no other account
  -- changes. The statement is skipped exactly if its hash is the revision of the status, or the empty
  -- text where the user did not exist.
  pub reconcile_user_in_db-Refined :
      (env : UserEnv) (u : MysqlUser) (doc : Documented acc u.spec) (db : Db)
      → (reconcile_user_in_db acc hash env u db).error ≡ none
      → Refined env u db (reconcile_user_in_db acc hash env u db).db
  unfolding reconcile_user_in_db
  reconcile_user_in_db-Refined env u doc db h = elim (Option-cases env.connection) [
    | inr (x, e) ↦ cc (rw (e, reconcile_user_in_db) at h)
    | inl e ↦ elim (Result-cases env.password) [
      | inl (x, k) ↦ cc (rw (e, k, reconcile_user_in_db) at h)
      | inr (password, k) ↦
          let known = reconcile_known env password u db e k in
          subst (λ x. Refined env u db x.db) (sym known)
            (with_password-Refined env password k u doc db (ap (λ x. x.error) (sym known) ∙ h))
    ]
  ]
