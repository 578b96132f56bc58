-- ===== src/MysqlUser/Drops.antt =====
-- The accounts of a MySQL server as its manual documents them, and what the drops of
-- controllers/mysqluser_controller.go leave.
use radondb_mysql_kubernetes.Prelude.{
  ℕ, ◌+◌, ◌≡◌, refl, sym, ap, ◌∙◌, subst, inl, inr, Bool, true, false, not, ◌&&◌, ◌||◌, Bool-cases,
  none, Result, ok, Result-cases, List, [], ◌∷◌, Str, str_eq, str_eq_iff, if◌then◌else◌, arith,
}
use radondb_mysql_kubernetes.Utils.{string_in, string_diff_in}
use radondb_mysql_kubernetes.UserQuery.{Query, MysqlUserSpec, build_user_management_sql}
use radondb_mysql_kubernetes.MysqlUser.{Accounts, drop_hosts}

abbrev pub is_in : Str → List Str → Bool
is_in h [] = false
is_in h (x ∷ hosts) = str_eq h x || is_in h hosts

-- The two statements, as MySQL's manual says: DROP USER takes away one account, and the statement of
-- BuildUserManagementSQL for the spec makes those of its hosts; the other accounts stay.
pub record Documented {Db : Type 0} (acc : Accounts Db) (spec : MysqlUserSpec) : Type 0 where
  pub dropped :
      (name host : Str) (db db' : Db) (n h : Str)
      → acc.drop_user name host db ≡ ok db'
      → acc.has n h db' ≡ (if str_eq n name && str_eq h host then false else acc.has n h db)
  pub made :
      (password : Str) (q : Query) (db db' : Db) (n h : Str)
      → build_user_management_sql spec password ≡ ok q
      → acc.query_exec q db ≡ ok db'
      → acc.has n h db'
        ≡ (if str_eq n spec.user && is_in h spec.hosts then true else acc.has n h db)

string_in-is_in : (h : Str) (hosts : List Str) (i : ℕ) → (string_in h hosts i).1 ≡ is_in h hosts
unfolding string_in
string_in-is_in h [] i = refl
string_in-is_in h (x ∷ hosts) i =
    ground (arith, str_eq_iff h x, str_eq_iff x h, string_in-is_in h hosts (i + 1))

and_false : (b : Bool) → (b && false) ≡ false
and_false true = refl
and_false false = refl

-- One drop after another.
twice :
    (a b c x : Bool)
    → (if a && c then false else (if a && b then false else x))
      ≡ (if a && (b || c) then false else x)
twice a b c x = ground arith

listed :
    (h x : Str) (b : Bool) (desired : List Str)
    → (string_in x desired 0).1 ≡ true
    → (b && not (is_in h desired)) ≡ ((str_eq h x || b) && not (is_in h desired))
listed h x b desired e = elim (Bool-cases (str_eq h x)) [
  | inr k ↦ rw k
  | inl k ↦
      let there : is_in h desired ≡ true =
        subst (λ y. is_in y desired ≡ true) (sym ((str_eq_iff h x).0 k))
          (sym (string_in-is_in x desired 0) ∙ e) in
      rw (k, there) (and_false b)
]

new :
    (h x : Str) (b : Bool) (desired : List Str)
    → (string_in x desired 0).1 ≡ false
    → (str_eq h x || (b && not (is_in h desired))) ≡ ((str_eq h x || b) && not (is_in h desired))
new h x b desired e = elim (Bool-cases (str_eq h x)) [
  | inr k ↦ rw k
  | inl k ↦
      let lacks : is_in h desired ≡ false =
        subst (λ y. is_in y desired ≡ false) (sym ((str_eq_iff h x).0 k))
          (sym (string_in-is_in x desired 0) ∙ e) in
      rw (k, lacks) refl
]

pub is_in-string_diff_in :
    (h : Str) (actual desired : List Str)
    → is_in h (string_diff_in actual desired) ≡ (is_in h actual && not (is_in h desired))
unfolding string_diff_in
is_in-string_diff_in h [] desired = refl
is_in-string_diff_in h (x ∷ actual) desired = elim (Bool-cases (string_in x desired 0).1) [
  | inl e ↦ rw e (is_in-string_diff_in h actual desired ∙ listed h x (is_in h actual) desired e)
  | inr e ↦ rw e (
      ap (λ b. str_eq h x || b) (is_in-string_diff_in h actual desired)
      ∙ new h x (is_in h actual) desired e)
]

module _ {Db : Type 0} (acc : Accounts Db) (hash : Str → Result Str) {spec : MysqlUserSpec}
    (doc : Documented acc spec) where
  pub drop_hosts-has :
      (name : Str) (hosts : List Str) (db db' : Db) (n h : Str)
      → drop_hosts acc hash name hosts db ≡ (none, db')
      → acc.has n h db' ≡ (if str_eq n name && is_in h hosts then false else acc.has n h db)
  unfolding drop_hosts
  drop_hosts-has name [] db db' n h e = ap (λ r. acc.has n h r.1) (sym e) ∙ ground arith
  drop_hosts-has name (host ∷ hosts) db db' n h e =
      elim (Result-cases (acc.drop_user name host db)) [
        | inl (x, k) ↦ cc (rw (k, drop_hosts) at e)
        | inr (db1, k) ↦
            let rest = drop_hosts-has name hosts db1 db' n h (rw (k, drop_hosts) at e) in
            let one = doc.dropped name host db db1 n h k in
            rest
            ∙ ap (λ b. if str_eq n name && is_in h hosts then false else b) one
            ∙ twice (str_eq n name) (str_eq h host) (is_in h hosts) (acc.has n h db)
      ]
