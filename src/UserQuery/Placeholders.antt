-- ===== src/UserQuery/Placeholders.antt =====
-- The statements on users have as many arguments as question marks.
use radondb_mysql_kubernetes.Prelude.{
  ℕ, suc, ◌+◌, ◌==◌, ◌≡◌, ◌≢◌, inl, inr, refl, ◌∙◌, Bool, true, false, not, ◌&&◌, Bool-cases,
  Option, none, some, Option-cases, List, [], ◌∷◌, ◌++◌, Str, codes, length, length-append,
  has_suffix, str_eq, is_empty, if◌then◌else◌, All, All-append, arith,
}
use radondb_mysql_kubernetes.UserQuery.{
  Query, new_query, concatenate_from, concatenate_queries, build_atomic_query, identification,
  identify_from, get_users_identification, get_create_user_query, get_alter_user_query,
  remove_backticks, escape_id, escape_of, escape,
}

-- The question marks of a text.
unfoldable pub marks : Str → ℕ
marks [] = 0
marks (x ∷ s) = let rest = marks s in if x == b'?' then suc rest else rest

pub marks-append : (s t : Str) → marks (s ++ t) ≡ marks s + marks t
unfolding marks
marks-append [] t = omega arith
marks-append (x ∷ s) t = ground (arith, marks-append s t)

-- Every question mark of a query has its argument.
abbrev pub Balanced : Query → Type 0
Balanced q = marks q.escaped_query ≡ length q.args

pub new_query-Balanced :
    (q : Str) (args : List Str) → marks q ≡ length args → Balanced (new_query q args)
unfolding new_query marks
new_query-Balanced q args h = elim (Bool-cases (has_suffix q (codes ";"))) [
  | inl e ↦ rw (e, new_query) h
  | inr e ↦ rw (e, new_query) (marks-append q (codes ";") ∙ omega (arith, h))
]

pub concatenate_from-Balanced :
    (query : Str) (args : List Str) (queries : List Query)
    → marks query ≡ length args
    → All Balanced queries
    → Balanced (concatenate_from query args queries)
unfolding concatenate_from marks
concatenate_from-Balanced query args [] h k = new_query-Balanced query args h
concatenate_from-Balanced query args (pq ∷ queries) h k =
    concatenate_from-Balanced (glue ++ pq.escaped_query) (args ++ pq.args) queries
      (marks-append glue pq.escaped_query
        ∙ omega (arith, glued, h, k.0, length-append args pq.args))
      k.1
  where
    glue : Str
    glue =
        if not (is_empty query) && not (has_suffix query (codes "\n"))
        then query ++ codes "\n"
        else query

    glued : marks glue ≡ marks query
    glued = elim (Bool-cases (not (is_empty query) && not (has_suffix query (codes "\n")))) [
      | inl e ↦ rw (e, glue) (marks-append query (codes "\n") ∙ omega arith)
      | inr e ↦ rw (e, glue) refl
    ]

pub build_atomic_query-Balanced :
    (queries : List Query) → All Balanced queries → Balanced (build_atomic_query queries)
unfolding build_atomic_query concatenate_queries marks
build_atomic_query-Balanced queries h =
    concatenate_from-Balanced [] []
      (new_query (codes "BEGIN") [] ∷ (queries ++ new_query (codes "COMMIT") [] ∷ [])) refl
      (
        new_query-Balanced (codes "BEGIN") [] refl,
        All-append Balanced queries (new_query (codes "COMMIT") [] ∷ []) h
            (new_query-Balanced (codes "COMMIT") [] refl, tt),
      )

identify_step :
    (user host : Str) (pwd : Option Str) (first : Bool) (ids : Str) (args : List Str)
    → marks ids ≡ length args
    → marks ((if first then ids else ids ++ codes ",") ++ (identification user pwd host).0)
      ≡ length (args ++ (identification user pwd host).1)
unfolding identification marks
identify_step user host (some p) true ids args h =
    marks-append ids (codes " ?@? IDENTIFIED BY ?")
    ∙ omega (arith, h, length-append args (user ∷ host ∷ p ∷ []))
identify_step user host none true ids args h =
    marks-append ids (codes " ?@?") ∙ omega (arith, h, length-append args (user ∷ host ∷ []))
identify_step user host (some p) false ids args h =
    marks-append (ids ++ codes ",") (codes " ?@? IDENTIFIED BY ?")
    ∙ omega (arith, h, marks-append ids (codes ","), length-append args (user ∷ host ∷ p ∷ []))
identify_step user host none false ids args h =
    marks-append (ids ++ codes ",") (codes " ?@?")
    ∙ omega (arith, h, marks-append ids (codes ","), length-append args (user ∷ host ∷ []))

identify_from-marks :
    (user : Str) (pwd : Option Str) (first : Bool) (ids : Str) (args hosts : List Str)
    → marks ids ≡ length args
    → marks (identify_from user pwd first ids args hosts).0
      ≡ length (identify_from user pwd first ids args hosts).1
unfolding identify_from
identify_from-marks user pwd first ids args [] h = h
identify_from-marks user pwd first ids args (host ∷ hosts) h =
    identify_from-marks user pwd false
      ((if first then ids else ids ++ codes ",") ++ (identification user pwd host).0)
      (args ++ (identification user pwd host).1) hosts
      (identify_step user host pwd first ids args h)

pub get_users_identification-marks :
    (user : Str) (pwd : Option Str) (hosts : List Str)
    → marks (get_users_identification user pwd hosts).0
      ≡ length (get_users_identification user pwd hosts).1
unfolding get_users_identification marks
get_users_identification-marks user pwd hosts = identify_from-marks user pwd true [] [] hosts refl

-- A text without question marks.
abbrev pub Plain : Str → Type 0
Plain s = marks s ≡ 0

pub get_create_user_query-Balanced :
    (user pwd : Str) (hosts : List Str) (tls_type : Str)
    → Plain tls_type
    → Balanced (get_create_user_query user pwd hosts tls_type)
unfolding get_create_user_query marks
get_create_user_query-Balanced user pwd hosts tls_type h = new_query-Balanced _ _ (
    marks-append (codes "CREATE USER IF NOT EXISTS") (ids.0 ++ (codes " REQUIRE " ++ tls_type))
    ∙ omega (
      arith,
      h,
      marks-append ids.0 (codes " REQUIRE " ++ tls_type),
      marks-append (codes " REQUIRE ") tls_type,
      get_users_identification-marks user (some pwd) hosts,
    ))
  where
    ids : Str × List Str
    ids = get_users_identification user (some pwd) hosts

pub get_alter_user_query-Balanced :
    (user pwd : Str) (hosts : List Str) → Balanced (get_alter_user_query user pwd hosts)
unfolding get_alter_user_query marks
get_alter_user_query-Balanced user pwd hosts = new_query-Balanced _ _ (
    marks-append (codes "ALTER USER") (get_users_identification user (some pwd) hosts).0
    ∙ omega (arith, get_users_identification-marks user (some pwd) hosts))

remove_backticks-Plain : (s : Str) → Plain s → Plain (remove_backticks s)
unfolding remove_backticks marks
remove_backticks-Plain [] h = refl
remove_backticks-Plain (x ∷ s) h = ground (arith, remove_backticks-Plain s)

pub escape_id-Plain : (s : Str) → Plain s → Plain (escape_id s)
unfolding escape_id marks
escape_id-Plain s h = elim (Bool-cases (str_eq s (codes "*"))) [
  | inl e ↦ rw (e, escape_id) h
  | inr e ↦
      rw (e, escape_id)
        (marks-append (96 ∷ remove_backticks s) (96 ∷ [])
          ∙ omega (arith, remove_backticks-Plain s h))
]

escape_of-ne : (c e : ℕ) → escape_of c ≡ some e → e ≢ b'?'
unfolding escape_of
escape_of-ne c e h = ground arith

pub escape-Plain : (s : Str) → Plain s → Plain (escape s)
unfolding escape marks
escape-Plain [] h = refl
escape-Plain (x ∷ s) h = elim (Option-cases (escape_of x)) [
  | inl e ↦ ground (arith, e, escape-Plain s)
  | inr (y, e) ↦ ground (arith, e, escape-Plain s, escape_of-ne x y e)
]
