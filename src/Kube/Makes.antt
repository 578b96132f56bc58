-- ===== src/Kube/Makes.antt =====
-- What calls an action makes, whatever is answered.
use radondb_mysql_kubernetes.Prelude.{
  ◌⊎◌, inl, inr, subst, Bool, true, false, Option-cases, [], ◌∷◌, ◌++◌, Error, In, In-cons_cases,
  not_In_nil, append-In, if◌then◌else◌,
}
use radondb_mysql_kubernetes.Kube.{Env, Act, Call, Trace, succeed, fail, ◌>>◌, perform, proceed}

-- Every call that the action makes is one of these.
abbrev pub Makes : (Call → Type 0) → Act → Type 0
Makes P m = (tr : Trace) (c : Call) → In c (m tr).1 → In c tr ⊎ P c

module _ (P : Call → Type 0) where
  pub succeed-Makes : Makes P succeed
  unfolding succeed
  succeed-Makes tr c m = inl m

  pub fail-Makes : (e : Error) → Makes P (fail e)
  unfolding fail
  fail-Makes e tr c m = inl m

  pub one_more : (tr : Trace) (c d : Call) → P d → In c (tr ++ d ∷ []) → In c tr ⊎ P c
  one_more tr c d p m = elim (append-In tr m) [
    | inl old ↦ inl old
    | inr new ↦ elim (In-cons_cases new) [
      | inl e ↦ inr (subst P e p)
      | inr l ↦ absurd (not_In_nil l)
    ]
  ]

  pub perform-Makes : (env : Env) (d : Call) → P d → Makes P (perform env d)
  unfolding perform
  perform-Makes env d p tr c m = one_more tr c d p m

  pub >>_Makes : (m k : Act) → Makes P m → Makes P k → Makes P (m >> k)
  unfolding ◌>>◌
  >>_Makes m k f g tr c h = elim (Option-cases (m tr).0) [
    | inl e ↦ elim (g (m tr).1 c (rw (e, proceed) at h)) [ inl old ↦ f tr c old | inr p ↦ inr p ]
    | inr (x, e) ↦ f tr c (rw (e, proceed) at h)
  ]

  pub if-Makes : (b : Bool) (m k : Act) → Makes P m → Makes P k → Makes P (if b then m else k)
  if-Makes true m k f g = f
  if-Makes false m k f g = g
