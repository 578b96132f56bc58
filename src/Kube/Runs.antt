-- ===== src/Kube/Runs.antt =====
-- Running a list of calls: what is done when all succeed, and when one fails.
use radondb_mysql_kubernetes.Prelude.{
  ◌≡◌, refl, sym, fun_ext, ◌∙◌, ap, none, some, List, [], ◌∷◌, ◌++◌, append_assoc, append-nil,
  Error, Option-cases, In, In-append_left, append-In, subst, inl, inr, ◌⊎◌, Option,
}
use radondb_mysql_kubernetes.Kube.{Call, Trace, Env, Act, succeed, proceed, ◌>>◌, perform, run_all}

pub >>_assoc : (m k l : Act) → ((m >> k) >> l) ≡ (m >> (k >> l))
unfolding ◌>>◌
>>_assoc m k l =
    fun_ext
      λ tr. elim (Option-cases (m tr).0) [ inl e ↦ rw (e, proceed) | inr (x, e) ↦ rw (e, proceed) ]

pub succeed_>> : (k : Act) → (succeed >> k) ≡ k
unfolding ◌>>◌
succeed_>> k = refl

proceed-succeed : (e : Option Error) (tr : Trace) → proceed e succeed tr ≡ (e, tr)
unfolding succeed
proceed-succeed none tr = refl
proceed-succeed (some e) tr = refl

pub >>_succeed : (m : Act) → (m >> succeed) ≡ m
unfolding ◌>>◌ succeed
>>_succeed m = fun_ext λ tr. proceed-succeed (m tr).0 (m tr).1

-- After a first action without an error the second is all that is left.
pub >>_none : (m k : Act) (tr : Trace) → (m tr).0 ≡ none → (m >> k) tr ≡ k (m tr).1
unfolding ◌>>◌
>>_none m k tr e = rw (e, proceed)

pub >>_success : (m k : Act) (tr : Trace) → ((m >> k) tr).0 ≡ none → (m tr).0 ≡ none
unfolding ◌>>◌
>>_success m k tr h = elim (Option-cases (m tr).0) [
  | inl e ↦ e
  | inr (x, e) ↦ cc (rw (e, proceed) at h)
]

module _ (env : Env) where
  pub run_all-append :
      (xs ys : List Call) → run_all env (xs ++ ys) ≡ (run_all env xs >> run_all env ys)
  unfolding run_all
  run_all-append [] ys = sym (succeed_>> (run_all env ys))
  run_all-append (c ∷ xs) ys =
      ap (λ k. perform env c >> k) (run_all-append xs ys)
      ∙ sym (>>_assoc (perform env c) (run_all env xs) (run_all env ys))

  -- With no error every call has been made, in order.
  pub run_all_success :
      (calls : List Call) (tr : Trace)
      → (run_all env calls tr).0 ≡ none
      → (run_all env calls tr).1 ≡ tr ++ calls
  unfolding run_all
  run_all_success [] tr h = sym (append-nil tr)
  run_all_success (c ∷ calls) tr h = elim (Option-cases (env tr c)) [
    | inl e ↦
        rw (e, proceed)
          (run_all_success calls (tr ++ c ∷ []) (rw (e, proceed, run_all) at h)
            ∙ append_assoc tr (c ∷ []) calls)
    | inr (x, e) ↦ cc (rw (e, proceed, run_all) at h)
  ]

  -- Where a list of calls stopped with an error.
  pub record StoppedAt (calls : List Call) (tr : Trace) (e : Error) (tr' : Trace) : Type 0 where
    pub made : List Call
    pub failed : Call
    pub left : List Call
    pub calls_split : calls ≡ made ++ failed ∷ left
    pub trace_split : tr' ≡ tr ++ (made ++ failed ∷ [])
    pub reply : env (tr ++ made) failed ≡ some e

  -- With an error, the calls were made in order up to the one that returned it, and none after.
  pub run_all_failure :
      (calls : List Call) (tr : Trace) (e : Error)
      → (run_all env calls tr).0 ≡ some e
      → StoppedAt calls tr e (run_all env calls tr).1
  unfolding run_all
  run_all_failure [] tr e h = cc
  run_all_failure (c ∷ calls) tr e h = elim (Option-cases (env tr c)) [
    | inl r ↦
        let later = run_all_failure calls (tr ++ c ∷ []) e (rw (r, proceed, run_all) at h) in
        record {
          made = c ∷ later.made;
          failed = later.failed;
          left = later.left;
          calls_split = ap (λ cs. c ∷ cs) later.calls_split;
          trace_split =
              rw (r, proceed)
                (later.trace_split ∙ append_assoc tr (c ∷ []) (later.made ++ later.failed ∷ []));
          reply =
              ap (λ t. env t later.failed) (sym (append_assoc tr (c ∷ []) later.made))
              ∙ later.reply;
        }
    | inr (x, r) ↦ record {
      made = [];
      failed = c;
      left = calls;
      calls_split = refl;
      trace_split = rw (r, proceed);
      reply = ap (λ t. env t c) (append-nil tr) ∙ r ∙ rw (r, proceed, run_all) at h;
    }
  ]

  -- How a list of calls went: all were made, or it stopped at one with the error that is returned.
  abbrev pub Ran : List Call → Trace → Option Error × Trace → Type 0
  Ran calls tr r =
      ((r.0 ≡ none) × (r.1 ≡ tr ++ calls))
      ⊎ ((e : Error) × (r.0 ≡ some e) × StoppedAt calls tr e r.1)

  pub run_all-Ran : (calls : List Call) (tr : Trace) → Ran calls tr (run_all env calls tr)
  run_all-Ran calls tr = elim (Option-cases (run_all env calls tr).0) [
    | inl h ↦ inl (h, run_all_success calls tr h)
    | inr (e, h) ↦ inr (e, h, run_all_failure calls tr e h)
  ]

  -- Every call of the trace was there before or is one of the list.
  pub Ran-In :
      {call : Call} (calls : List Call) (tr : Trace) (r : Option Error × Trace)
      → Ran calls tr r
      → In call r.1
      → In call tr ⊎ In call calls
  Ran-In {call = call} calls tr r (inl (h, e)) m = append-In tr (subst (In call) e m)
  Ran-In {call = call} calls tr r (inr (x, h, stopped)) m =
      elim (append-In tr (subst (In call) stopped.trace_split m)) [
        | inl old ↦ inl old
        | inr new ↦ inr (
            subst (In call)
              (append_assoc stopped.made (stopped.failed ∷ []) stopped.left
                ∙ sym stopped.calls_split)
              (In-append_left stopped.left new))
      ]
