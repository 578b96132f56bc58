-- ===== src/Replica/Retry.antt =====
-- CheckSlaveStatusWithRetry: which of the attempts it returns.
use radondb_mysql_kubernetes.Prelude.{
  ℕ, zero, suc, ◌+◌, ◌<◌, ◌≡◌, ◌⊎◌, inl, inr, sym, ap, ◌∙◌, subst, Option, none, some, Option-cases,
  Error, arith,
}
use radondb_mysql_kubernetes.Replica.{
  Server, SlaveStatus, check_slave_status, check_slave_status_from,
}

module _ {Float : Type 0} (servers : ℕ → Server Float) (lag : Option ℕ) where
  -- The attempt ends with an error.
  abbrev pub Fails : ℕ → SlaveStatus → Type 0
  Fails i s = (check_slave_status (servers i) lag ≡ some s) × ((e : Error) × (s.error ≡ some e))

  -- The attempts from `i`, `n` of them, fail; the results are `last` before and `s` after.
  pub data AllFail : ℕ → ℕ → SlaveStatus → SlaveStatus → Type 0 where
    no_attempt : {i : ℕ} {s : SlaveStatus} → AllFail i zero s s
    attempt :
        {i n : ℕ} {last s s' : SlaveStatus}
        → Fails i s
        → AllFail (i + 1) n s s'
        → AllFail i (suc n) last s'

  -- What is returned after `retry` attempts from `i`: the first without an error, all before it
  -- with one, or the last, all with one.
  abbrev pub Outcome : ℕ → ℕ → SlaveStatus → SlaveStatus → Type 0
  Outcome i retry last s =
      ((k : ℕ) × (before : SlaveStatus) × (k < retry)
        × AllFail i k last before
        × (check_slave_status (servers (i + k)) lag ≡ some s)
        × (s.error ≡ none))
      ⊎ AllFail i retry last s

  -- Where CheckSlaveStatusWithRetry does not panic, it returns the first of the attempts that has no
  -- error, where the attempts before it have one, or else, when all attempts have one, the last, or
  -- the status it began with where there are no attempts.
  pub check_slave_status_from_lem :
      (i retry : ℕ) (last s : SlaveStatus)
      → check_slave_status_from servers lag i retry last ≡ some s
      → Outcome i retry last s
  unfolding check_slave_status_from
  check_slave_status_from_lem i zero last s h =
      inr (subst (AllFail i zero last) (cc) (AllFail.no_attempt))
  check_slave_status_from_lem i (suc retry) last s h =
      elim (Option-cases (check_slave_status (servers i) lag)) [
        | inl e ↦ cc (rw (e, check_slave_status_from) at h)
        | inr (t, e) ↦ elim (Option-cases t.error) [
          | inl k ↦
              let same : t ≡ s = cc (rw (e, k, check_slave_status_from) at h) in
              inl (
                zero,
                last,
                omega arith,
                AllFail.no_attempt,
                subst (λ n. check_slave_status (servers n) lag ≡ some s) {x = i} (omega arith)
                    (e ∙ ap some same),
                ap (λ r. r.error) (sym same) ∙ k,
              )
          | inr (x, k) ↦
              elim (check_slave_status_from_lem (i + 1) retry t s
                (rw (e, k, check_slave_status_from) at h)) [
                  | inl (j, before, lt, failed, found, clean) ↦ inl (
                    suc j,
                    before,
                    omega arith,
                    AllFail.attempt (e, (x, k)) failed,
                    subst (λ n. check_slave_status (servers n) lag ≡ some s) {x = (i + 1) + j}
                        (omega arith) found,
                    clean,
                  )
                  | inr failed ↦ inr (AllFail.attempt (e, (x, k)) failed)
                ]
        ]
      ]
