-- ===== src/Cluster/Conf/Pool.antt =====
-- EnsureMysqlConf: the size of the buffer pool over one round and over the next.
use radondb_mysql_kubernetes.Prelude.{
  ℕ, ◌^◌, ◌≤◌, ◌<◌, ◌≡◌, refl, inl, inr, Option, none, some, Option-cases, [], ◌∷◌, Str, itoa, Bool,
  true, false, ap, ◌∙◌, subst, Labels, find_label, put_label, find_label-put_label, codes,
  str_eq_refl, IsNumeral, itoa-IsNumeral, digits-itoa, parse_uint, str_eq, arith,
}
use radondb_mysql_kubernetes.Cluster.Conf.{
  is_space, trim_left, trim_right, to_upper, is_letter, cut_unit, with_unit, parse_parts,
  size_to_bytes, default_size, max_size, pool_size, pool_instances, write_log_size, set_log_size,
  set_log_error, finish_conf, ensure_mysql_conf,
}
use radondb_mysql_kubernetes.Utils.{min, max}

trim_right-IsNumeral : (s : Str) → IsNumeral s → trim_right s ≡ s
unfolding trim_right is_space
trim_right-IsNumeral [] h = refl
trim_right-IsNumeral (c ∷ []) h = ground (arith, h.0)
trim_right-IsNumeral (c ∷ d ∷ t) h = rw (trim_right-IsNumeral (d ∷ t) h.1)

trim_left-IsNumeral : (s : Str) → IsNumeral s → trim_left s ≡ s
unfolding trim_left is_space
trim_left-IsNumeral [] h = refl
trim_left-IsNumeral (c ∷ s) h = ground (arith, h.0)

to_upper-IsNumeral : (s : Str) → IsNumeral s → to_upper s ≡ s
unfolding to_upper
to_upper-IsNumeral [] h = refl
to_upper-IsNumeral (c ∷ s) h = rw (to_upper-IsNumeral s h.1) (ground (arith, h.0))

cut_unit-IsNumeral : (s : Str) → IsNumeral s → cut_unit s ≡ (s, [])
unfolding cut_unit is_letter
cut_unit-IsNumeral [] h = refl
cut_unit-IsNumeral (c ∷ s) h = rw (cut_unit-IsNumeral s h.1) (ground (arith, h.0))

parse_uint-itoa : (n : ℕ) → n < 2 ^ 64 → parse_uint (itoa n) ≡ some n
unfolding parse_uint
parse_uint-itoa n h = rw (digits-itoa n, parse_uint) (ground (arith, h))

parse_known :
    (before : Str) (n : ℕ) → parse_uint before ≡ some n → parse_parts (before, []) ≡ some n
unfolding parse_parts with_unit str_eq
parse_known before n e = rw (e, parse_parts)

-- A printed uint64 is read back by sizeToBytes.
pub size_to_bytes-itoa : (n : ℕ) → n < 2 ^ 64 → size_to_bytes (itoa n) ≡ some n
unfolding size_to_bytes
size_to_bytes-itoa n h =
    rw
      (
        trim_right-IsNumeral (itoa n) (itoa-IsNumeral n),
        trim_left-IsNumeral (itoa n) (itoa-IsNumeral n),
        to_upper-IsNumeral (itoa n) (itoa-IsNumeral n),
        cut_unit-IsNumeral (itoa n) (itoa-IsNumeral n),
      )
      (parse_known (itoa n) n (parse_uint-itoa n h))

module _ (scaled : ℕ → ℕ → ℕ) (mem : ℕ) where
  -- The machine has room for the least pool, and the default is no more than the most.
  abbrev pub Roomy : Type 0
  Roomy = (134217728 ≤ max_size scaled mem) × (default_size scaled mem ≤ max_size scaled mem)

  -- Whatever is configured, the pool has 128 MB or more, and no more than the most.
  pub pool_size_bounds :
      (conf : Option Str)
      → Roomy
      → (134217728 ≤ pool_size scaled mem conf) × (pool_size scaled mem conf ≤ max_size scaled mem)
  unfolding pool_size min max
  pool_size_bounds none h = ground (arith, h)
  pool_size_bounds (some conf) h = elim (Option-cases (size_to_bytes conf)) [
    | inl e ↦ ground (arith, h, e)
    | inr (n, e) ↦ ground (arith, h, e)
  ]

  -- The size that a round computes is the size that the next round computes, if it is a uint64.
  pool_size_stable :
      (conf : Option Str)
      → Roomy
      → pool_size scaled mem conf < 2 ^ 64
      → pool_size scaled mem (some (itoa (pool_size scaled mem conf))) ≡ pool_size scaled mem conf
  unfolding pool_size min max
  pool_size_stable conf h lt = kept (pool_size scaled mem conf) lt (pool_size_bounds conf h)
    where
      kept :
          (size : ℕ)
          → size < 2 ^ 64
          → (134217728 ≤ size) × (size ≤ max_size scaled mem)
          → pool_size scaled mem (some (itoa size)) ≡ size
      kept size lt b = rw (size_to_bytes-itoa size lt, pool_size) (ground (arith, b))

-- A configuration with another entry than the size of the pool.
pool_key_kept :
    (k v : Str) (conf : Labels)
    → str_eq k (codes "innodb_buffer_pool_size") ≡ false
    → find_label (codes "innodb_buffer_pool_size") (put_label k v conf)
      ≡ find_label (codes "innodb_buffer_pool_size") conf
pool_key_kept k v conf h = rw (find_label-put_label, h) refl

SameSize : Option Labels → Labels → Type 0
SameSize none conf = Unit
SameSize (some conf') conf =
    find_label (codes "innodb_buffer_pool_size") conf'
    ≡ find_label (codes "innodb_buffer_pool_size") conf

write_log_size-SameSize :
    (size volume : Option ℕ) (conf : Labels) → SameSize (write_log_size size volume conf) conf
unfolding write_log_size SameSize
write_log_size-SameSize none volume conf = tt
write_log_size-SameSize (some size) none conf = refl
write_log_size-SameSize (some size) (some volume) conf =
    pool_key_kept (codes "innodb_log_file_size") _ conf (unfold str_eq in refl)

set_log_size-SameSize :
    (given : Option Str) (size : ℕ) (volume : Option ℕ) (conf : Labels)
    → SameSize (set_log_size given size volume conf) conf
unfolding set_log_size SameSize
set_log_size-SameSize (some given) size volume conf = refl
set_log_size-SameSize none size volume conf = write_log_size-SameSize _ volume conf

set_log_error-same :
    (given : Option Str) (log_pvc : Bool) (conf : Labels)
    → find_label (codes "innodb_buffer_pool_size") (set_log_error given log_pvc conf)
      ≡ find_label (codes "innodb_buffer_pool_size") conf
unfolding set_log_error
set_log_error-same (some given) log_pvc conf = refl
set_log_error-same none false conf = refl
set_log_error-same none true conf = pool_key_kept (codes "log-error") _ conf (unfold str_eq in refl)

finish_conf-SameSize :
    (log_pvc : Bool) (o : Option Labels) (conf : Labels)
    → SameSize o conf
    → SameSize (finish_conf log_pvc o) conf
unfolding finish_conf SameSize
finish_conf-SameSize log_pvc none conf h = h
finish_conf-SameSize log_pvc (some conf') conf h =
    set_log_error-same (find_label (codes "log_error") conf') log_pvc conf' ∙ h

module _ (scaled : ℕ → ℕ → ℕ) (mem cpu : ℕ) (volume : Option ℕ) (log_pvc : Bool) where
  -- What a round writes for the pool.
  ensure_mysql_conf-pool_size :
      (conf conf' : Labels)
      → ensure_mysql_conf scaled mem cpu volume log_pvc conf ≡ some conf'
      → find_label (codes "innodb_buffer_pool_size") conf'
        ≡ some (itoa (pool_size scaled mem (find_label (codes "innodb_buffer_pool_size") conf)))
  unfolding ensure_mysql_conf SameSize
  ensure_mysql_conf-pool_size conf conf' e =
      subst (λ o. SameSize o written) e
        (finish_conf-SameSize log_pvc _ written (set_log_size-SameSize _ size volume written))
      ∙ pool_key_kept (codes "innodb_buffer_pool_instances") _ _ (unfold str_eq in refl)
      ∙ rw (find_label-put_label, str_eq_refl (codes "innodb_buffer_pool_size")) refl
    where
      size : ℕ
      size = pool_size scaled mem (find_label (codes "innodb_buffer_pool_size") conf)

      written : Labels
      written =
          put_label (codes "innodb_buffer_pool_instances") (itoa (pool_instances cpu size))
            (put_label (codes "innodb_buffer_pool_size") (itoa size) conf)

  -- The size of the buffer pool that EnsureMysqlConf writes is one of 128 MB or more and no more than
  -- the most that the memory allows, and its next round, where it does not panic either, writes the
  -- same size; if that most is a uint64 of 128 MB or more, and the default is no more than it.
  pub ensure_mysql_conf_stable :
      (conf conf' conf'' : Labels)
      → Roomy scaled mem
      → max_size scaled mem < 2 ^ 64
      → ensure_mysql_conf scaled mem cpu volume log_pvc conf ≡ some conf'
      → ensure_mysql_conf scaled mem cpu volume log_pvc conf' ≡ some conf''
      → (size : ℕ) × (134217728 ≤ size)
        × (size ≤ max_size scaled mem)
        × (find_label (codes "innodb_buffer_pool_size") conf' ≡ some (itoa size))
        × (find_label (codes "innodb_buffer_pool_size") conf'' ≡ some (itoa size))
  ensure_mysql_conf_stable conf conf' conf'' roomy fits e e' =
      let given = find_label (codes "innodb_buffer_pool_size") conf in
      let (low, high) = pool_size_bounds scaled mem given roomy in
      let first = ensure_mysql_conf-pool_size conf conf' e in
      (
        pool_size scaled mem given,
        low,
        high,
        first,
        ensure_mysql_conf-pool_size conf' conf'' e'
            ∙ ap (λ o. some (itoa (pool_size scaled mem o))) first
            ∙ ap (λ n. some (itoa n)) (pool_size_stable scaled mem given roomy (omega arith)),
      )
