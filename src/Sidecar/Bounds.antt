-- ===== src/Sidecar/Bounds.antt =====
-- The server ids of buildExtraConfig: their range, and that pods do not share them.
use radondb_mysql_kubernetes.Prelude.{
  ℕ, negsuc, err, Option, none, some, atoi, ◌+◌, ◌^◌, ◌≤◌, ◌<◌, ℤ, pos, ◌≡◌, refl, ap, ap₂, sym,
  ◌∙◌, Bool, true, false, Str, Result, ok, itoa, ◌++◌, ◌∷◌, split, arith, not, ◌&&◌, is_empty,
  ◌>>=◌,
}
use radondb_mysql_kubernetes.Utils.{get_ordinal}
use radondb_mysql_kubernetes.Utils.Ordinal.{get_ordinal_of_name}
use radondb_mysql_kubernetes.Sidecar.{Config}
use radondb_mysql_kubernetes.Sidecar.ServerId.{
  ExtraConfig, start_index, given_offset, or_default, is_given, remote_index, is_offset_given,
  is_ro, increment, shifted_index, wrap, add_int, build_extra_config,
}

increment-bounded : (b : Bool) → increment b ≤ 100
unfolding increment
increment-bounded true = omega arith
increment-bounded false = omega arith

wrap_small : (n : ℕ) → n < 2 ^ 63 → wrap n ≡ pos n
unfolding wrap
wrap_small n h = ground arith

shifted_index_below :
    (cfg : Config) → shifted_index cfg ≤ start_index cfg.server_id_start_offset + 200
unfolding shifted_index remote_index
shifted_index_below cfg =
    omega
      (arith, increment-bounded is_shifted, increment-bounded (is_ro (split cfg.host_name b'-')))
  where
    is_shifted : Bool
    is_shifted =
        not (is_empty cfg.remote_cluster_name) && not (is_offset_given cfg.server_id_start_offset)

with_ordinal : Config → Str → Result ℤ → Result ExtraConfig
with_ordinal cfg file_path ordinal = ordinal >>= (λ ordinal.
    ok (record { server_id = add_int (shifted_index cfg) ordinal; init_file = file_path }))

build_extra_config-name :
    (cfg : Config) (name file_path : Str) (n : ℕ)
    → cfg.host_name ≡ name ++ b'-' ∷ itoa n
    → n < 100
    → start_index cfg.server_id_start_offset < 2 ^ 62
    → build_extra_config cfg file_path
      ≡ ok (record { server_id = pos (shifted_index cfg + n); init_file = file_path })
unfolding build_extra_config add_int with_ordinal
build_extra_config-name cfg name file_path n e h g =
    ap (with_ordinal cfg file_path) (ap get_ordinal e ∙ get_ordinal_of_name name n (omega arith))
    ∙ ap (λ i. ok (record { server_id = i; init_file = file_path }))
        (wrap_small (shifted_index cfg + n) (omega (arith, shifted_index_below cfg)))

or_default-is_given : (o : Option ℕ) → is_given o ≡ false → or_default o ≡ 100
unfolding or_default is_given
or_default-is_given none h = refl
or_default-is_given (some n) h = cc

start_index-default : (offset : Str) → is_offset_given offset ≡ false → start_index offset ≡ 100
unfolding start_index is_offset_given
start_index-default offset h = or_default-is_given (given_offset (atoi offset)) h

shifted_index_above : (cfg : Config) → start_index cfg.server_id_start_offset ≤ shifted_index cfg
unfolding shifted_index remote_index
shifted_index_above cfg = omega arith

apart :
    (b b' : Bool) (start n n' : ℕ)
    → n < 100
    → n' < 100
    → start + increment b + n ≡ start + increment b' + n'
    → (n ≡ n') × (b ≡ b')
unfolding increment
apart true true start n n' h h' e = (omega arith, refl)
apart false false start n n' h h' e = (omega arith, refl)
apart true false start n n' h h' e = absurd (omega arith)
apart false true start n n' h h' e = absurd (omega arith)

id_of : Result ExtraConfig → ℕ
id_of (ok extra) = elim extra.server_id [ pos n ↦ n | negsuc n ↦ 0 ]
id_of (err e) = 0

-- A pod is named by its StatefulSet and an ordinal below 100, and its offset is below 2^62.
pub record IsPod (cfg : Config) (ordinal : ℕ) : Type 0 where
  pub set_name : Str
  pub is_named : cfg.host_name ≡ set_name ++ b'-' ∷ itoa ordinal
  pub is_small : ordinal < 100
  pub starts_low : start_index cfg.server_id_start_offset < 2 ^ 62

-- When no offset is given, the server id of a pod with an ordinal below 100 is at least 100 and
-- below 400.
pub build_extra_config-bounded :
    (cfg : Config) (file_path : Str) (n : ℕ)
    → IsPod cfg n
    → is_offset_given cfg.server_id_start_offset ≡ false
    → (id : ℕ) × (build_extra_config cfg file_path
        ≡ ok (record { server_id = pos id; init_file = file_path }))
      × (100 ≤ id)
      × (id < 400)
build_extra_config-bounded cfg file_path n pod h = (
  shifted_index cfg + n,
  build_extra_config-name cfg pod.set_name file_path n pod.is_named pod.is_small pod.starts_low,
  omega (arith, low),
  omega (arith, low, shifted_index_below cfg, pod.is_small),
)
  where
    default : start_index cfg.server_id_start_offset ≡ 100
    default = start_index-default cfg.server_id_start_offset h

    low : (start_index cfg.server_id_start_offset ≡ 100) × (100 ≤ shifted_index cfg)
    low = (default, omega (arith, default, shifted_index_above cfg))

-- When two pods with ordinals below 100 and one offset, which is below 2^62, both of clusters with
-- or both without a remote cluster, get one server id, they have one ordinal, and both or none are
-- read-only.
pub build_extra_config-Apart :
    (cfg cfg' : Config) (file_path : Str) (n n' : ℕ)
    → IsPod cfg n
    → IsPod cfg' n'
    → cfg'.server_id_start_offset ≡ cfg.server_id_start_offset
    → is_empty cfg'.remote_cluster_name ≡ is_empty cfg.remote_cluster_name
    → build_extra_config cfg file_path ≡ build_extra_config cfg' file_path
    → (n ≡ n') × (is_ro (split cfg.host_name b'-') ≡ is_ro (split cfg'.host_name b'-'))
unfolding id_of shifted_index
build_extra_config-Apart cfg cfg' file_path n n' pod pod' offset remote e =
    apart (is_ro (split cfg.host_name b'-')) (is_ro (split cfg'.host_name b'-'))
      (remote_index cfg.server_id_start_offset (not (is_empty cfg.remote_cluster_name))) n n'
      pod.is_small pod'.is_small
      (same_id ∙ ap (λ i. i + increment (is_ro (split cfg'.host_name b'-')) + n') same_base)
  where
    same_base :
        remote_index cfg'.server_id_start_offset (not (is_empty cfg'.remote_cluster_name))
        ≡ remote_index cfg.server_id_start_offset (not (is_empty cfg.remote_cluster_name))
    same_base = ap₂ (λ s b. remote_index s (not b)) offset remote

    same_id : shifted_index cfg + n ≡ shifted_index cfg' + n'
    same_id = ap id_of (
        sym (
          build_extra_config-name cfg pod.set_name file_path n pod.is_named pod.is_small
            pod.starts_low)
        ∙ e
        ∙ build_extra_config-name cfg' pod'.set_name file_path n' pod'.is_named pod'.is_small
            pod'.starts_low)
