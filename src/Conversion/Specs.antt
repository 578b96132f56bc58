-- ===== src/Conversion/Specs.antt =====
-- What the spec of a MysqlCluster keeps on its way from v1beta1 to v1alpha1 and back.
use radondb_mysql_kubernetes.Prelude.{
  ◌≡◌, refl, ap, ap₂, ◌∙◌, Labels, Bool, true, false, ◌||◌, Bool-cases, inl, inr, Option, none,
  some, [], ◌∷◌, Str, is_empty, if◌then◌else◌, pos,
}
use radondb_mysql_kubernetes.Conversion.{
  PvcSpec, SecretProjection, BetaSpec, spec_to_alpha, spec_to_beta, beta_with, claim_to_alpha,
  claim_to_beta, logfile_to_alpha, logfile_to_beta, tls_to_alpha, tls_to_beta, format_quantity,
}
use radondb_mysql_kubernetes.Conversion.Sources.{
  NoColon, kept_source, source_to_beta-source_to_alpha,
}

-- A secret keeps its name, and is lost without one; its items and whether it is optional are lost.
abbrev pub kept_tls : Option SecretProjection → Option SecretProjection
kept_tls none = none
kept_tls (some secret) = elim secret.name [
  | [] ↦ none
  | x ∷ name ↦ some (record { name = x ∷ name; items = []; optional = none })
]

-- A claim keeps its access modes, its storage class and its size.
abbrev pub kept_claim : {Quantity : Type 0} → PvcSpec Quantity → PvcSpec Quantity
kept_claim c = record c { others = [] }

abbrev pub kept_log : {Quantity : Type 0} → Option (PvcSpec Quantity) → Option (PvcSpec Quantity)
kept_log none = none
kept_log (some c) = some (kept_claim c)

-- What is kept: not the lag, nor the secret of the exporter, nor the standby, nor the service, nor
-- what the claims, the secret and the volume on NFS have beyond the fields above; the resources of
-- the log containers become those of the backup container, and the automatic rebuild moves into the
-- options of xenon.
abbrev pub kept_spec : {Part Quantity : Type 0} → BetaSpec Part Quantity → BetaSpec Part Quantity
kept_spec s = record {
  common = s.common;
  custom_tls_secret = kept_tls s.custom_tls_secret;
  storage = kept_claim s.storage;
  xenon = record s.xenon { enable_auto_rebuild = s.enable_auto_rebuild };
  max_lag_seconds = pos 0;
  data_source = kept_source s.data_source;
  exporter_tls = none;
  standby = none;
  enable_auto_rebuild = false;
  logfile_pvc = kept_log s.logfile_pvc;
  log_resources = s.common.extra_resources;
  service = none;
}

tls_trip-secret :
    (name : Str) (items : Labels) (optional : Option Bool)
    → tls_to_beta name
      ≡ kept_tls (some (record { name = name; items = items; optional = optional }))
unfolding tls_to_beta is_empty
tls_trip-secret [] items optional = refl
tls_trip-secret (x ∷ name) items optional = refl

tls_trip : (t : Option SecretProjection) → tls_to_beta (tls_to_alpha t) ≡ kept_tls t
unfolding tls_to_beta tls_to_alpha is_empty
tls_trip none = refl
tls_trip (some secret) = tls_trip-secret secret.name secret.items secret.optional

module _ {Quantity : Type 0} (must_parse : Str → Option Quantity) (is_zero : Quantity → Bool)
    (to_string : Quantity → Str) (parses : (q : Quantity) → must_parse (to_string q) ≡ some q)
    (no_text : must_parse [] ≡ none) where
  -- The claim of the logs has no size.
  abbrev pub sizeless : Option (PvcSpec Quantity) → Bool
  sizeless none = false
  sizeless (some c) = is_zero c.size

  claim_trip :
      (c : PvcSpec Quantity)
      → claim_to_beta must_parse
          (format_quantity is_zero to_string)
          (claim_to_alpha must_parse (format_quantity is_zero to_string) c)
        ≡ (if is_zero c.size then none else some (kept_claim c))
  unfolding claim_to_beta claim_to_alpha format_quantity
  claim_trip c = elim (Bool-cases (is_zero c.size)) [
    | inl e ↦ rw (e, no_text, claim_to_beta)
    | inr e ↦ rw (e, parses c.size, claim_to_beta)
  ]

  some_or_none :
      (b : Bool) (c : PvcSpec Quantity)
      → (elim (if b then none else some c) [ none ↦ none | some q ↦ some (some q) ])
        ≡ (if b then none else some (some c))
  some_or_none true c = refl
  some_or_none false c = refl

  logfile_trip :
      (o : Option (PvcSpec Quantity))
      → logfile_to_beta must_parse
          (format_quantity is_zero to_string)
          (logfile_to_alpha must_parse (format_quantity is_zero to_string) o)
        ≡ (if sizeless o then none else some (kept_log o))
  unfolding logfile_to_beta logfile_to_alpha
  logfile_trip none = refl
  logfile_trip (some c) =
      ap (λ x. elim x [ none ↦ none | some q ↦ some (some q) ]) (claim_trip c)
      ∙ some_or_none (is_zero c.size) (kept_claim c)

  module _ {Part : Type 0} where
    -- The conversion back panics when the storage, or the log claim, has no size.
    abbrev pub result : BetaSpec Part Quantity → Option (BetaSpec Part Quantity)
    result s = if sizeless s.logfile_pvc || is_zero s.storage.size then none else some (kept_spec s)

    abbrev assemble :
        (PvcSpec Quantity → Option (PvcSpec Quantity) → BetaSpec Part Quantity)
        → Option (Option (PvcSpec Quantity))
        → Option (PvcSpec Quantity)
        → Option (BetaSpec Part Quantity)
    assemble f logfile storage = elim logfile [
      | none ↦ none
      | some l ↦ elim storage [ none ↦ none | some c ↦ some (f c l) ]
    ]

    assembled :
        (f : PvcSpec Quantity → Option (PvcSpec Quantity) → BetaSpec Part Quantity) (b z : Bool)
        (l : Option (PvcSpec Quantity)) (c : PvcSpec Quantity)
        → assemble f (if b then none else some l) (if z then none else some c)
          ≡ (if b || z then none else some (f c l))
    assembled f true z l c = refl
    assembled f false true l c = refl
    assembled f false false l c = refl

    beta_with-kept :
        (s : BetaSpec Part Quantity)
        → NoColon s.data_source.nfs_backup
        → beta_with must_parse
            (format_quantity is_zero to_string)
            (spec_to_alpha must_parse (format_quantity is_zero to_string) s)
            (kept_claim s.storage)
            (kept_log s.logfile_pvc)
          ≡ kept_spec s
    unfolding beta_with spec_to_alpha
    beta_with-kept s h =
        ap₂ (λ t d. record (kept_spec s) { custom_tls_secret = t; data_source = d })
          (tls_trip s.custom_tls_secret) (source_to_beta-source_to_alpha s.data_source h)

    -- On its way from v1beta1 to v1alpha1 and back a spec whose NFS server and path have no colon
    -- keeps just what `kept_spec` says, when the storage and the claim of the logs have sizes;
    -- without one of these sizes the conversion back panics. A claim keeps its access modes,
    -- storage class and size, the TLS secret its name, a backup on NFS its name, server and path;
    -- the lag, the secret of the exporter, the standby, the service and the other fields of these parts are lost. It is assumed
    -- that MustParse reads back a printed quantity, and panics on the empty text.
    pub spec_to_beta-spec_to_alpha :
        (s : BetaSpec Part Quantity)
        → NoColon s.data_source.nfs_backup
        → spec_to_beta must_parse
            (format_quantity is_zero to_string)
            (spec_to_alpha must_parse (format_quantity is_zero to_string) s)
          ≡ result s
    unfolding spec_to_beta spec_to_alpha
    spec_to_beta-spec_to_alpha s h =
        let f =
          beta_with must_parse (format_quantity is_zero to_string)
            (spec_to_alpha must_parse (format_quantity is_zero to_string) s) in
        ap₂ (assemble f) (logfile_trip s.logfile_pvc) (claim_trip s.storage)
        ∙ assembled f (sizeless s.logfile_pvc) (is_zero s.storage.size) (kept_log s.logfile_pvc)
            (kept_claim s.storage)
        ∙ ap (λ r. if sizeless s.logfile_pvc || is_zero s.storage.size then none else some r)
            (beta_with-kept s h)
