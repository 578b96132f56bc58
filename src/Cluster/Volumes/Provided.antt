-- ===== src/Cluster/Volumes/Provided.antt =====
-- EnsureVolumes and EnsureVolumeClaimTemplates together: data and logs have one place each.
use radondb_mysql_kubernetes.Prelude.{
  ◌≡◌, ◌⊎◌, inl, inr, refl, sym, ap, ap₂, arith, ◌∙◌, subst, Bool, true, false, not, Bool-cases,
  Option, none, some, Option-cases, List, [], ◌∷◌, ◌++◌, Str, codes, Error, Result, ok, err, In,
  In-append_right, append-nil, str_eq,
}
use radondb_mysql_kubernetes.Cluster.Spec.{MysqlCluster, LogPvc}
use radondb_mysql_kubernetes.Cluster.Volumes.{
  Volume, Claim, when, is_set, ensure_volumes, ensure_volume_claim_templates, data_claims,
  log_claims, add_claim, claim, set_data_class, with_data_class, scratch, transparent_hugepage,
}
use radondb_mysql_kubernetes.Cluster.Volumes.Names.{
  volume_names, volume_names-append, Sublist-In, all_names, ensure_volumes-Sublist,
}
use radondb_mysql_kubernetes.Utils.{string_in}
use radondb_mysql_kubernetes.Utils.Membership.{string_in_complete}

abbrev pub claim_names : List Claim → List Str
claim_names [] = []
claim_names (c ∷ cs) = c.name ∷ claim_names cs

-- The name is that of a volume or of a claim, and not of both.
abbrev pub OnePlace : Str → List Volume → List Claim → Type 0
OnePlace name volumes claims =
    (In name (volume_names volumes) × (¬ In name (claim_names claims)))
    ⊎ ((¬ In name (volume_names volumes)) × In name (claim_names claims))

not-In : (name : Str) (names : List Str) → (string_in name names 0).1 ≡ false → ¬ In name names
not-In name names h m = cc (string_in_complete 0 m)

data_absent : (nl : Bool) → ¬ In (codes "data") (all_names false nl)
unfolding string_in str_eq
data_absent true = not-In _ (all_names false true) refl
data_absent false = not-In _ (all_names false false) refl

logs_absent : (nd : Bool) → ¬ In (codes "logs") (all_names nd false)
unfolding string_in str_eq
logs_absent true = not-In _ (all_names true false) refl
logs_absent false = not-In _ (all_names false false) refl

module _ (c : MysqlCluster) where
  data_volume :
      (enabled : Bool)
      → c.persistence.enabled ≡ enabled
      → (In (codes "data") (volume_names (ensure_volumes c)) × (enabled ≡ false))
        ⊎ ((¬ In (codes "data") (volume_names (ensure_volumes c))) × (enabled ≡ true))
  unfolding ensure_volumes scratch
  data_volume true e = inr (
    λ m. data_absent _ (
        subst (λ b. In (codes "data") (all_names (not b) (not (is_set c.mysql_opts.logfile_pvc)))) e
          (Sublist-In (ensure_volumes-Sublist c) m)),
    refl,
  )
  data_volume false e = inl (rw (e, ensure_volumes) (In.here refl), refl)

  logs_volume :
      (log : Option LogPvc)
      → c.mysql_opts.logfile_pvc ≡ log
      → (In (codes "logs") (volume_names (ensure_volumes c)) × (log ≡ none))
        ⊎ ((¬ In (codes "logs") (volume_names (ensure_volumes c))) × (is_set log ≡ true))
  unfolding ensure_volumes scratch
  logs_volume (some p) e = inr (
    λ m. logs_absent _ (
        subst (λ o. In (codes "logs") (all_names (not c.persistence.enabled) (not (is_set o)))) e
          (Sublist-In (ensure_volumes-Sublist c) m)),
    refl,
  )
  logs_volume none e = inl (
    later (when (not c.persistence.enabled) (scratch (codes "data") ∷ [])) _ (
        later (when c.mysql_opts.init_toku_db (transparent_hugepage ∷ [])) _ (rw e (In.here refl))),
    refl,
  )
    where
      later :
          (vs ws : List Volume)
          → In (codes "logs") (volume_names ws)
          → In (codes "logs") (volume_names (vs ++ ws))
      later vs ws m =
          subst (In (codes "logs")) (sym (volume_names-append vs ws))
            (In-append_right (volume_names vs) m)

module _ (is_quantity : Str → Bool) (own : Str → Option Error) where
  claim_names-append :
      (cs ds : List Claim) → claim_names (cs ++ ds) ≡ claim_names cs ++ claim_names ds
  claim_names-append [] ds = refl
  claim_names-append (c ∷ cs) ds = ap (λ ns. c.name ∷ ns) (claim_names-append cs ds)

  add_claim_names :
      (c : MysqlCluster) (name : Str) (before claims : List Claim)
      → add_claim is_quantity own c name before ≡ some (ok claims)
      → claim_names claims ≡ claim_names before ++ name ∷ []
  unfolding add_claim claim
  add_claim_names c name before claims h = elim (Bool-cases (is_quantity c.persistence.size)) [
    | inr e ↦ cc (rw (e, add_claim) at h)
    | inl e ↦ elim (Option-cases (own name)) [
      | inr (x, k) ↦ cc (rw (e, k, add_claim) at h)
      | inl k ↦
          let same : before ++ claim c name ∷ [] ≡ claims = cc (rw (e, k, add_claim) at h) in
          ap claim_names (sym same) ∙ claim_names-append before (claim c name ∷ [])
    ]
  ]

  log_claims_names :
      (c : MysqlCluster) (log : Option LogPvc) (res : Option (Result (List Claim))) (ns : List Str)
      (claims : List Claim)
      → ((before : List Claim) → res ≡ some (ok before) → claim_names before ≡ ns)
      → log_claims is_quantity own c log res ≡ some (ok claims)
      → claim_names claims ≡ ns ++ when (is_set log) (codes "logs" ∷ [])
  unfolding log_claims
  log_claims_names c none res ns claims first h = first claims h ∙ sym (append-nil ns)
  log_claims_names c (some log) none ns claims first h = cc
  log_claims_names c (some log) (some (err e)) ns claims first h = cc
  log_claims_names c (some log) (some (ok before)) ns claims first h =
      add_claim_names c (codes "logs") before claims h
      ∙ ap (λ l. l ++ codes "logs" ∷ []) (first before refl)

  data_claims_names :
      (c : MysqlCluster) (before : List Claim)
      → data_claims is_quantity own c ≡ some (ok before)
      → claim_names before ≡ when c.persistence.enabled (codes "data" ∷ [])
  unfolding data_claims
  data_claims_names c before h = elim (Bool-cases c.persistence.enabled) [
    | inl e ↦ rw e (add_claim_names c (codes "data") [] before (rw (e, data_claims) at h))
    | inr e ↦
        rw e (let same : [] ≡ before = cc (rw (e, data_claims) at h) in ap claim_names (sym same))
  ]

  with_data_class_kept :
      (c : MysqlCluster)
      → ((with_data_class c).persistence.enabled ≡ c.persistence.enabled)
        × ((with_data_class c).mysql_opts.logfile_pvc ≡ c.mysql_opts.logfile_pvc)
  unfolding with_data_class set_data_class
  with_data_class_kept c = ground arith

  pub ensure_volume_claim_templates_names :
      (c : MysqlCluster) (claims : List Claim)
      → ensure_volume_claim_templates is_quantity own c ≡ some (ok claims)
      → claim_names claims
        ≡ when c.persistence.enabled (codes "data" ∷ [])
          ++ when (is_set c.mysql_opts.logfile_pvc) (codes "logs" ∷ [])
  unfolding ensure_volume_claim_templates
  ensure_volume_claim_templates_names c claims h =
      log_claims_names c' c'.mysql_opts.logfile_pvc (data_claims is_quantity own c')
        (when c'.persistence.enabled (codes "data" ∷ [])) claims (data_claims_names c') h
      ∙ ap₂ (λ b o. when b (codes "data" ∷ []) ++ when (is_set o) (codes "logs" ∷ []))
          (with_data_class_kept c).0 (with_data_class_kept c).1
    where
      c' : MysqlCluster
      c' = with_data_class c

  no_data : (b : Bool) → ¬ In (codes "data") (when b (codes "logs" ∷ []))
  unfolding string_in str_eq
  no_data true = not-In (codes "data") (codes "logs" ∷ []) refl
  no_data false = not-In (codes "data") [] refl

  no_logs : (b : Bool) → ¬ In (codes "logs") (when b (codes "data" ∷ []) ++ [])
  unfolding string_in str_eq
  no_logs true = not-In (codes "logs") (codes "data" ∷ []) refl
  no_logs false = not-In (codes "logs") [] refl

  -- Where the claim templates are made, the data and the logs are each a volume or a claim, and
  -- not both: no claim's name is that of a volume.
  pub one_place :
      (c : MysqlCluster) (claims : List Claim)
      → ensure_volume_claim_templates is_quantity own c ≡ some (ok claims)
      → OnePlace (codes "data") (ensure_volumes c) claims
        × OnePlace (codes "logs") (ensure_volumes c) claims
  one_place c claims h = (
    elim (data_volume c c.persistence.enabled refl) [
      | inl (m, e) ↦ inl (
        m,
        λ k. no_data (is_set c.mysql_opts.logfile_pvc) (subst (In (codes "data")) (names ∙ rw e) k),
      )
      | inr (no_volume, e) ↦
          inr (no_volume, subst (In (codes "data")) (sym names) (rw e (In.here refl)))
    ],
    elim (logs_volume c c.mysql_opts.logfile_pvc refl) [
      | inl (m, e) ↦
          inl (m, λ k. no_logs c.persistence.enabled (subst (In (codes "logs")) (names ∙ rw e) k))
      | inr (no_volume, e) ↦ inr (
        no_volume,
        subst (In (codes "logs")) (sym names) (
            rw e (In-append_right (when c.persistence.enabled (codes "data" ∷ [])) (In.here refl))),
      )
    ],
  )
    where
      names :
          claim_names claims
          ≡ when c.persistence.enabled (codes "data" ∷ [])
            ++ when (is_set c.mysql_opts.logfile_pvc) (codes "logs" ∷ [])
      names = ensure_volume_claim_templates_names c claims h
