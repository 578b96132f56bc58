-- ===== src/Webhook/Checks.antt =====
-- mysqlcluster_webhook.go: what each of the validators accepts.
use radondb_mysql_kubernetes.Prelude.{
  ℕ, ◌<◌, ◌≡◌, ◌≢◌, ◌↔◌, ◌⊎◌, inl, inr, refl, Result-cases, true, false, Option, none, some, [],
  ◌++◌, Str, codes, Error, ok, pos, negsuc, is_empty_iff, contains_str, str_eq_iff, label, atoi,
  has_prefix, trim_prefix, arith, Option-cases,
}
use radondb_mysql_kubernetes.Cluster.Spec.{MysqlCluster, ReadOnlyType}
use radondb_mysql_kubernetes.Webhook.{
  Outside, ◌or_next◌, validate_volume_size, validate_low_table_case, validate_mysql_version,
  valid_both_s3_nfs, valid_mysql_template, check_host, check_read_onlys, validata_ro,
}

or_next_iff : (a b : Option Error) → ((a or_next b) ≡ none) ↔ ((a ≡ none) × (b ≡ none))
or_next_iff none b = (λ h. (refl, h), λ h. h.1)
or_next_iff (some e) b = (λ h. cc, λ h. cc)

-- One check after another accepts what both accept.
pub both_accept :
    {A B : Type 0} {a b : Option Error}
    → (a ≡ none) ↔ A
    → (b ≡ none) ↔ B
    → ((a or_next b) ≡ none) ↔ (A × B)
both_accept {a = a} {b = b} f g = (
  λ h. let (x, y) = (or_next_iff a b).0 h in (f.0 x, g.0 y),
  λ (x, y). (or_next_iff a b).1 (f.1 x, g.1 y),
)

module _ {Quantity : Type 0} (o : Outside Quantity) (c : MysqlCluster) where
  -- Both sizes are quantities, and the old one is not greater.
  abbrev pub SizeKept : MysqlCluster → Type 0
  SizeKept old =
      (p : Quantity) × (q : Quantity) × (o.parse_quantity old.persistence.size ≡ ok p)
      × (o.parse_quantity c.persistence.size ≡ ok q)
      × (o.greater p q ≡ false)

  pub validate_volume_size_iff :
      (old : MysqlCluster) → (validate_volume_size o c old ≡ none) ↔ SizeKept old
  unfolding validate_volume_size
  validate_volume_size_iff old = elim (Result-cases (o.parse_quantity old.persistence.size)) [
    | inl (e, h) ↦ rw h (λ k. cc, λ (p, q, hp, hq, g). cc)
    | inr (p, h) ↦ elim (Result-cases (o.parse_quantity c.persistence.size)) [
      | inl (e, k) ↦ rw (h, k) (λ l. cc, λ (p', q, hp, hq, g). cc)
      | inr (q, k) ↦
          rw (h, k, validate_volume_size)
            (
              λ n. (p, q, refl, refl, ground arith),
              λ (p', q', hp, hq, g). let same : o.greater p q ≡ false = cc in ground arith,
            )
    ]
  ]

  abbrev pub TableCaseKept : MysqlCluster → Type 0
  TableCaseKept old =
      (contains_str c.mysql_opts.image (codes "8.0") ≡ false)
      ⊎ (label old.mysql_opts.mysql_conf (codes "lower_case_table_names")
          ≡ label c.mysql_opts.mysql_conf (codes "lower_case_table_names"))

  pub validate_low_table_case_iff :
      (old : MysqlCluster) → (validate_low_table_case o c old ≡ none) ↔ TableCaseKept old
  unfolding validate_low_table_case
  validate_low_table_case_iff old = ground (
    arith,
    str_eq_iff (label old.mysql_opts.mysql_conf (codes "lower_case_table_names"))
        (label c.mysql_opts.mysql_conf (codes "lower_case_table_names")),
  )

  abbrev pub BothSet : Type 0
  BothSet = (c.both_s3_nfs ≡ false) ⊎ ((c.nfs_server_address ≢ []) × (c.backup_secret_name ≢ []))

  pub valid_both_s3_nfs_iff : (valid_both_s3_nfs o c ≡ none) ↔ BothSet
  unfolding valid_both_s3_nfs
  valid_both_s3_nfs_iff =
      ground (arith, is_empty_iff c.nfs_server_address, is_empty_iff c.backup_secret_name)

  abbrev pub TemplateFound : Type 0
  TemplateFound =
      (c.mysql_opts.mysql_conf_template ≡ [])
      ⊎ (o.get_config_map c.mysql_opts.mysql_conf_template c.namespace ≡ none)

  pub valid_mysql_template_iff : (valid_mysql_template o c ≡ none) ↔ TemplateFound
  unfolding valid_mysql_template
  valid_mysql_template_iff = ground (arith, is_empty_iff c.mysql_opts.mysql_conf_template)

  -- The version is one of two, and the sidecar's image is of the same.
  abbrev pub VersionFits : Type 0
  VersionFits =
      ((c.mysql_version ≡ codes "5.7") × (contains_str c.sidecar_image (codes "57") ≡ true))
      ⊎ ((c.mysql_version ≡ codes "8.0") × (contains_str c.sidecar_image (codes "80") ≡ true))

  pub validate_mysql_version_iff : (validate_mysql_version o c ≡ none) ↔ VersionFits
  unfolding validate_mysql_version
  validate_mysql_version_iff =
      ground
        (arith, str_eq_iff c.mysql_version (codes "5.7"), str_eq_iff c.mysql_version (codes "8.0"))

  abbrev pub host_prefix : Str
  host_prefix = c.name ++ codes "-mysql-"

  -- The host is that of one of the pods, by Atoi of what follows the prefix.
  abbrev pub HostFits : Option ReadOnlyType → Type 0
  HostFits none = Unit
  HostFits (some r) =
      (r.host ≡ [])
      ⊎ ((has_prefix r.host host_prefix ≡ true)
          × ((n : ℕ) × (atoi (trim_prefix r.host host_prefix) ≡ some (pos n)) × (n < c.replicas)))

  check_host_iff : (r : ReadOnlyType) → (check_read_onlys o c (some r) ≡ none) ↔ HostFits (some r)
  unfolding check_read_onlys check_host
  check_host_iff r = elim (Option-cases (atoi (trim_prefix r.host host_prefix))) [
    | inl e ↦ ground (arith, is_empty_iff r.host, e)
    | inr (pos n, e) ↦ ground (arith, is_empty_iff r.host, e)
    | inr (negsuc n, e) ↦ ground (arith, is_empty_iff r.host, e)
  ]

  pub validata_ro_iff : (validata_ro o c ≡ none) ↔ HostFits c.read_onlys
  unfolding validata_ro
  validata_ro_iff = elim (Option-cases c.read_onlys) [
    | inl e ↦ rw e (λ h. tt, λ h. refl)
    | inr (r, e) ↦ rw e (check_host_iff r)
  ]
