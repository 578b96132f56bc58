-- ===== src/Webhook/Admission.antt =====
-- mysqlcluster_webhook.go: what ValidateUpdate and ValidateCreate admit, and what holds along any
-- sequence of admitted updates.
use radondb_mysql_kubernetes.Prelude.{◌≡◌, ◌≢◌, ◌↔◌, inl, inr, false, none, [], ok}
use radondb_mysql_kubernetes.Cluster.Spec.{MysqlCluster}
use radondb_mysql_kubernetes.Webhook.{Outside, validate_update, version_of_image, validate_against}
use radondb_mysql_kubernetes.Webhook.Checks.{
  both_accept, SizeKept, validate_volume_size_iff, TableCaseKept, validate_low_table_case_iff,
  BothSet, valid_both_s3_nfs_iff, TemplateFound, valid_mysql_template_iff, VersionFits,
  validate_mysql_version_iff, HostFits, validata_ro_iff,
}
use radondb_mysql_kubernetes.Webhook.Nfs.{NfsFits, validate_nfs_server_address_iff}
use radondb_mysql_kubernetes.Webhook.Versions.{
  AtLeast, AtLeast-refl, AtLeast-trans, ImageFits, ImageFits-AtLeast,
  validate_mysql_version_and_image_iff,
}

module _ {Quantity : Type 0} (o : Outside Quantity) where
  -- What an update from `old` must satisfy.
  abbrev pub Admissible : MysqlCluster → MysqlCluster → Type 0
  Admissible c old =
      SizeKept o c old
      × (TableCaseKept o c old
          × (BothSet o c
              × (ImageFits o c old
                  × (TemplateFound o c
                      × (VersionFits o c × (NfsFits o c × HostFits o c c.read_onlys))))))

  -- ValidateUpdate accepts an update of a cluster exactly if the volume does not shrink, the case
  -- of table names is kept where the image names 8.0, both backup targets are configured where both
  -- are asked for, the image, where one is given with a version, holds the version and is the old
  -- one or an upgrade that does not go from 5 to 8, the template is found where one is named, the
  -- version is 5.7 or 8.0 with a sidecar of the same, the NFS address is an IP up to its first
  -- colon or is absent with a secret for scheduled backups, and the host of the read-only nodes,
  -- where one is given, has the prefix of the names of the pods and behind it a text that Atoi
  -- reads as a number below the replicas.
  pub validate_update_iff :
      (c old : MysqlCluster) → (validate_update o c (inr old) ≡ none) ↔ Admissible c old
  unfolding validate_update validate_against
  validate_update_iff c old = both_accept (validate_volume_size_iff o c old) (
      both_accept (validate_low_table_case_iff o c old) (
        both_accept (valid_both_s3_nfs_iff o c) (
          both_accept (validate_mysql_version_and_image_iff o c old) (
            both_accept (valid_mysql_template_iff o c) (
              both_accept (validate_mysql_version_iff o c)
                (both_accept (validate_nfs_server_address_iff o c) (validata_ro_iff o c)))))))

  -- A cluster over admitted updates, each of which names an image.
  pub data Updates (first : MysqlCluster) : MysqlCluster → Type 0 where
    created : Updates first first
    updated :
        {old : MysqlCluster} (c : MysqlCluster)
        → Updates first old
        → validate_update o c (inr old) ≡ none
        → c.mysql_opts.image ≢ []
        → Updates first c

  VersionFits-given : (c : MysqlCluster) → VersionFits o c → c.mysql_version ≢ []
  VersionFits-given c (inl (e, h)) k = cc
  VersionFits-given c (inr (e, h)) k = cc

  -- Along any sequence of admitted updates that name an image, the image's version never falls.
  pub Updates-AtLeast :
      {first last : MysqlCluster}
      → Updates first last
      → AtLeast
          (version_of_image o last.mysql_opts.image)
          (version_of_image o first.mysql_opts.image)
  Updates-AtLeast Updates.created = AtLeast-refl _
  Updates-AtLeast (Updates.updated {old = old} c before admitted named) =
      let (size, (table, (both, (image, (template, (version, rest)))))) =
        (validate_update_iff c old).0 admitted in
      AtLeast-trans _ _ _ (ImageFits-AtLeast o c old image named (VersionFits-given c version))
        (Updates-AtLeast before)

  -- Along any sequence of admitted updates that name an image, the volume never shrinks, if
  -- `Cmp` orders the quantities: none is greater than itself, and not greater is transitive.
  pub Updates-SizeKept :
      ((q : Quantity) → o.greater q q ≡ false)
      → ((p q r : Quantity) → o.greater p q ≡ false → o.greater q r ≡ false → o.greater p r ≡ false)
      → {first last : MysqlCluster} (size : Quantity)
      → o.parse_quantity first.persistence.size ≡ ok size
      → Updates first last
      → (now : Quantity) × (o.parse_quantity last.persistence.size ≡ ok now)
        × (o.greater size now ≡ false)
  Updates-SizeKept irreflexive transitive size parsed Updates.created =
      (size, parsed, irreflexive size)
  Updates-SizeKept irreflexive transitive size parsed
        (Updates.updated {old = old} c before admitted named) =
      let ((p, q, hp, hq, kept), rest) = (validate_update_iff c old).0 admitted in
      let (p', hp', kept') = Updates-SizeKept irreflexive transitive size parsed before in
      (q, hq, transitive size p q (same p p' hp' hp kept') kept)
    where
      same :
          (p p' : Quantity)
          → o.parse_quantity old.persistence.size ≡ ok p'
          → o.parse_quantity old.persistence.size ≡ ok p
          → o.greater size p' ≡ false
          → o.greater size p ≡ false
      same p p' h k g = cc
