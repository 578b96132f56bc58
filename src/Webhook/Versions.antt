-- ===== src/Webhook/Versions.antt =====
-- mysqlcluster_webhook.go: the versions of an image over one update and over many.
use radondb_mysql_kubernetes.Prelude.{
  is_empty_iff, ◌<◌, ◌≤◌, ◌≡◌, ◌≢◌, ◌↔◌, ◌⊎◌, inl, inr, true, false, none, [], contains_str,
  str_eq_iff, arith,
}
use radondb_mysql_kubernetes.Cluster.Spec.{MysqlCluster}
use radondb_mysql_kubernetes.Webhook.{
  Outside, Version, is_less, version_of_image, validate_upgrade, validate_mysql_version_and_image,
}

-- A version is at least another, in the order of major, minor and patch.
abbrev pub AtLeast : Version → Version → Type 0
AtLeast new old =
    (old.major < new.major)
    ⊎ ((old.major ≡ new.major)
        × ((old.minor < new.minor) ⊎ ((old.minor ≡ new.minor) × (old.patch ≤ new.patch))))

is_less_iff : (new old : Version) → (is_less new old ≡ false) ↔ AtLeast new old
unfolding is_less
is_less_iff new old = ground arith

pub AtLeast-refl : (v : Version) → AtLeast v v
AtLeast-refl v = ground arith

pub AtLeast-trans : (u v w : Version) → AtLeast w v → AtLeast v u → AtLeast w u
AtLeast-trans u v w h k = ground arith

-- What an upgrade may be: not to an older version, and not from 5 to 8.
abbrev pub Upgrade : Version → Version → Type 0
Upgrade new old = AtLeast new old × (¬ ((old.major ≡ 5) × (new.major ≡ 8)))

module _ {Quantity : Type 0} (o : Outside Quantity) where
  validate_upgrade_iff : (new old : Version) → (validate_upgrade o new old ≡ none) ↔ Upgrade new old
  unfolding validate_upgrade
  validate_upgrade_iff new old = ground (arith, is_less_iff new old)

  -- An image is checked where a version is given with it: it holds the version, and it is the old
  -- image or an upgrade of it.
  abbrev pub ImageFits : MysqlCluster → MysqlCluster → Type 0
  ImageFits c old =
      (c.mysql_opts.image ≡ [])
      ⊎ (c.mysql_version ≡ [])
      ⊎ ((contains_str c.mysql_opts.image c.mysql_version ≡ true)
          × ((c.mysql_opts.image ≡ old.mysql_opts.image)
              ⊎ Upgrade (version_of_image o c.mysql_opts.image)
                  (version_of_image o old.mysql_opts.image)))

  pub validate_mysql_version_and_image_iff :
      (c old : MysqlCluster) → (validate_mysql_version_and_image o c old ≡ none) ↔ ImageFits c old
  unfolding validate_mysql_version_and_image
  validate_mysql_version_and_image_iff c old = ground (
    arith,
    is_empty_iff c.mysql_opts.image,
    is_empty_iff c.mysql_version,
    str_eq_iff c.mysql_opts.image old.mysql_opts.image,
    validate_upgrade_iff (version_of_image o c.mysql_opts.image)
        (version_of_image o old.mysql_opts.image),
  )

  pub ImageFits-AtLeast :
      (c old : MysqlCluster)
      → ImageFits c old
      → c.mysql_opts.image ≢ []
      → c.mysql_version ≢ []
      → AtLeast (version_of_image o c.mysql_opts.image) (version_of_image o old.mysql_opts.image)
  ImageFits-AtLeast c old (inl e) h k = absurd (h e)
  ImageFits-AtLeast c old (inr (inl e)) h k = absurd (k e)
  ImageFits-AtLeast c old (inr (inr (held, inl e))) h k = rw e (AtLeast-refl _)
  ImageFits-AtLeast c old (inr (inr (held, inr up))) h k = up.0
