-- ===== src/Webhook.antt =====
-- api/v1alpha1/mysqlcluster_webhook.go: what the admission webhook refuses.
pub mod Checks
pub mod Versions
pub mod Nfs
pub mod Admission
use radondb_mysql_kubernetes.Prelude.{
  ℕ, zero, suc, ℤ, pos, negsuc, Bool, true, false, not, ◌&&◌, ◌||◌, ◌⊎◌, inl, inr, Option, none,
  some, List, [], ◌∷◌, ◌++◌, Str, codes, Error, Result, ok, err, ltb, ◌==◌, if◌then◌else◌, str_eq,
  contains_str, has_prefix, trim_prefix, is_empty, label, split, digits, atoi, length,
}
use radondb_mysql_kubernetes.Cluster.Spec.{MysqlCluster, ReadOnlyType}

-- The parts of a semver.Version that are compared.
pub record Version : Type 0 where
  pub major : ℕ
  pub minor : ℕ
  pub patch : ℕ

-- What the webhook calls: apierrors, resource.Quantity, semver and the API server.
pub record Outside (Quantity : Type 0) : Type 0 where
  pub forbidden : Str → Error
  pub bad_request : Str → Error
  pub parse_quantity : Str → Result Quantity
  -- whether `a.Cmp(b) == 1`
  pub greater : Quantity → Quantity → Bool
  pub parse_version : Str → Option Version
  -- the error of `getCofigMap(name, namespace)`
  pub get_config_map : Str → Str → Option Error

-- `if err := a; err != nil { return err }` before `b`
infixr 4 ◌or_next◌
abbrev pub ◌or_next◌ : Option Error → Option Error → Option Error
none or_next b = b
some e or_next b = some e

-- One of the four numbers of an IPv4 address: digits, without a zero in front, below 256.
is_octet : Str → Bool
is_octet [] = false
is_octet (c ∷ s) = elim (digits (c ∷ s)) [
  | none ↦ false
  | some n ↦ ltb n 256 && (is_empty s || not (c == b'0'))
]

-- `net.ParseIP(s) != nil` for an `s` without a colon, as an element of a Split at the colons is.
unfoldable pub is_ip : Str → Bool
unfolding is_octet
is_ip s = elim (split s b'.') [
  | a ∷ b ∷ c ∷ d ∷ [] ↦ is_octet a && is_octet b && is_octet c && is_octet d
  | _ ↦ false
]

unfoldable pub first_part : List Str → Str
first_part [] = []
first_part (s ∷ parts) = s

last_part : List Str → Str
last_part [] = []
last_part (s ∷ []) = s
last_part (s ∷ t ∷ parts) = last_part (t ∷ parts)

-- `semver.Parse` with the error dropped: the zero version where the text is none.
version_or_zero : Option Version → Version
version_or_zero none = record { major = 0; minor = 0; patch = 0 }
version_or_zero (some v) = v

-- The test of validateMysqlVersionAndImage for a downgrade.
unfoldable pub is_less : Version → Version → Bool
is_less new old =
    ltb new.major old.major
    || (((new.major == old.major) && ltb new.minor old.minor)
        || ((new.major == old.major) && ((new.minor == old.minor) && ltb new.patch old.patch)))

module _ {Quantity : Type 0} (o : Outside Quantity) where
  -- `validateNFSServerAddress`. `strings.Split` is never empty, so the first refusal never comes.
  unfoldable pub validate_nfs_server_address : MysqlCluster → Option Error
  unfolding first_part
  validate_nfs_server_address c =
      let ip_str = split c.nfs_server_address b':' in
      let valid = is_ip (first_part ip_str) in
      if not (is_empty c.nfs_server_address) && (length ip_str == 0)
      then some (o.forbidden (codes "nfsServerAddress should be set as IP:/PATH or IP"))
      else if not (is_empty c.nfs_server_address) && not valid
      then some (o.forbidden (codes "nfsServerAddress should be set as  IP:/PATH or IP"))
      else if not (is_empty c.backup_schedule) && (is_empty c.backup_secret_name && not valid)
      then some (
          o.forbidden
            (codes "backupSchedule is set without any backupSecretName or nfsServerAddress"))
      else none

  -- `validateVolumeSize`
  unfoldable pub validate_volume_size : MysqlCluster → MysqlCluster → Option Error
  validate_volume_size c old = elim (o.parse_quantity old.persistence.size) [
    | err e ↦ some e
    | ok old_size ↦ elim (o.parse_quantity c.persistence.size) [
      | err e ↦ some e
      | ok new_size ↦
          if o.greater old_size new_size
          then some (o.forbidden (codes "volesize can not be decreased"))
          else none
    ]
  ]

  -- `validateLowTableCase`
  unfoldable pub validate_low_table_case : MysqlCluster → MysqlCluster → Option Error
  validate_low_table_case c old =
      let key = codes "lower_case_table_names" in
      let changed =
        not (str_eq (label old.mysql_opts.mysql_conf key) (label c.mysql_opts.mysql_conf key)) in
      if contains_str c.mysql_opts.image (codes "8.0") && changed
      then some (o.forbidden (codes "lower_case_table_names cannot be changed in MySQL8.0+"))
      else none

  -- The version in an image's tag: what stands behind the last colon.
  unfoldable pub version_of_image : Str → Version
  unfolding last_part version_or_zero
  version_of_image image = version_or_zero (o.parse_version (last_part (split image b':')))

  validate_upgrade : Version → Version → Option Error
  validate_upgrade new old =
      if is_less new old
      then some (o.forbidden (codes "spec.MysqlOpts.Image cannot downgrade"))
      else if (old.major == 5) && (new.major == 8)
      then some (o.forbidden (codes "spec.MysqlOpts.Image do not support upgrade from 5 to 8"))
      else none

  -- `validateMysqlVersionAndImage`
  unfoldable pub validate_mysql_version_and_image : MysqlCluster → MysqlCluster → Option Error
  unfolding validate_upgrade
  validate_mysql_version_and_image c old =
      if not (is_empty c.mysql_opts.image) && not (is_empty c.mysql_version)
      then if not (contains_str c.mysql_opts.image c.mysql_version)
        then some (o.forbidden (codes "spec.MysqlOpts.Image and spec.MysqlVersion are conflict"))
        else if not (str_eq c.mysql_opts.image old.mysql_opts.image)
        then validate_upgrade (version_of_image c.mysql_opts.image)
            (version_of_image old.mysql_opts.image)
        else none
      else none

  -- `validateMysqlVersion`
  unfoldable pub validate_mysql_version : MysqlCluster → Option Error
  validate_mysql_version c =
      if str_eq c.mysql_version (codes "5.7")
      then if contains_str c.sidecar_image (codes "57")
        then none
        else some (
            o.forbidden (
              codes "spec.MysqlVersion is 5.7, but spec.PodPolicy.SidecarImage is not 5.7, is "
              ++ c.sidecar_image))
      else if str_eq c.mysql_version (codes "8.0")
      then if contains_str c.sidecar_image (codes "80")
        then none
        else some (
            o.forbidden (
              codes "spec.MysqlVersion is 8.0, but spec.PodPolicy.SidecarImage is not 8.0, is "
              ++ c.sidecar_image))
      else some (o.forbidden (codes "spec.MysqlVersion is not provided"))

  -- `validBothS3NFS`
  unfoldable pub valid_both_s3_nfs : MysqlCluster → Option Error
  valid_both_s3_nfs c =
      if c.both_s3_nfs && (is_empty c.nfs_server_address || is_empty c.backup_secret_name)
      then some (
          o.forbidden
            (codes "if BothS3NFS is set, backupSchedule/backupSecret/nfsAddress should not empty"))
      else none

  -- `ValidMySQLTemplate`
  unfoldable pub valid_mysql_template : MysqlCluster → Option Error
  valid_mysql_template c =
      if is_empty c.mysql_opts.mysql_conf_template
      then none
      else elim (o.get_config_map c.mysql_opts.mysql_conf_template c.namespace) [
        | none ↦ none
        | some e ↦ some (o.forbidden (codes "configmap is not exist! " ++ e))
      ]

  no_such_host : Option Error
  no_such_host = some (o.forbidden (codes "spec.readonly's hostname is not exist in the cluster"))

  check_number : ℕ → Option ℤ → Option Error
  unfolding no_such_host
  check_number replicas none = no_such_host
  check_number replicas (some (pos n)) = if ltb n replicas then none else no_such_host
  check_number replicas (some (negsuc n)) = no_such_host

  check_host : MysqlCluster → Str → Option Error
  unfolding check_number
  check_host c host =
      if is_empty host
      then none
      else if has_prefix host (c.name ++ codes "-mysql-")
      then check_number c.replicas (atoi (trim_prefix host (c.name ++ codes "-mysql-")))
      else no_such_host

  check_read_onlys : MysqlCluster → Option ReadOnlyType → Option Error
  unfolding check_host
  check_read_onlys c none = none
  check_read_onlys c (some r) = check_host c r.host

  -- `ValidataRo`
  unfoldable pub validata_ro : MysqlCluster → Option Error
  unfolding check_read_onlys
  validata_ro c = check_read_onlys c c.read_onlys

  -- `ValidateCreate`
  unfoldable pub validate_create : MysqlCluster → Option Error
  validate_create c =
      validate_nfs_server_address c
      or_next valid_both_s3_nfs c
      or_next validate_mysql_version_and_image c c
      or_next valid_mysql_template c
      or_next validate_mysql_version c

  validate_against : MysqlCluster → Str ⊎ MysqlCluster → Option Error
  validate_against c (inl kind) =
      some (o.bad_request (codes "expected an MysqlCluster but got a " ++ kind))
  validate_against c (inr old) =
      validate_volume_size c old
      or_next validate_low_table_case c old
      or_next valid_both_s3_nfs c
      or_next validate_mysql_version_and_image c old
      or_next valid_mysql_template c
      or_next validate_mysql_version c
      or_next validate_nfs_server_address c
      or_next validata_ro c

  -- `ValidateUpdate`; an old object that is no MysqlCluster is given by its type.
  unfoldable pub validate_update : MysqlCluster → Str ⊎ MysqlCluster → Option Error
  unfolding validate_against
  validate_update c old = validate_against c old
