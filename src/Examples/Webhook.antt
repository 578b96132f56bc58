-- ===== src/Examples/Webhook.antt =====
-- The admission webhook at concrete inputs.
use radondb_mysql_kubernetes.Prelude.{
  ℕ, ◌≡◌, ◌≢◌, ◌↔◌, inr, refl, Bool, true, false, Option, none, some, [], Str, codes, Error, ok,
  Result, ltb, arith, length, Lacks, split, split_go, str_eq, contains_str, has_prefix, label,
  find_label, is_empty,
}
use radondb_mysql_kubernetes.Cluster.Spec.{MysqlCluster}
use radondb_mysql_kubernetes.Examples.Cluster.{sample}
use radondb_mysql_kubernetes.Webhook.{
  Outside, Version, is_ip, validate_update, validate_nfs_server_address, version_of_image,
}
use radondb_mysql_kubernetes.Webhook.Admission.{
  Admissible, validate_update_iff, Updates, Updates-AtLeast, Updates-SizeKept,
}
use radondb_mysql_kubernetes.Webhook.Versions.{AtLeast}

-- Quantities are the lengths of their texts; the versions known are two.
abbrev outside : Outside ℕ
outside = record {
  forbidden = λ s. s;
  bad_request = λ s. s;
  parse_quantity = λ s. ok (length s);
  greater = λ a b. ltb b a;
  parse_version = λ s. version s (str_eq s (codes "5.7.34"));
  get_config_map = λ name namespace. none;
}
  where
    version : Str → Bool → Option Version
    version s true = some (record { major = 5; minor = 7; patch = 34 })
    version s false = some (record { major = 5; minor = 7; patch = 39 })

abbrev upgraded : MysqlCluster
upgraded = record sample {
  mysql_opts = record (sample.mysql_opts) { image = codes "percona/percona-server:5.7.39" };
}

upgrade_admitted : validate_update outside upgraded (inr sample) ≡ none
unfolding validate_update radondb_mysql_kubernetes.Webhook.validate_volume_size
    radondb_mysql_kubernetes.Webhook.validate_low_table_case contains_str
    radondb_mysql_kubernetes.Webhook.valid_both_s3_nfs
    radondb_mysql_kubernetes.Webhook.validate_mysql_version_and_image is_empty str_eq
    radondb_mysql_kubernetes.Webhook.is_less version_of_image split
    radondb_mysql_kubernetes.Webhook.valid_mysql_template
    radondb_mysql_kubernetes.Webhook.validate_mysql_version validate_nfs_server_address
    radondb_mysql_kubernetes.Webhook.validata_ro
upgrade_admitted = refl

validate_update_iff_example :
    (validate_update outside upgraded (inr sample) ≡ none) ↔ Admissible outside upgraded sample
validate_update_iff_example = validate_update_iff outside upgraded sample

updates : Updates outside sample upgraded
updates = Updates.updated upgraded Updates.created upgrade_admitted (λ e. cc)

Updates-AtLeast_example :
    AtLeast
      (version_of_image outside upgraded.mysql_opts.image)
      (version_of_image outside sample.mysql_opts.image)
Updates-AtLeast_example = Updates-AtLeast outside updates

Updates-SizeKept_example :
    (now : ℕ) × (outside.parse_quantity upgraded.persistence.size ≡ ok now)
    × (outside.greater 4 now ≡ false)
Updates-SizeKept_example =
    Updates-SizeKept outside (λ q. ground arith) (λ p q r h k. ground arith) 4 refl updates

abbrev with_nfs : MysqlCluster
with_nfs = record sample { nfs_server_address = codes "10.233.55.172:/backup" }

octets : is_ip (codes "10.233.55.172") ≡ true
unfolding is_ip split radondb_mysql_kubernetes.Prelude.digits is_empty
octets = refl
