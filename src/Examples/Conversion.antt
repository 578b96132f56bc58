-- ===== src/Examples/Conversion.antt =====
-- Conversions of API versions at concrete inputs.
use radondb_mysql_kubernetes.Prelude.{
  ℕ, pos, zero, suc, ◌≡◌, refl, ap, Bool, true, false, ◌==◌, Option, none, some, [], ◌∷◌, Str,
  codes, Result, ok, err, length, arith,
}
use radondb_mysql_kubernetes.Backup.{backup_failed}
use radondb_mysql_kubernetes.Conversion.{
  BetaSpec, Common, DataSource, spec_to_alpha, spec_to_beta, format_quantity, BetaBackupStatus,
  status_to_alpha, status_to_beta,
}
use radondb_mysql_kubernetes.Conversion.Specs.{kept_spec, spec_to_beta-spec_to_alpha}
use radondb_mysql_kubernetes.Conversion.Statuses.{status_to_beta-status_to_alpha, kept_status}

-- Quantities and times are written as so many ones; the empty text is none.
abbrev ones : ℕ → Str
ones zero = []
ones (suc n) = 49 ∷ ones n

abbrev to_text : ℕ → Str
to_text n = 49 ∷ ones n

abbrev parse_text : Str → Option ℕ
parse_text [] = none
parse_text (x ∷ text) = some (length text)

abbrev is_nothing : ℕ → Bool
is_nothing n = n == 0

length-ones : (n : ℕ) → length (ones n) ≡ n
length-ones zero = refl
length-ones (suc n) = ap suc (length-ones n)

parse-text : (n : ℕ) → parse_text (to_text n) ≡ some n
parse-text n = ap some (length-ones n)

-- A time of day with the hours that its zone is before UTC; the zone is not printed.
abbrev ZonedTime : Type 0
ZonedTime = ℕ × ℕ

abbrev format_date : ZonedTime → Str
format_date t = to_text t.0

abbrev parse_date : Str → Result ZonedTime
parse_date [] = err (codes "cannot parse")
parse_date (x ∷ text) = ok (length text, 0)

abbrev in_utc : ZonedTime → ZonedTime
in_utc t = (t.0, 0)

parse-date : (t : ZonedTime) → parse_date (format_date t) ≡ ok (in_utc t)
parse-date t = ap (λ n. ok (n, 0)) (length-ones t.0)

abbrev common : Common Str
common = record {
  replicas = some (pos 3);
  read_onlys = none;
  replica_lag = none;
  mysql_version = codes "8.0";
  min_available = codes "50%";
  leader_as_follower = false;
  server_id_offset = pos 0;
  user = codes "radondb_usr";
  config_template = [];
  mysql_conf = [];
  plugin_conf = [];
  resources = codes "r";
  image = codes "percona";
  exporter_image = [];
  exporter_enabled = true;
  exporter_resources = [];
  affinity = none;
  image_pull_policy = [];
  sidecar_image = [];
  extra_resources = codes "small";
  slow_log_tail = false;
  audit_log_tail = false;
  tolerations = [];
  priority_class_name = [];
  busybox_image = [];
}

abbrev from_nfs : DataSource Str
from_nfs = record {
  source_config = none;
  remote_cluster = none;
  s3_backup = record { name = codes "b1"; secret_name = codes "s3" };
  nfs_backup = some (record {
    name = codes "b2";
    volume = record { server = codes "10.0.0.1"; path = codes "/data" };
    read_only = true;
  });
  restore_point = codes "2023-01-01 00:00:00";
}

abbrev spec : BetaSpec Str ℕ
spec = record {
  common = common;
  custom_tls_secret = some (record { name = codes "tls"; items = []; optional = some true });
  storage = record {
    access_modes = [];
    storage_class = none;
    size = 10;
    others = (codes "volumeName", codes "pv1") ∷ [];
  };
  xenon = record {
    image = codes "xenon";
    admit_defeat_hearbeat_count = some (pos 5);
    election_timeout = some (pos 10000);
    enable_auto_rebuild = false;
    resources = [];
  };
  max_lag_seconds = pos 30;
  data_source = from_nfs;
  exporter_tls = some (record { name = codes "metrics"; items = []; optional = none });
  standby = none;
  enable_auto_rebuild = true;
  logfile_pvc = none;
  log_resources = codes "large";
  service = none;
}

spec_to_beta-spec_to_alpha_example :
    spec_to_beta parse_text
      (format_quantity is_nothing to_text)
      (spec_to_alpha parse_text (format_quantity is_nothing to_text) spec)
    ≡ some (kept_spec spec)
spec_to_beta-spec_to_alpha_example =
    spec_to_beta-spec_to_alpha parse_text is_nothing to_text parse-text refl spec (omega arith)

abbrev failed_backup : BetaBackupStatus ZonedTime
failed_backup = record {
  initiator = none;
  backup_name = codes "b1";
  backup_size = codes "1GB";
  backup_type = codes "S3";
  start_time = some (1, 8);
  completion_time = some (3, 8);
  state = some backup_failed;
  gtid = [];
  manual_backup = none;
  scheduled_backups = [];
}

status_to_beta-status_to_alpha_example :
    status_to_beta format_date parse_date (status_to_alpha format_date parse_date failed_backup)
    ≡ kept_status format_date parse_date in_utc parse-date (codes "cannot parse") refl failed_backup
status_to_beta-status_to_alpha_example =
    status_to_beta-status_to_alpha format_date parse_date in_utc parse-date (codes "cannot parse")
      refl failed_backup
