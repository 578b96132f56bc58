-- ===== src/Backup/CronName.antt =====
-- reconcileCronBackup: the cron job that is applied for a schedule.
use radondb_mysql_kubernetes.Prelude.{◌≡◌, ◌⊎◌, true, false, List, Str, All, In}
use radondb_mysql_kubernetes.Backup.{CronJob}
use radondb_mysql_kubernetes.Backup.Cron.{is_cron_of}

-- The name is that of a live cron job of the cluster; or there is none, and it is the one given.
abbrev pub Named : Str → Str → List CronJob → Str → Type 0
Named cluster_name name cron_jobs found =
    ((c : CronJob) × In c cron_jobs × (is_cron_of cluster_name c ≡ true) × (found ≡ c.name))
    ⊎ (All (λ c. is_cron_of cluster_name c ≡ false) cron_jobs × (found ≡ name))
