-- ===== src/Sidecar/Fallback.antt =====
-- The restores of sidecar/config.go from S3, from another pod and from a remote source, and the
-- choice among the restores that runInitCommand of sidecar/init.go makes.
use radondb_mysql_kubernetes.Prelude.{
  Bool, not, ◌||◌, none, some, List, [], ◌∷◌, ◌++◌, Str, Result, ok, err, codes, if◌then◌else◌,
  is_empty, has_prefix, trim_prefix,
}
use radondb_mysql_kubernetes.Sidecar.{Config}
use radondb_mysql_kubernetes.Sidecar.Restore.{
  Act, mkdir, mkdir_all, empty_dir, run, make_pipe, start, receive, new_s3, s3_download,
  write_script, Machine, State, Outcome, add_act, attempt, ignore, data_dir, chown_all, prepare,
  use_memory, use_memory_log_only, remove_all, chown_message, build_binlog_dir, binlog_path,
  text_of, gtid_of, ensure_data_dir, execute_nfs_restore,
}

-- Whether one of the four settings of S3 is missing.
unfoldable pub lacks_s3 : Config → Bool
lacks_s3 cfg =
    is_empty cfg.x_cloud_s3_end_point
    || is_empty cfg.x_cloud_s3_access_key
    || is_empty cfg.x_cloud_s3_secret_key
    || is_empty cfg.x_cloud_s3_bucket

get_args : Config → List Str
get_args cfg =
    codes "xbcloud"
    ∷ codes "get"
    ∷ codes "--storage=S3"
    ∷ (codes "--s3-endpoint=" ++ cfg.x_cloud_s3_end_point)
    ∷ (codes "--s3-access-key=" ++ cfg.x_cloud_s3_access_key)
    ∷ (codes "--s3-secret-key=" ++ cfg.x_cloud_s3_secret_key)
    ∷ (codes "--s3-bucket=" ++ cfg.x_cloud_s3_bucket)
    ∷ codes "--parallel=10"
    ∷ cfg.x_restore_from
    ∷ codes "--insecure"
    ∷ []

s3_client : Config → Act
unfolding trim_prefix has_prefix
s3_client cfg =
    new_s3 (trim_prefix (trim_prefix cfg.x_cloud_s3_end_point (codes "https://")) (codes "http://"))
      cfg.x_cloud_s3_access_key cfg.x_cloud_s3_secret_key cfg.x_cloud_s3_bucket
      (has_prefix cfg.x_cloud_s3_end_point (codes "https"))

-- The binary logs are loaded and the script written where the point in time can be read.
unfoldable pub load_binlogs : Config → Str → State → Result Str → Outcome
unfolding ignore binlog_path build_binlog_dir
load_binlogs cfg gtid s (err e) = (s, none)
load_binlogs cfg gtid s (ok point) =
    ignore (s3_download (build_binlog_dir cfg.x_restore_from)) s
      (λ s. ignore (write_script (binlog_path cfg.x_restore_from) gtid point) s (λ s. (s, none)))

-- `os.Mkdir`, for which a directory that exists is no error.
make_binlog_dir : Machine → Config → State → (State → Outcome) → Outcome
unfolding add_act build_binlog_dir binlog_path
make_binlog_dir m cfg s next =
    let made = add_act s (mkdir (binlog_path cfg.x_restore_from)) in
    elim (m.fails s.acts (mkdir (binlog_path cfg.x_restore_from))) [
      | none ↦ next made
      | some e ↦ if m.is_exist e then next made else (
        made,
        some (codes "error mkdir " ++ build_binlog_dir cfg.x_restore_from ++ codes ": " ++ e),
      )
    ]

-- executeS3Restore from the end of the commands that unpack the backup; the GTIDs are read from
-- the directory /root/backup/.
after_unpack : Machine → Config → State → Outcome
unfolding attempt gtid_of text_of load_binlogs make_binlog_dir s3_client
after_unpack m cfg s =
    let gtid = text_of (gtid_of m s (codes "/root/backup/")) in
    attempt m (codes "failed to xtrabackup prepare and apply-log-only : ")
      (prepare (codes "--prepare" ∷ codes "--apply-log-only" ∷ []) data_dir) s
      (λ s.
        attempt m (codes "failed to xtrabackup prepare : ")
          (prepare (codes "--prepare" ∷ []) data_dir) s
          (λ s.
            attempt m (codes "failed to chown mysql.mysql /var/lib/mysql  : ") (chown_all data_dir)
              s
              (λ s. attempt m (codes "failed to new s3 : ") (s3_client cfg) s (λ s.
                make_binlog_dir m cfg s (λ s.
                  if is_empty cfg.restore_point
                  then (s, none)
                  else load_binlogs cfg gtid s (m.parse_time cfg.restore_point))))))

-- The pipe, the start of the two commands and their ends.
unpack : Machine → Config → State → Outcome
unfolding attempt after_unpack add_act get_args
unpack m cfg s = elim (m.fails s.acts make_pipe) [
  | some e ↦ (add_act s make_pipe, some (codes "failed to xbstream and xcloud piped"))
  | none ↦
      attempt m (codes "failed to xcloud start : ") (start (get_args cfg)) (add_act s make_pipe)
        (λ s.
          attempt m (codes "failed to xbstream start : ")
            (start (codes "xbstream" ∷ codes "-xv" ∷ codes "-C" ∷ data_dir ∷ [])) s
            (λ s. attempt m [] receive s (λ s. attempt m [] receive s (λ s. after_unpack m cfg s))))
]

unfoldable pub execute_s3_restore : Machine → Config → State → Outcome
unfolding attempt unpack lacks_s3
execute_s3_restore m cfg s =
    if is_empty cfg.x_restore_from
    then (s, some (codes "do not have restore from"))
    else if lacks_s3 cfg
    then (s, some (codes "do not have S3 information"))
    else if m.exists s.acts data_dir
    then unpack m cfg s
    else attempt m (codes "failed to create data directory : ") (mkdir_all data_dir) s
        (λ s. unpack m cfg s)

-- `if err == nil { cfg.GtidPurged = gtid }`
set_gtid : State → Result Str → State
set_gtid s (ok gtid) = record { acts = s.acts; gtid_purged = gtid }
set_gtid s (err e) = s

clone_steps : Machine → State → Outcome
unfolding attempt gtid_of set_gtid
clone_steps m s =
    attempt m (codes "failed to xtrabackup prepare apply-log-only : ")
      (prepare use_memory_log_only data_dir) s
      (λ s.
        attempt m (codes "failed to xtrabackup prepare : ") (prepare use_memory data_dir) s (λ s.
          let s = set_gtid s (gtid_of m s data_dir) in
          attempt m (codes "failed to remove relay-bin : ")
            (remove_all (data_dir ++ codes "mysql-relay*")) s
            (λ s. attempt m chown_message (chown_all data_dir) s (λ s. (s, none)))))

unfoldable pub execute_clone_restore : Machine → State → Outcome
unfolding attempt ignore clone_steps
execute_clone_restore m s =
    if m.exists s.acts data_dir
    then clone_steps m s
    else ignore (mkdir data_dir) s (λ s.
      attempt m (codes "failed to read datadir ") (empty_dir data_dir) s (λ s. clone_steps m s))

remote_command : Str
remote_command =
    codes
      "sshpass -p rootpass ssh  -o 'StrictHostKeyChecking no' root@`cat /etc/rsrc/host` xtrabackup --user=root --password=`cat /etc/rsrc/passwd` --backup --stream=xbstream --target-dir=/  > backup.xbstream 2>backup.log;"
    ++ codes "cd /var/lib/mysql ; xbstream -x < /backup.xbstream"

unfoldable pub execute_remote_source : Machine → State → Outcome
unfolding attempt ensure_data_dir remote_command
execute_remote_source m s = ensure_data_dir m s (λ s.
    attempt m (codes "failed to rm -rf /var/lib/mysql : ") (remove_all (data_dir ++ codes "/*")) s
      (λ s.
        attempt m (codes "failed to rm -rf /var/lib/mysql : ")
          (run (codes "/bin/bash" ∷ codes "-c" ∷ codes "--" ∷ remote_command ∷ [])) s
          (λ s.
            attempt m (codes "failed to xtrabackup prepare append-only: ")
              (prepare use_memory_log_only data_dir) s
              (λ s.
                attempt m (codes "failed to xtrabackup prepare: ") (prepare use_memory data_dir) s
                  (λ s. attempt m chown_message (chown_all data_dir) s (λ s. (s, none)))))))

unfoldable pub wrap_error : Str → Outcome → Outcome
wrap_error message (s, none) = (s, none)
wrap_error message (s, some e) = (s, some (message ++ e))

-- A restore from NFS, and where that has an error one from S3.
unfoldable pub or_s3 : Machine → Config → Outcome → Outcome
unfolding execute_s3_restore wrap_error
or_s3 m cfg (s, none) = (s, none)
or_s3 m cfg (s, some e) =
    wrap_error (codes "failed to restore from " ++ cfg.x_restore_from ++ codes ": ")
      (execute_s3_restore m cfg s)

-- The restore of a pod without data and without a remote cluster.
unfoldable pub run_restore : Machine → Config → State → Outcome
unfolding execute_clone_restore execute_nfs_restore execute_remote_source wrap_error or_s3
run_restore m cfg s =
    if not (is_empty cfg.x_restore_from)
    then if cfg.clone_flag
      then wrap_error (codes "failed to execute Clone Restore : ") (execute_clone_restore m s)
      else or_s3 m cfg (execute_nfs_restore m cfg s)
    else if not (is_empty cfg.x_remote_date_source)
    then wrap_error (codes "failed to remote source from " ++ cfg.x_restore_from ++ codes ": ")
        (execute_remote_source m s)
    else (s, none)
