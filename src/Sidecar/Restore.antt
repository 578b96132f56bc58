-- ===== src/Sidecar/Restore.antt =====
-- The restores of sidecar/config.go, and the part of runInitCommand of sidecar/init.go that runs
-- them. What commands and the file system answer is the parameter `Machine`; an argument vector
-- goes to a command as it is, since `exec.Command` starts no shell.
use radondb_mysql_kubernetes.Prelude.{
  Bool, Option, none, some, List, [], ◌∷◌, ◌++◌, Str, Result, ok, err, Error, codes, if◌then◌else◌,
  is_empty,
}
use radondb_mysql_kubernetes.Sidecar.{Config}
use radondb_mysql_kubernetes.Sidecar.Gtid.{get_xtrabackup_gtid_purged}

-- What the restores do outside the process.
pub data Act : Type 0 where
  mkdir mkdir_all : Str → Act
  -- a directory is listed and its entries removed; the error is that of the listing
  empty_dir : Str → Act
  -- a command is run to its end
  run : List Str → Act
  -- the pipe from one command to the next is made; a command is started
  make_pipe : Act
  start : List Str → Act
  -- the next of the two started commands ends
  receive : Act
  new_s3 : Str → Str → Str → Str → Bool → Act
  s3_download : Str → Act
  -- BuildScript: the directory of the binary logs, the GTIDs to skip, the point in time
  write_script : Str → Str → Str → Act

-- The answers, by the acts before.
pub record Machine : Type 0 where
  -- `!os.IsNotExist(err)` of `os.Stat`
  pub exists : List Act → Str → Bool
  pub fails : List Act → Act → Option Error
  pub read_file : List Act → Str → Result Str
  pub is_exist : Error → Bool
  -- `time.Parse`, printed again in the layout of the script
  pub parse_time : Str → Result Str

-- The acts so far, and the field GtidPurged.
pub record State : Type 0 where
  pub acts : List Act
  pub gtid_purged : Str

abbrev pub Outcome : Type 0
Outcome = State × Option Error

unfoldable pub add_act : State → Act → State
add_act s act = record { acts = s.acts ++ act ∷ []; gtid_purged = s.gtid_purged }

-- `if err := ...; err != nil { return fmt.Errorf(... err) }`, by what the act has returned.
unfoldable pub settle : Option Error → Str → State → (State → Outcome) → Outcome
settle none message s next = next s
settle (some e) message s next = (s, some (message ++ e))

unfoldable pub attempt : Machine → Str → Act → State → (State → Outcome) → Outcome
unfolding settle add_act
attempt m message act s next = settle (m.fails s.acts act) message (add_act s act) next

-- An act whose error is not looked at.
unfoldable pub ignore : Act → State → (State → Outcome) → Outcome
unfolding add_act
ignore act s next = next (add_act s act)

abbrev pub data_dir : Str
data_dir = codes "/var/lib/mysql"

abbrev pub init_dir : Str
init_dir = codes "/docker-entrypoint-initdb.d"

abbrev pub defaults_file : Str
defaults_file = codes "--defaults-file=/etc/mysql/my.cnf"

abbrev pub chown_all : Str → Act
chown_all dir = run (codes "chown" ∷ codes "-R" ∷ codes "mysql.mysql" ∷ dir ∷ [])

abbrev pub prepare : List Str → Str → Act
prepare options target =
    run (codes "xtrabackup" ∷ defaults_file ∷ options ++ (codes "--target-dir=" ++ target) ∷ [])

abbrev pub use_memory : List Str
use_memory = codes "--use-memory=3072M" ∷ codes "--prepare" ∷ []

abbrev pub use_memory_log_only : List Str
use_memory_log_only = codes "--use-memory=3072M" ∷ codes "--prepare" ∷ codes "--apply-log-only" ∷ []

abbrev pub copy_back : Str → Act
copy_back target = run (
    codes "xtrabackup"
    ∷ defaults_file
    ∷ (codes "--datadir=" ++ data_dir)
    ∷ codes "--copy-back"
    ∷ (codes "--target-dir=" ++ target)
    ∷ [])

abbrev pub remove_all : Str → Act
remove_all path = run (codes "rm" ∷ codes "-rf" ∷ path ∷ [])

-- `buildBinlogDir`
unfoldable pub build_binlog_dir : Str → Str
build_binlog_dir path = path ++ codes "bin/"

-- `path.Join(InitFileVolumeMountPath, buildBinlogDir(name))`, for a name that is a clean path:
-- `Join` takes the last slash away.
unfoldable pub binlog_path : Str → Str
binlog_path name = init_dir ++ b'/' ∷ name ++ codes "bin"

abbrev pub chown_message : Str
chown_message = codes "failed to chown -R mysql.mysql : "

-- The text of a result, which is empty with an error.
unfoldable pub text_of : Result Str → Str
text_of (ok text) = text
text_of (err e) = []

-- `GetXtrabackupGTIDPurged(dir)`
unfoldable pub gtid_of : Machine → State → Str → Result Str
unfolding get_xtrabackup_gtid_purged
gtid_of m s dir =
    get_xtrabackup_gtid_purged (m.read_file s.acts (dir ++ codes "/xtrabackup_binlog_info"))

-- The data directory, made where it is missing.
unfoldable pub ensure_data_dir : Machine → State → (State → Outcome) → Outcome
unfolding attempt
ensure_data_dir m s next =
    if m.exists s.acts data_dir
    then next s
    else attempt m (codes "create /var/lib/mysql fail : ") (mkdir_all data_dir) s (λ s.
      attempt m chown_message (run (codes "chown" ∷ codes "mysql.mysql" ∷ data_dir ∷ [])) s next)

-- The end of ExecuteNFSRestore.
unfoldable pub script_for : Config → Str → State → Result Str → Outcome
unfolding ignore binlog_path
script_for cfg gtid s (err e) = (s, some (codes "restore point parse error : " ++ e))
script_for cfg gtid s (ok point) =
    ignore (write_script (binlog_path cfg.x_restore_from) gtid point) s (λ s. (s, none))

-- The directory of the backup; `path.Join` gives the same for a clean name.
abbrev pub nfs_dir : Config → Str
nfs_dir cfg = codes "/backup/" ++ cfg.x_restore_from

-- The GTIDs are read, the binary logs of the backup are copied, and the script is written.
unfoldable pub nfs_binlogs : Machine → Config → State → Outcome
unfolding attempt script_for gtid_of text_of
nfs_binlogs m cfg s =
    let gtid = text_of (gtid_of m s (nfs_dir cfg)) in
    attempt m (codes "failed to copy binlog to docker-entrypoint-initdb.d : ")
      (run (codes "cp" ∷ codes "-rf" ∷ (nfs_dir cfg ++ codes "bin") ∷ init_dir ∷ [])) s
      (λ s.
        attempt m chown_message (chown_all init_dir) s
          (λ s. script_for cfg gtid s (m.parse_time cfg.restore_point)))

-- The backup is prepared, copied to the data directory and given to the user mysql.
unfoldable pub nfs_copy : Machine → Str → State → (State → Outcome) → Outcome
unfolding attempt
nfs_copy m backup_dir s next =
    attempt m (codes "failed to xtrabackup prepare append-only: ")
      (prepare use_memory_log_only backup_dir) s
      (λ s.
        attempt m (codes "failed to xtrabackup prepare: ") (prepare use_memory backup_dir) s (λ s.
          attempt m (codes "failed to xtrabackup copy-back: ") (copy_back backup_dir) s
            (λ s. attempt m chown_message (chown_all data_dir) s next)))

-- The steps of ExecuteNFSRestore behind its guards.
unfoldable pub nfs_steps : Machine → Config → State → Outcome
unfolding ensure_data_dir attempt nfs_copy nfs_binlogs
nfs_steps m cfg s = ensure_data_dir m s (λ s.
    attempt m (codes "failed to rm -rf /var/lib/mysql : ") (remove_all (data_dir ++ codes "/*")) s
      (λ s. nfs_copy m (nfs_dir cfg) s (nfs_binlogs m cfg)))

unfoldable pub execute_nfs_restore : Machine → Config → State → Outcome
unfolding nfs_steps
execute_nfs_restore m cfg s =
    if is_empty cfg.x_restore_from_nfs
    then (s, some (codes "parameter XRestoreFromNFS empty, do next step"))
    else if is_empty cfg.x_restore_from
    then (s, some (codes "xrestore from is empty, do next step"))
    else nfs_steps m cfg s
