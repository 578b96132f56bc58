-- ===== src/Sidecar/Done.antt =====
-- ExecuteNFSRestore of sidecar/config.go, as one row of acts.
use radondb_mysql_kubernetes.Prelude.{
  ◌≡◌, refl, sym, ◌∙◌, Bool, true, false, Option, none, some, List, [], ◌∷◌, ◌++◌, append_assoc,
  Str, Result, ok, err, Error, codes, is_empty, if◌then◌else◌,
}
use radondb_mysql_kubernetes.Sidecar.{Config}
use radondb_mysql_kubernetes.Sidecar.Restore.{
  Act, mkdir_all, run, write_script, Machine, State, Outcome, add_act, settle, attempt, script_for,
  ensure_data_dir, nfs_steps, nfs_dir, nfs_copy, nfs_binlogs, execute_nfs_restore, data_dir,
  init_dir, remove_all, prepare, use_memory, use_memory_log_only, copy_back, chown_all, binlog_path,
}

-- The data directory is made, if it is missing.
abbrev data_dir_acts : Bool → List Act
data_dir_acts exists =
    if exists
    then []
    else mkdir_all data_dir ∷ run (codes "chown" ∷ codes "mysql.mysql" ∷ data_dir ∷ []) ∷ []

-- The backup is prepared twice and copied, and the owners are set.
abbrev copy_acts : Str → List Act
copy_acts backup_dir =
    prepare use_memory_log_only backup_dir
    ∷ prepare use_memory backup_dir
    ∷ copy_back backup_dir
    ∷ chown_all data_dir
    ∷ []

abbrev binlog_acts : Str → List Act
binlog_acts backup_dir =
    run (codes "cp" ∷ codes "-rf" ∷ (backup_dir ++ codes "bin") ∷ init_dir ∷ [])
    ∷ chown_all init_dir
    ∷ []

-- The acts of a restore from NFS, up to the script.
pub nfs_acts : Config → Bool → List Act
nfs_acts cfg exists =
    data_dir_acts exists
    ++ (remove_all (data_dir ++ codes "/*")
        ∷ (copy_acts (nfs_dir cfg) ++ binlog_acts (nfs_dir cfg)))

-- The acts of an outcome are those before it, the given ones and a script for the restore point,
-- which is a time.
pub Ends : Machine → Config → List Act → State → Outcome → Type 0
Ends m cfg acts s o =
    (script : Str × Str) × (m.parse_time cfg.restore_point ≡ ok script.1)
    × (o.0.acts
        ≡ s.acts ++ (acts ++ write_script (binlog_path cfg.x_restore_from) script.0 script.1 ∷ []))

Finishes : Machine → Config → List Act → State → Outcome → Type 0
unfolding Ends
Finishes m cfg acts s o = o.1 ≡ none → Ends m cfg acts s o

module _ (m : Machine) (cfg : Config) where
  settle-Finishes :
      (error : Option Error) (message : Str) (act : Act) (acts : List Act) (s : State)
      (next : State → Outcome)
      → Finishes m cfg acts (add_act s act) (next (add_act s act))
      → Finishes m cfg (act ∷ acts) s (settle error message (add_act s act) next)
  unfolding settle add_act Finishes
  settle-Finishes (some e) message act acts s next h = λ g. cc
  settle-Finishes none message act acts s next h =
      λ g. ((h g).0, (h g).1, (h g).2 ∙ append_assoc s.acts (act ∷ []) _)

  attempt-Finishes :
      (message : Str) (act : Act) (acts : List Act) (s : State) (next : State → Outcome)
      → ((s : State) → Finishes m cfg acts s (next s))
      → Finishes m cfg (act ∷ acts) s (attempt m message act s next)
  unfolding attempt
  attempt-Finishes message act acts s next h =
      settle-Finishes (m.fails s.acts act) message act acts s next (h (add_act s act))

  script_for-Finishes :
      (gtid : Str) (s : State) (r : Result Str)
      → r ≡ m.parse_time cfg.restore_point
      → Finishes m cfg [] s (script_for cfg gtid s r)
  unfolding script_for Finishes
  script_for-Finishes gtid s (err e) h = λ g. cc
  script_for-Finishes gtid s (ok point) h = λ g. ((gtid, point), sym h, refl)

  ensure_data_dir-Finishes :
      (exists : Bool) (acts : List Act) (s : State) (next : State → Outcome)
      → ((s : State) → Finishes m cfg acts s (next s))
      → m.exists s.acts data_dir ≡ exists
      → Finishes m cfg (data_dir_acts exists ++ acts) s (ensure_data_dir m s next)
  unfolding ensure_data_dir
  ensure_data_dir-Finishes true acts s next h e = rw e (h s)
  ensure_data_dir-Finishes false acts s next h e =
      rw e (attempt-Finishes _ _ _ s _ (λ s. attempt-Finishes _ _ _ s _ h))

  nfs_binlogs-Finishes :
      (s : State) → Finishes m cfg (binlog_acts (nfs_dir cfg)) s (nfs_binlogs m cfg s)
  unfolding nfs_binlogs
  nfs_binlogs-Finishes s = attempt-Finishes _ _ _ s _ (λ s.
      attempt-Finishes _ _ _ s _
        (λ s. script_for-Finishes _ s (m.parse_time cfg.restore_point) refl))

  nfs_copy-Finishes :
      (backup_dir : Str) (acts : List Act) (s : State) (next : State → Outcome)
      → ((s : State) → Finishes m cfg acts s (next s))
      → Finishes m cfg (copy_acts backup_dir ++ acts) s (nfs_copy m backup_dir s next)
  unfolding nfs_copy
  nfs_copy-Finishes backup_dir acts s next h = attempt-Finishes _ _ _ s _ (λ s.
      attempt-Finishes _ _ _ s _
        (λ s. attempt-Finishes _ _ _ s _ (λ s. attempt-Finishes _ _ _ s _ h)))

  nfs_steps-Finishes :
      (s : State) → Finishes m cfg (nfs_acts cfg (m.exists s.acts data_dir)) s (nfs_steps m cfg s)
  unfolding nfs_steps nfs_acts
  nfs_steps-Finishes s =
      ensure_data_dir-Finishes (m.exists s.acts data_dir) _ s _
        (λ s. attempt-Finishes _ _ _ s _ (λ s. nfs_copy-Finishes _ _ s _ nfs_binlogs-Finishes)) refl

  guard-Finishes :
      (b : Bool) (message : Error) (acts : List Act) (s : State) (o : Outcome)
      → Finishes m cfg acts s o
      → Finishes m cfg acts s (if b then (s, some message) else o)
  unfolding Finishes
  guard-Finishes true message acts s o h = λ g. cc
  guard-Finishes false message acts s o h = h

-- When ExecuteNFSRestore ends without an error, the restore point is a time, and its acts are, in
-- this order: the data directory made where it was missing, the command rm -rf with the argument
-- /var/lib/mysql/*, which no shell expands, the backup prepared twice and copied back, the owners
-- set, the binary logs copied and their owners set, and the script written.
pub execute_nfs_restore-Ends :
    (m : Machine) (cfg : Config) (s : State)
    → (execute_nfs_restore m cfg s).1 ≡ none
    → Ends m cfg (nfs_acts cfg (m.exists s.acts data_dir)) s (execute_nfs_restore m cfg s)
unfolding execute_nfs_restore Finishes
execute_nfs_restore-Ends m cfg s =
    guard-Finishes m cfg (is_empty cfg.x_restore_from_nfs) _ _ s _
      (guard-Finishes m cfg (is_empty cfg.x_restore_from) _ _ s _ (nfs_steps-Finishes m cfg s))
