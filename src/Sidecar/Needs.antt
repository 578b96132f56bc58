-- ===== src/Sidecar/Needs.antt =====
-- What the restores of sidecar/config.go need to end without an error.
use radondb_mysql_kubernetes.Prelude.{◌≡◌, none}
use radondb_mysql_kubernetes.Sidecar.Restore.{Outcome}

-- An outcome with an error.
Fails : Outcome → Type 0
Fails o = ¬ (o.1 ≡ none)
