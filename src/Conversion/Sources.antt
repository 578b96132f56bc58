-- ===== src/Conversion/Sources.antt =====
-- What a data source keeps on its way from v1beta1 to v1alpha1 and back.
use radondb_mysql_kubernetes.Prelude.{
  ◌≡◌, refl, Bool, true, false, not, ◌&&◌, ◌||◌, Option, none, some, [], ◌∷◌, ◌++◌, Str, is_empty,
  split-append, split-Lacks, Lacks, if◌then◌else◌,
}
use radondb_mysql_kubernetes.Kube.Batch.{Nfs}
use radondb_mysql_kubernetes.Conversion.{
  S3Source, NfsSource, DataSource, nfs_address, nfs_of, source_to_alpha, source_to_beta,
}

-- The server and the path have no colon.
abbrev pub NoColon : Option NfsSource → Type 0
NoColon none = Unit
NoColon (some nfs) = Lacks 58 nfs.volume.server × Lacks 58 nfs.volume.path

-- The S3 backup of the data source: it has a name and a secret.
abbrev pub uses_s3 : S3Source → Bool
uses_s3 s3 = not (is_empty s3.name) && not (is_empty s3.secret_name)

abbrev pub is_some {ℓ} : {A : Type ℓ} → Option A → Bool
is_some none = false
is_some (some a) = true

-- A backup on NFS is kept, but for its volume being read-only.
abbrev pub kept_nfs : Option NfsSource → Option NfsSource
kept_nfs none = none
kept_nfs (some nfs) = some (record nfs { read_only = false })

-- What is kept: an S3 backup without a name or without a secret is lost; beside a backup on NFS it
-- takes that one's name; the restore point is kept where one of the two is.
abbrev pub kept_source : {Part : Type 0} → DataSource Part → DataSource Part
kept_source d = record {
  source_config = d.source_config;
  remote_cluster = d.remote_cluster;
  s3_backup =
      if uses_s3 d.s3_backup
      then record {
        name = elim d.nfs_backup [ some nfs ↦ nfs.name | none ↦ d.s3_backup.name ];
        secret_name = d.s3_backup.secret_name;
      }
      else record { name = []; secret_name = [] };
  nfs_backup = kept_nfs d.nfs_backup;
  restore_point = if uses_s3 d.s3_backup || is_some d.nfs_backup then d.restore_point else [];
}

address_not_empty : (server path : Str) → is_empty (server ++ 58 ∷ path) ≡ false
unfolding is_empty
address_not_empty [] path = refl
address_not_empty (x ∷ server) path = refl

nfs_address_not_empty : (v : Nfs) → is_empty (nfs_address v) ≡ false
unfolding nfs_address
nfs_address_not_empty v = address_not_empty v.server v.path

nfs_of-nfs_address :
    (name : Str) (v : Nfs)
    → Lacks 58 v.server
    → Lacks 58 v.path
    → nfs_of name (nfs_address v) ≡ some (record { name = name; volume = v; read_only = false })
unfolding nfs_of nfs_address
nfs_of-nfs_address name v s p =
    rw (
      address_not_empty v.server v.path,
      split-append 58 v.server v.path s,
      split-Lacks 58 v.path p,
    )

module _ {Part : Type 0} (config cluster : Option Part) (point : Str) where
  abbrev source : Str → Str → Option NfsSource → DataSource Part
  source name secret nfs = record {
    source_config = config;
    remote_cluster = cluster;
    s3_backup = record { name = name; secret_name = secret };
    nfs_backup = nfs;
    restore_point = point;
  }

  source_trip :
      (name secret : Str) (nfs : Option NfsSource)
      → NoColon nfs
      → source_to_beta (source_to_alpha (source name secret nfs))
        ≡ kept_source (source name secret nfs)
  unfolding source_to_beta source_to_alpha is_empty
  source_trip [] secret none h = refl
  source_trip (x ∷ name) [] none h = refl
  source_trip (x ∷ name) (y ∷ secret) none h = refl
  source_trip [] secret (some nfs) h =
      rw (nfs_of-nfs_address nfs.name nfs.volume h.0 h.1, nfs_address_not_empty nfs.volume)
  source_trip (x ∷ name) [] (some nfs) h =
      rw (nfs_of-nfs_address nfs.name nfs.volume h.0 h.1, nfs_address_not_empty nfs.volume)
  source_trip (x ∷ name) (y ∷ secret) (some nfs) h =
      rw (nfs_of-nfs_address nfs.name nfs.volume h.0 h.1, nfs_address_not_empty nfs.volume)

-- A data source whose NFS server and path have no colon keeps, on its way from v1beta1 to v1alpha1 and
-- back, just what `kept_source` says.
pub source_to_beta-source_to_alpha :
    {Part : Type 0} (d : DataSource Part)
    → NoColon d.nfs_backup
    → source_to_beta (source_to_alpha d) ≡ kept_source d
source_to_beta-source_to_alpha d h =
    source_trip d.source_config d.remote_cluster d.restore_point d.s3_backup.name
      d.s3_backup.secret_name d.nfs_backup h
