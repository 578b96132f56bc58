-- ===== src/Cluster/Volumes/Names.antt =====
-- EnsureVolumes: the names of the volumes and claims of a pod differ from one another.
use radondb_mysql_kubernetes.Prelude.{
  ◌≡◌, refl, ap, subst, Bool, true, false, not, Option, none, some, List, [], ◌∷◌, ◌++◌, Str, codes,
  In, is_empty, append-nil, str_eq, arith, ◌&&◌,
}
use radondb_mysql_kubernetes.Cluster.Spec.{MysqlCluster}
use radondb_mysql_kubernetes.Utils.{string_in}
use radondb_mysql_kubernetes.Utils.Membership.{string_in_complete}
use radondb_mysql_kubernetes.Cluster.Volumes.{
  Volume, when, is_set, ensure_volumes, fixed_volumes, later_volumes, scratch, nfs_volume,
  tls_volumes, source_volumes, remote_volume, transparent_hugepage,
}

-- No member stands twice in the list.
abbrev pub NoRepeat {ℓ} : {A : Type ℓ} → List A → Type ℓ
NoRepeat [] = Unit
NoRepeat (x ∷ xs) = (¬ In x xs) × NoRepeat xs

abbrev pub volume_names : List Volume → List Str
volume_names [] = []
volume_names (v ∷ vs) = v.name ∷ volume_names vs

-- The first list is the second with members left out.
pub data Sublist {ℓ} {A : Type ℓ} : List A → List A → Type ℓ where
  done : Sublist [] []
  keep : {x : A} {xs ys : List A} → Sublist xs ys → Sublist (x ∷ xs) (x ∷ ys)
  skip : {y : A} {xs ys : List A} → Sublist xs ys → Sublist xs (y ∷ ys)

module _ {ℓ} {A : Type ℓ} where
  pub Sublist-In : {a : A} {xs ys : List A} → Sublist xs ys → In a xs → In a ys
  Sublist-In Sublist.done m = m
  Sublist-In (Sublist.keep s) (In.here e) = In.here e
  Sublist-In (Sublist.keep s) (In.there m) = In.there (Sublist-In s m)
  Sublist-In (Sublist.skip s) m = In.there (Sublist-In s m)

  pub Sublist-NoRepeat : {xs ys : List A} → Sublist xs ys → NoRepeat ys → NoRepeat xs
  Sublist-NoRepeat Sublist.done h = tt
  Sublist-NoRepeat (Sublist.keep s) h = (λ m. h.0 (Sublist-In s m), Sublist-NoRepeat s h.1)
  Sublist-NoRepeat (Sublist.skip s) h = Sublist-NoRepeat s h.1

  pub Sublist-append :
      {ws xs ys zs : List A} → Sublist ws xs → Sublist ys zs → Sublist (ws ++ ys) (xs ++ zs)
  Sublist-append Sublist.done t = t
  Sublist-append (Sublist.keep s) t = Sublist.keep (Sublist-append s t)
  Sublist-append (Sublist.skip s) t = Sublist.skip (Sublist-append s t)

  Sublist-nil : (xs : List A) → Sublist [] xs
  Sublist-nil [] = Sublist.done
  Sublist-nil (x ∷ xs) = Sublist.skip (Sublist-nil xs)

  Sublist-self : (xs : List A) → Sublist xs xs
  Sublist-self [] = Sublist.done
  Sublist-self (x ∷ xs) = Sublist.keep (Sublist-self xs)

pub volume_names-append :
    (vs ws : List Volume) → volume_names (vs ++ ws) ≡ volume_names vs ++ volume_names ws
volume_names-append [] ws = refl
volume_names-append (v ∷ vs) ws = ap (λ ns. v.name ∷ ns) (volume_names-append vs ws)

when_join :
    (b : Bool) (vs ws : List Volume) (ns ms : List Str)
    → volume_names vs ≡ ns
    → Sublist (volume_names ws) ms
    → Sublist (volume_names (when b vs ++ ws)) (ns ++ ms)
when_join true vs ws ns ms e s = rw (volume_names-append, e) (Sublist-append (Sublist-self ns) s)
when_join false vs ws ns ms e s = Sublist-append (Sublist-nil ns) s

-- A part whose names are kept as they are.
exact_join :
    (b : Bool) (vs ws : List Volume) (ns ms : List Str)
    → volume_names vs ≡ ns
    → Sublist (volume_names ws) ms
    → Sublist (volume_names (when b vs ++ ws)) (when b ns ++ ms)
exact_join true vs ws ns ms e s = rw (volume_names-append, e) (Sublist-append (Sublist-self ns) s)
exact_join false vs ws ns ms e s = s

abbrev pub later_names : List Str
later_names =
    codes "backup"
    ∷ codes "tls-sidecar"
    ∷ codes "tls"
    ∷ codes "mysql-checker"
    ∷ codes "rsrc"
    ∷ codes "remote-cluster-cm"
    ∷ []

abbrev pub fixed_names : List Str
fixed_names =
    codes "mysql-conf"
    ∷ codes "mysql-cm"
    ∷ codes "xenon-cm"
    ∷ codes "xenon-meta"
    ∷ codes "scripts"
    ∷ codes "xenon-conf"
    ∷ codes "init-mysql"
    ∷ codes "localtime"
    ∷ []

source_join :
    (o : Option Str) (ws : List Volume) (ms : List Str)
    → Sublist (volume_names ws) ms
    → Sublist (volume_names (source_volumes o ++ ws)) (codes "rsrc" ∷ ms)
unfolding source_volumes
source_join none ws ms s = Sublist.skip s
source_join (some name) ws ms s = Sublist.keep s

later_volumes-Sublist : (c : MysqlCluster) → Sublist (volume_names (later_volumes c)) later_names
unfolding later_volumes nfs_volume tls_volumes scratch remote_volume
later_volumes-Sublist c =
    when_join (not (is_empty c.nfs_server_address)) (nfs_volume c.nfs_server_address ∷ []) _
      (codes "backup" ∷ []) _ refl
      (when_join (not (is_empty c.tls_secret_name)) (tls_volumes c.tls_secret_name) _
        (codes "tls-sidecar" ∷ codes "tls" ∷ []) _ refl
        (Sublist.keep (
          source_join c.source_config _ _ (
            subst (λ vs. Sublist (volume_names vs) (codes "remote-cluster-cm" ∷ [])) (append-nil _)
              (when_join (is_set c.remote_cluster) (remote_volume c ∷ []) []
                (codes "remote-cluster-cm" ∷ []) [] refl Sublist.done)))))

-- The names of the volumes, of which only some of the optional ones may be missing.
abbrev pub all_names : Bool → Bool → List Str
all_names nd nl =
    when nd (codes "data" ∷ [])
    ++ (codes "host-sys" ∷ (when nl (codes "logs" ∷ []) ++ (fixed_names ++ later_names)))

pub ensure_volumes-Sublist :
    (c : MysqlCluster)
    → Sublist
        (volume_names (ensure_volumes c))
        (all_names (not c.persistence.enabled) (not (is_set c.mysql_opts.logfile_pvc)))
unfolding ensure_volumes fixed_volumes scratch transparent_hugepage
ensure_volumes-Sublist c =
    exact_join (not c.persistence.enabled) (scratch (codes "data") ∷ []) _ (codes "data" ∷ []) _
      refl
      (when_join c.mysql_opts.init_toku_db (transparent_hugepage ∷ []) _ (codes "host-sys" ∷ []) _
        refl
        (exact_join (not (is_set c.mysql_opts.logfile_pvc)) (scratch (codes "logs") ∷ []) _
          (codes "logs" ∷ []) _ refl
          (when_join true (fixed_volumes c) _ fixed_names _ refl (later_volumes-Sublist c))))

distinct : List Str → Bool
unfolding string_in
distinct [] = true
distinct (x ∷ xs) = not (string_in x xs 0).1 && distinct xs

distinct-NoRepeat : (xs : List Str) → distinct xs ≡ true → NoRepeat xs
unfolding distinct
distinct-NoRepeat [] h = tt
distinct-NoRepeat (x ∷ xs) h =
    let (first, rest) = both (string_in x xs 0).1 (distinct xs) h in
    (λ m. cc (string_in_complete 0 m), distinct-NoRepeat xs rest)
  where
    both : (a b : Bool) → (not a && b) ≡ true → (a ≡ false) × (b ≡ true)
    both a b h = ground arith

all_names-NoRepeat : (nd nl : Bool) → NoRepeat (all_names nd nl)
unfolding distinct string_in str_eq
all_names-NoRepeat true true = distinct-NoRepeat (all_names true true) refl
all_names-NoRepeat true false = distinct-NoRepeat (all_names true false) refl
all_names-NoRepeat false true = distinct-NoRepeat (all_names false true) refl
all_names-NoRepeat false false = distinct-NoRepeat (all_names false false) refl

-- No two volumes of a pod have one name.
pub ensure_volumes-NoRepeat : (c : MysqlCluster) → NoRepeat (volume_names (ensure_volumes c))
ensure_volumes-NoRepeat c =
    Sublist-NoRepeat (ensure_volumes-Sublist c)
      (all_names-NoRepeat (not c.persistence.enabled) (not (is_set c.mysql_opts.logfile_pvc)))
