-- ===== src/Webhook/Nfs.antt =====
-- mysqlcluster_webhook.go: the NFS addresses that validateNFSServerAddress accepts.
use radondb_mysql_kubernetes.Prelude.{
  is_empty_iff, ℕ, ◌≡◌, ◌≢◌, ◌↔◌, ◌⊎◌, inl, inr, refl, ap, ◌∙◌, true, false, Bool-cases, none, [],
  ◌∷◌, ◌++◌, Str, length, ◌==◌, split, split_go, split-append, Lacks, arith,
}
use radondb_mysql_kubernetes.Cluster.Spec.{MysqlCluster}
use radondb_mysql_kubernetes.Webhook.{Outside, is_ip, first_part, validate_nfs_server_address}

split_go-length : (c : ℕ) (cur s : Str) → (length (split_go c cur s) == 0) ≡ false
unfolding split_go
split_go-length c cur [] = refl
split_go-length c cur (x ∷ s) = elim (Bool-cases (x == c)) [
  | inl e ↦ rw (e, split_go) (ground arith)
  | inr e ↦ rw (e, split_go) (split_go-length c (cur ++ x ∷ []) s)
]

split-length : (c : ℕ) (s : Str) → (length (split s c) == 0) ≡ false
unfolding split
split-length c s = split_go-length c [] s

no_address : is_ip (first_part (split [] b':')) ≡ false
unfolding is_ip first_part split split_go
no_address = refl

module _ {Quantity : Type 0} (o : Outside Quantity) (c : MysqlCluster) where
  -- The address is an IP up to its first colon, or there is none, and then scheduled backups have
  -- a secret.
  abbrev pub NfsFits : Type 0
  NfsFits =
      (is_ip (first_part (split c.nfs_server_address b':')) ≡ true)
      ⊎ ((c.nfs_server_address ≡ []) × ((c.backup_schedule ≡ []) ⊎ (c.backup_secret_name ≢ [])))

  pub validate_nfs_server_address_iff : (validate_nfs_server_address o c ≡ none) ↔ NfsFits
  unfolding validate_nfs_server_address
  validate_nfs_server_address_iff = ground (
    arith,
    split-length b':' c.nfs_server_address,
    is_empty_iff c.nfs_server_address,
    is_empty_iff c.backup_schedule,
    is_empty_iff c.backup_secret_name,
  )

-- An address of the documented form, IP:/PATH, is accepted if the IP is one.
pub validate_nfs_server_address_documented :
    {Quantity : Type 0} (o : Outside Quantity) (c : MysqlCluster) (ip path : Str)
    → Lacks b':' ip
    → is_ip ip ≡ true
    → c.nfs_server_address ≡ ip ++ b':' ∷ path
    → validate_nfs_server_address o c ≡ none
unfolding first_part
validate_nfs_server_address_documented o c ip path clean valid e =
    (validate_nfs_server_address_iff o c).1
      (inl (ap (λ s. is_ip (first_part (split s b':'))) e ∙ cut ∙ valid))
  where
    cut : is_ip (first_part (split (ip ++ b':' ∷ path) b':')) ≡ is_ip ip
    cut = rw (split-append b':' ip path clean, first_part)
