-- ===== src/Examples/Volumes.antt =====
-- Volumes and volume claims at concrete inputs.
use radondb_mysql_kubernetes.Prelude.{◌≡◌, refl, true, none, [], ◌∷◌, codes, split}
use radondb_mysql_kubernetes.Cluster.Volumes.{
  Claim, ensure_volumes, ensure_volume_claim_templates, parse_ip_and_path,
}
use radondb_mysql_kubernetes.Cluster.{get_labels}
use radondb_mysql_kubernetes.Cluster.Volumes.Names.{NoRepeat, volume_names, ensure_volumes-NoRepeat}
use radondb_mysql_kubernetes.Cluster.Volumes.Provided.{OnePlace, one_place}
use radondb_mysql_kubernetes.Examples.Cluster.{sample}

nfs_parts :
    parse_ip_and_path (codes "10.233.55.172:/backup") ≡ (codes "10.233.55.172", codes "/backup")
unfolding parse_ip_and_path split
nfs_parts = refl

ensure_volumes-NoRepeat_example : NoRepeat (volume_names (ensure_volumes sample))
ensure_volumes-NoRepeat_example = ensure_volumes-NoRepeat sample

abbrev data_claim : Claim
data_claim = record {
  name = codes "data";
  namespace = codes "default";
  labels = get_labels sample;
  access_modes = codes "ReadWriteOnce" ∷ [];
  storage = codes "20Gi";
  storage_class = none;
}

one_place_example :
    OnePlace (codes "data") (ensure_volumes sample) (data_claim ∷ [])
    × OnePlace (codes "logs") (ensure_volumes sample) (data_claim ∷ [])
unfolding ensure_volume_claim_templates
one_place_example = one_place (λ s. true) (λ name. none) sample (data_claim ∷ []) refl
