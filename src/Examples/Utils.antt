-- ===== src/Examples/Utils.antt =====
-- utils/common.go at concrete inputs.
use radondb_mysql_kubernetes.Prelude.{
  ◌≡◌, refl, true, List, [], ◌∷◌, Str, codes, pos, ok, after_last, atoi, str_eq,
}
use radondb_mysql_kubernetes.Utils.{get_ordinal, string_in_array, str_less}

ordinal_of_signed_name : get_ordinal (codes "pod-+7") ≡ ok (pos 7)
unfolding get_ordinal after_last atoi
ordinal_of_signed_name = refl

abbrev users : List Str
users = codes "root" ∷ codes "admin" ∷ codes "monitor" ∷ []

admin_is_listed : string_in_array (codes "admin") users ≡ true
unfolding string_in_array str_less str_eq
admin_is_listed = refl
