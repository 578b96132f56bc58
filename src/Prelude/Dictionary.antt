-- ===== src/Prelude/Dictionary.antt =====
-- Go's `map[string]string` as an association list: labels, annotations, configuration.
use mathlib.Core.Path.{◌≡◌, refl}
use mathlib.Core.Bool.{false}
use mathlib.Core.Option.{Option, none, some}
use mathlib.Core.List.{List, [], ◌∷◌}
use native.Mathlib.Omega.{arith}
use radondb_mysql_kubernetes.Prelude.Tests.{if◌then◌else◌}
use radondb_mysql_kubernetes.Prelude.Text.{Str, str_eq, str_eq_iff, str_eq_refl}

abbrev pub Labels : Type 0
Labels = List (Str × Str)

-- `v, ok := m[k]`
unfoldable pub find_label : Str → Labels → Option Str
find_label k [] = none
find_label k ((j, v) ∷ m) = if str_eq j k then some v else find_label k m

value_or_empty : Option Str → Str
value_or_empty none = []
value_or_empty (some v) = v

-- `m[k]`, the empty string where the key is missing.
unfoldable pub label : Labels → Str → Str
unfolding value_or_empty
label m k = value_or_empty (find_label k m)

-- `m[k] = v`
unfoldable pub put_label : Str → Str → Labels → Labels
put_label k v [] = (k, v) ∷ []
put_label k v ((j, w) ∷ m) = if str_eq j k then (k, v) ∷ m else (j, w) ∷ put_label k v m

-- `delete(m, k)`
unfoldable pub remove_label : Str → Labels → Labels
remove_label k [] = []
remove_label k ((j, w) ∷ m) =
    let rest = remove_label k m in if str_eq j k then rest else (j, w) ∷ rest

pub find_label-put_label :
    (k j v : Str) (m : Labels)
    → find_label j (put_label k v m) ≡ (if str_eq k j then some v else find_label j m)
unfolding find_label put_label
find_label-put_label k j v [] = refl
find_label-put_label k j v ((i, w) ∷ m) =
    ground (arith, str_eq_iff k j, str_eq_iff i k, str_eq_iff i j, find_label-put_label k j v m)

pub label-put_label_self : (k v : Str) (m : Labels) → label (put_label k v m) k ≡ v
unfolding label
label-put_label_self k v m = rw (find_label-put_label, str_eq_refl k, value_or_empty)

pub label-put_label_ne :
    (k j v : Str) (m : Labels) → str_eq k j ≡ false → label (put_label k v m) j ≡ label m j
unfolding label
label-put_label_ne k j v m h = rw (find_label-put_label, h)
