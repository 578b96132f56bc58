-- ===== src/Utils.antt =====
-- utils/common.go: the helpers that the other packages call.
pub mod Ordinal
pub mod Membership
pub mod Order
use radondb_mysql_kubernetes.Prelude.{
  ℕ, ◌+◌, ℤ, Bool, true, false, ◌&&◌, Option, none, some, List, [], ◌∷◌, ◌++◌, Str, Result, ok, err,
  codes, ltb, if◌then◌else◌, str_eq, after_last, atoi, get_elem?, length,
}

-- `Min` and `Max` of uint64.
unfoldable pub min : ℕ → ℕ → ℕ
min a b = if ltb a b then a else b

unfoldable pub max : ℕ → ℕ → ℕ
max a b = if ltb b a then a else b

-- The number behind the last dash of a pod's or a volume claim's name.
ordinal_of : Str → Option Str → Result ℤ
ordinal_of name none = err (codes "failed to extract ordinal from name: " ++ name)
ordinal_of name (some digits) = elim (atoi digits) [
  | none ↦ err (codes "failed to extract ordinal from name: " ++ name)
  | some ordinal ↦ ok ordinal
]

unfoldable pub get_ordinal : Str → Result ℤ
unfolding ordinal_of
get_ordinal name = ordinal_of name (after_last b'-' name)

-- `stringIn`: the first position of a string, and whether there is one.
unfoldable pub string_in : Str → List Str → ℕ → ℕ × Bool
string_in str [] i = (0, false)
string_in str (s ∷ strs) i = if str_eq s str then (i, true) else string_in str strs (i + 1)

-- `StringDiffIn`: the strings of `actual` that are not in `desired`, in their order.
unfoldable pub string_diff_in : List Str → List Str → List Str
unfolding string_in
string_diff_in [] desired = []
string_diff_in (a_str ∷ actual) desired =
    let diff = string_diff_in actual desired in
    if (string_in a_str desired 0).1 then diff else a_str ∷ diff

-- Bytewise order of strings, by which `sort.Strings` sorts.
unfoldable pub str_less : Str → Str → Bool
str_less [] [] = false
str_less [] (y ∷ t) = true
str_less (x ∷ s) [] = false
str_less (x ∷ s) (y ∷ t) =
    let rest = str_less s t in if ltb x y then true else if ltb y x then false else rest

-- `sort.Strings`: the sorted permutation, which is unique, since the order is total.
insert_sorted : Str → List Str → List Str
insert_sorted a [] = a ∷ []
insert_sorted a (s ∷ strs) = elim (str_less s a) [
  | true ↦ s ∷ insert_sorted a strs
  | false ↦ a ∷ s ∷ strs
]

unfoldable pub sort_strings : List Str → List Str
unfolding insert_sorted
sort_strings [] = []
sort_strings (s ∷ strs) = insert_sorted s (sort_strings strs)

-- `sort.SearchStrings`: the least index whose string is not below the sought one. On a sorted
-- slice the binary search of the library and this scan agree.
unfoldable pub search_strings : List Str → Str → ℕ
search_strings [] str = 0
search_strings (s ∷ strs) str =
    let rest = search_strings strs str in if str_less s str then rest + 1 else 0

-- `strArray[index] == str`, for an index that may be past the end.
holds_at : Option Str → Str → Bool
holds_at none str = false
holds_at (some s) str = str_eq s str

-- `StringInArray`: sorts the slice, then looks the string up by binary search.
unfoldable pub string_in_array : Str → List Str → Bool
unfolding sort_strings search_strings holds_at
string_in_array str str_array =
    let sorted = sort_strings str_array in
    let index = search_strings sorted str in
    ltb index (length sorted) && holds_at (get_elem? sorted index) str
