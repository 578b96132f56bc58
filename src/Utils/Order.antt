-- ===== src/Utils/Order.antt =====
-- StringInArray of utils/common.go: sorting and searching decides membership.
use radondb_mysql_kubernetes.Prelude.{
  ℕ, ◌+◌, ◌≡◌, ◌↔◌, ◌⊎◌, inl, inr, refl, sym, ◌∙◌, Bool, true, false, ◌&&◌, List, [], ◌∷◌, Str,
  arith, ltb, str_eq, str_eq_iff, str_eq_sound, str_eq_refl, Bool-cases, length, get_elem?, In,
  In-cons_cases, All,
}
use radondb_mysql_kubernetes.Utils.{
  str_less, insert_sorted, sort_strings, search_strings, string_in_array, holds_at,
}

str_less_asymm : (s t : Str) → str_less s t ≡ true → str_less t s ≡ false
unfolding str_less
str_less_asymm [] [] h = refl
str_less_asymm [] (y ∷ t) h = refl
str_less_asymm (x ∷ s) [] h = cc
str_less_asymm (x ∷ s) (y ∷ t) h = ground (arith, str_less_asymm s t)

str_less_connected : (s t : Str) → str_less s t ≡ false → str_less t s ≡ false → s ≡ t
unfolding str_less
str_less_connected [] [] h k = refl
str_less_connected [] (y ∷ t) h k = cc
str_less_connected (x ∷ s) [] h k = cc
str_less_connected (x ∷ s) (y ∷ t) h k = ground (arith, str_less_connected s t)

-- "Not below" is transitive.
str_less-false_trans :
    (y s a : Str) → str_less y s ≡ false → str_less s a ≡ false → str_less y a ≡ false
unfolding str_less
str_less-false_trans [] [] a h k = k
str_less-false_trans [] (c ∷ s) a h k = cc
str_less-false_trans (b ∷ y) s [] h k = refl
str_less-false_trans (b ∷ y) [] (d ∷ a) h k = cc
str_less-false_trans (b ∷ y) (c ∷ s) (d ∷ a) h k = ground (arith, str_less-false_trans y s a)

-- No later string is below an earlier one.
abbrev IsSorted : List Str → Type 0
IsSorted [] = Unit
IsSorted (s ∷ strs) = All (λ y. str_less y s ≡ false) strs × IsSorted strs

insert_sorted-All :
    (s a : Str) (strs : List Str)
    → str_less a s ≡ false
    → All (λ y. str_less y s ≡ false) strs
    → All (λ y. str_less y s ≡ false) (insert_sorted a strs)
unfolding insert_sorted
insert_sorted-All s a [] h k = (h, tt)
insert_sorted-All s a (x ∷ strs) h k = elim (Bool-cases (str_less x a)) [
  | inl lt ↦ rw (lt, All, insert_sorted) (k.0, insert_sorted-All s a strs h k.1)
  | inr ge ↦ rw (ge, All, insert_sorted) (h, k)
]

All-below :
    (s a : Str) (strs : List Str)
    → str_less s a ≡ false
    → All (λ y. str_less y s ≡ false) strs
    → All (λ y. str_less y a ≡ false) strs
All-below s a [] h k = tt
All-below s a (x ∷ strs) h k = (str_less-false_trans x s a k.0 h, All-below s a strs h k.1)

insert_sorted-IsSorted :
    (a : Str) (strs : List Str) → IsSorted strs → IsSorted (insert_sorted a strs)
unfolding insert_sorted
insert_sorted-IsSorted a [] h = (tt, tt)
insert_sorted-IsSorted a (s ∷ strs) h = elim (Bool-cases (str_less s a)) [
  | inl lt ↦
      rw (lt, IsSorted, insert_sorted)
        (insert_sorted-All s a strs (str_less_asymm s a lt) h.0, insert_sorted-IsSorted a strs h.1)
  | inr ge ↦ rw (ge, IsSorted, insert_sorted) ((ge, All-below s a strs ge h.0), h)
]

sort_strings-IsSorted : (strs : List Str) → IsSorted (sort_strings strs)
unfolding sort_strings
sort_strings-IsSorted [] = tt
sort_strings-IsSorted (s ∷ strs) =
    insert_sorted-IsSorted s (sort_strings strs) (sort_strings-IsSorted strs)

In-insert_sorted_self : (a : Str) (strs : List Str) → In a (insert_sorted a strs)
unfolding insert_sorted
In-insert_sorted_self a [] = In.here refl
In-insert_sorted_self a (s ∷ strs) = elim (Bool-cases (str_less s a)) [
  | inl lt ↦ rw (lt, insert_sorted) (In.there (In-insert_sorted_self a strs))
  | inr ge ↦ rw (ge, insert_sorted) (In.here refl)
]

In-insert_sorted : {b : Str} (a : Str) {strs : List Str} → In b strs → In b (insert_sorted a strs)
unfolding insert_sorted
In-insert_sorted a (In.here {x = s} e) = elim (Bool-cases (str_less s a)) [
  | inl lt ↦ rw (lt, insert_sorted) (In.here e)
  | inr ge ↦ rw (ge, insert_sorted) (In.there (In.here e))
]
In-insert_sorted a (In.there {x = s} m) = elim (Bool-cases (str_less s a)) [
  | inl lt ↦ rw (lt, insert_sorted) (In.there (In-insert_sorted a m))
  | inr ge ↦ rw (ge, insert_sorted) (In.there (In.there m))
]

insert_sorted-In : (b a : Str) (strs : List Str) → In b (insert_sorted a strs) → (a ≡ b) ⊎ In b strs
unfolding insert_sorted
insert_sorted-In b a [] m = In-cons_cases m
insert_sorted-In b a (s ∷ strs) m = elim (Bool-cases (str_less s a)) [
  | inl lt ↦ elim (In-cons_cases (rw (lt, insert_sorted) at m)) [
    | inl e ↦ inr (In.here e)
    | inr n ↦ elim (insert_sorted-In b a strs n) [ inl e ↦ inl e | inr k ↦ inr (In.there k) ]
  ]
  | inr ge ↦ In-cons_cases (rw (ge, insert_sorted) at m)
]

In-sort_strings : {b : Str} {strs : List Str} → In b strs → In b (sort_strings strs)
unfolding sort_strings
In-sort_strings (In.here {x = s} {xs = strs} e) = rw e (In-insert_sorted_self _ (sort_strings strs))
In-sort_strings (In.there {x = s} m) = In-insert_sorted s (In-sort_strings m)

sort_strings-In : (b : Str) (strs : List Str) → In b (sort_strings strs) → In b strs
unfolding sort_strings
sort_strings-In b [] m = m
sort_strings-In b (s ∷ strs) m = elim (insert_sorted-In b s (sort_strings strs) m) [
  | inl e ↦ In.here e
  | inr n ↦ In.there (sort_strings-In b strs n)
]

-- Whether the string at the searched position is the sought one.
abbrev found : List Str → Str → Bool
found sorted str =
    let index = search_strings sorted str in
    ltb index (length sorted) && holds_at (get_elem? sorted index) str

found_head :
    (s str : Str) (strs : List Str) → str_less s str ≡ false → found (s ∷ strs) str ≡ str_eq s str
unfolding search_strings holds_at
found_head s str strs h = rw h (ground arith)

found_tail :
    (s str : Str) (strs : List Str) → str_less s str ≡ true → found (s ∷ strs) str ≡ found strs str
unfolding search_strings
found_tail s str strs h = rw h (shift (search_strings strs str))
  where
    shift :
        (i : ℕ)
        → (ltb (i + 1) (length (s ∷ strs)) && holds_at (get_elem? (s ∷ strs) (i + 1)) str)
          ≡ (ltb i (length strs) && holds_at (get_elem? strs i) str)
    shift i = ground arith

found_sound : (str : Str) (strs : List Str) → found strs str ≡ true → In str strs
unfolding search_strings holds_at
found_sound str [] h = cc
found_sound str (s ∷ strs) h = elim (Bool-cases (str_less s str)) [
  | inl lt ↦ In.there (found_sound str strs (sym (found_tail s str strs lt) ∙ h))
  | inr ge ↦ In.here (str_eq_sound s str (sym (found_head s str strs ge) ∙ h))
]

All-In :
    (b s : Str) {strs : List Str}
    → In b strs
    → All (λ y. str_less y s ≡ false) strs
    → str_less b s ≡ false
All-In b s (In.here e) h = rw e at h.0
All-In b s (In.there m) h = All-In b s m h.1

found_complete : {str : Str} {strs : List Str} → IsSorted strs → In str strs → found strs str ≡ true
found_complete {str} h (In.here {x = s} {xs = strs} e) = elim (Bool-cases (str_less s str)) [
  | inl lt ↦ cc (str_less_asymm s str lt, e)
  | inr ge ↦ found_head s str strs ge ∙ (rw e (str_eq_refl str))
]
found_complete {str} h (In.there {x = s} {xs = strs} m) = elim (Bool-cases (str_less s str)) [
  | inl lt ↦ found_tail s str strs lt ∙ found_complete h.1 m
  | inr ge ↦
      found_head s str strs ge
      ∙ (str_eq_iff s str).1 (str_less_connected s str ge (All-In str s m h.0))
]

-- `StringInArray` decides membership, in whatever order the slice is.
pub string_in_array_iff :
    (str : Str) (str_array : List Str) → (string_in_array str str_array ≡ true) ↔ In str str_array
unfolding string_in_array
string_in_array_iff str str_array = (
  λ h. sort_strings-In str str_array (found_sound str (sort_strings str_array) h),
  λ m. found_complete (sort_strings-IsSorted str_array) (In-sort_strings m),
)
