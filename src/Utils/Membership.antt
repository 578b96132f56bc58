-- ===== src/Utils/Membership.antt =====
-- StringInArray and StringDiffIn of utils/common.go decide membership.
use radondb_mysql_kubernetes.Prelude.{
  ℕ, ◌+◌, ◌≡◌, ◌↔◌, inl, inr, true, false, List, [], ◌∷◌, Str, str_eq, str_eq_sound, str_eq_refl,
  Bool-cases, In, In-cons_cases, not_In_nil,
}
use radondb_mysql_kubernetes.Utils.{string_in, string_diff_in}

-- The scan finds a string exactly if it is a member.
pub string_in_sound :
    (str : Str) (strs : List Str) (i : ℕ) → (string_in str strs i).1 ≡ true → In str strs
unfolding string_in
string_in_sound str [] i h = cc
string_in_sound str (s ∷ strs) i h = elim (Bool-cases (str_eq s str)) [
  | inl e ↦ In.here (str_eq_sound s str e)
  | inr ne ↦ In.there (string_in_sound str strs (i + 1) (rw (ne, string_in) at h))
]

pub string_in_complete :
    {str : Str} {strs : List Str} (i : ℕ) → In str strs → (string_in str strs i).1 ≡ true
unfolding string_in
string_in_complete {str} i (In.here {x = s} e) = rw (e, str_eq_refl str)
string_in_complete {str} i (In.there {x = s} m) = elim (Bool-cases (str_eq s str)) [
  | inl e ↦ rw e
  | inr ne ↦ rw ne (string_in_complete (i + 1) m)
]

not_found : (str : Str) (strs : List Str) → (string_in str strs 0).1 ≡ false → ¬ In str strs
not_found str strs h m = cc (string_in_complete 0 m)

-- `StringDiffIn` holds only members of `actual` that `desired` lacks.
diff_sound :
    (a : Str) (actual desired : List Str)
    → In a (string_diff_in actual desired)
    → In a actual × ¬ In a desired
unfolding string_diff_in
diff_sound a [] desired m = absurd (not_In_nil m)
diff_sound a (x ∷ actual) desired m = elim (Bool-cases (string_in x desired 0).1) [
  | inl old ↦
      let (n, lacks) = diff_sound a actual desired (rw (old, string_diff_in) at m) in
      (In.there n, lacks)
  | inr new ↦ elim (In-cons_cases (rw (new, string_diff_in) at m)) [
    | inl e ↦ (In.here e, rw e at (not_found x desired new))
    | inr n ↦ let (n', lacks) = diff_sound a actual desired n in (In.there n', lacks)
  ]
]

diff_complete :
    (a : Str) (actual desired : List Str)
    → In a actual
    → ¬ In a desired
    → In a (string_diff_in actual desired)
unfolding string_diff_in
diff_complete a [] desired m lacks = absurd (not_In_nil m)
diff_complete a (x ∷ actual) desired m lacks = elim (Bool-cases (string_in x desired 0).1) [
  | inl old ↦ elim (In-cons_cases m) [
    | inl e ↦ absurd (lacks (rw e at (string_in_sound x desired 0 old)))
    | inr n ↦ rw old (diff_complete a actual desired n lacks)
  ]
  | inr new ↦ elim (In-cons_cases m) [
    | inl e ↦ rw new (In.here e)
    | inr n ↦ rw new (In.there (diff_complete a actual desired n lacks))
  ]
]

-- `StringDiffIn` holds exactly the members of `actual` that `desired` lacks.
pub In-string_diff_in :
    (a : Str) (actual desired : List Str)
    → In a (string_diff_in actual desired) ↔ (In a actual × ¬ In a desired)
In-string_diff_in a actual desired =
    (diff_sound a actual desired, λ h. diff_complete a actual desired h.0 h.1)
