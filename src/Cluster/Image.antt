-- ===== src/Cluster/Image.antt =====
-- mysqlcluster/mysqlcluster.go: GetImage, the name of an image with the registry and the namespace
-- that the environment sets.
use radondb_mysql_kubernetes.Prelude.{
  ℕ, suc, ◌==◌, arith, ◌≡◌, refl, sym, ap, ◌∙◌, false, not, List, [], ◌∷◌, ◌++◌, append_assoc,
  append-nil, Str, codes, split, split_go, is_empty, length, if◌then◌else◌, Bool-cases, inl, inr,
  ==_iff,
}

-- What GetImage reads of the environment.
pub record ImageEnv : Type 0 where
  pub image_prefix : Str
  pub namespace_override : Str

-- `strings.Join(parts, "/")`
unfoldable pub join : List Str → Str
join [] = []
join (x ∷ []) = x
join (x ∷ y ∷ parts) = x ++ (codes "/" ++ join (y ∷ parts))

-- `parts[0:len(parts)-1]`
unfoldable pub drop_last : List Str → List Str
drop_last [] = []
drop_last (x ∷ []) = []
drop_last (x ∷ y ∷ parts) = x ∷ drop_last (y ∷ parts)

-- `parts[len(parts)-1]`, of the parts of a split, which are not empty
unfoldable pub last_part : List Str → Str
last_part [] = []
last_part (x ∷ []) = x
last_part (x ∷ y ∷ parts) = last_part (y ∷ parts)

-- `GetPrefixFromEnv`
unfoldable pub get_prefix_from_env : ImageEnv → Str
get_prefix_from_env env = if is_empty env.image_prefix then [] else env.image_prefix ++ codes "/"

unfoldable pub image_namespace : ImageEnv → List Str → Str
unfolding join drop_last
image_namespace env parts =
    if not (is_empty env.namespace_override)
    then env.namespace_override ++ codes "/"
    else if length parts == 1
    then []
    else join (drop_last parts) ++ codes "/"

-- `GetImage`
unfoldable pub get_image : ImageEnv → Str → Str
unfolding get_prefix_from_env image_namespace last_part
get_image env name =
    get_prefix_from_env env ++ (image_namespace env (split name 47) ++ last_part (split name 47))

abbrev pub no_image_env : ImageEnv
no_image_env = record { image_prefix = []; namespace_override = [] }

-- A split is not empty.
data Parts : List Str → Type 0 where
  some_parts : (x : Str) (parts : List Str) → Parts (x ∷ parts)

split_go-Parts : (cur s : Str) → Parts (split_go 47 cur s)
unfolding split_go
split_go-Parts cur [] = some_parts cur []
split_go-Parts cur (x ∷ s) = elim (Bool-cases (x == 47)) [
  | inl e ↦ rw (e, split_go) (some_parts cur (split_go 47 [] s))
  | inr e ↦ rw (e, split_go) (split_go-Parts (cur ++ x ∷ []) s)
]

join_cons :
    (x : Str) (parts : List Str) → Parts parts → join (x ∷ parts) ≡ x ++ (codes "/" ++ join parts)
unfolding join
join_cons x parts (some_parts y rest) = refl

join-split_go : (cur s : Str) → join (split_go 47 cur s) ≡ cur ++ s
unfolding split_go join
join-split_go cur [] = sym (append-nil cur)
join-split_go cur (x ∷ s) = elim (Bool-cases (x == 47)) [
  | inl e ↦
      rw (e, split_go)
        (join_cons cur (split_go 47 [] s) (split_go-Parts [] s)
          ∙ ap (λ t. cur ++ 47 ∷ t) (join-split_go [] s)
          ∙ ap (λ c. cur ++ c ∷ s) (sym ((==_iff x 47).0 e)))
  | inr e ↦ rw (e, split_go) (join-split_go (cur ++ x ∷ []) s ∙ append_assoc cur (x ∷ []) s)
]

front :
    (x y : Str) (rest : List Str)
    → (join (x ∷ drop_last (y ∷ rest)) ++ codes "/") ++ last_part (y ∷ rest) ≡ join (x ∷ y ∷ rest)
unfolding join drop_last last_part
front x y [] = append_assoc x (codes "/") y
front x y (z ∷ rest) =
    let before : Str = join (y ∷ drop_last (z ∷ rest)) in
    ap (λ t. t ++ last_part (z ∷ rest)) (append_assoc x (47 ∷ before) (codes "/"))
    ∙ append_assoc x (47 ∷ (before ++ codes "/")) (last_part (z ∷ rest))
    ∙ ap (λ t. x ++ 47 ∷ t) (front y z rest)

not_one : (n : ℕ) → (suc (suc n) == 1) ≡ false
not_one n = elim (Bool-cases (suc (suc n) == 1)) [
  | inl e ↦ absurd (omega (arith, (==_iff (suc (suc n)) 1).0 e))
  | inr e ↦ e
]

-- The last of some parts, and the parts before it, make the whole again.
whole :
    (parts : List Str)
    → Parts parts
    → image_namespace no_image_env parts ++ last_part parts ≡ join parts
unfolding image_namespace join drop_last last_part is_empty
whole parts (some_parts x []) = refl
whole parts (some_parts x (y ∷ rest)) =
    ap
      (λ b.
        (if b then [] else join (x ∷ drop_last (y ∷ rest)) ++ codes "/") ++ last_part (y ∷ rest))
      (not_one (length rest))
    ∙ front x y rest

-- Without the two variables GetImage returns the name as it is.
pub get_image-no_image_env : (name : Str) → get_image no_image_env name ≡ name
unfolding get_image get_prefix_from_env is_empty split
get_image-no_image_env name =
    whole (split_go 47 [] name) (split_go-Parts [] name) ∙ join-split_go [] name
