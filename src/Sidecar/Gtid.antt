-- ===== src/Sidecar/Gtid.antt =====
-- GetXtrabackupGTIDPurged of sidecar/config.go against the files that xtrabackup writes.
use radondb_mysql_kubernetes.Prelude.{
  ℕ, ◌≡◌, refl, ap, ap₂, ◌∙◌, Bool, true, false, List, [], ◌∷◌, ◌++◌, Str, Lacks, All, Result, ok,
  err, codes, ◌==◌, if◌then◌else◌, split, split-Lacks, split-append, arith,
}

-- `strings.TrimSuffix(s, "\n")`
trim_newline : Str → Str
trim_newline [] = []
trim_newline (c ∷ []) = if c == 10 then [] else c ∷ []
trim_newline (c ∷ d ∷ s) = c ∷ trim_newline (d ∷ s)

-- `strings.Replace(s, "\n", "", -1)`
without_newlines : Str → Str
without_newlines [] = []
without_newlines (c ∷ s) = let rest = without_newlines s in if c == 10 then rest else c ∷ rest

-- `ss[2]`, where there are three parts.
third_of : Str → List Str → Result Str
unfolding without_newlines
third_of content (a ∷ b ∷ c ∷ []) = ok (without_newlines c)
third_of content parts = err (codes "info.file.content.invalid[" ++ content ++ codes "]")

-- `GetXtrabackupGTIDPurged`, on what `ReadFile` returned.
unfoldable pub get_xtrabackup_gtid_purged : Result Str → Result Str
unfolding third_of trim_newline
get_xtrabackup_gtid_purged (err e) = err e
get_xtrabackup_gtid_purged (ok content) = third_of content (split (trim_newline content) 9)

-- The lines of a set of GTIDs, each with its newline.
unfoldable pub lines_text : List Str → Str
lines_text [] = []
lines_text (line ∷ lines) = line ++ 10 ∷ lines_text lines

unfoldable pub join_all : List Str → Str
join_all [] = []
join_all (line ∷ lines) = line ++ join_all lines

if-append :
    (b : Bool) (c : ℕ) (s t : Str)
    → (if b then s ++ t else c ∷ s ++ t) ≡ (if b then s else c ∷ s) ++ t
if-append true c s t = refl
if-append false c s t = refl

without_newlines-append :
    (s t : Str) → without_newlines (s ++ t) ≡ without_newlines s ++ without_newlines t
unfolding without_newlines
without_newlines-append [] t = refl
without_newlines-append (c ∷ s) t =
    rw (without_newlines-append s t)
      (if-append (c == 10) c (without_newlines s) (without_newlines t))

without_newlines-Lacks : (s : Str) → Lacks 10 s → without_newlines s ≡ s
unfolding without_newlines
without_newlines-Lacks [] h = refl
without_newlines-Lacks (c ∷ s) h = rw (without_newlines-Lacks s h.1) (ground (arith, h.0))

without_newlines-lines_text :
    (lines : List Str) → All (Lacks 10) lines → without_newlines (lines_text lines) ≡ join_all lines
unfolding without_newlines lines_text join_all
without_newlines-lines_text [] h = refl
without_newlines-lines_text (line ∷ lines) h =
    without_newlines-append line (10 ∷ lines_text lines)
    ∙ ap₂ (λ s t. s ++ t) (without_newlines-Lacks line h.0) (without_newlines-lines_text lines h.1)

without_newlines-trim_newline : (s : Str) → without_newlines (trim_newline s) ≡ without_newlines s
unfolding without_newlines trim_newline
without_newlines-trim_newline [] = refl
without_newlines-trim_newline (c ∷ []) = ground arith
without_newlines-trim_newline (c ∷ d ∷ s) =
    ap (λ rest. if c == 10 then rest else c ∷ rest) (without_newlines-trim_newline (d ∷ s))

trim_newline-append : (s t : Str) → trim_newline (s ++ 9 ∷ t) ≡ s ++ 9 ∷ trim_newline t
unfolding trim_newline
trim_newline-append [] [] = refl
trim_newline-append [] (d ∷ t) = refl
trim_newline-append (c ∷ []) t = ap (λ rest. c ∷ rest) (trim_newline-append [] t)
trim_newline-append (c ∷ d ∷ s) t = ap (λ rest. c ∷ rest) (trim_newline-append (d ∷ s) t)

if-Lacks : (b : Bool) (s : Str) → Lacks 9 s → Lacks 9 (if b then [] else s)
if-Lacks true s h = tt
if-Lacks false s h = h

trim_newline-Lacks : (s : Str) → Lacks 9 s → Lacks 9 (trim_newline s)
unfolding trim_newline
trim_newline-Lacks [] h = h
trim_newline-Lacks (c ∷ []) h = if-Lacks (c == 10) (c ∷ []) h
trim_newline-Lacks (c ∷ d ∷ s) h = (h.0, trim_newline-Lacks (d ∷ s) h.1)

Lacks-append : (c : ℕ) (s t : Str) → Lacks c s → Lacks c t → Lacks c (s ++ t)
Lacks-append c [] t h g = g
Lacks-append c (x ∷ s) t h g = (h.0, Lacks-append c s t h.1 g)

lines_text-Lacks : (lines : List Str) → All (Lacks 9) lines → Lacks 9 (lines_text lines)
unfolding lines_text
lines_text-Lacks [] h = h
lines_text-Lacks (line ∷ lines) h =
    Lacks-append 9 line (10 ∷ lines_text lines) h.0 ((λ e. cc), lines_text-Lacks lines h.1)

-- Of a file that xtrabackup writes, with the name of a binary log, a position and the lines of a
-- set of GTIDs between tabs, GetXtrabackupGTIDPurged reads the set with its lines joined, if none
-- of the parts has a tab and no line a newline.
pub get_xtrabackup_gtid_purged-lines_text :
    (file position : Str) (lines : List Str)
    → Lacks 9 file
    → Lacks 9 position
    → All (Lacks 9) lines
    → All (Lacks 10) lines
    → get_xtrabackup_gtid_purged (ok (file ++ 9 ∷ (position ++ 9 ∷ lines_text lines)))
      ≡ ok (join_all lines)
unfolding get_xtrabackup_gtid_purged
get_xtrabackup_gtid_purged-lines_text file position lines no_tab_f no_tab_p no_tab no_newline =
    ap (λ text. third_of content (split text 9))
      (trim_newline-append file (position ++ 9 ∷ lines_text lines)
        ∙ ap (λ rest. file ++ 9 ∷ rest) (trim_newline-append position (lines_text lines)))
    ∙ ap (third_of content) parts
    ∙ ap ok (
        without_newlines-trim_newline (lines_text lines)
        ∙ without_newlines-lines_text lines no_newline)
  where
    content : Str
    content = file ++ 9 ∷ (position ++ 9 ∷ lines_text lines)

    last : Str
    last = trim_newline (lines_text lines)

    parts : split (file ++ 9 ∷ (position ++ 9 ∷ last)) 9 ≡ file ∷ position ∷ last ∷ []
    parts =
        split-append 9 file (position ++ 9 ∷ last) no_tab_f
        ∙ ap (λ rest. file ∷ rest)
            (split-append 9 position last no_tab_p
              ∙ ap (λ rest. position ∷ rest)
                  (split-Lacks 9 last
                    (trim_newline-Lacks (lines_text lines) (lines_text-Lacks lines no_tab))))
