-- ===== src/Hooks/Stop.antt =====
-- leaderStop of cmd/xenon/main.go: which error it returns, over all interleavings of the goroutine
-- and the select.
use radondb_mysql_kubernetes.Prelude.{
  ◌≡◌, refl, sym, ap, ◌∙◌, Option, none, some, Bool, true, false, List, [], ◌∷◌, ◌++◌, append_assoc,
  append-nil, Error,
}
use radondb_mysql_kubernetes.Hooks.{
  StopAction, stop_plan, StopState, StopStep, StopReach, Waiter, selecting, timed_out, received,
  act, send, enable_my_raft, time_out, exit, stop_begin, stop_next,
}

abbrev or_else : Option Error → Option Error → Option Error
or_else none o = o
or_else (some e) o = some e

or_else_assoc : (o p q : Option Error) → or_else o (or_else p q) ≡ or_else (or_else o p) q
or_else_assoc none p q = refl
or_else_assoc (some e) p q = refl

or_else-none : (o : Option Error) → or_else o none ≡ o
or_else-none none = refl
or_else-none (some e) = refl

-- Raft is enabled again only when nothing is left, and no error waits.
abbrev Last : Bool → List StopAction → Option Error → Type 0
Last false rest o = Unit
Last true rest o = (rest ≡ []) × (o ≡ none)

-- When raft is enabled again, all actions have been made.
abbrev pub AllMade : Bool → List StopAction → Type 0
AllMade false made = Unit
AllMade true made = made ≡ stop_plan

module _ (answer : StopAction → Option Error) where
  -- The error of the first action that fails.
  abbrev pub first_error : List StopAction → Option Error
  first_error [] = none
  first_error (a ∷ rest) = or_else (answer a) (first_error rest)

  first_error-append :
      (xs ys : List StopAction) → first_error (xs ++ ys) ≡ or_else (first_error xs) (first_error ys)
  first_error-append [] ys = refl
  first_error-append (a ∷ xs) ys =
      ap (or_else (answer a)) (first_error-append xs ys)
      ∙ or_else_assoc (answer a) (first_error xs) (first_error ys)

  first_error-append_one :
      (xs : List StopAction) (a : StopAction) (o : Option Error)
      → first_error xs ≡ o
      → first_error (xs ++ a ∷ []) ≡ or_else o (answer a)
  first_error-append_one xs a o h =
      first_error-append xs (a ∷ [])
      ∙ ap (λ x. or_else x (or_else (answer a) none)) h
      ∙ ap (or_else o) (or_else-none (answer a))

  -- What the waiter knows of the actions made.
  abbrev pub Heard : Waiter → Option Error → List StopAction → Type 0
  Heard selecting sending made = first_error made ≡ sending
  Heard (received e) sending made = first_error made ≡ some e
  Heard timed_out sending made = Unit

  -- The actions made are a prefix of the plan; raft is enabled again only after all of them.
  pub record Consistent (s : StopState) : Type 0 where
    pub in_order : s.made ++ s.left ≡ stop_plan
    pub last : Last s.raft_enabled_again s.left s.sending
    pub heard : Heard s.waiter s.sending s.made

  act-Heard :
      (a : StopAction) (made : List StopAction) (w : Waiter)
      → Heard w none made
      → Heard w (answer a) (made ++ a ∷ [])
  act-Heard a made selecting h = first_error-append_one made a none h
  act-Heard a made (received e) h = first_error-append_one made a (some e) h
  act-Heard a made timed_out h = tt

  StopStep-Consistent : {s t : StopState} → StopStep answer s t → Consistent s → Consistent t
  StopStep-Consistent (act a rest made w) c = record {
    in_order = append_assoc made (a ∷ []) rest ∙ c.in_order;
    last = tt;
    heard = act-Heard a made w c.heard;
  }
  StopStep-Consistent (send e rest made) c = record {
    in_order = c.in_order;
    last = tt;
    heard = c.heard;
  }
  StopStep-Consistent (enable_my_raft made w) c = record {
    in_order = c.in_order;
    last = (refl, refl);
    heard = c.heard;
  }
  StopStep-Consistent (time_out rest made o b) c = record {
    in_order = c.in_order;
    last = c.last;
    heard = tt;
  }
  StopStep-Consistent (exit rest made o b w h) c = record {
    in_order = c.in_order;
    last = c.last;
    heard = c.heard;
  }

  pub StopReach-Consistent : {s : StopState} → StopReach answer s → Consistent s
  StopReach-Consistent stop_begin = record { in_order = refl; last = tt; heard = refl }
  StopReach-Consistent (stop_next r st) = StopStep-Consistent st (StopReach-Consistent r)

  Last-AllMade :
      (b : Bool) (made rest : List StopAction) (o : Option Error)
      → made ++ rest ≡ stop_plan
      → Last b rest o
      → AllMade b made
  Last-AllMade false made rest o h l = tt
  Last-AllMade true made rest o h l = sym (append-nil made) ∙ ap (λ xs. made ++ xs) (sym l.0) ∙ h

  -- In every interleaving, the actions of the goroutine are made in the order of the plan; an error
  -- that leaderStop returns is that of the first action that failed, and while it waits none has
  -- failed but the one whose error is being sent; and raft is enabled again only after all the
  -- actions.
  pub StopReach_lem :
      {s : StopState}
      → StopReach answer s
      → (s.made ++ s.left ≡ stop_plan)
        × Heard s.waiter s.sending s.made
        × AllMade s.raft_enabled_again s.made
  StopReach_lem {s = s} r =
      let c = StopReach-Consistent r in
      (
        c.in_order,
        c.heard,
        Last-AllMade s.raft_enabled_again s.made s.left s.sending c.in_order c.last,
      )
