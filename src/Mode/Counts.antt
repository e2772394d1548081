-- ===== src/Mode/Counts.antt =====
-- src/channel_mode.c: how many changes set_channel_mode notes in mode_changes_plus,
-- mode_changes_minus and resync_ops.
use ircd_hybrid_8_cvs.Common.{
  ℕ, suc, ◌≤◌, ◌≡◌, refl, Bool, List, [], ◌∷◌, ◌++◌, length, length-append, none, some, arith,
  Bool-cases, Option-cases, inl, inr, if_elim, ◌==◌, if◌then◌else◌,
}
use ircd_hybrid_8_cvs.Text.Glob.{is_end}
use ircd_hybrid_8_cvs.Channel.Access.{has_mode}
use ircd_hybrid_8_cvs.Channel.Bans.{fix_key, fix_key_old}
use ircd_hybrid_8_cvs.Mode.State.{
  Dir, mode_query, mode_add, mode_del, mode_hideops, Change, Resync, ModeCommand, State, chptr,
  source_p, set_chptr, cancel_first, cancel_all, has_letter, plus_unless, note_plus, minus_unless,
  note_minus,
}
use ircd_hybrid_8_cvs.Mode.Simple.{
  set_bit, clear_bit, plain_change, flip_bit, drop_whole, hide_ops, show_ops, flip_hideops,
  is_no_limit, set_limit, add_limit, change_limit, set_key, starts_blank, add_key, drop_key,
  change_key,
}
use ircd_hybrid_8_cvs.Mode.Handled.{After}

-- At most so many entries in each array
abbrev pub AtMost : ℕ → ℕ → ℕ → State → Type 0
AtMost p q r s = (length s.plus ≤ p) × (length s.minus ≤ q) × (length s.resync ≤ r)

abbrev pub AtMostEach : ℕ → State → Type 0
AtMostEach n s = AtMost n n n s

pub more :
    {p q r p' q' r' : ℕ} (s : State) → p ≤ p' → q ≤ q' → r ≤ r' → AtMost p q r s → AtMost p' q' r' s
more s hp hq hr (a, b, c) = (omega arith, omega arith, omega arith)

pub one_more : {n : ℕ} (s : State) → AtMostEach n s → AtMostEach (suc n) s
one_more s (a, b, c) = (omega arith, omega arith, omega arith)

length-cancel_first :
    (same : Change → Bool) (l r : List Change) → cancel_first same l ≡ some r → length r ≡ length l
unfolding cancel_first
length-cancel_first same [] r e = absurd (ground arith)
length-cancel_first same (x ∷ l) r e = elim (Bool-cases (same x)) [
  | inl y ↦ ground arith
  | inr n ↦ elim (Option-cases (cancel_first same l)) [
    | inl h ↦ absurd (ground arith)
    | inr (t, h) ↦ ground (arith, length-cancel_first same l t h)
  ]
]

pub length-cancel_all :
    (same : Change → Bool) (l : List Change) → length (cancel_all same l) ≡ length l
unfolding cancel_all
length-cancel_all same [] = refl
length-cancel_all same (x ∷ l) = omega (arith, length-cancel_all same l)

length-drop_whole : (l : List Resync) → length (drop_whole l) ≡ length l
unfolding drop_whole
length-drop_whole [] = refl
length-drop_whole (r ∷ l) = omega (arith, length-drop_whole l)

module _ {p q r : ℕ} where
  pub plus-snoc : (x : Change) (s : State) → AtMost p q r s → length (s.plus ++ x ∷ []) ≤ suc p
  plus-snoc x s h = omega (arith, length-append s.plus (x ∷ []), h.0)

  pub minus-snoc : (x : Change) (s : State) → AtMost p q r s → length (s.minus ++ x ∷ []) ≤ suc q
  minus-snoc x s h = omega (arith, length-append s.minus (x ∷ []), h.1)

  pub resync-snoc : (x : Resync) (s : State) → AtMost p q r s → length (s.resync ++ x ∷ []) ≤ suc r
  resync-snoc x s h = omega (arith, length-append s.resync (x ∷ []), h.2)

  note_plus-AtMost :
      (same : Change → Bool) (x : Change) (s : State)
      → AtMost p q r s
      → AtMost (suc p) q r (note_plus same x s)
  unfolding note_plus plus_unless
  note_plus-AtMost same x s h = elim (Option-cases (cancel_first same s.minus)) [
    | inl e ↦ rw e (plus-snoc x s h, h.1, h.2)
    | inr (l, e) ↦
        rw e (omega (arith, h.0), omega (arith, h.1, length-cancel_first same s.minus l e), h.2)
  ]

  note_minus-AtMost :
      (same : Change → Bool) (x : Change) (s : State)
      → AtMost p q r s
      → AtMost p (suc q) r (note_minus same x s)
  unfolding note_minus minus_unless
  note_minus-AtMost same x s h = elim (Option-cases (cancel_first same s.plus)) [
    | inl e ↦ rw e (h.0, minus-snoc x s h, h.2)
    | inr (l, e) ↦
        rw e (omega (arith, h.0, length-cancel_first same s.plus l e), omega (arith, h.1), h.2)
  ]

module _ {n : ℕ} where
  pub noted_plus :
      (same : Change → Bool) (x : Change) (s : State)
      → AtMostEach n s
      → AtMostEach (suc n) (note_plus same x s)
  noted_plus same x s h =
      more (note_plus same x s) (omega arith) (omega arith) (omega arith)
        (note_plus-AtMost same x s h)

  pub noted_minus :
      (same : Change → Bool) (x : Change) (s : State)
      → AtMostEach n s
      → AtMostEach (suc n) (note_minus same x s)
  noted_minus same x s h =
      more (note_minus same x s) (omega arith) (omega arith) (omega arith)
        (note_minus-AtMost same x s h)

  module _ (m : ModeCommand) where
    pub flip_bit-AtMost :
        (dir : Dir) (c bit : ℕ) (s : State)
        → AtMostEach n s
        → AtMostEach (suc n) (flip_bit m dir c bit s)
    unfolding flip_bit set_bit clear_bit set_chptr
    flip_bit-AtMost mode_query c bit s h = one_more s h
    flip_bit-AtMost mode_add c bit s h =
        if_elim (AtMostEach (suc n)) (has_mode (chptr m s) bit) (λ y. one_more s h)
          (λ k. noted_plus (has_letter c) (plain_change c 0 none) (set_bit m bit s) h)
    flip_bit-AtMost mode_del c bit s h =
        if_elim (AtMostEach (suc n)) (has_mode (chptr m s) bit)
          (λ y. noted_minus (has_letter c) (plain_change c 0 none) (clear_bit m bit s) h)
          (λ k. one_more s h)

    hide_ops-AtMost :
        (c : ℕ) (s : State)
        → AtMostEach n s
        → AtMostEach (suc n) (hide_ops c s (cancel_first (has_letter c) s.minus))
    unfolding hide_ops
    hide_ops-AtMost c s h = elim (Option-cases (cancel_first (has_letter c) s.minus)) [
      | inl e ↦
          rw e (plus-snoc (plain_change c 8192 none) s h, omega (arith, h.1), resync-snoc _ s h)
      | inr (l, e) ↦ rw e (
        omega (arith, h.0),
        omega (arith, h.1, length-cancel_first (has_letter c) s.minus l e),
        omega (arith, h.2, length-drop_whole s.resync),
      )
    ]

    show_ops-AtMost :
        (c : ℕ) (s : State)
        → AtMostEach n s
        → AtMostEach (suc n) (show_ops c s (cancel_first (has_letter c) s.plus))
    unfolding show_ops
    show_ops-AtMost c s h = elim (Option-cases (cancel_first (has_letter c) s.plus)) [
      | inl e ↦
          rw e (omega (arith, h.0), minus-snoc (plain_change c 8192 none) s h, resync-snoc _ s h)
      | inr (l, e) ↦ rw e (
        omega (arith, h.0, length-cancel_first (has_letter c) s.plus l e),
        omega (arith, h.1),
        omega (arith, h.2, length-drop_whole s.resync),
      )
    ]

    pub flip_hideops-AtMost :
        (dir : Dir) (c : ℕ) (s : State)
        → AtMostEach n s
        → AtMostEach (suc n) (flip_hideops m dir c s)
    unfolding flip_hideops set_bit clear_bit set_chptr
    flip_hideops-AtMost mode_query c s h = one_more s h
    flip_hideops-AtMost mode_add c s h =
        if_elim (AtMostEach (suc n)) (has_mode (chptr m s) mode_hideops) (λ y. one_more s h)
          (λ k. hide_ops-AtMost c (set_bit m mode_hideops s) h)
    flip_hideops-AtMost mode_del c s h =
        if_elim (AtMostEach (suc n)) (has_mode (chptr m s) mode_hideops)
          (λ y. show_ops-AtMost c (clear_bit m mode_hideops s) h) (λ k. one_more s h)

    -- The change of a limit or a key replaces those of its letter.
    replaced :
        (c : ℕ) (x : Change) (s : State)
        → AtMostEach n s
        → length (cancel_all (has_letter c) s.plus ++ x ∷ []) ≤ suc n
    replaced c x s h = omega (
      arith,
      length-append (cancel_all (has_letter c) s.plus) (x ∷ []),
      length-cancel_all (has_letter c) s.plus,
      h.0,
    )

    add_limit-AtMost :
        (strtoul : List ℕ → ℕ) (c : ℕ) (l : List (List ℕ)) (s : State)
        → AtMostEach n s
        → AtMostEach (suc n) (add_limit strtoul m c l s)
    unfolding add_limit set_limit set_chptr
    add_limit-AtMost strtoul c [] s h = one_more s h
    add_limit-AtMost strtoul c (t ∷ l) s h =
        if_elim (AtMostEach (suc n)) (is_no_limit (strtoul t)) (λ y. one_more s h)
          (λ k. (
            replaced c _ s h,
            omega (arith, h.1, length-cancel_all (has_letter c) s.minus),
            omega (arith, h.2),
          ))

    pub change_limit-AtMost :
        (strtoul : List ℕ → ℕ) (dir : Dir) (c : ℕ) (s : State)
        → AtMostEach n s
        → AtMostEach (suc n) (change_limit strtoul m dir c s)
    unfolding change_limit set_chptr
    change_limit-AtMost strtoul mode_query c s h = one_more s h
    change_limit-AtMost strtoul mode_add c s h = add_limit-AtMost strtoul c s.params s h
    change_limit-AtMost strtoul mode_del c s h =
        if_elim (AtMostEach (suc n)) ((chptr m s).limit == 0) (λ y. one_more s h)
          (λ k.
            noted_minus (has_letter c) (plain_change c 0 none)
              (set_chptr m s (record (chptr m s) { limit = 0 })) h)

    add_key-AtMost :
        (c : ℕ) (l : List (List ℕ)) (s : State)
        → AtMostEach n s
        → After (AtMostEach (suc n)) (add_key m c l s)
    unfolding add_key set_key set_chptr
    add_key-AtMost c [] s h = one_more s h
    add_key-AtMost c (t ∷ l) s h =
        if_elim (After (AtMostEach (suc n)))
          (starts_blank (if (source_p m s).is_mine then fix_key t else fix_key_old t)) (λ y. tt)
          (λ k. (
            replaced c _ s h,
            omega (arith, h.1, length-cancel_all (has_letter c) s.minus),
            omega (arith, h.2),
          ))

    pub change_key-AtMost :
        (dir : Dir) (c : ℕ) (s : State)
        → AtMostEach n s
        → After (AtMostEach (suc n)) (change_key m dir c s)
    unfolding change_key drop_key set_chptr
    change_key-AtMost mode_query c s h = one_more s h
    change_key-AtMost mode_add c s h = add_key-AtMost c s.params s h
    change_key-AtMost mode_del c s h =
        if_elim (AtMostEach (suc n)) (is_end (chptr m s).key) (λ y. one_more s h)
          (λ k. (
            omega (arith, h.0, length-cancel_all (has_letter c) s.plus),
            minus-snoc _ s h,
            omega (arith, h.2),
          ))
