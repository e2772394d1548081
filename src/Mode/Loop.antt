-- ===== src/Mode/Loop.antt =====
-- src/channel_mode.c: what every handler keeps, the loop of set_channel_mode keeps.
use ircd_hybrid_8_cvs.Common.{
  ℕ, suc, ◌+◌, ◌≡◌, subst, sym, List, [], ◌∷◌, length, Option, none, some, arith, if_elim,
}
use ircd_hybrid_8_cvs.Mode.State.{Dir, ModeCommand, State}
use ircd_hybrid_8_cvs.Mode.SetMode.{
  Handler, mode_table, is_sign, next_dir, run_handler, mode_step, mode_loop,
}

-- A statement of the result of so many letters.
module _ (strtoul : List ℕ → ℕ) (m : ModeCommand) (alev : ℕ) (R : ℕ → Option State → Type 0)
    (faults : (n k : ℕ) → R n none → R k none)
    (signs : (n : ℕ) (s : State) → R n (some s) → R (suc n) (some s))
    (handles : (h : Handler) (n c : ℕ) (dir : Dir) (s : State)
      → R n (some s)
      → R (suc n) (run_handler strtoul m alev h dir c s)) where
  step-keeps :
      (n c : ℕ) (dir : Dir) (s : State)
      → R n (some s)
      → R (suc n) (mode_step strtoul m alev c dir s)
  unfolding mode_step
  step-keeps n c dir s r =
      if_elim (R (suc n)) (is_sign c) (λ y. signs n s r) (λ k. handles (mode_table c) n c dir s r)

  pub loop-keeps :
      (ml : List ℕ) (dir : Dir) (o : Option State) (n : ℕ)
      → R n o
      → R (length ml + n) (mode_loop strtoul m alev ml dir o)
  unfolding mode_loop
  loop-keeps ml dir none n r = faults n (length ml + n) r
  loop-keeps [] dir (some s) n r = let e : n ≡ 0 + n = omega arith in subst (λ k. R k (some s)) e r
  loop-keeps (c ∷ ml) dir (some s) n r =
      let e : suc (length ml) + n ≡ length ml + suc n = omega arith in
      let rest =
        loop-keeps ml (next_dir c dir) (mode_step strtoul m alev c dir s) (suc n)
          (step-keeps n c dir s r) in
      subst
        (λ k. R k (mode_loop strtoul m alev ml (next_dir c dir) (mode_step strtoul m alev c dir s)))
        (sym e) rest
