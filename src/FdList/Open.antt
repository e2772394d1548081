-- ===== src/FdList/Open.antt =====
-- src/fdlist.c: fd_open.
use ircd_hybrid_8_cvs.Common.{
  ℕ, suc, ◌+◌, ◌-◌, ◌≤◌, ◌<◌, ◌≡◌, refl, sym, ap, ◌∙◌, ◌≢◌, ◌⊎◌, inl, inr, true, false, List, some,
  ltb, if_elim, take, if◌then◌else◌, arith, Bool-cases,
}
use ircd_hybrid_8_cvs.FdList.{
  Fde, FdTable, fd_file, fd_desc_sz, set_fde, fdlist_update_biggest, open_new, fd_open,
}
use ircd_hybrid_8_cvs.FdList.Counting.{IsFdTable, count_open-open, count_open-gap, set_fde_open}
use ircd_hybrid_8_cvs.FdList.Close.{fd_close_lem}

module _ (s : FdTable) (v : IsFdTable s) (fd : ℕ) (shut : (s.fde fd).open_flag ≡ false) (type : ℕ)
    (desc : List ℕ) where
  new_fde : Fde
  new_fde = record { open_flag = true; type = type; list = 0; desc = take (fd_desc_sz - 1) desc }

  opened : ℕ → Fde
  opened = set_fde s.fde fd new_fde

  opened_table : ℕ → FdTable
  opened_table top = record { fde = opened; top = top; number_fd = s.number_fd + 1 }

  opened_top : ℕ
  opened_top = if ltb (suc fd) s.top then s.top else suc fd

  not_highest : suc fd ≢ s.top
  not_highest e = by_top v.highest
    where
      last : s.top - 1 ≡ fd
      last = omega arith

      by_top : (s.top ≡ 0) ⊎ ((s.fde (s.top - 1)).open_flag ≡ true) → ⊥
      by_top (inl z) = omega arith
      by_top (inr o) = cc (sym (ap (λ k. (s.fde k).open_flag) last) ∙ o)

  open_new-opened_table :
      (maxconnections : ℕ)
      → fd < maxconnections
      → open_new maxconnections s fd type desc ≡ some (opened_table opened_top)
  unfolding open_new fdlist_update_biggest opened_table opened_top opened new_fde
  open_new-opened_table maxconnections within = ground (arith, not_highest)

  opened_above : (top i : ℕ) → s.top ≤ top → fd < top → top ≤ i → (opened i).open_flag ≡ false
  unfolding opened new_fde
  opened_above top i le lt lo = ground (arith, set_fde_open s.fde fd i new_fde, v.above i)

  opened_table-IsFdTable : IsFdTable (opened_table opened_top)
  unfolding opened_table opened_top opened new_fde
  opened_table-IsFdTable =
      if_elim (λ top. IsFdTable (opened_table top)) (ltb (suc fd) s.top)
        (λ more. record {
          above = λ i lo. opened_above s.top i (omega arith) (ground arith) lo;
          highest = inr (still more);
          counted =
              omega
                (arith, v.counted, count_open-open s.fde fd s.top new_fde (ground arith) shut now);
        })
        (λ last. record {
          above = λ i lo. opened_above (suc fd) i (ground arith) (omega arith) lo;
          highest = inr (ap (λ k. (opened k).open_flag) here ∙ itself);
          counted = omega (
            arith,
            v.counted,
            count_open-open s.fde fd (suc fd) new_fde (omega arith) shut now,
            count_open-gap s.fde s.top (suc fd) (ground arith) (λ i lo hi. v.above i lo),
          );
        })
    where
      now : new_fde.open_flag ≡ true
      now = refl

      here : suc fd - 1 ≡ fd
      here = omega arith

      itself : (opened fd).open_flag ≡ true
      itself = ground (arith, set_fde_open s.fde fd fd new_fde)

      still : ltb (suc fd) s.top ≡ true → (opened (s.top - 1)).open_flag ≡ true
      still more = ground (arith, v.highest, set_fde_open s.fde fd (s.top - 1) new_fde)

  open_new_lem :
      (maxconnections : ℕ)
      → fd < maxconnections
      → (r : FdTable) × (open_new maxconnections s fd type desc ≡ some r)
        × IsFdTable r
        × (r.number_fd ≡ s.number_fd + 1)
        × (r.fde ≡ opened)
  unfolding opened_table
  open_new_lem maxconnections within = (
    opened_table opened_top,
    open_new-opened_table maxconnections within,
    opened_table-IsFdTable,
    refl,
    refl,
  )

-- In a well-formed table, fd_open of a descriptor below MAXCONNECTIONS that is not an open file: no assertion fails, the entry is open with the
-- given type, the others stay, the number counts it once (a descriptor that was still open is
-- closed first), and the highest one is right again.
pub fd_open_lem :
    (maxconnections : ℕ) (s : FdTable) (fd type j : ℕ) (desc : List ℕ)
    → IsFdTable s
    → fd < maxconnections
    → (s.fde fd).type ≢ fd_file
    → j ≢ fd
    → (r : FdTable) × (fd_open maxconnections s fd type desc ≡ some r)
      × IsFdTable r
      × ((r.fde fd).open_flag ≡ true)
      × ((r.fde fd).type ≡ type)
      × (r.fde j ≡ s.fde j)
      × (r.number_fd ≡ (if (s.fde fd).open_flag then s.number_fd else s.number_fd + 1))
unfolding fd_open opened new_fde set_fde
fd_open_lem maxconnections s fd type j desc v within file ne =
    elim (Bool-cases (s.fde fd).open_flag) [
      | inr shut ↦
          let (r, run, w, number, table) =
            open_new_lem s v fd shut type desc maxconnections within in
          (
            r,
            rw (inside, shut, fd_open) run,
            w,
            rw table (ground arith),
            rw table (ground arith),
            rw table (ground arith),
            rw shut number,
          )
      | inl busy ↦
          let (q, closed_run, u, gone, same, less) =
            fd_close_lem maxconnections s fd j v within busy file ne in
          let (r, run, w, number, table) =
            open_new_lem q u fd (ap (λ (f : Fde). f.open_flag) gone) type desc maxconnections
              within in
          (
            r,
            rw (inside, busy, closed_run, fd_open) run,
            w,
            rw table (ground arith),
            rw table (ground arith),
            rw table (ground (arith, same)),
            rw busy (omega arith),
          )
    ]
  where
    inside : ltb maxconnections fd ≡ false
    inside = ground arith
