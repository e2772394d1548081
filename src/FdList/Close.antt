-- ===== src/FdList/Close.antt =====
-- src/fdlist.c: fd_close.
use ircd_hybrid_8_cvs.Common.{
  ℕ, suc, ◌+◌, ◌-◌, ◌≤◌, ◌<◌, ◌≡◌, refl, ◌≢◌, ◌⊎◌, inr, true, false, some, ltb, if_elim,
  if◌then◌else◌, arith,
}
use ircd_hybrid_8_cvs.FdList.{
  Fde, FdTable, fd_file, cleared, set_fde, scan_down, fdlist_update_biggest, close_end, fd_close,
}
use ircd_hybrid_8_cvs.FdList.Counting.{
  count_open, IsFdTable, scan_down_lem, scan_down-above, count_open-close, count_open-cleared,
  set_fde_open,
}

module _ (s : FdTable) (v : IsFdTable s) (fd : ℕ) (opened : (s.fde fd).open_flag ≡ true) where
  below_top : fd < s.top
  below_top = ground (arith, v.above fd)

  closed : ℕ → Fde
  closed = set_fde s.fde fd (record (s.fde fd) { open_flag = false })

  -- The state that fd_close leaves, for the highest descriptor `top - 1` that was found.
  closed_table : ℕ → FdTable
  closed_table top = record {
    fde = set_fde closed fd cleared;
    top = top;
    number_fd = s.number_fd - 1;
  }

  closed_table-IsFdTable :
      (top : ℕ)
      → top ≤ s.top
      → ((i : ℕ) → top ≤ i → i < s.top → (closed i).open_flag ≡ false)
      → (top ≡ 0) ⊎ ((closed (top - 1)).open_flag ≡ true)
      → count_open closed top ≡ count_open closed s.top
      → IsFdTable (closed_table top)
  unfolding closed_table closed
  closed_table-IsFdTable top le gap high same = record {
    above = λ i lo. ground (
      arith,
      set_fde_open closed fd i cleared,
      set_fde_open s.fde fd i (record (s.fde fd) { open_flag = false }),
      v.above i,
      gap i lo,
    );
    highest = ground (
      arith,
      high,
      set_fde_open closed fd (top - 1) cleared,
      set_fde_open s.fde fd (top - 1) (record (s.fde fd) { open_flag = false }),
    );
    counted = omega (
      arith,
      v.counted,
      same,
      count_open-cleared s.fde fd top (record (s.fde fd) { open_flag = false }) cleared refl,
      count_open-close s.fde fd s.top (record (s.fde fd) { open_flag = false }) below_top opened
          refl,
    );
  }

  closed_top : ℕ
  closed_top = if ltb (suc fd) s.top then s.top else scan_down closed s.top

  fd_close-closed_table :
      (maxconnections : ℕ)
      → fd < maxconnections
      → (s.fde fd).type ≢ fd_file
      → fd_close maxconnections s fd ≡ some (closed_table closed_top)
  unfolding fd_close fdlist_update_biggest close_end closed_table closed closed_top
  fd_close-closed_table maxconnections within file = ground (arith, below_top)

  closed_top-IsFdTable : IsFdTable (closed_table closed_top)
  unfolding closed_top closed
  closed_top-IsFdTable =
      if_elim (λ top. IsFdTable (closed_table top)) (ltb (suc fd) s.top)
        (λ more.
          closed_table-IsFdTable s.top (omega arith) (λ i lo hi. absurd (omega arith))
            (inr (still_open more)) refl)
        (λ last.
          let (le, top, same) = scan_down_lem closed s.top in
          closed_table-IsFdTable (scan_down closed s.top) le (scan_down-above closed s.top) top
            same)
    where
      still_open : ltb (suc fd) s.top ≡ true → (closed (s.top - 1)).open_flag ≡ true
      still_open more = ground (
        arith,
        v.highest,
        set_fde_open s.fde fd (s.top - 1) (record (s.fde fd) { open_flag = false }),
      )

-- In a well-formed table, fd_close of an open descriptor below MAXCONNECTIONS that is no file: no
-- assertion fails, the entry is cleared, the others stay, there is one open descriptor less, and the highest one is right again.
pub fd_close_lem :
    (maxconnections : ℕ) (s : FdTable) (fd j : ℕ)
    → IsFdTable s
    → fd < maxconnections
    → (s.fde fd).open_flag ≡ true
    → (s.fde fd).type ≢ fd_file
    → j ≢ fd
    → (r : FdTable) × (fd_close maxconnections s fd ≡ some r)
      × IsFdTable r
      × (r.fde fd ≡ cleared)
      × (r.fde j ≡ s.fde j)
      × (r.number_fd + 1 ≡ s.number_fd)
unfolding closed_table closed set_fde
fd_close_lem maxconnections s fd j v within opened file ne = (
  closed_table s v fd opened (closed_top s v fd opened),
  fd_close-closed_table s v fd opened maxconnections within file,
  closed_top-IsFdTable s v fd opened,
  ground arith,
  ground arith,
  some_open,
)
  where
    some_open : s.number_fd - 1 + 1 ≡ s.number_fd
    some_open = omega (
      arith,
      v.counted,
      count_open-close s.fde fd s.top (record (s.fde fd) { open_flag = false })
          (below_top s v fd opened) opened refl,
    )
