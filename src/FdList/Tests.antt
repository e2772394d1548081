-- ===== src/FdList/Tests.antt =====
-- The theorems on the table of descriptors at concrete tables.
use ircd_hybrid_8_cvs.Common.{◌+◌, ◌≡◌, refl, inr, true, [], some, arith, if◌then◌else◌, ◌==◌}
use ircd_hybrid_8_cvs.FdList.{FdTable, cleared, fd_close, fd_open}
use ircd_hybrid_8_cvs.FdList.Counting.{IsFdTable}
use ircd_hybrid_8_cvs.FdList.Close.{fd_close_lem}
use ircd_hybrid_8_cvs.FdList.Open.{fd_open_lem}

-- Descriptor 3 is an open socket.
abbrev one_open : FdTable
one_open = record {
  fde = λ j. if j == 3 then record cleared { open_flag = true; type = 3 } else cleared;
  top = 4;
  number_fd = 1;
}

one_open-IsFdTable : IsFdTable one_open
one_open-IsFdTable = record { above = λ i h. ground arith; highest = inr refl; counted = refl }

fd_close_lem_example :
    (r : FdTable) × (fd_close 1024 one_open 3 ≡ some r)
    × IsFdTable r
    × (r.fde 3 ≡ cleared)
    × (r.fde 4 ≡ cleared)
    × (r.number_fd + 1 ≡ 1)
fd_close_lem_example =
    fd_close_lem 1024 one_open 3 4 one_open-IsFdTable (omega arith) refl (λ e. absurd (omega arith))
      (λ e. absurd (omega arith))

fd_open_lem_example :
    (r : FdTable) × (fd_open 1024 one_open 5 3 [] ≡ some r)
    × IsFdTable r
    × ((r.fde 5).open_flag ≡ true)
    × ((r.fde 5).type ≡ 3)
    × (r.fde 3 ≡ one_open.fde 3)
    × (r.number_fd ≡ 1 + 1)
fd_open_lem_example =
    fd_open_lem 1024 one_open 5 3 3 [] one_open-IsFdTable (omega arith) (λ e. absurd (omega arith))
      (λ e. absurd (omega arith))
