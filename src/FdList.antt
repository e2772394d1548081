-- ===== src/FdList.antt =====
-- src/fdlist.c and include/fdlist.h: the table of file descriptors, with the highest open one and
-- their number. `top` is `highest_fd + 1`, so that -1 is 0. `none` is an assertion that fails or an access behind the table, which has
-- `MAXCONNECTIONS + 1` entries. MAXCONNECTIONS is configured, and `maxconnections` here.
pub mod Counting
pub mod Close
pub mod Open
mod Tests
use ircd_hybrid_8_cvs.Common.{
  ℕ, zero, suc, ◌+◌, ◌-◌, Bool, true, false, List, [], ◌∷◌, Option, none, some, take, ltb, ◌==◌,
  if◌then◌else◌, not, ◌||◌,
}

-- What src/fdlist.c keeps in a struct _fde. The handlers and their data belong to src/s_bsd.c.
pub record Fde : Type 0 where
  pub open_flag : Bool
  pub type : ℕ
  pub list : ℕ
  pub desc : List ℕ

pub record FdTable : Type 0 where
  pub fde : ℕ → Fde
  pub top : ℕ
  pub number_fd : ℕ

-- FD_FILE
abbrev pub fd_file : ℕ
fd_file = 2

-- FD_DESC_SZ
abbrev pub fd_desc_sz : ℕ
fd_desc_sz = 128

-- memset(F, 0, sizeof(fde_t))
abbrev pub cleared : Fde
cleared = record { open_flag = false; type = 0; list = 0; desc = [] }

-- fdlist_init
unfoldable pub fdlist_init : FdTable
fdlist_init = record { fde = λ i. cleared; top = 0; number_fd = 0 }

unfoldable pub set_fde : (ℕ → Fde) → ℕ → Fde → ℕ → Fde
set_fde t fd f i = if i == fd then f else t i

-- while (highest_fd >= 0 && !fd_table[highest_fd].flags.open) highest_fd--;
unfoldable pub scan_down : (ℕ → Fde) → ℕ → ℕ
scan_down t zero = zero
scan_down t (suc n) = if (t n).open_flag then suc n else scan_down t n

-- fdlist_update_biggest
unfoldable pub fdlist_update_biggest : ℕ → FdTable → ℕ → Bool → Option FdTable
fdlist_update_biggest maxconnections s fd opening =
    if ltb (suc fd) s.top
    then some s
    else if not (ltb fd maxconnections)
    then none
    else if ltb s.top (suc fd)
    then (if opening then some (record s { top = suc fd }) else none)
    else if opening
    then none
    else some (record s { top = scan_down s.fde s.top })

-- The end of fd_close: the entry is cleared.
unfoldable pub close_end : ℕ → FdTable → FdTable
close_end fd s = record s { fde = set_fde s.fde fd cleared; number_fd = s.number_fd - 1 }

-- fd_close
unfoldable pub fd_close : ℕ → FdTable → ℕ → Option FdTable
fd_close maxconnections s fd =
    if ltb maxconnections fd || not (s.fde fd).open_flag || (s.fde fd).type == fd_file
    then none
    else elim (fdlist_update_biggest maxconnections
        (record s { fde = set_fde s.fde fd (record (s.fde fd) { open_flag = false }) }) fd false) [
          | none ↦ none
          | some r ↦ some (close_end fd r)
        ]

-- The rest of fd_open, for an entry that is not open; FDLIST_NONE is 0, and strlcpy cuts `desc`.
unfoldable pub open_new : ℕ → FdTable → ℕ → ℕ → List ℕ → Option FdTable
open_new maxconnections s fd type desc =
    elim (fdlist_update_biggest maxconnections
      (record s {
        fde =
            set_fde s.fde fd (record {
              open_flag = true;
              type = type;
              list = 0;
              desc = take (fd_desc_sz - 1) desc;
            });
      })
      fd true) [ none ↦ none | some r ↦ some (record r { number_fd = r.number_fd + 1 }) ]

-- fd_open
unfoldable pub fd_open : ℕ → FdTable → ℕ → ℕ → List ℕ → Option FdTable
fd_open maxconnections s fd type desc =
    if ltb maxconnections fd
    then none
    else if (s.fde fd).open_flag
    then elim (fd_close maxconnections s fd) [
      | none ↦ none
      | some r ↦ open_new maxconnections r fd type desc
    ]
    else open_new maxconnections s fd type desc
