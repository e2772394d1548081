-- ===== src/FdList/Counting.antt =====
-- src/fdlist.c: what it is for the highest descriptor and the number of open ones to be right.
use ircd_hybrid_8_cvs.Common.{
  ℕ, zero, suc, ◌-◌, ◌≤◌, ◌<◌, ◌≡◌, refl, sym, ap, ◌∙◌, ◌⊎◌, inl, inr, true, false, ◌==◌, ==_iff,
  if◌then◌else◌, arith, Bool-cases,
}
use ircd_hybrid_8_cvs.FdList.{Fde, FdTable, fdlist_init, set_fde, scan_down}

-- How many entries below an index are open.
abbrev pub count_open : (ℕ → Fde) → ℕ → ℕ
count_open t zero = 0
count_open t (suc n) = if (t n).open_flag then suc (count_open t n) else count_open t n

-- The highest descriptor is open, none above it is, and the number is the number of open ones.
pub record IsFdTable (s : FdTable) : Type 0 where
  pub above : (i : ℕ) → s.top ≤ i → (s.fde i).open_flag ≡ false
  pub highest : (s.top ≡ 0) ⊎ ((s.fde (s.top - 1)).open_flag ≡ true)
  pub counted : s.number_fd ≡ count_open s.fde s.top

fdlist_init-IsFdTable : IsFdTable fdlist_init
unfolding fdlist_init
fdlist_init-IsFdTable = record { above = λ i h. refl; highest = inl refl; counted = refl }

pub scan_down_lem :
    (t : ℕ → Fde) (n : ℕ)
    → (scan_down t n ≤ n)
      × ((scan_down t n ≡ 0) ⊎ ((t (scan_down t n - 1)).open_flag ≡ true))
      × (count_open t (scan_down t n) ≡ count_open t n)
unfolding scan_down
scan_down_lem t zero = (omega arith, inl refl, refl)
scan_down_lem t (suc n) = elim (Bool-cases (t n).open_flag) [
  | inl e ↦ rw e (omega arith, inr (ap (λ k. (t k).open_flag) (last n) ∙ e), rw e refl)
  | inr e ↦ let (le, top, same) = scan_down_lem t n in rw e (omega arith, top, same)
]
  where
    last : (k : ℕ) → suc k - 1 ≡ k
    last k = omega arith

pub scan_down-above : (t : ℕ → Fde) (n i : ℕ) → scan_down t n ≤ i → i < n → (t i).open_flag ≡ false
unfolding scan_down
scan_down-above t zero i lo hi = absurd (omega arith)
scan_down-above t (suc n) i lo hi = elim (Bool-cases (t n).open_flag) [
  | inl e ↦ absurd (ground arith)
  | inr e ↦ elim (Bool-cases (i == n)) [
    | inl same ↦ ap (λ k. (t k).open_flag) ((==_iff i n).0 same) ∙ e
    | inr below ↦ scan_down-above t n i (ground arith) (ground arith)
  ]
]

count_open-set_out :
    (t : ℕ → Fde) (fd n : ℕ) (f : Fde) → n ≤ fd → count_open (set_fde t fd f) n ≡ count_open t n
unfolding set_fde
count_open-set_out t fd zero f h = refl
count_open-set_out t fd (suc n) f h = ground (arith, count_open-set_out t fd n f)

-- Opening an entry counts one more, closing it one less.
pub count_open-open :
    (t : ℕ → Fde) (fd n : ℕ) (f : Fde)
    → fd < n
    → (t fd).open_flag ≡ false
    → f.open_flag ≡ true
    → count_open (set_fde t fd f) n ≡ suc (count_open t n)
unfolding set_fde
count_open-open t fd zero f h was now = absurd (omega arith)
count_open-open t fd (suc n) f h was now = elim (Bool-cases (n == fd)) [
  | inl e ↦
      ground (arith, count_open-set_out t fd n f, ap (λ k. (t k).open_flag) ((==_iff n fd).0 e))
  | inr e ↦ ground (arith, count_open-open t fd n f)
]

pub count_open-close :
    (t : ℕ → Fde) (fd n : ℕ) (f : Fde)
    → fd < n
    → (t fd).open_flag ≡ true
    → f.open_flag ≡ false
    → suc (count_open (set_fde t fd f) n) ≡ count_open t n
unfolding set_fde
count_open-close t fd zero f h was now = absurd (omega arith)
count_open-close t fd (suc n) f h was now = elim (Bool-cases (n == fd)) [
  | inl e ↦
      ground (arith, count_open-set_out t fd n f, ap (λ k. (t k).open_flag) ((==_iff n fd).0 e))
  | inr e ↦ ground (arith, count_open-close t fd n f)
]

-- A later write to the same entry, closed in both, counts the same.
pub count_open-cleared :
    (t : ℕ → Fde) (fd n : ℕ) (f g : Fde)
    → f.open_flag ≡ g.open_flag
    → count_open (set_fde (set_fde t fd f) fd g) n ≡ count_open (set_fde t fd f) n
unfolding set_fde
count_open-cleared t fd zero f g e = refl
count_open-cleared t fd (suc n) f g e = ground (arith, count_open-cleared t fd n f g e)

-- Entries that are closed between two bounds count nothing.
pub count_open-gap :
    (t : ℕ → Fde) (m n : ℕ)
    → m ≤ n
    → ((i : ℕ) → m ≤ i → i < n → (t i).open_flag ≡ false)
    → count_open t n ≡ count_open t m
count_open-gap t m zero h closed = let e : 0 ≡ m = omega arith in ap (count_open t) e
count_open-gap t m (suc n) h closed = elim (Bool-cases (m == suc n)) [
  | inl e ↦ ap (count_open t) (sym ((==_iff m (suc n)).0 e))
  | inr e ↦
      rw (closed n (ground arith) (omega arith))
        (count_open-gap t m n (ground arith) (λ i lo hi. closed i lo (omega arith)))
]

pub set_fde_open :
    (t : ℕ → Fde) (fd i : ℕ) (f : Fde)
    → (set_fde t fd f i).open_flag ≡ (if i == fd then f.open_flag else (t i).open_flag)
unfolding set_fde
set_fde_open t fd i f = ground arith
