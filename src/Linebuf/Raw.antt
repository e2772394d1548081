-- ===== src/Linebuf/Raw.antt =====
-- src/linebuf.c, linebuf_copy_raw: what a raw copy keeps of the data.
use mathlib.Core.List.{append-nil, append_assoc}
use ircd_hybrid_8_cvs.Common.{
  ℕ, zero, suc, ◌+◌, ◌-◌, ◌≤◌, ◌<◌, ◌≡◌, refl, sym, ap, ◌∙◌, inl, inr, Bool, true, false, List, [],
  ◌∷◌, ◌++◌, arith, length, drop, drop-append, length-append, Bool-cases, ◌||◌, ◌==◌,
}
use ircd_hybrid_8_cvs.Linebuf.Bytes.{buf_data_size, is_eol, ends_in_eol}
use ircd_hybrid_8_cvs.Linebuf.Scan.{NoEol, ends_in_eol-append_right, ends_in_eol-NoEol}
use ircd_hybrid_8_cvs.Linebuf.{
  BufLine, Copied, raw_text, raw_eols, raw_remaining, raw_ends, add_raw, copy_raw,
}
use ircd_hybrid_8_cvs.Linebuf.Accounting.{IsLine, IsCopied}

raw_text-prefix : (n : ℕ) (cs : List ℕ) → raw_text n cs ++ drop (length (raw_text n cs)) cs ≡ cs
unfolding raw_text
raw_text-prefix zero cs = refl
raw_text-prefix (suc n) [] = refl
raw_text-prefix (suc n) (c ∷ cs) = ground (arith, raw_text-prefix n cs)

raw_text-le : (n : ℕ) (cs : List ℕ) → length (raw_text n cs) ≤ n
unfolding raw_text
raw_text-le zero cs = omega arith
raw_text-le (suc n) [] = omega arith
raw_text-le (suc n) (c ∷ cs) = ground (arith, raw_text-le n cs)

raw_text-NoEol : (n : ℕ) (cs : List ℕ) → NoEol (raw_text n cs)
unfolding raw_text
raw_text-NoEol zero cs = tt
raw_text-NoEol (suc n) [] = tt
raw_text-NoEol (suc n) (c ∷ cs) = ground (arith, raw_text-NoEol n cs)

raw_eols-prefix : (n : ℕ) (cs : List ℕ) → raw_eols n cs ++ drop (length (raw_eols n cs)) cs ≡ cs
unfolding raw_eols
raw_eols-prefix zero cs = refl
raw_eols-prefix (suc n) [] = refl
raw_eols-prefix (suc n) (c ∷ cs) = ground (arith, raw_eols-prefix n cs)

raw_eols-le : (n : ℕ) (cs : List ℕ) → length (raw_eols n cs) ≤ n
unfolding raw_eols
raw_eols-le zero cs = omega arith
raw_eols-le (suc n) [] = omega arith
raw_eols-le (suc n) (c ∷ cs) = ground (arith, raw_eols-le n cs)

-- A raw copy: what it keeps, and that the text of the line and the data left are what they were.
pub record IsRawCopied (l : BufLine) (bytes : List ℕ) (c : Copied) : Type 0 where
  pub copied : IsCopied l bytes c
  pub exact : c.line.len ≡ l.len + c.added
  pub counted : c.added ≡ c.clen
  pub lossless : c.line.text ++ drop c.clen bytes ≡ l.text ++ bytes

raw_remaining_bounds :
    (l : BufLine) (bytes : List ℕ)
    → (raw_remaining l bytes ≤ length bytes) × (raw_remaining l bytes ≤ buf_data_size - l.len - 1)
raw_remaining_bounds l bytes = ground arith

module _ (beyond : ℕ) (l : BufLine) (bytes : List ℕ) (v : IsLine l)
    (opened : l.terminated ≡ false) where
  -- What both branches of the code do, given the two pieces.
  add_raw-IsRawCopied :
      (text eols rest : List ℕ) (ends : Bool)
      → bytes ≡ text ++ eols ++ rest
      → length text + length eols ≤ buf_data_size - l.len - 1
      → NoEol text
      → (ends ≡ false → eols ≡ [])
      → (l.len < buf_data_size - 1 → 1 ≤ length text + length eols)
      → IsRawCopied l bytes (add_raw l text eols ends)
  add_raw-IsRawCopied text eols rest ends e fit plain none_left progress = record {
    copied = record {
      line = record {
        sized =
            omega (arith, length-append (l.text ++ text) eols, length-append l.text text, v.sized);
        fits = omega (arith, v.fits);
        unfinished = λ more. rw (none_left more, append-nil) (stays text plain);
        idle = v.idle;
      };
      grows = omega arith;
      consumes = rw e (omega (arith, length-append (text ++ eols) rest, length-append text eols));
      progress = λ _. progress;
    };
    exact = refl;
    counted = refl;
    lossless = rw (e, ← length-append, drop-append (text ++ eols) rest) (simp append_assoc);
  }
    where
      stays : (t : List ℕ) → NoEol t → ends_in_eol 0 (l.text ++ t) ≡ false
      stays [] h = rw append-nil (v.unfinished opened)
      stays (c ∷ t) h =
          ends_in_eol-append_right 0 l.text (c ∷ t) (omega arith)
          ∙ ends_in_eol-NoEol 0 (c ∷ t) refl h

raw_eols_some : (m b : ℕ) (bs : List ℕ) → 1 ≤ m → is_eol b ≡ true → 1 ≤ length (raw_eols m (b ∷ bs))
unfolding raw_eols
raw_eols_some zero b bs h e = absurd (omega arith)
raw_eols_some (suc m) b bs h e = rw e (omega arith)

raw_progress :
    (n b : ℕ) (bs : List ℕ)
    → 1 ≤ n
    → 1
      ≤ length (raw_text n (b ∷ bs))
        + length (
            raw_eols
              (n - length (raw_text n (b ∷ bs)))
              (drop (length (raw_text n (b ∷ bs))) (b ∷ bs)))
unfolding raw_text raw_eols
raw_progress zero b bs h = absurd (omega arith)
raw_progress (suc n) b bs h = elim (Bool-cases (is_eol b)) [
  | inl e ↦ rw e (omega (arith, raw_eols_some (suc n - 0) b bs (omega arith) e))
  | inr e ↦ rw e (omega arith)
]

raw_progress_open :
    (beyond : ℕ) (l : BufLine) (n b : ℕ) (bs : List ℕ)
    → 1 ≤ n
    → raw_ends beyond l (raw_text n (b ∷ bs)) (b ∷ bs) ≡ false
    → 1 ≤ length (raw_text n (b ∷ bs)) + 0
unfolding raw_text
raw_progress_open beyond l zero b bs h e = absurd (omega arith)
raw_progress_open beyond l (suc n) b bs h e = ground arith

-- A raw copy of some data keeps the line well formed, takes at least a byte if there is room, and
-- loses none.
pub copy_raw-IsRawCopied :
    (beyond : ℕ) (l : BufLine) (b : ℕ) (bs : List ℕ)
    → IsLine l
    → IsRawCopied l (b ∷ bs) (copy_raw beyond l (b ∷ bs))
unfolding copy_raw
copy_raw-IsRawCopied beyond l b bs v = elim (Bool-cases (l.len == buf_data_size || l.terminated)) [
  | inl stop ↦ rw stop (record {
    copied = record {
      line = v;
      grows = omega arith;
      consumes = omega arith;
      progress = λ opened room. absurd (ground arith);
    };
    exact = omega arith;
    counted = refl;
    lossless = refl;
  })
  | inr go ↦ rw go (elim (Bool-cases (raw_ends beyond l text bytes)) [
    | inl ends ↦ rw ends (
        add_raw-IsRawCopied beyond l bytes v (ground arith) text eols (drop (length eols) behind)
          true (split eols behind (raw_eols-prefix _ _) refl)
          (omega (arith, bounds.1, raw_text-le n bytes, raw_eols-le (n - length text) behind))
          (raw_text-NoEol n bytes) (λ e. cc) (λ room. raw_progress n b bs (ground arith)))
    | inr more ↦ rw more (
        add_raw-IsRawCopied beyond l bytes v (ground arith) text [] behind false
          (rw append-nil (sym (raw_text-prefix n bytes)))
          (omega (arith, bounds.1, raw_text-le n bytes)) (raw_text-NoEol n bytes) (λ e. refl)
          (λ room. raw_progress_open beyond l n b bs (ground arith) more))
  ])
]
  where
    bytes : List ℕ
    bytes = b ∷ bs

    n : ℕ
    n = raw_remaining l bytes

    text : List ℕ
    text = raw_text n bytes

    behind : List ℕ
    behind = drop (length text) bytes

    eols : List ℕ
    eols = raw_eols (n - length text) behind

    bounds : (n ≤ length bytes) × (n ≤ buf_data_size - l.len - 1)
    bounds = raw_remaining_bounds l bytes

    split :
        (es ds : List ℕ)
        → es ++ drop (length es) ds ≡ ds
        → ds ≡ behind
        → bytes ≡ text ++ es ++ drop (length es) ds
    split es ds e same =
        sym (append_assoc text es _ ∙ ap (◌++◌ text) (e ∙ same) ∙ raw_text-prefix n bytes)
