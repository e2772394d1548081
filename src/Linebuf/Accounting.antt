-- ===== src/Linebuf/Accounting.antt =====
-- src/linebuf.c: the sizes of lines, and what linebuf_copy_line does to them.
use mathlib.Core.List.{reverse-cons}
use ircd_hybrid_8_cvs.Common.{
  ℕ, zero, suc, ◌+◌, ◌-◌, ◌≤◌, ◌<◌, ◌≡◌, refl, ap, ◌∙◌, ◌⊎◌, inl, inr, true, false, List, [], ◌∷◌,
  ◌++◌, some, arith, length, take, drop, reverse, length-append, length-take, length-reverse,
  Bool-cases, ltb, ◌==◌,
}
use ircd_hybrid_8_cvs.Linebuf.Bytes.{
  buf_data_size, is_eol, skip_eols, skip_crlf, strip_eols, ends_in_eol, blank_back,
}
use ircd_hybrid_8_cvs.Linebuf.Scan.{
  skip_crlf_bounds, length-strip_eols-le, ends_in_eol-append_right,
}
use ircd_hybrid_8_cvs.Linebuf.{BufLine, Copied, full_line, copy_overflow, copy_fits, copy_line}

-- Some byte is neither CR nor LF.
abbrev HasText : List ℕ → Type 0
HasText [] = ⊥
HasText (c ∷ cs) = (is_eol c ≡ false) ⊎ HasText cs

HasText-left : (a b : List ℕ) → HasText a → HasText (a ++ b)
HasText-left [] b h = absurd h
HasText-left (c ∷ a) b (inl e) = inl e
HasText-left (c ∷ a) b (inr h) = inr (HasText-left a b h)

HasText-right : (a b : List ℕ) → HasText b → HasText (a ++ b)
HasText-right [] b h = h
HasText-right (c ∷ a) b h = inr (HasText-right a b h)

HasText-reverse : (a : List ℕ) → HasText a → HasText (reverse a)
HasText-reverse [] h = absurd h
HasText-reverse (c ∷ a) (inl e) = rw (reverse-cons c a) (HasText-right (reverse a) (c ∷ []) (inl e))
HasText-reverse (c ∷ a) (inr h) =
    rw (reverse-cons c a) (HasText-left (reverse a) (c ∷ []) (HasText-reverse a h))

HasText-of_end : (d : ℕ) (a : List ℕ) → 1 ≤ length a → ends_in_eol d a ≡ false → HasText a
unfolding ends_in_eol
HasText-of_end d [] p e = absurd (omega arith)
HasText-of_end d (c ∷ []) p e = inl e
HasText-of_end d (c ∷ b ∷ a) p e = inr (HasText-of_end c (b ∷ a) (omega arith) e)

HasText-take : (n : ℕ) (cs : List ℕ) → n ≤ length cs → HasText (take n cs) ⊎ (n ≤ skip_eols cs)
unfolding skip_eols
HasText-take zero cs h = inr (omega arith)
HasText-take (suc n) [] h = absurd (omega arith)
HasText-take (suc n) (c ∷ cs) h = elim (Bool-cases (is_eol c)) [
  | inr text ↦ inl (inl text)
  | inl eol ↦ elim (HasText-take n cs (omega arith)) [
    | inl t ↦ inl (inr t)
    | inr le ↦ inr (ground arith)
  ]
]

skip_crlf_of_eols : (cs : List ℕ) → 1 ≤ skip_eols cs → skip_crlf cs ≡ skip_eols cs
unfolding skip_crlf
skip_crlf_of_eols [] h = absurd (ground arith)
skip_crlf_of_eols (c ∷ cs) h = ground arith

blank_back-total :
    (k : ℕ) (r : List ℕ)
    → HasText r
    → (q : List ℕ) × (blank_back k r ≡ some q) × (length q ≡ length r)
unfolding blank_back
blank_back-total zero r h = (r, refl, refl)
blank_back-total (suc k) [] h = absurd h
blank_back-total (suc k) (c ∷ r) (inl e) = (c ∷ r, rw e, refl)
blank_back-total (suc k) (c ∷ r) (inr h) = elim (Bool-cases (is_eol c)) [
  | inr e ↦ (c ∷ r, rw e, refl)
  | inl e ↦ let (q, run, len) = blank_back-total k r h in (0 ∷ q, rw (e, run), omega arith)
]

-- No run of CRs and LFs is as long as a whole buffer.
abbrev pub ShortRuns : List ℕ → Type 0
ShortRuns [] = Unit {0}
ShortRuns (c ∷ cs) = (skip_eols (c ∷ cs) ≤ buf_data_size - 1) × ShortRuns cs

pub ShortRuns-drop : (n : ℕ) (cs : List ℕ) → ShortRuns cs → ShortRuns (drop n cs)
ShortRuns-drop zero cs h = h
ShortRuns-drop (suc n) [] h = tt
ShortRuns-drop (suc n) (c ∷ cs) h = ShortRuns-drop n cs h.1

ShortRuns-head : (cs : List ℕ) → ShortRuns cs → skip_eols cs ≤ buf_data_size - 1
unfolding skip_eols
ShortRuns-head [] h = omega arith
ShortRuns-head (c ∷ cs) h = h.0

-- A line that can still take data, or that waits for its reader: its size fits the buffer, and
-- text that is not complete does not end in a CR or a LF, and the line is not being sent.
pub record IsLine (l : BufLine) : Type 0 where
  pub sized : length l.text ≡ l.len
  pub fits : l.len ≤ buf_data_size - 1
  pub unfinished : l.terminated ≡ false → ends_in_eol 0 l.text ≡ false
  pub idle : l.flushing ≡ false

-- What a copy of `bytes` into the line `l` keeps.
pub record IsCopied (l : BufLine) (bytes : List ℕ) (c : Copied) : Type 0 where
  pub line : IsLine c.line
  pub grows : c.line.len ≤ l.len + c.added
  pub consumes : c.clen ≤ length bytes
  pub progress : l.terminated ≡ false → l.len < buf_data_size - 1 → 1 ≤ c.clen

overflow_text :
    (l : BufLine) (bytes : List ℕ)
    → IsLine l
    → l.terminated ≡ false
    → ShortRuns bytes
    → skip_crlf bytes ≤ length bytes
    → buf_data_size - l.len - 1 < skip_crlf bytes
    → HasText (reverse (l.text ++ take (buf_data_size - l.len - 1) bytes))
overflow_text l bytes v opened short le over = HasText-reverse _ (split l.text refl)
  where
    room : ℕ
    room = buf_data_size - l.len - 1

    split : (t : List ℕ) → l.text ≡ t → HasText (l.text ++ take room bytes)
    split (c ∷ t) e =
        HasText-left l.text (take room bytes)
          (HasText-of_end 0 l.text (rw e (omega arith)) (v.unfinished opened))
    split [] e = elim (HasText-take room bytes (omega arith)) [
      | inl t ↦ HasText-right l.text (take room bytes) t
      | inr n ↦ absurd (
          omega (
            arith,
            v.sized,
            ap length e,
            n,
            ShortRuns-head bytes short,
            skip_crlf_of_eols bytes (omega (arith, v.sized, ap length e)),
          ))
    ]

module _ (l : BufLine) (bytes : List ℕ) (v : IsLine l) where
  copy_overflow-IsCopied :
      (k : ℕ)
      → k ≤ length bytes
      → buf_data_size - l.len - 1 < k
      → HasText (reverse (l.text ++ take (buf_data_size - l.len - 1) bytes))
      → (c : Copied) × (copy_overflow l bytes k ≡ some c) × IsCopied l bytes c
  unfolding copy_overflow
  copy_overflow-IsCopied k le over text =
      let room = buf_data_size - l.len - 1 in
      let (q, run, len) = blank_back-total k _ text in
      (
        record { line = full_line l q; added = buf_data_size - 1; clen = k },
        rw (run, copy_overflow),
        record {
          line = record {
            sized = omega (
              arith,
              length-reverse q,
              len,
              length-reverse (l.text ++ take room bytes),
              length-append l.text (take room bytes),
              length-take room bytes,
              v.sized,
            );
            fits = omega arith;
            unfinished = λ e. cc;
            idle = v.idle;
          };
          grows = omega arith;
          consumes = le;
          progress = λ _ _. omega arith;
        },
      )

  copy_fits-IsCopied :
      (k : ℕ)
      → 1 ≤ k
      → k ≤ length bytes
      → k ≤ buf_data_size - l.len - 1
      → IsCopied l bytes (copy_fits l (take k bytes) k)
  unfolding copy_fits
  copy_fits-IsCopied k pos le fit = elim (Bool-cases (ends_in_eol 0 (take k bytes))) [
    | inl ends ↦ rw ends (record {
      line = record {
        sized = omega (arith, length-append l.text (strip_eols (take k bytes)), v.sized);
        fits = omega (arith, length-strip_eols-le (take k bytes), length-take k bytes);
        unfinished = λ e. cc;
        idle = v.idle;
      };
      grows = omega arith;
      consumes = le;
      progress = λ _ _. pos;
    })
    | inr more ↦ rw more (record {
      line = record {
        sized = omega (arith, length-append l.text (take k bytes), length-take k bytes, v.sized);
        fits = omega (arith, v.fits);
        unfinished = λ _.
            ends_in_eol-append_right 0 l.text (take k bytes) (omega (arith, length-take k bytes))
            ∙ more;
        idle = v.idle;
      };
      grows = omega arith;
      consumes = le;
      progress = λ _ _. pos;
    })
  ]

  pub copy_line-IsCopied :
      ShortRuns bytes
      → 1 ≤ length bytes
      → (c : Copied) × (copy_line l bytes ≡ some c) × IsCopied l bytes c
  unfolding copy_line
  copy_line-IsCopied short pos = rw room (elim (Bool-cases l.terminated) [
    | inl done ↦ (
      record { line = record l { raw = false }; added = 0; clen = 0 },
      rw done,
      record {
        line = record { sized = v.sized; fits = v.fits; unfinished = v.unfinished; idle = v.idle };
        grows = omega arith;
        consumes = omega arith;
        progress = λ e. cc;
      },
    )
    | inr more ↦ elim (Bool-cases (ltb (buf_data_size - l.len - 1) (skip_crlf bytes))) [
      | inl over ↦
          let (c, run, w) =
            copy_overflow-IsCopied (skip_crlf bytes) (within bytes pos).1 (ground arith)
              (overflow_text l bytes v more short (within bytes pos).1 (ground arith)) in
          (c, rw (more, some_bytes, over) run, w)
      | inr fit ↦ (
        copy_fits l (take (skip_crlf bytes) bytes) (skip_crlf bytes),
        rw (more, some_bytes, fit),
        copy_fits-IsCopied (skip_crlf bytes) (within bytes pos).0 (within bytes pos).1
            (ground arith),
      )
    ]
  ])
    where
      room : ltb l.len buf_data_size ≡ true
      room = ground (arith, v.fits)

      within : (cs : List ℕ) → 1 ≤ length cs → (1 ≤ skip_crlf cs) × (skip_crlf cs ≤ length cs)
      within [] h = absurd (omega arith)
      within (c ∷ cs) h = skip_crlf_bounds c cs

      some_bytes : (skip_crlf bytes == 0) ≡ false
      some_bytes = ground (arith, (within bytes pos).0)
