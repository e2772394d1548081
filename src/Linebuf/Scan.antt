-- ===== src/Linebuf/Scan.antt =====
-- Lemmas on the byte scans of src/linebuf.c.
use ircd_hybrid_8_cvs.Common.{
  ℕ, suc, ◌+◌, ◌≤◌, ◌≡◌, refl, false, List, [], ◌∷◌, ◌++◌, arith, length, All,
}
use ircd_hybrid_8_cvs.Linebuf.Bytes.{
  is_eol, keep_unless_eol, skip_eols, skip_crlf, strip_eols, ends_in_eol,
}

-- No byte is a CR or a LF.
abbrev pub NoEol : List ℕ → Type 0
NoEol = All (λ c. is_eol c ≡ false)

-- The text does not begin with a CR or a LF.
abbrev pub StartsText : List ℕ → Type 0
StartsText [] = Unit {0}
StartsText (c ∷ cs) = is_eol c ≡ false

pub skip_eols-le : (cs : List ℕ) → skip_eols cs ≤ length cs
unfolding skip_eols
skip_eols-le [] = omega arith
skip_eols-le (c ∷ cs) = ground (arith, skip_eols-le cs)

pub skip_crlf_bounds :
    (c : ℕ) (cs : List ℕ) → (1 ≤ skip_crlf (c ∷ cs)) × (skip_crlf (c ∷ cs) ≤ suc (length cs))
unfolding skip_crlf
skip_crlf_bounds c [] = ground (arith, skip_eols-le [])
skip_crlf_bounds c (d ∷ ds) = ground (arith, skip_eols-le (d ∷ ds), skip_crlf_bounds d ds)

pub skip_crlf-line :
    (l rest : List ℕ) → NoEol l → StartsText rest → skip_crlf (l ++ 13 ∷ 10 ∷ rest) ≡ length l + 2
unfolding skip_crlf
skip_crlf-line [] [] h s = refl
skip_crlf-line [] (c ∷ cs) h s = ground arith
skip_crlf-line (c ∷ l) rest h s = ground (arith, skip_crlf-line l rest h.1 s)

pub skip_crlf-NoEol : (l : List ℕ) → NoEol l → skip_crlf l ≡ length l
unfolding skip_crlf
skip_crlf-NoEol [] h = refl
skip_crlf-NoEol (c ∷ l) h = ground (arith, skip_crlf-NoEol l h.1)

pub strip_eols-NoEol : (l : List ℕ) → NoEol l → strip_eols l ≡ l
unfolding strip_eols
strip_eols-NoEol [] h = refl
strip_eols-NoEol (c ∷ []) h = ground arith
strip_eols-NoEol (c ∷ d ∷ l) h = ground (arith, strip_eols-NoEol (d ∷ l) h.1)

pub strip_eols-line : (l : List ℕ) → NoEol l → strip_eols (l ++ 13 ∷ 10 ∷ []) ≡ l
unfolding strip_eols
strip_eols-line [] h = refl
strip_eols-line (c ∷ []) h = ground arith
strip_eols-line (c ∷ d ∷ l) h = ground (arith, strip_eols-line (d ∷ l) h.1)

pub length-strip_eols-le : (l : List ℕ) → length (strip_eols l) ≤ length l
unfolding strip_eols
length-strip_eols-le [] = omega arith
length-strip_eols-le (c ∷ l) = keep (strip_eols l) (length-strip_eols-le l)
  where
    keep : (r : List ℕ) → length r ≤ length l → length (keep_unless_eol c r) ≤ suc (length l)
    keep [] h = ground arith
    keep (d ∷ ds) h = omega arith

pub ends_in_eol-append : (d c : ℕ) (a b : List ℕ) → ends_in_eol d (a ++ c ∷ b) ≡ ends_in_eol c b
unfolding ends_in_eol
ends_in_eol-append d c [] b = refl
ends_in_eol-append d c (e ∷ a) b = ends_in_eol-append e c a b

pub ends_in_eol-NoEol : (d : ℕ) (l : List ℕ) → is_eol d ≡ false → NoEol l → ends_in_eol d l ≡ false
unfolding ends_in_eol
ends_in_eol-NoEol d [] e h = e
ends_in_eol-NoEol d (c ∷ l) e h = ends_in_eol-NoEol c l h.0 h.1

pub ends_in_eol-append_right :
    (d : ℕ) (a b : List ℕ) → 1 ≤ length b → ends_in_eol d (a ++ b) ≡ ends_in_eol 0 b
unfolding ends_in_eol
ends_in_eol-append_right d a [] h = absurd (omega arith)
ends_in_eol-append_right d a (c ∷ b) h = ends_in_eol-append d c a b
