-- ===== src/Linebuf/Limits.antt =====
-- src/linebuf.c: the copies at the ends of the buffer and of the data.
use mathlib.Core.List.{reverse-cons}
use ircd_hybrid_8_cvs.Common.{
  ℕ, zero, suc, ◌+◌, ◌-◌, ◌≤◌, ◌<◌, ◌≡◌, refl, sym, ap, ◌∙◌, true, false, List, [], ◌∷◌, ◌++◌, none,
  some, arith, length, take, drop_all, length-reverse, length-take, reverse, ltb, All, All-append,
  ◌||◌, ◌==◌, if_elim,
}
use ircd_hybrid_8_cvs.Linebuf.Bytes.{buf_data_size, is_eol, skip_eols, skip_crlf, blank_back}
use ircd_hybrid_8_cvs.Linebuf.Scan.{NoEol}
use ircd_hybrid_8_cvs.Linebuf.{
  BufLine, Copied, new_line, copy_overflow, copy_line, raw_text, raw_remaining, raw_ends, copy_raw,
}

-- Every byte is a CR or a LF.
abbrev pub AllEol : List ℕ → Type 0
AllEol = All (λ c. is_eol c ≡ true)

AllEol-take : (n : ℕ) (cs : List ℕ) → AllEol cs → AllEol (take n cs)
AllEol-take zero cs h = tt
AllEol-take (suc n) [] h = tt
AllEol-take (suc n) (c ∷ cs) h = (h.0, AllEol-take n cs h.1)

AllEol-reverse : (cs : List ℕ) → AllEol cs → AllEol (reverse cs)
AllEol-reverse [] h = tt
AllEol-reverse (c ∷ cs) h =
    rw (reverse-cons c cs)
      (All-append (λ c. is_eol c ≡ true) (reverse cs) (c ∷ []) (AllEol-reverse cs h.1) (h.0, tt))

blank_back-none : (k : ℕ) (r : List ℕ) → AllEol r → length r < k → blank_back k r ≡ none
unfolding blank_back
blank_back-none zero r h lt = absurd (omega arith)
blank_back-none (suc k) [] h lt = refl
blank_back-none (suc k) (c ∷ r) h lt = rw (h.0, blank_back-none k r h.1 (omega arith))

skip_eols-AllEol : (cs : List ℕ) → AllEol cs → skip_eols cs ≡ length cs
unfolding skip_eols
skip_eols-AllEol [] h = refl
skip_eols-AllEol (c ∷ cs) h = rw (h.0, skip_eols-AllEol cs h.1)

skip_crlf-AllEol : (cs : List ℕ) → AllEol cs → skip_crlf cs ≡ length cs
unfolding skip_crlf
skip_crlf-AllEol [] h = refl
skip_crlf-AllEol (c ∷ cs) h = rw (h.0, skip_eols-AllEol cs h.1)

copy_overflow-none :
    (l : BufLine) (bytes : List ℕ) (k : ℕ)
    → blank_back k (reverse (l.text ++ take (buf_data_size - l.len - 1) bytes)) ≡ none
    → copy_overflow l bytes k ≡ none
unfolding copy_overflow
copy_overflow-none l bytes k e = rw (e, copy_overflow)

-- A run of more than 510 CRs and LFs, at the start of a line, makes linebuf_copy_line read before
-- the start of its buffer.
pub copy_line_underruns :
    (bytes : List ℕ)
    → AllEol bytes
    → buf_data_size - 1 < length bytes
    → copy_line new_line bytes ≡ none
unfolding copy_line new_line
copy_line_underruns bytes h long =
    rw (skip_crlf-AllEol bytes h, some_bytes, over)
      (copy_overflow-none new_line bytes (length bytes) none_left)
  where
    some_bytes : (length bytes == 0) ≡ false
    some_bytes = ground arith

    over : ltb (buf_data_size - 0 - 1) (length bytes) ≡ true
    over = ground arith

    none_left : blank_back (length bytes) (reverse (take (buf_data_size - 0 - 1) bytes)) ≡ none
    none_left =
        blank_back-none (length bytes) _ (AllEol-reverse _ (AllEol-take 510 bytes h))
          (omega (arith, length-reverse (take 510 bytes), length-take 510 bytes))

-- When the rest of an unfinished line does not fit, the bytes that the line had already are added
-- to bufhead->len again: it grows by the size of the line more than the line does.
pub copy_line_overcounts :
    (l : BufLine) (bytes : List ℕ) (c : Copied)
    → l.terminated ≡ false
    → 1 ≤ l.len
    → buf_data_size - l.len - 1 < skip_crlf bytes
    → copy_line l bytes ≡ some c
    → (l.len + c.added ≡ c.line.len + l.len) × (c.line.len < l.len + c.added)
unfolding copy_line copy_overflow
copy_line_overcounts l bytes c opened pos over e = ground arith

raw_text-all : (bytes : List ℕ) → NoEol bytes → raw_text (length bytes) bytes ≡ bytes
unfolding raw_text
raw_text-all [] h = refl
raw_text-all (c ∷ cs) h = rw (h.0, raw_text-all cs h.1)

-- A piece of text with no CR or LF that leaves room in the line ends the line or not as the byte
-- behind the data in memory happens to be: linebuf_copy_raw reads it.
pub copy_raw_reads_beyond :
    (beyond : ℕ) (l : BufLine) (bytes : List ℕ)
    → l.terminated ≡ false
    → length bytes < buf_data_size - l.len - 1
    → NoEol bytes
    → (copy_raw beyond l bytes).line.terminated ≡ is_eol beyond
unfolding copy_raw
copy_raw_reads_beyond beyond l bytes opened room plain = rw go (
    if_elim {A = Copied} (λ r. r.line.terminated ≡ is_eol beyond)
      (raw_ends beyond l (raw_text (raw_remaining l bytes) bytes) bytes) (λ t. sym t ∙ test)
      (λ f. sym f ∙ test))
  where
    go : (l.len == buf_data_size || l.terminated) ≡ false
    go = ground arith

    all : raw_remaining l bytes ≡ length bytes
    all = ground arith

    last : raw_ends beyond l bytes bytes ≡ is_eol beyond
    last = rw (drop_all (length bytes) bytes (omega arith)) (ground arith)

    test : raw_ends beyond l (raw_text (raw_remaining l bytes) bytes) bytes ≡ is_eol beyond
    test =
        ap (λ t. raw_ends beyond l t bytes)
          (ap (λ n. raw_text n bytes) all ∙ raw_text-all bytes plain)
        ∙ last
