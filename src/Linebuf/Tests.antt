-- ===== src/Linebuf/Tests.antt =====
-- The theorems on the line buffers at concrete queues.
use ircd_hybrid_8_cvs.Common.{
  ℕ, zero, suc, ◌+◌, ◌≡◌, refl, true, false, List, [], ◌∷◌, ◌++◌, Option, some, length, map, arith,
  replicate, min, some_inj,
}
use ircd_hybrid_8_cvs.Linebuf.Bytes.{strip_eols, ends_in_eol, skip_eols}
use ircd_hybrid_8_cvs.Linebuf.{BufHead, newbuf, parse, flush, Flushed, wrote}
use ircd_hybrid_8_cvs.Linebuf.Accounting.{ShortRuns}
use ircd_hybrid_8_cvs.Linebuf.Parse.{
  bytes_of, IsQueue, newbuf-IsQueue, parse-total, parse_raw_lossless,
}
use ircd_hybrid_8_cvs.Linebuf.Lines.{IsSendable, received, wire}
use ircd_hybrid_8_cvs.Linebuf.Split.{parse_split}
use ircd_hybrid_8_cvs.Linebuf.Output.{flush-Sent, IsOut, IsWrite, Sent}
use ircd_hybrid_8_cvs.Linebuf.Limits.{AllEol}

-- "HI" and "YO"
abbrev hi : List ℕ
hi = 72 ∷ 73 ∷ []

abbrev yo : List ℕ
yo = 89 ∷ 79 ∷ []

hi-IsSendable : IsSendable hi
hi-IsSendable = record { some_text = omega arith; short = omega arith; plain = (refl, (refl, tt)) }

yo-IsSendable : IsSendable yo
yo-IsSendable = record { some_text = omega arith; short = omega arith; plain = (refl, (refl, tt)) }

-- A queue of one line.
abbrev one_line : BufHead
one_line = record { list = received hi ∷ []; alloclen = 1; len = 2; writeofs = 0; numlines = 1 }

one_line-IsQueue : IsQueue one_line
unfolding ends_in_eol
one_line-IsQueue = record {
  lines = (record { sized = refl; fits = omega arith; unfinished = λ e. refl; idle = refl }, tt);
  allocated = refl;
  numbered = refl;
  counted = omega arith;
}

one_line-IsOut : IsOut one_line
one_line-IsOut = ((refl, refl, refl), ((refl, omega arith), (λ e. omega arith), tt))

-- write(2) when it takes one byte at a time.
abbrev write_one : List ℕ → Option ℕ
write_one bytes = some (min 1 (length bytes))

write_one-IsWrite : IsWrite write_one
write_one-IsWrite bytes n e = ground (arith, some_inj e)

short_run : ShortRuns (72 ∷ 13 ∷ 10 ∷ [])
unfolding skip_eols
short_run = (omega arith, (omega arith, (omega arith, tt)))

parse-total_example :
    (r : BufHead × ℕ) × (parse false 0 newbuf (72 ∷ 13 ∷ 10 ∷ []) ≡ some r) × IsQueue r.0
parse-total_example = parse-total false 0 newbuf 72 (13 ∷ 10 ∷ []) newbuf-IsQueue short_run

parse_raw_lossless_example :
    (r : BufHead × ℕ) × (parse true 0 one_line (13 ∷ yo) ≡ some r)
    × (bytes_of r.0.list ≡ bytes_of one_line.list ++ 13 ∷ yo)
    × (r.0.len ≡ 2 + suc (length yo))
parse_raw_lossless_example = parse_raw_lossless 0 one_line 13 yo one_line-IsQueue

parse_split_example :
    (r s : BufHead × ℕ) × (parse false 0 newbuf (wire (yo ∷ []) ++ 72 ∷ []) ≡ some r)
    × (parse false 0 r.0 (73 ∷ 13 ∷ 10 ∷ wire []) ≡ some s)
    × (s.0.list ≡ map received (yo ∷ hi ∷ []))
parse_split_example =
    parse_split 0 (yo ∷ []) [] (72 ∷ []) (73 ∷ []) (yo-IsSendable, tt) tt hi-IsSendable
      (omega arith)

flush-Sent_example :
    (r : BufHead × Flushed) × (flush write_one one_line ≡ some r)
    × (r.1 ≡ wrote 1)
    × Sent write_one hi r.0 r.1
    × IsOut r.0
flush-Sent_example = flush-Sent write_one write_one-IsWrite one_line one_line-IsOut

yo_kept : strip_eols yo ≡ yo
unfolding strip_eols
yo_kept = refl

full_kept : strip_eols (replicate 511 65) ≡ replicate 511 65
unfolding strip_eols
full_kept = refl

newlines-AllEol : (n : ℕ) → AllEol (replicate n 10)
newlines-AllEol zero = tt
newlines-AllEol (suc n) = (refl, newlines-AllEol n)
