-- ===== src/Linebuf/Split.antt =====
-- src/linebuf.c: lines that arrive in two pieces.
use mathlib.Core.List.{map-append}
use ircd_hybrid_8_cvs.Common.{
  ℕ, ◌+◌, ◌-◌, ◌≤◌, ◌≡◌, sym, ap, ◌∙◌, false, List, [], ◌∷◌, ◌++◌, Option, some, arith, length,
  length-append, append_assoc, append-nil, All, map,
}
use ircd_hybrid_8_cvs.Linebuf.Bytes.{buf_data_size}
use ircd_hybrid_8_cvs.Linebuf.Scan.{NoEol}
use ircd_hybrid_8_cvs.Linebuf.{
  BufLine, BufHead, Copied, newbuf, copy, push_copied, tail_copied, set_last, last_line, parse_loop,
  parse,
}
use ircd_hybrid_8_cvs.Linebuf.Lines.{
  IsSendable, received, wire, wire-StartsText, drop_line, partial, copy_line_end, push_all,
  list-push_all, copy_beyond, parse_loop-wire, parse_loop-partial, parse_loop_done,
  last_line-append, set_last-append, NoEol-split,
}

more_copied : List ℕ → Copied
more_copied a = record { line = partial a; added = length a; clen = length a }

-- The queue after complete lines and a piece of the next one.
parse_piece :
    (beyond : ℕ) (ls : List (List ℕ)) (a : List ℕ)
    → All IsSendable ls
    → 1 ≤ length a
    → length a ≤ buf_data_size - 3
    → NoEol a
    → parse false beyond newbuf (wire ls ++ a)
      ≡ some (push_copied (push_all ls newbuf) (more_copied a), length ls + 1)
unfolding parse newbuf more_copied
parse_piece beyond ls [] vl pos short plain = absurd (omega arith)
parse_piece beyond ls (c ∷ a) vl pos short plain =
    let (f, enough, e) =
      parse_loop-wire beyond (length (wire ls ++ c ∷ a)) ls newbuf (c ∷ a) 0 vl plain.0
        (omega arith) in
    e
    ∙ parse_loop-partial beyond f (push_all ls newbuf) (c ∷ a) (0 + length ls) pos short plain
        enough
    ∙ ap {B = Option (BufHead × ℕ)}
        (λ n. some (
          push_copied (push_all ls newbuf)
              (record { line = partial (c ∷ a); added = length (c ∷ a); clen = length (c ∷ a) }),
          n,
        ))
        (omega arith)

-- The rest of that line, and more lines.
parse_rest :
    (beyond : ℕ) (h : BufHead) (ks : List BufLine) (ms : List (List ℕ)) (a b : List ℕ)
    → h.list ≡ ks ++ partial a ∷ []
    → All IsSendable ms
    → length a + length b ≤ buf_data_size - 3
    → NoEol b
    → (s : BufHead × ℕ) × (parse false beyond h (b ++ 13 ∷ 10 ∷ wire ms) ≡ some s)
      × (s.0.list ≡ ks ++ received (a ++ b) ∷ map received ms)
unfolding parse
parse_rest beyond h ks ms a b e vm short plain =
    let bytes = b ++ 13 ∷ 10 ∷ wire ms in
    let c : Copied = record { line = received (a ++ b); added = length b; clen = length b + 2 } in
    let here : last_line h.list ≡ some (partial a) =
      ap last_line e ∙ last_line-append ks (partial a) in
    let run : copy false beyond (partial a) bytes ≡ some c =
      copy_beyond beyond (partial a) bytes
      ∙ copy_line_end a b (wire ms) short plain (wire-StartsText ms vm) in
    let (f, enough, loop) =
      parse_loop-wire beyond (length bytes) ms (tail_copied h c) [] 1 vm tt
        (omega (arith, ap length (append-nil (wire ms)), length-append b (13 ∷ 10 ∷ wire ms))) in
    (
      (push_all ms (tail_copied h c), 1 + length ms),
      rw (here, run, parse, drop_line b (wire ms))
          (ap (λ w. parse_loop false beyond (length bytes) (tail_copied h c) w 1)
              (sym (append-nil (wire ms)))
            ∙ loop
            ∙ parse_loop_done beyond f (push_all ms (tail_copied h c)) (1 + length ms)),
      list-push_all ms (tail_copied h c)
          ∙ ap (λ l. set_last l c.line ++ map received ms) e
          ∙ ap (λ l. l ++ map received ms) (set_last-append ks (partial a) c.line)
          ∙ append_assoc ks (c.line ∷ []) (map received ms),
    )

-- Complete lines, each of one to 508 bytes with no CR or LF, of which one arrives in two pieces with
-- at least one byte in the first: two calls of linebuf_parse, from an empty queue on, put them all in
-- the queue, in order, each complete and without its CR and LF.
pub parse_split :
    (beyond : ℕ) (ls ms : List (List ℕ)) (a b : List ℕ)
    → All IsSendable ls
    → All IsSendable ms
    → IsSendable (a ++ b)
    → 1 ≤ length a
    → (r s : BufHead × ℕ) × (parse false beyond newbuf (wire ls ++ a) ≡ some r)
      × (parse false beyond r.0 (b ++ 13 ∷ 10 ∷ wire ms) ≡ some s)
      × (s.0.list ≡ map received (ls ++ (a ++ b) ∷ ms))
unfolding newbuf more_copied
parse_split beyond ls ms a b vl vm v pos =
    let (plain_a, plain_b) = NoEol-split a b v.plain in
    let h = push_copied (push_all ls newbuf) (more_copied a) in
    let (s, run, lines) =
      parse_rest beyond h (map received ls) ms a b
        (ap (λ k. k ++ partial a ∷ []) (list-push_all ls newbuf)) vm
        (omega (arith, v.short, length-append a b)) plain_b in
    (
      (h, length ls + 1),
      s,
      parse_piece beyond ls a vl pos (omega (arith, v.short, length-append a b)) plain_a,
      run,
      lines ∙ sym (map-append received ls ((a ++ b) ∷ ms)),
    )
