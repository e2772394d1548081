-- ===== src/Linebuf/Parse.antt =====
-- src/linebuf.c, linebuf_parse: its loop, the bookkeeping of the queue, and raw data.
use ircd_hybrid_8_cvs.Common.{
  ℕ, zero, suc, ◌+◌, ◌≤◌, ◌≡◌, refl, sym, ap, ◌∙◌, inl, inr, Bool, true, false, List, [], ◌∷◌, ◌++◌,
  some, arith, length, drop, length-append, length-drop, append_assoc, append-nil, Option-cases,
  All, All-append,
}
use ircd_hybrid_8_cvs.Linebuf.Bytes.{ends_in_eol}
use ircd_hybrid_8_cvs.Linebuf.{
  BufLine, BufHead, Copied, new_line, newbuf, copy, copy_raw, set_last, last_line, push_copied,
  tail_copied, parse_loop, parse,
}
use ircd_hybrid_8_cvs.Linebuf.Accounting.{
  IsLine, IsCopied, ShortRuns, ShortRuns-drop, copy_line-IsCopied,
}
use ircd_hybrid_8_cvs.Linebuf.Raw.{copy_raw-IsRawCopied}

-- The sizes of the lines of a queue, added up.
abbrev pub total : List BufLine → ℕ
total [] = 0
total (l ∷ ls) = l.len + total ls

-- The bytes of a queue.
abbrev pub bytes_of : List BufLine → List ℕ
bytes_of [] = []
bytes_of (l ∷ ls) = l.text ++ bytes_of ls

-- The counters of a receive queue agree with its list, none of whose lines is being sent; `len` counts every byte in it at least once.
pub record IsQueue (h : BufHead) : Type 0 where
  pub lines : All IsLine h.list
  pub allocated : h.alloclen ≡ length h.list
  pub numbered : h.numlines ≡ length h.list
  pub counted : total h.list ≤ h.len

pub newbuf-IsQueue : IsQueue newbuf
unfolding newbuf
newbuf-IsQueue = record { lines = tt; allocated = refl; numbered = refl; counted = omega arith }

-- What the data must satisfy: none of it in raw mode.
abbrev pub Parsable : Bool → List ℕ → Type 0
Parsable true bytes = Unit {0}
Parsable false bytes = ShortRuns bytes

Parsable-drop : (raw : Bool) (n : ℕ) (cs : List ℕ) → Parsable raw cs → Parsable raw (drop n cs)
Parsable-drop true n cs h = tt
Parsable-drop false n cs h = ShortRuns-drop n cs h

copy-IsCopied :
    (raw : Bool) (beyond : ℕ) (l : BufLine) (b : ℕ) (bs : List ℕ)
    → IsLine l
    → Parsable raw (b ∷ bs)
    → (c : Copied) × (copy raw beyond l (b ∷ bs) ≡ some c) × IsCopied l (b ∷ bs) c
unfolding copy
copy-IsCopied true beyond l b bs v p = (_, refl, (copy_raw-IsRawCopied beyond l b bs v).copied)
copy-IsCopied false beyond l b bs v p = copy_line-IsCopied l (b ∷ bs) v p (omega arith)

new_line-IsLine : IsLine new_line
unfolding new_line ends_in_eol
new_line-IsLine = record { sized = refl; fits = omega arith; unfinished = λ e. refl; idle = refl }

total-append : (ls ks : List BufLine) → total (ls ++ ks) ≡ total ls + total ks
total-append [] ks = omega arith
total-append (l ∷ ls) ks = omega (arith, total-append ls ks)

push_copied-IsQueue :
    (h : BufHead) (c : Copied)
    → IsQueue h
    → IsLine c.line
    → c.line.len ≤ c.added
    → IsQueue (push_copied h c)
push_copied-IsQueue h c q v le = record {
  lines = All-append IsLine h.list (c.line ∷ []) q.lines (v, tt);
  allocated = omega (arith, q.allocated, length-append h.list (c.line ∷ []));
  numbered = omega (arith, q.numbered, length-append h.list (c.line ∷ []));
  counted = omega (arith, q.counted, total-append h.list (c.line ∷ []));
}

-- The loop of linebuf_parse ends within its fuel, and keeps the queue well formed.
parse_loop-total :
    (raw : Bool) (beyond fuel : ℕ) (h : BufHead) (bytes : List ℕ) (n : ℕ)
    → IsQueue h
    → Parsable raw bytes
    → length bytes ≤ fuel
    → (r : BufHead × ℕ) × (parse_loop raw beyond fuel h bytes n ≡ some r) × IsQueue r.0
unfolding parse_loop new_line
parse_loop-total raw beyond fuel h [] n q p le = ((h, n), refl, q)
parse_loop-total raw beyond zero h (b ∷ bs) n q p le = absurd (omega arith)
parse_loop-total raw beyond (suc fuel) h (b ∷ bs) n q p le =
    let (c, run, w) = copy-IsCopied raw beyond new_line b bs new_line-IsLine p in
    rw (run, parse_loop)
      (parse_loop-total raw beyond fuel (push_copied h c) (drop c.clen (b ∷ bs)) (n + 1)
        (push_copied-IsQueue h c q w.line (omega (arith, w.grows)))
        (Parsable-drop raw c.clen (b ∷ bs) p)
        (omega (arith, length-drop c.clen (b ∷ bs), w.progress refl (omega arith))))

last_line-IsLine :
    (ls : List BufLine) (l : BufLine) → All IsLine ls → last_line ls ≡ some l → IsLine l
last_line-IsLine [] l v e = cc
last_line-IsLine (k ∷ []) l v e = ground arith
last_line-IsLine (k ∷ j ∷ ks) l v e = last_line-IsLine (j ∷ ks) l v.1 e

set_last_lem :
    (ls : List BufLine) (l k : BufLine)
    → All IsLine ls
    → last_line ls ≡ some l
    → IsLine k
    → All IsLine (set_last ls k)
      × (length (set_last ls k) ≡ length ls)
      × (total (set_last ls k) + l.len ≡ total ls + k.len)
set_last_lem [] l k v e w = cc
set_last_lem (j ∷ []) l k v e w = ((w, tt), refl, ground arith)
set_last_lem (j ∷ i ∷ is) l k v e w =
    let (vs, len, sum) = set_last_lem (i ∷ is) l k v.1 e w in ((v.0, vs), omega arith, omega arith)

tail_copied-IsQueue :
    (h : BufHead) (l : BufLine) (bytes : List ℕ) (c : Copied)
    → IsQueue h
    → last_line h.list ≡ some l
    → IsCopied l bytes c
    → IsQueue (tail_copied h c)
tail_copied-IsQueue h l bytes c q e w =
    let (vs, len, sum) = set_last_lem h.list l c.line q.lines e w.line in
    record {
      lines = vs;
      allocated = omega (arith, q.allocated);
      numbered = omega (arith, q.numbered);
      counted = omega (arith, q.counted, w.grows);
    }

-- linebuf_parse where the queue has a last line.
parse-tail :
    (raw : Bool) (beyond : ℕ) (h : BufHead) (bytes : List ℕ) (l : BufLine) (c : Copied)
    → last_line h.list ≡ some l
    → l.flushing ≡ false
    → copy raw beyond l bytes ≡ some c
    → parse raw beyond h bytes
      ≡ parse_loop raw beyond (length bytes) (tail_copied h c) (drop c.clen bytes) 1
unfolding parse
parse-tail raw beyond h bytes l c e idle run = rw (e, run, idle, parse) refl

-- In a well-formed receive queue, with no line that is being sent, received data is always taken in: in raw mode whatever it is, and in line mode if no run of CRs
-- and LFs in it is longer than 510 bytes, linebuf_parse returns without an access outside the
-- buffer and with no failing assertion, whatever was in the queue and however long the data is; the line sizes and the three
-- counters of the queue stay right, and every line stays within 510 bytes.
pub parse-total :
    (raw : Bool) (beyond : ℕ) (h : BufHead) (b : ℕ) (bs : List ℕ)
    → IsQueue h
    → Parsable raw (b ∷ bs)
    → (r : BufHead × ℕ) × (parse raw beyond h (b ∷ bs) ≡ some r) × IsQueue r.0
unfolding parse
parse-total raw beyond h b bs q p = elim (Option-cases (last_line h.list)) [
  | inl e ↦
      rw (e, parse) (parse_loop-total raw beyond (suc (length bs)) h (b ∷ bs) 0 q p (omega arith))
  | inr (l, e) ↦
      let (c, run, w) = copy-IsCopied raw beyond l b bs (last_line-IsLine h.list l q.lines e) p in
      rw (parse-tail raw beyond h (b ∷ bs) l c e (last_line-IsLine h.list l q.lines e).idle run) (
        parse_loop-total raw beyond (suc (length bs)) (tail_copied h c) (drop c.clen (b ∷ bs)) 1
          (tail_copied-IsQueue h l (b ∷ bs) c q e w) (Parsable-drop raw c.clen (b ∷ bs) p)
          (omega (arith, length-drop c.clen (b ∷ bs))))
]

pub bytes_of-append : (ls ks : List BufLine) → bytes_of (ls ++ ks) ≡ bytes_of ls ++ bytes_of ks
bytes_of-append [] ks = refl
bytes_of-append (l ∷ ls) ks =
    ap (◌++◌ l.text) (bytes_of-append ls ks) ∙ sym (append_assoc l.text (bytes_of ls) (bytes_of ks))

copy-raw :
    (beyond : ℕ) (l : BufLine) (bytes : List ℕ)
    → copy true beyond l bytes ≡ some (copy_raw beyond l bytes)
unfolding copy
copy-raw beyond l bytes = refl

pushed_bytes :
    (h : BufHead) (c : Copied) (bytes rest : List ℕ)
    → c.line.text ++ rest ≡ bytes
    → bytes_of (push_copied h c).list ++ rest ≡ bytes_of h.list ++ bytes
pushed_bytes h c bytes rest e =
    rw (bytes_of-append, append-nil, append_assoc) (ap (◌++◌ (bytes_of h.list)) e)

-- A raw step: the bytes of the queue and the data left are what they were.
parse_loop_raw :
    (beyond fuel : ℕ) (h : BufHead) (bytes : List ℕ) (n : ℕ)
    → length bytes ≤ fuel
    → (r : BufHead × ℕ) × (parse_loop true beyond fuel h bytes n ≡ some r)
      × (bytes_of r.0.list ≡ bytes_of h.list ++ bytes)
      × (r.0.len ≡ h.len + length bytes)
unfolding parse_loop new_line
parse_loop_raw beyond fuel h [] n le = ((h, n), refl, sym (append-nil _), omega arith)
parse_loop_raw beyond zero h (b ∷ bs) n le = absurd (omega arith)
parse_loop_raw beyond (suc fuel) h (b ∷ bs) n le =
    let w = copy_raw-IsRawCopied beyond new_line b bs new_line-IsLine in
    let c = copy_raw beyond new_line (b ∷ bs) in
    let (r, run, kept, len) =
      parse_loop_raw beyond fuel (push_copied h c) (drop c.clen (b ∷ bs)) (n + 1)
        (omega (arith, length-drop c.clen (b ∷ bs), w.copied.progress refl (omega arith))) in
    (
      r,
      rw (copy-raw beyond new_line (b ∷ bs), parse_loop) run,
      kept ∙ pushed_bytes h c (b ∷ bs) (drop c.clen (b ∷ bs)) w.lossless,
      omega (arith, len, w.counted, w.copied.consumes, length-drop c.clen (b ∷ bs)),
    )

set_last_bytes :
    (ls : List BufLine) (l k : BufLine) (bytes rest : List ℕ)
    → last_line ls ≡ some l
    → k.text ++ rest ≡ l.text ++ bytes
    → bytes_of (set_last ls k) ++ rest ≡ bytes_of ls ++ bytes
set_last_bytes [] l k bytes rest e same = cc
set_last_bytes (j ∷ []) l k bytes rest e same =
    let p : l ≡ j = cc in
    rw (append-nil, append-nil) (same ∙ ap (λ (t : BufLine). t.text ++ bytes) p)
set_last_bytes (j ∷ i ∷ is) l k bytes rest e same =
    append_assoc j.text _ rest
    ∙ ap (◌++◌ j.text) (set_last_bytes (i ∷ is) l k bytes rest e same)
    ∙ sym (append_assoc j.text _ bytes)

-- In raw mode, in a well-formed receive queue, with no line that is being sent, no byte is lost, changed or moved: the lines of the queue, read one after another,
-- are what they were with the new data behind them, and `len` grows by the length of the data.
pub parse_raw_lossless :
    (beyond : ℕ) (h : BufHead) (b : ℕ) (bs : List ℕ)
    → IsQueue h
    → (r : BufHead × ℕ) × (parse true beyond h (b ∷ bs) ≡ some r)
      × (bytes_of r.0.list ≡ bytes_of h.list ++ b ∷ bs)
      × (r.0.len ≡ h.len + suc (length bs))
unfolding parse
parse_raw_lossless beyond h b bs q = elim (Option-cases (last_line h.list)) [
  | inl e ↦ rw (e, parse) (parse_loop_raw beyond (suc (length bs)) h (b ∷ bs) 0 (omega arith))
  | inr (l, e) ↦
      let w = copy_raw-IsRawCopied beyond l b bs (last_line-IsLine h.list l q.lines e) in
      let c = copy_raw beyond l (b ∷ bs) in
      let (r, run, kept, len) =
        parse_loop_raw beyond (suc (length bs)) (tail_copied h c) (drop c.clen (b ∷ bs)) 1
          (omega (arith, length-drop c.clen (b ∷ bs))) in
      (
        r,
        parse-tail true beyond h (b ∷ bs) l c e (last_line-IsLine h.list l q.lines e).idle
              (copy-raw beyond l (b ∷ bs))
            ∙ run,
        kept ∙ set_last_bytes h.list l c.line (b ∷ bs) (drop c.clen (b ∷ bs)) e w.lossless,
        omega (arith, len, w.counted, w.copied.consumes, length-drop c.clen (b ∷ bs)),
      )
]
