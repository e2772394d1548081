-- ===== src/Linebuf/Output.antt =====
-- src/linebuf.c: linebuf_get, linebuf_put and linebuf_flush.
use ircd_hybrid_8_cvs.Common.{
  ℕ, zero, suc, ◌+◌, ◌-◌, ◌≤◌, ◌<◌, ◌≡◌, refl, sym, ap, ◌∙◌, inl, inr, Bool, true, false, List, [],
  ◌∷◌, ◌++◌, Option, none, some, arith, length, take, drop, length-append, append_assoc, append-nil,
  length-drop, take_all, drop-add, take-append-drop, Bool-cases, if◌then◌else◌, All, ◌||◌, ◌==◌,
  ltb,
}
use ircd_hybrid_8_cvs.Linebuf.Bytes.{buf_data_size, strip_eols}
use ircd_hybrid_8_cvs.Linebuf.{
  BufLine, BufHead, without_line, done_line, tail_ends, clean, get, put, put_text, Flushed,
  would_block, failed, wrote, wrote_some, begin_flush, flush_line, after_write, flush,
}
use ircd_hybrid_8_cvs.Linebuf.Parse.{total, bytes_of, bytes_of-append, IsQueue}

-- In a well-formed receive queue, given a buffer with room for the oldest line and a NUL, linebuf_get
-- gives out that line if it is complete, or if partial lines are asked for: the line leaves the queue,
-- with its bytes and its place in the counters, and the rest stays. Else the queue stays as it was,
-- and nothing is given out.
pub get_lem :
    (h : BufHead) (buflen : ℕ) (partial raw : Bool) (l : BufLine) (rest : List BufLine)
    → IsQueue h
    → h.list ≡ l ∷ rest
    → l.len < buflen
    → let out = partial || l.terminated in
      (r : BufHead × List ℕ) × (get h buflen partial raw ≡ some r)
      × IsQueue r.0
      × (r.0.list ≡ (if out then rest else h.list))
      × (r.0.len + (if out then l.len else 0) ≡ h.len)
      × (r.1 ≡ (if out then clean l raw else []))
unfolding get done_line
get_lem h buflen partial raw l rest q e room = elim (Bool-cases (partial || l.terminated)) [
  | inl out ↦ (
    (without_line h l rest, clean l raw),
    rw (e, get, out, room_left, counted_line),
    record {
      lines = (rw e at q.lines).1;
      allocated = omega (arith, q.allocated, ap length e);
      numbered = omega (arith, q.numbered, ap length e);
      counted = omega (arith, q.counted, ap total e);
    },
    rw out refl,
    rw out (omega (arith, q.counted, ap total e)),
    rw out refl,
  )
  | inr keep ↦ ((h, []), ground arith, q, rw keep refl, rw keep (omega arith), rw keep refl)
]
  where
    room_left : ltb buflen (l.len + 1) ≡ false
    room_left = ground arith

    counted_line : ltb h.len l.len ≡ false
    counted_line = ground (arith, q.counted, ap total e)

-- What a writer still has to send: the texts of the lines, less what was written of the first.
abbrev pub pending_lines : ℕ → List BufLine → List ℕ
pending_lines ofs [] = []
pending_lines ofs (l ∷ ls) = (if l.flushing then drop ofs l.text else l.text) ++ bytes_of ls

abbrev pub pending : BufHead → List ℕ
pending h = pending_lines h.writeofs h.list

-- A send queue: each line has the size that it says and text to write, only the first can have
-- been written in part, and not to its end.
abbrev pub IsOutLine : BufLine → Type 0
IsOutLine l = (length l.text ≡ l.len) × (1 ≤ l.len)

abbrev pub Untouched : List BufLine → Type 0
Untouched = All (λ l. IsOutLine l × (l.flushing ≡ false))

abbrev pub IsOutList : ℕ → List BufLine → Type 0
IsOutList ofs [] = Unit {0}
IsOutList ofs (l ∷ ls) = IsOutLine l × (l.flushing ≡ true → ofs < l.len) × Untouched ls

-- The counters of a send queue are right.
abbrev pub AreCounted : BufHead → List BufLine → Type 0
AreCounted h ls = (h.len ≡ total ls) × (h.numlines ≡ length ls) × (h.alloclen ≡ length ls)

abbrev pub IsOut : BufHead → Type 0
IsOut h = AreCounted h h.list × IsOutList h.writeofs h.list

-- What linebuf_flush is to offer to `write`: the rest of the first line, if that is complete.
abbrev pub offer_lines : ℕ → List BufLine → Option (List ℕ)
offer_lines ofs [] = none
offer_lines ofs (l ∷ ls) =
    if l.terminated then some (if l.flushing then drop ofs l.text else l.text) else none

-- What linebuf_flush is to return.
abbrev pub answered : Option ℕ → Flushed
answered none = failed
answered (some n) = wrote n

abbrev pub answer_to : (List ℕ → Option ℕ) → Option (List ℕ) → Flushed
answer_to write none = would_block
answer_to write (some bytes) = answered (write bytes)

-- What a call of linebuf_flush did to the bytes that were pending: it sent the first of them, as
-- many as `write` took, and the others are still pending.
abbrev pub Sent : (List ℕ → Option ℕ) → List ℕ → BufHead → Flushed → Type 0
Sent write bytes h would_block = pending h ≡ bytes
Sent write bytes h failed = pending h ≡ bytes
Sent write bytes h (wrote n) =
    (offered : List ℕ) × (write offered ≡ some n) × (bytes ≡ take n offered ++ pending h)

pending-Untouched : (ls : List BufLine) → Untouched ls → pending_lines 0 ls ≡ bytes_of ls
pending-Untouched [] u = refl
pending-Untouched (l ∷ ls) u = rw u.0.1

Untouched-IsOut : (ls : List BufLine) → Untouched ls → IsOutList 0 ls
Untouched-IsOut [] u = tt
Untouched-IsOut (l ∷ ls) u = (u.0.0, (λ e. cc (u.0.1)), u.1)

-- What is known of `write`: it takes no more than it is offered.
abbrev pub IsWrite : (List ℕ → Option ℕ) → Type 0
IsWrite write = (bytes : List ℕ) (n : ℕ) → write bytes ≡ some n → n ≤ length bytes

-- A call came to an end with that answer, and what it did to the pending bytes and to the queue.
abbrev pub HasFlushed : (List ℕ → Option ℕ) → List ℕ → Flushed → Option (BufHead × Flushed) → Type 0
HasFlushed write bytes answer o =
    (r : BufHead × Flushed) × (o ≡ some r) × (r.1 ≡ answer) × Sent write bytes r.0 r.1 × IsOut r.0

module _ (write : List ℕ → Option ℕ) (sound : IsWrite write) where
  wrote_some_lem :
      (h : BufHead) (l : BufLine) (rest : List BufLine) (n : ℕ)
      → AreCounted h (l ∷ rest)
      → IsOutLine l
      → l.flushing ≡ true
      → Untouched rest
      → h.writeofs < l.len
      → write (drop h.writeofs l.text) ≡ some n
      → (r : BufHead) × (wrote_some h l rest n ≡ some r)
        × Sent write (drop h.writeofs l.text ++ bytes_of rest) r (wrote n)
        × IsOut r
  unfolding wrote_some done_line
  wrote_some_lem h l rest n count v flushing u within e =
      elim (Bool-cases (h.writeofs + n == l.len)) [
        | inl done ↦ (
          without_line (record h { writeofs = 0 }) l rest,
          rw (done, long),
          (
            drop h.writeofs l.text,
            e,
            rw (pending-Untouched rest u) (
                ap (λ t. t ++ bytes_of rest)
                  (sym (take_all n (drop h.writeofs l.text) (left n (ground arith))))),
          ),
          (
            (omega (arith, count.0), omega (arith, count.1), omega (arith, count.2)),
            Untouched-IsOut rest u,
          ),
        )
        | inr more ↦ (
          record h { list = l ∷ rest; writeofs = h.writeofs + n },
          rw more,
          (
            drop h.writeofs l.text,
            e,
            rw (flushing, drop-add h.writeofs n l.text, ← append_assoc)
                (ap (λ t. t ++ bytes_of rest) (sym (take-append-drop n (drop h.writeofs l.text)))),
          ),
          (count, (v, (λ _. below (sound _ n e) more), u)),
        )
      ]
    where
      long : ltb h.len l.len ≡ false
      long = ground (arith, count.0)

      left : (k : ℕ) → h.writeofs + k ≡ l.len → length (drop h.writeofs l.text) ≤ k
      left k done = omega (arith, length-drop h.writeofs l.text, v.0)

      below :
          {k : ℕ}
          → k ≤ length (drop h.writeofs l.text)
          → (h.writeofs + k == l.len) ≡ false
          → h.writeofs + k < l.len
      below {k} le ne = ground (arith, length-drop h.writeofs l.text, v.0)

  after_write_lem :
      (h : BufHead) (l : BufLine) (rest : List BufLine) (answer : Option ℕ)
      → h.list ≡ l ∷ rest
      → AreCounted h (l ∷ rest)
      → IsOutLine l
      → l.flushing ≡ true
      → Untouched rest
      → h.writeofs < l.len
      → write (drop h.writeofs l.text) ≡ answer
      → HasFlushed write
          (drop h.writeofs l.text ++ bytes_of rest)
          (answered answer)
          (after_write h l rest answer)
  unfolding after_write
  after_write_lem h l rest none e count v flushing u within took =
      ((h, failed), refl, refl, rw (e, flushing) refl, rw e (count, (v, (λ _. within), u)))
  after_write_lem h l rest (some zero) e count v flushing u within took = (
    (h, wrote 0),
    refl,
    refl,
    (drop h.writeofs l.text, took, rw (e, flushing) refl),
    rw e (count, (v, (λ _. within), u)),
  )
  after_write_lem h l rest (some (suc n)) e count v flushing u within took =
      let (r, run, sent, out) = wrote_some_lem h l rest (suc n) count v flushing u within took in
      ((r, wrote (suc n)), rw (run, after_write), refl, sent, out)

  flush_first :
      (h : BufHead) (l : BufLine) (rest : List BufLine)
      → h.list ≡ l ∷ rest
      → AreCounted h (l ∷ rest)
      → IsOutList h.writeofs (l ∷ rest)
      → HasFlushed write
          (pending_lines h.writeofs (l ∷ rest))
          (answered (write (if l.flushing then drop h.writeofs l.text else l.text)))
          (flush_line write (begin_flush h l rest) (record l { flushing = true }) rest)
  unfolding flush_line begin_flush
  flush_first h l rest e count v = elim (Bool-cases l.flushing) [
    | inl busy ↦ rw busy (
        after_write_lem h (record l { flushing = true }) rest _
          (e ∙ λ i. record l { flushing = busy i } ∷ rest) count v.0 refl v.2 (v.1 busy) refl)
    | inr idle ↦ rw idle (
        after_write_lem (record h { list = record l { flushing = true } ∷ rest; writeofs = 0 })
          (record l { flushing = true }) rest _ refl count v.0 refl v.2 v.0.1 refl)
  ]

  -- For a write that takes no more than it is offered, and a well-formed send queue, whose counters
  -- are right: linebuf_flush meets no failing assertion. It offers `write` what is left of the first
  -- line, if that is complete, and returns its answer; it takes off the bytes that `write` took, and
  -- leaves the others pending, also where there is nothing to send, no complete line, or an error.
  -- The queue stays well formed, and its counters right: a line that is sent to its end leaves them.
  pub flush-Sent :
      (h : BufHead)
      → IsOut h
      → (r : BufHead × Flushed) × (flush write h ≡ some r)
        × (r.1 ≡ answer_to write (offer_lines h.writeofs h.list))
        × Sent write (pending h) r.0 r.1
        × IsOut r.0
  unfolding flush
  flush-Sent h (count, v) = split h.list refl count v
    where
      split :
          (ls : List BufLine)
          → h.list ≡ ls
          → AreCounted h ls
          → IsOutList h.writeofs ls
          → HasFlushed write
              (pending h)
              (answer_to write (offer_lines h.writeofs h.list))
              (flush write h)
      split [] e n w = ((h, would_block), ground arith, rw e refl, refl, (count, v))
      split (l ∷ rest) e n w = rw (e, flush) (complete l.terminated)
        where
          complete :
              (b : Bool)
              → HasFlushed write
                  (pending_lines h.writeofs (l ∷ rest))
                  (answer_to write (
                    if b
                    then some (if l.flushing then drop h.writeofs l.text else l.text)
                    else none))
                  (if b
                    then flush_line write (begin_flush h l rest) (record l { flushing = true }) rest
                    else some (h, would_block))
          complete true = flush_first h l rest e n w
          complete false = ((h, would_block), refl, refl, rw e refl, (count, v))

-- Where the last line is complete, linebuf_put takes a text of up to 510 bytes that does not end in a
-- CR or a LF as one complete line, with a CR and a LF behind it, at the end of the queue; the text has
-- at least one byte.
pub put_lem :
    (h : BufHead) (bytes : List ℕ)
    → strip_eols bytes ≡ bytes
    → 1 ≤ length bytes
    → length bytes ≤ buf_data_size - 1
    → tail_ends h.list ≡ true
    → (r : BufHead) × (put h bytes ≡ some r)
      × (bytes_of r.list ≡ bytes_of h.list ++ bytes ++ 13 ∷ 10 ∷ [])
      × (r.len ≡ h.len + length bytes + 2)
      × (length r.list ≡ length h.list + 1)
unfolding put
put_lem h bytes kept pos short ended = (
  put_text h (bytes ++ 13 ∷ 10 ∷ []),
  rw (take_all buf_data_size bytes (omega arith), kept)
      (ground (arith, length-append bytes (13 ∷ 10 ∷ []))),
  bytes_of-append h.list _
      ∙ ap (◌++◌ (bytes_of h.list)) (append-nil (bytes ++ 13 ∷ 10 ∷ []))
      ∙ sym (append_assoc (bytes_of h.list) bytes (13 ∷ 10 ∷ [])),
  omega (arith, length-append bytes (13 ∷ 10 ∷ [])),
  length-append h.list _,
)

-- For a text of 511 bytes that does not end in a CR or a LF, linebuf_put writes the NUL that ends
-- the line behind the end of its buffer.
pub put_overruns :
    (h : BufHead) (bytes : List ℕ)
    → strip_eols bytes ≡ bytes
    → length bytes ≡ buf_data_size
    → put h bytes ≡ none
unfolding put
put_overruns h bytes kept full =
    rw (take_all buf_data_size bytes (omega arith), kept)
      (ground (arith, length-append bytes (13 ∷ 10 ∷ [])))
