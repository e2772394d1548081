-- ===== src/Linebuf/Lines.antt =====
-- src/linebuf.c, linebuf_parse in line mode: complete lines.
use ircd_hybrid_8_cvs.Common.{
  ℕ, zero, suc, ◌+◌, ◌-◌, ◌≤◌, ◌≡◌, refl, sym, ap, ◌∙◌, true, false, List, [], ◌∷◌, ◌++◌, some,
  arith, length, take, drop, length-append, append_assoc, append-nil, drop_all, take_all, ltb, ◌==◌,
  All, map,
}
use ircd_hybrid_8_cvs.Linebuf.Bytes.{buf_data_size, ends_in_eol}
use ircd_hybrid_8_cvs.Linebuf.Scan.{
  NoEol, StartsText, skip_crlf-line, skip_crlf-NoEol, strip_eols-line, ends_in_eol-append_right,
  ends_in_eol-NoEol,
}
use ircd_hybrid_8_cvs.Linebuf.{
  BufLine, BufHead, Copied, new_line, newbuf, copy_line, copy_fits, copy, push_copied, set_last,
  last_line, parse_loop, parse,
}

-- A line that can be sent: some text, with no CR or LF, that leaves room for both.
pub record IsSendable (l : List ℕ) : Type 0 where
  pub some_text : 1 ≤ length l
  pub short : length l ≤ buf_data_size - 3
  pub plain : NoEol l

-- The line that the queue holds when `text` has arrived complete.
abbrev pub received : List ℕ → BufLine
received text = record {
  text = text;
  terminated = true;
  flushing = false;
  raw = false;
  len = length text;
}

-- Each line with its CR and LF.
abbrev pub wire : List (List ℕ) → List ℕ
wire [] = []
wire (l ∷ ls) = l ++ 13 ∷ 10 ∷ wire ls

pub wire-StartsText : (ls : List (List ℕ)) → All IsSendable ls → StartsText (wire ls)
wire-StartsText [] v = tt
wire-StartsText ([] ∷ ls) v = absurd (omega (arith, v.0.some_text))
wire-StartsText ((c ∷ l) ∷ ls) v = v.0.plain.0

suc_two : (n : ℕ) → suc n + 2 ≡ suc (n + 2)
suc_two n = omega arith

take_line : (l rest : List ℕ) → take (length l + 2) (l ++ 13 ∷ 10 ∷ rest) ≡ l ++ 13 ∷ 10 ∷ []
take_line [] rest = refl
take_line (c ∷ l) rest =
    ap (λ n. take n (c ∷ (l ++ 13 ∷ 10 ∷ rest))) (suc_two (length l))
    ∙ ap (◌∷◌ c) (take_line l rest)

pub drop_line : (l rest : List ℕ) → drop (length l + 2) (l ++ 13 ∷ 10 ∷ rest) ≡ rest
drop_line [] rest = refl
drop_line (c ∷ l) rest =
    ap (λ n. drop n (c ∷ (l ++ 13 ∷ 10 ∷ rest))) (suc_two (length l)) ∙ drop_line l rest

-- The line that holds `text`, whose end has not arrived.
abbrev pub partial : List ℕ → BufLine
partial text = record {
  text = text;
  terminated = false;
  flushing = false;
  raw = false;
  len = length text;
}

-- The rest of a line comes, with its CR and LF: the line is complete.
pub copy_line_end :
    (a b rest : List ℕ)
    → length a + length b ≤ buf_data_size - 3
    → NoEol b
    → StartsText rest
    → copy_line (partial a) (b ++ 13 ∷ 10 ∷ rest)
      ≡ some (record { line = received (a ++ b); added = length b; clen = length b + 2 })
unfolding copy_line
copy_line_end a b rest short plain st =
    rw (room, skip_crlf-line b rest plain st, some_bytes, lt_false) (ap some done)
  where
    some_bytes : (length b + 2 == 0) ≡ false
    some_bytes = ground arith

    room : ltb (length a) buf_data_size ≡ true
    room = ground arith

    lt_false : ltb (buf_data_size - length a - 1) (length b + 2) ≡ false
    lt_false = ground arith

    ends : ends_in_eol 0 (b ++ 13 ∷ 10 ∷ []) ≡ true
    ends = ends_in_eol-append_right 0 b (13 ∷ 10 ∷ []) (omega arith)

    done :
        copy_fits (partial a) (take (length b + 2) (b ++ 13 ∷ 10 ∷ rest)) (length b + 2)
        ≡ record { line = received (a ++ b); added = length b; clen = length b + 2 }
    done = rw (take_line, ends, strip_eols-line b plain) (rw (length-append a b))

-- More text of a line comes, without its end.
copy_line_more :
    (a b : List ℕ)
    → length a + length b ≤ buf_data_size - 1
    → 1 ≤ length b
    → NoEol b
    → copy_line (partial a) b
      ≡ some (record { line = partial (a ++ b); added = length b; clen = length b })
unfolding copy_line
copy_line_more a b short pos plain =
    rw
      (
        room,
        skip_crlf-NoEol b plain,
        some_bytes,
        lt_false,
        take_all (length b) b (omega arith),
        ends_in_eol-NoEol 0 b refl plain,
      )
      (rw (length-append a b))
  where
    room : ltb (length a) buf_data_size ≡ true
    room = ground arith

    some_bytes : (length b == 0) ≡ false
    some_bytes = ground arith

    lt_false : ltb (buf_data_size - length a - 1) (length b) ≡ false
    lt_false = ground arith

-- What the copy of a complete line gives.
abbrev line_copied : List ℕ → Copied
line_copied l = record { line = received l; added = length l; clen = length l + 2 }

-- The queue with complete lines behind what it had.
abbrev pub push_all : List (List ℕ) → BufHead → BufHead
push_all [] h = h
push_all (l ∷ ls) h = push_all ls (push_copied h (line_copied l))

pub list-push_all :
    (ls : List (List ℕ)) (h : BufHead) → (push_all ls h).list ≡ h.list ++ map received ls
list-push_all [] h = sym (append-nil h.list)
list-push_all (l ∷ ls) h =
    list-push_all ls (push_copied h (line_copied l))
    ∙ append_assoc h.list (received l ∷ []) (map received ls)

copy_line_whole :
    (l rest : List ℕ)
    → IsSendable l
    → StartsText rest
    → copy false 0 new_line (l ++ 13 ∷ 10 ∷ rest) ≡ some (line_copied l)
unfolding copy new_line
copy_line_whole l rest v st = copy_line_end [] l rest (omega (arith, v.short)) v.plain st

start_more :
    (b : List ℕ)
    → 1 ≤ length b
    → length b ≤ buf_data_size - 3
    → NoEol b
    → copy_line new_line b ≡ some (record { line = partial b; added = length b; clen = length b })
unfolding new_line
start_more b pos short plain = copy_line_more [] b (omega arith) pos plain

pub copy_beyond :
    (beyond : ℕ) (l : BufLine) (bytes : List ℕ) → copy false beyond l bytes ≡ copy_line l bytes
unfolding copy
copy_beyond beyond l bytes = refl

-- One round of the loop of linebuf_parse at a complete line.
parse_loop_line :
    (beyond fuel : ℕ) (h : BufHead) (l rest : List ℕ) (n : ℕ)
    → IsSendable l
    → StartsText rest
    → parse_loop false beyond (suc fuel) h (l ++ 13 ∷ 10 ∷ rest) n
      ≡ parse_loop false beyond fuel (push_copied h (line_copied l)) rest (n + 1)
unfolding parse_loop
parse_loop_line beyond fuel h [] rest n v st = absurd (omega (arith, v.some_text))
parse_loop_line beyond fuel h (c ∷ l) rest n v st =
    rw
      (
        copy_beyond beyond new_line (c ∷ (l ++ 13 ∷ 10 ∷ rest)),
        ← copy_beyond 0,
        copy_line_whole (c ∷ l) rest v st,
        parse_loop,
      )
      (ap (λ r. parse_loop false beyond fuel (push_copied h (line_copied (c ∷ l))) r (n + 1))
        (drop_line (c ∷ l) rest))

-- The loop of linebuf_parse takes complete lines one by one.
pub parse_loop-wire :
    (beyond fuel : ℕ) (ls : List (List ℕ)) (h : BufHead) (rest : List ℕ) (n : ℕ)
    → All IsSendable ls
    → StartsText rest
    → length (wire ls ++ rest) ≤ fuel
    → (f : ℕ) × (length rest ≤ f)
      × (parse_loop false beyond fuel h (wire ls ++ rest) n
          ≡ parse_loop false beyond f (push_all ls h) rest (n + length ls))
parse_loop-wire beyond fuel [] h rest n v st le =
    (fuel, le, ap (parse_loop false beyond fuel h rest) (omega arith))
parse_loop-wire beyond zero (l ∷ ls) h rest n v st le = absurd (
    omega (arith, length-append (l ++ 13 ∷ 10 ∷ wire ls) rest, length-append l (13 ∷ 10 ∷ wire ls)))
parse_loop-wire beyond (suc fuel) (l ∷ ls) h rest n v st le =
    let (f, enough, e) =
      parse_loop-wire beyond fuel ls (push_copied h (line_copied l)) rest (n + 1) v.1 st (
        omega (
          arith,
          length-append (l ++ 13 ∷ 10 ∷ wire ls) rest,
          length-append l (13 ∷ 10 ∷ wire ls),
          length-append (wire ls) rest,
        )) in
    (
      f,
      enough,
      ap (λ w. parse_loop false beyond (suc fuel) h w n) (append_assoc l (13 ∷ 10 ∷ wire ls) rest)
          ∙ parse_loop_line beyond fuel h l (wire ls ++ rest) n v.0 (starts ls v.1)
          ∙ e
          ∙ ap (parse_loop false beyond f (push_all (l ∷ ls) h) rest) (omega arith),
    )
  where
    starts : (ks : List (List ℕ)) → All IsSendable ks → StartsText (wire ks ++ rest)
    starts [] v = st
    starts ([] ∷ ks) v = absurd (omega (arith, v.0.some_text))
    starts ((c ∷ k) ∷ ks) v = v.0.plain.0

-- The last round: text without its end.
pub parse_loop-partial :
    (beyond f : ℕ) (h : BufHead) (a : List ℕ) (n : ℕ)
    → 1 ≤ length a
    → length a ≤ buf_data_size - 3
    → NoEol a
    → length a ≤ f
    → parse_loop false beyond f h a n
      ≡ some (push_copied h (record { line = partial a; added = length a; clen = length a }), n + 1)
unfolding parse_loop
parse_loop-partial beyond f h [] n pos short plain le = absurd (omega arith)
parse_loop-partial beyond zero h (c ∷ a) n pos short plain le = absurd (omega arith)
parse_loop-partial beyond (suc f) h (c ∷ a) n pos short plain le =
    rw (first, parse_loop, drop_all (length (c ∷ a)) (c ∷ a) (omega arith)) (closed f)
  where
    first :
        copy false beyond new_line (c ∷ a)
        ≡ some (record { line = partial (c ∷ a); added = length (c ∷ a); clen = length (c ∷ a) })
    first = copy_beyond beyond new_line (c ∷ a) ∙ start_more (c ∷ a) pos short plain

    closed : (g : ℕ) {k : BufHead} {m : ℕ} → parse_loop false beyond g k [] m ≡ some (k, m)
    closed zero = refl
    closed (suc g) = refl

pub parse_loop_done :
    (beyond f : ℕ) (h : BufHead) (n : ℕ) → parse_loop false beyond f h [] n ≡ some (h, n)
unfolding parse_loop
parse_loop_done beyond zero h n = refl
parse_loop_done beyond (suc f) h n = refl

pub last_line-append : (ls : List BufLine) (l : BufLine) → last_line (ls ++ l ∷ []) ≡ some l
last_line-append [] l = refl
last_line-append (k ∷ []) l = refl
last_line-append (k ∷ j ∷ ks) l = last_line-append (j ∷ ks) l

pub set_last-append : (ls : List BufLine) (l k : BufLine) → set_last (ls ++ l ∷ []) k ≡ ls ++ k ∷ []
set_last-append [] l k = refl
set_last-append (j ∷ []) l k = refl
set_last-append (j ∷ i ∷ is) l k = ap (◌∷◌ j) (set_last-append (i ∷ is) l k)

pub NoEol-split : (a b : List ℕ) → NoEol (a ++ b) → NoEol a × NoEol b
NoEol-split [] b h = (tt, h)
NoEol-split (c ∷ a) b h = ((h.0, (NoEol-split a b h.1).0), (NoEol-split a b h.1).1)

-- Complete lines, each of one to 508 bytes with no CR or LF, that arrive together in an empty queue stand
-- in it in order, each complete and without its CR and LF.
pub parse-wire :
    (beyond : ℕ) (ls : List (List ℕ))
    → All IsSendable ls
    → (r : BufHead × ℕ) × (parse false beyond newbuf (wire ls) ≡ some r)
      × (r.0.list ≡ map received ls)
      × (r.1 ≡ length ls)
unfolding parse newbuf
parse-wire beyond ls v =
    let (f, enough, e) =
      parse_loop-wire beyond (length (wire ls)) ls newbuf [] 0 v tt
        (omega (arith, ap length (append-nil (wire ls)))) in
    (
      (push_all ls newbuf, 0 + length ls),
      ap (λ w. parse_loop false beyond (length (wire ls)) newbuf w 0) (sym (append-nil (wire ls)))
          ∙ e
          ∙ parse_loop_done beyond f (push_all ls newbuf) (0 + length ls),
      list-push_all ls newbuf,
      omega arith,
    )
