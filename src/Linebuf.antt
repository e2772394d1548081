-- ===== src/Linebuf.antt =====
-- src/linebuf.c and include/linebuf.h: the queues of lines between a socket and the parser.
-- A line is owned by the one queue that it stands in: `refcount` and the sharing of lines by
-- `linebuf_attach` are not part of this model. `text` is the first `len` bytes of `buf`; the NUL
-- that the code writes behind them is not kept, but a write or a read outside the buffer is
-- `none`.
pub mod Bytes
pub mod Scan
pub mod Accounting
pub mod Raw
pub mod Parse
pub mod Lines
pub mod Split
pub mod Output
pub mod Limits
mod Tests
use ircd_hybrid_8_cvs.Common.{
  ℕ, zero, suc, ◌+◌, ◌-◌, Bool, true, false, ◌&&◌, ◌||◌, not, List, [], ◌∷◌, ◌++◌, Option, none,
  some, ltb, ◌==◌, if◌then◌else◌, length, take, drop, reverse,
}
use Bytes.{
  buf_data_size, is_eol, skip_eols, skip_crlf, strip_eols, ends_in_eol, blank_back, drop_eols,
}

-- struct _buf_line
pub record BufLine : Type 0 where
  pub text : List ℕ
  pub terminated : Bool
  pub flushing : Bool
  pub raw : Bool
  pub len : ℕ

-- struct _buf_head
pub record BufHead : Type 0 where
  pub list : List BufLine
  pub len : ℕ
  pub alloclen : ℕ
  pub writeofs : ℕ
  pub numlines : ℕ

-- linebuf_newbuf
unfoldable pub newbuf : BufHead
newbuf = record { list = []; len = 0; alloclen = 0; writeofs = 0; numlines = 0 }

-- The line that linebuf_new_line puts at the end of the queue.
unfoldable pub new_line : BufLine
new_line = record { text = []; terminated = false; flushing = false; raw = false; len = 0 }

-- The queue that linebuf_done_line leaves: `rest` is the list without the line.
abbrev pub without_line : BufHead → BufLine → List BufLine → BufHead
without_line h l rest = record h {
  list = rest;
  alloclen = h.alloclen - 1;
  len = h.len - l.len;
  numlines = h.numlines - 1;
}

-- linebuf_done_line; `none` is its assertion that bufhead->len has not fallen below zero.
unfoldable pub done_line : BufHead → BufLine → List BufLine → Option BufHead
done_line h l rest = if ltb h.len l.len then none else some (without_line h l rest)

-- The loop of linebuf_donebuf, over the lines of the list.
unfoldable pub done_lines : List BufLine → BufHead → Option BufHead
unfolding done_line
done_lines [] h = some h
done_lines (l ∷ ls) h = elim (done_line h l ls) [ none ↦ none | some r ↦ done_lines ls r ]

-- linebuf_donebuf
unfoldable pub donebuf : BufHead → Option BufHead
unfolding done_lines
donebuf h = done_lines h.list h

-- What a copy into a line gives: the line, what bufhead->len grows by, the bytes consumed.
pub record Copied : Type 0 where
  pub line : BufLine
  pub added : ℕ
  pub clen : ℕ

-- A line that the overflow branch filled, with the bytes of its buffer from the last to the first.
abbrev pub full_line : BufLine → List ℕ → BufLine
full_line l r = record l {
  text = reverse r;
  raw = false;
  terminated = true;
  len = buf_data_size - 1;
}

-- The branch of linebuf_copy_line for more bytes than the line has room for.
unfoldable pub copy_overflow : BufLine → List ℕ → ℕ → Option Copied
unfolding blank_back
copy_overflow l bytes cpylen =
    elim (blank_back cpylen (reverse (l.text ++ take (buf_data_size - l.len - 1) bytes))) [
      | none ↦ none
      | some r ↦ some (record { line = full_line l r; added = buf_data_size - 1; clen = cpylen })
    ]

-- The rest of linebuf_copy_line: `copied` is what `memcpy` appends, `cpylen` its length.
unfoldable pub copy_fits : BufLine → List ℕ → ℕ → Copied
unfolding ends_in_eol strip_eols
copy_fits l copied cpylen =
    if ends_in_eol 0 copied
    then record {
      line = record l {
        text = l.text ++ strip_eols copied;
        raw = false;
        terminated = true;
        len = l.len + length (strip_eols copied);
      };
      added = length (strip_eols copied);
      clen = cpylen;
    }
    else record {
      line = record l {
        text = l.text ++ copied;
        raw = false;
        terminated = false;
        len = l.len + cpylen;
      };
      added = cpylen;
      clen = cpylen;
    }

-- linebuf_copy_line; `none` is a fault, its assertion on the length of the line, or that of
-- linebuf_skip_crlf that there is a byte to take.
unfoldable pub copy_line : BufLine → List ℕ → Option Copied
unfolding skip_crlf copy_overflow copy_fits
copy_line l bytes =
    if not (ltb l.len buf_data_size)
    then none
    else if l.terminated
    then some (record { line = record l { raw = false }; added = 0; clen = 0 })
    else (let cpylen = skip_crlf bytes in
        if cpylen == 0
        then none
        else if ltb (buf_data_size - l.len - 1) cpylen
        then copy_overflow l bytes cpylen
        else some (copy_fits l (take cpylen bytes) cpylen))

-- The first loop of linebuf_copy_raw: the bytes up to a CR or LF, at most `remaining`.
unfoldable pub raw_text : ℕ → List ℕ → List ℕ
raw_text zero cs = []
raw_text (suc n) [] = []
raw_text (suc n) (c ∷ cs) = if is_eol c then [] else c ∷ raw_text n cs

-- Its second loop: the CRs and LFs that follow.
unfoldable pub raw_eols : ℕ → List ℕ → List ℕ
raw_eols zero cs = []
raw_eols (suc n) [] = []
raw_eols (suc n) (c ∷ cs) = if is_eol c then c ∷ raw_eols n cs else []

-- `*ch`, which may be the byte behind the data that was read.
abbrev pub byte_at : List ℕ → ℕ → ℕ
byte_at [] beyond = beyond
byte_at (c ∷ cs) beyond = c

-- `remaining` before the first loop of linebuf_copy_raw.
abbrev pub raw_remaining : BufLine → List ℕ → ℕ
raw_remaining l bytes =
    let room = buf_data_size - l.len - 1 in if ltb (length bytes) room then length bytes else room

-- The test between its loops, after `text` was copied.
abbrev pub raw_ends : ℕ → BufLine → List ℕ → List ℕ → Bool
raw_ends beyond l text bytes =
    is_eol (byte_at (drop (length text) bytes) beyond)
    || not (ltb (length text) (buf_data_size - l.len - 1))

-- What it leaves when `text` and `eols` were copied.
abbrev pub add_raw : BufLine → List ℕ → List ℕ → Bool → Copied
add_raw l text eols ends = record {
  line = record l {
    text = l.text ++ text ++ eols;
    terminated = ends;
    raw = true;
    len = l.len + (length text + length eols);
  };
  added = length text + length eols;
  clen = length text + length eols;
}

-- linebuf_copy_raw; `beyond` is the byte that stands in memory behind the data.
unfoldable pub copy_raw : ℕ → BufLine → List ℕ → Copied
unfolding raw_text raw_eols
copy_raw beyond l bytes =
    if l.len == buf_data_size || l.terminated
    then record { line = l; added = 0; clen = 0 }
    else (let text = raw_text (raw_remaining l bytes) bytes in
        if raw_ends beyond l text bytes
        then add_raw l text
            (raw_eols (raw_remaining l bytes - length text) (drop (length text) bytes)) true
        else add_raw l text [] false)

-- `if (raw) linebuf_copy_raw(...) else linebuf_copy_line(...)`
unfoldable pub copy : Bool → ℕ → BufLine → List ℕ → Option Copied
copy raw beyond l bytes = if raw then some (copy_raw beyond l bytes) else copy_line l bytes

-- Replace the last line of a list.
abbrev pub set_last : List BufLine → BufLine → List BufLine
set_last [] l = []
set_last (k ∷ []) l = l ∷ []
set_last (k ∷ j ∷ ks) l = k ∷ set_last (j ∷ ks) l

-- bufhead->list.tail->data
abbrev pub last_line : List BufLine → Option BufLine
last_line [] = none
last_line (k ∷ []) = some k
last_line (k ∷ j ∷ ks) = last_line (j ∷ ks)

-- The state of the queue after a copy into its new last line.
abbrev pub push_copied : BufHead → Copied → BufHead
push_copied h c = record h {
  list = h.list ++ c.line ∷ [];
  len = h.len + c.added;
  alloclen = h.alloclen + 1;
  numlines = h.numlines + 1;
}

-- The loop of linebuf_parse, on fuel: `none` is a fault or the end of the fuel.
unfoldable pub parse_loop : Bool → ℕ → ℕ → BufHead → List ℕ → ℕ → Option (BufHead × ℕ)
parse_loop raw beyond fuel h [] linecnt = some (h, linecnt)
parse_loop raw beyond zero h (b ∷ bs) linecnt = none
parse_loop raw beyond (suc fuel) h (b ∷ bs) linecnt = elim (copy raw beyond new_line (b ∷ bs)) [
  | none ↦ none
  | some c ↦ parse_loop raw beyond fuel (push_copied h c) (drop c.clen (b ∷ bs)) (linecnt + 1)
]

-- The queue after the copy into its partial last line.
abbrev pub tail_copied : BufHead → Copied → BufHead
tail_copied h c = record h { list = set_last h.list c.line; len = h.len + c.added }

-- linebuf_parse: the new queue and the line count that it returns; a last line that is being sent
-- makes its assertion fail. Each round of the loop consumes a byte, so the length of the data is
-- fuel enough.
unfoldable pub parse : Bool → ℕ → BufHead → List ℕ → Option (BufHead × ℕ)
parse raw beyond h bytes = elim (last_line h.list) [
  | none ↦ parse_loop raw beyond (length bytes) h bytes 0
  | some l ↦ if l.flushing then none else elim (copy raw beyond l bytes) [
    | none ↦ none
    | some c ↦ parse_loop raw beyond (length bytes) (tail_copied h c) (drop c.clen bytes) 1
  ]
]

-- The clean-up in linebuf_get of a line that may hold CRs and LFs.
unfoldable pub clean : BufLine → Bool → List ℕ
unfolding drop_eols strip_eols
clean l raw = if l.raw && not raw then strip_eols (drop_eols l.text) else l.text

-- linebuf_get into a buffer of `buflen` bytes: the queue after it and the bytes copied, whose number
-- it returns. `none` is an assertion that fails.
unfoldable pub get : BufHead → ℕ → Bool → Bool → Option (BufHead × List ℕ)
unfolding clean done_line
get h buflen partial raw = elim h.list [
  | [] ↦ some (h, [])
  | l ∷ rest ↦
      if not (partial || l.terminated)
      then some (h, [])
      else if ltb buflen (l.len + 1)
      then none
      else elim (done_line h l rest) [ none ↦ none | some r ↦ some (r, clean l raw) ]
]

-- The queue with one more complete line.
abbrev pub put_text : BufHead → List ℕ → BufHead
put_text h text = record h {
  list =
      h.list
      ++ record { text = text; terminated = true; flushing = false; raw = false; len = length text }
        ∷ [];
  len = h.len + length text;
  alloclen = h.alloclen + 1;
  numlines = h.numlines + 1;
}

-- The assertion of linebuf_put on the last line.
abbrev pub tail_ends : List BufLine → Bool
tail_ends ls = elim (last_line ls) [ none ↦ true | some l ↦ l.terminated ]

-- linebuf_put of a text with no NUL, which ends at `buflen` or is cut there; if it is cut, the
-- assertion that a NUL stands there fails. `none` is that, a last line that is not complete, or the
-- write behind the end of `buf`, whose size is BUF_DATA_SIZE + 2. (A text of CRs and LFs alone makes
-- the code read before its start.)
unfoldable pub put : BufHead → List ℕ → Option BufHead
unfolding strip_eols
put h bytes =
    let kept = strip_eols (take buf_data_size bytes) in
    let text = kept ++ 13 ∷ 10 ∷ [] in
    if not (tail_ends h.list)
      || ltb buf_data_size (length bytes)
      || length kept == 0
      || ltb (buf_data_size + 1) (length text)
    then none
    else some (put_text h text)

-- What linebuf_flush returns.
pub data Flushed : Type 0 where
  would_block : Flushed
  failed : Flushed
  wrote : ℕ → Flushed

-- The part of linebuf_flush behind `write`, which took `n` bytes.
unfoldable pub wrote_some : BufHead → BufLine → List BufLine → ℕ → Option BufHead
unfolding done_line
wrote_some h l rest n =
    let ofs = h.writeofs + n in
    if ofs == l.len
    then done_line (record h { writeofs = 0 }) l rest
    else some (record h { list = l ∷ rest; writeofs = ofs })

-- `bufline->flushing = 1; bufhead->writeofs = 0;` for a line that is not yet being flushed.
unfoldable pub begin_flush : BufHead → BufLine → List BufLine → BufHead
begin_flush h l rest =
    if l.flushing then h else record h { list = record l { flushing = true } ∷ rest; writeofs = 0 }

-- What linebuf_flush makes of the answer of `write`: `none` for an error, or the number of bytes
-- that it took.
unfoldable pub after_write :
    BufHead → BufLine → List BufLine → Option ℕ → Option (BufHead × Flushed)
after_write h l rest none = some (h, failed)
after_write h l rest (some zero) = some (h, wrote 0)
after_write h l rest (some (suc n)) = elim (wrote_some h l rest (suc n)) [
  | none ↦ none
  | some r ↦ some (r, wrote (suc n))
]

-- The call of `write`, which is offered what is left of the line.
unfoldable pub flush_line :
    (List ℕ → Option ℕ) → BufHead → BufLine → List BufLine → Option (BufHead × Flushed)
flush_line write h l rest = after_write h l rest (write (drop h.writeofs l.text))

-- linebuf_flush; `none` is the assertion of linebuf_done_line.
unfoldable pub flush : (List ℕ → Option ℕ) → BufHead → Option (BufHead × Flushed)
flush write h = elim h.list [
  | [] ↦ some (h, would_block)
  | l ∷ rest ↦
      if l.terminated
      then flush_line write (begin_flush h l rest) (record l { flushing = true }) rest
      else some (h, would_block)
]
