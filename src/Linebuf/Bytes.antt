-- ===== src/Linebuf/Bytes.antt =====
-- src/linebuf.c: the scans over bytes, apart from any buffer.
use ircd_hybrid_8_cvs.Common.{
  ℕ, zero, suc, Bool, ◌||◌, List, [], ◌∷◌, Option, none, some, ◌==◌, if◌then◌else◌,
}

-- BUF_DATA_SIZE, include/linebuf.h
abbrev pub buf_data_size : ℕ
buf_data_size = 511

-- '\r' or '\n'
abbrev pub is_eol : ℕ → Bool
is_eol c = c == 13 || c == 10

-- The second loop of linebuf_skip_crlf: how many bytes of CR and LF stand first.
unfoldable pub skip_eols : List ℕ → ℕ
skip_eols [] = 0
skip_eols (c ∷ cs) = if is_eol c then suc (skip_eols cs) else 0

-- linebuf_skip_crlf: the bytes up to and with the first run of CR and LF.
unfoldable pub skip_crlf : List ℕ → ℕ
unfolding skip_eols
skip_crlf [] = 0
skip_crlf (c ∷ cs) = if is_eol c then suc (skip_eols cs) else suc (skip_crlf cs)

-- Keep `c` in front of what is left of the rest, unless it has become a trailing CR or LF.
abbrev pub keep_unless_eol : ℕ → List ℕ → List ℕ
keep_unless_eol c [] = if is_eol c then [] else c ∷ []
keep_unless_eol c (d ∷ ds) = c ∷ d ∷ ds

-- `while (cpylen && (*bufch == '\r' || *bufch == '\n')) { cpylen--; bufch--; }` over the bytes
-- that were copied: what stays of them.
unfoldable pub strip_eols : List ℕ → List ℕ
strip_eols [] = []
strip_eols (c ∷ cs) = keep_unless_eol c (strip_eols cs)

-- Whether the last byte of a text is a CR or a LF; `d` is the byte before the text.
unfoldable pub ends_in_eol : ℕ → List ℕ → Bool
ends_in_eol d [] = is_eol d
ends_in_eol d (c ∷ cs) = ends_in_eol c cs

-- The same loop in the overflow branch, over the whole buffer, read from its end: each CR or LF
-- becomes NUL while `cpylen` lasts. `none` is a read before the start of the buffer.
unfoldable pub blank_back : ℕ → List ℕ → Option (List ℕ)
blank_back zero r = some r
blank_back (suc k) [] = none
blank_back (suc k) (c ∷ r) =
    let rest = blank_back k r in
    if is_eol c then elim rest [ none ↦ none | some q ↦ some (0 ∷ q) ] else some (c ∷ r)

-- The leading loop of the clean-up in linebuf_get.
unfoldable pub drop_eols : List ℕ → List ℕ
drop_eols [] = []
drop_eols (c ∷ cs) = if is_eol c then drop_eols cs else c ∷ cs
