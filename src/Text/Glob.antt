-- ===== src/Text/Glob.antt =====
-- src/match.c: match. `mask` and `name` are texts without their NUL; a pointer into one is the text
-- from there on. The result is `none` where the code reads behind the NUL of the name.
use ircd_hybrid_8_cvs.Common.{
  ℕ, zero, suc, Bool, true, false, ◌&&◌, ◌||◌, not, List, [], ◌∷◌, Option, none, some, ◌==◌,
  if◌then◌else◌, reverse,
}
use ircd_hybrid_8_cvs.Text.Chars.{to_lower}

-- m, n, ma, na, wild and quote
pub record Scan : Type 0 where
  pub m : List ℕ
  pub n : List ℕ
  pub ma : List ℕ
  pub na : List ℕ
  pub wild : Bool
  pub quote : ℕ

-- What a round of the loop comes to: `fault` is a read behind the name.
pub data Round : Type 0 where
  done : Bool → Round
  again : Scan → Round
  fault : Round

-- MATCH_MAX_CALLS
abbrev pub match_max_calls : ℕ
match_max_calls = 512

-- *m, and m + 1 where *m is not NUL
abbrev pub byte_of : List ℕ → ℕ
byte_of [] = 0
byte_of (c ∷ cs) = c

abbrev pub behind_byte : List ℕ → List ℕ
behind_byte [] = []
behind_byte (c ∷ cs) = cs

-- `while (*m == '*') m++;`
unfoldable pub skip_stars : List ℕ → List ℕ
skip_stars [] = []
skip_stars (c ∷ cs) = if c == b'*' then skip_stars cs else c ∷ cs

-- `if (quote) quote++; if (quote == 3) quote = 0;`
abbrev pub bump_quote : ℕ → ℕ
bump_quote zero = 0
bump_quote (suc zero) = 2
bump_quote (suc (suc zero)) = 0
bump_quote (suc (suc (suc q))) = suc (suc (suc (suc q)))

-- The scan back from the end of the mask: whether it stops at a star that is not the first byte. The
-- argument is the mask from its end. For an empty mask the code reads the byte before the mask, and
-- finds no such star whatever that byte is.
unfoldable pub open_back : List ℕ → Bool
open_back [] = false
open_back (c ∷ []) = false
open_back (c ∷ d ∷ cs) = if c == b'?' then open_back (d ∷ cs) else c == b'*'

unfoldable pub open_end : List ℕ → Bool
open_end mask = open_back (reverse mask)

-- `m = ma; n = ++na;`
unfoldable pub retry : Scan → (Scan → Round) → Round
retry s next = elim s.na [ [] ↦ fault | c ∷ r ↦ next (record s { m = s.ma; n = r; na = r }) ]

-- The comparison at the end of the loop.
unfoldable pub compare_bytes : Scan → Round
compare_bytes s =
    if to_lower (byte_of s.m) == to_lower (byte_of s.n) || s.quote == 0 && byte_of s.m == b'?'
    then again (record s { m = behind_byte s.m; n = behind_byte s.n })
    else (if s.wild then retry s again else done false)

abbrev pub is_end : List ℕ → Bool
is_end [] = true
is_end (c ∷ cs) = false

-- The tests for the ends of the mask and of the name, and what follows them.
unfoldable pub test_ends : List ℕ → Scan → Round
test_ends mask s =
    if is_end s.m
    then (if is_end s.n
        then done true
        else if not (s.quote == 0)
        then done false
        else if open_end mask
        then done true
        else if s.wild
        then retry s compare_bytes
        else done false)
    else if is_end s.n
    then done (s.quote == 0 && is_end (skip_stars s.m))
    else compare_bytes s

-- What a star does that is not quoted, given the mask behind the stars; an escape at the end of the
-- mask ends the match.
unfoldable pub at_star : List ℕ → Scan → List ℕ → Round
at_star mask s rest =
    if byte_of rest == b'\\'
    then (if is_end (behind_byte rest)
        then done false
        else test_ends mask (record s {
          m = behind_byte rest;
          ma = behind_byte rest;
          na = s.n;
          wild = true;
          quote = 2;
        }))
    else test_ends mask (record s { m = rest; ma = rest; na = s.n; wild = true })

-- One round, once `quote` has been counted up.
unfoldable pub match_round : List ℕ → Scan → Round
match_round mask s =
    if byte_of s.m == b'\\' && s.quote == 0
    then again (record s { m = behind_byte s.m; quote = 1 })
    else if s.quote == 0 && byte_of s.m == b'*'
    then at_star mask s (skip_stars s.m)
    else test_ends mask s

-- The loop, of at most that many rounds.
unfoldable pub match_loop : ℕ → List ℕ → Scan → Option Bool
match_loop zero mask s = some false
match_loop (suc calls) mask s = elim (match_round mask (record s { quote = bump_quote s.quote })) [
  | done b ↦ some b
  | again r ↦ match_loop calls mask r
  | fault ↦ none
]

unfoldable pub match : List ℕ → List ℕ → Option Bool
match mask name =
    match_loop match_max_calls mask
      (record { m = mask; n = name; ma = mask; na = name; wild = false; quote = 0 })
