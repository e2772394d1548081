-- ===== src/Mode/Simple.antt =====
-- src/channel_mode.c: the modes that are a bit, a number or a key: chm_nosuch, chm_simple, chm_hideops,
-- chm_limit and chm_key; src/sprintf_irc.c: the text of a number.
use Prim.Native.Nat.{bit_and, bit_or}
use ircd_hybrid_8_cvs.Common.{
  ℕ, zero, suc, ◌+◌, ◌-◌, ◌/◌, ◌%◌, ◌^◌, Bool, true, false, ◌&&◌, ◌||◌, List, [], ◌∷◌, ◌++◌, take,
  Option, none, some, ◌==◌, leb, ltb, if◌then◌else◌,
}
use ircd_hybrid_8_cvs.Text.Glob.{is_end}
use ircd_hybrid_8_cvs.Channel.Access.{has_mode}
use ircd_hybrid_8_cvs.Channel.Bans.{fix_key, fix_key_old}
use ircd_hybrid_8_cvs.Mode.State.{
  Dir, mode_query, mode_add, mode_del, chaccess_halfop, chaccess_chanop, cap_aops, all_members,
  mode_private, mode_hideops, Change, Resync, unknown_mode, ModeCommand, State, chptr, source_p,
  set_chptr, refuse, cancel_first, cancel_all, has_letter, note_plus, note_minus,
}

-- chm_nosuch
unfoldable pub chm_nosuch : ℕ → State → State
chm_nosuch c s = if s.errors.unknown then s else record s {
  errors = record s.errors { unknown = true };
  sent = s.sent ++ unknown_mode c ∷ [];
}

-- chptr->mode.mode |= bit and chptr->mode.mode &= ~bit
unfoldable pub set_bit : ModeCommand → ℕ → State → State
set_bit m bit s = set_chptr m s (record (chptr m s) { mode = bit_or (chptr m s).mode bit })

unfoldable pub clear_bit : ModeCommand → ℕ → State → State
clear_bit m bit s =
    set_chptr m s (record (chptr m s) { mode = (chptr m s).mode - bit_and (chptr m s).mode bit })

-- The change that a mode for everyone notes.
unfoldable pub plain_change : ℕ → ℕ → Option (List ℕ) → Change
plain_change c caps arg = record {
  letter = c;
  arg = arg;
  id = none;
  caps = caps;
  nocaps = 0;
  mems = all_members;
}

-- chm_simple behind the test of the access
unfoldable pub flip_bit : ModeCommand → Dir → ℕ → ℕ → State → State
flip_bit m mode_query c bit s = s
flip_bit m mode_add c bit s =
    if has_mode (chptr m s) bit
    then s
    else note_plus (has_letter c) (plain_change c 0 none) (set_bit m bit s)
flip_bit m mode_del c bit s =
    if has_mode (chptr m s) bit
    then note_minus (has_letter c) (plain_change c 0 none) (clear_bit m bit s)
    else s

-- chm_simple, for the mode `bit`
unfoldable pub chm_simple : ModeCommand → ℕ → Dir → ℕ → ℕ → State → State
chm_simple m alev dir c bit s =
    if ltb alev chaccess_halfop || (bit == mode_private && ltb alev chaccess_chanop)
    then refuse s
    else flip_bit m dir c bit s

-- The loop of chm_hideops over resync_ops.
unfoldable pub drop_whole : List Resync → List Resync
drop_whole [] = []
drop_whole (r ∷ l) =
    (if r.whole_chan then record r { client = none; whole_chan = false } else r) ∷ drop_whole l

-- The entry for the whole channel that chm_hideops notes.
unfoldable pub whole_resync : Dir → ℕ → Resync
whole_resync dir c = record {
  client = none;
  whole_chan = true;
  dir = dir;
  sync = false;
  send = false;
  letter = c;
}

unfoldable pub hide_ops : ℕ → State → Option (List Change) → State
hide_ops c s (some l) = record s { minus = l; resync = drop_whole s.resync }
hide_ops c s none = record s {
  plus = s.plus ++ plain_change c cap_aops none ∷ [];
  resync = s.resync ++ whole_resync mode_del c ∷ [];
}

unfoldable pub show_ops : ℕ → State → Option (List Change) → State
show_ops c s (some l) = record s { plus = l; resync = drop_whole s.resync }
show_ops c s none = record s {
  minus = s.minus ++ plain_change c cap_aops none ∷ [];
  resync = s.resync ++ whole_resync mode_add c ∷ [];
}

-- chm_hideops behind the test of the access
unfoldable pub flip_hideops : ModeCommand → Dir → ℕ → State → State
flip_hideops m mode_query c s = s
flip_hideops m mode_add c s =
    if has_mode (chptr m s) mode_hideops
    then s
    else hide_ops c (set_bit m mode_hideops s) (cancel_first (has_letter c) s.minus)
flip_hideops m mode_del c s =
    if has_mode (chptr m s) mode_hideops
    then show_ops c (clear_bit m mode_hideops s) (cancel_first (has_letter c) s.plus)
    else s

-- chm_hideops
unfoldable pub chm_hideops : ModeCommand → ℕ → Dir → ℕ → State → State
chm_hideops m alev dir c s = if ltb alev chaccess_halfop then refuse s else flip_hideops m dir c s

-- The loop of "%d" in vsprintf_irc, which writes three digits a round, and the zeros that it skips
-- then; `rounds` bounds the loop, and a number of 32 bits takes four.
unfoldable pub digits_of : ℕ → ℕ → List ℕ → List ℕ
digits_of zero v l = l
digits_of (suc rounds) v l =
    let d = v % 1000 in
    let l' = (b'0' + d / 100) ∷ (b'0' + d / 10 % 10) ∷ (b'0' + d % 10) ∷ l in
    let rest = digits_of rounds (v / 1000) l' in if v / 1000 == 0 then l' else rest

unfoldable pub skip_zeros : List ℕ → List ℕ
skip_zeros [] = []
skip_zeros (c ∷ l) = let rest = skip_zeros l in if c == b'0' then rest else c ∷ l

-- ircsprintf(lstr, "%d", limit), of a limit above zero
unfoldable pub number_text : ℕ → List ℕ
number_text v = skip_zeros (digits_of 4 v [])

-- `(limit = strtoul(lstr, NULL, 10)) <= 0`, for an int of 32 bits
unfoldable pub is_no_limit : ℕ → Bool
is_no_limit v = v % 2 ^ 32 == 0 || leb (2 ^ 31) (v % 2 ^ 32)

unfoldable pub set_limit : ModeCommand → ℕ → ℕ → State → State
set_limit m c limit s =
    set_chptr m
      (record s {
        minus = cancel_all (has_letter c) s.minus;
        plus = cancel_all (has_letter c) s.plus ++ plain_change c 0 (some (number_text limit)) ∷ [];
      })
      (record (chptr m s) { limit = limit })

-- The branch of chm_limit that sets one; strtoul is the C library's, with base 10.
unfoldable pub add_limit : (List ℕ → ℕ) → ModeCommand → ℕ → List (List ℕ) → State → State
add_limit strtoul m c [] s = s
add_limit strtoul m c (lstr ∷ params) s =
    if is_no_limit (strtoul lstr)
    then record s { params = params }
    else set_limit m c (strtoul lstr % 2 ^ 32) (record s { params = params })

unfoldable pub change_limit : (List ℕ → ℕ) → ModeCommand → Dir → ℕ → State → State
change_limit strtoul m mode_query c s = s
change_limit strtoul m mode_add c s = add_limit strtoul m c s.params s
change_limit strtoul m mode_del c s =
    if (chptr m s).limit == 0
    then s
    else note_minus (has_letter c) (plain_change c 0 none)
        (set_chptr m s (record (chptr m s) { limit = 0 }))

-- chm_limit
unfoldable pub chm_limit : (List ℕ → ℕ) → ModeCommand → ℕ → Dir → ℕ → State → State
chm_limit strtoul m alev dir c s =
    if ltb alev chaccess_halfop then refuse s else change_limit strtoul m dir c s

-- KEYLEN; the field `key` has room for so many bytes and the NUL.
abbrev pub keylen : ℕ
keylen = 23

unfoldable pub set_key : ModeCommand → ℕ → List ℕ → State → State
set_key m c key s =
    set_chptr m
      (record s {
        minus = cancel_all (has_letter c) s.minus;
        plus = cancel_all (has_letter c) s.plus ++ plain_change c 0 (some key) ∷ [];
      })
      (record (chptr m s) { key = take keylen key })

-- key[0] == ' '
abbrev pub starts_blank : List ℕ → Bool
starts_blank [] = false
starts_blank (c ∷ key) = c == b' '

-- `none` is the assertion that the key does not start with a space. What fix_key leaves has none, but
-- fix_key_old makes one of a byte 0xA0.
unfoldable pub add_key : ModeCommand → ℕ → List (List ℕ) → State → Option State
add_key m c [] s = some s
add_key m c (key ∷ params) s =
    let fixed = if (source_p m s).is_mine then fix_key key else fix_key_old key in
    if starts_blank fixed then none else some (set_key m c fixed (record s { params = params }))

unfoldable pub drop_key : ModeCommand → ℕ → State → State
drop_key m c s =
    set_chptr m
      (record s {
        plus = cancel_all (has_letter c) s.plus;
        minus = s.minus ++ plain_change c 0 (some (b'*' ∷ [])) ∷ [];
      })
      (record (chptr m s) { key = [] })

unfoldable pub change_key : ModeCommand → Dir → ℕ → State → Option State
change_key m mode_query c s = some s
change_key m mode_add c s = add_key m c s.params s
change_key m mode_del c s = some (if is_end (chptr m s).key then s else drop_key m c s)

-- chm_key
unfoldable pub chm_key : ModeCommand → ℕ → Dir → ℕ → State → Option State
chm_key m alev dir c s = if ltb alev chaccess_halfop then some (refuse s) else change_key m dir c s
