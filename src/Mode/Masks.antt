-- ===== src/Mode/Masks.antt =====
-- src/channel_mode.c: the modes that are lists of masks: chm_ban, chm_except and chm_invex. The
-- result is `none` where the code reads behind the end of a name in match, or hands a NULL mask to
-- add_id, which copies it.
use ircd_hybrid_8_cvs.Common.{
  ℕ, ◌+◌, Bool, true, false, ◌&&◌, List, [], ◌∷◌, ◌++◌, Option, none, some, ◌==◌, ltb,
  if◌then◌else◌,
}
use ircd_hybrid_8_cvs.Channel.Members.{Channel}
use ircd_hybrid_8_cvs.Channel.Access.{has_mode}
use ircd_hybrid_8_cvs.Channel.Bans.{
  pretty_mask, MaskKind, ban, exception, invex, unknown, id_given, add_id, del_id,
}
use ircd_hybrid_8_cvs.Mode.State.{
  Dir, mode_query, mode_add, mode_del, chaccess_halfop, cap_ex, cap_ie, all_members,
  only_chanops_halfops, mode_hideops, Change, mask_list, ModeCommand, State, chptr, source_p,
  set_chptr, refuse, arg_is, note_plus, note_minus,
}

-- `MyClient(source_p) && mode_limit++ > 4`, where the first test holds: whether it returns, and the
-- state with mode_limit counted up.
unfoldable pub over_limit : State → Bool
over_limit s = ltb 4 s.mode_limit

unfoldable pub count_mode : State → State
count_mode s = record s { mode_limit = s.mode_limit + 1 }

-- The change of a mask; +b goes to all members and servers, +e and +I to operators and to servers
-- that know them.
unfoldable pub mask_change : MaskKind → ℕ → List ℕ → Change
mask_change exception c mask = record {
  letter = c;
  arg = some mask;
  id = none;
  caps = cap_ex;
  nocaps = 0;
  mems = only_chanops_halfops;
}
mask_change invex c mask = record {
  letter = c;
  arg = some mask;
  id = none;
  caps = cap_ie;
  nocaps = 0;
  mems = only_chanops_halfops;
}
mask_change ban c mask = record {
  letter = c;
  arg = some mask;
  id = none;
  caps = 0;
  nocaps = 0;
  mems = all_members;
}
mask_change unknown c mask = record {
  letter = c;
  arg = some mask;
  id = none;
  caps = 0;
  nocaps = 0;
  mems = all_members;
}

-- A change of that letter and mask
unfoldable pub same_mask : ℕ → List ℕ → Change → Bool
same_mask c mask x = x.letter == c && arg_is mask x.arg

-- What follows add_id, which has collapsed the mask of a client of this server in place.
unfoldable pub note_added :
    ModeCommand → MaskKind → ℕ → List ℕ → State → Option (Channel × Bool) → Option State
note_added m kind c mask s none = none
note_added m kind c mask s (some (ch, false)) = some s
note_added m kind c mask s (some (ch, true)) =
    let given = id_given (source_p m s) mask in
    some (note_plus (same_mask c given) (mask_change kind c given) (set_chptr m s ch))

unfoldable pub add_mask : ModeCommand → MaskKind → ℕ → Option (List ℕ) → State → Option State
add_mask m kind c none s = none
add_mask m kind c (some mask) s =
    note_added m kind c mask s
      (add_id m.maxbans m.now m.source_server (source_p m s) (chptr m s) mask kind)

-- What follows del_id, given the mask that it found.
unfoldable pub note_deleted : ModeCommand → MaskKind → ℕ → List ℕ → Channel → State → State
note_deleted m kind c mask ch s =
    note_minus (same_mask c mask) (mask_change kind c mask) (set_chptr m s ch)

-- del_id of the mask as it was given
unfoldable pub del_raw : ModeCommand → MaskKind → ℕ → List ℕ → State → Channel × Bool → State
del_raw m kind c raw s (ch, true) = note_deleted m kind c raw ch s
del_raw m kind c raw s (ch, false) = s

unfoldable pub del_pretty :
    ModeCommand → MaskKind → ℕ → List ℕ → List ℕ → State → Channel × Bool → State
del_pretty m kind c mask raw s (ch, true) = note_deleted m kind c mask ch s
del_pretty m kind c mask raw s (ch, false) = del_raw m kind c raw s (del_id (chptr m s) raw kind)

unfoldable pub del_mask : ModeCommand → MaskKind → ℕ → Option (List ℕ) → List ℕ → State → State
del_mask m kind c none raw s = del_raw m kind c raw s (del_id (chptr m s) raw kind)
del_mask m kind c (some mask) raw s = del_pretty m kind c mask raw s (del_id (chptr m s) mask kind)

-- The mask that a client means, and mask_pos behind it; a server's is taken as it is.
unfoldable pub move_mask_pos : State → Option (List ℕ × ℕ) → Option (List ℕ) × State
move_mask_pos s none = (none, s)
move_mask_pos s (some (mask, pos)) = (some mask, record s { mask_pos = pos })

unfoldable pub take_mask : ModeCommand → List ℕ → State → Option (List ℕ) × State
take_mask m raw s =
    if m.from_server then (some raw, s) else move_mask_pos s (pretty_mask m.nicklen s.mask_pos raw)

unfoldable pub change_mask :
    ModeCommand → MaskKind → Dir → ℕ → List ℕ → Option (List ℕ) × State → Option State
change_mask m kind mode_query c raw (mask, s) = some s
change_mask m kind mode_add c raw (mask, s) = add_mask m kind c mask s
change_mask m kind mode_del c raw (mask, s) = some (del_mask m kind c mask raw s)

-- The three handlers behind their tests: the count of modes, and the mask.
unfoldable pub use_mask :
    ModeCommand → MaskKind → Dir → ℕ → List ℕ → List (List ℕ) → State → Option State
use_mask m kind dir c raw params s =
    if (source_p m s).is_mine && over_limit s
    then some (count_mode s)
    else (let s' = if (source_p m s).is_mine then count_mode s else s in
        change_mask m kind dir c raw (take_mask m raw (record s' { params = params })))

-- The lists of masks that are sent: RPL_BANLIST to RPL_ENDOFBANLIST, and those of +e and +I.
unfoldable pub list_bans : ModeCommand → ℕ → State → State
list_bans m alev s =
    if s.errors.rpl_b
    then s
    else (let hides = has_mode (chptr m s) mode_hideops && ltb alev chaccess_halfop in
        record s {
          errors = record s.errors { rpl_b = true };
          sent = s.sent ++ mask_list ban hides (chptr m s).banlist ∷ [];
        })

unfoldable pub list_excepts : ModeCommand → State → State
list_excepts m s = if s.errors.rpl_e then s else record s {
  errors = record s.errors { rpl_e = true };
  sent = s.sent ++ mask_list exception false (chptr m s).exceptlist ∷ [];
}

unfoldable pub list_invexes : ModeCommand → State → State
list_invexes m s = if s.errors.rpl_i then s else record s {
  errors = record s.errors { rpl_i = true };
  sent = s.sent ++ mask_list invex false (chptr m s).invexlist ∷ [];
}

abbrev pub is_query : Dir → Bool
is_query mode_query = true
is_query d = false

-- chm_ban, given the parameters that are left
unfoldable pub ban_with : ModeCommand → ℕ → Dir → ℕ → List (List ℕ) → State → Option State
ban_with m alev dir c [] s = some (list_bans m alev s)
ban_with m alev dir c (raw ∷ params) s =
    if is_query dir
    then some (list_bans m alev s)
    else if ltb alev chaccess_halfop
    then some (refuse s)
    else use_mask m ban dir c raw params s

unfoldable pub chm_ban : ModeCommand → ℕ → Dir → ℕ → State → Option State
chm_ban m alev dir c s = ban_with m alev dir c s.params s

-- chm_except, which only operators may ask for the list
unfoldable pub except_with : ModeCommand → Dir → ℕ → List (List ℕ) → State → Option State
except_with m dir c [] s = some (list_excepts m s)
except_with m dir c (raw ∷ params) s =
    if is_query dir then some (list_excepts m s) else use_mask m exception dir c raw params s

unfoldable pub chm_except : ModeCommand → ℕ → Dir → ℕ → State → Option State
chm_except m alev dir c s =
    if ltb alev chaccess_halfop then some (refuse s) else except_with m dir c s.params s

-- chm_invex
unfoldable pub invex_with : ModeCommand → Dir → ℕ → List (List ℕ) → State → Option State
invex_with m dir c [] s = some (list_invexes m s)
invex_with m dir c (raw ∷ params) s =
    if is_query dir then some (list_invexes m s) else use_mask m invex dir c raw params s

unfoldable pub chm_invex : ModeCommand → ℕ → Dir → ℕ → State → Option State
chm_invex m alev dir c s =
    if ltb alev chaccess_halfop then some (refuse s) else invex_with m dir c s.params s
