-- ===== src/Mode/SetMode.antt =====
-- src/channel_mode.c: get_channel_access, ModeTable and set_channel_mode up to send_mode_changes.
use ircd_hybrid_8_cvs.Common.{
  ℕ, Bool, false, ◌||◌, not, List, [], ◌∷◌, Option, none, some, ◌==◌, if◌then◌else◌,
}
use ircd_hybrid_8_cvs.Channel.Members.{World}
use ircd_hybrid_8_cvs.Channel.Leave.{is_chan_op, is_half_op}
use ircd_hybrid_8_cvs.Channel.Access.{mode_moderated, mode_inviteonly, mode_noprivmsgs}
use ircd_hybrid_8_cvs.Mode.State.{
  Dir, mode_query, mode_add, mode_del, chaccess_halfop, chaccess_chanop, mode_private, mode_secret,
  mode_topiclimit, ModeCommand, State,
}
use ircd_hybrid_8_cvs.Mode.Simple.{chm_nosuch, chm_simple, chm_hideops, chm_limit, chm_key}
use ircd_hybrid_8_cvs.Mode.Masks.{chm_ban, chm_except, chm_invex}
use ircd_hybrid_8_cvs.Mode.Ranks.{chm_op, chm_halfop, chm_voice}

-- get_channel_access
unfoldable pub get_channel_access : ModeCommand → World → ℕ
get_channel_access m w =
    if not (w.client m.source).is_mine
    then chaccess_chanop
    else if is_chan_op (w.channel m.channel) m.source
    then chaccess_chanop
    else if is_half_op (w.channel m.channel) m.source
    then chaccess_halfop
    else 0

-- The function of a letter in ModeTable.
pub data Handler : Type 0 where
  nosuch_handler : Handler
  simple_handler : (bit : ℕ) → Handler
  hideops_handler : Handler
  limit_handler : Handler
  key_handler : Handler
  ban_handler : Handler
  except_handler : Handler
  invex_handler : Handler
  op_handler : Handler
  halfop_handler : Handler
  voice_handler : Handler

-- ModeTable, by the letter; what is not between 'A' and 'z' has the first entry.
unfoldable pub mode_table : ℕ → Handler
mode_table c =
    if c == b'I'
    then invex_handler
    else if c == b'a'
    then hideops_handler
    else if c == b'b'
    then ban_handler
    else if c == b'e'
    then except_handler
    else if c == b'h'
    then halfop_handler
    else if c == b'i'
    then simple_handler mode_inviteonly
    else if c == b'k'
    then key_handler
    else if c == b'l'
    then limit_handler
    else if c == b'm'
    then simple_handler mode_moderated
    else if c == b'n'
    then simple_handler mode_noprivmsgs
    else if c == b'o'
    then op_handler
    else if c == b'p'
    then simple_handler mode_private
    else if c == b's'
    then simple_handler mode_secret
    else if c == b't'
    then simple_handler mode_topiclimit
    else if c == b'v'
    then voice_handler
    else nosuch_handler

-- '+', '-' and '=', and the direction behind a letter.
unfoldable pub is_sign : ℕ → Bool
is_sign c = c == b'+' || c == b'-' || c == b'='

unfoldable pub next_dir : ℕ → Dir → Dir
next_dir c dir =
    if c == b'+'
    then mode_add
    else if c == b'-'
    then mode_del
    else if c == b'='
    then mode_query
    else dir

module _ (strtoul : List ℕ → ℕ) (m : ModeCommand) (alev : ℕ) where
  unfoldable pub run_handler : Handler → Dir → ℕ → State → Option State
  run_handler nosuch_handler dir c s = some (chm_nosuch c s)
  run_handler (simple_handler bit) dir c s = some (chm_simple m alev dir c bit s)
  run_handler hideops_handler dir c s = some (chm_hideops m alev dir c s)
  run_handler limit_handler dir c s = some (chm_limit strtoul m alev dir c s)
  run_handler key_handler dir c s = chm_key m alev dir c s
  run_handler ban_handler dir c s = chm_ban m alev dir c s
  run_handler except_handler dir c s = chm_except m alev dir c s
  run_handler invex_handler dir c s = chm_invex m alev dir c s
  run_handler op_handler dir c s = some (chm_op m alev dir c s)
  run_handler halfop_handler dir c s = some (chm_halfop m alev dir c s)
  run_handler voice_handler dir c s = some (chm_voice m alev dir c s)

  -- A letter that is not a sign.
  unfoldable pub mode_step : ℕ → Dir → State → Option State
  mode_step c dir s = if is_sign c then some s else run_handler (mode_table c) dir c s

  -- The loop over the letters.
  unfoldable pub mode_loop : List ℕ → Dir → Option State → Option State
  mode_loop ml dir none = none
  mode_loop [] dir (some s) = some s
  mode_loop (c ∷ ml) dir (some s) = mode_loop ml (next_dir c dir) (mode_step c dir s)

-- The state in which the loop begins.
unfoldable pub start_state : World → List (List ℕ) → State
start_state w params = record {
  world = w;
  plus = [];
  minus = [];
  resync = [];
  mask_pos = 0;
  mode_limit = 0;
  errors = record {
    noops = false;
    unknown = false;
    rpl_b = false;
    rpl_e = false;
    rpl_i = false;
    notonchannel = false;
  };
  params = params;
  sent = [];
}

-- set_channel_mode, with parv[0] as `ml` and the parameters behind it, before send_mode_changes
unfoldable pub set_channel_mode :
    (List ℕ → ℕ) → ModeCommand → World → List ℕ → List (List ℕ) → Option State
set_channel_mode strtoul m w ml params =
    mode_loop strtoul m (get_channel_access m w) ml mode_add (some (start_state w params))
