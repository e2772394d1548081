-- ===== src/Mode/Tests.antt =====
-- The theorems on the MODE command at concrete commands.
use ircd_hybrid_8_cvs.Common.{
  ℕ, ◌≡◌, refl, true, false, List, [], ◌∷◌, ◌++◌, none, some, arith, ◌&&◌,
}
use ircd_hybrid_8_cvs.Common.Int.{pos}
use ircd_hybrid_8_cvs.Text.Chars.{to_lower, to_upper}
use ircd_hybrid_8_cvs.Text.Compare.{same_name, irccmp}
use ircd_hybrid_8_cvs.Hash.Chain.{clear, find_in, add_at}
use ircd_hybrid_8_cvs.Hash.Function.{hash_fold, mix, hash_nick_name}
use ircd_hybrid_8_cvs.Hash.Client.{find_client, find_nick, add_client, init_tables}
use ircd_hybrid_8_cvs.Channel.Members.{
  has, Sublists, seat, rank_of, put, with_list, list_of, Channel, Client, World, Setting,
  set_client, set_channel, enter, add_user_to_channel,
}
use ircd_hybrid_8_cvs.Channel.Leave.{is_chan_op, is_half_op, is_voiced}
use ircd_hybrid_8_cvs.Channel.Lists.{occurs, standing, size}
use ircd_hybrid_8_cvs.Channel.Consistent.{IsConsistent, add_user_to_channel-IsConsistent}
use ircd_hybrid_8_cvs.Channel.Bans.{
  ban, bans_of, with_bans, add_id, add_to, add_entry, ban_entry, is_covered,
}
use ircd_hybrid_8_cvs.Mode.State.{
  arg_is, mode_add, mode_del, ModeCommand, State, chptr, source_p, cancel_first,
}
use ircd_hybrid_8_cvs.Mode.Masks.{over_limit, mask_change, same_mask, chm_ban}
use ircd_hybrid_8_cvs.Mode.Ranks.{find_target, is_member, was_noted, chm_op, chm_halfop, chm_voice}
use ircd_hybrid_8_cvs.Mode.SetMode.{
  get_channel_access, mode_table, is_sign, next_dir, run_handler, mode_step, mode_loop, start_state,
  set_channel_mode,
}
use ircd_hybrid_8_cvs.Mode.Peons.{IsUntouched, set_channel_mode_peon}
use ircd_hybrid_8_cvs.Mode.Counts.{AtMostEach}
use ircd_hybrid_8_cvs.Mode.Room.{set_channel_mode_room}
use ircd_hybrid_8_cvs.Mode.Members.{set_channel_mode-IsConsistent}
use ircd_hybrid_8_cvs.Mode.Halfops.{set_channel_mode_halfop}
use ircd_hybrid_8_cvs.Mode.Standing.{chm_op_lem}
use ircd_hybrid_8_cvs.Mode.Undone.{IsPeon, IsUntold, chm_halfop_undone}
use ircd_hybrid_8_cvs.Mode.TakenBack.{chm_ban_taken_back}

abbrev no_one : Sublists
no_one = record { peons = []; chanops = []; chanops_voiced = []; voiced = []; halfops = [] }

abbrev a_channel : Channel
a_channel = record {
  everyone = no_one;
  local = no_one;
  users = 0;
  locusers = 0;
  users_last = 0;
  channelts = 10;
  vchan_id = [];
  root = none;
  vchan_list = [];
  invites = [];
  banlist = [];
  exceptlist = [];
  invexlist = [];
  num_mask = 0;
  chname = 35 ∷ 97 ∷ [];
  mode = 0;
  limit = 0;
  key = [];
}

abbrev a_client : Client
a_client = record {
  name = 97 ∷ [];
  username = 98 ∷ [];
  host = 99 ∷ [];
  sockhost = 100 ∷ [];
  is_person = true;
  has_user = true;
  is_mine = true;
  channels = [];
  joined = pos 0;
  invited = [];
  vchan_map = [];
}

abbrev a_world : World
a_world = record {
  client = λ u. a_client;
  channel = λ c. a_channel;
  known = record { table = clear; global = []; count = 1 };
  lazylink_channels = [];
}

abbrev a_setting : Setting
a_setting = record { now = 100; hub = true; persist_time = 20; max_chans_per_user = 10 }

a_world-IsConsistent : IsConsistent a_world
unfolding standing size occurs
a_world-IsConsistent = record {
  linked = λ c u. refl;
  once = λ c u. omega arith;
  near = λ c u. refl;
  users = λ c. refl;
  locusers = λ c. refl;
  joined = λ u. refl;
}

a_absent : occurs 1 (a_world.client 7).channels ≡ 0
unfolding occurs
a_absent = refl

-- The client at 7 on the channel at 1: an operator, a halfop, and neither
abbrev op_world : World
op_world = add_user_to_channel a_setting a_world 1 7 1

abbrev halfop_world : World
halfop_world = add_user_to_channel a_setting a_world 1 7 8

abbrev peon_world : World
peon_world = add_user_to_channel a_setting a_world 1 7 0

op_world-IsConsistent : IsConsistent op_world
op_world-IsConsistent =
    add_user_to_channel-IsConsistent a_setting a_world 1 7 1 a_world-IsConsistent refl a_absent

-- Its commands; its name "a" is in the table.
abbrev a_command : ModeCommand
a_command = record {
  from_server = false;
  source = 7;
  source_server = false;
  channel = 1;
  nicklen = 9;
  maxbans = 20;
  now = 100;
  names =
      add_client init_tables (97 ∷ [])
        (record { ptr = 7; name = 97 ∷ []; id = none; server = false });
}

abbrev no_number : List ℕ → ℕ
no_number l = 0

abbrev a_nick : List (List ℕ)
a_nick = (97 ∷ []) ∷ []

-- "-o a"
abbrev deop_state : State
deop_state = chm_op a_command 3 mode_del b'o' (start_state op_world a_nick)

op_runs : set_channel_mode no_number a_command op_world (45 ∷ 111 ∷ []) a_nick ≡ some deop_state
unfolding set_channel_mode get_channel_access mode_loop mode_step run_handler mode_table is_sign
    next_dir is_chan_op is_half_op has add_user_to_channel set_client set_channel seat enter rank_of
    put with_list list_of
op_runs = refl

set_channel_mode_room_example : AtMostEach 2 deop_state
set_channel_mode_room_example =
    set_channel_mode_room no_number a_command op_world (45 ∷ 111 ∷ []) a_nick deop_state op_runs

set_channel_mode-IsConsistent_example : IsConsistent deop_state.world
set_channel_mode-IsConsistent_example =
    set_channel_mode-IsConsistent no_number a_command op_world (45 ∷ 111 ∷ []) a_nick deop_state
      op_world-IsConsistent op_runs

-- "+v a", by the halfop
abbrev voice_state : State
voice_state = chm_voice a_command 2 mode_add b'v' (start_state halfop_world a_nick)

halfop_mine : (halfop_world.client 7).is_mine ≡ true
unfolding add_user_to_channel set_client set_channel enter
halfop_mine = refl

halfop_no_op : is_chan_op (halfop_world.channel 1) 7 ≡ false
unfolding add_user_to_channel set_client set_channel seat enter rank_of put with_list list_of
    is_chan_op has
halfop_no_op = refl

halfop_runs :
    set_channel_mode no_number a_command halfop_world (43 ∷ 118 ∷ []) a_nick ≡ some voice_state
unfolding set_channel_mode get_channel_access mode_loop mode_step run_handler mode_table is_sign
    next_dir is_chan_op is_half_op has add_user_to_channel set_client set_channel seat enter rank_of
    put with_list list_of
halfop_runs = refl

set_channel_mode_halfop_example :
    is_chan_op (voice_state.world.channel 1) 7 ≡ is_chan_op (halfop_world.channel 1) 7
set_channel_mode_halfop_example =
    set_channel_mode_halfop no_number a_command halfop_world (43 ∷ 118 ∷ []) a_nick voice_state
      halfop_mine halfop_no_op halfop_runs 7

peon_mine : (peon_world.client 7).is_mine ≡ true
unfolding add_user_to_channel set_client set_channel enter
peon_mine = refl

peon_no_op : is_chan_op (peon_world.channel 1) 7 ≡ false
unfolding add_user_to_channel set_client set_channel seat enter rank_of put with_list list_of
    is_chan_op has
peon_no_op = refl

peon_no_halfop : is_half_op (peon_world.channel 1) 7 ≡ false
unfolding add_user_to_channel set_client set_channel seat enter rank_of put with_list list_of
    is_half_op has
peon_no_halfop = refl

-- "+ob a"
set_channel_mode_peon_example :
    (s : State) × (set_channel_mode no_number a_command peon_world (43 ∷ 111 ∷ 98 ∷ []) a_nick
      ≡ some s)
    × IsUntouched peon_world s
set_channel_mode_peon_example =
    set_channel_mode_peon no_number a_command peon_world (43 ∷ 111 ∷ 98 ∷ []) a_nick peon_mine
      peon_no_op peon_no_halfop

abbrev op_state : State
op_state = start_state op_world a_nick

named_a : find_target a_command (97 ∷ []) ≡ some 7
unfolding find_target find_client find_nick add_client init_tables find_in add_at hash_nick_name
    same_name to_lower hash_fold mix irccmp to_upper
named_a = refl

op_given : op_state.params ≡ (97 ∷ []) ∷ []
unfolding start_state
op_given = refl

op_state-IsConsistent : IsConsistent op_state.world
unfolding start_state
op_state-IsConsistent = op_world-IsConsistent

op_member_on : is_member a_command 7 op_state ≡ true
unfolding is_member has add_user_to_channel set_client set_channel enter start_state
op_member_on = refl

op_room : ((source_p a_command op_state).is_mine && over_limit op_state) ≡ false
unfolding source_p over_limit add_user_to_channel set_client set_channel enter start_state
op_room = refl

chm_op_lem_example :
    let gets = chptr a_command (chm_op a_command 3 mode_add b'o' op_state) in
    let loses = chptr a_command (chm_op a_command 3 mode_del b'o' op_state) in
    ((is_chan_op gets 7 ≡ true) × (is_voiced gets 7 ≡ is_voiced (chptr a_command op_state) 7))
    × ((is_chan_op loses 7 ≡ false) × (is_voiced loses 7 ≡ is_voiced (chptr a_command op_state) 7))
chm_op_lem_example =
    chm_op_lem a_command 7 b'o' (97 ∷ []) [] op_state op_given named_a op_member_on
      op_state-IsConsistent op_room

-- "-h+h a a", of the halfop
abbrev rehop_state : State
rehop_state = start_state halfop_world ((97 ∷ []) ∷ (97 ∷ []) ∷ [])

rehop_given : rehop_state.params ≡ (97 ∷ []) ∷ (97 ∷ []) ∷ []
unfolding start_state
rehop_given = refl

rehop_name : arg_is (97 ∷ []) (some (rehop_state.world.client 7).name) ≡ true
unfolding start_state add_user_to_channel set_client set_channel enter same_name to_lower irccmp
    to_upper
rehop_name = refl

rehop-IsConsistent : IsConsistent rehop_state.world
unfolding start_state
rehop-IsConsistent =
    add_user_to_channel-IsConsistent a_setting a_world 1 7 8 a_world-IsConsistent refl a_absent

rehop_on : is_member a_command 7 rehop_state ≡ true
unfolding is_member has add_user_to_channel set_client set_channel enter start_state
rehop_on = refl

rehop_hop : is_half_op (chptr a_command rehop_state) 7 ≡ true
unfolding chptr start_state add_user_to_channel set_client set_channel seat enter rank_of put
    with_list list_of is_half_op has
rehop_hop = refl

rehop_fresh : was_noted b'h' (97 ∷ []) rehop_state.plus ≡ false
unfolding was_noted start_state
rehop_fresh = refl

chm_halfop_undone_example :
    let t = chm_halfop a_command 3 mode_del b'h' rehop_state in
    let r = chm_halfop a_command 3 mode_add b'h' t in
    IsPeon 7 (chptr a_command r) × IsUntold 7 (97 ∷ []) r
chm_halfop_undone_example =
    chm_halfop_undone a_command 7 (97 ∷ []) [] rehop_state rehop_given named_a rehop_name
      rehop-IsConsistent rehop_on rehop_hop rehop_fresh

-- "+b-b b b", by a client of another server
abbrev far_command : ModeCommand
far_command = record a_command { from_server = true }

abbrev far_state : State
far_state =
    start_state (record a_world { client = λ u. record a_client { is_mine = false } })
      ((98 ∷ []) ∷ (98 ∷ []) ∷ [])

abbrev b_channel : Channel
b_channel = record a_channel {
  banlist = record { banstr = 98 ∷ []; who = 97 ∷ 33 ∷ 98 ∷ 64 ∷ 99 ∷ []; when = 100 } ∷ [];
  num_mask = 1;
}

b_taken :
    add_id 20 100 false (source_p far_command far_state) (chptr far_command far_state) (98 ∷ []) ban
    ≡ some (b_channel, true)
unfolding add_id add_to add_entry ban_entry is_covered bans_of with_bans source_p chptr start_state
b_taken = refl

none_minus : cancel_first (same_mask b'b' (98 ∷ [])) far_state.minus ≡ none
unfolding cancel_first start_state
none_minus = refl

none_plus : cancel_first (same_mask b'b' (98 ∷ [])) far_state.plus ≡ none
unfolding cancel_first start_state
none_plus = refl

far : (source_p far_command far_state).is_mine ≡ false
unfolding source_p start_state
far = refl

b_params : far_state.params ≡ (98 ∷ []) ∷ (98 ∷ []) ∷ []
unfolding start_state
b_params = refl

chm_ban_taken_back_example :
    (s1 s2 : State) × (chm_ban far_command 3 mode_add b'b' far_state ≡ some s1)
    × (chm_ban far_command 3 mode_del b'b' s1 ≡ some s2)
    × (chptr far_command s2 ≡ chptr far_command far_state)
    × (s2.minus ≡ far_state.minus)
    × (s2.plus ≡ far_state.plus ++ record (mask_change ban b'b' (98 ∷ [])) { letter = 0 } ∷ [])
chm_ban_taken_back_example =
    chm_ban_taken_back far_command 3 b'b' (98 ∷ []) [] far_state b_channel refl far refl b_params
      (omega arith) b_taken none_minus none_plus
