-- ===== src/Mode/Ranks.antt =====
-- src/channel_mode.c: the modes that change the standing of a client on the channel: chm_op, chm_halfop
-- and chm_voice, as they are compiled with REQUIRE_OANDV and without BOUNCE_BAD_HOPS.
use ircd_hybrid_8_cvs.Common.{
  ℕ, Bool, true, false, ◌&&◌, ◌||◌, not, List, [], ◌∷◌, ◌++◌, Option, none, some, ◌==◌, ltb,
  if◌then◌else◌,
}
use ircd_hybrid_8_cvs.Hash.Client.{find_client}
use ircd_hybrid_8_cvs.Channel.Members.{has, Rank, peon, chanop, chanop_voiced, voice, halfop}
use ircd_hybrid_8_cvs.Channel.Leave.{is_chan_op, is_half_op, is_voiced, change_channel_membership}
use ircd_hybrid_8_cvs.Channel.Access.{has_mode}
use ircd_hybrid_8_cvs.Mode.State.{
  Dir, mode_query, mode_add, mode_del, same_dir, chaccess_halfop, chaccess_chanop, cap_hops,
  only_chanops_halfops, mode_private, mode_hideops, Change, Resync, no_such_nick,
  user_not_in_channel, ModeCommand, State, chptr, source_p, refuse, not_on_channel, arg_is,
  cancel_all,
}
use ircd_hybrid_8_cvs.Mode.Masks.{over_limit, count_mode}

-- find_client, as the address of the client
unfoldable pub find_target : ModeCommand → List ℕ → Option ℕ
find_target m opnick = elim (find_client m.names opnick) [ none ↦ none | some x ↦ some x.ptr ]

-- IsMember(targ_p, chptr)
unfoldable pub is_member : ModeCommand → ℕ → State → Bool
is_member m u s = (s.world.client u).has_user && has m.channel (s.world.client u).channels

-- t_op, t_hop and t_voice
pub record Target : Type 0 where
  pub t_op : Bool
  pub t_hop : Bool
  pub t_voice : Bool

-- of chm_op and chm_voice, and of chm_halfop
unfoldable pub held_by : ModeCommand → ℕ → State → Target
held_by m u s = record {
  t_op = is_chan_op (chptr m s) u;
  t_hop = not (is_chan_op (chptr m s) u) && is_half_op (chptr m s) u;
  t_voice = is_voiced (chptr m s) u;
}

unfoldable pub held_for_halfop : ModeCommand → ℕ → State → Target
held_for_halfop m u s = record {
  t_op = is_chan_op (chptr m s) u;
  t_hop = not (is_chan_op (chptr m s) u) && is_half_op (chptr m s) u;
  t_voice =
      not (is_chan_op (chptr m s) u) && not (is_half_op (chptr m s) u) && is_voiced (chptr m s) u;
}

-- A change of that letter for the nick, and whether there is one.
unfoldable pub is_for : ℕ → List ℕ → Change → Bool
is_for c opnick x = x.letter == c && arg_is opnick x.arg

unfoldable pub was_noted : ℕ → List ℕ → List Change → Bool
was_noted c opnick [] = false
was_noted c opnick (x ∷ l) = is_for c opnick x || was_noted c opnick l

-- Changes of two letters, or of three
abbrev pub is_either : ℕ → ℕ → List ℕ → Change → Bool
is_either c d opnick x = is_for c opnick x || is_for d opnick x

abbrev pub is_any : List ℕ → Change → Bool
is_any opnick x = is_for b'o' opnick x || is_for b'h' opnick x || is_for b'v' opnick x

-- A change for operators and halfops that names the client; `with_id` is targ_p->user->id in it.
unfoldable pub rank_change : ℕ → ℕ → Bool → ℕ → State → Change
rank_change c caps with_id u s = record {
  letter = c;
  arg = some (s.world.client u).name;
  id = if with_id then some u else none;
  caps = caps;
  nocaps = 0;
  mems = only_chanops_halfops;
}

unfoldable pub add_plus : Bool → Change → State → State
add_plus b x s = if b then record s { plus = s.plus ++ x ∷ [] } else s

unfoldable pub add_minus : Bool → Change → State → State
add_minus b x s = if b then record s { minus = s.minus ++ x ∷ [] } else s

-- change_channel_membership, whose result the handlers do not look at
unfoldable pub move_to : ModeCommand → Rank → ℕ → State → State
move_to m to u s = record s { world = (change_channel_membership s.world m.channel to u).0 }

abbrev pub is_client : ℕ → Option ℕ → Bool
is_client u none = false
is_client u (some v) = v == u

-- The loops over resync_ops, for the entries of the client.
unfoldable pub on_resync : ℕ → (Resync → Resync) → List Resync → List Resync
on_resync u f [] = []
on_resync u f (r ∷ l) = (if is_client u r.client then f r else r) ∷ on_resync u f l

abbrev pub forget_resync : Resync → Resync
forget_resync r = record r { client = none }

unfoldable pub settle_resync : Dir → ℕ → Bool → Resync → Resync
settle_resync dir c send r =
    if same_dir r.dir dir || r.letter == c
    then record r { client = none; send = send }
    else record r { sync = false; send = send }

unfoldable pub drop_resync : Dir → ℕ → Resync → Resync
drop_resync dir c r = if same_dir r.dir dir || r.letter == c then record r { client = none } else r

-- A new entry of resync_ops, for a client of this server on a channel that hides its operators.
unfoldable pub add_resync : ModeCommand → Bool → Dir → ℕ → Bool → Bool → ℕ → State → State
add_resync m b dir c sync send u s =
    if b && (s.world.client u).is_mine && has_mode (chptr m s) mode_hideops
    then record s {
      resync =
          s.resync
          ++ record {
            client = some u;
            whole_chan = false;
            dir = dir;
            sync = sync;
            send = send;
            letter = c;
          }
            ∷ [];
    }
    else s

unfoldable pub change_resync : ℕ → (Resync → Resync) → State → State
change_resync u f s = record s { resync = on_resync u f s.resync }

-- chm_op from "Cancel mode changes..." on: the loops that cancel,
unfoldable pub cancel_op : List ℕ → State → State
cancel_op opnick s = record s {
  plus = cancel_all (is_either b'o' b'h' opnick) s.plus;
  minus = cancel_all (is_for b'o' opnick) s.minus;
}

-- the branch of MODE_ADD,
unfoldable pub give_op : ModeCommand → ℕ → List ℕ → ℕ → Target → State → State
give_op m c opnick u t s =
    let wasnt_hopped = was_noted b'h' opnick s.plus in
    let was_opped = was_noted b'o' opnick s.minus in
    let was_hopped = was_noted b'h' opnick s.minus in
    let s1 = cancel_op opnick s in
    let s2 = add_minus (not wasnt_hopped && t.t_hop) (rank_change b'h' cap_hops true u s1) s1 in
    let s3 = move_to m (if t.t_voice then chanop_voiced else chanop) u s2 in
    let s4 = add_plus (not was_opped) (rank_change c 0 true u s3) s3 in
    let s5 = change_resync u (settle_resync mode_add c true) s4 in
    add_resync m (not was_opped) mode_add c (not (was_hopped || t.t_hop)) false u s5

-- and that of MODE_DEL
unfoldable pub take_op : ModeCommand → ℕ → List ℕ → ℕ → Target → State → State
take_op m c opnick u t s =
    let wasnt_opped = was_noted b'o' opnick s.plus in
    let wasnt_hopped = was_noted b'h' opnick s.plus in
    let letter = if t.t_hop then b'h' else c in
    let caps = if t.t_hop then cap_hops else 0 in
    let wasnt = if t.t_hop then wasnt_hopped else wasnt_opped in
    let s1 = cancel_op opnick s in
    let s2 = add_minus (not wasnt) (rank_change letter caps false u s1) s1 in
    let s3 = move_to m (if not t.t_hop && t.t_voice then voice else peon) u s2 in
    let s4 = change_resync u forget_resync s3 in
    add_resync m (not wasnt_opped) mode_del letter true true u s4

unfoldable pub change_op : ModeCommand → Dir → ℕ → List ℕ → ℕ → Target → State → State
change_op m mode_query c opnick u t s = s
change_op m mode_add c opnick u t s = give_op m c opnick u t s
change_op m mode_del c opnick u t s = take_op m c opnick u t s

-- `((dir == MODE_ADD) && t_op) || ((dir == MODE_DEL) && !t_op)`
abbrev pub is_idle : Dir → Bool → Bool
is_idle mode_query on = false
is_idle mode_add on = on
is_idle mode_del on = not on

-- chm_op behind the tests of the nick
unfoldable pub op_member : ModeCommand → Dir → ℕ → List ℕ → ℕ → State → State
op_member m dir c opnick u s =
    let t = held_by m u s in
    if is_idle dir t.t_op
    then s
    else if (source_p m s).is_mine && over_limit s
    then count_mode s
    else (let s' = if (source_p m s).is_mine then count_mode s else s in
        change_op m dir c opnick u t s')

-- The tests of the nick in chm_op and chm_voice, and what follows them for a member.
unfoldable pub with_member : ModeCommand → List ℕ → (ℕ → State → State) → State → Option ℕ → State
with_member m opnick k s none = not_on_channel (no_such_nick opnick) s
with_member m opnick k s (some u) =
    if is_member m u s then k u s else not_on_channel (user_not_in_channel opnick) s

-- `if ((dir == MODE_QUERY) || (parc <= *parn)) return; opnick = parv[(*parn)++];`
unfoldable pub op_with : ModeCommand → Dir → ℕ → List (List ℕ) → State → State
op_with m dir c [] s = s
op_with m mode_query c (opnick ∷ params) s = s
op_with m mode_add c (opnick ∷ params) s =
    with_member m opnick (op_member m mode_add c opnick) (record s { params = params })
      (find_target m opnick)
op_with m mode_del c (opnick ∷ params) s =
    with_member m opnick (op_member m mode_del c opnick) (record s { params = params })
      (find_target m opnick)

-- chm_op
unfoldable pub chm_op : ModeCommand → ℕ → Dir → ℕ → State → State
chm_op m alev dir c s = if ltb alev chaccess_chanop then refuse s else op_with m dir c s.params s

-- chm_halfop: the loops that cancel; both forget every change to the client but its -o,
unfoldable pub cancel_halfop : List ℕ → State → State
cancel_halfop opnick s = record s {
  plus = cancel_all (is_any opnick) s.plus;
  minus = cancel_all (is_either b'h' b'v' opnick) s.minus;
}

-- the branch of MODE_ADD, where the client becomes a halfop only if the change is noted,
unfoldable pub give_halfop : ModeCommand → ℕ → List ℕ → ℕ → Target → State → State
give_halfop m c opnick u t s =
    let wasnt_voiced = was_noted b'v' opnick s.plus in
    let was_opped = was_noted b'o' opnick s.minus in
    let was_hopped = was_noted b'h' opnick s.minus in
    let s1 = cancel_halfop opnick s in
    let s2 = add_minus (not wasnt_voiced && t.t_voice) (rank_change b'v' 0 true u s1) s1 in
    let s3 = add_plus (not was_hopped) (rank_change c cap_hops true u s2) s2 in
    let s4 = if was_hopped then s3 else move_to m halfop u s3 in
    let s5 = change_resync u (settle_resync mode_add c false) s4 in
    add_resync m (not was_hopped) mode_add c (not was_opped) false u s5

-- and that of MODE_DEL
unfoldable pub take_halfop : ModeCommand → ℕ → List ℕ → ℕ → State → State
take_halfop m c opnick u s =
    let wasnt_hopped = was_noted b'h' opnick s.plus in
    let s1 = cancel_halfop opnick s in
    let s2 = add_minus (not wasnt_hopped) (rank_change b'h' cap_hops true u s1) s1 in
    let s3 = move_to m peon u s2 in
    let s4 = change_resync u forget_resync s3 in
    add_resync m (not wasnt_hopped) mode_del c true true u s4

unfoldable pub change_halfop : ModeCommand → Dir → ℕ → List ℕ → ℕ → Target → State → State
change_halfop m mode_query c opnick u t s = s
change_halfop m mode_add c opnick u t s =
    if t.t_hop || t.t_op then s else give_halfop m c opnick u t s
change_halfop m mode_del c opnick u t s = if t.t_hop then take_halfop m c opnick u s else s

-- chm_halfop behind find_client, which looks at the standing before it asks for a member
unfoldable pub halfop_target : ModeCommand → Dir → ℕ → List ℕ → State → Option ℕ → State
halfop_target m dir c opnick s none = not_on_channel (no_such_nick opnick) s
halfop_target m dir c opnick s (some u) =
    let t = held_for_halfop m u s in
    if (source_p m s).is_mine && t.t_op
    then s
    else if is_member m u s
    then change_halfop m dir c opnick u t s
    else not_on_channel (user_not_in_channel opnick) s

-- The limit counts halfops only, and the nick is not taken where it is passed.
unfoldable pub halfop_nick : ModeCommand → ℕ → Dir → ℕ → List ℕ → List (List ℕ) → State → State
halfop_nick m alev dir c opnick params s =
    let counts = (source_p m s).is_mine && ltb alev chaccess_chanop in
    if counts && over_limit s
    then count_mode s
    else (let s' = if counts then count_mode s else s in
        halfop_target m dir c opnick (record s' { params = params }) (find_target m opnick))

unfoldable pub halfop_with : ModeCommand → ℕ → Dir → ℕ → List (List ℕ) → State → State
halfop_with m alev dir c [] s = s
halfop_with m alev mode_query c (opnick ∷ params) s = s
halfop_with m alev mode_add c (opnick ∷ params) s = halfop_nick m alev mode_add c opnick params s
halfop_with m alev mode_del c (opnick ∷ params) s = halfop_nick m alev mode_del c opnick params s

-- chm_halfop
unfoldable pub chm_halfop : ModeCommand → ℕ → Dir → ℕ → State → State
chm_halfop m alev dir c s =
    if ltb alev (if has_mode (chptr m s) mode_private then chaccess_chanop else chaccess_halfop)
    then refuse s
    else halfop_with m alev dir c s.params s

-- chm_voice: the loops that cancel,
unfoldable pub cancel_voice : List ℕ → State → State
cancel_voice opnick s = record s {
  plus = cancel_all (is_either b'h' b'v' opnick) s.plus;
  minus = cancel_all (is_for b'v' opnick) s.minus;
}

-- the branch of MODE_ADD,
unfoldable pub give_voice : ModeCommand → ℕ → List ℕ → ℕ → Target → State → State
give_voice m c opnick u t s =
    let was_voiced = was_noted b'v' opnick s.minus in
    let s1 = cancel_voice opnick s in
    let s2 = move_to m (if t.t_op then chanop_voiced else voice) u s1 in
    let s3 = add_plus (not was_voiced) (rank_change c 0 true u s2) s2 in
    let s4 = change_resync u (drop_resync mode_add c) s3 in
    add_resync m (not was_voiced) mode_add c false true u s4

-- and that of MODE_DEL
unfoldable pub take_voice : ModeCommand → ℕ → List ℕ → ℕ → Target → State → State
take_voice m c opnick u t s =
    let wasnt_voiced = was_noted b'v' opnick s.plus in
    let was_voiced = was_noted b'v' opnick s.minus in
    let s1 = cancel_voice opnick s in
    let s2 = move_to m (if t.t_op then chanop else peon) u s1 in
    let s3 = add_minus (not wasnt_voiced) (rank_change b'v' 0 true u s2) s2 in
    let s4 = change_resync u forget_resync s3 in
    add_resync m (not was_voiced) mode_del c false true u s4

unfoldable pub change_voice : ModeCommand → Dir → ℕ → List ℕ → ℕ → Target → State → State
change_voice m mode_query c opnick u t s = s
change_voice m mode_add c opnick u t s =
    if t.t_hop || t.t_voice then s else give_voice m c opnick u t s
change_voice m mode_del c opnick u t s =
    if t.t_hop || not t.t_voice then s else take_voice m c opnick u t s

unfoldable pub voice_member : ModeCommand → Dir → ℕ → List ℕ → ℕ → State → State
voice_member m dir c opnick u s = change_voice m dir c opnick u (held_by m u s) s

unfoldable pub voice_with : ModeCommand → Dir → ℕ → List (List ℕ) → State → State
voice_with m dir c [] s = s
voice_with m mode_query c (opnick ∷ params) s = s
voice_with m mode_add c (opnick ∷ params) s =
    with_member m opnick (voice_member m mode_add c opnick) (record s { params = params })
      (find_target m opnick)
voice_with m mode_del c (opnick ∷ params) s =
    with_member m opnick (voice_member m mode_del c opnick) (record s { params = params })
      (find_target m opnick)

-- chm_voice
unfoldable pub chm_voice : ModeCommand → ℕ → Dir → ℕ → State → State
chm_voice m alev dir c s =
    if ltb alev chaccess_halfop then refuse s else voice_with m dir c s.params s
