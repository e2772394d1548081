-- ===== src/Channel/Tests.antt =====
-- The theorems on channels at concrete ones.
use ircd_hybrid_8_cvs.Common.{
  ℕ, ◌+◌, ◌≤◌, ◌≡◌, refl, true, false, List, [], ◌∷◌, none, some, length, arith, All,
}
use ircd_hybrid_8_cvs.Common.Int.{pos}
use ircd_hybrid_8_cvs.Text.Chars.{is_space, to_lower}
use ircd_hybrid_8_cvs.Text.Compare.{IsText, collapse}
use ircd_hybrid_8_cvs.Text.Glob.{
  match, match_loop, match_round, at_star, test_ends, skip_stars, compare_bytes, retry, open_end,
  open_back,
}
use ircd_hybrid_8_cvs.Text.MaskEnds.{NoEscape}
use ircd_hybrid_8_cvs.Hash.Chain.{clear}
use ircd_hybrid_8_cvs.Channel.Members.{
  has, Sublists, chanop_voiced, voice, seat, destroy_channel, is_vchan_top, list_of, BanEntry,
  Channel, Client, World, Setting, set_client, set_channel, enter, add_user_to_channel, add_invite,
}
use ircd_hybrid_8_cvs.Channel.Leave.{remove_user_from_channel, change_channel_membership}
use ircd_hybrid_8_cvs.Channel.Lists.{occurs, standing, size}
use ircd_hybrid_8_cvs.Channel.Consistent.{IsConsistent, add_user_to_channel-IsConsistent}
use ircd_hybrid_8_cvs.Channel.Leaving.{HasLeft, remove_user_from_channel-HasLeft}
use ircd_hybrid_8_cvs.Channel.Dangling.{destroy_channel_dangling}
use ircd_hybrid_8_cvs.Channel.Promote.{change_channel_membership-IsConsistent}
use ircd_hybrid_8_cvs.Channel.Access.{or_else, Rules, src_host, src_iphost, can_join, can_send}
use ircd_hybrid_8_cvs.Channel.BanLaws.{AreSearchable}
use ircd_hybrid_8_cvs.Channel.JoinLaws.{MayJoin, EntryDecides, can_join-MayJoin}
use ircd_hybrid_8_cvs.Channel.SendLaws.{MaySend, VoiceDecides, can_send-MaySend}
use ircd_hybrid_8_cvs.Channel.Invites.{InvitesAgree, add_invite-InvitesAgree}
use ircd_hybrid_8_cvs.Channel.Bans.{
  userlen, hostlen, bufsize, star, pretty_mask, ban, bans_of, with_bans, id_given, add_id, add_to,
  add_entry, ban_entry, is_covered, del_id,
}
use ircd_hybrid_8_cvs.Channel.BanLists.{del_id-add_id}
use ircd_hybrid_8_cvs.Channel.MaskText.{full_mask, pretty_mask_bound, pretty_mask_dotted}

abbrev nobody_on : Sublists
nobody_on = record { peons = []; chanops = []; chanops_voiced = []; voiced = []; halfops = [] }

-- "a*", as a ban
abbrev a_ban : BanEntry
a_ban = record { banstr = 97 ∷ 42 ∷ []; who = 98 ∷ []; when = 5 }

abbrev channel : Channel
channel = record {
  everyone = nobody_on;
  local = nobody_on;
  users = 0;
  locusers = 0;
  users_last = 0;
  channelts = 10;
  vchan_id = [];
  root = none;
  vchan_list = [];
  invites = [];
  banlist = a_ban ∷ [];
  exceptlist = [];
  invexlist = [];
  num_mask = 1;
  chname = 35 ∷ 97 ∷ [];
  mode = 0;
  limit = 0;
  key = 107 ∷ [];
}

abbrev client : Client
client = record {
  name = 97 ∷ [];
  username = 98 ∷ [];
  host = 99 ∷ [];
  sockhost = 100 ∷ [];
  is_person = true;
  has_user = true;
  is_mine = true;
  channels = [];
  joined = pos 0;
  invited = [];
  vchan_map = [];
}

abbrev world : World
world = record {
  client = λ u. client;
  channel = λ c. channel;
  known = record { table = clear; global = []; count = 1 };
  lazylink_channels = [];
}

abbrev setting : Setting
setting = record { now = 100; hub = true; persist_time = 20; max_chans_per_user = 10 }

abbrev rules : Rules
rules = record { use_except = true; use_invex = true; quiet_on_ban = true }

world-IsConsistent : IsConsistent world
unfolding standing size occurs
world-IsConsistent = record {
  linked = λ c u. refl;
  once = λ c u. omega arith;
  near = λ c u. refl;
  users = λ c. refl;
  locusers = λ c. refl;
  joined = λ u. refl;
}

absent : occurs 1 (world.client 7).channels ≡ 0
unfolding occurs
absent = refl

abbrev joined_world : World
joined_world = add_user_to_channel setting world 1 7 1

joined_world-IsConsistent : IsConsistent joined_world
joined_world-IsConsistent =
    add_user_to_channel-IsConsistent setting world 1 7 1 world-IsConsistent refl absent

present : occurs 1 (joined_world.client 7).channels ≡ 1
unfolding add_user_to_channel set_client set_channel enter occurs
present = refl

remove_user_from_channel-HasLeft_example :
    HasLeft 1 7 (remove_user_from_channel setting joined_world 1 7 false)
remove_user_from_channel-HasLeft_example =
    remove_user_from_channel-HasLeft setting joined_world 1 7 joined_world-IsConsistent false

change_channel_membership-IsConsistent_example :
    let r = change_channel_membership joined_world 1 voice 7 in
    IsConsistent r.0
    × (r.1 ≡ true)
    × (has 7 (list_of voice (r.0.channel 1).everyone) ≡ true)
    × (standing 7 (r.0.channel 1).everyone ≡ 1)
    × (has 7 (list_of voice (r.0.channel 1).local) ≡ (joined_world.client 7).is_mine)
change_channel_membership-IsConsistent_example =
    change_channel_membership-IsConsistent joined_world 1 7 voice joined_world-IsConsistent present

host-IsText : IsText (src_host client)
unfolding src_host
host-IsText = omega arith

iphost-IsText : IsText (src_iphost client)
unfolding src_iphost
iphost-IsText = omega arith

bans_searchable : AreSearchable (src_host client) (src_iphost client) ((97 ∷ 42 ∷ []) ∷ [])
unfolding src_host src_iphost
bans_searchable = (((no_escape, omega arith), (no_escape, omega arith)), tt)
  where
    no_escape : NoEscape (97 ∷ 42 ∷ [])
    no_escape = ((λ e. absurd (omega arith)), ((λ e. absurd (omega arith)), tt))

can_join-MayJoin_example :
    EntryDecides
      (MayJoin rules channel 1 client (75 ∷ []))
      (can_join rules channel 1 client (75 ∷ []))
can_join-MayJoin_example =
    can_join-MayJoin rules channel 1 client (75 ∷ []) refl host-IsText iphost-IsText
      ((omega arith, omega arith), tt) ((omega arith, omega arith), tt) bans_searchable tt tt

can_send-MaySend_example :
    VoiceDecides (MaySend rules clear channel 1 client 7) (can_send rules clear channel 1 client 7)
can_send-MaySend_example =
    can_send-MaySend rules channel client clear 1 7 host-IsText iphost-IsText bans_searchable tt

world-InvitesAgree : InvitesAgree world
unfolding occurs
world-InvitesAgree = record { both = λ c u. refl; once = λ c u. omega arith }

uninvited : occurs 1 (world.client 7).invited ≡ 0
unfolding occurs
uninvited = refl

add_invite-InvitesAgree_example :
    InvitesAgree (add_invite setting world 1 7)
    × (occurs 1 ((add_invite setting world 1 7).client 7).invited ≡ 1)
    × (occurs 7 ((add_invite setting world 1 7).channel 1).invites ≡ 1)
add_invite-InvitesAgree_example = add_invite-InvitesAgree setting world 1 7 world-InvitesAgree

-- A ban on "b", by a client of this server.
abbrev b_ban : BanEntry
b_ban = record { banstr = 98 ∷ []; who = 97 ∷ 33 ∷ 98 ∷ 64 ∷ 99 ∷ []; when = 100 }

abbrev banned_channel : Channel
banned_channel = record channel { banlist = b_ban ∷ a_ban ∷ []; num_mask = 2 }

b_added : add_id 20 100 false client channel (98 ∷ []) ban ≡ some (banned_channel, true)
unfolding add_id add_to add_entry ban_entry is_covered bans_of with_bans collapse or_else match
    match_loop match_round at_star test_ends skip_stars compare_bytes retry open_end open_back
    to_lower
b_added = refl

b_given : IsText (id_given client (98 ∷ []))
unfolding collapse
b_given = omega arith

del_id-add_id_example : del_id banned_channel (id_given client (98 ∷ [])) ban ≡ (channel, true)
del_id-add_id_example =
    del_id-add_id 20 100 false client channel banned_channel (98 ∷ []) ban b_given b_added

-- "z.d"
abbrev dotted : List ℕ
dotted = 122 ∷ 46 ∷ 100 ∷ []

dotted_plain : All (λ c. is_space c ≡ false) dotted
unfolding is_space
dotted_plain = (refl, (refl, (refl, tt)))

dotted_result : pretty_mask 9 0 dotted ≡ some (full_mask dotted star star, 8)
dotted_result =
    pretty_mask_dotted 9 0 122 (46 ∷ 100 ∷ [])
      (
        ((λ e. absurd (omega arith)), (λ e. absurd (omega arith)), (λ e. absurd (omega arith))),
        (
          ((λ e. absurd (omega arith)), (λ e. absurd (omega arith)), (λ e. absurd (omega arith))),
          (
            ((λ e. absurd (omega arith)), (λ e. absurd (omega arith)), (λ e. absurd (omega arith))),
            tt,
          ),
        ),
      )
      dotted_plain (omega arith) (omega arith)

pretty_mask_bound_example :
    (8 ≤ bufsize)
    × (8 ≡ 0 + length (full_mask dotted star star) + 1)
    × (length (full_mask dotted star star) ≤ 9 + userlen + hostlen + 2)
pretty_mask_bound_example = pretty_mask_bound 9 0 dotted (omega arith) dotted_result

-- "a!b@c"
abbrev FullPlain : Type 0
FullPlain = All (λ c. is_space c ≡ false) (full_mask (97 ∷ []) (98 ∷ []) (99 ∷ []))

full-FullPlain : FullPlain
unfolding is_space
full-FullPlain = (refl, (refl, (refl, (refl, (refl, tt)))))

-- A client of another server that is an operator with a voice.
abbrev far_world : World
far_world = record world { client = λ u. record client { is_mine = false } }

far_world-IsConsistent : IsConsistent far_world
unfolding standing size occurs
far_world-IsConsistent = record {
  linked = λ c u. refl;
  once = λ c u. omega arith;
  near = λ c u. refl;
  users = λ c. refl;
  locusers = λ c. refl;
  joined = λ u. refl;
}

far_absent : occurs 1 (far_world.client 7).channels ≡ 0
unfolding occurs
far_absent = refl

abbrev far_joined : World
far_joined = add_user_to_channel setting far_world 1 7 1

far_joined-IsConsistent : IsConsistent far_joined
far_joined-IsConsistent =
    add_user_to_channel-IsConsistent setting far_world 1 7 1 far_world-IsConsistent refl far_absent

far_present : occurs 1 (far_joined.client 7).channels ≡ 1
unfolding add_user_to_channel set_client set_channel enter occurs
far_present = refl

abbrev far_voiced : World
far_voiced = (change_channel_membership far_joined 1 chanop_voiced 7).0

far_voiced-IsConsistent : IsConsistent far_voiced
far_voiced-IsConsistent =
    (change_channel_membership-IsConsistent far_joined 1 7 chanop_voiced far_joined-IsConsistent
      far_present).0

far_voiced_on : has 7 (far_voiced.channel 1).everyone.chanops_voiced ≡ true
unfolding list_of
far_voiced_on =
    (change_channel_membership-IsConsistent far_joined 1 7 chanop_voiced far_joined-IsConsistent
      far_present).2

far_voiced_far : (far_voiced.client 7).is_mine ≡ false
unfolding change_channel_membership add_user_to_channel set_client set_channel enter
far_voiced_far = refl

far_voiced_low : is_vchan_top (far_voiced.channel 1) ≡ false
unfolding change_channel_membership add_user_to_channel set_client set_channel seat
far_voiced_low = refl

destroy_channel_dangling_example :
    occurs 1 ((destroy_channel setting far_voiced 1).client 7).channels ≡ 1
destroy_channel_dangling_example =
    destroy_channel_dangling 1 7 setting far_voiced far_voiced-IsConsistent far_voiced_far
      far_voiced_on far_voiced_low
