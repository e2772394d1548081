-- ===== src/Channel/Members.antt =====
-- src/channel.c and src/channel_mode.c: the lists of a channel's members, and how clients get on them,
-- between them and off them. A client and a channel are known by their addresses; a dlink_list is
-- the list of its data (src/tools.c), which dlinkAdd extends at the front.
use ircd_hybrid_8_cvs.Common.{
  ℕ, ◌+◌, ◌-◌, Bool, true, false, ◌||◌, not, List, [], ◌∷◌, Option, none, some, ◌==◌, leb, ltb,
  if◌then◌else◌,
}
use ircd_hybrid_8_cvs.Common.Int.{ℤ, pos, ◌+ℤ◌, ◌-ℤ◌}
use ircd_hybrid_8_cvs.Hash.Channel.{Named, Channels, del_channel}

-- dlinkFind on a list, as a test
unfoldable pub has : ℕ → List ℕ → Bool
has u [] = false
has u (v ∷ l) = if v == u then true else has u l

-- dlinkDelete of the first link that dlinkFind finds
unfoldable pub del : ℕ → List ℕ → List ℕ
del u [] = []
del u (v ∷ l) = if v == u then l else v ∷ del u l

-- The five lists of members of struct Channel, or the five of local members.
pub record Sublists : Type 0 where
  pub peons : List ℕ
  pub chanops : List ℕ
  pub chanops_voiced : List ℕ
  pub voiced : List ℕ
  pub halfops : List ℕ

-- Which of the five.
pub data Rank : Type 0 where
  peon : Rank
  chanop : Rank
  chanop_voiced : Rank
  voice : Rank
  halfop : Rank

unfoldable pub list_of : Rank → Sublists → List ℕ
list_of peon s = s.peons
list_of chanop s = s.chanops
list_of chanop_voiced s = s.chanops_voiced
list_of voice s = s.voiced
list_of halfop s = s.halfops

unfoldable pub with_list : Rank → Sublists → List ℕ → Sublists
with_list peon s l = record s { peons = l }
with_list chanop s l = record s { chanops = l }
with_list chanop_voiced s l = record s { chanops_voiced = l }
with_list voice s l = record s { voiced = l }
with_list halfop s l = record s { halfops = l }

abbrev pub same_rank : Rank → Rank → Bool
same_rank peon peon = true
same_rank chanop chanop = true
same_rank chanop_voiced chanop_voiced = true
same_rank voice voice = true
same_rank halfop halfop = true
same_rank p r = false

-- The first list, in that order, on which find_user_link finds the client.
unfoldable pub find_rank : List Rank → Sublists → ℕ → Option Rank
find_rank [] s u = none
find_rank (r ∷ rs) s u = if has u (list_of r s) then some r else find_rank rs s u

-- struct Ban; the field `when` is a time.
pub record BanEntry : Type 0 where
  pub banstr : List ℕ
  pub who : List ℕ
  pub when : ℕ

-- struct Channel, less its topic and its flood counts; `mode`, `limit` and `key` are its struct Mode,
-- and users never falls below zero.
pub record Channel : Type 0 where
  pub everyone : Sublists
  pub local : Sublists
  pub users : ℕ
  pub locusers : ℕ
  pub users_last : ℕ
  pub channelts : ℕ
  pub vchan_id : List ℕ
  pub root : Option ℕ
  pub vchan_list : List ℕ
  pub invites : List ℕ
  pub banlist : List BanEntry
  pub exceptlist : List BanEntry
  pub invexlist : List BanEntry
  pub num_mask : ℕ
  pub chname : List ℕ
  pub mode : ℕ
  pub limit : ℕ
  pub key : List ℕ

-- What channels read of struct Client and of its struct User; vchan_map is a list of base_chan and
-- vchan, and `has_user` is `who->user` as a test.
pub record Client : Type 0 where
  pub name : List ℕ
  pub username : List ℕ
  pub host : List ℕ
  pub sockhost : List ℕ
  pub is_person : Bool
  pub has_user : Bool
  pub is_mine : Bool
  pub channels : List ℕ
  pub joined : ℤ
  pub invited : List ℕ
  pub vchan_map : List (ℕ × ℕ)

-- The clients and channels, channelTable with GlobalChannelList, and lazylink_channels.
pub record World : Type 0 where
  pub client : ℕ → Client
  pub channel : ℕ → Channel
  pub known : Channels
  pub lazylink_channels : List ℕ

-- CurrentTime, ServerInfo.hub, ConfigChannel.persist_time and ConfigChannel.max_chans_per_user
pub record Setting : Type 0 where
  pub now : ℕ
  pub hub : Bool
  pub persist_time : ℕ
  pub max_chans_per_user : ℕ

unfoldable pub set_client : World → ℕ → Client → World
set_client w u x = record w { client = λ v. if v == u then x else w.client v }

unfoldable pub set_channel : World → ℕ → Channel → World
set_channel w c x = record w { channel = λ d. if d == c then x else w.channel d }

-- dlinkAdd to one of the five lists
unfoldable pub put : Rank → ℕ → Sublists → Sublists
put r u s = with_list r s (u ∷ list_of r s)

-- dlinkDelete from one of the five lists
unfoldable pub take_off : Rank → ℕ → Sublists → Sublists
take_off r u s = with_list r s (del u (list_of r s))

-- What add_user_to_channel writes to the channel and to the client.
unfoldable pub seat : Setting → Channel → Client → ℕ → Rank → Channel
seat g ch who u r = record ch {
  everyone = put r u ch.everyone;
  local = if who.is_mine then put r u ch.local else ch.local;
  users = ch.users + 1;
  locusers = if who.is_mine then ch.locusers + 1 else ch.locusers;
  users_last = g.now;
}

unfoldable pub enter : ℕ → Client → Client
enter c who = record who { channels = c ∷ who.channels; joined = who.joined +ℤ pos 1 }

-- The list that the switch on `flags` takes: MODE_CHANOP, MODE_HALFOP, MODE_VOICE, or any other value.
unfoldable pub rank_of : ℕ → Rank
rank_of flags =
    if flags == 1 then chanop else if flags == 8 then halfop else if flags == 2 then voice else peon

-- add_user_to_channel
unfoldable pub add_user_to_channel : Setting → World → ℕ → ℕ → ℕ → World
add_user_to_channel g w c u flags =
    if (w.client u).has_user
    then set_client (set_channel w c (seat g (w.channel c) (w.client u) u (rank_of flags))) u
        (enter c (w.client u))
    else w

-- del_vchan_from_client_cache
unfoldable pub del_vchan_map : ℕ → List (ℕ × ℕ) → List (ℕ × ℕ)
del_vchan_map c [] = []
del_vchan_map c ((base, v) ∷ l) = if v == c then l else (base, v) ∷ del_vchan_map c l

-- IsVchan
abbrev pub is_vchan : Channel → Bool
is_vchan ch = elim ch.root [ none ↦ false | some r ↦ true ]

-- IsVchanTop
abbrev pub is_vchan_top : Channel → Bool
is_vchan_top ch = elim ch.vchan_list [ [] ↦ false | v ∷ l ↦ true ]

-- The links of the client to the channel: its list of channels, joined, and the cache of vchans.
unfoldable pub forget : Channel → ℕ → Client → Client
forget ch c who = record who {
  channels = del c who.channels;
  joined = who.joined -ℤ pos 1;
  vchan_map = if is_vchan ch then del_vchan_map c who.vchan_map else who.vchan_map;
}

-- What delete_members does to the clients of a list.
unfoldable pub forget_all : Channel → ℕ → List ℕ → World → World
forget_all ch c [] w = w
forget_all ch c (u ∷ l) w = forget_all ch c l (set_client w u (forget ch c (w.client u)))

-- delete_members, for one list of each of the members or of the local members
unfoldable pub delete_members : Rank → World → ℕ → World
delete_members r w c =
    let ch = w.channel c in
    let w' = forget_all ch c (list_of r ch.everyone) w in
    set_channel w' c (record (w'.channel c) { everyone = with_list r ch.everyone [] })

unfoldable pub delete_local : Rank → World → ℕ → World
delete_local r w c =
    let ch = w.channel c in
    let w' = forget_all ch c (list_of r ch.local) w in
    set_channel w' c (record (w'.channel c) { local = with_list r ch.local [] })

-- del_invite
unfoldable pub del_invite : World → ℕ → ℕ → World
del_invite w c u =
    let ch = w.channel c in
    let who = w.client u in
    set_client (set_channel w c (record ch { invites = del u ch.invites })) u
      (record who { invited = del c who.invited })

-- `while ((ptr = chptr->invites.head)) del_invite(chptr, ptr->data);`
unfoldable pub del_invites : World → ℕ → List ℕ → World
del_invites w c [] = w
del_invites w c (u ∷ l) = del_invites (del_invite w c u) c l

-- add_invite
unfoldable pub count_links : List ℕ → ℕ
count_links [] = 0
count_links (x ∷ l) = count_links l + 1

unfoldable pub add_invite : Setting → World → ℕ → ℕ → World
add_invite g w c u =
    let w' = del_invite w c u in
    let w'' =
      if leb g.max_chans_per_user (count_links (w'.client u).invited)
      then del_invite w' c u
      else w' in
    let ch = w''.channel c in
    let who = w''.client u in
    set_client (set_channel w'' c (record ch { invites = u ∷ ch.invites })) u
      (record who { invited = c ∷ who.invited })

-- The channel's own place on vchan_list of its root; the code relies on its standing there.
unfoldable pub leave_root : World → ℕ → Option ℕ → World
leave_root w c none = w
leave_root w c (some r) =
    set_channel w r (record (w.channel r) { vchan_list = del c (w.channel r).vchan_list })

unfoldable pub del_named : ℕ → List Named → List Named
del_named c [] = []
del_named c (d ∷ l) = if d.ptr == c then l else d ∷ del_named c l

-- The calls of delete_members, in their order; chanops_voiced and its local list have none.
abbrev pub delete_order : List Rank
delete_order = chanop ∷ voice ∷ peon ∷ halfop ∷ []

unfoldable pub delete_each : List Rank → World → ℕ → World
delete_each [] w c = w
delete_each (r ∷ rs) w c = delete_each rs (delete_members r w c) c

unfoldable pub delete_each_local : List Rank → World → ℕ → World
delete_each_local [] w c = w
delete_each_local (r ∷ rs) w c = delete_each_local rs (delete_local r w c) c

-- The end of destroy_channel: the lists of masks, then the lists that the channel stands on. What
-- is freed stays in `channel`, but nothing leads to it.
unfoldable pub unlist : Setting → World → ℕ → World
unlist g w c =
    let ch = w.channel c in
    record (set_channel w c (record ch { banlist = []; exceptlist = []; invexlist = [] })) {
      known = record {
        table = del_channel w.known.table ch.chname (record { ptr = c; name = ch.chname });
        global = del_named c w.known.global;
        count = w.known.count - 1;
      };
      lazylink_channels = if g.hub then del c w.lazylink_channels else w.lazylink_channels;
    }

-- destroy_channel, for a channel that is not the top of a chain of vchans
unfoldable pub wipe_channel : Setting → World → ℕ → World
wipe_channel g w c =
    let w1 = leave_root w c (w.channel c).root in
    let w2 = delete_each_local delete_order (delete_each delete_order w1 c) c in
    unlist g (del_invites w2 c (w2.channel c).invites) c

-- destroy_channel
unfoldable pub destroy_channel : Setting → World → ℕ → World
destroy_channel g w c = if is_vchan_top (w.channel c) then w else wipe_channel g w c

-- sub1_from_channel
unfoldable pub sub1_from_channel : Setting → World → ℕ → Bool → World
sub1_from_channel g w c perm =
    let ch = w.channel c in
    let w' = set_channel w c (record ch { users = ch.users - 1 }) in
    if leb ch.users 1
    then (if not perm || ltb g.now (ch.channelts + g.persist_time)
        then destroy_channel g w' c
        else w')
    else w'

-- The order in which remove_user_from_channel searches the lists of members, and the local ones.
abbrev pub leave_order : List Rank
leave_order = peon ∷ chanop ∷ chanop_voiced ∷ voice ∷ halfop ∷ []

abbrev pub leave_order_local : List Rank
leave_order_local = peon ∷ chanop ∷ voice ∷ halfop ∷ chanop_voiced ∷ []
