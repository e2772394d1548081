-- ===== src/Channel/Access.antt =====
-- src/channel.c: who is banned, who may join and who may speak; src/resv.c: reserved channels.
use Prim.Native.Nat.{bit_and}
use ircd_hybrid_8_cvs.Common.{
  ℕ, Bool, true, false, ◌&&◌, ◌||◌, not, List, [], ◌∷◌, ◌++◌, Option, none, some, ◌==◌, leb,
  if◌then◌else◌,
}
use ircd_hybrid_8_cvs.Text.Compare.{same_name}
use ircd_hybrid_8_cvs.Text.Glob.{match, is_end}
use ircd_hybrid_8_cvs.Hash.Chain.{Table}
use ircd_hybrid_8_cvs.Hash.Channel.{Named, hash_find_resv}
use ircd_hybrid_8_cvs.Channel.Members.{has, BanEntry, Channel, Client}
use ircd_hybrid_8_cvs.Channel.Leave.{is_any_op, is_voiced}

-- 0, CHFL_BAN and CHFL_EXCEPTION
pub data Ban : Type 0 where
  unbanned : Ban
  banned : Ban
  excepted : Ban

-- 0, ERR_BANNEDFROMCHAN, ERR_INVITEONLYCHAN, ERR_BADCHANNELKEY and ERR_CHANNELISFULL
pub data Entry : Type 0 where
  welcome : Entry
  banned_from_chan : Entry
  invite_only_chan : Entry
  bad_channel_key : Entry
  channel_is_full : Entry

-- CAN_SEND_NO, CAN_SEND_NONOP and CAN_SEND_OPV
pub data Voice : Type 0 where
  send_no : Voice
  send_nonop : Voice
  send_opv : Voice

-- The fields of ConfigChannel that are read.
pub record Rules : Type 0 where
  pub use_except : Bool
  pub use_invex : Bool
  pub quiet_on_ban : Bool

-- MODE_MODERATED, MODE_INVITEONLY and MODE_NOPRIVMSGS
abbrev pub mode_moderated : ℕ
mode_moderated = 32

abbrev pub mode_inviteonly : ℕ
mode_inviteonly = 128

abbrev pub mode_noprivmsgs : ℕ
mode_noprivmsgs = 256

-- `chptr->mode.mode & bit`
unfoldable pub has_mode : Channel → ℕ → Bool
has_mode ch bit = not (bit_and ch.mode bit == 0)

-- `||` on two searches, the second of which is made only if the first fails; `none` is a read behind
-- the end of a name in match.
unfoldable pub or_else : Option Bool → Option Bool → Option Bool
or_else none b = none
or_else (some true) b = some true
or_else (some false) b = b

-- `match(banstr, s) || match(banstr, s2)`
unfoldable pub matches_one : List ℕ → List ℕ → List ℕ → Option Bool
matches_one mask s s2 = or_else (match mask s) (match mask s2)

-- A loop over a list of masks that stops at the first that matches.
unfoldable pub any_match : List (List ℕ) → List ℕ → List ℕ → Option Bool
any_match [] s s2 = some false
any_match (mask ∷ masks) s s2 = or_else (matches_one mask s s2) (any_match masks s s2)

-- The banstr of each entry of a list.
abbrev pub masks_of : List BanEntry → List (List ℕ)
masks_of [] = []
masks_of (b ∷ l) = b.banstr ∷ masks_of l

-- What check_banned makes of the searches through the bans and the exceptions.
unfoldable pub ban_of : Bool → Option Bool → Option Bool → Option Ban
ban_of on none e = none
ban_of on (some false) e = some unbanned
ban_of false (some true) e = some banned
ban_of true (some true) none = none
ban_of true (some true) (some true) = some excepted
ban_of true (some true) (some false) = some banned

-- check_banned
unfoldable pub check_banned : Rules → Channel → List ℕ → List ℕ → Option Ban
check_banned g ch s s2 =
    ban_of g.use_except (any_match (masks_of ch.banlist) s s2)
      (any_match (masks_of ch.exceptlist) s s2)

-- nick!user@host and nick!user@ip
unfoldable pub src_host : Client → List ℕ
src_host who = who.name ++ b'!' ∷ who.username ++ b'@' ∷ who.host

unfoldable pub src_iphost : Client → List ℕ
src_iphost who = who.name ++ b'!' ∷ who.username ++ b'@' ∷ who.sockhost

-- is_banned
unfoldable pub is_banned : Rules → Channel → Client → Option Ban
is_banned g ch who =
    if not who.is_person then some unbanned else check_banned g ch (src_host who) (src_iphost who)

-- The tests of the key and of the limit at the end of can_join; a key that is NULL is the empty one.
unfoldable pub key_and_limit : Channel → List ℕ → Entry
key_and_limit ch key =
    if not (is_end ch.key) && (is_end key || not (same_name ch.key key))
    then bad_channel_key
    else if not (ch.limit == 0) && leb ch.limit ch.users
    then channel_is_full
    else welcome

-- The test for invitations in can_join.
unfoldable pub is_let_in : Rules → Channel → ℕ → Client → Option Bool
is_let_in g ch c who =
    if has_mode ch mode_inviteonly
    then (if has c who.invited
        then some true
        else if not g.use_invex
        then some false
        else any_match (masks_of ch.invexlist) (src_host who) (src_iphost who))
    else some true

unfoldable pub join_let_in : Channel → List ℕ → Option Bool → Option Entry
join_let_in ch key none = none
join_let_in ch key (some false) = some invite_only_chan
join_let_in ch key (some true) = some (key_and_limit ch key)

unfoldable pub join_unless_banned : Option Ban → Option Entry → Option Entry
join_unless_banned none rest = none
join_unless_banned (some banned) rest = some banned_from_chan
join_unless_banned (some unbanned) rest = rest
join_unless_banned (some excepted) rest = rest

-- can_join, for the channel at the address `c`. Only a client of this server has a LocalUser, and
-- without one the assertion on `localClient` fails.
unfoldable pub can_join : Rules → Channel → ℕ → Client → List ℕ → Option Entry
can_join g ch c who key =
    if not who.is_mine
    then none
    else join_unless_banned (check_banned g ch (src_host who) (src_iphost who))
        (join_let_in ch key (is_let_in g ch c who))

-- find_channel_resv
unfoldable pub find_channel_resv : Table Named → List ℕ → Bool
find_channel_resv t name = elim (hash_find_resv t name) [ none ↦ false | some r ↦ true ]

-- The end of can_send, behind the test for a ban that silences.
unfoldable pub send_outside : Channel → ℕ → Client → Voice
send_outside ch c who =
    if has_mode ch mode_noprivmsgs && not (who.has_user && has c who.channels)
    then send_no
    else send_nonop

unfoldable pub send_unless_banned : Channel → ℕ → Client → Option Ban → Option Voice
send_unless_banned ch c who none = none
send_unless_banned ch c who (some banned) = some send_no
send_unless_banned ch c who (some unbanned) = some (send_outside ch c who)
send_unless_banned ch c who (some excepted) = some (send_outside ch c who)

-- can_send, for the channel at the address `c` and the client at the address `u`
unfoldable pub can_send : Rules → Table Named → Channel → ℕ → Client → ℕ → Option Voice
can_send g resv ch c who u =
    if who.is_mine && find_channel_resv resv ch.chname
    then some send_no
    else if is_any_op ch u || is_voiced ch u
    then some send_opv
    else if has_mode ch mode_moderated
    then some send_no
    else if g.quiet_on_ban && who.is_mine
    then send_unless_banned ch c who (is_banned g ch who)
    else some (send_outside ch c who)
