-- ===== src/Channel/Bans.antt =====
-- src/channel_mode.c: masks as clients give them, keys, and the lists of bans.
use ircd_hybrid_8_cvs.Common.{
  ℕ, ◌+◌, ◌-◌, ◌%◌, Bool, true, false, ◌&&◌, not, List, [], ◌∷◌, ◌++◌, Option, none, some, ◌==◌,
  ltb, leb, if◌then◌else◌, length, take,
}
use ircd_hybrid_8_cvs.Text.Chars.{is_space}
use ircd_hybrid_8_cvs.Text.Compare.{same_name, collapse}
use ircd_hybrid_8_cvs.Text.Glob.{match}
use ircd_hybrid_8_cvs.Channel.Access.{or_else}
use ircd_hybrid_8_cvs.Channel.Members.{BanEntry, Channel, Client}

-- USERLEN, HOSTLEN and BUFSIZE; NICKLEN is set when the server is configured.
abbrev pub userlen : ℕ
userlen = 10

abbrev pub hostlen : ℕ
hostlen = 63

abbrev pub bufsize : ℕ
bufsize = 512

-- check_string; a pointer that is NULL is the empty string.
unfoldable pub cut_space : List ℕ → List ℕ
cut_space [] = []
cut_space (c ∷ cs) = if is_space c then [] else c ∷ cut_space cs

abbrev pub star : List ℕ
star = b'*' ∷ []

unfoldable pub check_string : List ℕ → List ℕ
check_string [] = star
check_string (c ∷ cs) = cut_space (c ∷ cs)

-- strchr, and the string on both sides of what it finds
abbrev pub add_left : ℕ → Option (List ℕ × List ℕ) → Option (List ℕ × List ℕ)
add_left c none = none
add_left c (some (l, r)) = some (c ∷ l, r)

unfoldable pub split_at : ℕ → List ℕ → Option (List ℕ × List ℕ)
split_at b [] = none
split_at b (c ∷ cs) = if c == b then some ([], cs) else add_left c (split_at b cs)

abbrev pub is_found : Option (List ℕ × List ℕ) → Bool
is_found none = false
is_found (some p) = true

-- The nick, the user and the host of pretty_mask: a mask with no '@'
unfoldable pub plain_parts : List ℕ → Option (List ℕ × List ℕ) → List ℕ × List ℕ × List ℕ
plain_parts mask (some (nick, user)) = (nick, user, star)
plain_parts mask none =
    if is_found (split_at b'.' mask) && is_found (split_at b':' mask)
    then (star, star, mask)
    else (mask, star, star)

-- and one with an '@', by the '!' before it
unfoldable pub host_parts : List ℕ → List ℕ → Option (List ℕ × List ℕ) → List ℕ × List ℕ × List ℕ
host_parts left host (some (nick, user)) = (nick, user, host)
host_parts left host none = (star, left, host)

unfoldable pub parts_at : List ℕ → Option (List ℕ × List ℕ) → List ℕ × List ℕ × List ℕ
parts_at mask (some (left, host)) = host_parts left host (split_at b'!' left)
parts_at mask none = plain_parts mask (split_at b'!' mask)

unfoldable pub mask_parts : List ℕ → List ℕ × List ℕ × List ℕ
mask_parts mask = parts_at mask (split_at b'@' mask)

-- "%s!%s@%s", of the parts cut to their lengths
unfoldable pub join_parts : ℕ → List ℕ × List ℕ × List ℕ → List ℕ
join_parts nicklen (nick, user, host) =
    take nicklen nick ++ b'!' ∷ (take userlen user ++ b'@' ∷ take hostlen host)

-- pretty_mask: `pos` is mask_pos, at most BUFSIZE; the result is the text and the new mask_pos, or
-- `none` for NULL.
unfoldable pub pretty_mask : ℕ → ℕ → List ℕ → Option (List ℕ × ℕ)
pretty_mask nicklen pos given =
    let mask = check_string given in
    if ltb (bufsize - pos) (length mask + 5)
    then none
    else (let text = join_parts nicklen (mask_parts mask) in some (text, pos + length text + 1))

-- fix_key
unfoldable pub fix_key : List ℕ → List ℕ
fix_key [] = []
fix_key (s ∷ l) =
    let rest = fix_key l in
    let c = s % 128 in if not (c == b':') && ltb b' ' c then c ∷ rest else rest

-- What fix_key_old writes, and the C string that this is.
unfoldable pub old_key_bytes : List ℕ → List ℕ
old_key_bytes [] = []
old_key_bytes (s ∷ l) =
    let rest = old_key_bytes l in
    let c = s % 128 in if not (c == 10) && not (c == b':') && not (c == 13) then c ∷ rest else rest

unfoldable pub until_nul : List ℕ → List ℕ
until_nul [] = []
until_nul (c ∷ l) = if c == 0 then [] else c ∷ until_nul l

-- fix_key_old
unfoldable pub fix_key_old : List ℕ → List ℕ
fix_key_old key = until_nul (old_key_bytes key)

-- CHFL_BAN, CHFL_EXCEPTION and CHFL_INVEX, and any other type
pub data MaskKind : Type 0 where
  ban : MaskKind
  exception : MaskKind
  invex : MaskKind
  unknown : MaskKind

unfoldable pub bans_of : MaskKind → Channel → Option (List BanEntry)
bans_of ban ch = some ch.banlist
bans_of exception ch = some ch.exceptlist
bans_of invex ch = some ch.invexlist
bans_of unknown ch = none

unfoldable pub with_bans : MaskKind → Channel → List BanEntry → ℕ → Channel
with_bans ban ch l n = record ch { banlist = l; num_mask = n }
with_bans exception ch l n = record ch { exceptlist = l; num_mask = n }
with_bans invex ch l n = record ch { invexlist = l; num_mask = n }
with_bans unknown ch l n = ch

-- The search of add_id; `none` is a read behind the end of the mask in match.
unfoldable pub is_covered : List BanEntry → List ℕ → Option Bool
is_covered [] banid = some false
is_covered (b ∷ l) banid = or_else (match b.banstr banid) (is_covered l banid)

-- The entry that add_id makes.
unfoldable pub ban_entry : Client → List ℕ → ℕ → BanEntry
ban_entry who banid now = record {
  banstr = banid;
  who = if who.is_person then who.name ++ b'!' ∷ (who.username ++ b'@' ∷ who.host) else who.name;
  when = now;
}

unfoldable pub add_entry :
    MaskKind → Channel → List BanEntry → BanEntry → Option Bool → Option (Channel × Bool)
add_entry kind ch l b none = none
add_entry kind ch l b (some true) = some (ch, false)
add_entry kind ch l b (some false) = some (with_bans kind ch (b ∷ l) (ch.num_mask + 1), true)

unfoldable pub add_to :
    MaskKind → Channel → Client → List ℕ → ℕ → Option (List BanEntry) → Option (Channel × Bool)
add_to kind ch who banid now none = some (ch, false)
add_to kind ch who banid now (some l) =
    add_entry kind ch l (ban_entry who banid now) (is_covered l banid)

-- `if (MyClient(client_p)) collapse(banid);`
abbrev pub id_given : Client → List ℕ → List ℕ
id_given who banid = if who.is_mine then collapse banid else banid

-- add_id, with ConfigChannel.maxbans, CurrentTime, and whether the client is a server; `true` is 0
-- and `false` is -1.
unfoldable pub add_id :
    ℕ → ℕ → Bool → Client → Channel → List ℕ → MaskKind → Option (Channel × Bool)
add_id maxbans now is_server who ch banid kind =
    if not is_server && leb maxbans ch.num_mask && who.is_mine
    then some (ch, false)
    else add_to kind ch who (id_given who banid) now (bans_of kind ch)

-- The loop of del_id: the list without the entry.
unfoldable pub del_entry : List ℕ → List BanEntry → Option (List BanEntry)
del_entry banid [] = none
del_entry banid (b ∷ l) =
    let rest = del_entry banid l in
    if same_name banid b.banstr then some l else elim rest [ none ↦ none | some r ↦ some (b ∷ r) ]

unfoldable pub del_found : MaskKind → Channel → Option (List BanEntry) → Channel × Bool
del_found kind ch none = (ch, false)
del_found kind ch (some l) = (with_bans kind ch l (ch.num_mask - 1), true)

unfoldable pub del_from : MaskKind → Channel → List ℕ → Option (List BanEntry) → Channel × Bool
del_from kind ch banid none = (ch, false)
del_from kind ch banid (some l) = del_found kind ch (del_entry banid l)

-- del_id, of a mask that is not NULL
unfoldable pub del_id : Channel → List ℕ → MaskKind → Channel × Bool
del_id ch banid kind = del_from kind ch banid (bans_of kind ch)
