-- ===== src/Mode/State.antt =====
-- src/channel_mode.c: what the handlers of the channel modes share: the changes that are noted for
-- other servers and clients, the errors, and the parameters that are left.
use ircd_hybrid_8_cvs.Common.{
  ℕ, Bool, true, false, List, [], ◌∷◌, ◌++◌, Option, none, some, ◌==◌, if◌then◌else◌,
}
use ircd_hybrid_8_cvs.Text.Compare.{same_name}
use ircd_hybrid_8_cvs.Hash.Client.{Tables}
use ircd_hybrid_8_cvs.Channel.Members.{BanEntry, Channel, Client, World, set_channel}
use ircd_hybrid_8_cvs.Channel.Bans.{MaskKind}

-- MODE_QUERY, MODE_ADD and MODE_DEL
pub data Dir : Type 0 where
  mode_query : Dir
  mode_add : Dir
  mode_del : Dir

abbrev pub same_dir : Dir → Dir → Bool
same_dir mode_query mode_query = true
same_dir mode_add mode_add = true
same_dir mode_del mode_del = true
same_dir d e = false

-- CHACCESS_HALFOP and CHACCESS_CHANOP; CHACCESS_PEON is 0
abbrev pub chaccess_halfop : ℕ
chaccess_halfop = 2

abbrev pub chaccess_chanop : ℕ
chaccess_chanop = 3

-- CAP_EX, CAP_IE, CAP_HOPS and CAP_AOPS
abbrev pub cap_ex : ℕ
cap_ex = 8

abbrev pub cap_ie : ℕ
cap_ie = 64

abbrev pub cap_hops : ℕ
cap_hops = 2048

abbrev pub cap_aops : ℕ
cap_aops = 8192

-- ALL_MEMBERS and ONLY_CHANOPS_HALFOPS
abbrev pub all_members : ℕ
all_members = 0

abbrev pub only_chanops_halfops : ℕ
only_chanops_halfops = 3

-- MODE_PRIVATE, MODE_SECRET, MODE_TOPICLIMIT and MODE_HIDEOPS
abbrev pub mode_private : ℕ
mode_private = 8

abbrev pub mode_secret : ℕ
mode_secret = 16

abbrev pub mode_topiclimit : ℕ
mode_topiclimit = 64

abbrev pub mode_hideops : ℕ
mode_hideops = 16384

-- struct ChModeChange; `id` is the client whose user->id it points to, and `none` is NULL.
pub record Change : Type 0 where
  pub letter : ℕ
  pub arg : Option (List ℕ)
  pub id : Option ℕ
  pub caps : ℕ
  pub nocaps : ℕ
  pub mems : ℕ

-- struct ChResyncOp; `client` is client_p, and `none` is NULL.
pub record Resync : Type 0 where
  pub client : Option ℕ
  pub whole_chan : Bool
  pub dir : Dir
  pub sync : Bool
  pub send : Bool
  pub letter : ℕ

-- What the handlers send to the client at once: the numeric and what it names. The entries of a list
-- of masks are sent with their makers, or with the name of the server in their place.
pub data Reply : Type 0 where
  chanop_privs_needed : Reply
  unknown_mode : ℕ → Reply
  no_such_nick : List ℕ → Reply
  user_not_in_channel : List ℕ → Reply
  mask_list : MaskKind → (hides_makers : Bool) → List BanEntry → Reply

-- The bits SM_ERR_NOOPS, SM_ERR_UNKNOWN, SM_ERR_RPL_B, SM_ERR_RPL_E, SM_ERR_RPL_I and
-- SM_ERR_NOTONCHANNEL of *errors
pub record Errors : Type 0 where
  pub noops : Bool
  pub unknown : Bool
  pub rpl_b : Bool
  pub rpl_e : Bool
  pub rpl_i : Bool
  pub notonchannel : Bool

-- Who gives the command, and what it reads besides: IsServer(client_p), the address of source_p and
-- IsServer(source_p), the address of the channel, NICKLEN, ConfigChannel.maxbans, CurrentTime and
-- the tables of names. The field is_mine of a client of the channel is MyClient, and MyConnect.
pub record ModeCommand : Type 0 where
  pub from_server : Bool
  pub source : ℕ
  pub source_server : Bool
  pub channel : ℕ
  pub nicklen : ℕ
  pub maxbans : ℕ
  pub now : ℕ
  pub names : Tables

-- What changes while the letters are read: the world, the arrays mode_changes_plus,
-- mode_changes_minus and resync_ops up to their counts, mask_pos, mode_limit, *errors, the parameters
-- from parv[*parn] on, and what has been sent to the client.
pub record State : Type 0 where
  pub world : World
  pub plus : List Change
  pub minus : List Change
  pub resync : List Resync
  pub mask_pos : ℕ
  pub mode_limit : ℕ
  pub errors : Errors
  pub params : List (List ℕ)
  pub sent : List Reply

-- chptr and source_p
unfoldable pub chptr : ModeCommand → State → Channel
chptr m s = s.world.channel m.channel

unfoldable pub source_p : ModeCommand → State → Client
source_p m s = s.world.client m.source

unfoldable pub set_chptr : ModeCommand → State → Channel → State
set_chptr m s ch = record s { world = set_channel s.world m.channel ch }

-- A reply that is sent only the first time.
unfoldable pub reply_once : Bool → Reply → List Reply → List Reply
reply_once before r l = if before then l else l ++ r ∷ []

-- ERR_CHANOPRIVSNEEDED
unfoldable pub refuse : State → State
refuse s = record s {
  errors = record s.errors { noops = true };
  sent = reply_once s.errors.noops chanop_privs_needed s.sent;
}

unfoldable pub not_on_channel : Reply → State → State
not_on_channel r s = record s {
  errors = record s.errors { notonchannel = true };
  sent = reply_once s.errors.notonchannel r s.sent;
}

-- The loop that clears the first change of a kind and returns; `none` is when it runs through.
unfoldable pub cancel_first : (Change → Bool) → List Change → Option (List Change)
cancel_first same [] = none
cancel_first same (x ∷ l) =
    let rest = cancel_first same l in
    if same x
    then some (record x { letter = 0 } ∷ l)
    else elim rest [ none ↦ none | some r ↦ some (x ∷ r) ]

-- The loop that clears every change of a kind.
unfoldable pub cancel_all : (Change → Bool) → List Change → List Change
cancel_all same [] = []
cancel_all same (x ∷ l) = (if same x then record x { letter = 0 } else x) ∷ cancel_all same l

-- mode_changes_minus[i].letter == c
abbrev pub has_letter : ℕ → Change → Bool
has_letter c x = x.letter == c

-- !irccmp(mode_changes_minus[i].arg, mask), of a change with an argument
abbrev pub arg_is : List ℕ → Option (List ℕ) → Bool
arg_is t none = false
arg_is t (some a) = same_name a t

-- `+` and `-` make 0: a change that takes back one of the other direction clears that one;
-- otherwise it is noted.
unfoldable pub plus_unless : Change → State → Option (List Change) → State
plus_unless x s (some l) = record s { minus = l }
plus_unless x s none = record s { plus = s.plus ++ x ∷ [] }

unfoldable pub note_plus : (Change → Bool) → Change → State → State
note_plus same x s = plus_unless x s (cancel_first same s.minus)

unfoldable pub minus_unless : Change → State → Option (List Change) → State
minus_unless x s (some l) = record s { plus = l }
minus_unless x s none = record s { minus = s.minus ++ x ∷ [] }

unfoldable pub note_minus : (Change → Bool) → Change → State → State
note_minus same x s = minus_unless x s (cancel_first same s.plus)
