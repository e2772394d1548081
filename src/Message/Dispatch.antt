-- ===== src/Message/Dispatch.antt =====
-- src/parse.c: parse and handle_command. The calls of remove_unknown, cancel_clients, do_numeric and
-- of the replies of a protocol, and the call of the handler, are the outcome of parse.
use ircd_hybrid_8_cvs.Common.{
  ℕ, ◌+◌, ◌/◌, ◌%◌, Bool, ◌&&◌, ◌||◌, not, List, [], ◌∷◌, Option, none, some, ◌==◌, ltb,
  if◌then◌else◌, length,
}
use ircd_hybrid_8_cvs.Text.Chars.{has_attr}
use ircd_hybrid_8_cvs.Hash.Client.{Client, Tables, find_client, find_server, find_id}
use ircd_hybrid_8_cvs.Message.Params.{skip_spaces, split_space, string_to_array}
use ircd_hybrid_8_cvs.Message.Commands.{Command, CommandTable, hash_parse}

-- The client whose line is parsed: STAT_ values in `status`, and the line of its protocols. `has_fd` is
-- `localClient->fd >= 0` as a test.
pub record Link : Type 0 where
  pub self : Client
  pub is_dead : Bool
  pub has_fd : Bool
  pub status : ℕ
  pub protocols : List ℕ

-- STAT_CONNECTING, STAT_HANDSHAKE, STAT_UNKNOWN and STAT_SERVER
abbrev pub is_connecting : Link → Bool
is_connecting l = l.status == 1

abbrev pub is_handshake : Link → Bool
is_handshake l = l.status == 2

abbrev pub is_registered : Link → Bool
is_registered l = ltb 8 l.status

abbrev pub is_server : Link → Bool
is_server l = l.status == 16

-- The counters of struct ServerStatistics that parse changes.
pub record Stats : Type 0 where
  pub is_unpf : ℕ
  pub is_wrdi : ℕ
  pub is_empt : ℕ
  pub is_num : ℕ
  pub is_unco : ℕ

-- What parse reads: the clients, the `from` field of the client at an address, the commands.
pub record Env : Type 0 where
  pub tables : Tables
  pub uplink : ℕ → ℕ
  pub commands : CommandTable
  pub stats : Stats

-- What parse does, with the command as it is counted then.
pub data Outcome : Type 0 where
  unknown_prefix : List ℕ → Outcome
  fake_direction : Client → Outcome
  empty_line : Outcome
  unknown_command : Client → List ℕ → Outcome
  numeric : List ℕ → Client → List (List ℕ) → Outcome
  ignored : Command → Outcome
  too_few : Command → Outcome
  called : Command → Client → List (List ℕ) → Outcome

-- The prefix that starts at `text`, given the cut at its first space; without a space behind it the
-- prefix is taken for the command too.
unfoldable pub cut_prefix : List ℕ → List ℕ × Option (List ℕ) → Option (List ℕ) × List ℕ
cut_prefix text (word, none) = (some text, skip_spaces text)
cut_prefix text (word, some rest) = (some word, skip_spaces rest)

-- The prefix, if the line has one, and what follows it.
unfoldable pub take_prefix : List ℕ → Option (List ℕ) × List ℕ
take_prefix [] = (none, [])
take_prefix (c ∷ cs) = if c == b':' then cut_prefix cs (split_space cs) else (none, c ∷ cs)

-- The three searches for the sender.
unfoldable pub find_sender : Tables → List ℕ → Option Client
find_sender t name = elim (find_client t name) [
  | some c ↦ some c
  | none ↦ elim (find_server t name) [ some c ↦ some c | none ↦ find_id t name ]
]

-- Who a line comes from, or why it is dropped.
pub data Source : Type 0 where
  known : Client → Source
  dropped : Outcome → Source

unfoldable pub source_of : Env → Link → Option (List ℕ) → Source
source_of env l none = known l.self
source_of env l (some []) = known l.self
source_of env l (some (c ∷ cs)) =
    if is_server l
    then elim (find_sender env.tables (c ∷ cs)) [
      | none ↦ dropped (unknown_prefix (c ∷ cs))
      | some from ↦
          if env.uplink from.ptr == l.self.ptr then known from else dropped (fake_direction from)
    ]
    else known l.self

-- IsDigit
unfoldable pub is_digit : ℕ → Bool
unfolding has_attr
is_digit c = has_attr 0x10 c

-- Three digits and a space: the digits, and the text behind the space.
unfoldable pub take_numeric : List ℕ → Option (List ℕ × List ℕ)
unfolding is_digit
take_numeric (a ∷ b ∷ c ∷ d ∷ rest) =
    if d == b' ' && is_digit a && is_digit b && is_digit c
    then some (a ∷ b ∷ c ∷ [], rest)
    else none
take_numeric (a ∷ b ∷ c ∷ []) = none
take_numeric (a ∷ b ∷ []) = none
take_numeric (a ∷ []) = none
take_numeric [] = none

-- The text without a LF at its end, and then without a CR at its end.
unfoldable pub strip_cr : List ℕ → List ℕ
strip_cr [] = []
strip_cr (c ∷ []) = if c == 13 then [] else c ∷ []
strip_cr (c ∷ d ∷ cs) = c ∷ strip_cr (d ∷ cs)

unfoldable pub strip_lf : List ℕ → List ℕ
strip_lf [] = []
strip_lf (c ∷ []) = if c == 10 then [] else c ∷ []
strip_lf (c ∷ d ∷ cs) = c ∷ strip_lf (d ∷ cs)

unfoldable pub strip_end : List ℕ → List ℕ
unfolding strip_cr strip_lf
strip_end text = strip_cr (strip_lf text)

-- mptr->flags & MFLG_UNREG
abbrev pub is_unreg : Command → Bool
is_unreg m = m.flags / 2 % 2 == 1

-- handle_command, given the number of parameters with the prefix, or 0.
unfoldable pub handle_command : Command → Link → Client → ℕ → List (List ℕ) → Outcome
handle_command m l from argc params =
    let counted : Command = record m {
      rcount = if is_server l then m.rcount + 1 else m.rcount;
      count = m.count + 1;
    } in
    if not (is_registered l)
      && (is_handshake l || is_connecting l || is_server l)
      && not (is_unreg m)
    then ignored counted
    else if ltb argc m.parameters
    then too_few counted
    else called counted from params

-- The parameters behind a command or numeric, and their number with the prefix.
unfoldable pub params_of : Option (List ℕ) → List (List ℕ)
unfolding string_to_array strip_end
params_of none = []
params_of (some text) = string_to_array (strip_end text)

abbrev pub argc_of : Option (List ℕ) → ℕ
argc_of none = 0
argc_of (some text) = length (params_of (some text)) + 1

-- `bufend - ((s) ? s : ch)`
abbrev pub bytes_behind : List ℕ → Option (List ℕ) → ℕ
bytes_behind word none = length word
bytes_behind word (some text) = length text

-- The counter of a line that is dropped.
unfoldable pub count_dropped : Stats → Outcome → Stats
count_dropped s (unknown_prefix sender) = record s { is_unpf = s.is_unpf + 1 }
count_dropped s (fake_direction from) = record s { is_wrdi = s.is_wrdi + 1 }
count_dropped s empty_line = s
count_dropped s (unknown_command from word) = s
count_dropped s (numeric code from params) = s
count_dropped s (ignored m) = s
count_dropped s (too_few m) = s
count_dropped s (called m from params) = s

module _ (same_case : List ℕ → List ℕ → Bool) where
  -- What parse does with a command and what stands behind its space, if there is one.
  unfoldable pub run_command : Env → Link → Client → List ℕ × Option (List ℕ) → Stats × Outcome
  run_command env l from (word, rest) = elim (hash_parse same_case env.commands l.protocols word) [
    | none ↦ (record (env.stats) { is_unco = env.stats.is_unco + 1 }, unknown_command from word)
    | some m ↦ (
      env.stats,
      handle_command (record m { bytes = m.bytes + bytes_behind word rest }) l from (argc_of rest)
          (params_of rest),
    )
  ]

  -- parse from the command on.
  unfoldable pub parse_command : Env → Link → Client → List ℕ → Stats × Outcome
  parse_command env l from [] = (record (env.stats) { is_empt = env.stats.is_empt + 1 }, empty_line)
  parse_command env l from (c ∷ cs) = elim (take_numeric (c ∷ cs)) [
    | some (code, text) ↦ (
      record (env.stats) { is_num = env.stats.is_num + 1 },
      numeric code from (params_of (some text)),
    )
    | none ↦ run_command env l from (split_space (c ∷ cs))
  ]

  -- What parse does with the prefix, if there is one, and what follows it.
  unfoldable pub take_line : Env → Link → Option (List ℕ) × List ℕ → Stats × Outcome
  take_line env l (sender, rest) = elim (source_of env l sender) [
    | known from ↦ parse_command env l from rest
    | dropped o ↦ (count_dropped env.stats o, o)
  ]

  -- parse, given the line from `pbuffer` to `bufend`; `none` is an assertion at its start that fails.
  unfoldable pub parse_line : Env → Link → List ℕ → Option (Stats × Outcome)
  parse_line env l line =
      if l.is_dead || not l.has_fd || not (ltb (length line) 512)
      then none
      else some (take_line env l (take_prefix (skip_spaces line)))
