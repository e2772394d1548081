-- ===== src/Message/Commands.antt =====
-- src/parse.c: the table of commands. `same_case` stands for strcasecmp of the C library, as the
-- test whether it gives 0. A command's protocol is an address; a client's protocol is the list of
-- its address and of those that its `parent` links lead to.
use ircd_hybrid_8_cvs.Common.{
  ℕ, ◌+◌, ◌-◌, ◌*◌, ◌/◌, ◌%◌, Bool, true, false, ◌&&◌, ◌||◌, List, [], ◌∷◌, Option, none, some,
  ◌==◌, if◌then◌else◌,
}

-- struct Message: `handler` is the address of the function.
pub record Command : Type 0 where
  pub cmd : List ℕ
  pub count : ℕ
  pub rcount : ℕ
  pub parameters : ℕ
  pub maxpara : ℕ
  pub flags : ℕ
  pub bytes : ℕ
  pub protocol : Option ℕ
  pub handler : ℕ

-- msg_hash_table
abbrev pub CommandTable : Type 0
CommandTable = ℕ → List Command

-- MAX_MSG_HASH
abbrev pub max_msg_hash : ℕ
max_msg_hash = 387

-- `*p & 0xDF`, of a byte.
abbrev pub upper_bits : ℕ → ℕ
upper_bits c = c - 32 * (c / 32 % 2)

-- hash: the sum, and the index.
unfoldable pub hash_sum : List ℕ → ℕ
hash_sum [] = 0
hash_sum (c ∷ cs) = upper_bits c + hash_sum cs

unfoldable pub hash_cmd : List ℕ → ℕ
unfolding hash_sum
hash_cmd cmd = hash_sum cmd % max_msg_hash

-- clear_hash_parse
unfoldable pub clear_hash_parse : CommandTable
clear_hash_parse i = []

unfoldable pub set_chain : CommandTable → ℕ → List Command → CommandTable
set_chain t i l j = if j == i then l else t j

-- msg->protocol == ptr->msg->protocol
abbrev pub same_protocol : Option ℕ → Option ℕ → Bool
same_protocol none none = true
same_protocol none (some q) = false
same_protocol (some p) none = false
same_protocol (some p) (some q) = p == q

-- Whether the protocol is in the line of the client's: `ptr->msg->protocol` NULL is for all.
unfoldable pub in_line : ℕ → List ℕ → Bool
in_line p [] = false
in_line p (q ∷ qs) = if p == q then true else in_line p qs

abbrev pub fits_protocol : Option ℕ → List ℕ → Bool
fits_protocol none line = true
fits_protocol (some p) line = in_line p line

abbrev pub is_chain : List Command → Bool
is_chain [] = false
is_chain (c ∷ cs) = true

module _ (same_case : List ℕ → List ℕ → Bool) where
  -- The search of mod_add_cmd for a command that is there already.
  unfoldable pub is_added : Command → List Command → Bool
  is_added m [] = false
  is_added m (c ∷ cs) =
      if same_case m.cmd c.cmd && same_protocol m.protocol c.protocol then true else is_added m cs

  -- mod_add_cmd, over the array that `msg` starts, up to the entry without a name: it ends at the
  -- first one that is there already.
  unfoldable pub mod_add_cmd : List Command → CommandTable → CommandTable
  unfolding is_added set_chain
  mod_add_cmd [] t = t
  mod_add_cmd (m ∷ ms) t =
      let chain = t (hash_cmd m.cmd) in
      let rest =
        mod_add_cmd ms
          (set_chain t (hash_cmd m.cmd) (record m { count = 0; rcount = 0; bytes = 0 } ∷ chain)) in
      if is_added m chain then t else rest

  -- The chain without its first command of that name.
  unfoldable pub drop_cmd : List ℕ → List Command → List Command
  drop_cmd name [] = []
  drop_cmd name (c ∷ cs) = if same_case name c.cmd then cs else c ∷ drop_cmd name cs

  unfoldable pub has_cmd : List ℕ → List Command → Bool
  has_cmd name [] = false
  has_cmd name (c ∷ cs) = if same_case name c.cmd then true else has_cmd name cs

  -- Whether the first command of the chain has the name.
  unfoldable pub heads : List ℕ → List Command → Bool
  heads name [] = false
  heads name (c ∷ cs) = same_case name c.cmd

  -- hash_parse, in the chain of the name
  unfoldable pub find_cmd : List ℕ → List ℕ → List Command → Option Command
  unfolding in_line
  find_cmd line name [] = none
  find_cmd line name (c ∷ cs) =
      if same_case name c.cmd && fits_protocol c.protocol line
      then some c
      else find_cmd line name cs

  -- hash_parse, for a client of that line of protocols
  unfoldable pub hash_parse : CommandTable → List ℕ → List ℕ → Option Command
  unfolding find_cmd
  hash_parse t line name = find_cmd line name (t (hash_cmd name))

  -- mod_del_cmd: `stale` says that `last_ptr` is left from the chain of an earlier command; when it
  -- is used for the head of this chain, freed memory stays in the table, which is `none`.
  unfoldable pub mod_del_cmd : Bool → List Command → CommandTable → Option CommandTable
  unfolding has_cmd drop_cmd set_chain
  mod_del_cmd stale [] t = some t
  mod_del_cmd stale (m ∷ ms) t =
      let chain = t (hash_cmd m.cmd) in
      let rest = mod_del_cmd (stale || is_chain chain) ms t in
      if has_cmd m.cmd chain
      then (if stale && heads m.cmd chain
          then none
          else some (set_chain t (hash_cmd m.cmd) (drop_cmd m.cmd chain)))
      else rest
