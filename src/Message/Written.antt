-- ===== src/Message/Written.antt =====
-- src/parse.c: a message as a server writes it, and what parse makes of it.
use ircd_hybrid_8_cvs.Common.{
  ℕ, ◌+◌, ◌≤◌, ◌<◌, ◌≡◌, refl, ap, ◌∙◌, ◌≢◌, Bool, true, false, List, [], ◌∷◌, ◌++◌, Option, none,
  some, length, arith, All,
}
use ircd_hybrid_8_cvs.Hash.Client.{Client}
use ircd_hybrid_8_cvs.Message.Params.{string_to_array, collect, skip_spaces}
use ircd_hybrid_8_cvs.Message.RoundTrip.{
  NoSpace, IsWord, params_text, all_params, last_count, skip_spaces_text, split_space-word,
  collect_params,
}
use ircd_hybrid_8_cvs.Message.Commands.{Command, hash_parse}
use ircd_hybrid_8_cvs.Message.Dispatch.{
  Link, Env, Stats, Outcome, called, known, source_of, find_sender, take_prefix, take_numeric,
  is_digit, handle_command, params_of, strip_end, parse_command, run_command, parse_line, take_line,
  cut_prefix, is_server,
}

-- The name of a sender, and of a command, which does not start with a digit.
abbrev pub IsSender : List ℕ → Type 0
IsSender [] = ⊥
IsSender (c ∷ cs) = NoSpace (c ∷ cs)

abbrev pub IsName : List ℕ → Type 0
IsName [] = ⊥
IsName (c ∷ cs) = (is_digit c ≡ false) × NoSpace (c ∷ cs)

-- ":sender cmd w ws :t"
abbrev pub written : List ℕ → List ℕ → List ℕ → List (List ℕ) → Option (List ℕ) → List ℕ
written sender cmd w ws t = b':' ∷ sender ++ (b' ' ∷ cmd ++ (b' ' ∷ w ++ params_text ws t))

string_to_array_word :
    (w : List ℕ) (ws : List (List ℕ)) (t : Option (List ℕ))
    → IsWord w
    → All IsWord ws
    → length ws + last_count t ≤ 12
    → string_to_array (w ++ params_text ws t) ≡ w ∷ all_params ws t
unfolding string_to_array
string_to_array_word [] ws t h hs le = elim h [ ]
string_to_array_word (c ∷ w) ws t h hs le =
    ap (collect 12) (skip_spaces_text c (w ++ params_text ws t) h.1.0)
    ∙ collect_params 12 (c ∷ w) ws t h hs le

take_numeric_name : (cmd rest : List ℕ) → IsName cmd → take_numeric (cmd ++ rest) ≡ none
unfolding take_numeric
take_numeric_name [] rest h = elim h [ ]
take_numeric_name (a ∷ cs) rest h = go (cs ++ rest)
  where
    go : (r : List ℕ) → take_numeric (a ∷ r) ≡ none
    go [] = refl
    go (b ∷ []) = refl
    go (b ∷ c ∷ []) = refl
    go (b ∷ c ∷ d ∷ r) = ground (arith, h.0)

take_prefix_written :
    (sender : List ℕ) (c : ℕ) (rest : List ℕ)
    → NoSpace sender
    → c ≢ b' '
    → take_prefix (b':' ∷ sender ++ (b' ' ∷ c ∷ rest)) ≡ (some sender, c ∷ rest)
unfolding take_prefix cut_prefix
take_prefix_written sender c rest h ne =
    ap (cut_prefix (sender ++ b' ' ∷ c ∷ rest)) (split_space-word sender (c ∷ rest) h)
    ∙ ap (λ (r : List ℕ). (some sender, r)) (skip_spaces_text c rest ne)

params_of_word :
    (w : List ℕ) (ws : List (List ℕ)) (t : Option (List ℕ))
    → IsWord w
    → All IsWord ws
    → length ws + last_count t ≤ 12
    → strip_end (w ++ params_text ws t) ≡ w ++ params_text ws t
    → params_of (some (w ++ params_text ws t)) ≡ w ∷ all_params ws t
unfolding params_of
params_of_word w ws t h hs le ends = ap string_to_array ends ∙ string_to_array_word w ws t h hs le

handle_command_called :
    (m : Command) (l : Link) (from : Client) (argc : ℕ) (params : List (List ℕ))
    → is_server l ≡ true
    → m.parameters ≤ argc
    → handle_command m l from argc params
      ≡ called (record m { rcount = m.rcount + 1; count = m.count + 1 }) from params
unfolding handle_command
handle_command_called m l from argc params server enough = ground arith

source_of_found :
    (env : Env) (l : Link) (from : Client) (c : ℕ) (cs : List ℕ)
    → is_server l ≡ true
    → find_sender env.tables (c ∷ cs) ≡ some from
    → env.uplink from.ptr ≡ l.self.ptr
    → source_of env l (some (c ∷ cs)) ≡ known from
unfolding source_of
source_of_found env l from c cs server sent behind =
    rw (server, sent, source_of) (ground (arith, behind))

take_known :
    (same_case : List ℕ → List ℕ → Bool) (env : Env) (l : Link) (sender text : List ℕ)
    (from : Client)
    → source_of env l (some sender) ≡ known from
    → take_line same_case env l (some sender, text) ≡ parse_command same_case env l from text
unfolding take_line
take_known same_case env l sender text from e = rw (e, take_line) refl

command_run :
    (same_case : List ℕ → List ℕ → Bool) (env : Env) (l : Link) (from : Client) (name rest : List ℕ)
    → IsName name
    → parse_command same_case env l from (name ++ (b' ' ∷ rest))
      ≡ run_command same_case env l from (name, some rest)
unfolding parse_command
command_run same_case env l from [] rest n = elim n [ ]
command_run same_case env l from (a ∷ ar) rest n =
    rw (take_numeric_name (a ∷ ar) (b' ' ∷ rest) n, parse_command)
      (ap (run_command same_case env l from) (split_space-word (a ∷ ar) rest n.1))

module _ (same_case : List ℕ → List ℕ → Bool) (env : Env) (l : Link) (m : Command) (from : Client)
    (sender cmd w : List ℕ) (ws : List (List ℕ)) (t : Option (List ℕ)) where
  -- The command as parse counts it.
  abbrev pub counted_command : Command
  counted_command = record m {
    bytes = m.bytes + length (w ++ params_text ws t);
    rcount = m.rcount + 1;
    count = m.count + 1;
  }

  run_called :
      IsWord w
      → All IsWord ws
      → length ws + last_count t ≤ 12
      → strip_end (w ++ params_text ws t) ≡ w ++ params_text ws t
      → is_server l ≡ true
      → hash_parse same_case env.commands l.protocols cmd ≡ some m
      → m.parameters ≤ length (all_params ws t) + 2
      → run_command same_case env l from (cmd, some (w ++ params_text ws t))
        ≡ (env.stats, called counted_command from (w ∷ all_params ws t))
  unfolding run_command
  run_called h hs le ends server found enough =
      let read = params_of_word w ws t h hs le ends in
      rw (found, run_command, read)
        (ap (λ (o : Outcome). (env.stats, o))
          (handle_command_called (record m { bytes = m.bytes + length (w ++ params_text ws t) }) l
            from _ (w ∷ all_params ws t) server (omega arith)))

  pub parse_line-written :
      IsSender sender
      → IsName cmd
      → IsWord w
      → All IsWord ws
      → length ws + last_count t ≤ 12
      → strip_end (w ++ params_text ws t) ≡ w ++ params_text ws t
      → is_server l ≡ true
      → find_sender env.tables sender ≡ some from
      → env.uplink from.ptr ≡ l.self.ptr
      → hash_parse same_case env.commands l.protocols cmd ≡ some m
      → m.parameters ≤ length (all_params ws t) + 2
      → l.is_dead ≡ false
      → l.has_fd ≡ true
      → length (written sender cmd w ws t) < 512
      → parse_line same_case env l (written sender cmd w ws t)
        ≡ some (env.stats, called counted_command from (w ∷ all_params ws t))
  unfolding parse_line
  parse_line-written s n h hs le ends server sent behind found enough alive socket short =
      let run = go sender cmd s n sent (run_called h hs le ends server found enough) in
      ground (arith, run)
    where
      rest : List ℕ
      rest = w ++ params_text ws t

      result : Stats × Outcome
      result = (env.stats, called counted_command from (w ∷ all_params ws t))

      go :
          (sender name : List ℕ)
          → IsSender sender
          → IsName name
          → find_sender env.tables sender ≡ some from
          → run_command same_case env l from (name, some rest) ≡ result
          → take_line same_case env l
              (take_prefix (skip_spaces (b':' ∷ sender ++ (b' ' ∷ name ++ (b' ' ∷ rest)))))
            ≡ result
      go [] name s n sent run = elim s [ ]
      go (c ∷ cs) [] s n sent run = elim n [ ]
      go (c ∷ cs) (a ∷ ar) s n sent run =
          ap (λ x. take_line same_case env l (take_prefix x))
            (skip_spaces_text b':' (c ∷ cs ++ (b' ' ∷ a ∷ ar ++ (b' ' ∷ rest)))
              (λ e. absurd (omega arith)))
          ∙ ap (take_line same_case env l)
              (take_prefix_written (c ∷ cs) a (ar ++ (b' ' ∷ rest)) s n.1.0)
          ∙ take_known same_case env l (c ∷ cs) (a ∷ ar ++ (b' ' ∷ rest)) from
              (source_of_found env l from c cs server sent behind)
          ∙ command_run same_case env l from (a ∷ ar) rest n
          ∙ run
