-- ===== src/Message/Tests.antt =====
-- The theorems on messages at concrete ones.
use ircd_hybrid_8_cvs.Common.{
  ℕ, suc, ◌≡◌, ◌↔◌, refl, Bool, true, false, ◌&&◌, List, [], ◌∷◌, ◌++◌, none, some, ◌==◌,
  if◌then◌else◌, map, replicate, arith, All, zero,
}
use ircd_hybrid_8_cvs.Hash.Client.{Client, init_tables, add_client, find_client, find_nick}
use ircd_hybrid_8_cvs.Hash.Function.{hash_nick_name, hash_fold, mix}
use ircd_hybrid_8_cvs.Hash.Chain.{add_at, find_in, clear}
use ircd_hybrid_8_cvs.Text.Compare.{same_name, irccmp}
use ircd_hybrid_8_cvs.Text.Chars.{to_upper, to_lower}
use ircd_hybrid_8_cvs.Message.Params.{string_to_array}
use ircd_hybrid_8_cvs.Message.RoundTrip.{
  IsWord, params_text, all_params, string_to_array-params_text,
}
use ircd_hybrid_8_cvs.Message.Commands.{
  Command, CommandTable, hash_cmd, hash_sum, is_added, mod_add_cmd, find_cmd, hash_parse,
  fits_protocol,
}
use ircd_hybrid_8_cvs.Message.CommandLaws.{ascii_lower, IsStrcasecmp, hash_parse-mod_add_cmd}
use ircd_hybrid_8_cvs.Message.Dispatch.{
  Link, Env, Outcome, called, is_digit, strip_end, find_sender, parse_line,
}
use ircd_hybrid_8_cvs.Message.Direction.{IsBehind, parse_line_direction}
use ircd_hybrid_8_cvs.Message.Written.{IsName, written, counted_command, parse_line-written}

-- A strcasecmp, as the test whether it gives 0.
same_texts : List ℕ → List ℕ → Bool
same_texts [] [] = true
same_texts [] (b ∷ t) = false
same_texts (a ∷ s) [] = false
same_texts (a ∷ s) (b ∷ t) = a == b && same_texts s t

same_texts_iff : (s t : List ℕ) → (same_texts s t ≡ true) ↔ (s ≡ t)
unfolding same_texts
same_texts_iff [] [] = ((λ _. refl), (λ _. refl))
same_texts_iff [] (b ∷ t) = ((λ e. absurd (cc)), (λ e. absurd (cc)))
same_texts_iff (a ∷ s) [] = ((λ e. absurd (cc)), (λ e. absurd (cc)))
same_texts_iff (a ∷ s) (b ∷ t) =
    let ih = same_texts_iff s t in ((λ e. ground (arith, ih)), (λ e. ground (arith, ih)))

same_case : List ℕ → List ℕ → Bool
same_case s t = same_texts (map ascii_lower s) (map ascii_lower t)

same_case-IsStrcasecmp : IsStrcasecmp same_case
unfolding same_case
same_case-IsStrcasecmp s t = same_texts_iff (map ascii_lower s) (map ascii_lower t)

-- "ab", "PI" and "pi"
abbrev word : List ℕ
word = 97 ∷ 98 ∷ []

abbrev ping : List ℕ
ping = 80 ∷ 73 ∷ []

abbrev small_ping : List ℕ
small_ping = 112 ∷ 105 ∷ []

word-IsWord : IsWord word
word-IsWord =
    ((λ e. absurd (omega arith)), ((λ e. absurd (omega arith)), ((λ e. absurd (omega arith)), tt)))

words : (n : ℕ) → All IsWord (replicate n word)
words zero = tt
words (suc n) = (word-IsWord, words n)

abbrev ping_command : Command
ping_command = record {
  cmd = ping;
  count = 0;
  rcount = 0;
  parameters = 2;
  maxpara = 0;
  flags = 0;
  bytes = 0;
  protocol = none;
  handler = 9;
}

abbrev no_commands : CommandTable
no_commands = λ i. []

string_to_array-params_text_example :
    string_to_array (params_text (word ∷ []) (some (97 ∷ 32 ∷ [])))
    ≡ all_params (word ∷ []) (some (97 ∷ 32 ∷ []))
string_to_array-params_text_example =
    string_to_array-params_text (word ∷ []) (some (97 ∷ 32 ∷ [])) (word-IsWord, tt) (omega arith)

not_there : is_added same_case ping_command (no_commands (hash_cmd ping)) ≡ false
unfolding is_added
not_there = refl

hash_parse-mod_add_cmd_example :
    hash_parse same_case (mod_add_cmd same_case (ping_command ∷ []) no_commands) [] small_ping ≡ (
      if same_case small_ping ping && fits_protocol none []
      then some (record ping_command { count = 0; rcount = 0; bytes = 0 })
      else hash_parse same_case no_commands [] small_ping)
hash_parse-mod_add_cmd_example =
    hash_parse-mod_add_cmd same_case same_case-IsStrcasecmp no_commands ping_command [] small_ping
      not_there

-- A server, and a client behind it.
abbrev server : Client
server = record { ptr = 5; name = 115 ∷ []; id = none; server = true }

abbrev client : Client
client = record { ptr = 7; name = 97 ∷ []; id = none; server = false }

abbrev link : Link
link = record { is_dead = false; has_fd = true; self = server; status = 16; protocols = [] }

abbrev env : Env
env = record {
  tables = add_client init_tables (97 ∷ []) client;
  uplink = λ p. 5;
  commands = λ i. if i == hash_cmd ping then ping_command ∷ [] else [];
  stats = record { is_unpf = 0; is_wrdi = 0; is_empt = 0; is_num = 0; is_unco = 0 };
}

sender_found : find_sender env.tables (97 ∷ []) ≡ some client
unfolding find_sender find_client find_nick find_in add_client add_at init_tables same_name irccmp
    hash_nick_name to_upper to_lower clear hash_fold mix
sender_found = refl

command_found : hash_parse same_case env.commands [] small_ping ≡ some ping_command
unfolding hash_parse find_cmd hash_cmd hash_sum same_case same_texts
command_found = refl

no_digit : is_digit 112 ≡ false
unfolding is_digit
no_digit = refl

ping-IsName : IsName small_ping
ping-IsName = (no_digit, ((λ e. absurd (omega arith)), ((λ e. absurd (omega arith)), tt)))

ends_plain :
    strip_end (word ++ params_text (word ∷ []) (some (97 ∷ 32 ∷ [])))
    ≡ word ++ params_text (word ∷ []) (some (97 ∷ 32 ∷ []))
unfolding strip_end
ends_plain = refl

abbrev line : List ℕ
line = written (97 ∷ []) small_ping word (word ∷ []) (some (97 ∷ 32 ∷ []))

abbrev outcome : Outcome
outcome =
    called
      (counted_command same_case env link ping_command client (97 ∷ []) small_ping word (word ∷ [])
        (some (97 ∷ 32 ∷ [])))
      client (word ∷ all_params (word ∷ []) (some (97 ∷ 32 ∷ [])))

line_run : parse_line same_case env link line ≡ some (env.stats, outcome)
line_run =
    parse_line-written same_case env link ping_command client (97 ∷ []) small_ping word (word ∷ [])
      (some (97 ∷ 32 ∷ [])) ((λ e. absurd (omega arith)), tt) ping-IsName word-IsWord
      (word-IsWord, tt) (omega arith) ends_plain refl sender_found refl command_found (omega arith)
      refl refl (omega arith)

parse_line_direction_example : IsBehind env link client
parse_line_direction_example =
    parse_line_direction same_case env link line (env.stats, outcome) client line_run refl
