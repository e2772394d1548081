-- ===== src/Message/Direction.antt =====
-- src/parse.c: in whose name a line is taken.
use ircd_hybrid_8_cvs.Common.{
  ℕ, ◌≡◌, refl, sym, ◌∙◌, ◌⊎◌, inl, inr, Bool, true, false, List, [], ◌∷◌, Option, none, some, ◌==◌,
  if◌then◌else◌, arith, some_inj, none≢some, subst, if_elim, Option-cases, ==_iff, ap, ltb, not,
  ◌||◌, length,
}
use ircd_hybrid_8_cvs.Hash.Client.{Client}
use ircd_hybrid_8_cvs.Message.Params.{split_space, skip_spaces}
use ircd_hybrid_8_cvs.Message.Commands.{Command, hash_parse}
use ircd_hybrid_8_cvs.Message.Dispatch.{
  Link, Env, Stats, Outcome, unknown_prefix, fake_direction, empty_line, unknown_command, numeric,
  ignored, too_few, called, Source, known, dropped, source_of, find_sender, take_prefix,
  take_numeric, handle_command, params_of, run_command, parse_command, parse_line, take_line,
  is_server, count_dropped,
}

-- The client in whose name a handler is called or a reply is sent.
abbrev pub speaker : Outcome → Option Client
speaker (unknown_prefix sender) = none
speaker (fake_direction from) = none
speaker empty_line = none
speaker (unknown_command from word) = some from
speaker (numeric code from params) = some from
speaker (ignored m) = none
speaker (too_few m) = none
speaker (called m from params) = some from

-- The client of the link itself, or, on a link with a server, a client that is behind that link.
abbrev pub IsBehind : Env → Link → Client → Type 0
IsBehind env l c = (c ≡ l.self) ⊎ ((is_server l ≡ true) × (env.uplink c.ptr ≡ l.self.ptr))

abbrev IsFair : Env → Link → Source → Type 0
IsFair env l (known c) = IsBehind env l c
IsFair env l (dropped o) = speaker o ≡ none

source_of-IsFair :
    (env : Env) (l : Link) (sender : Option (List ℕ)) → IsFair env l (source_of env l sender)
unfolding source_of
source_of-IsFair env l none = inl refl
source_of-IsFair env l (some []) = inl refl
source_of-IsFair env l (some (c ∷ cs)) =
    if_elim (IsFair env l) (is_server l) (λ server. found server (find_sender env.tables (c ∷ cs)))
      (λ _. inl refl)
  where
    found :
        (is_server l ≡ true)
        → (o : Option Client)
        → IsFair env l (elim o [
          | none ↦ dropped (unknown_prefix (c ∷ cs))
          | some from ↦
              if env.uplink from.ptr == l.self.ptr
              then known from
              else dropped (fake_direction from)
        ])
    found server none = refl
    found server (some from) =
        if_elim (IsFair env l) (env.uplink from.ptr == l.self.ptr)
          (λ same. inr (server, (==_iff _ _).0 same)) (λ _. refl)

-- What an outcome can say, given the client that a line is taken to come from.
abbrev SpeaksFor : Client → Outcome → Type 0
SpeaksFor from o = (c : Client) → speaker o ≡ some c → c ≡ from

silent : (from : Client) (o : Outcome) → speaker o ≡ none → SpeaksFor from o
silent from o h c e = absurd (none≢some (sym h ∙ e))

speaks : (from : Client) (o : Outcome) → speaker o ≡ some from → SpeaksFor from o
speaks from o h c e = some_inj (sym e ∙ h)

handle_command-SpeaksFor :
    (m : Command) (l : Link) (from : Client) (argc : ℕ) (params : List (List ℕ))
    → (c : Client) → speaker (handle_command m l from argc params) ≡ some c
    → c ≡ from
unfolding handle_command
handle_command-SpeaksFor m l from argc params c e = ground arith

module _ (same_case : List ℕ → List ℕ → Bool) (env : Env) (l : Link) where
  run_command-SpeaksFor :
      (from : Client) (cut : List ℕ × Option (List ℕ))
      → SpeaksFor from (run_command same_case env l from cut).1
  unfolding run_command
  run_command-SpeaksFor from (word, rest) =
      elim (Option-cases (hash_parse same_case env.commands l.protocols word)) [
        | inl f ↦ rw (f, run_command) (speaks from (unknown_command from word) refl)
        | inr (m, f) ↦ rw (f, run_command) (handle_command-SpeaksFor _ l from _ _)
      ]

  parse_command-SpeaksFor :
      (from : Client) (text : List ℕ) → SpeaksFor from (parse_command same_case env l from text).1
  unfolding parse_command
  parse_command-SpeaksFor from [] = silent from empty_line refl
  parse_command-SpeaksFor from (c ∷ cs) = elim (Option-cases (take_numeric (c ∷ cs))) [
    | inr (a, e) ↦
        rw (e, parse_command) (speaks from (numeric a.0 from (params_of (some a.1))) refl)
    | inl e ↦ rw (e, parse_command) (run_command-SpeaksFor from (split_space (c ∷ cs)))
  ]

  taken :
      (line : List ℕ) (c : Client)
      → speaker (take_line same_case env l (take_prefix (skip_spaces line))).1 ≡ some c
      → IsBehind env l c
  unfolding take_line
  taken line c e =
      let (sender, rest) = take_prefix (skip_spaces line) in
      by_source rest (source_of env l sender) (source_of-IsFair env l sender) e
    where
      by_source :
          (rest : List ℕ) (o : Source)
          → IsFair env l o
          → let r : Stats × Outcome = elim o [
            | known from ↦ parse_command same_case env l from rest
            | dropped o ↦ (count_dropped env.stats o, o)
          ] in
            speaker r.1 ≡ some c → IsBehind env l c
      by_source rest (known from) fair e =
          subst (IsBehind env l) (sym (parse_command-SpeaksFor from rest c e)) fair
      by_source rest (dropped o) fair e = absurd (none≢some (sym fair ∙ e))

  -- Whatever a line says, a handler is called and a reply is sent only in the name of the client that
  -- the line came from or, when that is a server, of a client that is behind that server.
  pub parse_line_direction :
      (line : List ℕ) (r : Stats × Outcome) (c : Client)
      → parse_line same_case env l line ≡ some r
      → speaker r.1 ≡ some c
      → IsBehind env l c
  unfolding parse_line
  parse_line_direction line r c run e = taken line c (
      ap (λ (o : Stats × Outcome). speaker o.1)
        (started (l.is_dead || not l.has_fd || not (ltb (length line) 512)) run)
      ∙ e)
    where
      started :
          (stop : Bool) {o : Stats × Outcome} → (if stop then none else some o) ≡ some r → o ≡ r
      started true h = absurd (none≢some h)
      started false h = some_inj h
