-- ===== src/Message/CommandLaws.antt =====
-- src/parse.c: the table of commands, and names in any case.
use ircd_hybrid_8_cvs.Common.{
  ℕ, ◌+◌, ◌%◌, ◌≡◌, ◌↔◌, refl, ap, Bool, true, false, ◌&&◌, List, [], ◌∷◌, some, inl, inr, ◌==◌,
  leb, if◌then◌else◌, arith, Bool-cases, map,
}
use ircd_hybrid_8_cvs.Message.Commands.{
  Command, CommandTable, max_msg_hash, upper_bits, hash_sum, hash_cmd, set_chain, fits_protocol,
  is_added, mod_add_cmd, find_cmd, hash_parse,
}

-- Lower case in the POSIX locale.
abbrev pub ascii_lower : ℕ → ℕ
ascii_lower c = if leb 65 c && leb c 90 then c + 32 else c

-- What POSIX says of strcasecmp: it gives 0 just when the texts are equal in lower case.
abbrev pub IsStrcasecmp : (List ℕ → List ℕ → Bool) → Type 0
IsStrcasecmp same_case =
    (s t : List ℕ) → (same_case s t ≡ true) ↔ (map ascii_lower s ≡ map ascii_lower t)

upper_bits-ascii_lower : (c d : ℕ) → ascii_lower c ≡ ascii_lower d → upper_bits c ≡ upper_bits d
upper_bits-ascii_lower c d e = ground arith

hash_sum_congr : (s t : List ℕ) → map ascii_lower s ≡ map ascii_lower t → hash_sum s ≡ hash_sum t
unfolding hash_sum
hash_sum_congr [] [] e = refl
hash_sum_congr [] (b ∷ t) e = cc
hash_sum_congr (a ∷ s) [] e = cc
hash_sum_congr (a ∷ s) (b ∷ t) e =
    let p : ascii_lower a ≡ ascii_lower b = cc in
    let q : map ascii_lower s ≡ map ascii_lower t = cc in
    omega (arith, upper_bits-ascii_lower a b p, hash_sum_congr s t q)

module _ (same_case : List ℕ → List ℕ → Bool) (posix : IsStrcasecmp same_case) where
  hash_cmd-same_case : (s t : List ℕ) → same_case s t ≡ true → hash_cmd s ≡ hash_cmd t
  unfolding hash_cmd
  hash_cmd-same_case s t e = ap (λ n. n % max_msg_hash) (hash_sum_congr s t ((posix s t).0 e))

  -- With strcasecmp as POSIX has it: after mod_add_cmd of a command that is not in the table,
  -- hash_parse finds it under every spelling of its name for the clients of its protocol, and finds
  -- what it found before for other names and other clients.
  pub hash_parse-mod_add_cmd :
      (t : CommandTable) (m : Command) (line name : List ℕ)
      → is_added same_case m (t (hash_cmd m.cmd)) ≡ false
      → hash_parse same_case (mod_add_cmd same_case (m ∷ []) t) line name ≡ (
          if same_case name m.cmd && fits_protocol m.protocol line
          then some (record m { count = 0; rcount = 0; bytes = 0 })
          else hash_parse same_case t line name)
  unfolding hash_parse mod_add_cmd set_chain find_cmd
  hash_parse-mod_add_cmd t m line name absent =
      rw absent (elim (Bool-cases (hash_cmd name == hash_cmd m.cmd)) [
        | inl here ↦ ground (arith, hash_cmd-same_case name m.cmd)
        | inr away ↦ ground (arith, hash_cmd-same_case name m.cmd)
      ])
