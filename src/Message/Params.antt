-- ===== src/Message/Params.antt =====
-- src/parse.c, string_to_array: the parameters of a message. The C code cuts the line in place; here
-- each parameter is the text up to its cut.
use ircd_hybrid_8_cvs.Common.{
  ℕ, zero, suc, List, [], ◌∷◌, Option, none, some, ◌==◌, if◌then◌else◌, length, ◌+◌, ◌-◌,
}

-- MAXPARA
abbrev pub maxpara : ℕ
maxpara = 15

-- `while (*buf == ' ') buf++;`
unfoldable pub skip_spaces : List ℕ → List ℕ
skip_spaces [] = []
skip_spaces (c ∷ cs) = if c == b' ' then skip_spaces cs else c ∷ cs

-- strchr(buf, ' '): the text before the first space and, if there is one, the text behind it.
unfoldable pub split_space : List ℕ → List ℕ × Option (List ℕ)
split_space [] = ([], none)
split_space (c ∷ cs) =
    let (word, rest) = split_space cs in if c == b' ' then ([], some cs) else (c ∷ word, rest)

-- The last parameter when the loop ended by its count: `p` is the text behind the last cut.
unfoldable pub last_para : List ℕ → List ℕ
last_para [] = []
last_para (c ∷ p) = if c == b':' then c ∷ p else p

-- What follows a word in the loop: `again` is the next round, if the count allows one.
unfoldable pub after_word :
    Option (List ℕ → List (List ℕ)) → List ℕ → Option (List ℕ) → List (List ℕ)
unfolding skip_spaces last_para
after_word again word none = word ∷ []
after_word again word (some p) = elim (skip_spaces p) [
  | [] ↦ word ∷ []
  | c ∷ cs ↦ elim again [ none ↦ word ∷ last_para p ∷ [] | some f ↦ word ∷ f (c ∷ cs) ]
]

-- The loop, from a text that is not empty: `more` rounds are possible behind this one.
unfoldable pub collect : ℕ → List ℕ → List (List ℕ)
unfolding split_space after_word
collect more [] = []
collect zero (c ∷ cs) =
    if c == b':' then cs ∷ [] else after_word none (split_space (c ∷ cs)).0 (split_space (c ∷ cs)).1
collect (suc more) (c ∷ cs) =
    let rest = after_word (some (collect more)) (split_space (c ∷ cs)).0 (split_space (c ∷ cs)).1 in
    if c == b':' then cs ∷ [] else rest

-- string_to_array: parv[1] and on. The loop starts with x at 1 and ends when it is MAXPARA - 1.
unfoldable pub string_to_array : List ℕ → List (List ℕ)
unfolding skip_spaces collect
string_to_array string = collect (maxpara - 3) (skip_spaces string)

-- The count that string_to_array returns; the prefix counts as one.
unfoldable pub parc : List ℕ → ℕ
unfolding string_to_array
parc string = length (string_to_array string) + 1
