-- ===== src/Message/RoundTrip.antt =====
-- src/parse.c: how many parameters string_to_array finds, and which.
use ircd_hybrid_8_cvs.Common.{
  ℕ, zero, suc, ◌+◌, ◌≤◌, ◌<◌, ◌≡◌, refl, ap, ◌∙◌, ◌≢◌, false, List, [], ◌∷◌, ◌++◌, Option, none,
  some, ◌==◌, length, arith, All, append_assoc, if_elim, append-nil,
}
use ircd_hybrid_8_cvs.Message.Params.{
  maxpara, skip_spaces, split_space, last_para, after_word, collect, string_to_array,
}

length-after_word :
    (k : ℕ) (f : List ℕ → List (List ℕ)) (word : List ℕ) (p : Option (List ℕ))
    → ((t : List ℕ) → length (f t) ≤ k)
    → length (after_word (some f) word p) ≤ suc k
unfolding after_word
length-after_word k f word none h = omega arith
length-after_word k f word (some p) h = go (skip_spaces p)
  where
    go :
        (t : List ℕ)
        → length {A = List ℕ} (elim t [ [] ↦ word ∷ [] | c ∷ cs ↦ word ∷ f (c ∷ cs) ]) ≤ suc k
    go [] = omega arith
    go (c ∷ cs) = omega (arith, h (c ∷ cs))

length-after_last : (word : List ℕ) (p : Option (List ℕ)) → length (after_word none word p) ≤ 2
unfolding after_word
length-after_last word none = omega arith
length-after_last word (some p) = go (skip_spaces p)
  where
    go :
        (t : List ℕ)
        → length {A = List ℕ} (elim t [ [] ↦ word ∷ [] | c ∷ cs ↦ word ∷ last_para p ∷ [] ]) ≤ 2
    go [] = omega arith
    go (c ∷ cs) = omega arith

length-collect : (more : ℕ) (t : List ℕ) → length (collect more t) ≤ more + 2
unfolding collect
length-collect more [] = omega arith
length-collect zero (c ∷ cs) =
    if_elim (λ (l : List (List ℕ)). length l ≤ 2) (c == b':') (λ _. omega arith)
      (λ _. length-after_last (split_space (c ∷ cs)).0 (split_space (c ∷ cs)).1)
length-collect (suc more) (c ∷ cs) =
    if_elim (λ (l : List (List ℕ)). length l ≤ suc more + 2) (c == b':') (λ _. omega arith)
      (λ _. omega (
        arith,
        length-after_word (more + 2) (collect more) (split_space (c ∷ cs)).0
            (split_space (c ∷ cs)).1 (length-collect more),
      ))

-- However long the line is and whatever it holds, string_to_array finds at most 14 parameters, so
-- that parv[0] to parv[15], with its final NULL, fit the MAXPARA + 1 places of the array.
pub string_to_array_bound : (string : List ℕ) → length (string_to_array string) < maxpara
unfolding string_to_array
string_to_array_bound string = omega (arith, length-collect 12 (skip_spaces string))

-- A parameter that is no last one: some text without a space that does not start with a colon.
abbrev pub NoSpace : List ℕ → Type 0
NoSpace = All (λ c. c ≢ b' ')

abbrev pub IsWord : List ℕ → Type 0
IsWord [] = ⊥
IsWord (c ∷ cs) = (c ≢ b':') × NoSpace (c ∷ cs)

-- Parameters as a sender writes them, each behind a space, the last one behind a colon too.
abbrev pub params_text : List (List ℕ) → Option (List ℕ) → List ℕ
params_text [] none = []
params_text [] (some t) = b' ' ∷ b':' ∷ t
params_text (w ∷ ws) t = b' ' ∷ w ++ params_text ws t

abbrev pub all_params : List (List ℕ) → Option (List ℕ) → List (List ℕ)
all_params ws none = ws
all_params ws (some t) = ws ++ t ∷ []

abbrev pub last_count : Option (List ℕ) → ℕ
last_count none = 0
last_count (some t) = 1

pub split_space-word : (w r : List ℕ) → NoSpace w → split_space (w ++ b' ' ∷ r) ≡ (w, some r)
unfolding split_space
split_space-word [] r h = refl
split_space-word (c ∷ cs) r h = rw (split_space-word cs r h.1) (ground (arith, h.0))

split_space_all : (w : List ℕ) → NoSpace w → split_space w ≡ (w, none)
unfolding split_space
split_space_all [] h = refl
split_space_all (c ∷ cs) h = rw (split_space_all cs h.1) (ground (arith, h.0))

not_eq : (c d : ℕ) → c ≢ d → (c == d) ≡ false
not_eq c d h = ground arith

collect_one : (k : ℕ) (w : List ℕ) → IsWord w → collect k w ≡ w ∷ []
unfolding collect after_word
collect_one k [] h = elim h [ ]
collect_one zero (c ∷ cs) h = rw (not_eq c b':' h.0, collect, split_space_all (c ∷ cs) h.1) refl
collect_one (suc k) (c ∷ cs) h = rw (not_eq c b':' h.0, collect, split_space_all (c ∷ cs) h.1) refl

pub skip_spaces_text : (c : ℕ) (cs : List ℕ) → c ≢ b' ' → skip_spaces (c ∷ cs) ≡ c ∷ cs
unfolding skip_spaces
skip_spaces_text c cs ne = rw (not_eq c b' ' ne, skip_spaces) refl

after_word_more :
    (f : List ℕ → List (List ℕ)) (word : List ℕ) (c : ℕ) (cs : List ℕ)
    → c ≢ b' '
    → after_word (some f) word (some (c ∷ cs)) ≡ word ∷ f (c ∷ cs)
unfolding after_word
after_word_more f word c cs ne = rw (skip_spaces_text c cs ne, after_word) refl

after_word_last :
    (word : List ℕ) (c : ℕ) (cs : List ℕ)
    → c ≢ b' '
    → after_word none word (some (c ∷ cs)) ≡ word ∷ last_para (c ∷ cs) ∷ []
unfolding after_word
after_word_last word c cs ne = rw (skip_spaces_text c cs ne, after_word) refl

collect_more :
    (k : ℕ) (w : List ℕ) (c : ℕ) (cs : List ℕ)
    → IsWord w
    → c ≢ b' '
    → collect (suc k) (w ++ b' ' ∷ c ∷ cs) ≡ w ∷ collect k (c ∷ cs)
unfolding collect
collect_more k [] c cs h ne = elim h [ ]
collect_more k (a ∷ w) c cs h ne =
    rw (not_eq a b':' h.0, collect, split_space-word (a ∷ w) (c ∷ cs) h.1)
      (after_word_more (collect k) (a ∷ w) c cs ne)

collect_last :
    (w : List ℕ) (c : ℕ) (cs : List ℕ)
    → IsWord w
    → c ≢ b' '
    → collect zero (w ++ b' ' ∷ c ∷ cs) ≡ w ∷ last_para (c ∷ cs) ∷ []
unfolding collect
collect_last [] c cs h ne = elim h [ ]
collect_last (a ∷ w) c cs h ne =
    rw (not_eq a b':' h.0, collect, split_space-word (a ∷ w) (c ∷ cs) h.1)
      (after_word_last (a ∷ w) c cs ne)

collect_colon : (k : ℕ) (t : List ℕ) → collect k (b':' ∷ t) ≡ t ∷ []
unfolding collect
collect_colon zero t = refl
collect_colon (suc k) t = refl

all_params-cons :
    (w : List ℕ) (ws : List (List ℕ)) (t : Option (List ℕ))
    → w ∷ all_params ws t ≡ all_params (w ∷ ws) t
all_params-cons w ws none = refl
all_params-cons w ws (some t) = refl

-- One round for each parameter.
pub collect_params :
    (k : ℕ) (w : List ℕ) (ws : List (List ℕ)) (t : Option (List ℕ))
    → IsWord w
    → All IsWord ws
    → length ws + last_count t ≤ k
    → collect k (w ++ params_text ws t) ≡ w ∷ all_params ws t
collect_params k w [] none h hs le = rw (append-nil w) (collect_one k w h)
collect_params zero w [] (some t) h hs le = absurd (omega arith)
collect_params (suc k) w [] (some t) h hs le =
    collect_more k w b':' t h (omega arith) ∙ ap (◌∷◌ w) (collect_colon k t)
collect_params k w ([] ∷ ws) t h hs le = elim hs.0 [ ]
collect_params zero w ((c ∷ cs) ∷ ws) t h hs le = absurd (omega arith)
collect_params (suc k) w ((c ∷ cs) ∷ ws) t h hs le =
    collect_more k w c (cs ++ params_text ws t) h hs.0.1.0
    ∙ ap (◌∷◌ w) (collect_params k (c ∷ cs) ws t hs.0 hs.1 (omega arith))
    ∙ ap (◌∷◌ w) (all_params-cons (c ∷ cs) ws t)

-- string_to_array reads back the parameters that were written, each behind one space: up to 13, the
-- last of which may be any text behind a colon.
pub string_to_array-params_text :
    (ws : List (List ℕ)) (t : Option (List ℕ))
    → All IsWord ws
    → length ws + last_count t ≤ 13
    → string_to_array (params_text ws t) ≡ all_params ws t
unfolding string_to_array skip_spaces
string_to_array-params_text [] none hs le = refl
string_to_array-params_text [] (some t) hs le = collect_colon 12 t
string_to_array-params_text ([] ∷ ws) t hs le = elim hs.0 [ ]
string_to_array-params_text ((c ∷ cs) ∷ ws) t hs le =
    rw (not_eq c b' ' hs.0.1.0)
      (collect_params 12 (c ∷ cs) ws t hs.0 hs.1 (omega arith) ∙ all_params-cons (c ∷ cs) ws t)

collect_full :
    (k : ℕ) (w : List ℕ) (ws : List (List ℕ)) (c : ℕ) (rest : List ℕ)
    → IsWord w
    → All IsWord ws
    → length ws ≡ k
    → c ≢ b' '
    → collect k (w ++ (params_text ws none ++ b' ' ∷ c ∷ rest))
      ≡ w ∷ (ws ++ last_para (c ∷ rest) ∷ [])
collect_full zero w [] c rest h hs len ne = collect_last w c rest h ne
collect_full (suc k) w [] c rest h hs len ne = absurd (omega arith)
collect_full k w ([] ∷ ws) c rest h hs len ne = elim hs.0 [ ]
collect_full zero w ((d ∷ ds) ∷ ws) c rest h hs len ne = absurd (omega arith)
collect_full (suc k) w ((d ∷ ds) ∷ ws) c rest h hs len ne =
    collect_more k w d ((ds ++ params_text ws none) ++ b' ' ∷ c ∷ rest) h hs.0.1.0
    ∙ ap (λ (l : List ℕ). w ∷ collect k (d ∷ l))
        (append_assoc ds (params_text ws none) (b' ' ∷ c ∷ rest))
    ∙ ap (◌∷◌ w) (collect_full k (d ∷ ds) ws c rest hs.0 hs.1 (omega arith) ne)

-- Where 13 parameters stand before another one that starts with neither a space nor a colon,
-- string_to_array drops the first character of that one.
pub string_to_array_drops :
    (w : List ℕ) (ws : List (List ℕ)) (c : ℕ) (rest : List ℕ)
    → IsWord w
    → All IsWord ws
    → length ws ≡ 12
    → c ≢ b' '
    → c ≢ b':'
    → string_to_array (w ++ (params_text ws none ++ b' ' ∷ c ∷ rest)) ≡ w ∷ (ws ++ rest ∷ [])
unfolding string_to_array last_para
string_to_array_drops [] ws c rest h hs len ne colon = elim h [ ]
string_to_array_drops (a ∷ w) ws c rest h hs len ne colon =
    rw (skip_spaces_text a (w ++ (params_text ws none ++ b' ' ∷ c ∷ rest)) h.1.0) (
      collect_full 12 (a ∷ w) ws c rest h hs len ne
      ∙ ap (λ (l : List ℕ). (a ∷ w) ∷ (ws ++ l ∷ [])) (rw (not_eq c b':' colon, last_para) refl))
