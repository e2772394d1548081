-- ===== src/Hash/Function.antt =====
-- src/hash.c: the hash functions.
use ircd_hybrid_8_cvs.Common.{
  ℕ, suc, ◌+◌, ◌-◌, ◌*◌, ◌%◌, ◌^◌, ◌<◌, ◌≡◌, refl, ap, List, [], ◌∷◌, ◌++◌, length, map, ◌==◌,
  if◌then◌else◌, arith,
}
use ircd_hybrid_8_cvs.Text.Chars.{to_lower}

abbrev pub u32_mod : ℕ
u32_mod = 2 ^ 32

abbrev pub u_max : ℕ
u_max = 65536

abbrev pub ch_max : ℕ
ch_max = 16384

abbrev pub r_max : ℕ
r_max = 1024

-- h = (h << 4) - (h + c), in an unsigned int
unfoldable pub mix : ℕ → ℕ → ℕ
mix h c = (h * 16 % u32_mod + u32_mod - (h + c) % u32_mod) % u32_mod

-- The loops of hash_nick_name and of hash_id.
unfoldable pub hash_fold : (ℕ → ℕ) → ℕ → List ℕ → ℕ
hash_fold fold h [] = h
hash_fold fold h (c ∷ cs) = hash_fold fold (mix h (fold c)) cs

-- hash_nick_name
unfoldable pub hash_nick_name : List ℕ → ℕ
hash_nick_name name = hash_fold to_lower 0 name % u_max

-- hash_id
unfoldable pub hash_id : List ℕ → ℕ
hash_id name = hash_fold (λ c. c) 0 name % u_max

-- `while (*name && --i)` around the same step
unfoldable pub hash_prefix : ℕ → ℕ → List ℕ → ℕ
hash_prefix i h [] = h
hash_prefix i h (c ∷ cs) =
    let rest = hash_prefix (i - 1) (mix h (to_lower c)) cs in if i - 1 == 0 then h else rest

-- hash_channel_name
unfoldable pub hash_channel_name : List ℕ → ℕ
hash_channel_name name = hash_prefix 30 0 name % ch_max

-- hash_resv_channel
unfoldable pub hash_resv_channel : List ℕ → ℕ
hash_resv_channel name = hash_prefix 30 0 name % r_max

hash_fold_congr :
    (h : ℕ) (s t : List ℕ)
    → map to_lower s ≡ map to_lower t
    → hash_fold to_lower h s ≡ hash_fold to_lower h t
unfolding hash_fold
hash_fold_congr h [] [] e = refl
hash_fold_congr h [] (b ∷ t) e = cc
hash_fold_congr h (a ∷ s) [] e = cc
hash_fold_congr h (a ∷ s) (b ∷ t) e =
    let p : to_lower a ≡ to_lower b = cc in
    let q : map to_lower s ≡ map to_lower t = cc in
    rw p (hash_fold_congr (mix h (to_lower b)) s t q)

hash_prefix_congr :
    (i h : ℕ) (s t : List ℕ)
    → map to_lower s ≡ map to_lower t
    → hash_prefix i h s ≡ hash_prefix i h t
unfolding hash_prefix
hash_prefix_congr i h [] [] e = refl
hash_prefix_congr i h [] (b ∷ t) e = cc
hash_prefix_congr i h (a ∷ s) [] e = cc
hash_prefix_congr i h (a ∷ s) (b ∷ t) e =
    let p : to_lower a ≡ to_lower b = cc in
    let q : map to_lower s ≡ map to_lower t = cc in
    rw (p, hash_prefix_congr (i - 1) (mix h (to_lower b)) s t q)

-- Names that differ in case alone have one hash value, below the size of its table.
pub hash_case_blind :
    (s t : List ℕ)
    → map to_lower s ≡ map to_lower t
    → (hash_nick_name s ≡ hash_nick_name t)
      × (hash_channel_name s ≡ hash_channel_name t)
      × (hash_resv_channel s ≡ hash_resv_channel t)
      × (hash_nick_name s < u_max)
      × (hash_channel_name s < ch_max)
      × (hash_resv_channel s < r_max)
unfolding hash_nick_name hash_channel_name hash_resv_channel
hash_case_blind s t e = (
  ap (λ n. n % u_max) (hash_fold_congr 0 s t e),
  ap (λ n. n % ch_max) (hash_prefix_congr 30 0 s t e),
  ap (λ n. n % r_max) (hash_prefix_congr 30 0 s t e),
  omega arith,
  omega arith,
  omega arith,
)

hash_prefix_bound :
    (i h : ℕ) (s r : List ℕ) → i ≡ suc (length s) → hash_prefix i h (s ++ r) ≡ hash_prefix i h s
unfolding hash_prefix
hash_prefix_bound i h [] [] e = refl
hash_prefix_bound i h [] (c ∷ r) e = ground arith
hash_prefix_bound i h (a ∷ s) r e =
    rw (hash_prefix_bound (i - 1) (mix h (to_lower a)) s r (omega arith))

-- A channel name of 29 characters has the same hash value as that name with anything behind it.
pub hash_channel_name_bound :
    (s r : List ℕ) → length s ≡ 29 → hash_channel_name (s ++ r) ≡ hash_channel_name s
unfolding hash_channel_name
hash_channel_name_bound s r e = ap (λ n. n % ch_max) (hash_prefix_bound 30 0 s r (omega arith))
