-- ===== src/Channel/MaskText.antt =====
-- src/channel_mode.c: pretty_mask, fix_key and fix_key_old.
use ircd_hybrid_8_cvs.Common.{
  ℕ, suc, ◌+◌, ◌%◌, ◌≤◌, ◌<◌, ◌≡◌, ◌≢◌, refl, sym, ap, ◌∙◌, false, List, [], ◌∷◌, ◌++◌, Option,
  none, some, ◌==◌, ltb, length, length-append, length-take, take, take_all, arith, All, if_elim,
  append_assoc, not, ◌&&◌,
}
use ircd_hybrid_8_cvs.Text.Chars.{is_space}
use ircd_hybrid_8_cvs.Channel.Bans.{
  userlen, hostlen, bufsize, cut_space, star, check_string, add_left, split_at, is_found,
  plain_parts, host_parts, parts_at, mask_parts, join_parts, pretty_mask, fix_key, old_key_bytes,
  until_nul, fix_key_old,
}

abbrev Parts : Type 0
Parts = List ℕ × List ℕ × List ℕ

abbrev parts_length : Parts → ℕ
parts_length (nick, user, host) = length nick + length user + length host

-- A text that was split has the lengths of its two sides, and one byte.
abbrev IsSplit : ℕ → Option (List ℕ × List ℕ) → Type 0
IsSplit n none = Unit {0}
IsSplit n (some (x, y)) = length x + length y + 1 ≡ n

add_left-IsSplit :
    (c n : ℕ) (o : Option (List ℕ × List ℕ)) → IsSplit n o → IsSplit (suc n) (add_left c o)
add_left-IsSplit c n none h = tt
add_left-IsSplit c n (some (x, y)) h = omega arith

split_at-IsSplit : (b : ℕ) (l : List ℕ) → IsSplit (length l) (split_at b l)
unfolding split_at
split_at-IsSplit b [] = tt
split_at-IsSplit b (c ∷ l) =
    if_elim (IsSplit (length (c ∷ l))) (c == b) (λ y. omega arith)
      (λ n. add_left-IsSplit c (length l) (split_at b l) (split_at-IsSplit b l))

plain_parts-length :
    (mask : List ℕ) (o : Option (List ℕ × List ℕ))
    → IsSplit (length mask) o
    → parts_length (plain_parts mask o) ≤ length mask + 2
unfolding plain_parts
plain_parts-length mask (some (nick, user)) h = omega arith
plain_parts-length mask none h =
    if_elim (λ (p : Parts). parts_length p ≤ length mask + 2)
      (is_found (split_at b'.' mask) && is_found (split_at b':' mask)) (λ y. omega arith)
      (λ n. omega arith)

host_parts-length :
    (left host : List ℕ) (o : Option (List ℕ × List ℕ))
    → IsSplit (length left) o
    → parts_length (host_parts left host o) ≤ length left + length host + 1
unfolding host_parts
host_parts-length left host (some (nick, user)) h = omega arith
host_parts-length left host none h = omega arith

parts_at-length :
    (mask : List ℕ) (o : Option (List ℕ × List ℕ))
    → IsSplit (length mask) o
    → parts_length (parts_at mask o) ≤ length mask + 2
unfolding parts_at
parts_at-length mask (some (left, host)) h =
    omega (arith, host_parts-length left host (split_at b'!' left) (split_at-IsSplit b'!' left))
parts_at-length mask none h =
    plain_parts-length mask (split_at b'!' mask) (split_at-IsSplit b'!' mask)

mask_parts-length : (mask : List ℕ) → parts_length (mask_parts mask) ≤ length mask + 2
unfolding mask_parts
mask_parts-length mask = parts_at-length mask (split_at b'@' mask) (split_at-IsSplit b'@' mask)

join_parts-length : (n : ℕ) (p : Parts) → length (join_parts n p) ≤ parts_length p + 2
unfolding join_parts
join_parts-length n (nick, user, host) = omega (
  arith,
  length-append (take n nick) (b'!' ∷ (take userlen user ++ b'@' ∷ take hostlen host)),
  length-append (take userlen user) (b'@' ∷ take hostlen host),
  length-take n nick,
  length-take userlen user,
  length-take hostlen host,
)

join_parts-bound : (n : ℕ) (p : Parts) → length (join_parts n p) ≤ n + userlen + hostlen + 2
unfolding join_parts
join_parts-bound n (nick, user, host) = omega (
  arith,
  length-append (take n nick) (b'!' ∷ (take userlen user ++ b'@' ∷ take hostlen host)),
  length-append (take userlen user) (b'@' ∷ take hostlen host),
  length-take n nick,
  length-take userlen user,
  length-take hostlen host,
)

-- What pretty_mask writes lies within mask_buf, with its NUL, and is no longer than a nick, a user and
-- a host of full length, '!' and '@'; mask_pos moves behind it.
pub pretty_mask_bound :
    (nicklen pos : ℕ) (given : List ℕ) {text : List ℕ} {pos' : ℕ}
    → pos ≤ bufsize
    → pretty_mask nicklen pos given ≡ some (text, pos')
    → (pos' ≤ bufsize)
      × (pos' ≡ pos + length text + 1)
      × (length text ≤ nicklen + userlen + hostlen + 2)
unfolding pretty_mask
pretty_mask_bound nicklen pos given {text} {pos'} h e =
    let p = mask_parts (check_string given) in
    ground (
      arith,
      mask_parts-length (check_string given),
      join_parts-length nicklen p,
      join_parts-bound nicklen p,
    )

cut_space-same : (l : List ℕ) → All (λ c. is_space c ≡ false) l → cut_space l ≡ l
unfolding cut_space
cut_space-same [] h = refl
cut_space-same (c ∷ l) h = rw (h.0, cut_space-same l h.1)

split_at-here : (b : ℕ) (l r : List ℕ) → All (λ c. c ≢ b) l → split_at b (l ++ b ∷ r) ≡ some (l, r)
unfolding split_at
split_at-here b [] r h = ground arith
split_at-here b (c ∷ l) r h = let ih = split_at-here b l r h.1 in let p = h.0 in ground arith

split_at-none : (b : ℕ) (l : List ℕ) → All (λ c. c ≢ b) l → split_at b l ≡ none
unfolding split_at
split_at-none b [] h = refl
split_at-none b (c ∷ l) h = let ih = split_at-none b l h.1 in let p = h.0 in ground arith

check_string-same :
    (c : ℕ) (l : List ℕ) → All (λ c. is_space c ≡ false) (c ∷ l) → check_string (c ∷ l) ≡ c ∷ l
unfolding check_string
check_string-same c l h = cut_space-same (c ∷ l) h

All-weaken : (P Q : ℕ → Type 0) (l : List ℕ) → ((c : ℕ) → P c → Q c) → All P l → All Q l
All-weaken P Q [] f h = tt
All-weaken P Q (c ∷ l) f h = (f c h.0, All-weaken P Q l f h.1)

pretty_mask-parts :
    (nicklen pos : ℕ) (given mask text : List ℕ) (p : Parts)
    → check_string given ≡ mask
    → mask_parts mask ≡ p
    → join_parts nicklen p ≡ text
    → pos + length mask + 5 ≤ bufsize
    → pretty_mask nicklen pos given ≡ some (text, pos + length text + 1)
unfolding pretty_mask
pretty_mask-parts nicklen pos given mask text p k e j room = rw (k, e, j) (ground arith)

join_parts-short :
    (nicklen : ℕ) (nick user host : List ℕ)
    → length nick ≤ nicklen
    → length user ≤ userlen
    → length host ≤ hostlen
    → join_parts nicklen (nick, user, host) ≡ (nick ++ b'!' ∷ user) ++ b'@' ∷ host
unfolding join_parts
join_parts-short nicklen nick user host ln lu lh =
    rw (take_all nicklen nick ln, take_all userlen user lu, take_all hostlen host lh)
      (sym (append_assoc nick (b'!' ∷ user) (b'@' ∷ host)))

-- A nick, a user and a host make a mask.
abbrev pub full_mask : List ℕ → List ℕ → List ℕ → List ℕ
full_mask nick user host = (nick ++ b'!' ∷ user) ++ b'@' ∷ host

-- A mask of all three parts with no space comes out of pretty_mask as it went in.
pub pretty_mask-full_mask :
    (nicklen pos c : ℕ) (nick user host : List ℕ)
    → All (λ b. b ≢ b'@') ((c ∷ nick) ++ b'!' ∷ user)
    → All (λ b. b ≢ b'!') (c ∷ nick)
    → All (λ b. is_space b ≡ false) (full_mask (c ∷ nick) user host)
    → length (c ∷ nick) ≤ nicklen
    → length user ≤ userlen
    → length host ≤ hostlen
    → pos + length (full_mask (c ∷ nick) user host) + 5 ≤ bufsize
    → pretty_mask nicklen pos (full_mask (c ∷ nick) user host)
      ≡ some (full_mask (c ∷ nick) user host, pos + length (full_mask (c ∷ nick) user host) + 1)
unfolding mask_parts parts_at host_parts
pretty_mask-full_mask nicklen pos c nick user host at ex sp ln lu lh room =
    let left = (c ∷ nick) ++ b'!' ∷ user in
    let e : mask_parts (full_mask (c ∷ nick) user host) ≡ (c ∷ nick, user, host) =
      ap (parts_at (left ++ b'@' ∷ host)) (split_at-here b'@' left host at)
      ∙ ap (host_parts left host) (split_at-here b'!' (c ∷ nick) user ex) in
    pretty_mask-parts nicklen pos (full_mask (c ∷ nick) user host) (full_mask (c ∷ nick) user host)
      (full_mask (c ∷ nick) user host) (c ∷ nick, user, host)
      (check_string-same c ((nick ++ b'!' ∷ user) ++ b'@' ∷ host) sp) e
      (join_parts-short nicklen (c ∷ nick) user host ln lu lh) room

-- A mask of a host name, with dots and no '@', '!' or ':', is taken for a nick: pretty_mask makes
-- it "z.d!*@*".
pub pretty_mask_dotted :
    (nicklen pos c : ℕ) (l : List ℕ)
    → All (λ b. (b ≢ b'@') × (b ≢ b'!') × (b ≢ b':')) (c ∷ l)
    → All (λ b. is_space b ≡ false) (c ∷ l)
    → length (c ∷ l) ≤ nicklen
    → pos + length (c ∷ l) + 5 ≤ bufsize
    → pretty_mask nicklen pos (c ∷ l)
      ≡ some (full_mask (c ∷ l) star star, pos + length (full_mask (c ∷ l) star star) + 1)
unfolding mask_parts parts_at plain_parts
pretty_mask_dotted nicklen pos c l no_marks sp ln room =
    let Marks = λ (b : ℕ). (b ≢ b'@') × (b ≢ b'!') × (b ≢ b':') in
    let at =
      split_at-none b'@' (c ∷ l) (All-weaken Marks (λ b. b ≢ b'@') (c ∷ l) (λ b h. h.0) no_marks) in
    let ex =
      split_at-none b'!' (c ∷ l) (All-weaken Marks (λ b. b ≢ b'!') (c ∷ l) (λ b h. h.1) no_marks) in
    let colon =
      split_at-none b':' (c ∷ l) (All-weaken Marks (λ b. b ≢ b':') (c ∷ l) (λ b h. h.2) no_marks) in
    let plain : plain_parts (c ∷ l) none ≡ (c ∷ l, star, star) = ground arith in
    let e : mask_parts (c ∷ l) ≡ (c ∷ l, star, star) =
      ap (parts_at (c ∷ l)) at ∙ ap (plain_parts (c ∷ l)) ex ∙ plain in
    pretty_mask-parts nicklen pos (c ∷ l) (c ∷ l) (full_mask (c ∷ l) star star) (c ∷ l, star, star)
      (check_string-same c l sp) e
      (join_parts-short nicklen (c ∷ l) star star ln (omega arith) (omega arith)) room

-- What fix_key leaves in a key.
abbrev pub IsKeyByte : ℕ → Type 0
IsKeyByte c = (32 < c) × (c < 128) × (c ≢ b':')

fix_key-All : (k : List ℕ) → All IsKeyByte (fix_key k)
unfolding fix_key
fix_key-All [] = tt
fix_key-All (s ∷ l) =
    let ih = fix_key-All l in
    if_elim (All IsKeyByte) (not (s % 128 == b':') && ltb b' ' (s % 128))
      (λ y. ((ground arith, ground arith, λ e. ground arith), ih)) (λ n. ih)

fix_key_same : (k : List ℕ) → All IsKeyByte k → fix_key k ≡ k
unfolding fix_key
fix_key_same [] h = refl
fix_key_same (s ∷ l) h = let ih = fix_key_same l h.1 in let p = h.0 in ground arith

old_key_bytes-append : (k l : List ℕ) → old_key_bytes (k ++ l) ≡ old_key_bytes k ++ old_key_bytes l
unfolding old_key_bytes
old_key_bytes-append [] l = refl
old_key_bytes-append (s ∷ k) l = let ih = old_key_bytes-append k l in ground arith

until_nul-append : (k l : List ℕ) → until_nul (k ++ 0 ∷ l) ≡ until_nul k
unfolding until_nul
until_nul-append [] l = refl
until_nul-append (c ∷ k) l = let ih = until_nul-append k l in ground arith

-- A byte 128 in a key is read as NUL by fix_key_old: the key ends there, whatever follows.
pub fix_key_old_cut : (k l : List ℕ) → fix_key_old (k ++ 128 ∷ l) ≡ fix_key_old k
unfolding fix_key_old old_key_bytes
fix_key_old_cut k l =
    ap until_nul (old_key_bytes-append k (128 ∷ l))
    ∙ until_nul-append (old_key_bytes k) (old_key_bytes l)

-- fix_key leaves bytes from 33 to 127 only, and no ':', whatever it is given; it changes nothing in
-- a key of these, so a second pass does nothing.
pub fix_key-IsKeyByte : (k : List ℕ) → All IsKeyByte (fix_key k) × (fix_key (fix_key k) ≡ fix_key k)
fix_key-IsKeyByte k = (fix_key-All k, fix_key_same (fix_key k) (fix_key-All k))
