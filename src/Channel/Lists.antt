-- ===== src/Channel/Lists.antt =====
-- src/channel.c: how often a client stands on the lists of a channel, and the lengths of the lists.
use ircd_hybrid_8_cvs.Common.{
  ℕ, ◌+◌, ◌≤◌, ◌≡◌, refl, true, false, List, [], ◌∷◌, length, none, some, ◌==◌, if◌then◌else◌,
  arith, All, Bool-cases, inl, inr, ap,
}
use ircd_hybrid_8_cvs.Channel.Members.{
  has, del, Sublists, Rank, peon, chanop, chanop_voiced, voice, halfop, list_of, with_list,
  find_rank, put, take_off, leave_order, leave_order_local,
}
use ircd_hybrid_8_cvs.Channel.Leave.{change_order}

-- How often a client, or a channel, stands on a list.
unfoldable pub occurs : ℕ → List ℕ → ℕ
occurs u [] = 0
occurs u (v ∷ l) = if v == u then occurs u l + 1 else occurs u l

unfoldable pub standing : ℕ → Sublists → ℕ
standing u s =
    occurs u s.peons
    + occurs u s.chanops
    + occurs u s.chanops_voiced
    + occurs u s.voiced
    + occurs u s.halfops

unfoldable pub size : Sublists → ℕ
size s =
    length s.peons + length s.chanops + length s.chanops_voiced + length s.voiced + length s.halfops

abbrev pub same : ℕ → ℕ → ℕ
same u v = if u == v then 1 else 0

pub occurs-cons : (u v : ℕ) (l : List ℕ) → occurs u (v ∷ l) ≡ occurs u l + same v u
unfolding occurs
occurs-cons u v l = ground arith

pub has-occurs : (u : ℕ) (l : List ℕ) → has u l ≡ true → 1 ≤ occurs u l
unfolding has occurs
has-occurs u [] h = absurd (cc)
has-occurs u (v ∷ l) h = ground (arith, has-occurs u l)

pub has_not-occurs : (u : ℕ) (l : List ℕ) → has u l ≡ false → occurs u l ≡ 0
unfolding has occurs
has_not-occurs u [] h = refl
has_not-occurs u (v ∷ l) h = ground (arith, has_not-occurs u l)

pub occurs-del :
    (u v : ℕ) (l : List ℕ) → 1 ≤ occurs u l → occurs v (del u l) + same u v ≡ occurs v l
unfolding del occurs
occurs-del u v [] h = absurd (omega arith)
occurs-del u v (x ∷ l) h = ground (arith, occurs-del u v l)

pub length-del : (u : ℕ) (l : List ℕ) → 1 ≤ occurs u l → length (del u l) + 1 ≡ length l
unfolding del occurs
length-del u [] h = absurd (omega arith)
length-del u (x ∷ l) h = ground (arith, length-del u l)

pub occurs-length : (u : ℕ) (l : List ℕ) → occurs u l ≤ length l
unfolding occurs
occurs-length u [] = omega arith
occurs-length u (x ∷ l) = ground (arith, occurs-length u l)

standing-with_list :
    (v : ℕ) (r : Rank) (s : Sublists) (l : List ℕ)
    → standing v (with_list r s l) + occurs v (list_of r s) ≡ standing v s + occurs v l
unfolding standing with_list list_of
standing-with_list v peon s l = omega arith
standing-with_list v chanop s l = omega arith
standing-with_list v chanop_voiced s l = omega arith
standing-with_list v voice s l = omega arith
standing-with_list v halfop s l = omega arith

size-with_list :
    (r : Rank) (s : Sublists) (l : List ℕ)
    → size (with_list r s l) + length (list_of r s) ≡ size s + length l
unfolding size with_list list_of
size-with_list peon s l = omega arith
size-with_list chanop s l = omega arith
size-with_list chanop_voiced s l = omega arith
size-with_list voice s l = omega arith
size-with_list halfop s l = omega arith

pub standing-put :
    (r : Rank) (u v : ℕ) (s : Sublists) → standing v (put r u s) ≡ standing v s + same u v
unfolding put
standing-put r u v s =
    omega (arith, standing-with_list v r s (u ∷ list_of r s), occurs-cons v u (list_of r s))

pub size-put : (r : Rank) (u : ℕ) (s : Sublists) → size (put r u s) ≡ size s + 1
unfolding put
size-put r u s = omega (arith, size-with_list r s (u ∷ list_of r s))

pub standing-take_off :
    (r : Rank) (u v : ℕ) (s : Sublists)
    → has u (list_of r s) ≡ true
    → standing v (take_off r u s) + same u v ≡ standing v s
unfolding take_off
standing-take_off r u v s h = omega (
  arith,
  standing-with_list v r s (del u (list_of r s)),
  occurs-del u v (list_of r s) (has-occurs u (list_of r s) h),
)

pub size-take_off :
    (r : Rank) (u : ℕ) (s : Sublists)
    → has u (list_of r s) ≡ true
    → size (take_off r u s) + 1 ≡ size s
unfolding take_off
size-take_off r u s h = omega (
  arith,
  size-with_list r s (del u (list_of r s)),
  length-del u (list_of r s) (has-occurs u (list_of r s) h),
)

-- What find_rank finds is there.
pub find_rank-has :
    (rs : List Rank) (s : Sublists) (u : ℕ) (r : Rank)
    → find_rank rs s u ≡ some r
    → has u (list_of r s) ≡ true
unfolding find_rank
find_rank-has [] s u r h = absurd (cc)
find_rank-has (q ∷ rs) s u r h = ground (arith, find_rank-has rs s u r)

-- Where it finds nothing, the client is on none of the lists.
find_rank-none :
    (rs : List Rank) (s : Sublists) (u : ℕ)
    → find_rank rs s u ≡ none
    → All (λ r. occurs u (list_of r s) ≡ 0) rs
unfolding find_rank
find_rank-none [] s u h = tt
find_rank-none (q ∷ rs) s u h = elim (Bool-cases (has u (list_of q s))) [
  | inl y ↦ absurd (ground arith)
  | inr ne ↦ (has_not-occurs u (list_of q s) ne, find_rank-none rs s u (ground arith))
]

-- A client on one of the lists stands there.
pub has-standing : (r : Rank) (s : Sublists) (u : ℕ) → has u (list_of r s) ≡ true → 1 ≤ standing u s
has-standing r s u h = let off = standing-take_off r u u s h in ground arith

module _ (s : Sublists) (u : ℕ) where
  pub leave_order-standing : find_rank leave_order s u ≡ none → standing u s ≡ 0
  unfolding list_of standing
  leave_order-standing h = let a = find_rank-none leave_order s u h in omega arith

  pub leave_order_local-standing : find_rank leave_order_local s u ≡ none → standing u s ≡ 0
  unfolding list_of standing
  leave_order_local-standing h = let a = find_rank-none leave_order_local s u h in omega arith

  pub change_order-standing : find_rank change_order s u ≡ none → standing u s ≡ 0
  unfolding list_of standing
  change_order-standing h = let a = find_rank-none change_order s u h in omega arith

length-nil : (l : List ℕ) → length l ≡ 0 → l ≡ []
length-nil [] h = refl
length-nil (x ∷ l) h = absurd (omega arith)

-- Lists on which nobody stands are empty.
occurs-nil : (l : List ℕ) → ((u : ℕ) → occurs u l ≡ 0) → l ≡ []
unfolding occurs
occurs-nil [] h = refl
occurs-nil (x ∷ l) h = absurd (ground (arith, h x))

pub size-empty : (r : Rank) (s : Sublists) → size s ≡ 0 → list_of r s ≡ []
unfolding size list_of
size-empty peon s h = length-nil s.peons (omega arith)
size-empty chanop s h = length-nil s.chanops (omega arith)
size-empty chanop_voiced s h = length-nil s.chanops_voiced (omega arith)
size-empty voice s h = length-nil s.voiced (omega arith)
size-empty halfop s h = length-nil s.halfops (omega arith)

pub standing-le-size : (u : ℕ) (s : Sublists) → standing u s ≤ size s
unfolding standing size
standing-le-size u s = omega (
  arith,
  occurs-length u s.peons,
  occurs-length u s.chanops,
  occurs-length u s.chanops_voiced,
  occurs-length u s.voiced,
  occurs-length u s.halfops,
)

pub standing-size_zero : (s : Sublists) → ((u : ℕ) → standing u s ≡ 0) → size s ≡ 0
unfolding standing size
standing-size_zero s h =
    let none_in : (l : List ℕ) → ((u : ℕ) → occurs u l ≡ 0) → length l ≡ 0 =
      λ l k. ap length (occurs-nil l k) in
    omega (
      arith,
      none_in s.peons (λ u. omega (arith, h u)),
      none_in s.chanops (λ u. omega (arith, h u)),
      none_in s.chanops_voiced (λ u. omega (arith, h u)),
      none_in s.voiced (λ u. omega (arith, h u)),
      none_in s.halfops (λ u. omega (arith, h u)),
    )
