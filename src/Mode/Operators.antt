-- ===== src/Mode/Operators.antt =====
-- src/channel_mode.c: what a client that is no operator of a channel can do to its operators.
use ircd_hybrid_8_cvs.Common.{
  ℕ, ◌≡◌, refl, sym, subst, ◌∙◌, Bool, true, false, ◌||◌, List, [], ◌∷◌, arith, Bool-cases,
  Option-cases, inl, inr, ◌≢◌,
}
use ircd_hybrid_8_cvs.Channel.Members.{
  has, del, Sublists, Rank, peon, voice, chanop, halfop, chanop_voiced, list_of, with_list,
  same_rank, find_rank, put, take_off, World, set_channel,
}
use ircd_hybrid_8_cvs.Channel.Leave.{
  change_order, move_everyone, change_channel_membership, is_chan_op,
}
use ircd_hybrid_8_cvs.Channel.Lists.{find_rank-has}
use ircd_hybrid_8_cvs.Channel.Consistent.{addresses}

-- is_chan_op, of the lists of members
abbrev op_on : Sublists → ℕ → Bool
op_on s u = has u s.chanops || has u s.chanops_voiced

has-del : (u v : ℕ) (l : List ℕ) → v ≢ u → has v (del u l) ≡ has v l
unfolding has del
has-del u v [] ne = refl
has-del u v (x ∷ l) ne = ground (arith, has-del u v l ne)

has-put : (u v : ℕ) (l : List ℕ) → v ≢ u → has v (u ∷ l) ≡ has v l
unfolding has
has-put u v l ne = ground arith

abbrev pub is_op_rank : Rank → Bool
is_op_rank peon = false
is_op_rank chanop = true
is_op_rank chanop_voiced = true
is_op_rank voice = false
is_op_rank halfop = false

-- Another list of members is not looked at.
op_on-with_list :
    (r : Rank) (s : Sublists) (l : List ℕ) (v : ℕ)
    → is_op_rank r ≡ false
    → op_on (with_list r s l) v ≡ op_on s v
unfolding with_list
op_on-with_list peon s l v e = refl
op_on-with_list chanop s l v e = absurd (ground arith)
op_on-with_list chanop_voiced s l v e = absurd (ground arith)
op_on-with_list voice s l v e = refl
op_on-with_list halfop s l v e = refl

-- The standing of others does not change when a client goes on or off a list.
op_on-take_off : (r : Rank) (u v : ℕ) (s : Sublists) → v ≢ u → op_on (take_off r u s) v ≡ op_on s v
unfolding take_off with_list list_of
op_on-take_off peon u v s ne = refl
op_on-take_off chanop u v s ne = rw (has-del u v s.chanops ne) refl
op_on-take_off chanop_voiced u v s ne = rw (has-del u v s.chanops_voiced ne) refl
op_on-take_off voice u v s ne = refl
op_on-take_off halfop u v s ne = refl

op_on-put : (r : Rank) (u v : ℕ) (s : Sublists) → v ≢ u → op_on (put r u s) v ≡ op_on s v
unfolding put with_list list_of
op_on-put peon u v s ne = refl
op_on-put chanop u v s ne = rw (has-put u v s.chanops ne) refl
op_on-put chanop_voiced u v s ne = rw (has-put u v s.chanops_voiced ne) refl
op_on-put voice u v s ne = refl
op_on-put halfop u v s ne = refl

op_on-put_self :
    (r : Rank) (u : ℕ) (s : Sublists) → is_op_rank r ≡ true → op_on (put r u s) u ≡ true
unfolding put with_list list_of has
op_on-put_self peon u s e = absurd (ground arith)
op_on-put_self chanop u s e = ground arith
op_on-put_self chanop_voiced u s e = ground arith
op_on-put_self voice u s e = absurd (ground arith)
op_on-put_self halfop u s e = absurd (ground arith)

-- A client is found on a list of operators only if it is one.
op_on-list_of :
    (r : Rank) (u : ℕ) (s : Sublists)
    → is_op_rank r ≡ true
    → has u (list_of r s) ≡ true
    → op_on s u ≡ true
unfolding list_of
op_on-list_of peon u s e h = absurd (ground arith)
op_on-list_of chanop u s e h = ground arith
op_on-list_of chanop_voiced u s e h = ground arith
op_on-list_of voice u s e h = absurd (ground arith)
op_on-list_of halfop u s e h = absurd (ground arith)

-- From a list to another of the same kind
module _ (to r : Rank) (u : ℕ) (s : Sublists) (same : op_on s u ≡ is_op_rank to)
    (on : has u (list_of r s) ≡ true) where
  moved_self : op_on (put to u (take_off r u s)) u ≡ op_on s u
  unfolding put take_off
  moved_self = elim (Bool-cases (is_op_rank to)) [
    | inl y ↦ op_on-put_self to u (take_off r u s) y ∙ sym (same ∙ y)
    | inr n ↦ elim (Bool-cases (is_op_rank r)) [
      | inl y ↦ absurd (ground (arith, op_on-list_of r u s y on))
      | inr k ↦
          op_on-with_list to (take_off r u s) (u ∷ list_of to (take_off r u s)) u n
          ∙ op_on-with_list r s (del u (list_of r s)) u k
    ]
  ]

  moved_op_on : (v : ℕ) → op_on (put to u (take_off r u s)) v ≡ op_on s v
  moved_op_on v = elim (addresses v u) [
    | inl y ↦ rw y moved_self
    | inr ne ↦ op_on-put to u v (take_off r u s) ne ∙ op_on-take_off r u v s ne
  ]

abbrev SameOps : Sublists → ℕ → Sublists × Bool → Type 0
SameOps s v r = op_on r.0 v ≡ op_on s v

pub move_everyone-op_on :
    (to : Rank) (u : ℕ) (s : Sublists)
    → op_on s u ≡ is_op_rank to
    → (v : ℕ) → op_on (move_everyone to u s).0 v ≡ op_on s v
unfolding move_everyone
move_everyone-op_on to u s same v = elim (Option-cases (find_rank change_order s u)) [
  | inl e ↦
      let h : move_everyone to u s ≡ (s, false) = ground arith in subst (SameOps s v) (sym h) refl
  | inr (r, e) ↦ elim (Bool-cases (same_rank to r)) [
    | inl y ↦
        let h : move_everyone to u s ≡ (s, true) = ground arith in subst (SameOps s v) (sym h) refl
    | inr n ↦
        let h : move_everyone to u s ≡ (put to u (take_off r u s), true) = ground arith in
        subst (SameOps s v) (sym h)
          (moved_op_on to r u s same (find_rank-has change_order s u r e) v)
  ]
]

-- change_channel_membership between lists of operators, or between other lists
pub change_channel_membership-is_chan_op :
    (w : World) (c u : ℕ) (to : Rank)
    → is_chan_op (w.channel c) u ≡ is_op_rank to
    → (v : ℕ)
    → is_chan_op ((change_channel_membership w c to u).0.channel c) v ≡ is_chan_op (w.channel c) v
unfolding change_channel_membership set_channel is_chan_op
change_channel_membership-is_chan_op w c u to same v =
    ground (arith, move_everyone-op_on to u (w.channel c).everyone same v)
