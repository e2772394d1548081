-- ===== src/Channel/Promote.antt =====
-- src/channel_mode.c: change_channel_membership moves a client between the lists of a channel.
use ircd_hybrid_8_cvs.Common.{
  ℕ, ◌≤◌, ◌≡◌, refl, sym, subst, Bool, true, false, some, if◌then◌else◌, arith, Bool-cases,
  Option-cases, inl, inr,
}
use ircd_hybrid_8_cvs.Channel.Members.{
  has, Sublists, Rank, peon, chanop, chanop_voiced, voice, halfop, list_of, with_list, same_rank,
  find_rank, put, take_off, World, set_channel,
}
use ircd_hybrid_8_cvs.Channel.Leave.{
  change_order, move_local, move_everyone, change_channel_membership,
}
use ircd_hybrid_8_cvs.Channel.Lists.{
  occurs, standing, size, standing-take_off, size-take_off, standing-put, size-put, find_rank-has,
  change_order-standing, has-standing,
}
use ircd_hybrid_8_cvs.Channel.Consistent.{IsConsistent, IsLinked, set-IsConsistent}

-- The move keeps how often anyone stands on the lists, and their lengths.
abbrev pub SameStanding : Sublists → Sublists → Type 0
SameStanding a b = ((x : ℕ) → standing x a ≡ standing x b) × (size a ≡ size b)

move-SameStanding :
    (to r : Rank) (u : ℕ) (s : Sublists)
    → has u (list_of r s) ≡ true
    → SameStanding (put to u (take_off r u s)) s
move-SameStanding to r u s h = (
  (λ x. omega (arith, standing-put to u x (take_off r u s), standing-take_off r u x s h)),
  omega (arith, size-put to u (take_off r u s), size-take_off r u s h),
)

same_rank-eq : (p r : Rank) → same_rank p r ≡ true → p ≡ r
same_rank-eq peon peon h = refl
same_rank-eq p r h = ground arith

pub put-has : (to : Rank) (u : ℕ) (s : Sublists) → has u (list_of to (put to u s)) ≡ true
unfolding put list_of with_list has
put-has peon u s = ground arith
put-has chanop u s = ground arith
put-has chanop_voiced u s = ground arith
put-has voice u s = ground arith
put-has halfop u s = ground arith

module _ (to : Rank) (u : ℕ) (s : Sublists) where
  -- What a move comes to that finds the client.
  abbrev IsMoved : Sublists × Bool → Type 0
  IsMoved (t, ok) = SameStanding t s × (has u (list_of to t) ≡ true) × (ok ≡ true)

  moved :
      (r : Rank) → find_rank change_order s u ≡ some r → IsMoved (put to u (take_off r u s), true)
  moved r h = (
    move-SameStanding to r u s (find_rank-has change_order s u r h),
    put-has to u (take_off r u s),
    refl,
  )

  found : 1 ≤ standing u s → (r : Rank) × (find_rank change_order s u ≡ some r)
  found on = elim (Option-cases (find_rank change_order s u)) [
    | inl h ↦ absurd (omega (arith, change_order-standing s u h))
    | inr p ↦ p
  ]

  move_local-IsMoved : 1 ≤ standing u s → IsMoved (move_local to u s)
  unfolding move_local
  move_local-IsMoved on =
      let (r, h) = found on in
      let e : move_local to u s ≡ (put to u (take_off r u s), true) = ground arith in
      subst IsMoved (sym e) (moved r h)

  move_everyone-IsMoved : 1 ≤ standing u s → IsMoved (move_everyone to u s)
  unfolding move_everyone
  move_everyone-IsMoved on =
      let (r, h) = found on in
      elim (Bool-cases (same_rank to r)) [
        | inl y ↦
            let here = find_rank-has change_order s u r h in
            let e : move_everyone to u s ≡ (s, true) = ground arith in
            let there =
              subst (λ (k : Rank). has u (list_of k s) ≡ true) (sym (same_rank-eq to r y)) here in
            subst IsMoved (sym e) (((λ x. refl), refl), there, refl)
        | inr n ↦
            let e : move_everyone to u s ≡ (put to u (take_off r u s), true) = ground arith in
            subst IsMoved (sym e) (moved r h)
      ]

  has-nobody : standing u s ≡ 0 → has u (list_of to s) ≡ false
  has-nobody h = elim (Bool-cases (has u (list_of to s))) [
    | inl y ↦ absurd (omega (arith, has-standing to s u y))
    | inr n ↦ n
  ]

module _ (w : World) (c u : ℕ) (to : Rank) (ok : IsConsistent w)
    (on : occurs c (w.client u).channels ≡ 1) where
  abbrev new_local : Sublists
  new_local =
      if (w.client u).is_mine then (move_local to u (w.channel c).local).0 else (w.channel c).local

  local_moved :
      SameStanding new_local (w.channel c).local
      × (has u (list_of to new_local) ≡ (w.client u).is_mine)
      × ((if (w.client u).is_mine then (move_local to u (w.channel c).local).1 else true) ≡ true)
  local_moved = elim (Bool-cases (w.client u).is_mine) [
    | inl mine ↦
        let at : 1 ≤ standing u (w.channel c).local = ground (arith, ok.near c u) in
        let near = move_local-IsMoved to u (w.channel c).local at in rw mine near
    | inr far ↦
        let off : standing u (w.channel c).local ≡ 0 = ground (arith, ok.near c u) in
        rw far (((λ x. refl), refl), has-nobody to u (w.channel c).local off, refl)
  ]

  everyone-IsMoved : IsMoved to u (w.channel c).everyone (move_everyone to u (w.channel c).everyone)
  everyone-IsMoved =
      move_everyone-IsMoved to u (w.channel c).everyone (omega (arith, ok.linked c u))

  changed-IsLinked : IsLinked w (change_channel_membership w c to u).0 c u
  unfolding change_channel_membership set_channel
  changed-IsLinked =
      let far = everyone-IsMoved in
      let near = local_moved in
      record {
        channel_else = λ d ne. ground arith;
        client_else = λ x ne. (refl, refl, refl);
        mine = refl;
        elsewhere = λ d ne. refl;
        once = ok.once c u;
        others = λ x ne. ground (arith, far.0.0 x);
        linked = ground (arith, far.0.0 u, ok.linked c u);
        others_near = λ x ne. ground (arith, near.0.0 x);
        near = ground (arith, near.0.0 u, ok.near c u);
        users = ground (arith, ok.users c);
        locusers = ground (arith, ok.locusers c);
        joined = ok.joined u;
      }

  -- For a client that is on the channel, where the lists agree: change_channel_membership succeeds;
  -- the client stands on the list that was asked for then, on the local one of it exactly if it is
  -- connected here, and on no other list of the members; and all lists and counters agree again.
  pub change_channel_membership-IsConsistent :
      let r = change_channel_membership w c to u in
      IsConsistent r.0
      × (r.1 ≡ true)
      × (has u (list_of to (r.0.channel c).everyone) ≡ true)
      × (standing u (r.0.channel c).everyone ≡ 1)
      × (has u (list_of to (r.0.channel c).local) ≡ (w.client u).is_mine)
  unfolding change_channel_membership set_channel
  change_channel_membership-IsConsistent =
      let far = everyone-IsMoved in
      let near = local_moved in
      let was = ok.linked c u in
      (
        set-IsConsistent w (change_channel_membership w c to u).0 c u ok changed-IsLinked,
        ground arith,
        ground arith,
        ground (arith, far.0.0 u),
        ground arith,
      )
