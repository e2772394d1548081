-- ===== src/Channel/Leaving.antt =====
-- src/channel.c: remove_user_from_channel and the agreement of the lists.
use ircd_hybrid_8_cvs.Common.{
  ℕ, suc, ◌+◌, ◌-◌, ◌≤◌, ◌≡◌, sym, ap, ◌∙◌, subst, Bool, true, false, length, none, some, leb, ltb,
  arith, Bool-cases, Option-cases, inl, inr, if_elim, not, ◌||◌,
}
use ircd_hybrid_8_cvs.Common.Int.{ℤ, pos, ◌-ℤ◌}
use ircd_hybrid_8_cvs.Channel.Members.{
  has, del, Rank, list_of, find_rank, World, Setting, set_client, set_channel, forget,
  sub1_from_channel, leave_order, leave_order_local, destroy_channel,
}
use ircd_hybrid_8_cvs.Channel.Leave.{
  leave_client, leave_everyone, leave_local, name_vchan, unlink_user, finish_leaving,
  remove_user_from_channel,
}
use ircd_hybrid_8_cvs.Channel.Lists.{
  occurs, size, occurs-del, length-del, standing-take_off, size-take_off, find_rank-has,
  leave_order-standing, leave_order_local-standing, standing-le-size, standing-size_zero,
}
use ircd_hybrid_8_cvs.Channel.Consistent.{IsConsistent, IsLinked, set-IsConsistent, pos-pred}
use ircd_hybrid_8_cvs.Channel.Destroy.{
  SameMembers, IsEmpty, same-IsConsistent, destroy_channel-same,
}

-- The count that sub1_from_channel takes down.
abbrev counted : World → ℕ → World
counted w c = set_channel w c (record (w.channel c) { users = (w.channel c).users - 1 })

abbrev left_near : Setting → World → ℕ → ℕ → Rank → Rank → World
left_near g w c u r k =
    counted (leave_client g (leave_local (leave_everyone (name_vchan w c u) c u r) c u k) c u) c

abbrev left_far : Setting → World → ℕ → ℕ → Rank → World
left_far g w c u r = counted (leave_client g (leave_everyone (name_vchan w c u) c u r) c u) c

module _ (g : Setting) (w : World) (c u : ℕ) (ok : IsConsistent w) where
  name_vchan-same : SameMembers w (name_vchan w c u)
  unfolding name_vchan set_channel
  name_vchan-same = ((λ d. ground arith), (λ x. ground arith))

  module _ (r : Rank) (at : has u (list_of r (w.channel c).everyone) ≡ true) where
    on_channel : 1 ≤ occurs c (w.client u).channels
    on_channel =
        let h = standing-take_off r u u (w.channel c).everyone at in
        let l = ok.linked c u in ground arith

    links-del : (w.client u).joined -ℤ pos 1 ≡ pos (length (del c (w.client u).channels))
    links-del =
        let n = length-del c (w.client u).channels on_channel in
        let e : length (w.client u).channels ≡ suc (length (del c (w.client u).channels)) =
          omega arith in
        ap (λ (j : ℤ). j -ℤ pos 1) (ok.joined u ∙ ap pos e)
        ∙ pos-pred (length (del c (w.client u).channels))

    left_far-IsLinked : (w.client u).is_mine ≡ false → IsLinked w (left_far g w c u r) c u
    unfolding set_client set_channel leave_client leave_everyone name_vchan forget
    left_far-IsLinked far =
        let on = on_channel in
        let less = occurs-del c c (w.client u).channels on in
        let off = standing-take_off r u u (w.channel c).everyone at in
        record {
          channel_else = λ d ne. ground arith;
          client_else = λ x ne. ground arith;
          mine = ground arith;
          elsewhere = λ d ne. ground (arith, occurs-del c d (w.client u).channels);
          once = ground (arith, ok.once c u);
          others = λ x ne. ground (arith, standing-take_off r u x (w.channel c).everyone at);
          linked = ground (arith, ok.linked c u);
          others_near = λ x ne. ground arith;
          near = ground (arith, ok.near c u);
          users = ground (arith, size-take_off r u (w.channel c).everyone at, ok.users c);
          locusers = ground (arith, ok.locusers c);
          joined = ground (arith, links-del);
        }

    left_near-IsLinked :
        (k : Rank)
        → has u (list_of k (w.channel c).local) ≡ true
        → (w.client u).is_mine ≡ true
        → IsLinked w (left_near g w c u r k) c u
    unfolding set_client set_channel leave_client leave_everyone leave_local name_vchan forget
    left_near-IsLinked k at_near mine =
        let on = on_channel in
        let less = occurs-del c c (w.client u).channels on in
        let off = standing-take_off r u u (w.channel c).everyone at in
        let off_near = standing-take_off k u u (w.channel c).local at_near in
        let count_near = size-take_off k u (w.channel c).local at_near in
        record {
          channel_else = λ d ne. ground arith;
          client_else = λ x ne. ground arith;
          mine = ground arith;
          elsewhere = λ d ne. ground (arith, occurs-del c d (w.client u).channels);
          once = ground (arith, ok.once c u);
          others = λ x ne. ground (arith, standing-take_off r u x (w.channel c).everyone at);
          linked = ground (arith, ok.linked c u);
          others_near = λ x ne. ground (arith, standing-take_off k u x (w.channel c).local at_near);
          near = ground (arith, ok.near c u);
          users = ground (arith, size-take_off r u (w.channel c).everyone at, ok.users c);
          locusers = ground (arith, ok.locusers c);
          joined = ground (arith, links-del);
        }

    left_far-off : occurs c ((left_far g w c u r).client u).channels ≡ 0
    unfolding set_client set_channel leave_client leave_everyone name_vchan forget
    left_far-off =
        let on = on_channel in
        let less = occurs-del c c (w.client u).channels on in let most = ok.once c u in ground arith

    left_near-off : (k : Rank) → occurs c ((left_near g w c u r k).client u).channels ≡ 0
    unfolding set_client set_channel leave_client leave_everyone leave_local name_vchan forget
    left_near-off k =
        let on = on_channel in
        let less = occurs-del c c (w.client u).channels on in let most = ok.once c u in ground arith

-- The lists agree, and the client is not on the channel.
abbrev pub HasLeft : ℕ → ℕ → World → Type 0
HasLeft c u w = IsConsistent w × (occurs c (w.client u).channels ≡ 0)

none_left : (w : World) (c : ℕ) → IsConsistent w → (w.channel c).users ≡ 0 → IsEmpty w c
none_left w c ok h =
    let empty : size (w.channel c).everyone ≡ 0 = omega (arith, ok.users c) in
    (
      empty,
      standing-size_zero (w.channel c).local (λ x.
          let few = standing-le-size x (w.channel c).everyone in
          let near = ok.near c x in let linked = ok.linked c x in ground arith),
    )

destroy_channel-HasLeft :
    (g : Setting) (w : World) (c u : ℕ)
    → HasLeft c u w
    → (w.channel c).users ≡ 0
    → HasLeft c u (destroy_channel g w c)
destroy_channel-HasLeft g w c u (ok, off) h =
    let same = destroy_channel-same g w c (none_left w c ok h) in
    (same-IsConsistent w (destroy_channel g w c) same ok, ap (occurs c) (same.1 u).1 ∙ off)

counted-users :
    (w : World) (c : ℕ) → leb (w.channel c).users 1 ≡ true → ((counted w c).channel c).users ≡ 0
unfolding set_channel
counted-users w c h = ground arith

sub1_from_channel-HasLeft :
    (g : Setting) (w : World) (c u : ℕ) (perm : Bool)
    → HasLeft c u (counted w c)
    → HasLeft c u (sub1_from_channel g w c perm)
unfolding sub1_from_channel
sub1_from_channel-HasLeft g w c u perm h =
    if_elim (HasLeft c u) (leb (w.channel c).users 1)
      (λ y.
        if_elim (HasLeft c u) (not perm || ltb g.now ((w.channel c).channelts + g.persist_time))
          (λ z. destroy_channel-HasLeft g (counted w c) c u h (last_one y)) (λ z. h))
      (λ n. h)
  where
    last_one : leb (w.channel c).users 1 ≡ true → ((counted w c).channel c).users ≡ 0
    last_one y = counted-users w c y

module _ (g : Setting) (w : World) (c u : ℕ) (ok : IsConsistent w) where
  -- What unlink_user gives: nothing done, or a client off the lists and a count to take down.
  abbrev Unlinked : World × Bool → Type 0
  Unlinked (v, false) = HasLeft c u v
  Unlinked (v, true) = HasLeft c u (counted v c)

  stays_off : find_rank leave_order (w.channel c).everyone u ≡ none → Unlinked (unlink_user g w c u)
  unfolding unlink_user
  stays_off h =
      let same = name_vchan-same g w c u ok in
      let v = name_vchan w c u in
      let e : unlink_user g w c u ≡ (v, false) = ground arith in
      let off = sym (ok.linked c u) ∙ leave_order-standing (w.channel c).everyone u h in
      subst Unlinked (sym e) (same-IsConsistent w v same ok, ap (occurs c) (same.1 u).1 ∙ off)

  goes_far :
      (r : Rank)
      → find_rank leave_order (w.channel c).everyone u ≡ some r
      → (w.client u).is_mine ≡ false
      → Unlinked (unlink_user g w c u)
  unfolding unlink_user
  goes_far r h far =
      let at = find_rank-has leave_order (w.channel c).everyone u r h in
      let v = leave_client g (leave_everyone (name_vchan w c u) c u r) c u in
      let e : unlink_user g w c u ≡ (v, true) = ground arith in
      subst Unlinked (sym e) (
        set-IsConsistent w (counted v c) c u ok (left_far-IsLinked g w c u ok r at far),
        left_far-off g w c u ok r at,
      )

  goes_near :
      (r k : Rank)
      → find_rank leave_order (w.channel c).everyone u ≡ some r
      → find_rank leave_order_local (w.channel c).local u ≡ some k
      → (w.client u).is_mine ≡ true
      → Unlinked (unlink_user g w c u)
  unfolding unlink_user
  goes_near r k h q mine =
      let at = find_rank-has leave_order (w.channel c).everyone u r h in
      let at_near = find_rank-has leave_order_local (w.channel c).local u k q in
      let v = leave_client g (leave_local (leave_everyone (name_vchan w c u) c u r) c u k) c u in
      let e : unlink_user g w c u ≡ (v, true) = ground arith in
      subst Unlinked (sym e) (
        set-IsConsistent w (counted v c) c u ok (left_near-IsLinked g w c u ok r at k at_near mine),
        left_near-off g w c u ok r at k,
      )

  unlink_user-Unlinked : Unlinked (unlink_user g w c u)
  unlink_user-Unlinked = elim (Option-cases (find_rank leave_order (w.channel c).everyone u)) [
    | inl h ↦ stays_off h
    | inr (r, h) ↦ elim (Bool-cases (w.client u).is_mine) [
      | inr far ↦ goes_far r h far
      | inl mine ↦ elim (Option-cases (find_rank leave_order_local (w.channel c).local u)) [
        | inr (k, q) ↦ goes_near r k h q mine
        | inl q ↦
            let at = find_rank-has leave_order (w.channel c).everyone u r h in
            let on = on_channel g w c u ok r at in
            let off = leave_order_local-standing (w.channel c).local u q in
            let near = ok.near c u in absurd (ground arith)
      ]
    ]
  ]

  finish_leaving-HasLeft :
      (perm : Bool) (p : World × Bool) → Unlinked p → HasLeft c u (finish_leaving g c perm p)
  unfolding finish_leaving
  finish_leaving-HasLeft perm (v, false) h = h
  finish_leaving-HasLeft perm (v, true) h = sub1_from_channel-HasLeft g v c u perm h

  -- remove_user_from_channel, in a state where the lists agree: the client is off the channel then,
  -- whether or not it was on it before, and the lists and the counters agree again, whether or not
  -- the channel was left empty and destroyed.
  pub remove_user_from_channel-HasLeft :
      (perm : Bool) → HasLeft c u (remove_user_from_channel g w c u perm)
  unfolding remove_user_from_channel
  remove_user_from_channel-HasLeft perm =
      finish_leaving-HasLeft perm (unlink_user g w c u) unlink_user-Unlinked
