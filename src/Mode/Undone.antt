-- ===== src/Mode/Undone.antt =====
-- src/channel_mode.c: chm_halfop for a -h and then a +h of the same halfop.
use ircd_hybrid_8_cvs.Common.{
  ℕ, ◌≤◌, ◌≡◌, refl, sym, ◌∙◌, subst, true, false, ◌&&◌, not, List, [], ◌∷◌, ◌++◌, some, arith,
  if_elim,
}
use ircd_hybrid_8_cvs.Channel.Members.{has, peon, Channel, World, list_of, set_channel}
use ircd_hybrid_8_cvs.Channel.Leave.{is_chan_op, is_half_op, is_voiced, change_channel_membership}
use ircd_hybrid_8_cvs.Channel.Access.{has_mode}
use ircd_hybrid_8_cvs.Channel.Lists.{standing}
use ircd_hybrid_8_cvs.Channel.Consistent.{IsConsistent}
use ircd_hybrid_8_cvs.Channel.Promote.{change_channel_membership-IsConsistent}
use ircd_hybrid_8_cvs.Mode.State.{
  mode_add, mode_del, chaccess_chanop, cap_hops, mode_hideops, ModeCommand, State, chptr, source_p,
  arg_is, cancel_all,
}
use ircd_hybrid_8_cvs.Mode.Ranks.{
  find_target, is_member, Target, held_for_halfop, is_for, is_either, is_any, was_noted,
  rank_change, add_plus, add_minus, move_to, forget_resync, settle_resync, on_resync, add_resync,
  change_resync, cancel_halfop, give_halfop, take_halfop, change_halfop, halfop_target, halfop_nick,
  halfop_with, chm_halfop,
}
use ircd_hybrid_8_cvs.Mode.Members.{member-occurs}
use ircd_hybrid_8_cvs.Mode.Standing.{exclusive}
use ircd_hybrid_8_cvs.Mode.Cleared.{
  was_noted-cancel_all, was_noted-snoc, has_resync, has_resync-forget, has_resync-settle,
  has_resync-settle_last,
}

-- A peon, with no other standing
abbrev pub IsPeon : ℕ → Channel → Type 0
IsPeon u ch =
    (has u ch.everyone.peons ≡ true)
    × (is_chan_op ch u ≡ false)
    × (is_half_op ch u ≡ false)
    × (is_voiced ch u ≡ false)

one_list-IsPeon :
    (u : ℕ) (ch : Channel)
    → has u ch.everyone.peons ≡ true
    → standing u ch.everyone ≡ 1
    → IsPeon u ch
unfolding is_chan_op is_half_op is_voiced standing
one_list-IsPeon u ch on one =
    let s = ch.everyone in
    let a = exclusive u s.peons s.chanops on (omega arith) in
    let b = exclusive u s.peons s.chanops_voiced on (omega arith) in
    let c = exclusive u s.peons s.voiced on (omega arith) in
    let d = exclusive u s.peons s.halfops on (omega arith) in
    (on, ground arith, ground arith, ground arith)

halfop-no_op :
    (u : ℕ) (ch : Channel)
    → is_half_op ch u ≡ true
    → standing u ch.everyone ≤ 1
    → is_chan_op ch u ≡ false
unfolding is_chan_op is_half_op standing
halfop-no_op u ch on one =
    let s = ch.everyone in
    let a = exclusive u s.halfops s.chanops on (omega arith) in
    let b = exclusive u s.halfops s.chanops_voiced on (omega arith) in ground arith

-- Nothing is noted that tells anyone of a standing that the client was given or lost: no change of a
-- halfop or a voice for the nick, and no entry to resync the client.
abbrev pub IsUntold : ℕ → List ℕ → State → Type 0
IsUntold u opnick t =
    ((was_noted b'h' opnick t.plus ≡ false) × (was_noted b'v' opnick t.plus ≡ false))
    × ((was_noted b'h' opnick t.minus ≡ false) × (was_noted b'v' opnick t.minus ≡ false))
    × (has_resync u t.resync ≡ false)

module _ (m : ModeCommand) (u : ℕ) (opnick : List ℕ) (rest : List (List ℕ)) where
  -- What the +h needs of the state that the -h leaves, where `w` was the world before.
  record IsTaken (w : World) (t : State) : Type 0 where
    world : t.world ≡ (change_channel_membership w m.channel peon u).0
    params : t.params ≡ opnick ∷ rest
    noted : was_noted b'h' opnick t.minus ≡ true
    settles : has_resync u (on_resync u (settle_resync mode_add b'h' false) t.resync) ≡ false

  module _ (s : State) where
    -- The state behind the loops of the -h
    taken : State
    taken = record s {
      world = (change_channel_membership s.world m.channel peon u).0;
      plus = cancel_all (is_any opnick) s.plus;
      minus =
          cancel_all (is_either b'h' b'v' opnick) s.minus
          ++ rank_change b'h' cap_hops true u s ∷ [];
      resync = on_resync u forget_resync s.resync;
    }

    take_halfop-taken :
        was_noted b'h' opnick s.plus ≡ false
        → take_halfop m b'h' opnick u s ≡ add_resync m true mode_del b'h' true true u taken
    unfolding take_halfop cancel_halfop add_minus move_to change_resync rank_change taken
    take_halfop-taken fresh = rw (fresh, take_halfop) refl

    add_resync-IsTaken :
        s.params ≡ opnick ∷ rest
        → arg_is opnick (some (s.world.client u).name) ≡ true
        → IsTaken s.world (add_resync m true mode_del b'h' true true u taken)
    unfolding add_resync taken rank_change is_for chptr has_mode
    add_resync-IsTaken given name =
        let minus = cancel_all (is_either b'h' b'v' opnick) s.minus in
        let told = was_noted-snoc b'h' opnick (rank_change b'h' cap_hops true u s) name minus in
        if_elim (IsTaken s.world)
          (true && (taken.world.client u).is_mine && has_mode (chptr m taken) mode_hideops)
          (λ y. record {
            world = refl;
            params = given;
            noted = told;
            settles =
                has_resync-settle_last u b'h' mode_add false _ (on_resync u forget_resync s.resync)
                  refl (has_resync-forget u s.resync);
          })
          (λ n. record {
            world = refl;
            params = given;
            noted = told;
            settles =
                has_resync-settle u b'h' mode_add false (on_resync u forget_resync s.resync)
                  (has_resync-forget u s.resync);
          })

    del-take_halfop :
        s.params ≡ opnick ∷ opnick ∷ rest
        → find_target m opnick ≡ some u
        → is_member m u s ≡ true
        → is_chan_op (chptr m s) u ≡ false
        → is_half_op (chptr m s) u ≡ true
        → chm_halfop m chaccess_chanop mode_del b'h' s
          ≡ take_halfop m b'h' opnick u (record s { params = opnick ∷ rest })
    unfolding chm_halfop halfop_with halfop_nick halfop_target change_halfop held_for_halfop
        is_member chptr source_p
    del-take_halfop given named on no_op hop = ground arith

    add-give_halfop :
        s.params ≡ opnick ∷ rest
        → find_target m opnick ≡ some u
        → is_member m u s ≡ true
        → is_chan_op (chptr m s) u ≡ false
        → is_half_op (chptr m s) u ≡ false
        → chm_halfop m chaccess_chanop mode_add b'h' s
          ≡ give_halfop m b'h' opnick u (held_for_halfop m u s) (record s { params = rest })
    unfolding chm_halfop halfop_with halfop_nick halfop_target change_halfop held_for_halfop
        is_member chptr source_p
    add-give_halfop given named on no_op no_hop = ground arith

    give_halfop-noted :
        (t : Target)
        → was_noted b'h' opnick s.minus ≡ true
        → t.t_voice ≡ false
        → give_halfop m b'h' opnick u t s
          ≡ change_resync u (settle_resync mode_add b'h' false) (cancel_halfop opnick s)
    unfolding give_halfop cancel_halfop change_resync add_resync add_plus add_minus
    give_halfop-noted t noted quiet =
        let none_lost : (not (was_noted b'v' opnick s.plus) && t.t_voice) ≡ false = ground arith in
        rw (noted, none_lost, give_halfop) refl

    settled-IsUntold :
        has_resync u (on_resync u (settle_resync mode_add b'h' false) s.resync) ≡ false
        → IsUntold u opnick
            (change_resync u (settle_resync mode_add b'h' false) (cancel_halfop opnick s))
    unfolding change_resync cancel_halfop
    settled-IsUntold settles = (
      (
        was_noted-cancel_all b'h' opnick (is_any opnick) refl (λ x e. ground arith) s.plus,
        was_noted-cancel_all b'v' opnick (is_any opnick) refl (λ x e. ground arith) s.plus,
      ),
      (
        was_noted-cancel_all b'h' opnick (is_either b'h' b'v' opnick) refl (λ x e. ground arith)
            s.minus,
        was_noted-cancel_all b'v' opnick (is_either b'h' b'v' opnick) refl (λ x e. ground arith)
            s.minus,
      ),
      settles,
    )

  quiet : (t : State) → is_voiced (chptr m t) u ≡ false → (held_for_halfop m u t).t_voice ≡ false
  unfolding held_for_halfop
  quiet t e = ground arith

  settled_world :
      (t : State)
      → IsPeon u (t.world.channel m.channel)
      → IsPeon u (
          (change_resync u
              (settle_resync mode_add b'h' false)
              (cancel_halfop opnick t)).world.channel
            m.channel)
  unfolding change_resync cancel_halfop
  settled_world t h = h

  -- What the +h comes to in the state that the -h leaves.
  give-IsTaken :
      (w : World) (t : State)
      → IsTaken w t
      → IsPeon u (((change_channel_membership w m.channel peon u).0).channel m.channel)
      → find_target m opnick ≡ some u
      → is_member m u t ≡ true
      → let r = chm_halfop m chaccess_chanop mode_add b'h' t in
        IsPeon u (chptr m r) × IsUntold u opnick r
  unfolding chptr
  give-IsTaken w t k stands named on =
      let here = subst (λ (v : World). IsPeon u (v.channel m.channel)) (sym k.world) stands in
      let t' = record t { params = rest } in
      let run =
        add-give_halfop t k.params named on here.1 here.2
        ∙ give_halfop-noted t' (held_for_halfop m u t) k.noted (quiet t here.3) in
      subst (λ (r : State). IsPeon u (r.world.channel m.channel) × IsUntold u opnick r) (sym run)
        (settled_world t' here, settled-IsUntold t' k.settles)

on_peons :
    (u : ℕ) (ch : Channel)
    → has u (list_of peon ch.everyone) ≡ true
    → has u ch.everyone.peons ≡ true
unfolding list_of
on_peons u ch h = h

-- A move on the channel leaves the client's own list alone.
still :
    (m : ModeCommand) (u : ℕ) (s : State)
    → is_member m u s ≡ true
    → (t : State) → t.world ≡ (change_channel_membership s.world m.channel peon u).0
    → is_member m u t ≡ true
unfolding is_member change_channel_membership set_channel
still m u s on t e =
    subst (λ (w : World). ((w.client u).has_user && has m.channel (w.client u).channels) ≡ true)
      (sym e) on

-- Where the lists agree, a client with the access of an operator takes the halfop from a member and gives
-- it again in one command, by its name in any case of letters, and no +h for that nick was noted
-- before: the client stands on the list of peons then and has no other standing, and nothing of it is
-- told to anyone: no change of a halfop or a voice for the nick is left in either direction, and no
-- entry to resync the client.
pub chm_halfop_undone :
    (m : ModeCommand) (u : ℕ) (opnick : List ℕ) (rest : List (List ℕ)) (s : State)
    → s.params ≡ opnick ∷ opnick ∷ rest
    → find_target m opnick ≡ some u
    → arg_is opnick (some (s.world.client u).name) ≡ true
    → IsConsistent s.world
    → is_member m u s ≡ true
    → is_half_op (chptr m s) u ≡ true
    → was_noted b'h' opnick s.plus ≡ false
    → let t = chm_halfop m chaccess_chanop mode_del b'h' s in
      let r = chm_halfop m chaccess_chanop mode_add b'h' t in
      IsPeon u (chptr m r) × IsUntold u opnick r
unfolding chptr
chm_halfop_undone m u opnick rest s given named name ok on hop fresh =
    let s' = record s { params = opnick ∷ rest } in
    let once = member-occurs m u s (ok, on) in
    let no_op =
      halfop-no_op u (s.world.channel m.channel) hop (omega (arith, ok.linked m.channel u, once)) in
    let t = add_resync m true mode_del b'h' true true u (taken m u opnick rest s') in
    let run =
      del-take_halfop m u opnick rest s given named on no_op hop
      ∙ take_halfop-taken m u opnick rest s' fresh in
    let k = add_resync-IsTaken m u opnick rest s' refl name in
    let moved = change_channel_membership-IsConsistent s.world m.channel u peon ok once in
    let there = ((change_channel_membership s.world m.channel peon u).0).channel m.channel in
    subst
      (λ (t : State).
        let r = chm_halfop m chaccess_chanop mode_add b'h' t in
        IsPeon u (r.world.channel m.channel) × IsUntold u opnick r)
      (sym run)
      (give-IsTaken m u opnick rest s.world t k
        (one_list-IsPeon u there (on_peons u there moved.2) moved.3) named
        (still m u s on t k.world))
