-- ===== src/Mode/Standing.antt =====
-- src/channel_mode.c: the standing that chm_op gives and takes.
use ircd_hybrid_8_cvs.Common.{
  ℕ, ◌+◌, ◌≤◌, ◌≡◌, refl, sym, subst, ◌∙◌, ap, Bool, true, false, ◌&&◌, not, List, ◌∷◌, some, arith,
  Bool-cases, inl, inr, if_elim, if◌then◌else◌,
}
use ircd_hybrid_8_cvs.Channel.Members.{
  has, Rank, peon, voice, chanop, halfop, chanop_voiced, list_of, Channel, World,
}
use ircd_hybrid_8_cvs.Channel.Leave.{change_channel_membership, is_chan_op, is_voiced}
use ircd_hybrid_8_cvs.Channel.Access.{has_mode}
use ircd_hybrid_8_cvs.Channel.Lists.{occurs, standing, has-occurs}
use ircd_hybrid_8_cvs.Channel.Consistent.{IsConsistent}
use ircd_hybrid_8_cvs.Channel.Promote.{change_channel_membership-IsConsistent}
use ircd_hybrid_8_cvs.Mode.State.{
  Dir, mode_add, mode_del, chaccess_chanop, mode_hideops, Change, Resync, ModeCommand, State, chptr,
  source_p,
}
use ircd_hybrid_8_cvs.Mode.Masks.{over_limit, count_mode}
use ircd_hybrid_8_cvs.Mode.Ranks.{
  find_target, is_member, Target, held_by, add_plus, add_minus, move_to, forget_resync,
  settle_resync, add_resync, change_resync, cancel_op, give_op, take_op, change_op, op_member,
  with_member, op_with, chm_op,
}
use ircd_hybrid_8_cvs.Mode.Members.{member-occurs}
use ircd_hybrid_8_cvs.Mode.Operators.{is_op_rank}

abbrev is_voice_rank : Rank → Bool
is_voice_rank peon = false
is_voice_rank chanop = false
is_voice_rank chanop_voiced = true
is_voice_rank voice = true
is_voice_rank halfop = false

pub exclusive :
    (u : ℕ) (a b : List ℕ) → has u a ≡ true → occurs u a + occurs u b ≤ 1 → has u b ≡ false
exclusive u a b h one = elim (Bool-cases (has u b)) [
  | inl y ↦ absurd (omega (arith, has-occurs u a h, has-occurs u b y))
  | inr n ↦ n
]

-- Who stands on one list only has the standing of that list.
HasStanding : ℕ → Rank → Channel → Type 0
HasStanding u to ch = (is_chan_op ch u ≡ is_op_rank to) × (is_voiced ch u ≡ is_voice_rank to)

one_list :
    (to : Rank) (u : ℕ) (ch : Channel)
    → has u (list_of to ch.everyone) ≡ true
    → standing u ch.everyone ≡ 1
    → HasStanding u to ch
unfolding HasStanding is_chan_op is_voiced list_of standing
one_list peon u ch on one =
    let s = ch.everyone in
    let a = exclusive u s.peons s.chanops on (omega arith) in
    let b = exclusive u s.peons s.chanops_voiced on (omega arith) in
    let c = exclusive u s.peons s.voiced on (omega arith) in (ground arith, ground arith)
one_list chanop u ch on one =
    let s = ch.everyone in
    let b = exclusive u s.chanops s.chanops_voiced on (omega arith) in
    let c = exclusive u s.chanops s.voiced on (omega arith) in (ground arith, ground arith)
one_list chanop_voiced u ch on one = (ground arith, ground arith)
one_list voice u ch on one =
    let s = ch.everyone in
    let a = exclusive u s.voiced s.chanops on (omega arith) in
    let b = exclusive u s.voiced s.chanops_voiced on (omega arith) in (ground arith, ground arith)
one_list halfop u ch on one =
    let s = ch.everyone in
    let a = exclusive u s.halfops s.chanops on (omega arith) in
    let b = exclusive u s.halfops s.chanops_voiced on (omega arith) in
    let c = exclusive u s.halfops s.voiced on (omega arith) in (ground arith, ground arith)

-- The lists that chm_op moves to
adds_op : (b : Bool) → is_op_rank (if b then chanop_voiced else chanop) ≡ true
adds_op true = refl
adds_op false = refl

adds_voice : (b : Bool) → is_voice_rank (if b then chanop_voiced else chanop) ≡ b
adds_voice true = refl
adds_voice false = refl

takes_op : (b : Bool) → is_op_rank (if b then voice else peon) ≡ false
takes_op true = refl
takes_op false = refl

takes_voice : (b : Bool) → is_voice_rank (if b then voice else peon) ≡ b
takes_voice true = refl
takes_voice false = refl

flipped : (b : Bool) → not b ≡ true → b ≡ false
flipped true e = absurd (ground arith)
flipped false e = refl

counted-world : (b : Bool) (s : State) → (if b then count_mode s else s).world ≡ s.world
unfolding count_mode
counted-world true s = refl
counted-world false s = refl

add_plus-world : (b : Bool) (x : Change) (s : State) → (add_plus b x s).world ≡ s.world
unfolding add_plus
add_plus-world true x s = refl
add_plus-world false x s = refl

add_minus-world : (b : Bool) (x : Change) (s : State) → (add_minus b x s).world ≡ s.world
unfolding add_minus
add_minus-world true x s = refl
add_minus-world false x s = refl

module _ (m : ModeCommand) (u : ℕ) where
  resync-world :
      (f : Resync → Resync) (b : Bool) (dir : Dir) (c : ℕ) (sync send : Bool) (s : State)
      → (add_resync m b dir c sync send u (change_resync u f s)).world ≡ s.world
  unfolding add_resync change_resync chptr has_mode
  resync-world f b dir c sync send s =
      if_elim (λ (t : State). t.world ≡ s.world)
        (b && (s.world.client u).is_mine && has_mode (chptr m s) mode_hideops) (λ y. refl)
        (λ n. refl)

  abbrev moved : Rank → World → World
  moved to w = (change_channel_membership w m.channel to u).0

  give_op-world :
      (c : ℕ) (opnick : List ℕ) (t : Target) (s : State)
      → (give_op m c opnick u t s).world
        ≡ moved (if t.t_voice then chanop_voiced else chanop) s.world
  unfolding give_op cancel_op move_to
  give_op-world c opnick t s =
      resync-world (settle_resync mode_add c true) _ mode_add c _ false _
      ∙ add_plus-world _ _ _
      ∙ ap (moved (if t.t_voice then chanop_voiced else chanop))
          (add_minus-world _ _ (cancel_op opnick s))

  take_op-world :
      (c : ℕ) (opnick : List ℕ) (t : Target) (s : State)
      → (take_op m c opnick u t s).world
        ≡ moved (if not t.t_hop && t.t_voice then voice else peon) s.world
  unfolding take_op cancel_op move_to
  take_op-world c opnick t s =
      resync-world forget_resync _ mode_del _ true true _
      ∙ ap (moved (if not t.t_hop && t.t_voice then voice else peon))
          (add_minus-world _ _ (cancel_op opnick s))

  module _ (s : State) (ok : IsConsistent s.world) (on : is_member m u s ≡ true) where
    moved-HasStanding : (to : Rank) → HasStanding u to ((moved to s.world).channel m.channel)
    moved-HasStanding to =
        let r =
          change_channel_membership-IsConsistent s.world m.channel u to ok
            (member-occurs m u s (ok, on)) in
        one_list to u ((moved to s.world).channel m.channel) (r.2) (r.3)

    abbrev Becomes : Bool → World → Type 0
    Becomes op w =
        (is_chan_op (w.channel m.channel) u ≡ op)
        × (is_voiced (w.channel m.channel) u ≡ is_voiced (chptr m s) u)

    abbrev AfterBecomes : Bool → State → Type 0
    AfterBecomes op t = Becomes op t.world

    HasStanding-Becomes :
        (to : Rank) (op : Bool) {w : World}
        → w ≡ moved to s.world
        → is_op_rank to ≡ op
        → is_voice_rank to ≡ is_voiced (chptr m s) u
        → Becomes op w
    unfolding HasStanding
    HasStanding-Becomes to op e hop hv =
        let (a, b) = moved-HasStanding to in subst (Becomes op) (sym e) (a ∙ hop, b ∙ hv)

    op_member_adds :
        (c : ℕ) (opnick : List ℕ)
        → ((source_p m s).is_mine && over_limit s) ≡ false
        → Becomes true (op_member m mode_add c opnick u s).world
    unfolding op_member change_op held_by chptr
    op_member_adds c opnick room =
        let t = held_by m u s in
        let mine = (source_p m s).is_mine in
        let s' = if mine then count_mode s else s in
        let B = AfterBecomes true in
        if_elim B t.t_op (λ y. (y, refl))
          (λ n.
            if_elim B (mine && over_limit s) (λ y. absurd (ground arith))
              (λ k.
                HasStanding-Becomes (if t.t_voice then chanop_voiced else chanop) true
                  (give_op-world c opnick t s' ∙ ap (moved _) (counted-world mine s))
                  (adds_op t.t_voice) (adds_voice t.t_voice)))

    op_member_takes :
        (c : ℕ) (opnick : List ℕ)
        → ((source_p m s).is_mine && over_limit s) ≡ false
        → Becomes false (op_member m mode_del c opnick u s).world
    unfolding op_member change_op held_by chptr
    op_member_takes c opnick room =
        let t = held_by m u s in
        let mine = (source_p m s).is_mine in
        let s' = if mine then count_mode s else s in
        let B = AfterBecomes false in
        if_elim B (not t.t_op) (λ y. (flipped t.t_op y, refl))
          (λ n.
            if_elim B (mine && over_limit s) (λ y. absurd (ground arith))
              (λ k.
                HasStanding-Becomes (if not t.t_hop && t.t_voice then voice else peon) false
                  (take_op-world c opnick t s' ∙ ap (moved _) (counted-world mine s))
                  (takes_op (not t.t_hop && t.t_voice)) (ground arith)))

-- What the handlers come to for a nick that names a member of the channel
module _ (m : ModeCommand) (u c : ℕ) (opnick : List ℕ) (rest : List (List ℕ)) (s : State)
    (given : s.params ≡ opnick ∷ rest) (named : find_target m opnick ≡ some u)
    (on : is_member m u s ≡ true) where
  add-op_member :
      chm_op m chaccess_chanop mode_add c s
      ≡ op_member m mode_add c opnick u (record s { params = rest })
  unfolding chm_op op_with with_member is_member
  add-op_member = rw (given, named, on) refl

  del-op_member :
      chm_op m chaccess_chanop mode_del c s
      ≡ op_member m mode_del c opnick u (record s { params = rest })
  unfolding chm_op op_with with_member is_member
  del-op_member = rw (given, named, on) refl

  -- The operator's +o and -o of a member of the channel, where the lists agree and, for a client of
  -- this server, at most four modes with a parameter have been counted before: chm_op makes the
  -- member an operator, or no operator, and the member has a voice exactly if it had one.
  pub chm_op_lem :
      IsConsistent s.world
      → ((source_p m s).is_mine && over_limit s) ≡ false
      → let gets = chptr m (chm_op m chaccess_chanop mode_add c s) in
        let loses = chptr m (chm_op m chaccess_chanop mode_del c s) in
        ((is_chan_op gets u ≡ true) × (is_voiced gets u ≡ is_voiced (chptr m s) u))
        × ((is_chan_op loses u ≡ false) × (is_voiced loses u ≡ is_voiced (chptr m s) u))
  unfolding chptr source_p over_limit is_member
  chm_op_lem ok room =
      let s' = record s { params = rest } in
      let B = λ (op : Bool) (t : State). Becomes m u s' ok on op t.world in
      (
        subst (B true) (sym add-op_member) (op_member_adds m u s' ok on c opnick room),
        subst (B false) (sym del-op_member) (op_member_takes m u s' ok on c opnick room),
      )
