-- ===== src/Mode/Halfops.antt =====
-- src/channel_mode.c: the operators of a channel and the MODE commands of other clients of this server.
use ircd_hybrid_8_cvs.Common.{
  ℕ, ◌≡◌, refl, sym, subst, ◌∙◌, Bool, true, false, ◌&&◌, ◌||◌, not, List, some, arith, if_elim,
  if◌then◌else◌, ltb,
}
use ircd_hybrid_8_cvs.Channel.Members.{
  Rank, peon, voice, chanop, halfop, chanop_voiced, Channel, World, set_channel,
}
use ircd_hybrid_8_cvs.Channel.Leave.{is_chan_op}
use ircd_hybrid_8_cvs.Channel.Access.{has_mode}
use ircd_hybrid_8_cvs.Channel.Consistent.{SameSeats}
use ircd_hybrid_8_cvs.Mode.State.{
  Dir, mode_query, mode_add, mode_del, mode_hideops, chaccess_chanop, Change, Resync, ModeCommand,
  State, chptr,
}
use ircd_hybrid_8_cvs.Mode.Ranks.{
  Target, held_by, held_for_halfop, was_noted, add_plus, add_minus, move_to, forget_resync,
  settle_resync, drop_resync, add_resync, change_resync, give_halfop, take_halfop, change_halfop,
  cancel_halfop, give_voice, take_voice, change_voice, cancel_voice, voice_member,
}
use ircd_hybrid_8_cvs.Mode.SetMode.{get_channel_access, start_state, set_channel_mode}
use ircd_hybrid_8_cvs.Mode.Loop.{loop-keeps}
use ircd_hybrid_8_cvs.Mode.Handled.{After, KeepsAll, handler-keeps}
use ircd_hybrid_8_cvs.Mode.Seats.{
  flip_bit-Holds, flip_hideops-Holds, change_limit-Holds, change_key-Holds, add_mask-Holds,
  del_mask-Holds,
}
use ircd_hybrid_8_cvs.Mode.Operators.{is_op_rank, change_channel_membership-is_chan_op}

-- The operators of the channel are those that were.
abbrev HasOps : ℕ → (ℕ → Bool) → World → Type 0
HasOps c was w = (v : ℕ) → is_chan_op (w.channel c) v ≡ was v

set_channel-HasOps :
    (k : ℕ) (was : ℕ → Bool) (w : World) (c : ℕ) (ch : Channel)
    → SameSeats ch (w.channel c)
    → HasOps k was w
    → HasOps k was (set_channel w c ch)
unfolding set_channel is_chan_op
set_channel-HasOps k was w c ch same h = λ v. ground (arith, h v, same)

module _ (m : ModeCommand) (was : ℕ → Bool) (u : ℕ) where
  abbrev KeepsOps : State → Type 0
  KeepsOps s = HasOps m.channel was s.world

  -- The client may go to the list: it is an operator exactly if the list is one of operators.
  abbrev IsReady : Rank → State → Type 0
  IsReady to s = KeepsOps s × (is_chan_op (s.world.channel m.channel) u ≡ is_op_rank to)

  move_to-KeepsOps : (to : Rank) (s : State) → IsReady to s → KeepsOps (move_to m to u s)
  unfolding move_to
  move_to-KeepsOps to s h =
      λ v. change_channel_membership-is_chan_op s.world m.channel u to h.1 v ∙ h.0 v

  add_plus-IsReady :
      (to : Rank) (b : Bool) (x : Change) (s : State) → IsReady to s → IsReady to (add_plus b x s)
  unfolding add_plus
  add_plus-IsReady to true x s h = h
  add_plus-IsReady to false x s h = h

  add_minus-IsReady :
      (to : Rank) (b : Bool) (x : Change) (s : State) → IsReady to s → IsReady to (add_minus b x s)
  unfolding add_minus
  add_minus-IsReady to true x s h = h
  add_minus-IsReady to false x s h = h

  add_plus-KeepsOps : (b : Bool) (x : Change) (s : State) → KeepsOps s → KeepsOps (add_plus b x s)
  unfolding add_plus
  add_plus-KeepsOps true x s h = h
  add_plus-KeepsOps false x s h = h

  add_minus-KeepsOps : (b : Bool) (x : Change) (s : State) → KeepsOps s → KeepsOps (add_minus b x s)
  unfolding add_minus
  add_minus-KeepsOps true x s h = h
  add_minus-KeepsOps false x s h = h

  resync-KeepsOps :
      (f : Resync → Resync) (b : Bool) (dir : Dir) (c : ℕ) (sync send : Bool) (s : State)
      → KeepsOps s
      → KeepsOps (add_resync m b dir c sync send u (change_resync u f s))
  unfolding add_resync change_resync chptr has_mode
  resync-KeepsOps f b dir c sync send s h =
      if_elim KeepsOps (b && (s.world.client u).is_mine && has_mode (chptr m s) mode_hideops)
        (λ y. h) (λ n. h)

  give_halfop-KeepsOps :
      (c : ℕ) (opnick : List ℕ) (t : Target) (s : State)
      → IsReady halfop s
      → KeepsOps (give_halfop m c opnick u t s)
  unfolding give_halfop cancel_halfop
  give_halfop-KeepsOps c opnick t s h =
      let s3 =
        add_plus-IsReady halfop _ _ _ (add_minus-IsReady halfop _ _ (cancel_halfop opnick s) h) in
      resync-KeepsOps (settle_resync mode_add c false) _ mode_add c _ false _ (
        if_elim KeepsOps (was_noted b'h' opnick s.minus) (λ y. s3.0)
          (λ n. move_to-KeepsOps halfop _ s3))

  take_halfop-KeepsOps :
      (c : ℕ) (opnick : List ℕ) (s : State) → IsReady peon s → KeepsOps (take_halfop m c opnick u s)
  unfolding take_halfop cancel_halfop
  take_halfop-KeepsOps c opnick s h =
      resync-KeepsOps forget_resync _ mode_del c true true _
        (move_to-KeepsOps peon _ (add_minus-IsReady peon _ _ (cancel_halfop opnick s) h))

  change_halfop-KeepsOps :
      (dir : Dir) (c : ℕ) (opnick : List ℕ) (s : State)
      → KeepsOps s
      → KeepsOps (change_halfop m dir c opnick u (held_for_halfop m u s) s)
  unfolding change_halfop held_for_halfop chptr
  change_halfop-KeepsOps mode_query c opnick s h = h
  change_halfop-KeepsOps mode_add c opnick s h =
      let t = held_for_halfop m u s in
      if_elim KeepsOps (t.t_hop || t.t_op) (λ y. h)
        (λ n. give_halfop-KeepsOps c opnick t s (h, ground arith))
  change_halfop-KeepsOps mode_del c opnick s h =
      if_elim KeepsOps ((held_for_halfop m u s).t_hop)
        (λ y. take_halfop-KeepsOps c opnick s (h, ground arith)) (λ n. h)

  -- The list that chm_voice takes for an operator is one of operators.
  voice_rank :
      (b : Bool) (x y : Rank)
      → is_op_rank x ≡ true
      → is_op_rank y ≡ false
      → b ≡ is_op_rank (if b then x else y)
  voice_rank true x y hx hy = sym hx
  voice_rank false x y hx hy = sym hy

  voice_member-KeepsOps :
      (dir : Dir) (c : ℕ) (opnick : List ℕ) (s : State)
      → KeepsOps s
      → KeepsOps (voice_member m dir c opnick u s)
  unfolding voice_member change_voice held_by chptr give_voice take_voice cancel_voice
  voice_member-KeepsOps mode_query c opnick s h = h
  voice_member-KeepsOps mode_add c opnick s h =
      let t = held_by m u s in
      if_elim KeepsOps (t.t_hop || t.t_voice) (λ y. h)
        (λ n. resync-KeepsOps (drop_resync mode_add c) _ mode_add c false true _ (
          add_plus-KeepsOps _ _ _ (
            move_to-KeepsOps _ (cancel_voice opnick s)
              (h, voice_rank t.t_op chanop_voiced voice refl refl))))
  voice_member-KeepsOps mode_del c opnick s h =
      let t = held_by m u s in
      if_elim KeepsOps (t.t_hop || not t.t_voice) (λ y. h)
        (λ n. resync-KeepsOps forget_resync _ mode_del c false true _ (
          add_minus-KeepsOps _ _ _ (
            move_to-KeepsOps _ (cancel_voice opnick s)
              (h, voice_rank t.t_op chanop peon refl refl))))

-- Below the access of an operator, every handler keeps the operators.
operators_kept :
    (m : ModeCommand) (alev : ℕ) (was : ℕ → Bool)
    → ltb alev chaccess_chanop ≡ true
    → KeepsAll m alev (KeepsOps m was 0) (KeepsOps m was 0)
operators_kept m alev was below =
    let touched = set_channel-HasOps m.channel was in
    let P = HasOps m.channel was in
    record {
      stable = λ s e l sent pos limit h. h;
      idle = λ s h. h;
      bits = flip_bit-Holds P touched m;
      hideops = flip_hideops-Holds P touched m;
      limit = change_limit-Holds P touched m;
      key = change_key-Holds P touched m;
      added = add_mask-Holds P touched m;
      deleted = del_mask-Holds P touched m;
      op = λ allowed dir c opnick u t s on h. absurd (ground arith);
      halfop = λ dir c opnick u s on h. change_halfop-KeepsOps m was u dir c opnick s h;
      voice = λ dir c opnick u s on h. voice_member-KeepsOps m was u dir c opnick s h;
    }

-- A client of this server that is no operator of the channel, be it a halfop or not, cannot make
-- anyone an operator of the channel or take that from anyone, by any MODE command that ends:
-- is_chan_op says of every client what it said before.
pub set_channel_mode_halfop :
    (strtoul : List ℕ → ℕ) (m : ModeCommand) (w : World) (ml : List ℕ) (params : List (List ℕ))
    (s : State)
    → (w.client m.source).is_mine ≡ true
    → is_chan_op (w.channel m.channel) m.source ≡ false
    → set_channel_mode strtoul m w ml params ≡ some s
    → (v : ℕ) → is_chan_op (s.world.channel m.channel) v ≡ is_chan_op (w.channel m.channel) v
unfolding set_channel_mode start_state get_channel_access
set_channel_mode_halfop strtoul m w ml params s mine no_op e =
    let alev = get_channel_access m w in
    let below : ltb alev chaccess_chanop ≡ true = ground arith in
    let was = is_chan_op (w.channel m.channel) in
    let P = KeepsOps m was 0 in
    let r =
      loop-keeps strtoul m alev (λ n. After P) (λ n k x. tt) (λ n s x. x)
        (λ h n c dir s x.
          handler-keeps m alev P P (operators_kept m alev was below) strtoul h c dir s x)
        ml mode_add (some (start_state w params)) 0 (λ v. refl) in
    subst (After P) e r
