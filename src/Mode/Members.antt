-- ===== src/Mode/Members.antt =====
-- src/channel_mode.c: chm_op, chm_halfop and chm_voice, and the lists of members.
use ircd_hybrid_8_cvs.Common.{
  ℕ, ◌≡◌, subst, Bool, true, false, ◌&&◌, ◌||◌, not, List, some, arith, if_elim,
}
use ircd_hybrid_8_cvs.Channel.Members.{has, Rank, peon, halfop, Channel, World, set_channel}
use ircd_hybrid_8_cvs.Channel.Access.{has_mode}
use ircd_hybrid_8_cvs.Channel.Lists.{occurs, has-occurs}
use ircd_hybrid_8_cvs.Channel.Consistent.{IsConsistent, SameSeats}
use ircd_hybrid_8_cvs.Channel.Promote.{change_channel_membership-IsConsistent}
use ircd_hybrid_8_cvs.Mode.State.{
  Dir, mode_query, mode_add, mode_del, mode_hideops, Change, Resync, ModeCommand, State, chptr,
}
use ircd_hybrid_8_cvs.Mode.Ranks.{
  is_member, Target, held_by, held_for_halfop, was_noted, add_plus, add_minus, move_to,
  forget_resync, settle_resync, drop_resync, add_resync, change_resync, give_op, take_op, change_op,
  cancel_op, give_halfop, take_halfop, change_halfop, cancel_halfop, give_voice, take_voice,
  change_voice, cancel_voice, voice_member,
}
use ircd_hybrid_8_cvs.Mode.SetMode.{get_channel_access, start_state, set_channel_mode}
use ircd_hybrid_8_cvs.Mode.Loop.{loop-keeps}
use ircd_hybrid_8_cvs.Mode.Handled.{After, KeepsAll, handler-keeps}
use ircd_hybrid_8_cvs.Mode.Seats.{
  flip_bit-Holds, flip_hideops-Holds, change_limit-Holds, change_key-Holds, add_mask-Holds,
  del_mask-Holds,
}

-- A channel whose lists of members and counters stay the same
set_channel-IsConsistent :
    (w : World) (c : ℕ) (ch : Channel)
    → SameSeats ch (w.channel c)
    → IsConsistent w
    → IsConsistent (set_channel w c ch)
unfolding set_channel
set_channel-IsConsistent w c ch same ok = record {
  linked = λ d x. ground (arith, same.0, ok.linked d x);
  once = ok.once;
  near = λ d x. ground (arith, same.1, ok.near d x);
  users = λ d. ground (arith, same.0, same.2, ok.users d);
  locusers = λ d. ground (arith, same.1, same.3, ok.locusers d);
  joined = ok.joined;
}

abbrev Agrees : State → Type 0
Agrees s = IsConsistent s.world

module _ (m : ModeCommand) (u : ℕ) where
  -- The lists agree, and the client is on the channel.
  abbrev IsReady : State → Type 0
  IsReady s = Agrees s × (is_member m u s ≡ true)

  pub member-occurs : (s : State) → IsReady s → occurs m.channel (s.world.client u).channels ≡ 1
  unfolding is_member
  member-occurs s (ok, on) =
      let here : has m.channel (s.world.client u).channels ≡ true = ground arith in
      omega (arith, has-occurs m.channel (s.world.client u).channels here, ok.once m.channel u)

  move_to-Agrees : (to : Rank) (s : State) → IsReady s → Agrees (move_to m to u s)
  unfolding move_to
  move_to-Agrees to s h =
      (change_channel_membership-IsConsistent s.world m.channel u to h.0 (member-occurs s h)).0

  add_plus-IsReady : (b : Bool) (x : Change) (s : State) → IsReady s → IsReady (add_plus b x s)
  unfolding add_plus is_member
  add_plus-IsReady true x s h = h
  add_plus-IsReady false x s h = h

  add_plus-Agrees : (b : Bool) (x : Change) (s : State) → Agrees s → Agrees (add_plus b x s)
  unfolding add_plus
  add_plus-Agrees true x s h = h
  add_plus-Agrees false x s h = h

  add_minus-IsReady : (b : Bool) (x : Change) (s : State) → IsReady s → IsReady (add_minus b x s)
  unfolding add_minus is_member
  add_minus-IsReady true x s h = h
  add_minus-IsReady false x s h = h

  add_minus-Agrees : (b : Bool) (x : Change) (s : State) → Agrees s → Agrees (add_minus b x s)
  unfolding add_minus
  add_minus-Agrees true x s h = h
  add_minus-Agrees false x s h = h

  -- The ends of the branches, which note what is to be resynced
  resync-Agrees :
      (f : Resync → Resync) (b : Bool) (dir : Dir) (c : ℕ) (sync send : Bool) (s : State)
      → Agrees s
      → Agrees (add_resync m b dir c sync send u (change_resync u f s))
  unfolding add_resync change_resync chptr has_mode
  resync-Agrees f b dir c sync send s h =
      if_elim Agrees (b && (s.world.client u).is_mine && has_mode (chptr m s) mode_hideops) (λ y. h)
        (λ n. h)

  give_op-Agrees :
      (c : ℕ) (opnick : List ℕ) (t : Target) (s : State)
      → IsReady s
      → Agrees (give_op m c opnick u t s)
  unfolding give_op cancel_op is_member
  give_op-Agrees c opnick t s h =
      resync-Agrees (settle_resync mode_add c true) _ mode_add c _ false _
        (add_plus-Agrees _ _ _ (move_to-Agrees _ _ (add_minus-IsReady _ _ (cancel_op opnick s) h)))

  take_op-Agrees :
      (c : ℕ) (opnick : List ℕ) (t : Target) (s : State)
      → IsReady s
      → Agrees (take_op m c opnick u t s)
  unfolding take_op cancel_op is_member
  take_op-Agrees c opnick t s h =
      resync-Agrees forget_resync _ mode_del _ true true _
        (move_to-Agrees _ _ (add_minus-IsReady _ _ (cancel_op opnick s) h))

  change_op-Agrees :
      (dir : Dir) (c : ℕ) (opnick : List ℕ) (t : Target) (s : State)
      → IsReady s
      → Agrees (change_op m dir c opnick u t s)
  unfolding change_op
  change_op-Agrees mode_query c opnick t s h = h.0
  change_op-Agrees mode_add c opnick t s h = give_op-Agrees c opnick t s h
  change_op-Agrees mode_del c opnick t s h = take_op-Agrees c opnick t s h

  give_halfop-Agrees :
      (c : ℕ) (opnick : List ℕ) (t : Target) (s : State)
      → IsReady s
      → Agrees (give_halfop m c opnick u t s)
  unfolding give_halfop cancel_halfop is_member
  give_halfop-Agrees c opnick t s h =
      let s3 = add_plus-IsReady _ _ _ (add_minus-IsReady _ _ (cancel_halfop opnick s) h) in
      resync-Agrees (settle_resync mode_add c false) _ mode_add c _ false _ (
        if_elim Agrees (was_noted b'h' opnick s.minus) (λ y. s3.0)
          (λ n. move_to-Agrees halfop _ s3))

  take_halfop-Agrees :
      (c : ℕ) (opnick : List ℕ) (s : State) → IsReady s → Agrees (take_halfop m c opnick u s)
  unfolding take_halfop cancel_halfop is_member
  take_halfop-Agrees c opnick s h =
      resync-Agrees forget_resync _ mode_del c true true _
        (move_to-Agrees peon _ (add_minus-IsReady _ _ (cancel_halfop opnick s) h))

  change_halfop-Agrees :
      (dir : Dir) (c : ℕ) (opnick : List ℕ) (t : Target) (s : State)
      → IsReady s
      → Agrees (change_halfop m dir c opnick u t s)
  unfolding change_halfop
  change_halfop-Agrees mode_query c opnick t s h = h.0
  change_halfop-Agrees mode_add c opnick t s h =
      if_elim Agrees (t.t_hop || t.t_op) (λ y. h.0) (λ n. give_halfop-Agrees c opnick t s h)
  change_halfop-Agrees mode_del c opnick t s h =
      if_elim Agrees t.t_hop (λ y. take_halfop-Agrees c opnick s h) (λ n. h.0)

  give_voice-Agrees :
      (c : ℕ) (opnick : List ℕ) (t : Target) (s : State)
      → IsReady s
      → Agrees (give_voice m c opnick u t s)
  unfolding give_voice cancel_voice is_member
  give_voice-Agrees c opnick t s h =
      resync-Agrees (drop_resync mode_add c) _ mode_add c false true _
        (add_plus-Agrees _ _ _ (move_to-Agrees _ (cancel_voice opnick s) h))

  take_voice-Agrees :
      (c : ℕ) (opnick : List ℕ) (t : Target) (s : State)
      → IsReady s
      → Agrees (take_voice m c opnick u t s)
  unfolding take_voice cancel_voice is_member
  take_voice-Agrees c opnick t s h =
      resync-Agrees forget_resync _ mode_del c false true _
        (add_minus-Agrees _ _ _ (move_to-Agrees _ (cancel_voice opnick s) h))

  change_voice-Agrees :
      (dir : Dir) (c : ℕ) (opnick : List ℕ) (t : Target) (s : State)
      → IsReady s
      → Agrees (change_voice m dir c opnick u t s)
  unfolding change_voice
  change_voice-Agrees mode_query c opnick t s h = h.0
  change_voice-Agrees mode_add c opnick t s h =
      if_elim Agrees (t.t_hop || t.t_voice) (λ y. h.0) (λ n. give_voice-Agrees c opnick t s h)
  change_voice-Agrees mode_del c opnick t s h =
      if_elim Agrees (t.t_hop || not t.t_voice) (λ y. h.0) (λ n. take_voice-Agrees c opnick t s h)

  voice_member-Agrees :
      (dir : Dir) (c : ℕ) (opnick : List ℕ) (s : State)
      → IsReady s
      → Agrees (voice_member m dir c opnick u s)
  unfolding voice_member
  voice_member-Agrees dir c opnick s h = change_voice-Agrees dir c opnick (held_by m u s) s h

agreement_kept : (m : ModeCommand) (alev : ℕ) → KeepsAll m alev Agrees Agrees
agreement_kept m alev = record {
  stable = λ s e l sent pos limit h. h;
  idle = λ s h. h;
  bits = flip_bit-Holds IsConsistent set_channel-IsConsistent m;
  hideops = flip_hideops-Holds IsConsistent set_channel-IsConsistent m;
  limit = change_limit-Holds IsConsistent set_channel-IsConsistent m;
  key = change_key-Holds IsConsistent set_channel-IsConsistent m;
  added = add_mask-Holds IsConsistent set_channel-IsConsistent m;
  deleted = del_mask-Holds IsConsistent set_channel-IsConsistent m;
  op = λ allowed dir c opnick u t s on h. change_op-Agrees m u dir c opnick t s (h, on);
  halfop = λ dir c opnick u s on h.
      change_halfop-Agrees m u dir c opnick (held_for_halfop m u s) s (h, on);
  voice = λ dir c opnick u s on h. voice_member-Agrees m u dir c opnick s (h, on);
}

-- Where the lists of channels and clients agree, they agree after any MODE command that ends: the
-- clients that it gives or takes a standing are on the channel once, on one list of it, and the
-- counters are the lengths of the lists.
pub set_channel_mode-IsConsistent :
    (strtoul : List ℕ → ℕ) (m : ModeCommand) (w : World) (ml : List ℕ) (params : List (List ℕ))
    (s : State)
    → IsConsistent w
    → set_channel_mode strtoul m w ml params ≡ some s
    → IsConsistent s.world
unfolding set_channel_mode start_state
set_channel_mode-IsConsistent strtoul m w ml params s ok e =
    let r =
      loop-keeps strtoul m (get_channel_access m w) (λ n. After Agrees) (λ n k x. tt) (λ n s x. x)
        (λ h n c dir s x.
          handler-keeps m (get_channel_access m w) Agrees Agrees
            (agreement_kept m (get_channel_access m w)) strtoul h c dir s x)
        ml mode_add (some (start_state w params)) 0 ok in
    subst (After Agrees) e r
