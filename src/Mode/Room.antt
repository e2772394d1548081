-- ===== src/Mode/Room.antt =====
-- src/channel_mode.c: the arrays of changes of set_channel_mode and the length of its mode letters.
use ircd_hybrid_8_cvs.Common.{
  ℕ, suc, ◌+◌, ◌≡◌, refl, subst, Bool, true, false, ◌&&◌, ◌||◌, not, List, [], ◌∷◌, length, Option,
  none, some, arith, if_elim,
}
use ircd_hybrid_8_cvs.Channel.Members.{Channel, World, peon}
use ircd_hybrid_8_cvs.Channel.Access.{has_mode}
use ircd_hybrid_8_cvs.Channel.Bans.{MaskKind}
use ircd_hybrid_8_cvs.Mode.State.{
  Dir, mode_query, mode_add, mode_del, mode_hideops, Change, Resync, ModeCommand, State, chptr,
  set_chptr, cancel_all,
}
use ircd_hybrid_8_cvs.Mode.Masks.{note_added, add_mask, note_deleted, del_raw, del_pretty, del_mask}
use ircd_hybrid_8_cvs.Mode.Ranks.{
  Target, held_by, held_for_halfop, is_for, is_either, is_any, was_noted, add_plus, add_minus,
  move_to, on_resync, forget_resync, add_resync, change_resync, cancel_op, give_op, take_op,
  change_op, cancel_halfop, give_halfop, take_halfop, change_halfop, cancel_voice, give_voice,
  take_voice, change_voice, voice_member,
}
use ircd_hybrid_8_cvs.Mode.SetMode.{get_channel_access, start_state, set_channel_mode}
use ircd_hybrid_8_cvs.Mode.Loop.{loop-keeps}
use ircd_hybrid_8_cvs.Mode.Handled.{After, KeepsAll, handler-keeps}
use ircd_hybrid_8_cvs.Mode.Counts.{
  AtMost, AtMostEach, more, one_more, length-cancel_all, plus-snoc, minus-snoc, resync-snoc,
  noted_plus, noted_minus, flip_bit-AtMost, flip_hideops-AtMost, change_limit-AtMost,
  change_key-AtMost,
}

length-on_resync :
    (u : ℕ) (f : Resync → Resync) (l : List Resync) → length (on_resync u f l) ≡ length l
unfolding on_resync
length-on_resync u f [] = refl
length-on_resync u f (r ∷ l) = omega (arith, length-on_resync u f l)

module _ {p q r : ℕ} where
  add_plus-AtMost :
      (b : Bool) (x : Change) (s : State) → AtMost p q r s → AtMost (suc p) q r (add_plus b x s)
  unfolding add_plus
  add_plus-AtMost true x s h = (plus-snoc x s h, h.1, h.2)
  add_plus-AtMost false x s h = more s (omega arith) (omega arith) (omega arith) h

  add_minus-AtMost :
      (b : Bool) (x : Change) (s : State) → AtMost p q r s → AtMost p (suc q) r (add_minus b x s)
  unfolding add_minus
  add_minus-AtMost true x s h = (h.0, minus-snoc x s h, h.2)
  add_minus-AtMost false x s h = more s (omega arith) (omega arith) (omega arith) h

  change_resync-AtMost :
      (u : ℕ) (f : Resync → Resync) (s : State)
      → AtMost p q r s
      → AtMost p q r (change_resync u f s)
  unfolding change_resync
  change_resync-AtMost u f s h = (h.0, h.1, omega (arith, h.2, length-on_resync u f s.resync))

  add_resync-AtMost :
      (m : ModeCommand) (b : Bool) (dir : Dir) (c : ℕ) (sync send : Bool) (u : ℕ) (s : State)
      → AtMost p q r s
      → AtMost p q (suc r) (add_resync m b dir c sync send u s)
  unfolding add_resync
  add_resync-AtMost m b dir c sync send u s h =
      if_elim (AtMost p q (suc r))
        (b && (s.world.client u).is_mine && has_mode (chptr m s) mode_hideops)
        (λ y. (h.0, h.1, resync-snoc _ s h))
        (λ n. more s (omega arith) (omega arith) (omega arith) h)

  cancelled :
      (f g : Change → Bool) (s : State)
      → AtMost p q r s
      → AtMost p q r (record s { plus = cancel_all f s.plus; minus = cancel_all g s.minus })
  cancelled f g s h = (
    omega (arith, h.0, length-cancel_all f s.plus),
    omega (arith, h.1, length-cancel_all g s.minus),
    h.2,
  )

module _ {n : ℕ} (m : ModeCommand) where
  give_op-AtMost :
      (c : ℕ) (opnick : List ℕ) (u : ℕ) (t : Target) (s : State)
      → AtMostEach n s
      → AtMostEach (suc n) (give_op m c opnick u t s)
  unfolding give_op cancel_op move_to
  give_op-AtMost c opnick u t s h =
      let h1 = cancelled (is_either b'o' b'h' opnick) (is_for b'o' opnick) s h in
      let h2 = add_minus-AtMost _ _ _ h1 in
      let h4 = add_plus-AtMost _ _ (move_to m _ u _) h2 in
      add_resync-AtMost m _ mode_add c _ false u _ (change_resync-AtMost u _ _ h4)

  take_op-AtMost :
      (c : ℕ) (opnick : List ℕ) (u : ℕ) (t : Target) (s : State)
      → AtMostEach n s
      → AtMostEach (suc n) (take_op m c opnick u t s)
  unfolding take_op cancel_op move_to
  take_op-AtMost c opnick u t s h =
      let h1 = cancelled (is_either b'o' b'h' opnick) (is_for b'o' opnick) s h in
      let h2 = add_minus-AtMost _ _ _ h1 in
      let h5 =
        add_resync-AtMost m _ mode_del _ true true u _
          (change_resync-AtMost u forget_resync (move_to m _ u _) h2) in
      (omega (arith, h5.0), h5.1, h5.2)

  change_op-AtMost :
      (dir : Dir) (c : ℕ) (opnick : List ℕ) (u : ℕ) (t : Target) (s : State)
      → AtMostEach n s
      → AtMostEach (suc n) (change_op m dir c opnick u t s)
  unfolding change_op
  change_op-AtMost mode_query c opnick u t s h = one_more s h
  change_op-AtMost mode_add c opnick u t s h = give_op-AtMost c opnick u t s h
  change_op-AtMost mode_del c opnick u t s h = take_op-AtMost c opnick u t s h

  give_halfop-AtMost :
      (c : ℕ) (opnick : List ℕ) (u : ℕ) (t : Target) (s : State)
      → AtMostEach n s
      → AtMostEach (suc n) (give_halfop m c opnick u t s)
  unfolding give_halfop cancel_halfop move_to
  give_halfop-AtMost c opnick u t s h =
      let h1 = cancelled (is_any opnick) (is_either b'h' b'v' opnick) s h in
      let h2 = add_minus-AtMost _ _ _ h1 in
      let h3 = add_plus-AtMost _ _ _ h2 in
      let h4 =
        if_elim (AtMost (suc n) (suc n) n) (was_noted b'h' opnick s.minus) (λ y. h3) (λ k. h3) in
      add_resync-AtMost m _ mode_add c _ false u _ (change_resync-AtMost u _ _ h4)

  take_halfop-AtMost :
      (c : ℕ) (opnick : List ℕ) (u : ℕ) (s : State)
      → AtMostEach n s
      → AtMostEach (suc n) (take_halfop m c opnick u s)
  unfolding take_halfop cancel_halfop move_to
  take_halfop-AtMost c opnick u s h =
      let h1 = cancelled (is_any opnick) (is_either b'h' b'v' opnick) s h in
      let h2 = add_minus-AtMost _ _ _ h1 in
      let h5 =
        add_resync-AtMost m _ mode_del c true true u _
          (change_resync-AtMost u forget_resync (move_to m peon u _) h2) in
      (omega (arith, h5.0), h5.1, h5.2)

  change_halfop-AtMost :
      (dir : Dir) (c : ℕ) (opnick : List ℕ) (u : ℕ) (t : Target) (s : State)
      → AtMostEach n s
      → AtMostEach (suc n) (change_halfop m dir c opnick u t s)
  unfolding change_halfop
  change_halfop-AtMost mode_query c opnick u t s h = one_more s h
  change_halfop-AtMost mode_add c opnick u t s h =
      if_elim (AtMostEach (suc n)) (t.t_hop || t.t_op) (λ y. one_more s h)
        (λ k. give_halfop-AtMost c opnick u t s h)
  change_halfop-AtMost mode_del c opnick u t s h =
      if_elim (AtMostEach (suc n)) t.t_hop (λ y. take_halfop-AtMost c opnick u s h)
        (λ k. one_more s h)

  give_voice-AtMost :
      (c : ℕ) (opnick : List ℕ) (u : ℕ) (t : Target) (s : State)
      → AtMostEach n s
      → AtMostEach (suc n) (give_voice m c opnick u t s)
  unfolding give_voice cancel_voice move_to
  give_voice-AtMost c opnick u t s h =
      let h1 = cancelled (is_either b'h' b'v' opnick) (is_for b'v' opnick) s h in
      let h3 = add_plus-AtMost _ _ (move_to m _ u _) h1 in
      let h5 = add_resync-AtMost m _ mode_add c false true u _ (change_resync-AtMost u _ _ h3) in
      (h5.0, omega (arith, h5.1), h5.2)

  take_voice-AtMost :
      (c : ℕ) (opnick : List ℕ) (u : ℕ) (t : Target) (s : State)
      → AtMostEach n s
      → AtMostEach (suc n) (take_voice m c opnick u t s)
  unfolding take_voice cancel_voice move_to
  take_voice-AtMost c opnick u t s h =
      let h1 = cancelled (is_either b'h' b'v' opnick) (is_for b'v' opnick) s h in
      let h3 = add_minus-AtMost _ _ (move_to m _ u _) h1 in
      let h5 =
        add_resync-AtMost m _ mode_del c false true u _
          (change_resync-AtMost u forget_resync _ h3) in
      (omega (arith, h5.0), h5.1, h5.2)

  voice_member-AtMost :
      (dir : Dir) (c : ℕ) (opnick : List ℕ) (u : ℕ) (s : State)
      → AtMostEach n s
      → AtMostEach (suc n) (voice_member m dir c opnick u s)
  unfolding voice_member change_voice
  voice_member-AtMost mode_query c opnick u s h = one_more s h
  voice_member-AtMost mode_add c opnick u s h =
      let t = held_by m u s in
      if_elim (AtMostEach (suc n)) (t.t_hop || t.t_voice) (λ y. one_more s h)
        (λ k. give_voice-AtMost c opnick u t s h)
  voice_member-AtMost mode_del c opnick u s h =
      let t = held_by m u s in
      if_elim (AtMostEach (suc n)) (t.t_hop || not t.t_voice) (λ y. one_more s h)
        (λ k. take_voice-AtMost c opnick u t s h)

  -- The modes of masks
  note_added-AtMost :
      (kind : MaskKind) (c : ℕ) (mask : List ℕ) (s : State) (o : Option (Channel × Bool))
      → AtMostEach n s
      → After (AtMostEach (suc n)) (note_added m kind c mask s o)
  unfolding note_added set_chptr
  note_added-AtMost kind c mask s none h = tt
  note_added-AtMost kind c mask s (some (ch, false)) h = one_more s h
  note_added-AtMost kind c mask s (some (ch, true)) h = noted_plus _ _ (set_chptr m s ch) h

  del_raw-AtMost :
      (kind : MaskKind) (c : ℕ) (raw : List ℕ) (s : State) (r : Channel × Bool)
      → AtMostEach n s
      → AtMostEach (suc n) (del_raw m kind c raw s r)
  unfolding del_raw note_deleted set_chptr
  del_raw-AtMost kind c raw s (ch, true) h = noted_minus _ _ (set_chptr m s ch) h
  del_raw-AtMost kind c raw s (ch, false) h = one_more s h

  del_pretty-AtMost :
      (kind : MaskKind) (c : ℕ) (mask raw : List ℕ) (s : State) (r : Channel × Bool)
      → AtMostEach n s
      → AtMostEach (suc n) (del_pretty m kind c mask raw s r)
  unfolding del_pretty note_deleted set_chptr
  del_pretty-AtMost kind c mask raw s (ch, true) h = noted_minus _ _ (set_chptr m s ch) h
  del_pretty-AtMost kind c mask raw s (ch, false) h = del_raw-AtMost kind c raw s _ h

  add_mask-AtMost :
      (kind : MaskKind) (c : ℕ) (mask : List ℕ) (s : State)
      → AtMostEach n s
      → After (AtMostEach (suc n)) (add_mask m kind c (some mask) s)
  unfolding add_mask
  add_mask-AtMost kind c mask s h = note_added-AtMost kind c mask s _ h

  del_mask-AtMost :
      (kind : MaskKind) (c : ℕ) (o : Option (List ℕ)) (raw : List ℕ) (s : State)
      → AtMostEach n s
      → AtMostEach (suc n) (del_mask m kind c o raw s)
  unfolding del_mask
  del_mask-AtMost kind c none raw s h = del_raw-AtMost kind c raw s _ h
  del_mask-AtMost kind c (some mask) raw s h = del_pretty-AtMost kind c mask raw s _ h

  room_kept : (alev : ℕ) → KeepsAll m alev (AtMostEach n) (AtMostEach (suc n))
  room_kept alev = record {
    stable = λ s e l sent pos limit h. h;
    idle = one_more;
    bits = flip_bit-AtMost m;
    hideops = flip_hideops-AtMost m;
    limit = change_limit-AtMost m;
    key = change_key-AtMost m;
    added = add_mask-AtMost;
    deleted = del_mask-AtMost;
    op = λ allowed dir c opnick u t s on h. change_op-AtMost dir c opnick u t s h;
    halfop =
        λ dir c opnick u s on h. change_halfop-AtMost dir c opnick u (held_for_halfop m u s) s h;
    voice = λ dir c opnick u s on h. voice_member-AtMost dir c opnick u s h;
  }

-- A MODE command never notes more changes of either direction, nor more entries to resync, than it
-- has letters and signs: the arrays of BUFSIZE entries hold what a line can bring.
pub set_channel_mode_room :
    (strtoul : List ℕ → ℕ) (m : ModeCommand) (w : World) (ml : List ℕ) (params : List (List ℕ))
    (s : State)
    → set_channel_mode strtoul m w ml params ≡ some s
    → AtMostEach (length ml) s
unfolding set_channel_mode start_state
set_channel_mode_room strtoul m w ml params s e =
    let r =
      loop-keeps strtoul m (get_channel_access m w) (λ n. After (AtMostEach n)) (λ n k x. tt)
        (λ n s x. one_more s x)
        (λ h n c dir s x.
          handler-keeps m (get_channel_access m w) (AtMostEach n) (AtMostEach (suc n))
            (room_kept m (get_channel_access m w)) strtoul h c dir s x)
        ml mode_add (some (start_state w params)) 0 (omega arith, omega arith, omega arith) in
    let h : After (AtMostEach (length ml + 0)) (some s) =
      subst (After (AtMostEach (length ml + 0))) e r in
    (omega (arith, h.0), omega (arith, h.1), omega (arith, h.2))
