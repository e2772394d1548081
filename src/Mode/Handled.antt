-- ===== src/Mode/Handled.antt =====
-- src/channel_mode.c: what the branches of the handlers keep, set_channel_mode keeps.
use ircd_hybrid_8_cvs.Common.{
  ℕ, ◌+◌, ◌≡◌, Bool, true, false, ◌&&◌, List, [], ◌∷◌, Option, none, some, if_elim, ltb,
  if◌then◌else◌,
}
use ircd_hybrid_8_cvs.Channel.Bans.{MaskKind, ban, exception, invex, pretty_mask}
use ircd_hybrid_8_cvs.Mode.State.{
  Dir, mode_query, mode_add, mode_del, chaccess_halfop, chaccess_chanop, Reply, Errors,
  chanop_privs_needed, no_such_nick, user_not_in_channel, ModeCommand, State, source_p, refuse,
  not_on_channel, reply_once,
}
use ircd_hybrid_8_cvs.Mode.Simple.{
  chm_nosuch, flip_bit, chm_simple, flip_hideops, chm_hideops, change_limit, chm_limit, change_key,
  chm_key,
}
use ircd_hybrid_8_cvs.Mode.Masks.{
  over_limit, count_mode, add_mask, del_mask, move_mask_pos, take_mask, change_mask, use_mask,
  is_query, list_bans, list_excepts, list_invexes, ban_with, chm_ban, except_with, chm_except,
  invex_with, chm_invex,
}
use ircd_hybrid_8_cvs.Mode.Ranks.{
  find_target, is_member, Target, held_by, held_for_halfop, change_op, is_idle, op_member,
  with_member, op_with, chm_op, change_halfop, halfop_target, halfop_nick, halfop_with, chm_halfop,
  voice_member, voice_with, chm_voice,
}
use ircd_hybrid_8_cvs.Mode.SetMode.{
  Handler, nosuch_handler, simple_handler, hideops_handler, limit_handler, key_handler, ban_handler,
  except_handler, invex_handler, op_handler, halfop_handler, voice_handler, run_handler,
}

-- A statement of the state, where the code goes on
abbrev pub After : (State → Type 0) → Option State → Type 0
After Q none = Unit
After Q (some s) = Q s

-- Each branch of a handler takes a state with P to one with Q; what is said to the client, the
-- parameters and the counts do not matter to P.
pub record KeepsAll (m : ModeCommand) (alev : ℕ) (P Q : State → Type 0) : Type 0 where
  pub stable :
      (s : State) (e : Errors) (l : List (List ℕ)) (sent : List Reply) (pos limit : ℕ)
      → P s
      → P (record s { errors = e; params = l; sent = sent; mask_pos = pos; mode_limit = limit })
  pub idle : (s : State) → P s → Q s
  pub bits : (dir : Dir) (c bit : ℕ) (s : State) → P s → Q (flip_bit m dir c bit s)
  pub hideops : (dir : Dir) (c : ℕ) (s : State) → P s → Q (flip_hideops m dir c s)
  pub limit :
      (strtoul : List ℕ → ℕ) (dir : Dir) (c : ℕ) (s : State)
      → P s
      → Q (change_limit strtoul m dir c s)
  pub key : (dir : Dir) (c : ℕ) (s : State) → P s → After Q (change_key m dir c s)
  pub added :
      (kind : MaskKind) (c : ℕ) (mask : List ℕ) (s : State)
      → P s
      → After Q (add_mask m kind c (some mask) s)
  pub deleted :
      (kind : MaskKind) (c : ℕ) (o : Option (List ℕ)) (raw : List ℕ) (s : State)
      → P s
      → Q (del_mask m kind c o raw s)
  pub op :
      ltb alev chaccess_chanop ≡ false
      → (dir : Dir) (c : ℕ) (opnick : List ℕ) (u : ℕ) (t : Target) (s : State)
      → is_member m u s ≡ true
      → P s
      → Q (change_op m dir c opnick u t s)
  pub halfop :
      (dir : Dir) (c : ℕ) (opnick : List ℕ) (u : ℕ) (s : State)
      → is_member m u s ≡ true
      → P s
      → Q (change_halfop m dir c opnick u (held_for_halfop m u s) s)
  pub voice :
      (dir : Dir) (c : ℕ) (opnick : List ℕ) (u : ℕ) (s : State)
      → is_member m u s ≡ true
      → P s
      → Q (voice_member m dir c opnick u s)

module _ (m : ModeCommand) (alev : ℕ) (P Q : State → Type 0) (K : KeepsAll m alev P Q) where
  said :
      (s : State) (e : Errors) (sent : List Reply) → P s → Q (record s { errors = e; sent = sent })
  said s e sent h =
      K.idle (record s { errors = e; sent = sent })
        (K.stable s e s.params sent s.mask_pos s.mode_limit h)

  taken : (s : State) (l : List (List ℕ)) → P s → P (record s { params = l })
  taken s l h = K.stable s s.errors l s.sent s.mask_pos s.mode_limit h

  count_mode-keeps : (s : State) → P s → P (count_mode s)
  unfolding count_mode
  count_mode-keeps s h = K.stable s s.errors s.params s.sent s.mask_pos (s.mode_limit + 1) h

  counted : (b : Bool) (s : State) → P s → P (if b then count_mode s else s)
  counted true s h = count_mode-keeps s h
  counted false s h = h

  counted-member :
      (b : Bool) (u : ℕ) (s : State)
      → is_member m u s ≡ true
      → is_member m u (if b then count_mode s else s) ≡ true
  unfolding is_member count_mode
  counted-member true u s on = on
  counted-member false u s on = on

  refuse-keeps : (s : State) → P s → Q (refuse s)
  unfolding refuse
  refuse-keeps s h =
      said s (record s.errors { noops = true })
        (reply_once s.errors.noops chanop_privs_needed s.sent) h

  not_on_channel-keeps : (r : Reply) (s : State) → P s → Q (not_on_channel r s)
  unfolding not_on_channel
  not_on_channel-keeps r s h =
      said s (record s.errors { notonchannel = true }) (reply_once s.errors.notonchannel r s.sent) h

  op_member-keeps :
      ltb alev chaccess_chanop ≡ false
      → (dir : Dir) (c : ℕ) (opnick : List ℕ) (u : ℕ) (s : State) → is_member m u s ≡ true
      → P s
      → Q (op_member m dir c opnick u s)
  unfolding op_member
  op_member-keeps ok dir c opnick u s on h =
      let mine = (source_p m s).is_mine in
      if_elim Q (is_idle dir (held_by m u s).t_op) (λ y. K.idle s h)
        (λ k.
          if_elim Q (mine && over_limit s) (λ y. K.idle (count_mode s) (count_mode-keeps s h))
            (λ j.
              K.op ok dir c opnick u (held_by m u s) (if mine then count_mode s else s)
                (counted-member mine u s on) (counted mine s h)))

  with_member-keeps :
      (opnick : List ℕ) (k : ℕ → State → State) (s : State) (o : Option ℕ)
      → P s
      → ((u : ℕ) → is_member m u s ≡ true → Q (k u s))
      → Q (with_member m opnick k s o)
  unfolding with_member
  with_member-keeps opnick k s none h hk = not_on_channel-keeps (no_such_nick opnick) s h
  with_member-keeps opnick k s (some u) h hk =
      if_elim Q (is_member m u s) (hk u)
        (λ j. not_on_channel-keeps (user_not_in_channel opnick) s h)

  op_with-keeps :
      ltb alev chaccess_chanop ≡ false
      → (dir : Dir) (c : ℕ) (l : List (List ℕ)) (s : State) → P s
      → Q (op_with m dir c l s)
  unfolding op_with
  op_with-keeps ok dir c [] s h = K.idle s h
  op_with-keeps ok mode_query c (opnick ∷ l) s h = K.idle s h
  op_with-keeps ok mode_add c (opnick ∷ l) s h =
      let s' = record s { params = l } in
      with_member-keeps opnick (op_member m mode_add c opnick) s' (find_target m opnick)
        (taken s l h) (λ u on. op_member-keeps ok mode_add c opnick u s' on (taken s l h))
  op_with-keeps ok mode_del c (opnick ∷ l) s h =
      let s' = record s { params = l } in
      with_member-keeps opnick (op_member m mode_del c opnick) s' (find_target m opnick)
        (taken s l h) (λ u on. op_member-keeps ok mode_del c opnick u s' on (taken s l h))

  halfop_target-keeps :
      (dir : Dir) (c : ℕ) (opnick : List ℕ) (s : State) (o : Option ℕ)
      → P s
      → Q (halfop_target m dir c opnick s o)
  unfolding halfop_target
  halfop_target-keeps dir c opnick s none h = not_on_channel-keeps (no_such_nick opnick) s h
  halfop_target-keeps dir c opnick s (some u) h =
      let t = held_for_halfop m u s in
      if_elim Q ((source_p m s).is_mine && t.t_op) (λ y. K.idle s h)
        (λ k.
          if_elim Q (is_member m u s) (λ on. K.halfop dir c opnick u s on h)
            (λ j. not_on_channel-keeps (user_not_in_channel opnick) s h))

  halfop_nick-keeps :
      (dir : Dir) (c : ℕ) (opnick : List ℕ) (l : List (List ℕ)) (s : State)
      → P s
      → Q (halfop_nick m alev dir c opnick l s)
  unfolding halfop_nick
  halfop_nick-keeps dir c opnick l s h =
      let counts = (source_p m s).is_mine && ltb alev chaccess_chanop in
      let s' = if counts then count_mode s else s in
      if_elim Q (counts && over_limit s) (λ y. K.idle (count_mode s) (count_mode-keeps s h))
        (λ k.
          halfop_target-keeps dir c opnick (record s' { params = l }) (find_target m opnick)
            (taken s' l (counted counts s h)))

  halfop_with-keeps :
      (dir : Dir) (c : ℕ) (l : List (List ℕ)) (s : State) → P s → Q (halfop_with m alev dir c l s)
  unfolding halfop_with
  halfop_with-keeps dir c [] s h = K.idle s h
  halfop_with-keeps mode_query c (opnick ∷ l) s h = K.idle s h
  halfop_with-keeps mode_add c (opnick ∷ l) s h = halfop_nick-keeps mode_add c opnick l s h
  halfop_with-keeps mode_del c (opnick ∷ l) s h = halfop_nick-keeps mode_del c opnick l s h

  voice_with-keeps :
      (dir : Dir) (c : ℕ) (l : List (List ℕ)) (s : State) → P s → Q (voice_with m dir c l s)
  unfolding voice_with
  voice_with-keeps dir c [] s h = K.idle s h
  voice_with-keeps mode_query c (opnick ∷ l) s h = K.idle s h
  voice_with-keeps mode_add c (opnick ∷ l) s h =
      let s' = record s { params = l } in
      with_member-keeps opnick (voice_member m mode_add c opnick) s' (find_target m opnick)
        (taken s l h) (λ u on. K.voice mode_add c opnick u s' on (taken s l h))
  voice_with-keeps mode_del c (opnick ∷ l) s h =
      let s' = record s { params = l } in
      with_member-keeps opnick (voice_member m mode_del c opnick) s' (find_target m opnick)
        (taken s l h) (λ u on. K.voice mode_del c opnick u s' on (taken s l h))

  change_mask-keeps :
      (kind : MaskKind) (dir : Dir) (c : ℕ) (raw : List ℕ) (r : Option (List ℕ) × State)
      → P r.1
      → After Q (change_mask m kind dir c raw r)
  unfolding change_mask add_mask
  change_mask-keeps kind mode_query c raw (o, s) h = K.idle s h
  change_mask-keeps kind mode_add c raw (none, s) h = tt
  change_mask-keeps kind mode_add c raw (some mask, s) h = K.added kind c mask s h
  change_mask-keeps kind mode_del c raw (o, s) h = K.deleted kind c o raw s h

  move_mask_pos-keeps : (s : State) (o : Option (List ℕ × ℕ)) → P s → P (move_mask_pos s o).1
  unfolding move_mask_pos
  move_mask_pos-keeps s none h = h
  move_mask_pos-keeps s (some (mask, pos)) h =
      K.stable s s.errors s.params s.sent pos s.mode_limit h

  take_mask-keeps : (raw : List ℕ) (s : State) → P s → P (take_mask m raw s).1
  unfolding take_mask
  take_mask-keeps raw s h =
      if_elim (λ (r : Option (List ℕ) × State). P r.1) m.from_server (λ y. h)
        (λ k. move_mask_pos-keeps s (pretty_mask m.nicklen s.mask_pos raw) h)

  use_mask-keeps :
      (kind : MaskKind) (dir : Dir) (c : ℕ) (raw : List ℕ) (l : List (List ℕ)) (s : State)
      → P s
      → After Q (use_mask m kind dir c raw l s)
  unfolding use_mask
  use_mask-keeps kind dir c raw l s h =
      let mine = (source_p m s).is_mine in
      let s' = record (if mine then count_mode s else s) { params = l } in
      if_elim (After Q) (mine && over_limit s) (λ y. K.idle (count_mode s) (count_mode-keeps s h))
        (λ k.
          change_mask-keeps kind dir c raw (take_mask m raw s') (
            take_mask-keeps raw s' (taken (if mine then count_mode s else s) l (counted mine s h))))

  list_bans-keeps : (s : State) → P s → Q (list_bans m alev s)
  unfolding list_bans
  list_bans-keeps s h = if_elim Q s.errors.rpl_b (λ y. K.idle s h) (λ k. said s _ _ h)

  list_excepts-keeps : (s : State) → P s → Q (list_excepts m s)
  unfolding list_excepts
  list_excepts-keeps s h = if_elim Q s.errors.rpl_e (λ y. K.idle s h) (λ k. said s _ _ h)

  list_invexes-keeps : (s : State) → P s → Q (list_invexes m s)
  unfolding list_invexes
  list_invexes-keeps s h = if_elim Q s.errors.rpl_i (λ y. K.idle s h) (λ k. said s _ _ h)

  ban_with-keeps :
      (dir : Dir) (c : ℕ) (l : List (List ℕ)) (s : State)
      → P s
      → After Q (ban_with m alev dir c l s)
  unfolding ban_with
  ban_with-keeps dir c [] s h = list_bans-keeps s h
  ban_with-keeps dir c (raw ∷ l) s h =
      if_elim (After Q) (is_query dir) (λ y. list_bans-keeps s h)
        (λ k.
          if_elim (After Q) (ltb alev chaccess_halfop) (λ y. refuse-keeps s h)
            (λ j. use_mask-keeps ban dir c raw l s h))

  except_with-keeps :
      (dir : Dir) (c : ℕ) (l : List (List ℕ)) (s : State) → P s → After Q (except_with m dir c l s)
  unfolding except_with
  except_with-keeps dir c [] s h = list_excepts-keeps s h
  except_with-keeps dir c (raw ∷ l) s h =
      if_elim (After Q) (is_query dir) (λ y. list_excepts-keeps s h)
        (λ k. use_mask-keeps exception dir c raw l s h)

  invex_with-keeps :
      (dir : Dir) (c : ℕ) (l : List (List ℕ)) (s : State) → P s → After Q (invex_with m dir c l s)
  unfolding invex_with
  invex_with-keeps dir c [] s h = list_invexes-keeps s h
  invex_with-keeps dir c (raw ∷ l) s h =
      if_elim (After Q) (is_query dir) (λ y. list_invexes-keeps s h)
        (λ k. use_mask-keeps invex dir c raw l s h)

  nosuch-keeps : (c : ℕ) (s : State) → P s → Q (chm_nosuch c s)
  unfolding chm_nosuch
  nosuch-keeps c s h = if_elim Q s.errors.unknown (λ y. K.idle s h) (λ k. said s _ _ h)

  -- A test of the access, and a handler behind it
  allowed :
      (b : Bool) (s : State) (o : Option State)
      → P s
      → After Q o
      → After Q (if b then some (refuse s) else o)
  allowed true s o h k = refuse-keeps s h
  allowed false s o h k = k

  allowed_state : (b : Bool) (s : State) {t : State} → P s → Q t → Q (if b then refuse s else t)
  allowed_state true s h k = refuse-keeps s h
  allowed_state false s h k = k

  pub handler-keeps :
      (strtoul : List ℕ → ℕ) (h : Handler) (c : ℕ) (dir : Dir) (s : State)
      → P s
      → After Q (run_handler strtoul m alev h dir c s)
  unfolding run_handler chm_simple chm_hideops chm_limit chm_key chm_ban chm_except chm_invex chm_op
      chm_halfop chm_voice
  handler-keeps strtoul nosuch_handler c dir s h = nosuch-keeps c s h
  handler-keeps strtoul (simple_handler bit) c dir s h = allowed_state _ s h (K.bits dir c bit s h)
  handler-keeps strtoul hideops_handler c dir s h = allowed_state _ s h (K.hideops dir c s h)
  handler-keeps strtoul limit_handler c dir s h = allowed_state _ s h (K.limit strtoul dir c s h)
  handler-keeps strtoul key_handler c dir s h = allowed _ s _ h (K.key dir c s h)
  handler-keeps strtoul ban_handler c dir s h = ban_with-keeps dir c s.params s h
  handler-keeps strtoul except_handler c dir s h =
      allowed _ s _ h (except_with-keeps dir c s.params s h)
  handler-keeps strtoul invex_handler c dir s h =
      allowed _ s _ h (invex_with-keeps dir c s.params s h)
  handler-keeps strtoul op_handler c dir s h =
      if_elim Q (ltb alev chaccess_chanop) (λ y. refuse-keeps s h)
        (λ ok. op_with-keeps ok dir c s.params s h)
  handler-keeps strtoul halfop_handler c dir s h =
      allowed_state _ s h (halfop_with-keeps dir c s.params s h)
  handler-keeps strtoul voice_handler c dir s h =
      allowed_state _ s h (voice_with-keeps dir c s.params s h)
