-- ===== src/Mode/Peons.antt =====
-- src/channel_mode.c: set_channel_mode for a client that is no operator and no halfop of the channel.
use ircd_hybrid_8_cvs.Common.{
  ℕ, suc, ◌+◌, ◌≡◌, refl, length, subst, sym, true, false, List, [], ◌∷◌, Option, none, some, arith,
  Bool-cases, inl, inr, if_elim,
}
use ircd_hybrid_8_cvs.Channel.Members.{World}
use ircd_hybrid_8_cvs.Channel.Leave.{is_chan_op, is_half_op}
use ircd_hybrid_8_cvs.Channel.Access.{has_mode}
use ircd_hybrid_8_cvs.Mode.State.{
  Dir, mode_query, mode_add, mode_del, mode_private, ModeCommand, State, chptr, refuse,
}
use ircd_hybrid_8_cvs.Mode.Simple.{chm_nosuch, chm_simple, chm_hideops, chm_limit, chm_key}
use ircd_hybrid_8_cvs.Mode.Masks.{list_bans, ban_with, chm_ban, chm_except, chm_invex}
use ircd_hybrid_8_cvs.Mode.Ranks.{chm_op, chm_halfop, chm_voice}
use ircd_hybrid_8_cvs.Mode.SetMode.{
  get_channel_access, Handler, nosuch_handler, simple_handler, hideops_handler, limit_handler,
  key_handler, ban_handler, except_handler, invex_handler, op_handler, halfop_handler,
  voice_handler, run_handler, mode_loop, start_state, set_channel_mode,
}
use ircd_hybrid_8_cvs.Mode.Loop.{loop-keeps}

-- The world is the given one, and nothing is noted.
abbrev pub IsUntouched : World → State → Type 0
IsUntouched w s = (s.world ≡ w) × (s.plus ≡ []) × (s.minus ≡ []) × (s.resync ≡ [])

-- The code answers, and leaves things so.
abbrev EndsUntouched : World → ℕ → Option State → Type 0
EndsUntouched w n none = ⊥
EndsUntouched w n (some s) = IsUntouched w s

module _ (w : World) where
  nosuch-IsUntouched : (c : ℕ) (s : State) → IsUntouched w s → IsUntouched w (chm_nosuch c s)
  unfolding chm_nosuch
  nosuch-IsUntouched c s h = if_elim (IsUntouched w) s.errors.unknown (λ y. h) (λ n. h)

  list_bans-IsUntouched :
      (m : ModeCommand) (s : State) → IsUntouched w s → IsUntouched w (list_bans m 0 s)
  unfolding list_bans
  list_bans-IsUntouched m s h = if_elim (IsUntouched w) s.errors.rpl_b (λ y. h) (λ n. h)

  ban-EndsUntouched :
      (m : ModeCommand) (dir : Dir) (c n : ℕ) (l : List (List ℕ)) (s : State)
      → IsUntouched w s
      → EndsUntouched w n (ban_with m 0 dir c l s)
  unfolding ban_with refuse
  ban-EndsUntouched m dir c n [] s h = list_bans-IsUntouched m s h
  ban-EndsUntouched m mode_query c n (raw ∷ l) s h = list_bans-IsUntouched m s h
  ban-EndsUntouched m mode_add c n (raw ∷ l) s h = h
  ban-EndsUntouched m mode_del c n (raw ∷ l) s h = h

  halfop-IsUntouched :
      (m : ModeCommand) (dir : Dir) (c : ℕ) (s : State)
      → IsUntouched w s
      → IsUntouched w (chm_halfop m 0 dir c s)
  unfolding chm_halfop refuse
  halfop-IsUntouched m dir c s h = elim (Bool-cases (has_mode (chptr m s) mode_private)) [
    | inl y ↦
        let e : chm_halfop m 0 dir c s ≡ refuse s = ground arith in subst (IsUntouched w) (sym e) h
    | inr n ↦
        let e : chm_halfop m 0 dir c s ≡ refuse s = ground arith in subst (IsUntouched w) (sym e) h
  ]

  handler-EndsUntouched :
      (strtoul : List ℕ → ℕ) (m : ModeCommand) (h : Handler) (n c : ℕ) (dir : Dir) (s : State)
      → EndsUntouched w n (some s)
      → EndsUntouched w (suc n) (run_handler strtoul m 0 h dir c s)
  unfolding run_handler chm_simple chm_hideops chm_limit chm_key chm_ban chm_except chm_invex chm_op
      chm_voice refuse
  handler-EndsUntouched strtoul m nosuch_handler n c dir s h = nosuch-IsUntouched c s h
  handler-EndsUntouched strtoul m (simple_handler bit) n c dir s h = h
  handler-EndsUntouched strtoul m hideops_handler n c dir s h = h
  handler-EndsUntouched strtoul m limit_handler n c dir s h = h
  handler-EndsUntouched strtoul m key_handler n c dir s h = h
  handler-EndsUntouched strtoul m ban_handler n c dir s h = ban-EndsUntouched m dir c n s.params s h
  handler-EndsUntouched strtoul m except_handler n c dir s h = h
  handler-EndsUntouched strtoul m invex_handler n c dir s h = h
  handler-EndsUntouched strtoul m op_handler n c dir s h = h
  handler-EndsUntouched strtoul m halfop_handler n c dir s h = halfop-IsUntouched m dir c s h
  handler-EndsUntouched strtoul m voice_handler n c dir s h = h

answered :
    (w : World) (n : ℕ) (o : Option State)
    → EndsUntouched w n o
    → (s : State) × (o ≡ some s) × IsUntouched w s
answered w n none h = elim h [ ]
answered w n (some s) h = (s, refl, h)

-- A client of this server that is neither an operator nor a halfop of the channel changes nothing
-- by a MODE command, whatever letters and parameters it gives: set_channel_mode answers, with the
-- world as it was and no change for anyone to be told.
pub set_channel_mode_peon :
    (strtoul : List ℕ → ℕ) (m : ModeCommand) (w : World) (ml : List ℕ) (params : List (List ℕ))
    → (w.client m.source).is_mine ≡ true
    → is_chan_op (w.channel m.channel) m.source ≡ false
    → is_half_op (w.channel m.channel) m.source ≡ false
    → (s : State) × (set_channel_mode strtoul m w ml params ≡ some s) × IsUntouched w s
unfolding set_channel_mode get_channel_access start_state
set_channel_mode_peon strtoul m w ml params mine no_op no_halfop =
    let e : get_channel_access m w ≡ 0 = ground arith in
    let r =
      loop-keeps strtoul m 0 (EndsUntouched w) (λ n k x. elim x [ ]) (λ n s x. x)
        (handler-EndsUntouched w strtoul m) ml mode_add (some (start_state w params)) 0
        (refl, refl, refl, refl) in
    let begun = some (start_state w params) in
    subst (λ a. (s : State) × (mode_loop strtoul m a ml mode_add begun ≡ some s) × IsUntouched w s)
      (sym e) (answered w (length ml + 0) (mode_loop strtoul m 0 ml mode_add begun) r)
