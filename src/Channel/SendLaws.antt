-- ===== src/Channel/SendLaws.antt =====
-- src/channel.c: can_send, against a list of what it asks for.
use ircd_hybrid_8_cvs.Common.{
  ℕ, ◌≡◌, ◌⊎◌, inl, inr, ◌↔◌, true, false, ◌&&◌, ◌||◌, not, Option, none, some, arith, Bool-cases,
  if_elim,
}
use ircd_hybrid_8_cvs.Text.Compare.{IsText}
use ircd_hybrid_8_cvs.Hash.Chain.{Table}
use ircd_hybrid_8_cvs.Hash.Channel.{Named}
use ircd_hybrid_8_cvs.Channel.Members.{has, Channel, Client}
use ircd_hybrid_8_cvs.Channel.Leave.{is_any_op, is_voiced}
use ircd_hybrid_8_cvs.Channel.Access.{
  Ban, unbanned, banned, excepted, Voice, send_no, send_nonop, send_opv, Rules, mode_moderated,
  mode_noprivmsgs, has_mode, masks_of, check_banned, src_host, src_iphost, is_banned,
  find_channel_resv, send_outside, send_unless_banned, can_send,
}
use ircd_hybrid_8_cvs.Channel.BanLaws.{AreSearchable, IsBanned, BanDecides, check_banned-IsBanned}

-- Nothing keeps one who stands outside the channel's ranks from speaking.
abbrev pub IsOutsideFree : Channel → ℕ → Client → Type 0
IsOutsideFree ch c who =
    (has_mode ch mode_noprivmsgs ≡ false) ⊎ ((who.has_user && has c who.channels) ≡ true)

-- A ban silences the client.
abbrev pub IsSilenced : Rules → Channel → Client → Type 0
IsSilenced g ch who =
    ((g.quiet_on_ban && who.is_mine) ≡ true)
    × ((who.is_person ≡ true) × IsBanned g ch (src_host who) (src_iphost who))

-- Who may speak on a channel.
abbrev pub MaySend : Rules → Table Named → Channel → ℕ → Client → ℕ → Type 0
MaySend g resv ch c who u =
    ((who.is_mine && find_channel_resv resv ch.chname) ≡ false)
    × (((is_any_op ch u || is_voiced ch u) ≡ true)
        ⊎ ((has_mode ch mode_moderated ≡ false) × (¬ IsSilenced g ch who × IsOutsideFree ch c who)))

-- What an answer of can_send says of speaking.
abbrev pub VoiceDecides : Type 0 → Option Voice → Type 0
VoiceDecides G none = ⊥
VoiceDecides G (some send_no) = ¬ G
VoiceDecides G (some send_nonop) = G
VoiceDecides G (some send_opv) = G

Voice-iff : (P Q : Type 0) (o : Option Voice) → (P ↔ Q) → VoiceDecides P o → VoiceDecides Q o
Voice-iff P Q none e d = d
Voice-iff P Q (some send_no) e d = λ q. d (e.1 q)
Voice-iff P Q (some send_nonop) e d = e.0 d
Voice-iff P Q (some send_opv) e d = e.0 d

send_outside-Decides :
    (ch : Channel) (c : ℕ) (who : Client)
    → VoiceDecides (IsOutsideFree ch c who) (some (send_outside ch c who))
unfolding send_outside
send_outside-Decides ch c who =
    if_elim (λ v. VoiceDecides (IsOutsideFree ch c who) (some v))
      (has_mode ch mode_noprivmsgs && not (who.has_user && has c who.channels))
      (λ y h. elim h [ inl x ↦ ground arith | inr x ↦ ground arith ])
      (λ n. elim (Bool-cases (has_mode ch mode_noprivmsgs)) [
        | inl m ↦ inr (ground arith)
        | inr m ↦ inl m
      ])

send_unless_banned-Decides :
    (B : Type 0) (ch : Channel) (c : ℕ) (who : Client) (b : Option Ban)
    → BanDecides B b
    → VoiceDecides (¬ B × IsOutsideFree ch c who) (send_unless_banned ch c who b)
unfolding send_unless_banned
send_unless_banned-Decides B ch c who none b = elim b [ ]
send_unless_banned-Decides B ch c who (some banned) b = λ h. h.0 b
send_unless_banned-Decides B ch c who (some unbanned) b =
    Voice-iff (IsOutsideFree ch c who) (¬ B × IsOutsideFree ch c who) (some (send_outside ch c who))
      ((λ x. (b, x)), (λ x. x.1)) (send_outside-Decides ch c who)
send_unless_banned-Decides B ch c who (some excepted) b =
    Voice-iff (IsOutsideFree ch c who) (¬ B × IsOutsideFree ch c who) (some (send_outside ch c who))
      ((λ x. (b, x)), (λ x. x.1)) (send_outside-Decides ch c who)

module _ (g : Rules) (ch : Channel) (who : Client) where
  is_banned-Decides :
      IsText (src_host who)
      → IsText (src_iphost who)
      → AreSearchable (src_host who) (src_iphost who) (masks_of ch.banlist)
      → AreSearchable (src_host who) (src_iphost who) (masks_of ch.exceptlist)
      → BanDecides
          ((who.is_person ≡ true) × IsBanned g ch (src_host who) (src_iphost who))
          (is_banned g ch who)
  unfolding is_banned
  is_banned-Decides text text2 bans excepts =
      let P = IsBanned g ch (src_host who) (src_iphost who) in
      if_elim (BanDecides ((who.is_person ≡ true) × P)) (not who.is_person)
        (λ y h. let k = h.0 in ground arith)
        (λ n.
          person P (check_banned g ch (src_host who) (src_iphost who)) (ground arith)
            (check_banned-IsBanned g ch (src_host who) (src_iphost who) text text2 bans excepts))
    where
      person :
          (P : Type 0) (b : Option Ban)
          → who.is_person ≡ true
          → BanDecides P b
          → BanDecides ((who.is_person ≡ true) × P) b
      person P none y d = d
      person P (some banned) y d = (y, d)
      person P (some unbanned) y d = λ h. d h.1
      person P (some excepted) y d = λ h. d h.1

  -- For masks with no backslash, short enough for the rounds of match: can_send lets a client speak
  -- exactly if it is not a client of this server on a reserved channel, and it is an operator, a half
  -- operator or voiced there; or else the channel is not moderated, no ban silences the client, and
  -- it is on the channel or the channel lets others in. It always answers.
  pub can_send-MaySend :
      (resv : Table Named) (c u : ℕ)
      → IsText (src_host who)
      → IsText (src_iphost who)
      → AreSearchable (src_host who) (src_iphost who) (masks_of ch.banlist)
      → AreSearchable (src_host who) (src_iphost who) (masks_of ch.exceptlist)
      → VoiceDecides (MaySend g resv ch c who u) (can_send g resv ch c who u)
  unfolding can_send
  can_send-MaySend resv c u text text2 bans excepts =
      let G = MaySend g resv ch c who u in
      let B = (who.is_person ≡ true) × IsBanned g ch (src_host who) (src_iphost who) in
      let F = IsOutsideFree ch c who in
      if_elim (VoiceDecides G) (who.is_mine && find_channel_resv resv ch.chname)
        (λ bad h. let k = h.0 in cc)
        (λ free.
          if_elim (VoiceDecides G) (is_any_op ch u || is_voiced ch u) (λ y. (free, inl y))
            (λ n.
              if_elim (VoiceDecides G) (has_mode ch mode_moderated)
                (λ m h. elim h.1 [ inl x ↦ cc | inr x ↦ let k = x.0 in cc ])
                (λ m.
                  if_elim (VoiceDecides G) (g.quiet_on_ban && who.is_mine)
                    (λ q.
                      Voice-iff (¬ B × F) G (send_unless_banned ch c who (is_banned g ch who))
                        (
                          (λ x. (free, inr (m, (λ s. x.0 s.1, x.1)))),
                          (λ h. elim h.1 [
                            | inl x ↦ absurd (cc)
                            | inr x ↦ ((λ b. x.1.0 (q, b)), x.1.1)
                          ]),
                        )
                        (send_unless_banned-Decides B ch c who (is_banned g ch who)
                          (is_banned-Decides text text2 bans excepts)))
                    (λ q.
                      Voice-iff F G (some (send_outside ch c who))
                        (
                          (λ x. (free, inr (m, (λ s. let k = s.0 in cc, x)))),
                          (λ h. elim h.1 [ inl x ↦ absurd (cc) | inr x ↦ x.1.1 ]),
                        )
                        (send_outside-Decides ch c who)))))
