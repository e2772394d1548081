-- ===== src/Mode/TakenBack.antt =====
-- src/channel_mode.c: a ban that is set and taken back.
use ircd_hybrid_8_cvs.Common.{
  ℕ, ◌≡◌, refl, sym, subst, ◌∙◌, ap, Bool, true, false, List, [], ◌∷◌, ◌++◌, none, some, arith, ltb,
  Bool-cases, Option-cases, inl, inr,
}
use ircd_hybrid_8_cvs.Text.Compare.{IsText, same_name_iff}
use ircd_hybrid_8_cvs.Channel.Members.{Channel, set_channel}
use ircd_hybrid_8_cvs.Channel.Bans.{ban, id_given, add_id, del_id}
use ircd_hybrid_8_cvs.Channel.BanLists.{del_id-add_id}
use ircd_hybrid_8_cvs.Mode.State.{
  mode_add, mode_del, chaccess_halfop, Change, ModeCommand, State, chptr, source_p, set_chptr,
  cancel_first, plus_unless, note_plus, minus_unless, note_minus,
}
use ircd_hybrid_8_cvs.Mode.Masks.{
  mask_change, same_mask, note_added, add_mask, note_deleted, del_pretty, del_mask, take_mask,
  change_mask, use_mask, ban_with, chm_ban,
}

cancel_first-snoc :
    (same : Change → Bool) (l : List Change) (x : Change)
    → cancel_first same l ≡ none
    → same x ≡ true
    → cancel_first same (l ++ x ∷ []) ≡ some (l ++ record x { letter = 0 } ∷ [])
unfolding cancel_first
cancel_first-snoc same [] x none_yet h = ground arith
cancel_first-snoc same (y ∷ l) x none_yet h = elim (Bool-cases (same y)) [
  | inl e ↦ absurd (ground arith)
  | inr n ↦ elim (Option-cases (cancel_first same l)) [
    | inl e ↦ ground (arith, cancel_first-snoc same l x e h)
    | inr (r, e) ↦ absurd (ground arith)
  ]
]

module _ (m : ModeCommand) (alev c : ℕ) (mask : List ℕ) (rest : List (List ℕ)) (s : State)
    (ch : Channel) (server : m.from_server ≡ true) (far : (source_p m s).is_mine ≡ false)
    (may : ltb alev chaccess_halfop ≡ false) where
  -- The state after +b
  with_ban : State
  with_ban = record (set_chptr m (record s { params = mask ∷ rest }) ch) {
    plus = s.plus ++ mask_change ban c mask ∷ [];
  }

  chm_ban-with_ban :
      s.params ≡ mask ∷ mask ∷ rest
      → add_id m.maxbans m.now m.source_server (source_p m s) (chptr m s) mask ban ≡ some (ch, true)
      → cancel_first (same_mask c mask) s.minus ≡ none
      → chm_ban m alev mode_add c s ≡ some with_ban
  unfolding chm_ban ban_with use_mask take_mask change_mask add_mask note_added note_plus
      plus_unless with_ban set_chptr source_p chptr
  chm_ban-with_ban given added new = ground arith

  -- The state after -b
  ban_undone : State
  ban_undone = record (set_chptr m (record with_ban { params = rest }) (chptr m s)) {
    plus = s.plus ++ record (mask_change ban c mask) { letter = 0 } ∷ [];
  }

  chptr-with_ban : chptr m with_ban ≡ ch
  unfolding with_ban chptr set_chptr set_channel
  chptr-with_ban = ground arith

  chptr-ban_undone : chptr m ban_undone ≡ chptr m s
  unfolding ban_undone with_ban chptr set_chptr set_channel
  chptr-ban_undone = ground arith

  same-with_ban : IsText mask → same_mask c mask (mask_change ban c mask) ≡ true
  unfolding same_mask mask_change
  same-with_ban text = ground (arith, (same_name_iff mask mask text text).1 refl)

  -- del_id takes the ban off again.
  del_id-with_ban :
      IsText mask
      → add_id m.maxbans m.now m.source_server (source_p m s) (chptr m s) mask ban ≡ some (ch, true)
      → del_id (chptr m with_ban) mask ban ≡ (chptr m s, true)
  del_id-with_ban text added =
      let raw : id_given (source_p m s) mask ≡ mask = rw far refl in
      let gone =
        del_id-add_id m.maxbans m.now m.source_server (source_p m s) (chptr m s) ch mask ban
          (subst IsText (sym raw) text) added in
      ap (λ (k : Channel). del_id k mask ban) chptr-with_ban
      ∙ subst (λ t. del_id ch t ban ≡ (chptr m s, true)) raw gone

  far-with_ban : (source_p m with_ban).is_mine ≡ false
  unfolding with_ban source_p set_chptr set_channel
  far-with_ban = far

  ban-use_mask : chm_ban m alev mode_del c with_ban ≡ use_mask m ban mode_del c mask rest with_ban
  unfolding chm_ban ban_with with_ban set_chptr set_channel
  ban-use_mask = rw may refl

  use_mask-note_deleted :
      IsText mask
      → add_id m.maxbans m.now m.source_server (source_p m s) (chptr m s) mask ban ≡ some (ch, true)
      → use_mask m ban mode_del c mask rest with_ban
        ≡ some (note_deleted m ban c mask (chptr m s) (record with_ban { params = rest }))
  unfolding use_mask take_mask change_mask del_mask del_pretty chptr
  use_mask-note_deleted text added =
      ground (arith, far-with_ban, server, del_id-with_ban text added)

  note_deleted-ban_undone :
      IsText mask
      → cancel_first (same_mask c mask) s.plus ≡ none
      → note_deleted m ban c mask (chptr m s) (record with_ban { params = rest }) ≡ ban_undone
  unfolding note_deleted note_minus minus_unless with_ban ban_undone set_chptr
  note_deleted-ban_undone text new =
      rw
        (
          cancel_first-snoc (same_mask c mask) s.plus (mask_change ban c mask) new
              (same-with_ban text),
          note_minus,
        )
        refl

-- A ban that another server sets by +b, with the access to do so, and takes back by -b in the same
-- command: where add_id takes the mask and the command has not had it before, both handlers go on,
-- and then the channel is the one that it was, no change is left to be taken away that was not noted
-- before, and the change to be added is cleared.
pub chm_ban_taken_back :
    (m : ModeCommand) (alev c : ℕ) (mask : List ℕ) (rest : List (List ℕ)) (s : State) (ch : Channel)
    → m.from_server ≡ true
    → (source_p m s).is_mine ≡ false
    → ltb alev chaccess_halfop ≡ false
    → s.params ≡ mask ∷ mask ∷ rest
    → IsText mask
    → add_id m.maxbans m.now m.source_server (source_p m s) (chptr m s) mask ban ≡ some (ch, true)
    → cancel_first (same_mask c mask) s.minus ≡ none
    → cancel_first (same_mask c mask) s.plus ≡ none
    → (s1 s2 : State) × (chm_ban m alev mode_add c s ≡ some s1)
      × (chm_ban m alev mode_del c s1 ≡ some s2)
      × (chptr m s2 ≡ chptr m s)
      × (s2.minus ≡ s.minus)
      × (s2.plus ≡ s.plus ++ record (mask_change ban c mask) { letter = 0 } ∷ [])
unfolding ban_undone with_ban set_chptr
chm_ban_taken_back m alev c mask rest s ch server far may given text added new_minus new_plus = (
  with_ban m alev c mask rest s ch server far may,
  ban_undone m alev c mask rest s ch server far may,
  chm_ban-with_ban m alev c mask rest s ch server far may given added new_minus,
  ban-use_mask m alev c mask rest s ch server far may
      ∙ use_mask-note_deleted m alev c mask rest s ch server far may text added
      ∙ ap some (note_deleted-ban_undone m alev c mask rest s ch server far may text new_plus),
  chptr-ban_undone m alev c mask rest s ch server far may,
  refl,
  refl,
)
