-- ===== src/Channel/BanLists.antt =====
-- src/channel_mode.c: add_id and del_id.
use ircd_hybrid_8_cvs.Common.{
  ℕ, ◌+◌, ◌≡◌, refl, ap, ◌∙◌, Bool, true, false, List, ◌∷◌, Option, none, some, arith, Bool-cases,
  inl, inr, ◌&&◌, not, leb,
}
use ircd_hybrid_8_cvs.Text.Compare.{IsText, same_name, same_name_iff}
use ircd_hybrid_8_cvs.Channel.Members.{BanEntry, Channel, Client}
use ircd_hybrid_8_cvs.Channel.Bans.{
  MaskKind, ban, exception, invex, unknown, bans_of, with_bans, is_covered, ban_entry, add_entry,
  add_to, id_given, add_id, del_entry, del_found, del_from, del_id,
}

-- The new entry is the first that del_id looks at.
del_id-with_bans :
    (kind : MaskKind) (ch : Channel) (l : List BanEntry) (b : BanEntry)
    → bans_of kind ch ≡ some l
    → same_name b.banstr b.banstr ≡ true
    → del_id (with_bans kind ch (b ∷ l) (ch.num_mask + 1)) b.banstr kind ≡ (ch, true)
unfolding del_id del_from del_found del_entry bans_of with_bans
del_id-with_bans ban ch l b e same = ground arith
del_id-with_bans exception ch l b e same = ground arith
del_id-with_bans invex ch l b e same = ground arith
del_id-with_bans unknown ch l b e same = cc

module _ (kind : MaskKind) (ch : Channel) (who : Client) (banid : List ℕ) (now : ℕ)
    (text : IsText banid) where
  entry-undo :
      (l : List BanEntry) (o : Option Bool) {ch' : Channel}
      → bans_of kind ch ≡ some l
      → add_entry kind ch l (ban_entry who banid now) o ≡ some (ch', true)
      → del_id ch' banid kind ≡ (ch, true)
  unfolding add_entry ban_entry
  entry-undo l none e h = absurd (cc)
  entry-undo l (some true) e h = absurd (cc)
  entry-undo l (some false) {ch'} e h =
      let b = ban_entry who banid now in
      let same = (same_name_iff banid banid text text).1 refl in
      let q : ch' ≡ with_bans kind ch (b ∷ l) (ch.num_mask + 1) = cc in
      ap (λ (c : Channel). del_id c banid kind) q ∙ del_id-with_bans kind ch l b e same

  add_to-undo :
      (o : Option (List BanEntry)) {ch' : Channel}
      → bans_of kind ch ≡ o
      → add_to kind ch who banid now o ≡ some (ch', true)
      → del_id ch' banid kind ≡ (ch, true)
  unfolding add_to
  add_to-undo none e h = absurd (cc)
  add_to-undo (some l) e h = entry-undo l (is_covered l banid) e h

-- A mask that add_id has added, as it was collapsed where the client is local, is taken off again by
-- del_id, and the channel is the one that it was.
pub del_id-add_id :
    (maxbans now : ℕ) (is_server : Bool) (who : Client) (ch ch' : Channel) (banid : List ℕ)
    (kind : MaskKind)
    → IsText (id_given who banid)
    → add_id maxbans now is_server who ch banid kind ≡ some (ch', true)
    → del_id ch' (id_given who banid) kind ≡ (ch, true)
unfolding add_id
del_id-add_id maxbans now is_server who ch ch' banid kind text h =
    elim (Bool-cases (not is_server && leb maxbans ch.num_mask && who.is_mine)) [
      | inl full ↦ absurd (ground arith)
      | inr room ↦
          add_to-undo kind ch who (id_given who banid) now text (bans_of kind ch) refl
            (ground arith)
    ]

-- A client of this server finds the lists full at ConfigChannel.maxbans masks of any kind: add_id
-- refuses the mask and leaves the channel alone.
pub add_id_full :
    (maxbans now : ℕ) (who : Client) (ch : Channel) (banid : List ℕ) (kind : MaskKind)
    → who.is_mine ≡ true
    → leb maxbans ch.num_mask ≡ true
    → add_id maxbans now false who ch banid kind ≡ some (ch, false)
unfolding add_id
add_id_full maxbans now who ch banid kind mine full = ground arith
