-- ===== src/Channel/Dangling.antt =====
-- src/channel.c: destroy_channel and the list chanops_voiced.
use ircd_hybrid_8_cvs.Common.{
  ℕ, ◌≡◌, refl, ap, ◌∙◌, true, false, List, [], ◌∷◌, Option, none, some, arith,
}
use ircd_hybrid_8_cvs.Channel.Members.{
  has, Sublists, Rank, peon, chanop, chanop_voiced, voice, halfop, list_of, with_list, Channel,
  Client, World, Setting, set_client, set_channel, forget, forget_all, delete_members, delete_local,
  del_invite, del_invites, leave_root, delete_order, delete_each, delete_each_local, unlist,
  wipe_channel, destroy_channel, is_vchan_top,
}
use ircd_hybrid_8_cvs.Channel.Lists.{occurs, standing, has-occurs}
use ircd_hybrid_8_cvs.Channel.Consistent.{IsConsistent}

-- The client is on none of the lists that delete_members is called for.
abbrev Spares : ℕ → Sublists → Type 0
Spares u s =
    (occurs u s.peons ≡ 0)
    × (occurs u s.chanops ≡ 0)
    × (occurs u s.voiced ≡ 0)
    × (occurs u s.halfops ≡ 0)

module _ (c u : ℕ) where
  -- From w to v, the client keeps its list of channels and is still spared.
  abbrev Kept : World → World → Type 0
  Kept w v =
      ((v.client u).channels ≡ (w.client u).channels)
      × Spares u (v.channel c).everyone
      × Spares u (v.channel c).local

  with_list-Spares : (r : Rank) (s : Sublists) → Spares u s → Spares u (with_list r s [])
  unfolding with_list occurs
  with_list-Spares peon s h = ground arith
  with_list-Spares chanop s h = ground arith
  with_list-Spares chanop_voiced s h = ground arith
  with_list-Spares voice s h = ground arith
  with_list-Spares halfop s h = ground arith

  forget_all-client :
      (ch : Channel) (l : List ℕ) (w : World)
      → occurs u l ≡ 0
      → (forget_all ch c l w).client u ≡ w.client u
  unfolding forget_all occurs set_client
  forget_all-client ch [] w h = refl
  forget_all-client ch (x ∷ l) w h =
      let ih = forget_all-client ch l (set_client w x (forget ch c (w.client x))) (ground arith) in
      ih ∙ ground arith

  forget_all-channel :
      (ch : Channel) (l : List ℕ) (w : World) → (forget_all ch c l w).channel ≡ w.channel
  unfolding forget_all set_client
  forget_all-channel ch [] w = refl
  forget_all-channel ch (x ∷ l) w =
      forget_all-channel ch l (set_client w x (forget ch c (w.client x)))

  delete_members-Kept :
      (r : Rank) (w v : World)
      → occurs u (list_of r (v.channel c).everyone) ≡ 0
      → Kept w v
      → Kept w (delete_members r v c)
  unfolding delete_members set_channel
  delete_members-Kept r w v off (k, far, near) =
      let l = list_of r (v.channel c).everyone in
      let e = ap (λ (x : Client). x.channels) (forget_all-client (v.channel c) l v off) in
      let same = ap (λ (f : ℕ → Channel). (f c).local) (forget_all-channel (v.channel c) l v) in
      let far' = with_list-Spares r (v.channel c).everyone far in
      (e ∙ k, ground arith, ground arith)

  delete_local-Kept :
      (r : Rank) (w v : World)
      → occurs u (list_of r (v.channel c).local) ≡ 0
      → Kept w v
      → Kept w (delete_local r v c)
  unfolding delete_local set_channel
  delete_local-Kept r w v off (k, far, near) =
      let l = list_of r (v.channel c).local in
      let e = ap (λ (x : Client). x.channels) (forget_all-client (v.channel c) l v off) in
      let same = ap (λ (f : ℕ → Channel). (f c).everyone) (forget_all-channel (v.channel c) l v) in
      let near' = with_list-Spares r (v.channel c).local near in (e ∙ k, ground arith, ground arith)

  delete_each-Kept : (w v : World) → Kept w v → Kept w (delete_each delete_order v c)
  unfolding delete_each list_of
  delete_each-Kept w v k =
      let v1 = delete_members chanop v c in
      let k1 = delete_members-Kept chanop w v k.1.1 k in
      let v2 = delete_members voice v1 c in
      let k2 = delete_members-Kept voice w v1 k1.1.2 k1 in
      let v3 = delete_members peon v2 c in
      let k3 = delete_members-Kept peon w v2 k2.1.0 k2 in delete_members-Kept halfop w v3 k3.1.3 k3

  delete_each_local-Kept : (w v : World) → Kept w v → Kept w (delete_each_local delete_order v c)
  unfolding delete_each_local list_of
  delete_each_local-Kept w v k =
      let v1 = delete_local chanop v c in
      let k1 = delete_local-Kept chanop w v k.2.1 k in
      let v2 = delete_local voice v1 c in
      let k2 = delete_local-Kept voice w v1 k1.2.2 k1 in
      let v3 = delete_local peon v2 c in
      let k3 = delete_local-Kept peon w v2 k2.2.0 k2 in delete_local-Kept halfop w v3 k3.2.3 k3

  leave_root-Kept : (w : World) (o : Option ℕ) → Kept w w → Kept w (leave_root w c o)
  unfolding leave_root set_channel
  leave_root-Kept w none k = k
  leave_root-Kept w (some r) k = ground arith

  del_invites-channels :
      (v : World) (l : List ℕ) → ((del_invites v c l).client u).channels ≡ (v.client u).channels
  unfolding del_invites del_invite set_client set_channel
  del_invites-channels v [] = refl
  del_invites-channels v (x ∷ l) = del_invites-channels (del_invite v c x) l ∙ ground arith

  -- Where the lists agree, take a client of another server that is an operator with a voice on a
  -- channel that is not the top of a chain of vchans: after destroy_channel the client still has
  -- the channel on its list.
  pub destroy_channel_dangling :
      (g : Setting) (w : World)
      → IsConsistent w
      → (w.client u).is_mine ≡ false
      → has u (w.channel c).everyone.chanops_voiced ≡ true
      → is_vchan_top (w.channel c) ≡ false
      → occurs c ((destroy_channel g w c).client u).channels ≡ 1
  unfolding destroy_channel wipe_channel unlist set_channel standing
  destroy_channel_dangling g w ok far on low =
      let here = has-occurs u (w.channel c).everyone.chanops_voiced on in
      let linked = ok.linked c u in
      let once = ok.once c u in
      let near : standing u (w.channel c).local ≡ 0 = ground (arith, ok.near c u) in
      let k0 : Kept w w = (refl, omega arith, omega arith) in
      let w1 = leave_root w c (w.channel c).root in
      let k1 = leave_root-Kept w (w.channel c).root k0 in
      let w2 = delete_each delete_order w1 c in
      let k2 = delete_each-Kept w w1 k1 in
      let w3 = delete_each_local delete_order w2 c in
      let k3 = delete_each_local-Kept w w2 k2 in
      let k4 = del_invites-channels w3 (w3.channel c).invites ∙ k3.0 in
      let e : destroy_channel g w c ≡ wipe_channel g w c = rw low in
      ap (λ (v : World). occurs c (v.client u).channels) e ∙ ap (occurs c) k4 ∙ omega arith
