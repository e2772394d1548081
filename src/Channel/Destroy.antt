-- ===== src/Channel/Destroy.antt =====
-- src/channel.c: destroy_channel on a channel that nobody is on.
use ircd_hybrid_8_cvs.Common.{
  ℕ, ◌≡◌, refl, sym, ap, subst, List, [], ◌∷◌, Option, none, some, arith, if_elim,
}
use ircd_hybrid_8_cvs.Channel.Members.{
  Sublists, Rank, peon, chanop, chanop_voiced, voice, halfop, list_of, with_list, Channel, Client,
  World, Setting, set_client, set_channel, forget_all, delete_members, delete_local, del_invite,
  del_invites, leave_root, delete_order, delete_each, delete_each_local, unlist, wipe_channel,
  destroy_channel, is_vchan_top,
}
use ircd_hybrid_8_cvs.Channel.Lists.{size, size-empty}
use ircd_hybrid_8_cvs.Channel.Consistent.{IsConsistent, SameSeats, SameLinks}

-- Two states agree in all that the invariant reads.
abbrev pub SameMembers : World → World → Type 0
SameMembers w v =
    ((d : ℕ) → SameSeats (v.channel d) (w.channel d))
    × ((x : ℕ) → SameLinks (v.client x) (w.client x))

same_trans : (u v w : World) → SameMembers u v → SameMembers v w → SameMembers u w
same_trans u v w p q = ((λ d. ground (arith, p.0 d, q.0 d)), (λ x. ground (arith, p.1 x, q.1 x)))

pub same-IsConsistent : (w v : World) → SameMembers w v → IsConsistent w → IsConsistent v
same-IsConsistent w v p ok = record {
  linked = λ c u. ground (arith, p.0 c, p.1 u, ok.linked c u);
  once = λ c u. ground (arith, p.1 u, ok.once c u);
  near = λ c u. ground (arith, p.0 c, p.1 u, ok.near c u);
  users = λ c. ground (arith, p.0 c, ok.users c);
  locusers = λ c. ground (arith, p.0 c, ok.locusers c);
  joined = λ u. ground (arith, p.1 u, ok.joined u);
}

with_list-same : (r : Rank) (s : Sublists) → list_of r s ≡ [] → with_list r s [] ≡ s
unfolding with_list list_of
with_list-same peon s h = ground arith
with_list-same chanop s h = ground arith
with_list-same chanop_voiced s h = ground arith
with_list-same voice s h = ground arith
with_list-same halfop s h = ground arith

set_channel-same :
    (w : World) (c : ℕ) (ch : Channel)
    → SameSeats ch (w.channel c)
    → SameMembers w (set_channel w c ch)
unfolding set_channel
set_channel-same w c ch h = ((λ d. ground arith), (λ x. (refl, refl, refl)))

set_client-same :
    (w : World) (u : ℕ) (who : Client)
    → SameLinks who (w.client u)
    → SameMembers w (set_client w u who)
unfolding set_client
set_client-same w u who h = ((λ d. (refl, refl, refl, refl)), (λ x. ground arith))

-- Nobody is on the channel.
abbrev pub IsEmpty : World → ℕ → Type 0
IsEmpty w c = (size (w.channel c).everyone ≡ 0) × (size (w.channel c).local ≡ 0)

delete_members-same :
    (r : Rank) (w : World) (c : ℕ) → IsEmpty w c → SameMembers w (delete_members r w c)
unfolding delete_members forget_all
delete_members-same r w c h =
    let none_on = size-empty r (w.channel c).everyone h.0 in
    let same = with_list-same r (w.channel c).everyone none_on in
    let e : delete_members r w c
        ≡ set_channel w c
            (record (w.channel c) { everyone = with_list r (w.channel c).everyone [] }) =
      ap
        (λ l.
          let v = forget_all (w.channel c) c l w in
          set_channel v c
            (record (v.channel c) { everyone = with_list r (w.channel c).everyone [] }))
        none_on in
    subst (SameMembers w) (sym e) (set_channel-same w c _ (same, refl, refl, refl))

delete_local-same :
    (r : Rank) (w : World) (c : ℕ) → IsEmpty w c → SameMembers w (delete_local r w c)
unfolding delete_local forget_all
delete_local-same r w c h =
    let none_on = size-empty r (w.channel c).local h.1 in
    let same = with_list-same r (w.channel c).local none_on in
    let e : delete_local r w c
        ≡ set_channel w c (record (w.channel c) { local = with_list r (w.channel c).local [] }) =
      ap
        (λ l.
          let v = forget_all (w.channel c) c l w in
          set_channel v c (record (v.channel c) { local = with_list r (w.channel c).local [] }))
        none_on in
    subst (SameMembers w) (sym e) (set_channel-same w c _ (refl, same, refl, refl))

same-IsEmpty : (w v : World) (c : ℕ) → SameMembers w v → IsEmpty w c → IsEmpty v c
same-IsEmpty w v c p h = ground (arith, p.0 c)

same_refl : (w : World) → SameMembers w w
same_refl w = ((λ d. (refl, refl, refl, refl)), (λ x. (refl, refl, refl)))

delete_each-same :
    (rs : List Rank) (w : World) (c : ℕ) → IsEmpty w c → SameMembers w (delete_each rs w c)
unfolding delete_each
delete_each-same [] w c h = same_refl w
delete_each-same (r ∷ rs) w c h =
    let step = delete_members-same r w c h in
    same_trans w (delete_members r w c) (delete_each rs (delete_members r w c) c) step (
      delete_each-same rs (delete_members r w c) c (same-IsEmpty w (delete_members r w c) c step h))

delete_each_local-same :
    (rs : List Rank) (w : World) (c : ℕ) → IsEmpty w c → SameMembers w (delete_each_local rs w c)
unfolding delete_each_local
delete_each_local-same [] w c h = same_refl w
delete_each_local-same (r ∷ rs) w c h =
    let step = delete_local-same r w c h in
    same_trans w (delete_local r w c) (delete_each_local rs (delete_local r w c) c) step (
      delete_each_local-same rs (delete_local r w c) c
        (same-IsEmpty w (delete_local r w c) c step h))

del_invite-same : (w : World) (c u : ℕ) → SameMembers w (del_invite w c u)
unfolding del_invite set_client set_channel
del_invite-same w c u = ((λ d. ground arith), (λ x. ground arith))

del_invites-same : (w : World) (c : ℕ) (l : List ℕ) → SameMembers w (del_invites w c l)
unfolding del_invites
del_invites-same w c [] = ((λ d. (refl, refl, refl, refl)), (λ x. (refl, refl, refl)))
del_invites-same w c (u ∷ l) =
    same_trans w (del_invite w c u) (del_invites (del_invite w c u) c l) (del_invite-same w c u)
      (del_invites-same (del_invite w c u) c l)

leave_root-same : (w : World) (c : ℕ) (o : Option ℕ) → SameMembers w (leave_root w c o)
unfolding leave_root set_channel
leave_root-same w c none = ((λ d. (refl, refl, refl, refl)), (λ x. (refl, refl, refl)))
leave_root-same w c (some r) = ((λ d. ground arith), (λ x. (refl, refl, refl)))

unlist-same : (g : Setting) (w : World) (c : ℕ) → SameMembers w (unlist g w c)
unfolding unlist set_channel
unlist-same g w c = ((λ d. ground arith), (λ x. (refl, refl, refl)))

wipe_channel-same :
    (g : Setting) (w : World) (c : ℕ) → IsEmpty w c → SameMembers w (wipe_channel g w c)
unfolding wipe_channel
wipe_channel-same g w c h =
    let w1 = leave_root w c (w.channel c).root in
    let p1 = leave_root-same w c (w.channel c).root in
    let h1 = same-IsEmpty w w1 c p1 h in
    let w2 = delete_each delete_order w1 c in
    let p2 = delete_each-same delete_order w1 c h1 in
    let w3 = delete_each_local delete_order w2 c in
    let p3 = delete_each_local-same delete_order w2 c (same-IsEmpty w1 w2 c p2 h1) in
    let w4 = del_invites w3 c (w3.channel c).invites in
    let p4 = del_invites-same w3 c (w3.channel c).invites in
    same_trans w w1 (unlist g w4 c) p1 (
      same_trans w1 w2 (unlist g w4 c) p2 (
        same_trans w2 w3 (unlist g w4 c) p3
          (same_trans w3 w4 (unlist g w4 c) p4 (unlist-same g w4 c))))

pub destroy_channel-same :
    (g : Setting) (w : World) (c : ℕ) → IsEmpty w c → SameMembers w (destroy_channel g w c)
unfolding destroy_channel
destroy_channel-same g w c h =
    if_elim (λ v. SameMembers w v) (is_vchan_top (w.channel c)) (λ y. same_refl w)
      (λ n. wipe_channel-same g w c h)
