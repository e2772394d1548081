-- ===== src/Channel/Invites.antt =====
-- src/channel.c: the lists of invitations of channels and of clients.
use ircd_hybrid_8_cvs.Common.{
  ℕ, ◌+◌, ◌≤◌, ◌≡◌, refl, ap, ◌∙◌, List, [], ◌∷◌, ◌==◌, if◌then◌else◌, leb, arith, if_elim,
}
use ircd_hybrid_8_cvs.Channel.Members.{
  del, World, Setting, set_client, set_channel, del_invite, count_links, add_invite,
}
use ircd_hybrid_8_cvs.Channel.Lists.{occurs, occurs-cons}

-- A channel and a client list each other alike, and at most once.
pub record InvitesAgree (w : World) : Type 0 where
  pub both : (c u : ℕ) → occurs u (w.channel c).invites ≡ occurs c (w.client u).invited
  pub once : (c u : ℕ) → occurs c (w.client u).invited ≤ 1

-- del takes off the one place where a value stands, if it does.
del-occurs :
    (u v : ℕ) (l : List ℕ)
    → occurs u l ≤ 1
    → occurs v (del u l) ≡ (if u == v then 0 else occurs v l)
unfolding del occurs
del-occurs u v [] h = ground arith
del-occurs u v (x ∷ l) h = ground (arith, del-occurs u v l)

module _ (w : World) (c u : ℕ) (ok : InvitesAgree w) where
  few : (d x : ℕ) → occurs x (w.channel d).invites ≤ 1
  few d x = omega (arith, ok.both d x, ok.once d x)

  -- del_invite takes the invitation off both lists and no other off any, and the lists agree again.
  del_invite-InvitesAgree : InvitesAgree (del_invite w c u)
  unfolding del_invite set_client set_channel
  del_invite-InvitesAgree = record {
    both = λ d x. ground (
      arith,
      del-occurs u x (w.channel c).invites (few c u),
      del-occurs c d (w.client u).invited (ok.once c u),
      ok.both d x,
      ok.both c x,
      ok.both d u,
      ok.both c u,
    );
    once = λ d x.
        ground (arith, del-occurs c d (w.client u).invited (ok.once c u), ok.once d x, ok.once d u);
  }

  del_invite-off : occurs c ((del_invite w c u).client u).invited ≡ 0
  unfolding del_invite set_client set_channel
  del_invite-off = ground (arith, del-occurs c c (w.client u).invited (ok.once c u))

-- The place of an invitation on both lists.
abbrev put_invite : World → ℕ → ℕ → World
put_invite w c u =
    set_client (set_channel w c (record (w.channel c) { invites = u ∷ (w.channel c).invites })) u
      (record (w.client u) { invited = c ∷ (w.client u).invited })

put_invite-InvitesAgree :
    (w : World) (c u : ℕ)
    → InvitesAgree w
    → occurs c (w.client u).invited ≡ 0
    → InvitesAgree (put_invite w c u)
unfolding set_client set_channel
put_invite-InvitesAgree w c u ok new = record {
  both = λ d x. ground (
    arith,
    occurs-cons x u (w.channel c).invites,
    occurs-cons d c (w.client u).invited,
    ok.both d x,
    ok.both c x,
    ok.both d u,
  );
  once = λ d x. ground (arith, occurs-cons d c (w.client u).invited, ok.once d x, ok.once d u);
}

count_links-del : (c : ℕ) (l : List ℕ) → occurs c l ≡ 0 → count_links (del c l) ≡ count_links l
unfolding count_links del occurs
count_links-del c [] h = refl
count_links-del c (x ∷ l) h = ground (arith, count_links-del c l)

put_one :
    (v : World) (c u : ℕ)
    → occurs c (v.client u).invited ≡ 0
    → occurs c ((put_invite v c u).client u).invited ≡ 1
unfolding set_client
put_one v c u h = ground (arith, occurs-cons c c (v.client u).invited)

put_longer :
    (v : World) (c u : ℕ)
    → count_links ((put_invite v c u).client u).invited ≡ count_links (v.client u).invited + 1
unfolding set_client count_links
put_longer v c u = ground arith

del_invite-length :
    (w : World) (c u : ℕ)
    → occurs c (w.client u).invited ≡ 0
    → count_links ((del_invite w c u).client u).invited ≡ count_links (w.client u).invited
unfolding del_invite set_client
del_invite-length w c u h = ground (arith, count_links-del c (w.client u).invited h)

module _ (g : Setting) (w : World) (c u : ℕ) (ok : InvitesAgree w) where
  -- What stands before the two links are made: one call of del_invite, or two.
  abbrev cleared : World
  cleared =
      if leb g.max_chans_per_user (count_links ((del_invite w c u).client u).invited)
      then del_invite (del_invite w c u) c u
      else del_invite w c u

  cleared_lem : InvitesAgree cleared × (occurs c (cleared.client u).invited ≡ 0)
  cleared_lem =
      let ok' = del_invite-InvitesAgree w c u ok in
      if_elim (λ v. InvitesAgree v × (occurs c (v.client u).invited ≡ 0))
        (leb g.max_chans_per_user (count_links ((del_invite w c u).client u).invited))
        (λ y. (
          del_invite-InvitesAgree (del_invite w c u) c u ok',
          del_invite-off (del_invite w c u) c u ok',
        ))
        (λ n. (ok', del_invite-off w c u ok))

  -- add_invite, where the lists of invitations agree: the channel and the client list each other
  -- then, once, and all lists agree again.
  pub add_invite-InvitesAgree :
      InvitesAgree (add_invite g w c u)
      × (occurs c ((add_invite g w c u).client u).invited ≡ 1)
      × (occurs u ((add_invite g w c u).channel c).invites ≡ 1)
  unfolding add_invite
  add_invite-InvitesAgree =
      let agree = put_invite-InvitesAgree cleared c u cleared_lem.0 cleared_lem.1 in
      let one : occurs c ((put_invite cleared c u).client u).invited ≡ 1 =
        put_one cleared c u cleared_lem.1 in
      (agree, one, agree.both c u ∙ one)

  cleared-length :
      occurs c (w.client u).invited ≡ 0
      → count_links (cleared.client u).invited ≡ count_links (w.client u).invited
  cleared-length new =
      let once = del_invite-length w c u new in
      let ok' = del_invite-InvitesAgree w c u ok in
      if_elim (λ (v : World). count_links (v.client u).invited ≡ count_links (w.client u).invited)
        (leb g.max_chans_per_user (count_links ((del_invite w c u).client u).invited))
        (λ y. del_invite-length (del_invite w c u) c u (del_invite-off w c u ok) ∙ once) (λ n. once)

  -- A client that is invited to one more channel has one more invitation, whatever
  -- ConfigChannel.max_chans_per_user is: the limit that add_invite tests for takes nothing away.
  pub add_invite_unlimited :
      occurs c (w.client u).invited ≡ 0
      → count_links ((add_invite g w c u).client u).invited ≡ count_links (w.client u).invited + 1
  unfolding add_invite
  add_invite_unlimited new = put_longer cleared c u ∙ ap (λ n. n + 1) (cleared-length new)
