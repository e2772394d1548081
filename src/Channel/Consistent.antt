-- ===== src/Channel/Consistent.antt =====
-- src/channel.c and src/channel_mode.c: how the lists of channels and of clients agree, and add_user_to_channel.
use ircd_hybrid_8_cvs.Common.{
  ℕ, suc, ◌≤◌, ◌≡◌, ◌≢◌, sym, subst, ◌∙◌, true, length, ◌==◌, if◌then◌else◌, arith, Bool-cases, inl,
  inr, ◌⊎◌,
}
use ircd_hybrid_8_cvs.Common.Int.{pos, ◌+ℤ◌, ◌-ℤ◌}
use ircd_hybrid_8_cvs.Channel.Members.{
  Channel, Client, World, Setting, set_client, set_channel, rank_of, seat, enter,
  add_user_to_channel,
}
use ircd_hybrid_8_cvs.Channel.Lists.{occurs, standing, size, occurs-cons, standing-put, size-put}

-- Every client stands on a channel's lists exactly where its own list has the channel, and there
-- once; the local lists have the clients of this server; the counters are the lengths.
pub record IsConsistent (w : World) : Type 0 where
  pub linked : (c u : ℕ) → standing u (w.channel c).everyone ≡ occurs c (w.client u).channels
  pub once : (c u : ℕ) → occurs c (w.client u).channels ≤ 1
  pub near :
      (c u : ℕ)
      → standing u (w.channel c).local
        ≡ (if (w.client u).is_mine then occurs c (w.client u).channels else 0)
  pub users : (c : ℕ) → (w.channel c).users ≡ size (w.channel c).everyone
  pub locusers : (c : ℕ) → (w.channel c).locusers ≡ size (w.channel c).local
  pub joined : (u : ℕ) → (w.client u).joined ≡ pos (length (w.client u).channels)

pub pos-succ : (n : ℕ) → pos n +ℤ pos 1 ≡ pos (suc n)
unfolding ◌+ℤ◌
pos-succ n = ground arith

pub pos-pred : (n : ℕ) → pos (suc n) -ℤ pos 1 ≡ pos n
unfolding ◌-ℤ◌
pos-pred n = ground arith

-- What the invariant reads of a channel, and of a client, is the same in two states.
abbrev pub SameSeats : Channel → Channel → Type 0
SameSeats a b =
    (a.everyone ≡ b.everyone)
    × (a.local ≡ b.local)
    × (a.users ≡ b.users)
    × (a.locusers ≡ b.locusers)

abbrev pub SameLinks : Client → Client → Type 0
SameLinks a b = (a.is_mine ≡ b.is_mine) × (a.channels ≡ b.channels) × (a.joined ≡ b.joined)

-- From w to v one channel and one client change, and agree again.
pub record IsLinked (w v : World) (c u : ℕ) : Type 0 where
  pub channel_else : (d : ℕ) → d ≢ c → SameSeats (v.channel d) (w.channel d)
  pub client_else : (x : ℕ) → x ≢ u → SameLinks (v.client x) (w.client x)
  pub mine : (v.client u).is_mine ≡ (w.client u).is_mine
  pub elsewhere : (d : ℕ) → d ≢ c → occurs d (v.client u).channels ≡ occurs d (w.client u).channels
  pub once : occurs c (v.client u).channels ≤ 1
  pub others :
      (x : ℕ) → x ≢ u → standing x (v.channel c).everyone ≡ standing x (w.channel c).everyone
  pub linked : standing u (v.channel c).everyone ≡ occurs c (v.client u).channels
  pub others_near :
      (x : ℕ) → x ≢ u → standing x (v.channel c).local ≡ standing x (w.channel c).local
  pub near :
      standing u (v.channel c).local
      ≡ (if (v.client u).is_mine then occurs c (v.client u).channels else 0)
  pub users : (v.channel c).users ≡ size (v.channel c).everyone
  pub locusers : (v.channel c).locusers ≡ size (v.channel c).local
  pub joined : (v.client u).joined ≡ pos (length (v.client u).channels)

-- Either two addresses are the same, or they are not.
pub addresses : (a b : ℕ) → (a ≡ b) ⊎ (a ≢ b)
addresses a b = elim (Bool-cases (a == b)) [
  | inl y ↦ inl (ground arith)
  | inr n ↦ inr (λ e. ground arith)
]

module _ (w v : World) (c u : ℕ) (ok : IsConsistent w) (new : IsLinked w v c u) where
  set-linked : (d x : ℕ) → standing x (v.channel d).everyone ≡ occurs d (v.client x).channels
  set-linked d x = elim (addresses d c) [
    | inl y ↦ elim (addresses x u) [
      | inl z ↦ rw (y, z) new.linked
      | inr z ↦ rw (y, (new.client_else x z).1) (new.others x z ∙ ok.linked c x)
    ]
    | inr y ↦ elim (addresses x u) [
      | inl z ↦ rw (z, (new.channel_else d y).0) (ok.linked d u ∙ sym (new.elsewhere d y))
      | inr z ↦ rw ((new.channel_else d y).0, (new.client_else x z).1) (ok.linked d x)
    ]
  ]

  set-once : (d x : ℕ) → occurs d (v.client x).channels ≤ 1
  set-once d x = elim (addresses x u) [
    | inl z ↦ elim (addresses d c) [
      | inl y ↦ rw (y, z) new.once
      | inr y ↦ rw (z, new.elsewhere d y) (ok.once d u)
    ]
    | inr z ↦ rw ((new.client_else x z).1) (ok.once d x)
  ]

  set-near :
      (d x : ℕ)
      → standing x (v.channel d).local
        ≡ (if (v.client x).is_mine then occurs d (v.client x).channels else 0)
  set-near d x = elim (addresses d c) [
    | inl y ↦ elim (addresses x u) [
      | inl z ↦ rw (y, z) new.near
      | inr z ↦ rw y (ground (arith, new.client_else x z, new.others_near x z, ok.near c x))
    ]
    | inr y ↦ elim (addresses x u) [
      | inl z ↦ ground (arith, new.channel_else d y, new.mine, new.elsewhere d y, ok.near d u)
      | inr z ↦ ground (arith, new.channel_else d y, new.client_else x z, ok.near d x)
    ]
  ]

  pub set-IsConsistent : IsConsistent v
  set-IsConsistent = record {
    linked = set-linked;
    once = set-once;
    near = set-near;
    users = λ d. elim (addresses d c) [
      | inl y ↦ rw y new.users
      | inr y ↦ ground (arith, new.channel_else d y, ok.users d)
    ];
    locusers = λ d. elim (addresses d c) [
      | inl y ↦ rw y new.locusers
      | inr y ↦ ground (arith, new.channel_else d y, ok.locusers d)
    ];
    joined = λ x. elim (addresses x u) [
      | inl z ↦ rw z new.joined
      | inr z ↦ ground (arith, new.client_else x z, ok.joined x)
    ];
  }

module _ (g : Setting) (w : World) (c u flags : ℕ) where
  abbrev added : World
  added =
      set_client (set_channel w c (seat g (w.channel c) (w.client u) u (rank_of flags))) u
        (enter c (w.client u))

  added-IsLinked : IsConsistent w → occurs c (w.client u).channels ≡ 0 → IsLinked w added c u
  unfolding set_client set_channel seat enter
  added-IsLinked ok new =
      let here = standing-put (rank_of flags) u u (w.channel c).everyone in
      let here_near = standing-put (rank_of flags) u u (w.channel c).local in
      let on = occurs-cons c c (w.client u).channels in
      record {
        channel_else = λ d ne. (ground arith, ground arith, ground arith, ground arith);
        client_else = λ x ne. (ground arith, ground arith, ground arith);
        mine = ground arith;
        elsewhere = λ d ne. ground (arith, occurs-cons d c (w.client u).channels);
        once = ground arith;
        others = λ x ne. ground (arith, standing-put (rank_of flags) u x (w.channel c).everyone);
        linked = ground (arith, ok.linked c u);
        others_near = λ x ne. ground (arith, standing-put (rank_of flags) u x (w.channel c).local);
        near = ground (arith, ok.near c u);
        users = ground (arith, size-put (rank_of flags) u (w.channel c).everyone, ok.users c);
        locusers = ground (arith, size-put (rank_of flags) u (w.channel c).local, ok.locusers c);
        joined = ground (arith, ok.joined u, pos-succ (length (w.client u).channels));
      }

  -- Where the lists agree, add_user_to_channel leaves all lists and counters in agreement, for a client
  -- that has a struct User and is not on the channel, whatever the flags are.
  pub add_user_to_channel-IsConsistent :
      IsConsistent w
      → (w.client u).has_user ≡ true
      → occurs c (w.client u).channels ≡ 0
      → IsConsistent (add_user_to_channel g w c u flags)
  unfolding add_user_to_channel set_client
  add_user_to_channel-IsConsistent ok present new =
      let e : add_user_to_channel g w c u flags ≡ added = rw (add_user_to_channel, present) in
      subst IsConsistent (sym e) (set-IsConsistent w added c u ok (added-IsLinked ok new))
