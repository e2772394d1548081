-- ===== src/Channel/Joined.antt =====
-- src/channel.c: where add_user_to_channel puts a client.
use ircd_hybrid_8_cvs.Common.{ℕ, ◌+◌, ◌≡◌, ◌≢◌, ◌⊎◌, true, if◌then◌else◌}
use ircd_hybrid_8_cvs.Channel.Members.{has, Rank, peon, chanop, voice, halfop, list_of, World}
use ircd_hybrid_8_cvs.Channel.Lists.{occurs, standing}
use ircd_hybrid_8_cvs.Channel.Consistent.{IsConsistent}

-- The list that a value of `flags` asks for: MODE_CHANOP is 1, MODE_HALFOP 8 and MODE_VOICE 2.
abbrev pub IsFor : ℕ → Rank → Type 0
IsFor flags r =
    ((flags ≡ 1) × (r ≡ chanop))
    ⊎ ((flags ≡ 8) × (r ≡ halfop))
    ⊎ ((flags ≡ 2) × (r ≡ voice))
    ⊎ ((flags ≢ 1) × (flags ≢ 8) × (flags ≢ 2) × (r ≡ peon))

-- The client `u` came on the channel `c` with the rank `r`: it stands on the list of the rank and on
-- no other, on the local list of it exactly if it is connected here, and has the channel once on its
-- own list; the other members stand where they stood, and there is one member more.
pub record HasJoined (w v : World) (c u : ℕ) (r : Rank) : Type 0 where
  pub agrees : IsConsistent v
  pub on : has u (list_of r (v.channel c).everyone) ≡ true
  pub alone : standing u (v.channel c).everyone ≡ 1
  pub near : has u (list_of r (v.channel c).local) ≡ (w.client u).is_mine
  pub listed : occurs c (v.client u).channels ≡ 1
  pub others :
      (x : ℕ) → x ≢ u → standing x (v.channel c).everyone ≡ standing x (w.channel c).everyone
  pub users : (v.channel c).users ≡ (w.channel c).users + 1
  pub locusers :
      (v.channel c).locusers
      ≡ (if (w.client u).is_mine then (w.channel c).locusers + 1 else (w.channel c).locusers)
