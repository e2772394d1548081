-- ===== src/Channel/Leave.antt =====
-- src/channel.c and src/channel_mode.c: remove_user_from_channel, change_channel_membership and the
-- tests of a client's standing.
use ircd_hybrid_8_cvs.Common.{
  ℕ, ◌-◌, Bool, true, false, ◌&&◌, ◌||◌, List, [], ◌∷◌, none, some, ◌==◌, if◌then◌else◌,
}
use ircd_hybrid_8_cvs.Channel.Members.{
  has, Sublists, Rank, peon, chanop, chanop_voiced, voice, halfop, same_rank, find_rank, Channel,
  World, Setting, set_client, set_channel, put, take_off, forget, sub1_from_channel, leave_order,
  leave_order_local,
}

-- The end of remove_user_from_channel, behind the links on the channel's lists.
unfoldable pub leave_client : Setting → World → ℕ → ℕ → World
leave_client g w c u =
    let ch = w.channel c in
    let who = w.client u in
    set_client
      (set_channel w c (record ch {
        users_last = g.now;
        locusers = if who.is_mine then ch.locusers - 1 else ch.locusers;
      }))
      u (forget ch c who)

-- Off the list of members that was found.
unfoldable pub leave_everyone : World → ℕ → ℕ → Rank → World
leave_everyone w c u r =
    set_channel w c (record (w.channel c) { everyone = take_off r u (w.channel c).everyone })

-- Off the list of local members that was found.
unfoldable pub leave_local : World → ℕ → ℕ → Rank → World
leave_local w c u r =
    set_channel w c (record (w.channel c) { local = take_off r u (w.channel c).local })

-- `if (chptr->users == 1) ircsprintf(chptr->vchan_id, "!%s", who->name);`
unfoldable pub name_vchan : World → ℕ → ℕ → World
name_vchan w c u =
    if (w.channel c).users == 1
    then set_channel w c (record (w.channel c) { vchan_id = b'!' ∷ (w.client u).name })
    else w

-- remove_user_from_channel up to its call of sub1_from_channel, and whether it gets there.
unfoldable pub unlink_user : Setting → World → ℕ → ℕ → World × Bool
unlink_user g w c u =
    let w1 = name_vchan w c u in
    elim (find_rank leave_order (w.channel c).everyone u) [
      | none ↦ (w1, false)
      | some r ↦
          let w2 = leave_everyone w1 c u r in
          if (w.client u).is_mine
          then elim (find_rank leave_order_local (w.channel c).local u) [
            | none ↦ (w2, false)
            | some k ↦ (leave_client g (leave_local w2 c u k) c u, true)
          ]
          else (leave_client g w2 c u, true)
    ]

unfoldable pub finish_leaving : Setting → ℕ → Bool → World × Bool → World
finish_leaving g c perm (w, false) = w
finish_leaving g c perm (w, true) = sub1_from_channel g w c perm

-- remove_user_from_channel
unfoldable pub remove_user_from_channel : Setting → World → ℕ → ℕ → Bool → World
remove_user_from_channel g w c u perm = finish_leaving g c perm (unlink_user g w c u)

-- The order in which change_channel_membership searches, on the members and on the local ones.
abbrev pub change_order : List Rank
change_order = peon ∷ voice ∷ halfop ∷ chanop ∷ chanop_voiced ∷ []

-- A client goes from the list where it is found to another; the local lists are compared with a list
-- of all members, so there the test for the same list never holds.
unfoldable pub move_local : Rank → ℕ → Sublists → Sublists × Bool
move_local to u s = elim (find_rank change_order s u) [
  | none ↦ (s, false)
  | some r ↦ (put to u (take_off r u s), true)
]

unfoldable pub move_everyone : Rank → ℕ → Sublists → Sublists × Bool
move_everyone to u s = elim (find_rank change_order s u) [
  | none ↦ (s, false)
  | some r ↦ (if same_rank to r then s else put to u (take_off r u s), true)
]

-- change_channel_membership, to the list of members and the local list of one standing
unfoldable pub change_channel_membership : World → ℕ → Rank → ℕ → World × Bool
change_channel_membership w c to u =
    let ch = w.channel c in
    let mine = (w.client u).is_mine in
    let near = move_local to u ch.local in
    let far = move_everyone to u ch.everyone in
    (
      set_channel w c (record ch { everyone = far.0; local = if mine then near.0 else ch.local }),
      (if mine then near.1 else true) && far.1,
    )

-- is_chan_op, is_any_op, is_half_op and is_voiced
unfoldable pub is_chan_op : Channel → ℕ → Bool
is_chan_op ch u = has u ch.everyone.chanops || has u ch.everyone.chanops_voiced

unfoldable pub is_any_op : Channel → ℕ → Bool
is_any_op ch u =
    has u ch.everyone.chanops || has u ch.everyone.halfops || has u ch.everyone.chanops_voiced

unfoldable pub is_half_op : Channel → ℕ → Bool
is_half_op ch u = has u ch.everyone.halfops

unfoldable pub is_voiced : Channel → ℕ → Bool
is_voiced ch u = has u ch.everyone.voiced || has u ch.everyone.chanops_voiced

-- channel_chanop_or_voice
unfoldable pub channel_chanop_or_voice : Channel → ℕ → List ℕ
channel_chanop_or_voice ch u =
    if has u ch.everyone.chanops
    then b'@' ∷ []
    else if has u ch.everyone.halfops
    then b'%' ∷ []
    else if has u ch.everyone.voiced
    then b'+' ∷ []
    else if has u ch.everyone.chanops_voiced
    then b'@' ∷ b'+' ∷ []
    else []
