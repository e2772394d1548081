-- ===== src/Mode/Seats.antt =====
-- src/channel_mode.c: the modes that leave the lists of members and their counters alone.
use ircd_hybrid_8_cvs.Common.{
  ℕ, ◌-◌, ◌+◌, refl, Bool, true, false, ◌&&◌, not, List, [], ◌∷◌, Option, none, some, if_elim, ◌==◌,
  leb, if◌then◌else◌,
}
use ircd_hybrid_8_cvs.Text.Glob.{is_end}
use ircd_hybrid_8_cvs.Channel.Members.{BanEntry, Channel, Client, World, set_channel}
use ircd_hybrid_8_cvs.Channel.Access.{has_mode}
use ircd_hybrid_8_cvs.Channel.Consistent.{SameSeats}
use ircd_hybrid_8_cvs.Channel.Bans.{
  MaskKind, ban, exception, invex, unknown, bans_of, with_bans, is_covered, ban_entry, add_entry,
  add_to, id_given, add_id, del_entry, del_found, del_from, del_id, fix_key, fix_key_old,
}
use ircd_hybrid_8_cvs.Mode.State.{
  Dir, mode_query, mode_add, mode_del, mode_hideops, Change, ModeCommand, State, chptr, source_p,
  set_chptr, plus_unless, note_plus, minus_unless, note_minus,
}
use ircd_hybrid_8_cvs.Mode.Simple.{
  set_bit, clear_bit, flip_bit, hide_ops, show_ops, flip_hideops, is_no_limit, set_limit, add_limit,
  change_limit, set_key, starts_blank, add_key, drop_key, change_key,
}
use ircd_hybrid_8_cvs.Mode.Masks.{note_added, add_mask, note_deleted, del_raw, del_pretty, del_mask}
use ircd_hybrid_8_cvs.Mode.Handled.{After}

with_bans-SameSeats :
    (kind : MaskKind) (ch : Channel) (l : List BanEntry) (n : ℕ)
    → SameSeats (with_bans kind ch l n) ch
unfolding with_bans
with_bans-SameSeats ban ch l n = (refl, refl, refl, refl)
with_bans-SameSeats exception ch l n = (refl, refl, refl, refl)
with_bans-SameSeats invex ch l n = (refl, refl, refl, refl)
with_bans-SameSeats unknown ch l n = (refl, refl, refl, refl)

-- The channel that add_id or del_id leaves
abbrev pub KeepsSeats : Channel → Option (Channel × Bool) → Type 0
KeepsSeats ch none = Unit
KeepsSeats ch (some (ch', b)) = SameSeats ch' ch

add_entry-KeepsSeats :
    (kind : MaskKind) (ch : Channel) (l : List BanEntry) (b : BanEntry) (o : Option Bool)
    → KeepsSeats ch (add_entry kind ch l b o)
unfolding add_entry
add_entry-KeepsSeats kind ch l b none = tt
add_entry-KeepsSeats kind ch l b (some true) = (refl, refl, refl, refl)
add_entry-KeepsSeats kind ch l b (some false) =
    with_bans-SameSeats kind ch (b ∷ l) (ch.num_mask + 1)

add_to-KeepsSeats :
    (kind : MaskKind) (ch : Channel) (who : Client) (banid : List ℕ) (now : ℕ)
    (o : Option (List BanEntry))
    → KeepsSeats ch (add_to kind ch who banid now o)
unfolding add_to
add_to-KeepsSeats kind ch who banid now none = (refl, refl, refl, refl)
add_to-KeepsSeats kind ch who banid now (some l) =
    add_entry-KeepsSeats kind ch l (ban_entry who banid now) (is_covered l banid)

pub add_id-KeepsSeats :
    (maxbans now : ℕ) (is_server : Bool) (who : Client) (ch : Channel) (banid : List ℕ)
    (kind : MaskKind)
    → KeepsSeats ch (add_id maxbans now is_server who ch banid kind)
unfolding add_id
add_id-KeepsSeats maxbans now is_server who ch banid kind =
    if_elim (KeepsSeats ch) (not is_server && leb maxbans ch.num_mask && who.is_mine)
      (λ y. (refl, refl, refl, refl))
      (λ n. add_to-KeepsSeats kind ch who (id_given who banid) now (bans_of kind ch))

del_found-SameSeats :
    (kind : MaskKind) (ch : Channel) (o : Option (List BanEntry))
    → SameSeats (del_found kind ch o).0 ch
unfolding del_found
del_found-SameSeats kind ch none = (refl, refl, refl, refl)
del_found-SameSeats kind ch (some l) = with_bans-SameSeats kind ch l (ch.num_mask - 1)

del_from-SameSeats :
    (kind : MaskKind) (ch : Channel) (banid : List ℕ) (o : Option (List BanEntry))
    → SameSeats (del_from kind ch banid o).0 ch
unfolding del_from
del_from-SameSeats kind ch banid none = (refl, refl, refl, refl)
del_from-SameSeats kind ch banid (some l) = del_found-SameSeats kind ch (del_entry banid l)

pub del_id-SameSeats :
    (ch : Channel) (banid : List ℕ) (kind : MaskKind) → SameSeats (del_id ch banid kind).0 ch
unfolding del_id
del_id-SameSeats ch banid kind = del_from-SameSeats kind ch banid (bans_of kind ch)

-- A statement of the world that does not depend on the other fields of a channel
module _ (P : World → Type 0)
    (touched : (w : World) (c : ℕ) (ch : Channel)
      → SameSeats ch (w.channel c)
      → P w
      → P (set_channel w c ch))
    (m : ModeCommand) where
  abbrev Holds : State → Type 0
  Holds s = P s.world

  plus_unless-Holds :
      (x : Change) (s : State) (o : Option (List Change)) → Holds s → Holds (plus_unless x s o)
  unfolding plus_unless
  plus_unless-Holds x s none h = h
  plus_unless-Holds x s (some l) h = h

  minus_unless-Holds :
      (x : Change) (s : State) (o : Option (List Change)) → Holds s → Holds (minus_unless x s o)
  unfolding minus_unless
  minus_unless-Holds x s none h = h
  minus_unless-Holds x s (some l) h = h

  hide_ops-Holds : (c : ℕ) (s : State) (o : Option (List Change)) → Holds s → Holds (hide_ops c s o)
  unfolding hide_ops
  hide_ops-Holds c s none h = h
  hide_ops-Holds c s (some l) h = h

  show_ops-Holds : (c : ℕ) (s : State) (o : Option (List Change)) → Holds s → Holds (show_ops c s o)
  unfolding show_ops
  show_ops-Holds c s none h = h
  show_ops-Holds c s (some l) h = h

  set_chptr-Holds :
      (s : State) (ch : Channel) → SameSeats ch (chptr m s) → Holds s → Holds (set_chptr m s ch)
  unfolding set_chptr chptr
  set_chptr-Holds s ch same h = touched s.world m.channel ch same h

  pub flip_bit-Holds :
      (dir : Dir) (c bit : ℕ) (s : State) → Holds s → Holds (flip_bit m dir c bit s)
  unfolding flip_bit set_bit clear_bit note_plus note_minus
  flip_bit-Holds mode_query c bit s h = h
  flip_bit-Holds mode_add c bit s h =
      if_elim Holds (has_mode (chptr m s) bit) (λ y. h)
        (λ k. plus_unless-Holds _ _ _ (set_chptr-Holds s _ (refl, refl, refl, refl) h))
  flip_bit-Holds mode_del c bit s h =
      if_elim Holds (has_mode (chptr m s) bit)
        (λ y. minus_unless-Holds _ _ _ (set_chptr-Holds s _ (refl, refl, refl, refl) h)) (λ k. h)

  pub flip_hideops-Holds :
      (dir : Dir) (c : ℕ) (s : State) → Holds s → Holds (flip_hideops m dir c s)
  unfolding flip_hideops set_bit clear_bit
  flip_hideops-Holds mode_query c s h = h
  flip_hideops-Holds mode_add c s h =
      if_elim Holds (has_mode (chptr m s) mode_hideops) (λ y. h)
        (λ k. hide_ops-Holds c _ _ (set_chptr-Holds s _ (refl, refl, refl, refl) h))
  flip_hideops-Holds mode_del c s h =
      if_elim Holds (has_mode (chptr m s) mode_hideops)
        (λ y. show_ops-Holds c _ _ (set_chptr-Holds s _ (refl, refl, refl, refl) h)) (λ k. h)

  add_limit-Holds :
      (strtoul : List ℕ → ℕ) (c : ℕ) (l : List (List ℕ)) (s : State)
      → Holds s
      → Holds (add_limit strtoul m c l s)
  unfolding add_limit set_limit set_chptr
  add_limit-Holds strtoul c [] s h = h
  add_limit-Holds strtoul c (t ∷ l) s h =
      if_elim Holds (is_no_limit (strtoul t)) (λ y. h)
        (λ k. set_chptr-Holds _ _ (refl, refl, refl, refl) h)

  pub change_limit-Holds :
      (strtoul : List ℕ → ℕ) (dir : Dir) (c : ℕ) (s : State)
      → Holds s
      → Holds (change_limit strtoul m dir c s)
  unfolding change_limit note_minus
  change_limit-Holds strtoul mode_query c s h = h
  change_limit-Holds strtoul mode_add c s h = add_limit-Holds strtoul c s.params s h
  change_limit-Holds strtoul mode_del c s h =
      if_elim Holds ((chptr m s).limit == 0) (λ y. h)
        (λ k. minus_unless-Holds _ _ _ (set_chptr-Holds s _ (refl, refl, refl, refl) h))

  add_key-Holds : (c : ℕ) (l : List (List ℕ)) (s : State) → Holds s → After Holds (add_key m c l s)
  unfolding add_key set_key set_chptr
  add_key-Holds c [] s h = h
  add_key-Holds c (t ∷ l) s h =
      if_elim (After Holds)
        (starts_blank (if (source_p m s).is_mine then fix_key t else fix_key_old t)) (λ y. tt)
        (λ k. set_chptr-Holds _ _ (refl, refl, refl, refl) h)

  pub change_key-Holds :
      (dir : Dir) (c : ℕ) (s : State) → Holds s → After Holds (change_key m dir c s)
  unfolding change_key drop_key set_chptr
  change_key-Holds mode_query c s h = h
  change_key-Holds mode_add c s h = add_key-Holds c s.params s h
  change_key-Holds mode_del c s h =
      if_elim Holds (is_end (chptr m s).key) (λ y. h)
        (λ k. set_chptr-Holds _ _ (refl, refl, refl, refl) h)

  note_added-Holds :
      (kind : MaskKind) (c : ℕ) (mask : List ℕ) (s : State) (o : Option (Channel × Bool))
      → KeepsSeats (chptr m s) o
      → Holds s
      → After Holds (note_added m kind c mask s o)
  unfolding note_added note_plus
  note_added-Holds kind c mask s none same h = tt
  note_added-Holds kind c mask s (some (ch, false)) same h = h
  note_added-Holds kind c mask s (some (ch, true)) same h =
      plus_unless-Holds _ _ _ (set_chptr-Holds s ch same h)

  pub add_mask-Holds :
      (kind : MaskKind) (c : ℕ) (mask : List ℕ) (s : State)
      → Holds s
      → After Holds (add_mask m kind c (some mask) s)
  unfolding add_mask
  add_mask-Holds kind c mask s h =
      note_added-Holds kind c mask s _
        (add_id-KeepsSeats m.maxbans m.now m.source_server (source_p m s) (chptr m s) mask kind) h

  del_raw-Holds :
      (kind : MaskKind) (c : ℕ) (raw : List ℕ) (s : State) (r : Channel × Bool)
      → SameSeats r.0 (chptr m s)
      → Holds s
      → Holds (del_raw m kind c raw s r)
  unfolding del_raw note_deleted note_minus
  del_raw-Holds kind c raw s (ch, true) same h =
      minus_unless-Holds _ _ _ (set_chptr-Holds s ch same h)
  del_raw-Holds kind c raw s (ch, false) same h = h

  del_pretty-Holds :
      (kind : MaskKind) (c : ℕ) (mask raw : List ℕ) (s : State) (r : Channel × Bool)
      → SameSeats r.0 (chptr m s)
      → Holds s
      → Holds (del_pretty m kind c mask raw s r)
  unfolding del_pretty note_deleted note_minus
  del_pretty-Holds kind c mask raw s (ch, true) same h =
      minus_unless-Holds _ _ _ (set_chptr-Holds s ch same h)
  del_pretty-Holds kind c mask raw s (ch, false) same h =
      del_raw-Holds kind c raw s _ (del_id-SameSeats (chptr m s) raw kind) h

  pub del_mask-Holds :
      (kind : MaskKind) (c : ℕ) (o : Option (List ℕ)) (raw : List ℕ) (s : State)
      → Holds s
      → Holds (del_mask m kind c o raw s)
  unfolding del_mask
  del_mask-Holds kind c none raw s h =
      del_raw-Holds kind c raw s _ (del_id-SameSeats (chptr m s) raw kind) h
  del_mask-Holds kind c (some mask) raw s h =
      del_pretty-Holds kind c mask raw s _ (del_id-SameSeats (chptr m s) mask kind) h
