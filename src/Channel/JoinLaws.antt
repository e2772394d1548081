-- ===== src/Channel/JoinLaws.antt =====
-- src/channel.c: can_join, against a list of what it asks for.
use ircd_hybrid_8_cvs.Common.{
  ℕ, ◌<◌, ◌≡◌, ◌≢◌, refl, ◌⊎◌, inl, inr, ◌↔◌, Bool, true, false, ◌&&◌, ◌||◌, not, List, [], ◌∷◌,
  Option, none, some, ◌==◌, leb, map, arith, Bool-cases, if_elim,
}
use ircd_hybrid_8_cvs.Text.Chars.{to_lower}
use ircd_hybrid_8_cvs.Text.Compare.{IsText, same_name, same_name_iff}
use ircd_hybrid_8_cvs.Text.Glob.{is_end}
use ircd_hybrid_8_cvs.Text.MaskEnds.{Decides}
use ircd_hybrid_8_cvs.Channel.Members.{has, Channel, Client}
use ircd_hybrid_8_cvs.Channel.Access.{
  Ban, unbanned, banned, excepted, Entry, welcome, banned_from_chan, invite_only_chan,
  bad_channel_key, channel_is_full, Rules, mode_inviteonly, has_mode, masks_of, any_match,
  check_banned, join_unless_banned, src_host, src_iphost, key_and_limit, is_let_in, join_let_in,
  can_join,
}
use ircd_hybrid_8_cvs.Channel.BanLaws.{
  AnyFits, AreSearchable, IsBanned, any_match-Decides, BanDecides, check_banned-IsBanned,
}

-- Who may join: not banned; invited, or let in by a mask, where that is asked for; with the right key
-- and with room on the channel.
abbrev pub IsAsked : Rules → Channel → ℕ → Client → Type 0
IsAsked g ch c who =
    (has_mode ch mode_inviteonly ≡ false)
    ⊎ (has c who.invited ≡ true)
    ⊎ ((g.use_invex ≡ true) × AnyFits (masks_of ch.invexlist) (src_host who) (src_iphost who))

abbrev pub HasKey : Channel → List ℕ → Type 0
HasKey ch key = (ch.key ≡ []) ⊎ ((key ≢ []) × (map to_lower ch.key ≡ map to_lower key))

abbrev pub HasRoom : Channel → Type 0
HasRoom ch = (ch.limit ≡ 0) ⊎ (ch.users < ch.limit)

abbrev pub MayJoin : Rules → Channel → ℕ → Client → List ℕ → Type 0
MayJoin g ch c who key =
    ¬ IsBanned g ch (src_host who) (src_iphost who)
    × (IsAsked g ch c who × (HasKey ch key × HasRoom ch))

Decides-iff : (P Q : Type 0) (o : Option Bool) → (P ↔ Q) → Decides P o → Decides Q o
Decides-iff P Q none e d = d
Decides-iff P Q (some true) e d = e.0 d
Decides-iff P Q (some false) e d = λ q. d (e.1 q)

-- What an answer of can_join says of joining.
abbrev pub EntryDecides : Type 0 → Option Entry → Type 0
EntryDecides G none = ⊥
EntryDecides G (some welcome) = G
EntryDecides G (some other) = ¬ G

wrong_key :
    (a b : List ℕ)
    → IsText a
    → IsText b
    → (not (is_end a) && (is_end b || not (same_name a b))) ≡ true
    → ¬ ((a ≡ []) ⊎ ((b ≢ []) × (map to_lower a ≡ map to_lower b)))
wrong_key [] b ta tb h = absurd (cc)
wrong_key (x ∷ a) [] ta tb h = λ k. elim k [ inl e ↦ absurd (cc) | inr p ↦ p.0 refl ]
wrong_key (x ∷ a) (y ∷ b) ta tb h = λ k. elim k [
  | inl e ↦ absurd (cc)
  | inr p ↦ let e = (same_name_iff (x ∷ a) (y ∷ b) ta tb).1 p.1 in ground arith
]

right_key :
    (a b : List ℕ)
    → IsText a
    → IsText b
    → (not (is_end a) && (is_end b || not (same_name a b))) ≡ false
    → (a ≡ []) ⊎ ((b ≢ []) × (map to_lower a ≡ map to_lower b))
right_key [] b ta tb h = inl refl
right_key (x ∷ a) [] ta tb h = absurd (cc)
right_key (x ∷ a) (y ∷ b) ta tb h =
    inr ((λ e. absurd (cc)), (same_name_iff (x ∷ a) (y ∷ b) ta tb).0 (ground arith))

entry-and : (P K : Type 0) (e : Entry) → P → EntryDecides K (some e) → EntryDecides (P × K) (some e)
entry-and P K welcome p d = (p, d)
entry-and P K banned_from_chan p d = λ h. d h.1
entry-and P K invite_only_chan p d = λ h. d h.1
entry-and P K bad_channel_key p d = λ h. d h.1
entry-and P K channel_is_full p d = λ h. d h.1

join_let_in-Decides :
    (P K : Type 0) (ch : Channel) (key : List ℕ) (o : Option Bool)
    → Decides P o
    → EntryDecides K (some (key_and_limit ch key))
    → EntryDecides (P × K) (join_let_in ch key o)
unfolding join_let_in
join_let_in-Decides P K ch key none p k = elim p [ ]
join_let_in-Decides P K ch key (some false) p k = λ h. p h.0
join_let_in-Decides P K ch key (some true) p k = entry-and P K (key_and_limit ch key) p k

join_unless_banned-Decides :
    (B J : Type 0) (b : Option Ban) (e : Option Entry)
    → BanDecides B b
    → EntryDecides J e
    → EntryDecides (¬ B × J) (join_unless_banned b e)
unfolding join_unless_banned
join_unless_banned-Decides B J none e b j = elim b [ ]
join_unless_banned-Decides B J (some banned) e b j = λ h. h.0 b
join_unless_banned-Decides B J (some unbanned) none b j = elim j [ ]
join_unless_banned-Decides B J (some unbanned) (some e) b j = entry-and (¬ B) J e b j
join_unless_banned-Decides B J (some excepted) none b j = elim j [ ]
join_unless_banned-Decides B J (some excepted) (some e) b j = entry-and (¬ B) J e b j

module _ (g : Rules) (ch : Channel) (c : ℕ) (who : Client) where
  is_let_in-Decides :
      IsText (src_host who)
      → IsText (src_iphost who)
      → AreSearchable (src_host who) (src_iphost who) (masks_of ch.invexlist)
      → Decides (IsAsked g ch c who) (is_let_in g ch c who)
  unfolding is_let_in
  is_let_in-Decides text text2 h =
      let search =
        any_match-Decides (src_host who) (src_iphost who) (masks_of ch.invexlist) text text2 h in
      let A = IsAsked g ch c who in
      let X = AnyFits (masks_of ch.invexlist) (src_host who) (src_iphost who) in
      if_elim (Decides A) (has_mode ch mode_inviteonly)
        (λ m.
          if_elim (Decides A) (has c who.invited) (λ y. inr (inl y))
            (λ n.
              if_elim (Decides A) (not g.use_invex)
                (λ z h. elim h [
                  | inl x ↦ cc
                  | inr r ↦ elim r [ inl x ↦ cc | inr x ↦ let k = x.0 in ground arith ]
                ])
                (λ z.
                  Decides-iff X A
                    (any_match (masks_of ch.invexlist) (src_host who) (src_iphost who))
                    (
                      (λ x. inr (inr (ground arith, x))),
                      (λ h. elim h [
                        | inl x ↦ absurd (cc)
                        | inr r ↦ elim r [ inl x ↦ absurd (cc) | inr x ↦ x.1 ]
                      ]),
                    )
                    search)))
        (λ m. inl m)

  key_and_limit-Decides :
      (key : List ℕ)
      → IsText ch.key
      → IsText key
      → EntryDecides (HasKey ch key × HasRoom ch) (some (key_and_limit ch key))
  unfolding key_and_limit
  key_and_limit-Decides key tk t =
      let A = HasKey ch key × HasRoom ch in
      if_elim (λ e. EntryDecides A (some e))
        (not (is_end ch.key) && (is_end key || not (same_name ch.key key)))
        (λ bad h. wrong_key ch.key key tk t bad h.0)
        (λ good.
          if_elim (λ e. EntryDecides A (some e)) (not (ch.limit == 0) && leb ch.limit ch.users)
            (λ full h. elim h.1 [ inl x ↦ ground arith | inr x ↦ ground arith ])
            (λ space. (
              right_key ch.key key tk t good,
              elim (Bool-cases (ch.limit == 0)) [
                | inl x ↦ inl (ground arith)
                | inr x ↦ inr (ground arith)
              ],
            )))

  -- For a client of this server, and masks with no backslash, short enough for the rounds of match:
  -- can_join lets the client in exactly if it is not banned; it is invited, or a mask of the channel lets it in, where the
  -- channel is for invited clients only; it gives the key, in any case of letters, where there is
  -- one; and the channel has room. It always answers.
  pub can_join-MayJoin :
      (key : List ℕ)
      → who.is_mine ≡ true
      → IsText (src_host who)
      → IsText (src_iphost who)
      → IsText ch.key
      → IsText key
      → AreSearchable (src_host who) (src_iphost who) (masks_of ch.banlist)
      → AreSearchable (src_host who) (src_iphost who) (masks_of ch.exceptlist)
      → AreSearchable (src_host who) (src_iphost who) (masks_of ch.invexlist)
      → EntryDecides (MayJoin g ch c who key) (can_join g ch c who key)
  unfolding can_join
  can_join-MayJoin key mine text text2 tk t bans excepts invexes =
      let s = src_host who in
      let s2 = src_iphost who in
      if_elim (EntryDecides (MayJoin g ch c who key)) (not who.is_mine)
        (λ far. absurd (ground arith))
        (λ near.
          join_unless_banned-Decides (IsBanned g ch s s2)
            (IsAsked g ch c who × (HasKey ch key × HasRoom ch)) (check_banned g ch s s2)
            (join_let_in ch key (is_let_in g ch c who))
            (check_banned-IsBanned g ch s s2 text text2 bans excepts)
            (join_let_in-Decides (IsAsked g ch c who) (HasKey ch key × HasRoom ch) ch key
              (is_let_in g ch c who) (is_let_in-Decides text text2 invexes)
              (key_and_limit-Decides key tk t)))
