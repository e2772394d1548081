-- ===== src/Channel/BanLaws.antt =====
-- src/channel.c: check_banned, against the meaning of masks.
use ircd_hybrid_8_cvs.Common.{
  ℕ, suc, ◌+◌, ◌*◌, ◌<◌, ◌≡◌, refl, ◌⊎◌, inl, inr, Bool, true, false, List, [], ◌∷◌, Option, none,
  some, length, All,
}
use ircd_hybrid_8_cvs.Text.Compare.{IsText}
use ircd_hybrid_8_cvs.Text.Glob.{match}
use ircd_hybrid_8_cvs.Text.Masks.{Fits}
use ircd_hybrid_8_cvs.Text.MaskEnds.{NoEscape, Decides}
use ircd_hybrid_8_cvs.Text.GlobLaws.{match-Fits}
use ircd_hybrid_8_cvs.Channel.Members.{Channel}
use ircd_hybrid_8_cvs.Channel.Access.{
  Ban, unbanned, banned, excepted, Rules, masks_of, or_else, matches_one, any_match, ban_of,
  check_banned,
}

-- One of the masks fits one of the two names.
abbrev pub AnyFits : List (List ℕ) → List ℕ → List ℕ → Type 0
AnyFits [] s s2 = ⊥
AnyFits (mask ∷ masks) s s2 = (Fits mask s ⊎ Fits mask s2) ⊎ AnyFits masks s s2

-- A mask with no backslash that match can search for in a name within its rounds.
abbrev pub IsSearchable : List ℕ → List ℕ → Type 0
IsSearchable s mask = NoEscape mask × (length s * suc (length mask) + length mask < 512)

abbrev pub AreSearchable : List ℕ → List ℕ → List (List ℕ) → Type 0
AreSearchable s s2 = All (λ mask. IsSearchable s mask × IsSearchable s2 mask)

-- The name is banned, by a mask of the bans and none of the exceptions.
abbrev pub IsBanned : Rules → Channel → List ℕ → List ℕ → Type 0
IsBanned g ch s s2 =
    AnyFits (masks_of ch.banlist) s s2
    × ¬ ((g.use_except ≡ true) × AnyFits (masks_of ch.exceptlist) s s2)

or_else-Decides :
    (P Q : Type 0) (a b : Option Bool) → Decides P a → Decides Q b → Decides (P ⊎ Q) (or_else a b)
unfolding or_else
or_else-Decides P Q none b p q = elim p [ ]
or_else-Decides P Q (some true) b p q = inl p
or_else-Decides P Q (some false) none p q = elim q [ ]
or_else-Decides P Q (some false) (some true) p q = inr q
or_else-Decides P Q (some false) (some false) p q = λ h. elim h [ inl x ↦ p x | inr y ↦ q y ]

-- The answer of a loop over masks is whether one of them fits.
pub any_match-Decides :
    (s s2 : List ℕ) (masks : List (List ℕ))
    → IsText s
    → IsText s2
    → AreSearchable s s2 masks
    → Decides (AnyFits masks s s2) (any_match masks s s2)
unfolding any_match matches_one
any_match-Decides s s2 [] text text2 h = λ x. x
any_match-Decides s s2 (mask ∷ masks) text text2 h =
    or_else-Decides (Fits mask s ⊎ Fits mask s2) (AnyFits masks s s2) (matches_one mask s s2)
      (any_match masks s s2)
      (or_else-Decides (Fits mask s) (Fits mask s2) (match mask s) (match mask s2)
        (match-Fits mask s h.0.0.0 text h.0.0.1) (match-Fits mask s2 h.0.1.0 text2 h.0.1.1))
      (any_match-Decides s s2 masks text text2 h.1)

-- What an answer of check_banned says of being banned.
abbrev pub BanDecides : Type 0 → Option Ban → Type 0
BanDecides G none = ⊥
BanDecides G (some banned) = G
BanDecides G (some unbanned) = ¬ G
BanDecides G (some excepted) = ¬ G

ban_of-BanDecides :
    (P Q : Type 0) (on : Bool) (a b : Option Bool)
    → Decides P a
    → Decides Q b
    → BanDecides (P × ¬ ((on ≡ true) × Q)) (ban_of on a b)
unfolding ban_of
ban_of-BanDecides P Q on none b p q = elim p [ ]
ban_of-BanDecides P Q on (some false) b p q = λ h. p h.0
ban_of-BanDecides P Q false (some true) b p q = (p, λ h. cc)
ban_of-BanDecides P Q true (some true) none p q = elim q [ ]
ban_of-BanDecides P Q true (some true) (some true) p q = λ h. h.1 (refl, q)
ban_of-BanDecides P Q true (some true) (some false) p q = (p, λ h. q h.1)

-- For bans and exceptions with no backslash, short enough for the rounds of match: check_banned
-- answers CHFL_BAN if some ban fits one of the two names of the client and no exception that is in
-- use does; otherwise it answers something else, and it never reads behind the end of a name.
pub check_banned-IsBanned :
    (g : Rules) (ch : Channel) (s s2 : List ℕ)
    → IsText s
    → IsText s2
    → AreSearchable s s2 (masks_of ch.banlist)
    → AreSearchable s s2 (masks_of ch.exceptlist)
    → BanDecides (IsBanned g ch s s2) (check_banned g ch s s2)
unfolding check_banned
check_banned-IsBanned g ch s s2 text text2 bans excepts =
    ban_of-BanDecides (AnyFits (masks_of ch.banlist) s s2) (AnyFits (masks_of ch.exceptlist) s s2)
      g.use_except (any_match (masks_of ch.banlist) s s2) (any_match (masks_of ch.exceptlist) s s2)
      (any_match-Decides s s2 (masks_of ch.banlist) text text2 bans)
      (any_match-Decides s s2 (masks_of ch.exceptlist) text text2 excepts)
