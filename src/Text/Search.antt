-- ===== src/Text/Search.antt =====
-- src/match.c: the search of match behind a star.
use native.Mathlib.Nat.{suc-mul}
use ircd_hybrid_8_cvs.Common.{
  ℕ, zero, suc, ◌+◌, ◌*◌, ◌≤◌, ◌<◌, ◌≡◌, ◌≢◌, refl, sym, ap, ◌∙◌, subst, inl, inr, ◌↔◌, Bool, true,
  false, List, [], ◌∷◌, ◌==◌, length, length-append, length-drop, drop, arith, Bool-cases, some,
}
use ircd_hybrid_8_cvs.Text.Glob.{
  Scan, done, again, byte_of, skip_stars, open_end, match_round, match_loop,
}
use ircd_hybrid_8_cvs.Text.Masks.{
  Fits, nothing, byte, star_ends, star_takes, NoStar, fits-cons_ne, fits-cons_nil, fits-nil_cons,
  star-append-length, star-fits,
}
use ircd_hybrid_8_cvs.Text.Rounds.{
  scan, round-nil_nil, round-open, round-last, round-nil_tail, round-again, round-again_ne,
  round-cons_nil, round-accept, round-reject, round-star,
}
use ircd_hybrid_8_cvs.Text.MaskEnds.{
  NoEscape, Decides, open_end-marks, skip_stars-head, skip_stars-length, skip_stars-NoEscape,
  NoEscape-head, Accepts-dec, lower-nul_ne,
}
use ircd_hybrid_8_cvs.Text.Held.{Held, restart, advance, star_again, spent, room}

module _ (G : Type 0) (mask : List ℕ) where
  -- The loop decides the statement behind a star, with so many rounds left.
  abbrev pub Behind : ℕ → Type 0
  Behind calls =
      (m n ma na : List ℕ) (w : ℕ)
      → Held G mask m n ma na
      → length na ≤ w
      → w * suc (length mask) + length m + 1 ≤ calls
      → Decides G (match_loop calls mask (scan m n ma na true))

  pub next :
      (calls : ℕ) (m n ma na : List ℕ) (wild : Bool) {t : Scan}
      → match_round mask (scan m n ma na wild) ≡ again t
      → Decides G (match_loop calls mask t)
      → Decides G (match_loop (suc calls) mask (scan m n ma na wild))
  unfolding match_loop
  next calls m n ma na wild {t} e h =
      let same : match_loop (suc calls) mask (scan m n ma na wild) ≡ match_loop calls mask t =
        ground arith in
      subst (Decides G) (sym same) h

  pub last :
      (calls : ℕ) (m n ma na : List ℕ) (wild b : Bool)
      → match_round mask (scan m n ma na wild) ≡ done b
      → Decides G (some b)
      → Decides G (match_loop (suc calls) mask (scan m n ma na wild))
  unfolding match_loop
  last calls m n ma na wild b e h =
      let same : match_loop (suc calls) mask (scan m n ma na wild) ≡ some b = ground arith in
      subst (Decides G) (sym same) h

  less : (w k l b calls : ℕ) → suc w * k + l + 1 ≤ suc calls → b < k → w * k + b + 1 ≤ calls
  less w k l b calls h q = omega (arith, suc-mul w k)

  short : {m n ma na : List ℕ} → Held G mask m n ma na → length ma < suc (length mask)
  short {ma} h = omega (arith, ap length h.front, length-append h.pre (b'*' ∷ ma))

  -- The mask is used up and the name is not: the tail of the search.
  behind-nil :
      (calls : ℕ) (c : ℕ) (n ma na : List ℕ) (w : ℕ)
      → Behind calls
      → Held G mask [] (c ∷ n) ma na
      → length na ≤ w
      → w * suc (length mask) + 1 ≤ suc calls
      → open_end mask ≡ false
      → Decides G (match_loop (suc calls) mask (scan [] (c ∷ n) ma na true))
  behind-nil calls c n ma [] w ih h lw fuel o = absurd (nowhere (length h.seg) (h.place))
    where
      nowhere : (k : ℕ) → c ∷ n ≡ drop k [] → ⊥
      nowhere zero e = cc
      nowhere (suc k) e = cc
  behind-nil calls c n [] (d ∷ []) zero ih h lw fuel o = elim lw [ ]
  behind-nil calls c n [] (d ∷ []) (suc w) ih h lw fuel o =
      next calls [] (c ∷ n) [] (d ∷ []) true (round-last mask c d n o) (
        ih [] [] [] [] w (restart G mask h fits-nil_cons) (omega arith)
          (less w (suc (length mask)) 0 0 calls (omega arith) (omega arith)))
  behind-nil calls c n [] (d ∷ e ∷ na) zero ih h lw fuel o = elim lw [ ]
  behind-nil calls c n [] (d ∷ e ∷ na) (suc w) ih h lw fuel o =
      let h' = restart G mask h fits-nil_cons in
      next calls [] (c ∷ n) [] (d ∷ e ∷ na) true
        (round-nil_tail mask c d e n na o (lower-nul_ne e h.text.1.0.0 h.text.1.0.1))
        (ih [] na [] na w (restart G mask h' fits-nil_cons) (omega arith)
          (less w (suc (length mask)) 0 0 calls (omega arith) (omega arith)))
  behind-nil calls c n (a ∷ ma) (d ∷ []) w ih h lw fuel o =
      absurd (omega (arith, ap length (spent G mask h), room G mask h))
  behind-nil calls c n (a ∷ ma) (d ∷ e ∷ na) zero ih h lw fuel o = elim lw [ ]
  behind-nil calls c n (a ∷ ma) (d ∷ e ∷ na) (suc w) ih h lw fuel o =
      let h' = restart G mask h fits-nil_cons in
      let star_less : a ≢ b'*' = (subst NoStar (spent G mask h) h.plain).0 in
      elim (Accepts-dec a e) [
        | inl ok ↦
            next calls [] (c ∷ n) (a ∷ ma) (d ∷ e ∷ na) true (round-again mask a c d e n ma na o ok)
              (ih ma na (a ∷ ma) (e ∷ na) w (advance G mask h' star_less ok) (omega arith) (
                less w (suc (length mask)) 0 (length ma) calls (omega arith)
                  (omega (arith, short h))))
        | inr bad ↦
            next calls [] (c ∷ n) (a ∷ ma) (d ∷ e ∷ na) true
              (round-again_ne mask a c d e n ma na o bad)
              (ih (a ∷ ma) na (a ∷ ma) na w (restart G mask h' (fits-cons_ne star_less bad))
                (omega arith)
                (less w (suc (length mask)) 0 (length (a ∷ ma)) calls (omega arith) (short h)))
      ]

  behind-ends :
      (calls : ℕ) (a : ℕ) (m ma na : List ℕ)
      → a ≢ b'*'
      → Held G mask (a ∷ m) [] ma na
      → Decides G (match_loop (suc calls) mask (scan (a ∷ m) [] ma na true))
  behind-ends calls a m ma na star_less h =
      last calls (a ∷ m) [] ma na true false (round-cons_nil mask a m star_less h.flat.0 ma na true)
        (λ g. nowhere na h.place h.same h.inside (h.whole.0 g))
    where
      nowhere :
          (na : List ℕ)
          → [] ≡ drop (length h.seg) na
          → Fits ma na ↔ Fits (a ∷ m) []
          → length h.seg ≤ length na
          → ¬ Fits (b'*' ∷ ma) na
      nowhere na e s inside (byte p ok f) = absurd (p refl)
      nowhere na e s inside (star_ends f) = absurd (fits-cons_nil star_less (s.0 f))
      nowhere (c ∷ na) e s inside (star_takes f) = omega (
        arith,
        ap length e,
        length-drop (length h.seg) (c ∷ na),
        star-append-length h.seg (a ∷ m) ma na h.plain h.split f,
      )

  -- Behind a star, where the mask goes on with no star.
  behind-step :
      (calls : ℕ) (m n ma na : List ℕ) (w : ℕ)
      → Behind calls
      → byte_of m ≢ b'*'
      → Held G mask m n ma na
      → length na ≤ w
      → w * suc (length mask) + length m + 1 ≤ suc calls
      → Decides G (match_loop (suc calls) mask (scan m n ma na true))
  behind-step calls [] [] ma na w ih p h lw fuel =
      last calls [] [] ma na true true (round-nil_nil mask ma na true)
        (h.whole.1 (star_ends (h.same.1 nothing)))
  behind-step calls [] (c ∷ n) ma na w ih p h lw fuel = elim (Bool-cases (open_end mask)) [
    | inl o ↦ last calls [] (c ∷ n) ma na true true (round-open mask c n ma na true o) (
        h.whole.1 (
          star-fits ma na
            (open_end-marks h.pre ma (subst NoStar (spent G mask h) h.plain)
              (ap open_end (sym h.front) ∙ o))
            (omega (arith, ap length (spent G mask h), h.inside))))
    | inr o ↦ behind-nil calls c n ma na w ih h lw (omega arith) o
  ]
  behind-step calls (a ∷ m) [] ma na w ih p h lw fuel = behind-ends calls a m ma na p h
  behind-step calls (a ∷ m) (c ∷ n) ma [] w ih p h lw fuel = absurd (omega (arith, room G mask h))
  behind-step calls (a ∷ m) (c ∷ n) ma (d ∷ na) zero ih p h lw fuel = elim lw [ ]
  behind-step calls (a ∷ m) (c ∷ n) ma (d ∷ na) (suc w) ih p h lw fuel = elim (Accepts-dec a c) [
    | inl ok ↦
        next calls (a ∷ m) (c ∷ n) ma (d ∷ na) true
          (round-accept mask a m p h.flat.0 c n ma (d ∷ na) true ok)
          (ih m n ma (d ∷ na) (suc w) (advance G mask h p ok) lw (omega arith))
    | inr bad ↦
        next calls (a ∷ m) (c ∷ n) ma (d ∷ na) true
          (round-reject mask a m p h.flat.0 c d n ma na bad)
          (ih ma na ma na w (restart G mask h (fits-cons_ne p bad)) (omega arith)
            (less w (suc (length mask)) (length (a ∷ m)) (length ma) calls fuel (short h)))
  ]

  -- A round that begins at a star is the round behind the stars.
  at_star-step :
      (calls : ℕ) (m n ma na : List ℕ) (wild : Bool)
      → NoEscape m
      → Decides G (match_loop (suc calls) mask (scan (skip_stars m) n (skip_stars m) n true))
      → Decides G (match_loop (suc calls) mask (scan (b'*' ∷ m) n ma na wild))
  unfolding match_loop
  at_star-step calls m n ma na wild flat h =
      let e =
        round-star mask m n ma na wild (skip_stars-head m)
          (NoEscape-head (skip_stars m) (skip_stars-NoEscape m flat)) in
      let same : match_loop (suc calls) mask (scan (b'*' ∷ m) n ma na wild)
          ≡ match_loop (suc calls) mask (scan (skip_stars m) n (skip_stars m) n true) =
        ground arith in
      subst (Decides G) (sym same) h

  pub from_star :
      (calls : ℕ) (m n ma na : List ℕ) (wild : Bool) (w : ℕ)
      → Behind calls
      → Held G mask (skip_stars m) n (skip_stars m) n
      → NoEscape m
      → length n ≤ w
      → w * suc (length mask) + length m + 1 ≤ calls
      → Decides G (match_loop (suc calls) mask (scan (b'*' ∷ m) n ma na wild))
  from_star calls m n ma na wild w ih h flat lw fuel = at_star-step calls m n ma na wild flat (
      behind-step calls (skip_stars m) n (skip_stars m) n w ih (skip_stars-head m) h lw
        (omega (arith, skip_stars-length m)))

  behind-cons :
      (calls a : ℕ) (m n ma na : List ℕ) (w : ℕ)
      → Behind calls
      → Held G mask (a ∷ m) n ma na
      → length na ≤ w
      → w * suc (length mask) + length (a ∷ m) + 1 ≤ suc calls
      → Decides G (match_loop (suc calls) mask (scan (a ∷ m) n ma na true))
  behind-cons calls a m n ma na w ih h lw fuel = elim (Bool-cases (a == b'*')) [
    | inl y ↦
        let e : a ≡ b'*' = ground arith in
        let h' = subst (λ x. Held G mask (x ∷ m) n ma na) e h in
        subst (λ x. Decides G (match_loop (suc calls) mask (scan (x ∷ m) n ma na true))) (sym e)
          (from_star calls m n ma na true w ih (star_again G mask h') h.flat.1
            (omega (arith, ap length h.place, length-drop (length h.seg) na)) (omega arith))
    | inr ne ↦ behind-step calls (a ∷ m) n ma na w ih (λ e. ground arith) h lw fuel
  ]

  pub behind : (calls : ℕ) → Behind calls
  behind zero m n ma na w h lw fuel = absurd (omega arith)
  behind (suc calls) [] n ma na w h lw fuel =
      behind-step calls [] n ma na w (behind calls) (λ e. absurd (omega arith)) h lw fuel
  behind (suc calls) (a ∷ m) n ma na w h lw fuel =
      behind-cons calls a m n ma na w (behind calls) h lw fuel
