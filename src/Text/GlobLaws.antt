-- ===== src/Text/GlobLaws.antt =====
-- src/match.c: match and the meaning of masks, for masks with no backslash.
use ircd_hybrid_8_cvs.Common.{
  ℕ, zero, suc, ◌+◌, ◌*◌, ◌≤◌, ◌<◌, ◌≡◌, ◌≢◌, refl, sym, ◌∙◌, subst, inl, inr, ◌↔◌, true, false,
  List, [], ◌∷◌, ◌++◌, append-nil, append_assoc, ◌==◌, length, arith, All-append, Bool-cases,
}
use ircd_hybrid_8_cvs.Text.Compare.{IsText}
use ircd_hybrid_8_cvs.Text.Glob.{match_max_calls, match_loop, match}
use ircd_hybrid_8_cvs.Text.Masks.{
  Fits, nothing, NoStar, fits-cons_iff, fits-cons_ne, fits-cons_nil, fits-nil_cons,
}
use ircd_hybrid_8_cvs.Text.Rounds.{
  scan, round-nil_nil, round-nil_plain, round-cons_nil, round-accept, round-reject_plain,
}
use ircd_hybrid_8_cvs.Text.MaskEnds.{NoEscape, Decides, open_end-nostar, Accepts-dec}
use ircd_hybrid_8_cvs.Text.Held.{star_here}
use ircd_hybrid_8_cvs.Text.Search.{next, last, from_star, behind}

module _ (G : Type 0) (mask : List ℕ) where
  -- What is claimed before any star.
  abbrev Ahead : ℕ → Type 0
  Ahead calls =
      (pre m n ma na : List ℕ) (w : ℕ)
      → mask ≡ pre ++ m
      → NoStar pre
      → (G ↔ Fits m n)
      → NoEscape m
      → IsText n
      → length n ≤ w
      → w * suc (length mask) + length m + 1 ≤ calls
      → Decides G (match_loop calls mask (scan m n ma na false))

  ahead-cons :
      (calls a : ℕ) (pre m n ma na : List ℕ) (w : ℕ)
      → Ahead calls
      → a ≢ b'*'
      → mask ≡ pre ++ a ∷ m
      → NoStar pre
      → (G ↔ Fits (a ∷ m) n)
      → NoEscape (a ∷ m)
      → IsText n
      → length n ≤ w
      → w * suc (length mask) + length (a ∷ m) + 1 ≤ suc calls
      → Decides G (match_loop (suc calls) mask (scan (a ∷ m) n ma na false))
  ahead-cons calls a pre m [] ma na w ih p e s g flat text lw fuel =
      last G mask calls (a ∷ m) [] ma na false false (round-cons_nil mask a m p flat.0 ma na false)
        (λ x. fits-cons_nil p (g.0 x))
  ahead-cons calls a pre m (c ∷ n) ma na w ih p e s g flat text lw fuel = elim (Accepts-dec a c) [
    | inl ok ↦
        let on = fits-cons_iff p ok in
        next G mask calls (a ∷ m) (c ∷ n) ma na false
          (round-accept mask a m p flat.0 c n ma na false ok)
          (ih (pre ++ a ∷ []) m n ma na w (e ∙ sym (append_assoc pre (a ∷ []) m))
            (All-append (λ x. x ≢ b'*') pre (a ∷ []) s (p, tt))
            ((λ x. on.0 (g.0 x)), (λ f. g.1 (on.1 f))) flat.1 text.1 (omega arith) (omega arith))
    | inr bad ↦
        last G mask calls (a ∷ m) (c ∷ n) ma na false false
          (round-reject_plain mask a m p flat.0 c n ma na bad) (λ x. fits-cons_ne p bad (g.0 x))
  ]

  ahead : (calls : ℕ) → Ahead calls
  ahead zero pre m n ma na w e s g flat text lw fuel = absurd (omega arith)
  ahead (suc calls) pre [] [] ma na w e s g flat text lw fuel =
      last G mask calls [] [] ma na false true (round-nil_nil mask ma na false) (g.1 nothing)
  ahead (suc calls) pre [] (c ∷ n) ma na w e s g flat text lw fuel =
      last G mask calls [] (c ∷ n) ma na false false
        (round-nil_plain mask c n ma na
          (open_end-nostar mask (subst NoStar (sym (e ∙ append-nil pre)) s)))
        (λ x. fits-nil_cons (g.0 x))
  ahead (suc calls) pre (a ∷ m) n ma na w e s g flat text lw fuel = elim (Bool-cases (a == b'*')) [
    | inl y ↦
        let q : a ≡ b'*' = ground arith in
        subst (λ x. Decides G (match_loop (suc calls) mask (scan (x ∷ m) n ma na false))) (sym q)
          (from_star G mask calls m n ma na false w (behind G mask calls)
            (star_here G mask pre (subst (λ x. mask ≡ pre ++ x ∷ m) q e)
              (subst (λ x. G ↔ Fits (x ∷ m) n) q g) flat.1 text)
            flat.1 lw (omega arith))
    | inr ne ↦
        let p : a ≢ b'*' = λ q. ground arith in
        ahead-cons calls a pre m n ma na w (ahead calls) p e s g flat text lw fuel
  ]

-- For a mask with no backslash and a name of bytes that are no NUL, such that the length of the name
-- times one more than the length of the mask, and the length of the mask, add up to less than the
-- 512 rounds: match answers yes if the name fits the mask, by the meaning that knows no order of
-- search; it answers no if it does not; and it never reads behind the NUL of the name.
pub match-Fits :
    (mask name : List ℕ)
    → NoEscape mask
    → IsText name
    → length name * suc (length mask) + length mask < 512
    → Decides (Fits mask name) (match mask name)
unfolding match
match-Fits mask name flat text fuel =
    ahead (Fits mask name) mask match_max_calls [] mask name mask name (length name) refl tt
      ((λ f. f), (λ f. f)) flat text (omega arith) (omega arith)
