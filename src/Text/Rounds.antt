-- ===== src/Text/Rounds.antt =====
-- src/match.c: what a round of match does when no backslash is about.
use ircd_hybrid_8_cvs.Common.{ℕ, ◌≡◌, ◌≢◌, refl, inl, inr, Bool, true, false, List, [], ◌∷◌, arith}
use ircd_hybrid_8_cvs.Text.Chars.{to_lower}
use ircd_hybrid_8_cvs.Text.Glob.{
  Scan, done, again, byte_of, skip_stars, open_end, retry, compare_bytes, test_ends, at_star,
  match_round,
}
use ircd_hybrid_8_cvs.Text.Masks.{Accepts}

abbrev pub scan : List ℕ → List ℕ → List ℕ → List ℕ → Bool → Scan
scan x y u v w = record { m = x; n = y; ma = u; na = v; wild = w; quote = 0 }

module _ (mask : List ℕ) where
  pub round-nil_nil :
      (ma na : List ℕ) (w : Bool) → match_round mask (scan [] [] ma na w) ≡ done true
  unfolding match_round test_ends
  round-nil_nil ma na w = refl

  pub round-open :
      (c : ℕ) (n ma na : List ℕ) (w : Bool)
      → open_end mask ≡ true
      → match_round mask (scan [] (c ∷ n) ma na w) ≡ done true
  unfolding match_round test_ends
  round-open c n ma na w o = rw o

  pub round-nil_plain :
      (c : ℕ) (n ma na : List ℕ)
      → open_end mask ≡ false
      → match_round mask (scan [] (c ∷ n) ma na false) ≡ done false
  unfolding match_round test_ends
  round-nil_plain c n ma na o = rw o

  pub round-last :
      (c d : ℕ) (n : List ℕ)
      → open_end mask ≡ false
      → match_round mask (scan [] (c ∷ n) [] (d ∷ []) true) ≡ again (scan [] [] [] [] true)
  unfolding match_round test_ends retry compare_bytes
  round-last c d n o = ground arith

  pub round-nil_tail :
      (c d e : ℕ) (n na : List ℕ)
      → open_end mask ≡ false
      → to_lower 0 ≢ to_lower e
      → match_round mask (scan [] (c ∷ n) [] (d ∷ e ∷ na) true) ≡ again (scan [] na [] na true)
  unfolding match_round test_ends retry compare_bytes
  round-nil_tail c d e n na o h = ground arith

  pub round-again :
      (a c d e : ℕ) (n ma na : List ℕ)
      → open_end mask ≡ false
      → Accepts a e
      → match_round mask (scan [] (c ∷ n) (a ∷ ma) (d ∷ e ∷ na) true)
        ≡ again (scan ma na (a ∷ ma) (e ∷ na) true)
  unfolding match_round test_ends retry compare_bytes
  round-again a c d e n ma na o h = ground arith

  pub round-again_ne :
      (a c d e : ℕ) (n ma na : List ℕ)
      → open_end mask ≡ false
      → ¬ Accepts a e
      → match_round mask (scan [] (c ∷ n) (a ∷ ma) (d ∷ e ∷ na) true)
        ≡ again (scan (a ∷ ma) na (a ∷ ma) na true)
  unfolding match_round test_ends retry compare_bytes
  round-again_ne a c d e n ma na o h =
      let u : to_lower a ≢ to_lower e = λ x. h (inl x) in
      let v : a ≢ b'?' = λ x. h (inr x) in ground arith

  module _ (a : ℕ) (m : List ℕ) (plain : a ≢ b'*') (flat : a ≢ b'\\') where
    pub round-cons_nil :
        (ma na : List ℕ) (w : Bool) → match_round mask (scan (a ∷ m) [] ma na w) ≡ done false
    unfolding match_round test_ends skip_stars
    round-cons_nil ma na w = ground arith

    pub round-accept :
        (c : ℕ) (n ma na : List ℕ) (w : Bool)
        → Accepts a c
        → match_round mask (scan (a ∷ m) (c ∷ n) ma na w) ≡ again (scan m n ma na w)
    unfolding match_round test_ends compare_bytes
    round-accept c n ma na w ok = ground arith

    pub round-reject :
        (c d : ℕ) (n ma na : List ℕ)
        → ¬ Accepts a c
        → match_round mask (scan (a ∷ m) (c ∷ n) ma (d ∷ na) true) ≡ again (scan ma na ma na true)
    unfolding match_round test_ends compare_bytes retry
    round-reject c d n ma na h =
        let u : to_lower a ≢ to_lower c = λ x. h (inl x) in
        let v : a ≢ b'?' = λ x. h (inr x) in ground arith

    pub round-reject_plain :
        (c : ℕ) (n ma na : List ℕ)
        → ¬ Accepts a c
        → match_round mask (scan (a ∷ m) (c ∷ n) ma na false) ≡ done false
    unfolding match_round test_ends compare_bytes retry
    round-reject_plain c n ma na h =
        let u : to_lower a ≢ to_lower c = λ x. h (inl x) in
        let v : a ≢ b'?' = λ x. h (inr x) in ground arith

  pub round-star :
      (m n ma na : List ℕ) (w : Bool)
      → byte_of (skip_stars m) ≢ b'*'
      → byte_of (skip_stars m) ≢ b'\\'
      → match_round mask (scan (b'*' ∷ m) n ma na w)
        ≡ match_round mask (scan (skip_stars m) n (skip_stars m) n true)
  unfolding match_round at_star skip_stars
  round-star m n ma na w h k = ground arith
