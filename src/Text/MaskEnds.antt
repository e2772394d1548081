-- ===== src/Text/MaskEnds.antt =====
-- src/match.c: the ends of masks, stars in a row, and what match asks of them.
use mathlib.Core.List.{reverse-append, reverse-cons, reverse-reverse}
use ircd_hybrid_8_cvs.Common.{
  ℕ, zero, suc, ◌≤◌, ◌<◌, ◌≡◌, ◌≢◌, refl, sym, ap, ◌∙◌, subst, ◌⊎◌, inl, inr, Bool, true, false,
  List, [], ◌∷◌, ◌++◌, append_assoc, ◌==◌, length, drop, arith, All, All-append, Bool-cases, Option,
  none, some, reverse,
}
use ircd_hybrid_8_cvs.Text.Chars.{to_lower, to_upper, case_tables_agree}
use ircd_hybrid_8_cvs.Text.Glob.{byte_of, skip_stars, open_back, open_end}
use ircd_hybrid_8_cvs.Text.Masks.{Accepts, NoStar}

-- No byte of the mask is a backslash.
abbrev pub NoEscape : List ℕ → Type 0
NoEscape = All (λ c. c ≢ b'\\')

-- An answer that decides a statement.
abbrev pub Decides : Type 0 → Option Bool → Type 0
Decides G none = ⊥
Decides G (some true) = G
Decides G (some false) = ¬ G

All-reverse : (P : ℕ → Type 0) (xs : List ℕ) → All P xs → All P (reverse xs)
All-reverse P [] h = h
All-reverse P (x ∷ xs) h =
    subst (All P) (sym (reverse-cons x xs))
      (All-append P (reverse xs) (x ∷ []) (All-reverse P xs h.1) (h.0, tt))

All-of_reverse : (P : ℕ → Type 0) (xs : List ℕ) → All P (reverse xs) → All P xs
All-of_reverse P xs h = subst (All P) (reverse-reverse xs) (All-reverse P (reverse xs) h)

open_back-nostar : (xs : List ℕ) → NoStar xs → open_back xs ≡ false
unfolding open_back
open_back-nostar [] h = refl
open_back-nostar (c ∷ []) h = refl
open_back-nostar (c ∷ d ∷ xs) h =
    let p = h.0 in let ih = open_back-nostar (d ∷ xs) h.1 in ground arith

open_back-marks :
    (xs ys : List ℕ) → NoStar xs → open_back (xs ++ ys) ≡ true → All (λ c. c ≡ b'?') xs
unfolding open_back
open_back-marks [] ys h o = tt
open_back-marks (c ∷ []) [] h o = absurd (ground arith)
open_back-marks (c ∷ []) (d ∷ ys) h o = let p = h.0 in (ground arith, tt)
open_back-marks (c ∷ d ∷ xs) ys h o =
    let p = h.0 in
    let q : c ≡ b'?' = ground arith in
    let r : open_back (d ∷ xs ++ ys) ≡ true = ground arith in (q, open_back-marks (d ∷ xs) ys h.1 r)

pub open_end-nostar : (xs : List ℕ) → NoStar xs → open_end xs ≡ false
unfolding open_end
open_end-nostar xs h = open_back-nostar (reverse xs) (All-reverse (λ c. c ≢ b'*') xs h)

pub open_end-marks :
    (pre ma : List ℕ) → NoStar ma → open_end (pre ++ b'*' ∷ ma) ≡ true → All (λ c. c ≡ b'?') ma
unfolding open_end
open_end-marks pre ma h o =
    All-of_reverse (λ c. c ≡ b'?') ma
      (open_back-marks (reverse ma) (b'*' ∷ reverse pre) (All-reverse (λ c. c ≢ b'*') ma h)
        (shape ∙ o))
  where
    shape : open_back (reverse ma ++ b'*' ∷ reverse pre) ≡ open_back (reverse (pre ++ b'*' ∷ ma))
    shape = ap open_back (
        sym (
          reverse-append pre (b'*' ∷ ma)
          ∙ ap (λ l. l ++ reverse pre) (reverse-cons b'*' ma)
          ∙ append_assoc (reverse ma) (b'*' ∷ []) (reverse pre)))

pub skip_stars-split : (m : List ℕ) → (zs : List ℕ) × (b'*' ∷ m ≡ zs ++ b'*' ∷ skip_stars m)
unfolding skip_stars
skip_stars-split [] = ([], refl)
skip_stars-split (c ∷ m) = elim (Bool-cases (c == b'*')) [
  | inl y ↦
      let e : c ≡ b'*' = ground arith in
      let (zs, q) = skip_stars-split m in (b'*' ∷ zs, rw y (ap (◌∷◌ b'*') (ap (λ x. x ∷ m) e ∙ q)))
  | inr ne ↦ ([], rw ne)
]

pub skip_stars-head : (m : List ℕ) → byte_of (skip_stars m) ≢ b'*'
unfolding skip_stars
skip_stars-head [] = λ e. absurd (omega arith)
skip_stars-head (c ∷ m) = let ih = skip_stars-head m in λ e. ground arith

pub skip_stars-length : (m : List ℕ) → length (skip_stars m) ≤ length m
unfolding skip_stars
skip_stars-length [] = omega arith
skip_stars-length (c ∷ m) = let ih = skip_stars-length m in ground arith

pub skip_stars-NoEscape : (m : List ℕ) → NoEscape m → NoEscape (skip_stars m)
unfolding skip_stars
skip_stars-NoEscape [] h = tt
skip_stars-NoEscape (c ∷ m) h = elim (Bool-cases (c == b'*')) [
  | inl y ↦ rw y (skip_stars-NoEscape m h.1)
  | inr ne ↦ rw ne h
]

pub NoEscape-head : (m : List ℕ) → NoEscape m → byte_of m ≢ b'\\'
NoEscape-head [] h = λ e. absurd (omega arith)
NoEscape-head (c ∷ m) h = h.0

pub All-drop : (P : ℕ → Type 0) (k : ℕ) (xs : List ℕ) → All P xs → All P (drop k xs)
All-drop P zero xs h = h
All-drop P (suc k) [] h = h
All-drop P (suc k) (x ∷ xs) h = All-drop P k xs h.1

pub Accepts-dec : (a c : ℕ) → Accepts a c ⊎ ¬ Accepts a c
Accepts-dec a c = elim (Bool-cases (to_lower a == to_lower c)) [
  | inl y ↦ inl (inl (ground arith))
  | inr ne ↦ elim (Bool-cases (a == b'?')) [
    | inl y ↦ inl (inr (ground arith))
    | inr ne' ↦ inr (λ h. elim h [ inl e ↦ ground arith | inr e ↦ ground arith ])
  ]
]

upper-lower_nul : to_upper (to_lower 0) ≡ 0
unfolding to_upper to_lower
upper-lower_nul = refl

-- No byte of a text is folded to NUL.
pub lower-nul_ne : (e : ℕ) → 1 ≤ e → e < 256 → to_lower 0 ≢ to_lower e
lower-nul_ne e low high = λ q. elim (case_tables_agree e high).4 [
  | inl z ↦ absurd (omega arith)
  | inr u ↦ u (sym (case_tables_agree e high).1 ∙ ap to_upper (sym q) ∙ upper-lower_nul)
]
