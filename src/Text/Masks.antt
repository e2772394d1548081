-- ===== src/Text/Masks.antt =====
-- src/match.c: what it means for a name to match a mask, with no order of search in it.
use ircd_hybrid_8_cvs.Common.{
  ℕ, zero, suc, ◌≤◌, ◌≡◌, ◌≢◌, refl, subst, ◌⊎◌, inl, inr, ◌↔◌, List, [], ◌∷◌, ◌++◌, ◌==◌, length,
  drop, arith, All, Bool-cases,
}
use ircd_hybrid_8_cvs.Text.Chars.{to_lower}
use ircd_hybrid_8_cvs.Text.Glob.{skip_stars}

-- A byte of a mask accepts a byte of a name: the same letter in any case, or '?'.
abbrev pub Accepts : ℕ → ℕ → Type 0
Accepts a c = (to_lower a ≡ to_lower c) ⊎ (a ≡ b'?')

-- The name matches the mask: a star stands for any bytes, any other byte for one that it accepts.
pub data Fits : List ℕ → List ℕ → Type 0 where
  nothing : Fits [] []
  byte : {a c : ℕ} {m n : List ℕ} → a ≢ b'*' → Accepts a c → Fits m n → Fits (a ∷ m) (c ∷ n)
  star_ends : {m n : List ℕ} → Fits m n → Fits (b'*' ∷ m) n
  star_takes : {c : ℕ} {m n : List ℕ} → Fits (b'*' ∷ m) n → Fits (b'*' ∷ m) (c ∷ n)

abbrev pub NoStar : List ℕ → Type 0
NoStar = All (λ c. c ≢ b'*')

fits-cons : {a c : ℕ} {m n : List ℕ} → a ≢ b'*' → Fits (a ∷ m) (c ∷ n) → Accepts a c × Fits m n
fits-cons h (byte g ok f) = (ok, f)
fits-cons h (star_ends f) = absurd (h refl)
fits-cons h (star_takes f) = absurd (h refl)

pub fits-cons_iff :
    {a c : ℕ} {m n : List ℕ} → a ≢ b'*' → Accepts a c → Fits (a ∷ m) (c ∷ n) ↔ Fits m n
fits-cons_iff h ok = ((λ f. (fits-cons h f).1), byte h ok)

pub fits-cons_ne : {a c : ℕ} {m n : List ℕ} → a ≢ b'*' → ¬ Accepts a c → ¬ Fits (a ∷ m) (c ∷ n)
fits-cons_ne h bad f = bad (fits-cons h f).0

pub fits-cons_nil : {a : ℕ} {m : List ℕ} → a ≢ b'*' → ¬ Fits (a ∷ m) []
fits-cons_nil h (star_ends f) = h refl

pub fits-nil_cons : {c : ℕ} {n : List ℕ} → ¬ Fits [] (c ∷ n)
fits-nil_cons f = elim f [ ]

-- A star more at the front changes nothing.
two_stars : {m n : List ℕ} → Fits (b'*' ∷ b'*' ∷ m) n → Fits (b'*' ∷ m) n
two_stars (byte h ok f) = absurd (h refl)
two_stars (star_ends f) = f
two_stars (star_takes f) = star_takes (two_stars f)

pub star-cons :
    {m n : List ℕ} {c : ℕ} → ¬ Fits m (c ∷ n) → Fits (b'*' ∷ m) (c ∷ n) ↔ Fits (b'*' ∷ m) n
star-cons bad = ((λ f. after f bad), star_takes)
  where
    after : {m n : List ℕ} {c : ℕ} → Fits (b'*' ∷ m) (c ∷ n) → ¬ Fits m (c ∷ n) → Fits (b'*' ∷ m) n
    after (byte h ok f) bad = absurd (h refl)
    after (star_ends f) bad = absurd (bad f)
    after (star_takes f) bad = f

pub star-skip_stars : (m : List ℕ) {n : List ℕ} → Fits (b'*' ∷ m) n ↔ Fits (b'*' ∷ skip_stars m) n
unfolding skip_stars
star-skip_stars [] = ((λ f. f), (λ f. f))
star-skip_stars (c ∷ m) {n} = elim (Bool-cases (c == b'*')) [
  | inl y ↦
      let e : c ≡ b'*' = ground arith in
      rw (y, e)
        ((λ f. (star-skip_stars m).0 (two_stars f)), (λ f. star_ends ((star-skip_stars m).1 f)))
  | inr ne ↦ rw ne ((λ f. f), (λ f. f))
]

-- Bytes that are no stars take as many bytes.
pub fits-append-length : (seg m n : List ℕ) → NoStar seg → Fits (seg ++ m) n → length seg ≤ length n
fits-append-length [] m n s f = omega arith
fits-append-length (a ∷ seg) m (c ∷ n) s (byte h ok f) =
    omega (arith, fits-append-length seg m n s.1 f)
fits-append-length (a ∷ seg) m n s (star_ends f) = absurd (s.0 refl)
fits-append-length (a ∷ seg) m n s (star_takes f) = absurd (s.0 refl)

pub fits-append : (seg m n : List ℕ) → NoStar seg → Fits (seg ++ m) n → Fits m (drop (length seg) n)
fits-append [] m n s f = f
fits-append (a ∷ seg) m (c ∷ n) s (byte h ok f) = fits-append seg m n s.1 f
fits-append (a ∷ seg) m n s (star_ends f) = absurd (s.0 refl)
fits-append (a ∷ seg) m n s (star_takes f) = absurd (s.0 refl)

pub star-append-length :
    (seg m v n : List ℕ) → NoStar seg → v ≡ seg ++ m → Fits (b'*' ∷ v) n → length seg ≤ length n
star-append-length seg m v n s e (byte h ok f) = absurd (h refl)
star-append-length seg m v n s e (star_ends f) =
    fits-append-length seg m n s (subst (λ t. Fits t n) e f)
star-append-length seg m v (c ∷ n) s e (star_takes f) =
    omega (arith, star-append-length seg m v n s e f)

star-drop :
    (k : ℕ) (n : List ℕ) {m : List ℕ}
    → Fits (b'*' ∷ m) (drop (suc k) n)
    → Fits (b'*' ∷ m) (drop k n)
star-drop zero [] f = f
star-drop zero (c ∷ n) f = star_takes f
star-drop (suc k) [] f = f
star-drop (suc k) (c ∷ n) f = star-drop k n f

-- A star before bytes that are no stars and a second star need not be searched again: the first
-- place where these bytes match will do.
pub star-append-star :
    (seg m v n : List ℕ)
    → NoStar seg
    → v ≡ seg ++ b'*' ∷ m
    → Fits (b'*' ∷ v) n
    → Fits (b'*' ∷ m) (drop (length seg) n)
star-append-star seg m v n s e (byte h ok f) = absurd (h refl)
star-append-star seg m v n s e (star_ends f) =
    fits-append seg (b'*' ∷ m) n s (subst (λ t. Fits t n) e f)
star-append-star seg m v (c ∷ n) s e (star_takes f) =
    star-drop (length seg) (c ∷ n) (star-append-star seg m v n s e f)

wider : (ma na : List ℕ) (a c : ℕ) → a ≡ b'?' → Fits (b'*' ∷ ma) na → Fits (b'*' ∷ a ∷ ma) (c ∷ na)
wider ma na a c q (byte h ok f) = absurd (h refl)
wider ma na a c q (star_ends f) = star_ends (byte (λ e. absurd (omega arith)) (inr q) f)
wider ma (d ∷ na) a c q (star_takes f) = star_takes (wider ma na a d q f)

-- A star and question marks match any text that is long enough.
pub star-fits :
    (ma na : List ℕ) → All (λ c. c ≡ b'?') ma → length ma ≤ length na → Fits (b'*' ∷ ma) na
star-fits [] [] q h = star_ends nothing
star-fits [] (c ∷ na) q h = star_takes (star-fits [] na q (omega arith))
star-fits (a ∷ ma) [] q h = elim h [ ]
star-fits (a ∷ ma) (c ∷ na) q h = wider ma na a c q.0 (star-fits ma na q.1 (omega arith))
