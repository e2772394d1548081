-- ===== src/Text/Compare.antt =====
-- src/match.c: irccmp and collapse. A C string is the list of its bytes before the NUL.
use ircd_hybrid_8_cvs.Common.{
  ℕ, ◌≤◌, ◌<◌, ◌≡◌, refl, ◌↔◌, inl, inr, Bool, true, false, not, ◌&&◌, List, [], ◌∷◌, map, length,
  ◌==◌, ==_iff, if◌then◌else◌, arith, All, Bool-cases,
}
use ircd_hybrid_8_cvs.Common.Int.{ℤ, pos, negsuc, sub_ℕ}
use ircd_hybrid_8_cvs.Text.Chars.{to_lower, to_upper, case_tables_agree, to_upper-eq_iff}

-- Bytes of a C string.
abbrev pub IsText : List ℕ → Type 0
IsText = All (λ c. (1 ≤ c) × (c < 256))

-- irccmp, on two strings that end in NUL
unfoldable pub irccmp : List ℕ → List ℕ → ℤ
irccmp [] [] = pos 0
irccmp [] (b ∷ ys) = sub_ℕ (to_upper 0) (to_upper b)
irccmp (a ∷ xs) [] = sub_ℕ (to_upper a) (to_upper 0)
irccmp (a ∷ xs) (b ∷ ys) =
    if to_upper a == to_upper b then irccmp xs ys else sub_ℕ (to_upper a) (to_upper b)

abbrev pub is_zero : ℤ → Bool
is_zero (pos n) = n == 0
is_zero (negsuc n) = false

-- irccmp(a, b) == 0
unfoldable pub same_name : List ℕ → List ℕ → Bool
same_name a b = is_zero (irccmp a b)

-- The state of collapse: whether a star was just written, whether a backslash was just read.
unfoldable pub collapse_from : Bool → Bool → List ℕ → List ℕ
collapse_from star esc [] = []
collapse_from star esc (c ∷ cs) =
    let after_star = collapse_from true esc cs in
    let after_esc = collapse_from star true cs in
    let after_char = collapse_from false false cs in
    if not esc && c == b'*'
    then (if star then after_star else b'*' ∷ after_star)
    else if not esc && c == 92
    then 92 ∷ after_esc
    else c ∷ after_char

-- collapse
unfoldable pub collapse : List ℕ → List ℕ
unfolding collapse_from
collapse = collapse_from false false

to_upper-zero : to_upper 0 ≡ 0
unfolding to_upper
to_upper-zero = refl

-- irccmp finds two strings equal exactly when they are equal folded to lower case.
pub irccmp_eq_iff :
    (s t : List ℕ) → IsText s → IsText t → (irccmp s t ≡ pos 0) ↔ (map to_lower s ≡ map to_lower t)
unfolding irccmp
irccmp_eq_iff [] [] vs vt = ((λ _. refl), (λ _. refl))
irccmp_eq_iff [] (b ∷ ys) vs vt =
    let ub = case_tables_agree b vt.0.1 in
    ((λ e. absurd (ground (arith, to_upper-zero))), (λ e. cc))
irccmp_eq_iff (a ∷ xs) [] vs vt =
    let ua = case_tables_agree a vs.0.1 in
    ((λ e. absurd (ground (arith, to_upper-zero))), (λ e. cc))
irccmp_eq_iff (a ∷ xs) (b ∷ ys) vs vt =
    let rest = irccmp_eq_iff xs ys vs.1 vt.1 in
    let head = to_upper-eq_iff a b vs.0.1 vt.0.1 in
    elim (Bool-cases (to_upper a == to_upper b)) [
      | inl e ↦ rw e (
        (λ h. ground (arith, head.0 ((==_iff _ _).0 e), rest.0 h)),
        (λ h. let t : map to_lower xs ≡ map to_lower ys = cc in rest.1 t),
      )
      | inr e ↦ rw e (
        (λ h. absurd (ground arith)),
        (λ h. let k : to_lower a ≡ to_lower b = cc in absurd (ground (arith, head.1 k))),
      )
    ]

collapse_from_twice :
    (star esc : Bool) (p : List ℕ)
    → collapse_from star esc (collapse_from star esc p) ≡ collapse_from star esc p
unfolding collapse_from
collapse_from_twice star esc [] = refl
collapse_from_twice star esc (c ∷ cs) = ground (
  arith,
  collapse_from_twice true esc cs,
  collapse_from_twice star true cs,
  collapse_from_twice false false cs,
)

length-collapse_from : (star esc : Bool) (p : List ℕ) → length (collapse_from star esc p) ≤ length p
unfolding collapse_from
length-collapse_from star esc [] = omega arith
length-collapse_from star esc (c ∷ cs) = ground (
  arith,
  length-collapse_from true esc cs,
  length-collapse_from star true cs,
  length-collapse_from false false cs,
)

-- Collapsing a mask twice is collapsing it once, and no mask grows: the result fits the memory of
-- the argument, in which collapse writes it.
pub collapse_twice :
    (p : List ℕ) → (collapse (collapse p) ≡ collapse p) × (length (collapse p) ≤ length p)
unfolding collapse
collapse_twice p = (collapse_from_twice false false p, length-collapse_from false false p)

is_zero_iff : (z : ℤ) → (is_zero z ≡ true) ↔ (z ≡ pos 0)
is_zero_iff (pos n) = ground arith
is_zero_iff (negsuc n) = ground arith

pub same_name_iff :
    (s t : List ℕ)
    → IsText s
    → IsText t
    → (same_name s t ≡ true) ↔ (map to_lower s ≡ map to_lower t)
unfolding same_name
same_name_iff s t vs vt =
    let zero_iff = is_zero_iff (irccmp s t) in
    let iff = irccmp_eq_iff s t vs vt in ((λ h. iff.0 (zero_iff.0 h)), (λ h. zero_iff.1 (iff.1 h)))
