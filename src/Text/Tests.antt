-- ===== src/Text/Tests.antt =====
-- The theorems on texts at concrete ones.
use ircd_hybrid_8_cvs.Common.{ℕ, ◌≡◌, ◌↔◌, refl, true, some, List, [], ◌∷◌, map, arith}
use ircd_hybrid_8_cvs.Common.Int.{pos}
use ircd_hybrid_8_cvs.Text.Chars.{to_lower}
use ircd_hybrid_8_cvs.Text.Compare.{IsText, irccmp, irccmp_eq_iff}
use ircd_hybrid_8_cvs.Text.Glob.{
  match, match_loop, match_round, at_star, test_ends, skip_stars, compare_bytes, retry, open_end,
  open_back,
}
use ircd_hybrid_8_cvs.Text.Masks.{Fits}
use ircd_hybrid_8_cvs.Text.MaskEnds.{NoEscape, Decides}
use ircd_hybrid_8_cvs.Text.GlobLaws.{match-Fits}

-- "A{" and "a["
abbrev upper : List ℕ
upper = 65 ∷ 123 ∷ []

abbrev lower_case : List ℕ
lower_case = 97 ∷ 91 ∷ []

upper-IsText : IsText upper
upper-IsText = ((omega arith, omega arith), ((omega arith, omega arith), tt))

lower_case-IsText : IsText lower_case
lower_case-IsText = ((omega arith, omega arith), ((omega arith, omega arith), tt))

irccmp_eq_iff_example :
    (irccmp upper lower_case ≡ pos 0) ↔ (map to_lower upper ≡ map to_lower lower_case)
irccmp_eq_iff_example = irccmp_eq_iff upper lower_case upper-IsText lower_case-IsText

-- "a*b?" and "axxBc"
abbrev mask : List ℕ
mask = 97 ∷ 42 ∷ 98 ∷ 63 ∷ []

abbrev masked : List ℕ
masked = 97 ∷ 120 ∷ 120 ∷ 66 ∷ 99 ∷ []

mask-NoEscape : NoEscape mask
mask-NoEscape = (
  (λ e. absurd (omega arith)),
  ((λ e. absurd (omega arith)), ((λ e. absurd (omega arith)), ((λ e. absurd (omega arith)), tt))),
)

masked-IsText : IsText masked
masked-IsText = (
  (omega arith, omega arith),
  (
    (omega arith, omega arith),
    ((omega arith, omega arith), ((omega arith, omega arith), ((omega arith, omega arith), tt))),
  ),
)

match-Fits_example : Decides (Fits mask masked) (match mask masked)
match-Fits_example = match-Fits mask masked mask-NoEscape masked-IsText (omega arith)

-- The match succeeds.
match_test : match mask masked ≡ some true
unfolding match match_loop match_round at_star test_ends skip_stars compare_bytes retry open_end
    open_back to_lower
match_test = refl
