-- ===== src/Whowas/Chains.antt =====
-- src/whowas.c: how often a slot stands in a list, when slots are added and deleted.
use ircd_hybrid_8_cvs.Common.{
  ℕ, suc, ◌-◌, ◌≡◌, refl, ap, ◌≢◌, true, List, [], ◌∷◌, Option, none, some, ◌==◌, if◌then◌else◌,
  arith,
}
use ircd_hybrid_8_cvs.Whowas.{assign, del_slot}

-- How often a slot stands in a list.
abbrev pub count : ℕ → List ℕ → ℕ
count i [] = 0
count i (j ∷ js) = if j == i then suc (count i js) else count i js

-- 1 if a field holds the number, else 0.
abbrev pub held : ℕ → Option ℕ → ℕ
held k none = 0
held k (some m) = if m == k then 1 else 0

pub count-del_slot : (i : ℕ) (js : List ℕ) → count i (del_slot i js) ≡ count i js - 1
unfolding del_slot
count-del_slot i [] = refl
count-del_slot i (j ∷ js) = ground (arith, count-del_slot i js)

pub count-del_slot_ne : (i k : ℕ) (js : List ℕ) → k ≢ i → count k (del_slot i js) ≡ count k js
unfolding del_slot
count-del_slot_ne i k [] ne = refl
count-del_slot_ne i k (j ∷ js) ne = ground (arith, count-del_slot_ne i k js ne)

pub assign_self {ℓ} : {A : Type ℓ} (t : ℕ → A) (i : ℕ) (a : A) → assign t i a i ≡ a
unfolding assign
assign_self t i a = ap (λ b. if b then a else t i) same
  where
    same : (i == i) ≡ true
    same = ground arith
