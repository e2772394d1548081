-- ===== src/Text/Held.antt =====
-- src/match.c: what the variables of match hold behind a star, and how the rounds keep it.
use ircd_hybrid_8_cvs.Common.{
  ℕ, zero, suc, ◌+◌, ◌≤◌, ◌<◌, ◌≡◌, ◌≢◌, refl, sym, ap, ◌∙◌, subst, ◌↔◌, List, [], ◌∷◌, ◌++◌,
  append-nil, append_assoc, length, length-append, drop, arith, All-append,
}
use ircd_hybrid_8_cvs.Text.Compare.{IsText}
use ircd_hybrid_8_cvs.Text.Glob.{skip_stars}
use ircd_hybrid_8_cvs.Text.Masks.{
  Accepts, Fits, star_ends, NoStar, fits-cons_iff, star-cons, star-skip_stars, star-append-star,
}
use ircd_hybrid_8_cvs.Text.MaskEnds.{NoEscape, skip_stars-split, skip_stars-NoEscape, All-drop}

module _ (G : Type 0) (mask : List ℕ) where
  -- The state behind a star: `seg` has been matched since, and ma and na say where to begin again.
  pub record Held (m n ma na : List ℕ) : Type 0 where
    pub seg : List ℕ
    pub split : ma ≡ seg ++ m
    pub place : n ≡ drop (length seg) na
    pub inside : length seg ≤ length na
    pub plain : NoStar seg
    pub same : Fits ma na ↔ Fits m n
    pub whole : G ↔ Fits (b'*' ∷ ma) na
    pub pre : List ℕ
    pub front : mask ≡ pre ++ b'*' ∷ ma
    pub flat : NoEscape m
    pub flat_ma : NoEscape ma
    pub text : IsText na

  pub restart : {m n ma na : List ℕ} {d : ℕ} → Held m n ma (d ∷ na) → ¬ Fits m n → Held ma na ma na
  restart h bad =
      let step = star-cons (λ f. bad (h.same.0 f)) in
      record {
        seg = [];
        split = refl;
        place = refl;
        inside = omega arith;
        plain = tt;
        same = ((λ f. f), (λ f. f));
        whole = ((λ g. step.0 (h.whole.0 g)), (λ f. h.whole.1 (step.1 f)));
        pre = h.pre;
        front = h.front;
        flat = h.flat_ma;
        flat_ma = h.flat_ma;
        text = h.text.1;
      }

  drop-cons :
      (k c : ℕ) (n na : List ℕ) → c ∷ n ≡ drop k na → (n ≡ drop (k + 1) na) × (suc k ≤ length na)
  drop-cons zero c n [] e = absurd (cc)
  drop-cons zero c n (d ∷ na) e = (cc, omega arith)
  drop-cons (suc k) c n [] e = absurd (cc)
  drop-cons (suc k) c n (d ∷ na) e =
      let (p, q) = drop-cons k c n na e in
      let j : suc (k + 1) ≡ suc k + 1 = omega arith in
      (p ∙ ap (λ x. drop x (d ∷ na)) j, omega arith)

  pub advance :
      {a c : ℕ} {m n ma na : List ℕ}
      → Held (a ∷ m) (c ∷ n) ma na
      → a ≢ b'*'
      → Accepts a c
      → Held m n ma na
  advance {a} {c} {m} {n} {na} h p ok =
      let on = fits-cons_iff p ok in
      let (at, room) = drop-cons (length h.seg) c n na h.place in
      let long = length-append h.seg (a ∷ []) in
      record {
        seg = h.seg ++ a ∷ [];
        split = h.split ∙ sym (append_assoc h.seg (a ∷ []) m);
        place = at ∙ ap (λ k. drop k na) (omega arith);
        inside = omega arith;
        plain = All-append (λ x. x ≢ b'*') h.seg (a ∷ []) h.plain (p, tt);
        same = ((λ f. on.0 (h.same.0 f)), (λ f. h.same.1 (on.1 f)));
        whole = h.whole;
        pre = h.pre;
        front = h.front;
        flat = h.flat.1;
        flat_ma = h.flat_ma;
        text = h.text;
      }

  pub star_here :
      {m n : List ℕ} (pre : List ℕ)
      → mask ≡ pre ++ b'*' ∷ m
      → (G ↔ Fits (b'*' ∷ m) n)
      → NoEscape m
      → IsText n
      → Held (skip_stars m) n (skip_stars m) n
  star_here {m} {n} pre e w flat text =
      let (zs, q) = skip_stars-split m in
      let skip = star-skip_stars m in
      let flat' = skip_stars-NoEscape m flat in
      record {
        seg = [];
        split = refl;
        place = refl;
        inside = omega arith;
        plain = tt;
        same = ((λ f. f), (λ f. f));
        whole = ((λ g. skip.0 (w.0 g)), (λ f. w.1 (skip.1 f)));
        pre = pre ++ zs;
        front = e ∙ ap (λ l. pre ++ l) q ∙ sym (append_assoc pre zs (b'*' ∷ skip_stars m));
        flat = flat';
        flat_ma = flat';
        text = text;
      }

  -- A second star takes the place of the first.
  pub star_again :
      {m n ma na : List ℕ} → Held (b'*' ∷ m) n ma na → Held (skip_stars m) n (skip_stars m) n
  star_again {m} {n} {ma} {na} h =
      star_here (h.pre ++ b'*' ∷ h.seg)
        (h.front
          ∙ ap (λ l. h.pre ++ b'*' ∷ l) h.split
          ∙ sym (append_assoc h.pre (b'*' ∷ h.seg) (b'*' ∷ m)))
        ((
          (λ g.
              subst (Fits (b'*' ∷ m)) (sym h.place)
                (star-append-star h.seg m ma na h.plain h.split (h.whole.0 g))),
          (λ f. h.whole.1 (star_ends (h.same.1 f))),
        ))
        h.flat.1
        (subst IsText (sym h.place) (All-drop (λ c. (1 ≤ c) × (c < 256)) (length h.seg) na h.text))

  pub spent : {n ma na : List ℕ} (h : Held [] n ma na) → h.seg ≡ ma
  spent h = sym (h.split ∙ append-nil h.seg)

  pub room :
      {c : ℕ} {m n ma na : List ℕ} (h : Held m (c ∷ n) ma na) → suc (length h.seg) ≤ length na
  room {c} {n} {na} h = (drop-cons (length h.seg) c n na h.place).1
