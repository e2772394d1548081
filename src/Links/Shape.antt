-- ===== src/Links/Shape.antt =====
-- src/tools.c: what a dlink_list is in memory, as the list of its nodes with their data.
use ircd_hybrid_8_cvs.Common.{
  ℕ, ◌≡◌, ◌≢◌, refl, sym, ap, ◌∙◌, subst, Bool, true, false, ◌||◌, List, [], ◌∷◌, ◌++◌, ◌==◌, arith,
  Bool-cases, inl, inr,
}
use ircd_hybrid_8_cvs.Links.{DlinkNode, DlinkList, Memory, write_node, set_prev, set_next}

-- The address and the data of each node, in order
abbrev pub Cells : Type 0
Cells = List (ℕ × ℕ)

abbrev pub is_at : ℕ → Cells → Bool
is_at a [] = false
is_at a ((b, d) ∷ xs) = (a == b) || is_at a xs

-- No address stands there twice.
abbrev pub IsDistinct : Cells → Type 0
IsDistinct [] = Unit
IsDistinct ((a, d) ∷ xs) = (is_at a xs ≡ false) × IsDistinct xs

-- From `first`, before which `before` stands, the nodes lead to `last`, behind which `behind` stands;
-- the links lead back as they lead forth.
abbrev pub Segment : Memory → ℕ → ℕ → Cells → ℕ → ℕ → Type 0
Segment h before first [] last after = (first ≡ after) × (last ≡ before)
Segment h before first ((a, d) ∷ xs) last after =
    (first ≡ a)
    × (a ≢ 0)
    × ((h a).data_of ≡ d)
    × ((h a).prev ≡ before)
    × Segment h a (h a).next xs last after

-- A dlink_list that holds these nodes
pub record IsDlist (h : Memory) (l : DlinkList) (xs : Cells) : Type 0 where
  pub chain : Segment h 0 l.head xs l.tail 0
  pub distinct : IsDistinct xs

-- A segment does not change with what stands elsewhere.
pub frame :
    (h g : Memory) (xs : Cells) (p f l n : ℕ)
    → ((a : ℕ) → is_at a xs ≡ true → g a ≡ h a)
    → Segment h p f xs l n
    → Segment g p f xs l n
frame h g [] p f l n same s = s
frame h g ((a, d) ∷ xs) p f l n same (e, ne, data_ok, prev_ok, s) =
    let here : g a ≡ h a = same a (ground arith) in
    let rest = frame h g xs a ((h a).next) l n (λ b i. same b (ground arith)) s in
    (
      e,
      ne,
      ap (λ (x : DlinkNode). x.data_of) here ∙ data_ok,
      ap (λ (x : DlinkNode). x.prev) here ∙ prev_ok,
      subst (λ (x : DlinkNode). Segment g a x.next xs l n) (sym here) rest,
    )

at_other : (a m : ℕ) (xs : Cells) → (a == m) ≡ true → is_at a xs ≡ true → is_at m xs ≡ true
at_other a m xs y i = let e : a ≡ m = ground arith in subst (λ b. is_at b xs ≡ true) e i

pub other_at : (a m : ℕ) (xs : Cells) → is_at m xs ≡ true → is_at a xs ≡ false → (a == m) ≡ false
other_at a m xs i out = elim (Bool-cases (a == m)) [
  | inl y ↦
      let e : m ≡ a = ground arith in
      let i' : is_at a xs ≡ true = subst (λ b. is_at b xs ≡ true) e i in absurd (ground arith)
  | inr k ↦ k
]

-- A write to another address
pub frame-write_node :
    (h : Memory) (xs : Cells) (m : ℕ) (x : DlinkNode) (p f l n : ℕ)
    → is_at m xs ≡ false
    → Segment h p f xs l n
    → Segment (write_node h m x) p f xs l n
unfolding write_node
frame-write_node h xs m x p f l n out s =
    frame h (write_node h m x) xs p f l n
      (λ a i. elim (Bool-cases (a == m)) [
        | inl y ↦ absurd (ground (arith, at_other a m xs y i))
        | inr k ↦ rw k refl
      ])
      s

-- The last node of a segment is one of its nodes.
pub last_at :
    (h : Memory) (a d : ℕ) (xs : Cells) (p f l n : ℕ)
    → Segment h p f ((a, d) ∷ xs) l n
    → is_at l ((a, d) ∷ xs) ≡ true
last_at h a d [] p f l n (e, ne, data_ok, prev_ok, s) = ground arith
last_at h a d ((b, c) ∷ xs) p f l n (e, ne, data_ok, prev_ok, s) =
    ground (arith, last_at h b c xs a ((h a).next) l n s)

-- The two halves of a segment, and back
pub split-Segment :
    (h : Memory) (xs ys : Cells) (p f l n : ℕ)
    → Segment h p f (xs ++ ys) l n
    → (k q : ℕ) × Segment h p f xs k q × Segment h k q ys l n
split-Segment h [] ys p f l n s = (p, f, (refl, refl), s)
split-Segment h ((a, d) ∷ xs) ys p f l n (e, ne, data_ok, prev_ok, s) =
    let (k, q, s1, s2) = split-Segment h xs ys a ((h a).next) l n s in
    (k, q, (e, ne, data_ok, prev_ok, s1), s2)

pub join-Segment :
    (h : Memory) (xs ys : Cells) (p f k q l n : ℕ)
    → Segment h p f xs k q
    → Segment h k q ys l n
    → Segment h p f (xs ++ ys) l n
join-Segment h [] ys p f k q l n (e, e') s =
    subst (λ b. Segment h b f ys l n) e' (subst (λ b. Segment h k b ys l n) (sym e) s)
join-Segment h ((a, d) ∷ xs) ys p f k q l n (e, ne, data_ok, prev_ok, s1) s =
    (e, ne, data_ok, prev_ok, join-Segment h xs ys a ((h a).next) k q l n s1 s)

-- A segment leads to another address when the link of its last node does; an empty one begins there.
pub redirect :
    (h : Memory) (a d : ℕ) (xs : Cells) (p f l n q : ℕ)
    → IsDistinct ((a, d) ∷ xs)
    → Segment h p f ((a, d) ∷ xs) l n
    → Segment (set_next h l q) p f ((a, d) ∷ xs) l q
unfolding set_next write_node
redirect h a d [] p f l n q distinct (e, ne, data_ok, prev_ok, (e1, e2)) =
    (e, ne, ground arith, ground arith, (ground arith, e2))
redirect h a d ((b, c) ∷ xs) p f l n q (out, distinct) (e, ne, data_ok, prev_ok, s) =
    let there = last_at h b c xs a ((h a).next) l n s in
    let rest = redirect h b c xs a ((h a).next) l n q distinct s in
    let here : (a == l) ≡ false = other_at a l ((b, c) ∷ xs) there out in
    (e, ne, rw here data_ok, rw here prev_ok, rw here rest)

-- A segment begins behind another node when the link back of its first node says so.
pub redirect_back :
    (h : Memory) (a d : ℕ) (xs : Cells) (p f l n q : ℕ)
    → IsDistinct ((a, d) ∷ xs)
    → Segment h p f ((a, d) ∷ xs) l n
    → Segment (set_prev h f q) q f ((a, d) ∷ xs) l n
unfolding set_prev write_node
redirect_back h a d xs p f l n q (out, distinct) (e, ne, data_ok, prev_ok, s) =
    let off : is_at f xs ≡ false = subst (λ b. is_at b xs ≡ false) (sym e) out in
    let link : (set_prev h f q a).next ≡ (h a).next = ground arith in
    let rest = frame-write_node h xs f (record (h f) { prev = q }) a ((h a).next) l n off s in
    (
      e,
      ne,
      ground arith,
      ground arith,
      subst (λ b. Segment (set_prev h f q) a b xs l n) (sym link) rest,
    )
