-- ===== src/Links/Laws.antt =====
-- src/tools.c: dlinkAdd, dlinkAddTail and dlinkDelete on lists in memory.
use ircd_hybrid_8_cvs.Common.{
  ℕ, ◌≡◌, ◌≢◌, refl, sym, ap, ◌∙◌, subst, true, false, ◌||◌, [], ◌∷◌, ◌++◌, ◌==◌, arith, Bool-cases,
  inl, inr,
}
use ircd_hybrid_8_cvs.Links.{
  DlinkNode, DlinkList, Memory, write_node, set_prev, set_next, add_front, dlink_add,
}
use ircd_hybrid_8_cvs.Links.Shape.{
  Cells, is_at, IsDistinct, Segment, IsDlist, frame-write_node, redirect_back,
}

-- A list holds these nodes, for the pair that an operation gives.
abbrev pub Holds : Memory × DlinkList → Cells → Type 0
Holds r xs = IsDlist r.0 r.1 xs

-- A write elsewhere
pub spared : (v a : ℕ) (h : Memory) (b : ℕ) → (b == a) ≡ false → set_prev h a v b ≡ h b
unfolding set_prev write_node
spared v a h b e = rw e refl

pub spared_next : (v a : ℕ) (h : Memory) (b : ℕ) → (b == a) ≡ false → set_next h a v b ≡ h b
unfolding set_next write_node
spared_next v a h b e = rw e refl

module _ (d m : ℕ) (h : Memory) (fresh : m ≢ 0) where
  -- A node that is on no list goes in front.
  add_front-Holds :
      (l : DlinkList) (xs : Cells)
      → IsDlist h l xs
      → is_at m xs ≡ false
      → (h m).prev ≡ 0
      → (h m).next ≡ l.head
      → (h m).data_of ≡ d
      → Holds (add_front m h l) ((m, d) ∷ xs)
  unfolding add_front
  add_front-Holds l [] ok out no_prev next_ok data_ok =
      let e : add_front m h l ≡ (h, record { head = m; tail = m }) = ground (arith, ok.chain) in
      subst (λ r. Holds r ((m, d) ∷ [])) (sym e)
        (record {
          chain = (refl, fresh, data_ok, no_prev, (ground (arith, ok.chain), refl));
          distinct = (refl, tt);
        })
  add_front-Holds l ((a, c) ∷ xs) ok out no_prev next_ok data_ok =
      let g = set_prev h l.head m in
      let e : add_front m h l ≡ (g, record l { head = m }) = ground (arith, ok.chain) in
      let here : g m ≡ h m = spared m l.head h m (ground (arith, ok.chain)) in
      let rest = redirect_back h a c xs 0 l.head l.tail 0 m ok.distinct ok.chain in
      subst (λ r. Holds r ((m, d) ∷ (a, c) ∷ xs)) (sym e)
        (record {
          chain = (
            refl,
            fresh,
            ap (λ (x : DlinkNode). x.data_of) here ∙ data_ok,
            ap (λ (x : DlinkNode). x.prev) here ∙ no_prev,
            subst (λ k. Segment g m k ((a, c) ∷ xs) l.tail 0)
                (sym (ap (λ (x : DlinkNode). x.next) here ∙ next_ok)) rest,
          );
          distinct = (out, ok.distinct);
        })

-- A node that is on the list nowhere and whose link back is NULL, as make_dlink_node and dlinkDelete
-- leave it: dlinkAdd puts it in front of the list, with its data, and the links of the list lead
-- forth and back again.
pub dlink_add-IsDlist :
    (d m : ℕ) (h : Memory) (l : DlinkList) (xs : Cells)
    → m ≢ 0
    → IsDlist h l xs
    → is_at m xs ≡ false
    → (h m).prev ≡ 0
    → let r = dlink_add d m h l in IsDlist r.0 r.1 ((m, d) ∷ xs)
unfolding dlink_add write_node
dlink_add-IsDlist d m h l xs fresh ok out no_prev =
    let x : DlinkNode = record { data_of = d; prev = (h m).prev; next = l.head } in
    let here : write_node h m x m ≡ x = ground arith in
    add_front-Holds d m (write_node h m x) fresh l xs
      (record {
        chain = frame-write_node h xs m x 0 l.head l.tail 0 out ok.chain;
        distinct = ok.distinct;
      })
      out (ap (λ (y : DlinkNode). y.prev) here ∙ no_prev) (ap (λ (y : DlinkNode). y.next) here)
      (ap (λ (y : DlinkNode). y.data_of) here)

-- Where addresses stand in two lists, one behind the other
pub is_at-append : (a : ℕ) (xs ys : Cells) → is_at a (xs ++ ys) ≡ (is_at a xs || is_at a ys)
is_at-append a [] ys = refl
is_at-append a ((b, d) ∷ xs) ys = ground (arith, is_at-append a xs ys)

-- What it means for a node to stand once in the middle of a list
pub record IsMiddle (ys zs : Cells) (m : ℕ) : Type 0 where
  pub left : IsDistinct ys
  pub right : IsDistinct zs
  pub both : IsDistinct (ys ++ zs)
  pub off_left : is_at m ys ≡ false
  pub off_right : is_at m zs ≡ false
  pub apart : (a : ℕ) → is_at a ys ≡ true → is_at a zs ≡ false

pub middle : (ys zs : Cells) (m d : ℕ) → IsDistinct (ys ++ (m, d) ∷ zs) → IsMiddle ys zs m
middle [] zs m d (out, distinct) = record {
  left = tt;
  right = distinct;
  both = distinct;
  off_left = refl;
  off_right = out;
  apart = λ a i. absurd (ground arith);
}
middle ((b, c) ∷ ys) zs m d (out, distinct) =
    let r = middle ys zs m d distinct in
    let there = is_at-append b ys ((m, d) ∷ zs) in
    let there' = is_at-append b ys zs in
    let off : is_at b ys ≡ false = ground arith in
    let off' : is_at b zs ≡ false = ground arith in
    record {
      left = (off, r.left);
      right = r.right;
      both = (ground arith, r.both);
      off_left = ground (arith, r.off_left);
      off_right = r.off_right;
      apart = λ a i. elim (Bool-cases (a == b)) [
        | inl y ↦ let e : b ≡ a = ground arith in subst (λ k. is_at k zs ≡ false) e off'
        | inr n ↦ r.apart a (ground arith)
      ];
    }
