-- ===== src/Links/Removal.antt =====
-- src/tools.c: dlinkDelete on lists in memory.
use ircd_hybrid_8_cvs.Common.{
  ℕ, ◌≡◌, ◌≢◌, refl, sym, ap, ◌∙◌, subst, true, false, [], ◌∷◌, ◌++◌, arith, Bool-cases, inl, inr,
}
use ircd_hybrid_8_cvs.Links.{
  DlinkNode, DlinkList, Memory, write_node, set_prev, set_next, unlink_next, unlink_prev,
  clear_links, dlink_delete,
}
use ircd_hybrid_8_cvs.Links.Shape.{
  Cells, is_at, IsDistinct, Segment, IsDlist, frame-write_node, last_at, split-Segment,
  join-Segment, redirect, redirect_back, other_at,
}
use ircd_hybrid_8_cvs.Links.Laws.{spared, is_at-append, IsMiddle, middle}

-- What stands on both sides of a node that is being taken off: `k` before it and `q` behind it.
record IsParted (h : Memory) (l : DlinkList) (ys zs : Cells) (m k q : ℕ) : Type 0 where
  front : Segment h 0 l.head ys k m
  back : Segment h k q zs l.tail 0
  prev_ok : (h m).prev ≡ k
  next_ok : (h m).next ≡ q

-- The last node is not NULL.
pub last_nonzero :
    (h : Memory) (a d : ℕ) (xs : Cells) (p f l n : ℕ) → Segment h p f ((a, d) ∷ xs) l n → l ≢ 0
last_nonzero h a d [] p f l n (e, ne, data_ok, prev_ok, s) = λ z. ne (sym s.1 ∙ z)
last_nonzero h a d ((b, c) ∷ xs) p f l n (e, ne, data_ok, prev_ok, s) =
    last_nonzero h b c xs a ((h a).next) l n s

module _ (m : ℕ) (ys zs : Cells) (mid : IsMiddle ys zs m) where
  -- The first step, for what stands behind the node before it is made to follow what stands in front
  next-IsParted :
      (h : Memory) (l : DlinkList) (k q : ℕ) (zs' : Cells)
      → zs' ≡ zs
      → Segment h 0 l.head ys k m
      → Segment h m q zs' l.tail 0
      → (h m).prev ≡ k
      → (h m).next ≡ q
      → let r = unlink_next m h l in IsParted r.0 r.1 ys zs' m k q
  unfolding unlink_next set_prev write_node
  next-IsParted h l k q [] same front back prev_ok next_ok =
      let e : unlink_next m h l ≡ (h, record l { tail = (h m).prev }) = ground (arith, back) in
      subst (λ (r : Memory × DlinkList). IsParted r.0 r.1 ys [] m k q) (sym e)
        (record { front = front; back = (back.0, prev_ok); prev_ok = prev_ok; next_ok = next_ok })
  next-IsParted h l k q ((b, c) ∷ zs') same front back prev_ok next_ok =
      let g = set_prev h q k in
      let at_b : q ≡ b = back.0 in
      let e : unlink_next m h l ≡ (g, l) = ground (arith, back) in
      let distinct : IsDistinct ((b, c) ∷ zs') = subst IsDistinct (sym same) mid.right in
      let off : is_at m ((b, c) ∷ zs') ≡ false =
        subst (λ x. is_at m x ≡ false) (sym same) mid.off_right in
      let on : is_at q ((b, c) ∷ zs') ≡ true = ground (arith, at_b) in
      let here : g m ≡ h m = spared k q h m (other_at m q ((b, c) ∷ zs') on off) in
      let clear : is_at q ys ≡ false = elim (Bool-cases (is_at q ys)) [
        | inl y ↦ absurd (ground (arith, mid.apart q y, ap (is_at q) same))
        | inr n ↦ n
      ] in
      subst (λ (r : Memory × DlinkList). IsParted r.0 r.1 ys ((b, c) ∷ zs') m k q) (sym e)
        (record {
          front = frame-write_node h ys q (record (h q) { prev = k }) 0 l.head k m clear front;
          back = redirect_back h b c zs' m q l.tail 0 k distinct back;
          prev_ok = ap (λ (x : DlinkNode). x.prev) here ∙ prev_ok;
          next_ok = ap (λ (x : DlinkNode). x.next) here ∙ next_ok;
        })

  -- The second step closes the gap.
  prev-joined :
      (h : Memory) (l : DlinkList) (k q : ℕ) (ys' : Cells)
      → ys' ≡ ys
      → IsParted h l ys' zs m k q
      → let r = unlink_prev m (h, l) in Segment r.0 0 r.1.head (ys' ++ zs) r.1.tail 0
  unfolding unlink_prev set_next write_node
  prev-joined h l k q [] same p =
      let e : unlink_prev m (h, l) ≡ (h, record l { head = (h m).next }) =
        ground (arith, p.front, p.prev_ok) in
      subst (λ (r : Memory × DlinkList). Segment r.0 0 r.1.head zs r.1.tail 0) (sym e)
        (subst (λ x. Segment h 0 x zs l.tail 0) (sym p.next_ok)
          (subst (λ x. Segment h x q zs l.tail 0) p.front.1 p.back))
  prev-joined h l k q ((a, c) ∷ ys') same p =
      let ne = last_nonzero h a c ys' 0 l.head k m p.front in
      let g = set_next h k q in
      let e : unlink_prev m (h, l) ≡ (g, l) = ground (arith, ne, p.prev_ok, p.next_ok) in
      let on : is_at k ((a, c) ∷ ys') ≡ true = last_at h a c ys' 0 l.head k m p.front in
      let off : is_at k zs ≡ false = mid.apart k (subst (λ x. is_at k x ≡ true) same on) in
      let distinct : IsDistinct ((a, c) ∷ ys') = subst IsDistinct (sym same) mid.left in
      subst (λ (r : Memory × DlinkList). Segment r.0 0 r.1.head ((a, c) ∷ ys' ++ zs) r.1.tail 0)
        (sym e)
        (join-Segment g ((a, c) ∷ ys') zs 0 l.head k q l.tail 0
          (redirect h a c ys' 0 l.head k m q distinct p.front)
          (frame-write_node h zs k (record (h k) { next = q }) k q l.tail 0 off p.back))

-- dlinkDelete of a node that stands on the list: the list is left without this node and otherwise as
-- it was, its links lead forth and back, and those of the node are NULL.
pub dlink_delete-IsDlist :
    (h : Memory) (l : DlinkList) (ys zs : Cells) (m d : ℕ)
    → IsDlist h l (ys ++ (m, d) ∷ zs)
    → let r = dlink_delete m h l in
      IsDlist r.0 r.1 (ys ++ zs) × ((r.0 m).prev ≡ 0) × ((r.0 m).next ≡ 0)
unfolding dlink_delete clear_links write_node
dlink_delete-IsDlist h l ys zs m d ok =
    let (k, q, front, (e, ne, data_ok, prev_ok, back)) =
      split-Segment h ys ((m, d) ∷ zs) 0 l.head l.tail 0 ok.chain in
    let mid = middle ys zs m d ok.distinct in
    let front' : Segment h 0 l.head ys k m = subst (λ x. Segment h 0 l.head ys k x) e front in
    let parted = next-IsParted m ys zs mid h l k ((h m).next) zs refl front' back prev_ok refl in
    let r1 = unlink_next m h l in
    let joined = prev-joined m ys zs mid r1.0 r1.1 k ((h m).next) ys refl parted in
    let r2 = unlink_prev m r1 in
    let off : is_at m (ys ++ zs) ≡ false =
      is_at-append m ys zs ∙ ground (arith, mid.off_left, mid.off_right) in
    (
      record {
        chain =
            frame-write_node r2.0 (ys ++ zs) m (record (r2.0 m) { prev = 0; next = 0 }) 0 r2.1.head
              r2.1.tail 0 off joined;
        distinct = mid.both;
      },
      ground arith,
      ground arith,
    )
