-- ===== src/Links/Joining.antt =====
-- src/tools.c: dlinkAddTail and dlinkFind on lists in memory.
use ircd_hybrid_8_cvs.Common.{
  ℕ, zero, suc, ◌<◌, ◌≡◌, ◌≢◌, refl, sym, ap, ◌∙◌, subst, true, false, [], ◌∷◌, ◌++◌, length,
  Option, none, some, ◌==◌, if◌then◌else◌, arith,
}
use ircd_hybrid_8_cvs.Links.{
  DlinkNode, DlinkList, Memory, write_node, set_next, add_back, dlink_add_tail, find_link,
  dlink_find, count_nodes, dlink_list_length,
}
use ircd_hybrid_8_cvs.Links.Shape.{
  Cells, is_at, IsDistinct, Segment, IsDlist, frame-write_node, last_at, join-Segment, redirect,
  other_at,
}
use ircd_hybrid_8_cvs.Links.Laws.{Holds, spared_next, is_at-append}
use ircd_hybrid_8_cvs.Links.Removal.{last_nonzero}

-- No node stands on both lists.
abbrev pub AreApart : Cells → Cells → Type 0
AreApart xs ys = (a : ℕ) → is_at a xs ≡ true → is_at a ys ≡ false

pub append-IsDistinct :
    (xs ys : Cells) → IsDistinct xs → IsDistinct ys → AreApart xs ys → IsDistinct (xs ++ ys)
append-IsDistinct [] ys hx hy apart = hy
append-IsDistinct ((a, d) ∷ xs) ys (out, hx) hy apart = (
  is_at-append a xs ys ∙ ground (arith, out, apart a (ground arith)),
  append-IsDistinct xs ys hx hy (λ b i. apart b (ground arith)),
)

one_apart : (m d : ℕ) (xs : Cells) → is_at m xs ≡ false → AreApart xs ((m, d) ∷ [])
one_apart m d xs out = λ a i. ground (arith, other_at m a xs i out)

module _ (d m : ℕ) (h : Memory) (fresh : m ≢ 0) where
  add_back-Holds :
      (l : DlinkList) (xs : Cells)
      → IsDlist h l xs
      → is_at m xs ≡ false
      → (h m).prev ≡ l.tail
      → (h m).next ≡ 0
      → (h m).data_of ≡ d
      → Holds (add_back m h l) (xs ++ (m, d) ∷ [])
  unfolding add_back
  add_back-Holds l [] ok out prev_ok no_next data_ok =
      let e : add_back m h l ≡ (h, record { head = m; tail = m }) = ground (arith, ok.chain) in
      subst (λ r. Holds r ((m, d) ∷ [])) (sym e)
        (record {
          chain = (refl, fresh, data_ok, prev_ok ∙ ok.chain.1, (no_next, refl));
          distinct = (refl, tt);
        })
  add_back-Holds l ((a, c) ∷ xs) ok out prev_ok no_next data_ok =
      let g = set_next h l.tail m in
      let ne = last_nonzero h a c xs 0 l.head l.tail 0 ok.chain in
      let e : add_back m h l ≡ (g, record l { tail = m }) = ground (arith, ne) in
      let on = last_at h a c xs 0 l.head l.tail 0 ok.chain in
      let here : g m ≡ h m = spared_next m l.tail h m (other_at m l.tail ((a, c) ∷ xs) on out) in
      subst (λ r. Holds r ((a, c) ∷ xs ++ (m, d) ∷ [])) (sym e)
        (record {
          chain =
              join-Segment g ((a, c) ∷ xs) ((m, d) ∷ []) 0 l.head l.tail m m 0
                (redirect h a c xs 0 l.head l.tail 0 m ok.distinct ok.chain)
                (
                  refl,
                  fresh,
                  ap (λ (x : DlinkNode). x.data_of) here ∙ data_ok,
                  ap (λ (x : DlinkNode). x.prev) here ∙ prev_ok,
                  (ap (λ (x : DlinkNode). x.next) here ∙ no_next, refl),
                );
          distinct =
              append-IsDistinct ((a, c) ∷ xs) ((m, d) ∷ []) ok.distinct (refl, tt)
                (one_apart m d ((a, c) ∷ xs) out);
        })

-- A node that is not on the list: dlinkAddTail puts it at the end, whatever its links were.
pub dlink_add_tail-IsDlist :
    (d m : ℕ) (h : Memory) (l : DlinkList) (xs : Cells)
    → m ≢ 0
    → IsDlist h l xs
    → is_at m xs ≡ false
    → let r = dlink_add_tail d m h l in IsDlist r.0 r.1 (xs ++ (m, d) ∷ [])
unfolding dlink_add_tail write_node
dlink_add_tail-IsDlist d m h l xs fresh ok out =
    let x : DlinkNode = record { data_of = d; prev = l.tail; next = 0 } in
    let here : write_node h m x m ≡ x = ground arith in
    add_back-Holds d m (write_node h m x) fresh l xs
      (record {
        chain = frame-write_node h xs m x 0 l.head l.tail 0 out ok.chain;
        distinct = ok.distinct;
      })
      out (ap (λ (y : DlinkNode). y.prev) here) (ap (λ (y : DlinkNode). y.next) here)
      (ap (λ (y : DlinkNode). y.data_of) here)

-- The first node with that data
abbrev pub first_with : ℕ → Cells → Option ℕ
first_with d [] = none
first_with d ((a, c) ∷ xs) = if c == d then some a else first_with d xs

find_link-first_with :
    (rounds : ℕ) (h : Memory) (d b p l : ℕ) (xs : Cells)
    → length xs < rounds
    → Segment h b p xs l 0
    → find_link rounds h d p ≡ some (first_with d xs)
unfolding find_link
find_link-first_with zero h d b p l xs enough s = absurd (omega arith)
find_link-first_with (suc rounds) h d b p l [] enough (e, e') = ground arith
find_link-first_with (suc rounds) h d b p l ((a, c) ∷ xs) enough (e, ne, data_ok, prev_ok, s) =
    let rest = find_link-first_with rounds h d a ((h a).next) l xs (omega arith) s in
    subst (λ k. find_link (suc rounds) h d k ≡ some (first_with d ((a, c) ∷ xs))) (sym e)
      (ground (arith, rest))

-- dlinkFind comes to an end on a list, within one round more than it has nodes, and answers the
-- first node with that data, or NULL if there is none.
pub dlink_find-first_with :
    (rounds : ℕ) (h : Memory) (l : DlinkList) (xs : Cells) (d : ℕ)
    → IsDlist h l xs
    → length xs < rounds
    → dlink_find rounds h l d ≡ some (first_with d xs)
unfolding dlink_find
dlink_find-first_with rounds h l xs d ok enough =
    find_link-first_with rounds h d 0 l.head l.tail xs enough ok.chain

count_nodes-length :
    (rounds : ℕ) (h : Memory) (b p l : ℕ) (xs : Cells)
    → length xs < rounds
    → Segment h b p xs l 0
    → count_nodes rounds h p ≡ some (length xs)
unfolding count_nodes
count_nodes-length zero h b p l xs enough s = absurd (omega arith)
count_nodes-length (suc rounds) h b p l [] enough (e, e') = ground arith
count_nodes-length (suc rounds) h b p l ((a, c) ∷ xs) enough (e, ne, data_ok, prev_ok, s) =
    let rest = count_nodes-length rounds h a ((h a).next) l xs (omega arith) s in
    subst (λ k. count_nodes (suc rounds) h k ≡ some (suc (length xs))) (sym e)
      (ground (arith, rest))

-- dlink_list_length is the number of nodes.
pub dlink_list_length-length :
    (rounds : ℕ) (h : Memory) (l : DlinkList) (xs : Cells)
    → IsDlist h l xs
    → length xs < rounds
    → dlink_list_length rounds h l ≡ some (length xs)
unfolding dlink_list_length
dlink_list_length-length rounds h l xs ok enough =
    count_nodes-length rounds h 0 l.head l.tail xs enough ok.chain
