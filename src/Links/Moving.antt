-- ===== src/Links/Moving.antt =====
-- src/tools.c: dlinkMoveList on lists in memory.
use ircd_hybrid_8_cvs.Common.{
  ℕ, ◌≡◌, refl, sym, subst, false, [], ◌∷◌, ◌++◌, append-nil, arith, Bool-cases, inl, inr,
}
use ircd_hybrid_8_cvs.Links.{DlinkList, Memory, set_prev, set_next, dlink_move_list}
use ircd_hybrid_8_cvs.Links.Shape.{
  Cells, is_at, Segment, IsDlist, frame-write_node, last_at, join-Segment, redirect, redirect_back,
}
use ircd_hybrid_8_cvs.Links.Joining.{AreApart, append-IsDistinct}

-- What dlinkMoveList leaves: nothing, and all nodes in order.
abbrev Moved : Memory × DlinkList × DlinkList → Cells → Type 0
Moved (h, from, to) xs = IsDlist h from [] × IsDlist h to xs

nothing-IsDlist : (h : Memory) → IsDlist h (record { head = 0; tail = 0 }) []
nothing-IsDlist h = record { chain = (refl, refl); distinct = tt }

module _ (h : Memory) (from to : DlinkList) (a c b e : ℕ) (xs ys : Cells)
    (ok : IsDlist h from ((a, c) ∷ xs)) (ok' : IsDlist h to ((b, e) ∷ ys))
    (apart : AreApart ((a, c) ∷ xs) ((b, e) ∷ ys)) where
  -- The three writes of the third case
  first_write : Memory
  first_write = set_next h from.tail to.head

  second_write : Memory
  second_write = set_prev first_write from.head (first_write to.head).prev

  third_write : Memory
  third_write = set_prev second_write to.head from.tail

  tail_off : is_at from.tail ((b, e) ∷ ys) ≡ false
  tail_off = apart from.tail (last_at h a c xs 0 from.head from.tail 0 ok.chain)

  head_off : is_at from.head ((b, e) ∷ ys) ≡ false
  head_off = apart from.head (ground (arith, ok.chain))

  to_off : is_at to.head ((a, c) ∷ xs) ≡ false
  to_off = elim (Bool-cases (is_at to.head ((a, c) ∷ xs))) [
    | inl y ↦ absurd (ground (arith, apart to.head y, ok'.chain))
    | inr n ↦ n
  ]

  front_first : Segment first_write 0 from.head ((a, c) ∷ xs) from.tail to.head
  unfolding first_write
  front_first = redirect h a c xs 0 from.head from.tail 0 to.head ok.distinct ok.chain

  back_first : Segment first_write 0 to.head ((b, e) ∷ ys) to.tail 0
  unfolding first_write set_next
  back_first =
      frame-write_node h ((b, e) ∷ ys) from.tail (record (h from.tail) { next = to.head }) 0 to.head
        to.tail 0 tail_off ok'.chain

  no_prev : (first_write to.head).prev ≡ 0
  no_prev = let s = back_first in subst (λ k. (first_write k).prev ≡ 0) (sym s.0) s.3

  front_second : Segment second_write 0 from.head ((a, c) ∷ xs) from.tail to.head
  unfolding second_write
  front_second =
      subst (λ k. Segment second_write k from.head ((a, c) ∷ xs) from.tail to.head) no_prev
        (redirect_back first_write a c xs 0 from.head from.tail to.head (first_write to.head).prev
          ok.distinct front_first)

  back_second : Segment second_write 0 to.head ((b, e) ∷ ys) to.tail 0
  unfolding second_write set_prev
  back_second =
      frame-write_node first_write ((b, e) ∷ ys) from.head
        (record (first_write from.head) { prev = (first_write to.head).prev }) 0 to.head to.tail 0
        head_off back_first

  front_third : Segment third_write 0 from.head ((a, c) ∷ xs) from.tail to.head
  unfolding third_write set_prev
  front_third =
      frame-write_node second_write ((a, c) ∷ xs) to.head
        (record (second_write to.head) { prev = from.tail }) 0 from.head from.tail to.head to_off
        front_second

  back_third : Segment third_write from.tail to.head ((b, e) ∷ ys) to.tail 0
  unfolding third_write
  back_third =
      redirect_back second_write b e ys 0 to.head to.tail 0 from.tail ok'.distinct back_second

  third-Moved : Moved (dlink_move_list h from to) ((a, c) ∷ xs ++ (b, e) ∷ ys)
  unfolding dlink_move_list first_write second_write third_write
  third-Moved =
      let empty : DlinkList = record { head = 0; tail = 0 } in
      let r : dlink_move_list h from to
          ≡ (third_write, empty, record { head = from.head; tail = to.tail }) =
        ground (arith, ok.chain, ok'.chain) in
      subst (λ k. Moved k ((a, c) ∷ xs ++ (b, e) ∷ ys)) (sym r)
        (
          nothing-IsDlist third_write,
          record {
            chain =
                join-Segment third_write ((a, c) ∷ xs) ((b, e) ∷ ys) 0 from.head from.tail to.head
                  to.tail 0 front_third back_third;
            distinct = append-IsDistinct ((a, c) ∷ xs) ((b, e) ∷ ys) ok.distinct ok'.distinct apart;
          },
        )

-- Of two lists that share no node, dlinkMoveList makes the second the nodes of the first and then its
-- own, in order and with their links right, and leaves the first empty.
pub dlink_move_list-IsDlist :
    (h : Memory) (from to : DlinkList) (xs ys : Cells)
    → IsDlist h from xs
    → IsDlist h to ys
    → AreApart xs ys
    → let r = dlink_move_list h from to in IsDlist r.0 r.1 [] × IsDlist r.0 r.2 (xs ++ ys)
unfolding dlink_move_list
dlink_move_list-IsDlist h from to [] ys ok ok' apart =
    let e : dlink_move_list h from to ≡ (h, from, to) = ground (arith, ok.chain) in
    subst (λ k. Moved k ys) (sym e) (ok, ok')
dlink_move_list-IsDlist h from to ((a, c) ∷ xs) [] ok ok' apart =
    let empty : DlinkList = record { head = 0; tail = 0 } in
    let e : dlink_move_list h from to ≡ (h, empty, from) = ground (arith, ok.chain, ok'.chain) in
    subst (λ k. Moved k ((a, c) ∷ xs ++ [])) (sym e)
      (nothing-IsDlist h, subst (IsDlist h from) (sym (append-nil ((a, c) ∷ xs))) ok)
dlink_move_list-IsDlist h from to ((a, c) ∷ xs) ((b, e) ∷ ys) ok ok' apart =
    third-Moved h from to a c b e xs ys ok ok' apart
