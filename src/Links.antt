-- ===== src/Links.antt =====
-- src/tools.c, include/tools.h: the doubly linked lists of the server. A node is known by its address,
-- and NULL is 0; the memory has a node at every address. The caller's node is not NULL.
use ircd_hybrid_8_cvs.Common.{
  ℕ, zero, suc, ◌+◌, Bool, true, false, List, [], ◌∷◌, Option, none, some, ◌==◌, if◌then◌else◌,
}
pub mod Shape
pub mod Laws
pub mod Removal
pub mod Joining
pub mod Moving
mod Tests

-- struct _dlink_node
pub record DlinkNode : Type 0 where
  pub data_of : ℕ
  pub prev : ℕ
  pub next : ℕ

-- struct _dlink_list
pub record DlinkList : Type 0 where
  pub head : ℕ
  pub tail : ℕ

abbrev pub Memory : Type 0
Memory = ℕ → DlinkNode

unfoldable pub write_node : Memory → ℕ → DlinkNode → Memory
write_node h a x b = if b == a then x else h b

-- a->prev = v and a->next = v
unfoldable pub set_prev : Memory → ℕ → ℕ → Memory
set_prev h a v = write_node h a (record (h a) { prev = v })

unfoldable pub set_next : Memory → ℕ → ℕ → Memory
set_next h a v = write_node h a (record (h a) { next = v })

-- What dlinkAdd does to the list whose head was `head`, after it has written the node.
unfoldable pub add_front : ℕ → Memory → DlinkList → Memory × DlinkList
add_front m h l =
    if l.head == 0
    then (h, record { head = m; tail = if l.tail == 0 then m else l.tail })
    else (set_prev h l.head m, record l { head = m })

-- dlinkAdd, which leaves m->prev alone
unfoldable pub dlink_add : ℕ → ℕ → Memory → DlinkList → Memory × DlinkList
dlink_add d m h l =
    add_front m (write_node h m (record { data_of = d; prev = (h m).prev; next = l.head })) l

-- dlinkAddTail
unfoldable pub add_back : ℕ → Memory → DlinkList → Memory × DlinkList
add_back m h l =
    if l.tail == 0
    then (h, record { head = if l.head == 0 then m else l.head; tail = m })
    else (set_next h l.tail m, record l { tail = m })

unfoldable pub dlink_add_tail : ℕ → ℕ → Memory → DlinkList → Memory × DlinkList
dlink_add_tail d m h l =
    add_back m (write_node h m (record { data_of = d; prev = l.tail; next = 0 })) l

-- dlinkAddBefore, in the order of its writes
unfoldable pub dlink_add_before : ℕ → ℕ → ℕ → Memory → DlinkList → Memory × DlinkList
dlink_add_before b d m h l =
    let h1 = write_node h m (record (h m) { data_of = d }) in
    let h2 = set_next h1 (h1 b).prev m in
    let h3 = set_prev h2 m (h2 b).prev in
    let h4 = set_prev h3 b m in if b == l.head then dlink_add d m h l else (set_next h4 m b, l)

-- dlinkDelete: m->next->prev or the tail,
unfoldable pub unlink_next : ℕ → Memory → DlinkList → Memory × DlinkList
unlink_next m h l =
    if (h m).next == 0
    then (h, record l { tail = (h m).prev })
    else (set_prev h (h m).next (h m).prev, l)

-- m->prev->next or the head,
unfoldable pub unlink_prev : ℕ → Memory × DlinkList → Memory × DlinkList
unlink_prev m (h, l) =
    if (h m).prev == 0
    then (h, record l { head = (h m).next })
    else (set_next h (h m).prev (h m).next, l)

-- and m->next = m->prev = NULL
unfoldable pub clear_links : ℕ → Memory × DlinkList → Memory × DlinkList
clear_links m (h, l) = (write_node h m (record (h m) { prev = 0; next = 0 }), l)

unfoldable pub dlink_delete : ℕ → Memory → DlinkList → Memory × DlinkList
dlink_delete m h l = clear_links m (unlink_prev m (unlink_next m h l))

-- The loop of dlinkFind, for so many rounds; the first `none` is NULL, and the second that the rounds
-- did not do.
unfoldable pub find_link : ℕ → Memory → ℕ → ℕ → Option (Option ℕ)
find_link zero h d p = none
find_link (suc rounds) h d p =
    let rest = find_link rounds h d (h p).next in
    if p == 0 then some none else if (h p).data_of == d then some (some p) else rest

-- dlink_list_length, whose count is an int
unfoldable pub count_nodes : ℕ → Memory → ℕ → Option ℕ
count_nodes zero h p = none
count_nodes (suc rounds) h p =
    let rest = count_nodes rounds h (h p).next in
    if p == 0 then some 0 else elim rest [ none ↦ none | some n ↦ some (n + 1) ]

unfoldable pub dlink_list_length : ℕ → Memory → DlinkList → Option ℕ
dlink_list_length rounds h l = count_nodes rounds h l.head

-- dlinkFind
unfoldable pub dlink_find : ℕ → Memory → DlinkList → ℕ → Option (Option ℕ)
dlink_find rounds h l d = find_link rounds h d l.head

-- dlinkMoveList; in the third case the order of the writes matters where nodes are shared.
unfoldable pub dlink_move_list : Memory → (from to : DlinkList) → Memory × DlinkList × DlinkList
dlink_move_list h from to =
    let empty : DlinkList = record { head = 0; tail = 0 } in
    if from.head == 0
    then (h, from, to)
    else if to.head == 0
    then (h, empty, from)
    else (let h1 = set_next h from.tail to.head in
        let h2 = set_prev h1 from.head (h1 to.head).prev in
        (set_prev h2 to.head from.tail, empty, record to { head = from.head }))
