-- ===== src/Links/Tests.antt =====
-- The theorems on lists at concrete ones.
use ircd_hybrid_8_cvs.Common.{◌≡◌, refl, [], ◌∷◌, some, ◌==◌, if◌then◌else◌, arith}
use ircd_hybrid_8_cvs.Links.{
  DlinkList, Memory, dlink_add_tail, dlink_delete, dlink_find, dlink_move_list,
}
use ircd_hybrid_8_cvs.Links.Shape.{IsDlist}
use ircd_hybrid_8_cvs.Links.Removal.{dlink_delete-IsDlist}
use ircd_hybrid_8_cvs.Links.Joining.{AreApart, dlink_add_tail-IsDlist, dlink_find-first_with}
use ircd_hybrid_8_cvs.Links.Moving.{dlink_move_list-IsDlist}

-- The nodes 1 and 2 with the data 50 and 60 on one list, and node 3 with 70 on another
abbrev memory : Memory
memory = λ a.
    if a == 1
    then record { data_of = 50; prev = 0; next = 2 }
    else if a == 2
    then record { data_of = 60; prev = 1; next = 0 }
    else record { data_of = 70; prev = 0; next = 0 }

abbrev two : DlinkList
two = record { head = 1; tail = 2 }

abbrev one : DlinkList
one = record { head = 3; tail = 3 }

two-IsDlist : IsDlist memory two ((1, 50) ∷ (2, 60) ∷ [])
two-IsDlist = record {
  chain = (
    refl,
    (λ e. absurd (omega arith)),
    refl,
    refl,
    (refl, (λ e. absurd (omega arith)), refl, refl, (refl, refl)),
  );
  distinct = (refl, (refl, tt));
}

one-IsDlist : IsDlist memory one ((3, 70) ∷ [])
one-IsDlist = record {
  chain = (refl, (λ e. absurd (omega arith)), refl, refl, (refl, refl));
  distinct = (refl, tt);
}

dlink_delete-IsDlist_example :
    let r = dlink_delete 2 memory two in
    IsDlist r.0 r.1 ((1, 50) ∷ []) × ((r.0 2).prev ≡ 0) × ((r.0 2).next ≡ 0)
dlink_delete-IsDlist_example = dlink_delete-IsDlist memory two ((1, 50) ∷ []) [] 2 60 two-IsDlist

dlink_add_tail-IsDlist_example :
    let r = dlink_add_tail 80 4 memory two in IsDlist r.0 r.1 ((1, 50) ∷ (2, 60) ∷ (4, 80) ∷ [])
dlink_add_tail-IsDlist_example =
    dlink_add_tail-IsDlist 80 4 memory two ((1, 50) ∷ (2, 60) ∷ []) (λ e. absurd (omega arith))
      two-IsDlist refl

dlink_find-first_with_example : dlink_find 3 memory two 60 ≡ some (some 2)
dlink_find-first_with_example =
    dlink_find-first_with 3 memory two ((1, 50) ∷ (2, 60) ∷ []) 60 two-IsDlist (omega arith)

one_two_apart : AreApart ((3, 70) ∷ []) ((1, 50) ∷ (2, 60) ∷ [])
one_two_apart a i = ground arith

dlink_move_list-IsDlist_example :
    let r = dlink_move_list memory one two in
    IsDlist r.0 r.1 [] × IsDlist r.0 r.2 ((3, 70) ∷ (1, 50) ∷ (2, 60) ∷ [])
dlink_move_list-IsDlist_example =
    dlink_move_list-IsDlist memory one two ((3, 70) ∷ []) ((1, 50) ∷ (2, 60) ∷ []) one-IsDlist
      two-IsDlist one_two_apart
