-- ===== src/Class/Laws.antt =====
-- src/class.c: the class list as a map from names to classes.
use ircd_hybrid_8_cvs.Common.{
  ℕ, ◌≡◌, refl, sym, ap, ◌∙◌, inl, inr, true, false, List, [], ◌∷◌, none, some, ◌==◌, arith,
  Bool-cases, Option-cases, All, none≢some,
}
use ircd_hybrid_8_cvs.Common.Int.{ℤ}
use ircd_hybrid_8_cvs.Hash.Client.{same_text}
use ircd_hybrid_8_cvs.Class.{
  Class, ClassList, negative, find_rest, find_class, settle, make_class, settle_found, add_class,
  check_rest, check_class,
}

same_text_self : (s : List ℕ) → same_text s s ≡ true
unfolding same_text
same_text_self [] = refl
same_text_self (c ∷ cs) = ground (arith, same_text_self cs)

same_text_eq : (s t : List ℕ) → same_text s t ≡ true → s ≡ t
unfolding same_text
same_text_eq [] [] e = refl
same_text_eq [] (b ∷ t) e = absurd (ground arith)
same_text_eq (a ∷ s) [] e = absurd (ground arith)
same_text_eq (a ∷ s) (b ∷ t) e = ground (arith, same_text_eq s t)

find_rest-settle_found :
    (name : List ℕ) (f : Class → Class) (cs : List Class) (c : Class)
    → ((d : Class) → (f d).class_name ≡ name)
    → find_rest name cs ≡ some c
    → find_rest name (settle_found name f cs) ≡ some (f c)
unfolding find_rest settle_found
find_rest-settle_found name f [] c named e = absurd (none≢some e)
find_rest-settle_found name f (d ∷ cs) c named e = elim (Bool-cases (same_text d.class_name name)) [
  | inl same ↦ ground (arith, named d, same_text_self name)
  | inr other ↦ ground (arith, find_rest-settle_found name f cs c named)
]

find_rest-settle_found_ne :
    (name other : List ℕ) (f : Class → Class) (cs : List Class)
    → ((d : Class) → (f d).class_name ≡ name)
    → same_text name other ≡ false
    → find_rest other (settle_found name f cs) ≡ find_rest other cs
unfolding find_rest settle_found
find_rest-settle_found_ne name other f [] named ne = refl
find_rest-settle_found_ne name other f (d ∷ cs) named ne =
    elim (Bool-cases (same_text d.class_name name)) [
      | inl same ↦ ground (arith, named d, same_text_eq d.class_name name same)
      | inr differ ↦ ground (arith, find_rest-settle_found_ne name other f cs named ne)
    ]

module _ (s : ClassList) (name : List ℕ) (ping confreq maxli sendq : ℤ)
    (not_first : same_text s.first.class_name name ≡ false) where
  -- After add_class of a name that is not the first class's, find_class finds under the name a class
  -- with the values given; it is the class that was found before with its links, or, where the name
  -- was not in use, a new one without any.
  pub find_class-add_class :
      find_class (add_class s (some name) ping confreq maxli sendq) (some name)
      ≡ settle name ping confreq maxli sendq
          (elim (find_rest name s.rest) [ none ↦ make_class | some c ↦ c ])
  unfolding find_class add_class
  find_class-add_class = elim (Option-cases (find_rest name s.rest)) [
    | inl absent ↦ rw (absent, not_first, same_text_self name) refl
    | inr (c, found) ↦
        rw
          (
            found,
            not_first,
            find_rest-settle_found name (settle name ping confreq maxli sendq) s.rest c (λ d. refl)
                found,
          )
          refl
  ]

  -- After add_class of a name that is not the first class's, find_class finds for every other name
  -- what it found before.
  pub find_class-add_class_ne :
      (other : List ℕ)
      → same_text name other ≡ false
      → find_class (add_class s (some name) ping confreq maxli sendq) (some other)
        ≡ find_class s (some other)
  unfolding find_class add_class
  find_class-add_class_ne other ne = elim (Option-cases (find_rest name s.rest)) [
    | inl absent ↦ rw (absent, not_first, ne) refl
    | inr (c, found) ↦
        rw
          (
            found,
            not_first,
            find_rest-settle_found_ne name other (settle name ping confreq maxli sendq) s.rest
                (λ d. refl) ne,
          )
          refl
  ]

-- add_class of the name of the first class changes nothing that find_class finds: the new values are
-- lost in a class that is never found.
pub find_class-add_class_first :
    (s : ClassList) (name other : List ℕ) (ping confreq maxli sendq : ℤ)
    → same_text s.first.class_name name ≡ true
    → find_class (add_class s (some name) ping confreq maxli sendq) (some other)
      ≡ find_class s (some other)
unfolding find_class add_class find_rest
find_class-add_class_first s name other ping confreq maxli sendq first =
    elim (Bool-cases (same_text s.first.class_name other)) [
      | inl same ↦ rw (first, same) refl
      | inr differ ↦
          let differs : same_text name other ≡ false =
            ap (λ n. same_text n other) (sym (same_text_eq s.first.class_name name first))
            ∙ differ in
          rw (first, differ, differs) refl
    ]

-- When the first class stays, check_class returns; the classes behind it that stay have no negative
-- limit of links, and the classes that it frees have one, and no link.
pub check_class_lem :
    (s : ClassList)
    → negative s.first.max_links ≡ false
    → (r : ClassList × List Class) × (check_class s ≡ some r)
      × (r.0.first ≡ s.first)
      × All (λ (c : Class). negative c.max_links ≡ false) r.0.rest
      × All (λ (c : Class). (negative c.max_links ≡ true) × (c.links ≡ 0)) r.1
unfolding check_class
check_class_lem s stays = (
  (record s { rest = (check_rest s.rest).0 }, (check_rest s.rest).1),
  rw stays refl,
  refl,
  (check_rest_lem s.rest).0,
  (check_rest_lem s.rest).1,
)
  where
    check_rest_lem :
        (cs : List Class)
        → All (λ (c : Class). negative c.max_links ≡ false) (check_rest cs).0
          × All (λ (c : Class). (negative c.max_links ≡ true) × (c.links ≡ 0)) (check_rest cs).1
    check_rest_lem [] = (tt, tt)
    check_rest_lem (c ∷ cs) = elim (Bool-cases (negative c.max_links)) [
      | inr kept ↦ rw kept ((kept, (check_rest_lem cs).0), (check_rest_lem cs).1)
      | inl gone ↦ elim (Bool-cases (c.links == 0)) [
        | inl free ↦
            rw (gone, free) ((check_rest_lem cs).0, ((gone, ground arith), (check_rest_lem cs).1))
        | inr used ↦ rw (gone, used) (check_rest_lem cs)
      ]
    ]
