-- ===== src/Hash/Tests.antt =====
-- The theorems on the hash tables at concrete ones.
use ircd_hybrid_8_cvs.Common.{
  ℕ, ◌≡◌, refl, true, false, List, [], ◌∷◌, none, some, length, arith, if◌then◌else◌, ◌==◌,
}
use ircd_hybrid_8_cvs.Text.Chars.{to_upper}
use ircd_hybrid_8_cvs.Text.Compare.{IsText, irccmp, same_name}
use ircd_hybrid_8_cvs.Hash.Function.{hash_resv_channel}
use ircd_hybrid_8_cvs.Hash.Chain.{Table, clear, del_at, find_in, Absent, del_at_lem}
use ircd_hybrid_8_cvs.Hash.Client.{
  Client, init_tables, add_client, is_id, find_client, find_client-add_client,
}
use ircd_hybrid_8_cvs.Hash.Channel.{
  Named, Channels, hash_find_channel, hash_find_resv, del_resv, del_resv-loses,
}

-- "#Ab" and "#aB"
abbrev spelled : List ℕ
spelled = 35 ∷ 65 ∷ 98 ∷ []

abbrev spelled_other : List ℕ
spelled_other = 35 ∷ 97 ∷ 66 ∷ []

spelled-IsText : IsText spelled
spelled-IsText =
    ((omega arith, omega arith), ((omega arith, omega arith), ((omega arith, omega arith), tt)))

spelled_other-IsText : IsText spelled_other
spelled_other-IsText =
    ((omega arith, omega arith), ((omega arith, omega arith), ((omega arith, omega arith), tt)))

same_spelling : same_name spelled spelled ≡ true
unfolding same_name irccmp to_upper
same_spelling = refl

one_name : same_name spelled_other spelled ≡ true
unfolding same_name irccmp to_upper
one_name = refl

abbrev client : Client
client = record { ptr = 7; name = 97 ∷ []; id = none; server = false }

name-IsText : IsText (97 ∷ [])
name-IsText = ((omega arith, omega arith), tt)

upper_name-IsText : IsText (65 ∷ [])
upper_name-IsText = ((omega arith, omega arith), tt)

plain : is_id (65 ∷ []) ≡ false
plain = refl

find_client-add_client_example :
    find_client (add_client init_tables (97 ∷ []) client) (65 ∷ [])
    ≡ (if same_name (65 ∷ []) (97 ∷ []) then some client else find_client init_tables (65 ∷ []))
find_client-add_client_example =
    find_client-add_client init_tables client (65 ∷ []) upper_name-IsText name-IsText plain

-- A table of two objects in one chain, whatever their names are.
abbrev first : Named
first = record { ptr = 1; name = spelled }

abbrev second : Named
second = record { ptr = 2; name = spelled_other }

abbrev full : Table Named
full = λ j.
    if j == hash_resv_channel spelled
    then record { list = first ∷ second ∷ []; links = 2; hits = 0 }
    else record { list = []; links = 0; hits = 0 }

first-Absent : Absent (λ (n : Named). n.ptr) 2 (first ∷ [])
first-Absent = ((λ e. absurd (omega arith)), tt)

full_list :
    (i : ℕ)
    → i ≡ hash_resv_channel spelled
    → ((full i).list ≡ first ∷ second ∷ []) × ((full i).links ≡ length (full i).list)
full_list i e = ground arith

abbrev two : Table Named
two = λ j.
    if j == 5
    then record { list = first ∷ second ∷ []; links = 2; hits = 0 }
    else record { list = []; links = 0; hits = 0 }

del_at_lem_example :
    ((del_at (λ (n : Named). n.ptr) two 5 2 5).list ≡ first ∷ [])
    × ((del_at (λ (n : Named). n.ptr) two 5 2 5).links ≡ 1)
    × (del_at (λ (n : Named). n.ptr) two 5 2 6 ≡ two 6)
del_at_lem_example =
    del_at_lem (λ (n : Named). n.ptr) two 5 2 (first ∷ []) [] second refl first-Absent refl 6
      (λ e. absurd (omega arith)) refl

abbrev no_channels : Channels
no_channels = record { table = clear; global = []; count = 0 }

none_yet : hash_find_channel no_channels spelled ≡ none
unfolding hash_find_channel clear find_in
none_yet = refl

del_resv-loses_example :
    (hash_find_resv full spelled ≡ some first)
    × (hash_find_resv (del_resv full spelled second) spelled
        ≡ find_in (λ (n : Named). same_name spelled n.name) [])
del_resv-loses_example =
    del_resv-loses full [] [] first second spelled (full_list _ refl).0 first-Absent
      (full_list _ refl).1 same_spelling
