-- ===== src/Class/Tests.antt =====
-- The theorems on the class list at concrete lists.
use ircd_hybrid_8_cvs.Common.{◌≡◌, refl, false, [], ◌∷◌, none, some}
use ircd_hybrid_8_cvs.Common.Int.{pos, negsuc}
use ircd_hybrid_8_cvs.Hash.Client.{same_text}
use ircd_hybrid_8_cvs.Class.{Class, ClassList, make_class, settle, find_rest, find_class, add_class}
use ircd_hybrid_8_cvs.Class.Laws.{find_class-add_class}

-- The first class, "d", and behind it "u" with two links and "x", which is to go.
abbrev users : Class
users = record make_class { class_name = b'u' ∷ []; max_links = pos 10; links = 2 }

abbrev expired : Class
expired = record make_class { class_name = b'x' ∷ []; max_links = negsuc 0 }

abbrev classes : ClassList
classes = record {
  first = record make_class { class_name = b'd' ∷ []; max_links = pos 5 };
  rest = users ∷ expired ∷ [];
}

u_not_first : same_text (b'd' ∷ []) (b'u' ∷ []) ≡ false
unfolding same_text
u_not_first = refl

find_class-add_class_example :
    find_class
      (add_class classes (some (b'u' ∷ [])) (pos 1) (pos 2) (pos 3) (pos 4))
      (some (b'u' ∷ []))
    ≡ settle
        (b'u' ∷ [])
        (pos 1)
        (pos 2)
        (pos 3)
        (pos 4)
        (elim (find_rest (b'u' ∷ []) (users ∷ expired ∷ [])) [ none ↦ make_class | some c ↦ c ])
find_class-add_class_example =
    find_class-add_class classes (b'u' ∷ []) (pos 1) (pos 2) (pos 3) (pos 4) u_not_first
