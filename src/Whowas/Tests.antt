-- ===== src/Whowas/Tests.antt =====
-- The theorems on the history of nicknames at concrete histories.
use ircd_hybrid_8_cvs.Common.{ℕ, ◌≡◌, ◌≢◌, refl, true, List, [], ◌∷◌, some, arith}
use ircd_hybrid_8_cvs.Text.Chars.{to_upper}
use ircd_hybrid_8_cvs.Text.Compare.{IsText, irccmp, same_name}
use ircd_hybrid_8_cvs.Whowas.{History, Person, initwhowas, add_history, off_history, get_history}
use ircd_hybrid_8_cvs.Whowas.Laws.{
  IsHistory, initwhowas-IsHistory, add_history-IsHistory, get_history-off_history,
  get_history-add_history,
}

-- "ann"
abbrev ann : Person
ann = record { ptr = 4; nick = 97 ∷ 110 ∷ 110 ∷ []; user = []; host = []; info = []; server = [] }

-- The history when "ann" was added, at the time 100.
abbrev one_entry : History
one_entry = add_history 9 100 initwhowas ann true

abbrev upper_ann : List ℕ
upper_ann = 65 ∷ 78 ∷ 78 ∷ []

ann-IsText : IsText ann.nick
ann-IsText =
    ((omega arith, omega arith), ((omega arith, omega arith), ((omega arith, omega arith), tt)))

upper_ann-IsText : IsText upper_ann
upper_ann-IsText =
    ((omega arith, omega arith), ((omega arith, omega arith), ((omega arith, omega arith), tt)))

one_nick : same_name upper_ann ann.nick ≡ true
unfolding same_name irccmp to_upper
one_nick = refl

add_history-IsHistory_example : IsHistory one_entry
add_history-IsHistory_example = add_history-IsHistory 9 100 initwhowas ann true initwhowas-IsHistory

get_history-off_history_example : get_history 110 (off_history one_entry 4) upper_ann 60 ≢ some 4
get_history-off_history_example =
    get_history-off_history one_entry 4 110 60 upper_ann
      (add_history-IsHistory 9 100 initwhowas ann true initwhowas-IsHistory)

get_history-add_history_example : get_history 110 one_entry upper_ann 60 ≡ some 4
get_history-add_history_example =
    get_history-add_history 9 100 initwhowas ann 110 60 upper_ann upper_ann-IsText ann-IsText
      one_nick (omega arith) (omega arith)
