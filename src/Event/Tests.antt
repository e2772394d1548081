-- ===== src/Event/Tests.antt =====
-- The theorems on events at concrete tables.
use ircd_hybrid_8_cvs.Common.{◌≡◌, refl, inr, true, [], ◌∷◌, none, some, arith, map}
use ircd_hybrid_8_cvs.Event.{EvEntry, Events, poll}
use ircd_hybrid_8_cvs.Event.Timely.{IsTimely}
use ircd_hybrid_8_cvs.Event.Run.{fire, poll_lem}

-- An event every 30 seconds, next at 100, and one every 10 seconds, next at 105.
abbrev slow : EvEntry
slow = record { func = 1; arg = 0; name = some 1; frequency = 30; when = 100; active = true }

abbrev fast : EvEntry
fast = record { func = 2; arg = 0; name = some 2; frequency = 10; when = 105; active = true }

abbrev both : Events
both = record { table = slow ∷ fast ∷ []; time_min = some 100; last_event_ran = none }

both-IsTimely : IsTimely both
both-IsTimely = (inr (omega arith), (inr (omega arith), tt))

poll_lem_example : (poll 100 (λ func arg s. s) both).table ≡ map (fire 100) both.table
poll_lem_example =
    poll_lem 100 (λ func arg s. s) (λ func arg s. refl) both both-IsTimely (omega arith)
