-- ===== src/Event/Limits.antt =====
-- src/event.c: the time that eventNextTime remembers, and earlier events.
use ircd_hybrid_8_cvs.Common.{
  ℕ, suc, ◌+◌, ◌-◌, ◌≤◌, ◌<◌, ◌≡◌, refl, ap, ◌∙◌, ◌⊎◌, true, false, List, [], ◌∷◌, Option, none,
  some, length, ltb, if◌then◌else◌, arith, if_elim,
}
use ircd_hybrid_8_cvs.Event.{
  EvEntry, Events, max_events, place, event_add, event_next_time, set_back_events,
}
use ircd_hybrid_8_cvs.Event.Timely.{IsTimely}

length-place : (e : EvEntry) (es : List EvEntry) → length (place e es) ≤ suc (length es)
unfolding place
length-place e [] = omega arith
length-place e (f ∷ fs) =
    let rest = length-place e fs in
    if_elim (λ (t : List EvEntry). length t ≤ suc (suc (length fs))) f.active (λ _. omega arith)
      (λ _. omega arith)

-- When the remembered time is -1, as eventRun leaves it, and the table has room and starts with an
-- active event, eventAdd of a later event succeeds and then eventNextTime answers the time of the new
-- event, which is after that of the first one.
pub event_add_forgets :
    (now later : ℕ) (f : EvEntry) (fs : List EvEntry) (last : Option ℕ) (name func arg when : ℕ)
    → f.active ≡ true
    → f.when < now + when
    → suc (length fs) < max_events
    → (r : Events) × (event_add now
          (record { table = f ∷ fs; time_min = none; last_event_ran = last })
          name
          func
          arg
          when
        ≡ some r)
      × ((event_next_time later r).1 ≡ some (now + when))
unfolding event_add event_next_time
event_add_forgets now later f fs last name func arg when on after room = (next, place_first, refl)
  where
    new : EvEntry
    new = record {
      func = func;
      arg = arg;
      name = some name;
      frequency = when;
      when = now + when;
      active = true;
    }

    with_table : List EvEntry → Events
    with_table table = record { table = table; time_min = some (now + when); last_event_ran = last }

    next : Events
    next = with_table (f ∷ place new fs)

    first : place new (f ∷ fs) ≡ f ∷ place new fs
    first = ap (λ b. if b then f ∷ place new fs else new ∷ fs) on

    fits : ltb max_events (length (f ∷ place new fs)) ≡ false
    fits = ground (arith, length-place new fs)

    place_first :
        event_add now
          (record { table = f ∷ fs; time_min = none; last_event_ran = last })
          name
          func
          arg
          when
        ≡ some next
    place_first =
        ap (λ (t : List EvEntry). if ltb max_events (length t) then none else some (with_table t))
          first
        ∙ ap (λ b. if b then none else some next) fits

-- When the first event of the table is the earliest one and eventNextTime remembers its time, then
-- after set_back_events has moved it back, eventNextTime still answers the old time.
pub set_back_events_late :
    (now by m : ℕ) (f : EvEntry) (fs : List EvEntry) (last : Option ℕ)
    → f.active ≡ true
    → f.when ≡ m
    → 0 < by
    → by < m
    → let s : Events =
        set_back_events by (record { table = f ∷ fs; time_min = some m; last_event_ran = last }) in
      ((event_next_time now s).1 ≡ some m) × ¬ IsTimely s
unfolding set_back_events event_next_time
set_back_events_late now by m f fs last on at pos lt =
    (refl, λ t. if_elim Early (ltb by f.when) (λ _. moved) (λ _. moved_to_zero) t.0)
  where
    Early : EvEntry → Type 0
    Early e = (e.active ≡ false) ⊎ (m ≤ e.when) → ⊥

    moved : Early (record f { when = f.when - by })
    moved h = ground (arith, on, h)

    moved_to_zero : Early (record f { when = 0 })
    moved_to_zero h = ground (arith, on, h)
