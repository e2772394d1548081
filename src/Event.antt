-- ===== src/Event.antt =====
-- src/event.c and include/event.h: the table of timed events, and its use in the main loop of
-- src/ircd.c. The table is the list of its first `event_count` entries; `time_min` is
-- `event_time_min`, with `none` for -1. Times do not wrap.
pub mod Timely
pub mod Run
pub mod Limits
mod Tests
use ircd_hybrid_8_cvs.Common.{
  ℕ, zero, suc, ◌+◌, ◌-◌, ◌*◌, ◌/◌, ◌%◌, Bool, true, false, ◌&&◌, List, [], ◌∷◌, Option, none, some,
  length, map, leb, ltb, ◌==◌, if◌then◌else◌, get_elem?, set,
}

-- struct ev_entry; functions and arguments are addresses.
pub record EvEntry : Type 0 where
  pub func : ℕ
  pub arg : ℕ
  pub name : Option ℕ
  pub frequency : ℕ
  pub when : ℕ
  pub active : Bool

pub record Events : Type 0 where
  pub table : List EvEntry
  pub time_min : Option ℕ
  pub last_event_ran : Option ℕ

-- MAX_EVENTS
abbrev pub max_events : ℕ
max_events = 50

-- The table at start, and eventInit.
unfoldable pub event_init : Events
event_init = record { table = []; time_min = none; last_event_ran = none }

-- `if (when < event_time_min || event_time_min == -1) event_time_min = when;`
unfoldable pub lower : ℕ → Option ℕ → Option ℕ
lower when none = some when
lower when (some m) = if ltb when m then some when else some m

-- The table with an entry at its first inactive index, or behind its end.
unfoldable pub place : EvEntry → List EvEntry → List EvEntry
place e [] = e ∷ []
place e (f ∷ fs) = if f.active then f ∷ place e fs else e ∷ fs

-- eventAdd: `none` is the write behind the end of the table, which the code does not test for.
unfoldable pub event_add : ℕ → Events → ℕ → ℕ → ℕ → ℕ → Option Events
unfolding lower place
event_add now s name func arg when =
    let e : EvEntry = record {
      func = func;
      arg = arg;
      name = some name;
      frequency = when;
      when = now + when;
      active = true;
    } in
    let table = place e s.table in
    if ltb max_events (length table)
    then none
    else some (record s { table = table; time_min = lower (now + when) s.time_min })

-- The test of eventFind.
unfoldable pub is_event : ℕ → ℕ → EvEntry → Bool
is_event func arg e = e.func == func && e.arg == arg && e.active

-- eventFind: the index of the entry.
unfoldable pub event_find : ℕ → ℕ → List EvEntry → Option ℕ
unfolding is_event
event_find func arg [] = none
event_find func arg (e ∷ es) =
    if is_event func arg e
    then some 0
    else elim (event_find func arg es) [ none ↦ none | some i ↦ some (suc i) ]

-- What eventDelete leaves of the entry.
unfoldable pub blank : EvEntry → EvEntry
blank e = record e { name = none; func = 0; arg = 0; active = false }

-- The entry that eventFind finds, blanked.
unfoldable pub blank_first : ℕ → ℕ → List EvEntry → List EvEntry
unfolding is_event blank
blank_first func arg [] = []
blank_first func arg (e ∷ es) =
    if is_event func arg e then blank e ∷ es else e ∷ blank_first func arg es

-- eventDelete
unfoldable pub event_delete : Events → ℕ → ℕ → Events
unfolding blank_first
event_delete s func arg = record s { table = blank_first func arg s.table }

-- eventAddIsh; `random` is what random() gives.
unfoldable pub event_add_ish : ℕ → ℕ → Events → ℕ → ℕ → ℕ → ℕ → Option Events
unfolding event_add
event_add_ish now random s name func arg delta =
    let two_third = 2 * delta / 3 in
    event_add now s name func arg
      (if leb 3 delta then two_third + random % 1000 * two_third / 1000 else delta)

-- Whether eventRun runs an entry.
unfoldable pub is_due : ℕ → EvEntry → Bool
is_due now e = e.active && leb e.when now

-- `event_table[i].when = CurrentTime + event_table[i].frequency;`, after the call, and whatever the
-- call made of the entry.
unfoldable pub rearm : ℕ → ℕ → Events → Events
rearm now i s = elim (get_elem? s.table i) [
  | none ↦ s
  | some e ↦ record s {
    table = set s.table i (record e { when = now + e.frequency });
    time_min = none;
  }
]

-- The loop of eventRun from index `i`, of which `left` rounds are possible. `call` is what calling a
-- function with its argument does to the table.
unfoldable pub run_from : ℕ → (ℕ → ℕ → Events → Events) → ℕ → ℕ → Events → Events
run_from now call zero i s = s
run_from now call (suc left) i s = elim (get_elem? s.table i) [
  | none ↦ s
  | some e ↦ run_from now call left (suc i) (
      if is_due now e
      then rearm now i (call e.func e.arg (record s { last_event_ran = e.name }))
      else s)
]

-- eventRun: the table has at most MAX_EVENTS entries, so as many rounds are enough.
unfoldable pub event_run : ℕ → (ℕ → ℕ → Events → Events) → Events → Events
event_run now call s = run_from now call max_events 0 s

-- The loop of eventNextTime.
unfoldable pub least_when : List EvEntry → Option ℕ → Option ℕ
unfolding lower
least_when [] m = m
least_when (e ∷ es) m = least_when es (if e.active then lower e.when m else m)

-- eventNextTime: `none` is -1
unfoldable pub event_next_time : ℕ → Events → Events × Option ℕ
unfolding least_when
event_next_time now s = elim s.table [
  | [] ↦ (s, some (now + 1))
  | e ∷ es ↦ elim s.time_min [
    | some m ↦ (s, some m)
    | none ↦ (record s { time_min = least_when s.table none }, least_when s.table none)
  ]
]

-- `delay = eventNextTime(); if (delay <= CurrentTime) eventRun();` in io_loop of src/ircd.c
unfoldable pub poll : ℕ → (ℕ → ℕ → Events → Events) → Events → Events
unfolding event_next_time event_run
poll now call s = elim (event_next_time now s).1 [
  | none ↦ event_run now call (event_next_time now s).0
  | some delay ↦
      if leb delay now
      then event_run now call (event_next_time now s).0
      else (event_next_time now s).0
]

-- The assignment of set_back_events to one entry.
unfoldable pub set_back : ℕ → EvEntry → EvEntry
set_back by e = if ltb by e.when then record e { when = e.when - by } else record e { when = 0 }

-- set_back_events
unfoldable pub set_back_events : ℕ → Events → Events
unfolding set_back
set_back_events by s = record s { table = map (set_back by) s.table }
