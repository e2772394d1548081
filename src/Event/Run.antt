-- ===== src/Event/Run.antt =====
-- src/event.c: what a run of the events does to the table.
use ircd_hybrid_8_cvs.Common.{
  ℕ, zero, suc, ◌+◌, ◌≤◌, ◌<◌, ◌≡◌, refl, sym, ap, ◌∙◌, inl, inr, false, List, [], ◌∷◌, ◌++◌,
  Option, none, some, length, map, leb, if◌then◌else◌, arith, All, append_assoc, length-append,
  if_elim, get_elem?-append_here, set-append_here, get_elem?_end, Bool-cases, append-nil, subst,
}
use ircd_hybrid_8_cvs.Event.{
  EvEntry, Events, max_events, is_due, rearm, run_from, event_run, event_next_time, poll,
}
use ircd_hybrid_8_cvs.Event.Timely.{NoneBefore, IsTimely, IsAnswer, event_next_time_lem}

-- What a run makes of one entry: a due one is rearmed.
abbrev pub fire : ℕ → EvEntry → EvEntry
fire now e = if is_due now e then record e { when = now + e.frequency } else e

-- The functions called leave the table of events as it is.
abbrev pub IsQuiet : (ℕ → ℕ → Events → Events) → Type 0
IsQuiet call = (func arg : ℕ) (s : Events) → call func arg s ≡ s

snoc_assoc {ℓ} :
    {A : Type ℓ} (xs : List A) (y : A) (ys : List A) → (xs ++ y ∷ []) ++ ys ≡ xs ++ y ∷ ys
snoc_assoc xs y ys = append_assoc xs (y ∷ []) ys

length_snoc {ℓ} : {A : Type ℓ} (xs : List A) (y : A) → length (xs ++ y ∷ []) ≡ suc (length xs)
length_snoc xs y = omega (arith, length-append xs (y ∷ []))

fire_not_due :
    (now : ℕ) (e : EvEntry) (es : List EvEntry)
    → is_due now e ≡ false
    → map (fire now) es ≡ es
    → map (fire now) (e ∷ es) ≡ e ∷ es
fire_not_due now e es off rest =
    ap (λ b. (if b then record e { when = now + e.frequency } else e) ∷ map (fire now) es) off
    ∙ ap (◌∷◌ e) rest

-- When the answer of eventNextTime lies ahead, no event is due.
fire_none : (now m : ℕ) (es : List EvEntry) → now < m → NoneBefore m es → map (fire now) es ≡ es
unfolding is_due
fire_none now m [] lt h = refl
fire_none now m (e ∷ es) lt h =
    fire_not_due now e es (ground (arith, h.0)) (fire_none now m es lt h.1)

fire_idle :
    (now : ℕ) (es : List EvEntry)
    → All (λ (e : EvEntry). e.active ≡ false) es
    → map (fire now) es ≡ es
unfolding is_due
fire_idle now [] h = refl
fire_idle now (e ∷ es) h = fire_not_due now e es (ground (arith, h.0)) (fire_idle now es h.1)

module _ (now : ℕ) (call : ℕ → ℕ → Events → Events) (quiet : IsQuiet call) where
  rearm_here :
      (pre post : List EvEntry) (e : EvEntry) (m last : Option ℕ)
      → rearm now
          (length pre)
          (record { table = pre ++ e ∷ post; time_min = m; last_event_ran = last })
        ≡ record {
          table = pre ++ record e { when = now + e.frequency } ∷ post;
          time_min = none;
          last_event_ran = last;
        }
  unfolding rearm
  rearm_here pre post e m last =
      rw (rearm, get_elem?-append_here pre e post)
        (rw (set-append_here pre e (record e { when = now + e.frequency }) post) refl)

  along :
      (left : ℕ) (pre : List EvEntry) (f : EvEntry) (post rest : List EvEntry) (m last : Option ℕ)
      → (run_from now call left
          (length (pre ++ f ∷ []))
          (record { table = (pre ++ f ∷ []) ++ post; time_min = m; last_event_ran = last })).table
        ≡ (pre ++ f ∷ []) ++ rest
      → (run_from now call left
          (suc (length pre))
          (record { table = pre ++ f ∷ post; time_min = m; last_event_ran = last })).table
        ≡ pre ++ f ∷ rest
  along left pre f post rest m last ih =
      subst
        (λ (x : ℕ × List EvEntry × List EvEntry).
          (run_from now call left x.0
            (record { table = x.1; time_min = m; last_event_ran = last })).table
          ≡ x.2)
        (λ i. (length_snoc pre f i, snoc_assoc pre f post i, snoc_assoc pre f rest i)) ih

  run_table :
      (left : ℕ) (pre post : List EvEntry) (m last : Option ℕ)
      → length post ≤ left
      → (run_from now call left
          (length pre)
          (record { table = pre ++ post; time_min = m; last_event_ran = last })).table
        ≡ pre ++ map (fire now) post
  unfolding run_from
  run_table zero pre [] m last le = refl
  run_table zero pre (e ∷ post) m last le = absurd (omega arith)
  run_table (suc left) pre [] m last le =
      rw (run_from, append-nil pre, get_elem?_end pre) (append-nil pre)
  run_table (suc left) pre (e ∷ post) m last le = elim (Bool-cases (is_due now e)) [
    | inl due ↦
        rw
          (
            run_from,
            get_elem?-append_here pre e post,
            due,
            quiet e.func e.arg _,
            rearm_here pre post e m e.name,
          )
          (along left pre _ post _ none e.name (
            run_table left (pre ++ record e { when = now + e.frequency } ∷ []) post none e.name
              (omega arith)))
    | inr off ↦
        rw (run_from, get_elem?-append_here pre e post, off)
          (along left pre e post _ m last
            (run_table left (pre ++ e ∷ []) post m last (omega arith)))
  ]

  -- When the functions called leave the table alone and it has at most MAX_EVENTS entries, eventRun
  -- runs every due event once: exactly the entries that were due are set to the current time plus
  -- their frequency, and no other entry changes.
  pub event_run_lem :
      (s : Events)
      → length s.table ≤ max_events
      → (event_run now call s).table ≡ map (fire now) s.table
  unfolding event_run
  event_run_lem s fits = run_table max_events [] s.table s.time_min s.last_event_ran fits

  -- When the functions called leave the table alone, it has at most MAX_EVENTS entries and what is
  -- remembered is no later than any active event, one round of the main loop,
  -- which asks for the next time and runs the events only when it has come, does to the table the
  -- same as running all the due events: none is missed.
  pub poll_lem :
      (s : Events)
      → IsTimely s
      → length s.table ≤ max_events
      → (poll now call s).table ≡ map (fire now) s.table
  unfolding poll
  poll_lem s t fits =
      let (same, _, answer) = event_next_time_lem now s t in
      by_answer (event_next_time now s).1 (event_next_time now s).0 same answer
    where
      run : Events → Events
      run r = event_run now call r

      ran : (r : Events) → r.table ≡ s.table → (run r).table ≡ map (fire now) s.table
      ran r same =
          event_run_lem r (subst (λ (t : List EvEntry). length t ≤ max_events) (sym same) fits)
          ∙ ap (map (fire now)) same

      by_answer :
          (o : Option ℕ) (r : Events)
          → r.table ≡ s.table
          → IsAnswer s.table o
          → let after : Events = elim o [
            | none ↦ run r
            | some delay ↦ if leb delay now then run r else r
          ] in
            after.table ≡ map (fire now) s.table
      by_answer none r same answer = ran r same
      by_answer (some m) r same answer =
          if_elim (λ (r : Events). r.table ≡ map (fire now) s.table) (leb m now) (λ _. ran r same)
            (λ ahead. same ∙ sym (fire_none now m s.table (ground arith) answer))
