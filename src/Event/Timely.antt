-- ===== src/Event/Timely.antt =====
-- src/event.c: the time of the next event.
use ircd_hybrid_8_cvs.Common.{
  ℕ, ◌+◌, ◌≤◌, ◌≡◌, refl, sym, ap, ◌∙◌, ◌≢◌, ◌⊎◌, inl, inr, true, false, List, [], ◌∷◌, Option,
  none, some, length, ltb, if◌then◌else◌, arith, All, Bool-cases, if_elim, some_inj, none≢some,
  subst,
}
use ircd_hybrid_8_cvs.Event.{
  EvEntry, Events, max_events, lower, place, event_add, is_event, blank_first, event_delete,
  least_when, event_next_time,
}

-- No active entry is due before `m`.
abbrev pub NoneBefore : ℕ → List EvEntry → Type 0
NoneBefore m = All (λ (e : EvEntry). (e.active ≡ false) ⊎ (m ≤ e.when))

-- What eventNextTime remembers is no later than any active event.
abbrev pub TimelyTable : List EvEntry → Option ℕ → Type 0
TimelyTable table none = Unit {0}
TimelyTable table (some m) = NoneBefore m table

abbrev pub IsTimely : Events → Type 0
IsTimely s = TimelyTable s.table s.time_min

NoneBefore-mono : (m n : ℕ) (es : List EvEntry) → m ≤ n → NoneBefore n es → NoneBefore m es
NoneBefore-mono m n [] le h = tt
NoneBefore-mono m n (e ∷ es) le h = (ground (arith, h.0), NoneBefore-mono m n es le h.1)

place-NoneBefore :
    (m : ℕ) (e : EvEntry) (es : List EvEntry)
    → m ≤ e.when
    → NoneBefore m es
    → NoneBefore m (place e es)
unfolding place
place-NoneBefore m e [] le h = (inr le, tt)
place-NoneBefore m e (f ∷ fs) le h =
    if_elim (NoneBefore m) f.active (λ _. (h.0, place-NoneBefore m e fs le h.1))
      (λ _. (inr le, h.1))

lower-Timely :
    (when : ℕ) (m : Option ℕ) (e : EvEntry) (es : List EvEntry)
    → e.when ≡ when
    → TimelyTable es m
    → m ≢ none
    → TimelyTable (place e es) (lower when m)
unfolding lower
lower-Timely when none e es w h some_m = absurd (some_m refl)
lower-Timely when (some m) e es w h some_m =
    if_elim (TimelyTable (place e es)) (ltb when m)
      (λ lt. place-NoneBefore when e es (omega arith) (NoneBefore-mono when m es (ground arith) h))
      (λ ge. place-NoneBefore m e es (ground arith) h)

-- When eventAdd succeeds in a timely state whose remembered time is not -1, the state stays timely.
pub event_add-IsTimely :
    (now : ℕ) (s r : Events) (name func arg when : ℕ)
    → IsTimely s
    → s.time_min ≢ none
    → event_add now s name func arg when ≡ some r
    → IsTimely r
unfolding event_add
event_add-IsTimely now s r name func arg when t known added =
    elim (Bool-cases (ltb max_events (length table))) [
      | inl full ↦ absurd (none≢some (sym (ap (λ b. if b then none else some next) full) ∙ added))
      | inr fits ↦
          subst IsTimely (some_inj (sym (ap (λ b. if b then none else some next) fits) ∙ added))
            (lower-Timely (now + when) s.time_min entry s.table refl t known)
    ]
  where
    entry : EvEntry
    entry = record {
      func = func;
      arg = arg;
      name = some name;
      frequency = when;
      when = now + when;
      active = true;
    }

    table : List EvEntry
    table = place entry s.table

    next : Events
    next = record s { table = table; time_min = lower (now + when) s.time_min }

blank_first-NoneBefore :
    (m func arg : ℕ) (es : List EvEntry) → NoneBefore m es → NoneBefore m (blank_first func arg es)
unfolding blank_first
blank_first-NoneBefore m func arg [] h = tt
blank_first-NoneBefore m func arg (e ∷ es) h =
    if_elim (NoneBefore m) (is_event func arg e) (λ _. (inl refl, h.1))
      (λ _. (h.0, blank_first-NoneBefore m func arg es h.1))

-- eventDelete keeps a state timely.
pub event_delete-IsTimely :
    (s : Events) (func arg : ℕ) → IsTimely s → IsTimely (event_delete s func arg)
unfolding event_delete
event_delete-IsTimely s func arg t = by_min s.time_min t
  where
    by_min : (m : Option ℕ) → TimelyTable s.table m → TimelyTable (blank_first func arg s.table) m
    by_min none h = tt
    by_min (some m) h = blank_first-NoneBefore m func arg s.table h

abbrev Within : Option ℕ → ℕ → Type 0
Within none m = Unit {0}
Within (some k) m = m ≤ k

lower-le : (w : ℕ) (m : Option ℕ) → (k : ℕ) × (lower w m ≡ some k) × (k ≤ w) × Within m k
unfolding lower
lower-le w none = (w, refl, omega arith, tt)
lower-le w (some m) = elim (Bool-cases (ltb w m)) [
  | inl e ↦ (w, rw e, omega arith, ground arith)
  | inr e ↦ (m, rw e, ground arith, omega arith)
]

Within-mono : (m : Option ℕ) (k l : ℕ) → k ≤ l → Within m l → Within m k
Within-mono none k l le h = tt
Within-mono (some m) k l le h = omega arith

-- The loop of eventNextTime finds a time that no active event precedes, or that none is active.
least_when_lem :
    (es : List EvEntry) (m : Option ℕ)
    → ((least_when es m ≡ none) × (m ≡ none) × All (λ (e : EvEntry). e.active ≡ false) es)
      ⊎ ((k : ℕ) × (least_when es m ≡ some k) × NoneBefore k es × Within m k)
unfolding least_when
least_when_lem [] none = inl (refl, refl, tt)
least_when_lem [] (some m) = inr (m, refl, tt, omega arith)
least_when_lem (e ∷ es) m =
    if_elim
      (λ (o : Option ℕ).
        ((least_when es o ≡ none) × (m ≡ none) × All (λ (e : EvEntry). e.active ≡ false) (e ∷ es))
        ⊎ ((k : ℕ) × (least_when es o ≡ some k) × NoneBefore k (e ∷ es) × Within m k))
      e.active
      (λ _. earlier (lower e.when m) (lower-le e.when m) (least_when_lem es (lower e.when m)))
      (λ off. elim (least_when_lem es m) [
        | inl (a, b, c) ↦ inl (a, b, (off, c))
        | inr (k, a, b, c) ↦ inr (k, a, (inl off, b), c)
      ])
  where
    earlier :
        (lowered : Option ℕ)
        → (k : ℕ) × (lowered ≡ some k) × (k ≤ e.when) × Within m k
        → ((least_when es lowered ≡ none)
            × (lowered ≡ none)
            × All (λ (e : EvEntry). e.active ≡ false) es)
          ⊎ ((k : ℕ) × (least_when es lowered ≡ some k) × NoneBefore k es × Within lowered k)
        → ((least_when es lowered ≡ none)
            × (m ≡ none)
            × All (λ (e : EvEntry). e.active ≡ false) (e ∷ es))
          ⊎ ((k : ℕ) × (least_when es lowered ≡ some k) × NoneBefore k (e ∷ es) × Within m k)
    earlier lowered (l, l_eq, l_le, within) (inl (a, b, c)) = absurd (none≢some (sym b ∙ l_eq))
    earlier lowered (l, l_eq, l_le, within) (inr (k, a, b, c)) =
        let le = subst (λ (o : Option ℕ). Within o k) l_eq c in
        inr (k, a, (inr (omega arith), b), Within-mono m k l (omega arith) within)

-- No entry of the table is active before the time that eventNextTime answered, where `none` is the
-- answer that there is none.
abbrev pub IsAnswer : List EvEntry → Option ℕ → Type 0
IsAnswer table none = All (λ (e : EvEntry). e.active ≡ false) table
IsAnswer table (some m) = NoneBefore m table

-- In a timely state eventNextTime leaves the table as it was and remembers its answer, unless the
-- table is empty; the state stays timely, and no active event comes before the answer (which is -1
-- only when no event is active).
pub event_next_time_lem :
    (now : ℕ) (s : Events)
    → IsTimely s
    → ((event_next_time now s).0.table ≡ s.table)
      × IsTimely (event_next_time now s).0
      × IsAnswer s.table (event_next_time now s).1
unfolding event_next_time
event_next_time_lem now s t = by_table s.table s.time_min s.last_event_ran t
  where
    by_table :
        (table : List EvEntry) (m last : Option ℕ)
        → TimelyTable table m
        → let s : Events = record { table = table; time_min = m; last_event_ran = last } in
          ((event_next_time now s).0.table ≡ s.table)
          × IsTimely (event_next_time now s).0
          × IsAnswer s.table (event_next_time now s).1
    by_table [] none last t = (refl, tt, tt)
    by_table [] (some m) last t = (refl, tt, tt)
    by_table (e ∷ es) none last t = elim (least_when_lem (e ∷ es) none) [
      | inl (is_none, _, idle) ↦ rw is_none (refl, tt, idle)
      | inr (k, is_k, before, _) ↦ rw is_k (refl, before, before)
    ]
    by_table (e ∷ es) (some m) last t = (refl, t, t)
