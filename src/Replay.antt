-- ===== src/Replay.antt =====
-- The replay of telemetry events (src/autonomy/replay.py). An event is a value, so that its copies
-- are equal to it.
use autonomous_vehicle_llm.Base.{
  ℕ, zero, suc, ◌+◌, ◌≡◌, refl, ap, ◌∙◌, Option, none, some, List, [], ◌∷◌, ◌++◌, map, length,
  get_elem?, length-append, arith,
}
use autonomous_vehicle_llm.Base.Int.{ℤ, pos, sub_ℕ}

pub record DeterministicTelemetryReplay (E : Type 0) : Type 0 where
  pub events : List E
  pub index : ℕ

module _ {E : Type 0} where
  unfoldable pub new_replay : List E → DeterministicTelemetryReplay E
  new_replay events = record { events = events; index = 0 }

  -- `self._events[self._index]`, and the index after it; past the end there is no event.
  abbrev pub event_at :
      Option E → DeterministicTelemetryReplay E → Option E × DeterministicTelemetryReplay E
  event_at none s = (none, s)
  event_at (some event) s = (some event, record s { index = s.index + 1 })

  unfoldable pub next_event :
      DeterministicTelemetryReplay E → Option E × DeterministicTelemetryReplay E
  next_event s = event_at (get_elem? s.events s.index) s

  unfoldable pub reset : DeterministicTelemetryReplay E → DeterministicTelemetryReplay E
  reset s = record s { index = 0 }

  abbrev pub total : DeterministicTelemetryReplay E → ℕ
  total s = length s.events

  abbrev pub consumed : DeterministicTelemetryReplay E → ℕ
  consumed s = s.index

  -- Python's difference, which may be negative.
  abbrev pub remaining : DeterministicTelemetryReplay E → ℤ
  remaining s = sub_ℕ (length s.events) s.index

  -- `n` calls of `next_event`, with what they return.
  unfoldable pub next_events :
      ℕ → DeterministicTelemetryReplay E → List (Option E) × DeterministicTelemetryReplay E
  next_events zero s = ([], s)
  next_events (suc n) s =
      let (event, t) = next_event s in let (events, u) = next_events n t in (event ∷ events, u)

  get_elem-append :
      (past : List E) (event : E) (rest : List E)
      → get_elem? (past ++ (event ∷ rest)) (length past) ≡ some event
  get_elem-append [] event rest = refl
  get_elem-append (e ∷ past) event rest = get_elem-append past event rest

  get_elem-length : (events : List E) → get_elem? events (length events) ≡ none
  get_elem-length [] = refl
  get_elem-length (e ∷ events) = get_elem-length events

  append_one :
      (past : List E) (event : E) (rest : List E)
      → (past ++ (event ∷ [])) ++ rest ≡ past ++ (event ∷ rest)
  append_one [] event rest = refl
  append_one (e ∷ past) event rest = ap (λ l. e ∷ l) (append_one past event rest)

  -- From the end of `past`, the events that are left come one by one.
  next_events-rest :
      (past rest events : List E) (i : ℕ)
      → past ++ rest ≡ events
      → length past ≡ i
      → next_events (length rest) (record { events = events; index = i })
        ≡ (map some rest, record { events = events; index = i + length rest })
  unfolding next_events next_event
  next_events-rest past [] events i e l =
      ap (λ k. ([], record { events = events; index = k })) (omega arith)
  next_events-rest past (event ∷ rest) events i e l =
      let found : get_elem? events i ≡ some event =
        rw (← e, ← l) (get_elem-append past event rest) in
      let later =
        next_events-rest (past ++ (event ∷ [])) rest events (i + 1) (append_one past event rest ∙ e)
          (omega (arith, l, length-append past (event ∷ []))) in
      rw (found, later)
        (ap (λ k. (some event ∷ map some rest, record { events = events; index = k }))
          (omega arith))

  -- However far a replay has come, after `reset` as many calls as there are events return each
  -- event once, in order, with nothing remaining; the call after them returns none and changes
  -- nothing.
  pub next_events-reset :
      (s : DeterministicTelemetryReplay E)
      → let t = next_events (total s) (reset s) in
        (t.0 ≡ map some s.events) × (remaining t.1 ≡ pos 0) × (next_event t.1 ≡ (none, t.1))
  unfolding reset next_event
  next_events-reset s =
      rw (next_events-rest [] s.events s.events 0 refl refl)
        (refl, ground arith, rw (ends, get_elem-length s.events) refl)
    where
      ends : 0 + length s.events ≡ length s.events
      ends = omega arith
