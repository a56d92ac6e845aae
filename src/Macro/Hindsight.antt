-- ===== src/Macro/Hindsight.antt =====
-- The macro gate of engine/cycles/events.py and what is published after its time.
use aurum_iq.Prelude.{
  ℕ, ◌≡◌, refl, sym, ap, ◌∙◌, inl, inr, Option, none, some, List, [], ◌∷◌, map, filter,
  if◌then◌else◌, leb, arith, Bool-cases,
}
use aurum_iq.Macro.Events.{
  MacroEvent, MacroOptions, Scan, proximity, revision, pit_value, step, scan_events, is_high,
  windows, context, initial_scan, evaluate_macro_event_risk, Text,
}

-- An instant that has come.
abbrev pub known_time : ℕ → Option ℕ → Option ℕ
known_time as_of none = none
known_time as_of (some t) = if leb t as_of then some t else none

abbrev pub known_value : Option ℕ → Option Text → Option Text
known_value none value = none
known_value (some t) value = value

-- What can be known of an event at a time: its release and its value only once it is released, and
-- its revision and the revised value only once it is revised.
abbrev pub known_at : ℕ → MacroEvent → MacroEvent
known_at as_of e = record {
  name = e.name;
  scheduled_at = e.scheduled_at;
  released_at = known_time as_of e.released_at;
  initial_value = known_value (known_time as_of e.released_at) e.initial_value;
  revised_at = known_time as_of e.revised_at;
  revised_value = known_value (known_time as_of e.revised_at) e.revised_value;
  impact = e.impact;
}

module _ (as_of : ℕ) (pre post : Option ℕ) where
  proximity-known_at :
      (e : MacroEvent) (s : Scan)
      → proximity as_of pre post (known_at as_of e) s ≡ proximity as_of pre post e s
  unfolding proximity
  proximity-known_at e s = refl

  revision-known_at :
      (e : MacroEvent) (s : Scan)
      → revision as_of post (known_at as_of e) s ≡ revision as_of post e s
  unfolding revision
  revision-known_at e s = ground arith

  pit_value-known_at :
      (e : MacroEvent) (s : Scan) → pit_value as_of (known_at as_of e) s ≡ pit_value as_of e s
  unfolding pit_value
  pit_value-known_at e s = ground arith

  step-known_at :
      (e : MacroEvent) (s : Scan)
      → step as_of pre post (known_at as_of e) s ≡ step as_of pre post e s
  unfolding step
  step-known_at e s =
      ap (λ s'. pit_value as_of (known_at as_of e) (revision as_of post (known_at as_of e) s'))
        (proximity-known_at e s)
      ∙ ap (pit_value as_of (known_at as_of e)) (revision-known_at e (proximity as_of pre post e s))
      ∙ pit_value-known_at e (revision as_of post e (proximity as_of pre post e s))

  scan-known_at :
      (es : List MacroEvent) (s : Scan)
      → scan_events as_of pre post (map (known_at as_of) es) s ≡ scan_events as_of pre post es s
  unfolding scan_events
  scan-known_at [] s = refl
  scan-known_at (e ∷ es) s =
      scan-known_at es (step as_of pre post (known_at as_of e) s)
      ∙ ap (scan_events as_of pre post es) (step-known_at e s)

filter-known_at :
    (as_of : ℕ) (es : List MacroEvent)
    → filter is_high (map (known_at as_of) es) ≡ map (known_at as_of) (filter is_high es)
filter-known_at as_of [] = refl
filter-known_at as_of (e ∷ es) = elim (Bool-cases (is_high e)) [
  | inl high ↦ rw (high) (ap (λ l. known_at as_of e ∷ l) (filter-known_at as_of es))
  | inr other ↦ rw (other) (filter-known_at as_of es)
]

evaluate-known_at :
    (as_of : ℕ) (es : List MacroEvent) (x : MacroOptions)
    → evaluate_macro_event_risk as_of (map (known_at as_of) es) x
      ≡ evaluate_macro_event_risk as_of es x
unfolding evaluate_macro_event_risk
evaluate-known_at as_of [] x = refl
evaluate-known_at as_of (e ∷ es) x = ap context (
    ap (λ l. scan_events as_of (windows x).0 (windows x).1 l initial_scan)
      (filter-known_at as_of (e ∷ es))
    ∙ scan-known_at as_of (windows x).0 (windows x).1 (filter is_high (e ∷ es)) initial_scan)

-- No hindsight: two calendars in which the same is known of the events at a time, whatever is
-- released or revised later in either, give the same risk context at that time, in every field.
pub no_hindsight :
    (as_of : ℕ) (es fs : List MacroEvent) (x : MacroOptions)
    → map (known_at as_of) es ≡ map (known_at as_of) fs
    → evaluate_macro_event_risk as_of es x ≡ evaluate_macro_event_risk as_of fs x
no_hindsight as_of es fs x same =
    sym (evaluate-known_at as_of es x)
    ∙ ap (λ l. evaluate_macro_event_risk as_of l x) same
    ∙ evaluate-known_at as_of fs x
