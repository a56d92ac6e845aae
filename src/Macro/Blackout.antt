-- ===== src/Macro/Blackout.antt =====
-- When the macro gate of engine/cycles/events.py reports a blackout.
use aurum_iq.Prelude.{
  ℕ, ◌+◌, ◌*◌, ◌≤◌, ◌<◌, ◌≡◌, refl, sym, ◌∙◌, subst, ◌⊎◌, inl, inr, true, Option, none, some, List,
  [], ◌∷◌, filter, filtered-Memᴰ, Memᴰ-filtered, arith, ◌↔◌,
}
use mathlib.Core.List.{Memᴰ}
use aurum_iq.Macro.Events.{
  EventImpact, MacroEvent, MacroOptions, Scan, minute, proximity, revision, pit_value, step,
  scan_events, is_high, windows, initial_scan, evaluate_macro_event_risk,
}

-- The windows of a blackout around an instant: from before an event by less than a minute more than
-- the window, to after it by the window; and after a revision by less than a minute more.
abbrev pub WithinMinutes : Option ℕ → (ℕ → Type 0) → Type 0
WithinMinutes none P = ⊥
WithinMinutes (some w) P = P w

abbrev pub IsBefore : ℕ → Option ℕ → MacroEvent → Type 0
IsBefore as_of pre e =
    (as_of ≤ e.scheduled_at) × WithinMinutes pre (λ w. e.scheduled_at < as_of + (w + 1) * minute)

abbrev pub IsAfter : ℕ → Option ℕ → MacroEvent → Type 0
IsAfter as_of post e =
    (e.scheduled_at < as_of) × WithinMinutes post (λ w. as_of ≤ e.scheduled_at + w * minute)

abbrev pub IsRevised : ℕ → Option ℕ → MacroEvent → Type 0
IsRevised as_of post e =
    (rev : ℕ) × (e.revised_at ≡ some rev)
    × (rev ≤ as_of)
    × WithinMinutes post (λ w. as_of < rev + (w + 1) * minute)

abbrev pub IsBlackout : ℕ → Option ℕ → Option ℕ → MacroEvent → Type 0
IsBlackout as_of pre post e = IsBefore as_of pre e ⊎ IsAfter as_of post e ⊎ IsRevised as_of post e

module _ (as_of : ℕ) (pre post : Option ℕ) where
  proximity_sound :
      (e : MacroEvent) (s : Scan)
      → (proximity as_of pre post e s).is_in_blackout ≡ true
      → (s.is_in_blackout ≡ true) ⊎ IsBefore as_of pre e ⊎ IsAfter as_of post e
  unfolding proximity
  proximity_sound e s h = ground arith

  revision_sound :
      (e : MacroEvent) (s : Scan)
      → (revision as_of post e s).is_in_blackout ≡ true
      → (s.is_in_blackout ≡ true) ⊎ IsRevised as_of post e
  unfolding revision
  revision_sound e s h = ground arith

  pit_value-blackout :
      (e : MacroEvent) (s : Scan) → (pit_value as_of e s).is_in_blackout ≡ s.is_in_blackout
  unfolding pit_value
  pit_value-blackout e s = ground arith

  proximity_complete :
      (e : MacroEvent) (s : Scan)
      → (s.is_in_blackout ≡ true) ⊎ IsBefore as_of pre e ⊎ IsAfter as_of post e
      → (proximity as_of pre post e s).is_in_blackout ≡ true
  unfolding proximity
  proximity_complete e s h = ground arith

  revision_complete :
      (e : MacroEvent) (s : Scan)
      → (s.is_in_blackout ≡ true) ⊎ IsRevised as_of post e
      → (revision as_of post e s).is_in_blackout ≡ true
  unfolding revision
  revision_complete e s h = ground arith

  step_sound :
      (e : MacroEvent) (s : Scan)
      → (step as_of pre post e s).is_in_blackout ≡ true
      → (s.is_in_blackout ≡ true) ⊎ IsBlackout as_of pre post e
  unfolding step
  step_sound e s h =
      let near = proximity as_of pre post e s in
      elim (revision_sound e near (sym (pit_value-blackout e (revision as_of post e near)) ∙ h)) [
        | inr revised ↦ inr (inr (inr revised))
        | inl already ↦ elim (proximity_sound e s already) [
          | inl before_it ↦ inl before_it
          | inr (inl before) ↦ inr (inl before)
          | inr (inr after) ↦ inr (inr (inl after))
        ]
      ]

  step_complete :
      (e : MacroEvent) (s : Scan)
      → (s.is_in_blackout ≡ true) ⊎ IsBlackout as_of pre post e
      → (step as_of pre post e s).is_in_blackout ≡ true
  unfolding step
  step_complete e s h =
      let near = proximity as_of pre post e s in
      pit_value-blackout e (revision as_of post e near)
      ∙ revision_complete e near (elim h [
        | inl already ↦ inl (proximity_complete e s (inl already))
        | inr (inl before) ↦ inl (proximity_complete e s (inr (inl before)))
        | inr (inr (inl after)) ↦ inl (proximity_complete e s (inr (inr after)))
        | inr (inr (inr revised)) ↦ inr revised
      ])

  scan_sound :
      (es : List MacroEvent) (s : Scan)
      → (scan_events as_of pre post es s).is_in_blackout ≡ true
      → (s.is_in_blackout ≡ true) ⊎ ((e : MacroEvent) × Memᴰ e es × IsBlackout as_of pre post e)
  unfolding scan_events
  scan_sound [] s h = inl h
  scan_sound (e ∷ es) s h = elim (scan_sound es (step as_of pre post e s) h) [
    | inr (f, member, blackout) ↦ inr (f, Memᴰ.tail member, blackout)
    | inl here ↦ elim (step_sound e s here) [
      | inl already ↦ inl already
      | inr blackout ↦ inr (e, Memᴰ.head refl, blackout)
    ]
  ]

  scan_keeps :
      (es : List MacroEvent) (s : Scan)
      → s.is_in_blackout ≡ true
      → (scan_events as_of pre post es s).is_in_blackout ≡ true
  unfolding scan_events
  scan_keeps [] s h = h
  scan_keeps (e ∷ es) s h = scan_keeps es (step as_of pre post e s) (step_complete e s (inl h))

  scan_complete :
      (es : List MacroEvent) (s : Scan) (e : MacroEvent)
      → Memᴰ e es
      → IsBlackout as_of pre post e
      → (scan_events as_of pre post es s).is_in_blackout ≡ true
  unfolding scan_events
  scan_complete [] s e member h = elim member [ ]
  scan_complete (f ∷ es) s e (Memᴰ.head same) h =
      scan_keeps es (step as_of pre post f s)
        (step_complete f s (inr (subst (IsBlackout as_of pre post) same h)))
  scan_complete (f ∷ es) s e (Memᴰ.tail member) h =
      scan_complete es (step as_of pre post f s) e member h

high_impact : (e : MacroEvent) → is_high e ≡ true → e.impact ≡ EventImpact.high
high_impact e h = ground arith

-- A blackout is reported only where a high-impact event of the calendar is near: it is scheduled
-- within the window before it (short of one more minute), it was scheduled within the window
-- after it, or it has been revised within the window after its revision (short of one more
-- minute).
pub IsBlackout-has_event :
    (as_of : ℕ) (es : List MacroEvent) (x : MacroOptions)
    → (evaluate_macro_event_risk as_of es x).is_in_blackout ≡ true
    → (e : MacroEvent) × Memᴰ e es
      × (e.impact ≡ EventImpact.high)
      × IsBlackout as_of (windows x).0 (windows x).1 e
unfolding evaluate_macro_event_risk
IsBlackout-has_event as_of [] x h = absurd (ground arith)
IsBlackout-has_event as_of (f ∷ es) x h =
    elim (scan_sound as_of (windows x).0 (windows x).1 (filter is_high (f ∷ es)) initial_scan h) [
      | inl already ↦ absurd (ground arith)
      | inr (e, member, blackout) ↦
          let (listed, high) = filtered-Memᴰ is_high (f ∷ es) e member in
          (e, listed, high_impact e high, blackout)
    ]

-- A blackout is reported whenever a high-impact event of the calendar is scheduled within the
-- window before it (short of one more minute), was scheduled within the window after it, or has
-- been revised within the window after its revision (short of one more minute).
pub event_has_blackout :
    (as_of : ℕ) (es : List MacroEvent) (x : MacroOptions) (e : MacroEvent)
    → Memᴰ e es
    → e.impact ≡ EventImpact.high
    → IsBlackout as_of (windows x).0 (windows x).1 e
    → (evaluate_macro_event_risk as_of es x).is_in_blackout ≡ true
unfolding evaluate_macro_event_risk
event_has_blackout as_of [] x e member high h = elim member [ ]
event_has_blackout as_of (f ∷ es) x e member high h =
    scan_complete as_of (windows x).0 (windows x).1 (filter is_high (f ∷ es)) initial_scan e
      (Memᴰ-filtered is_high (f ∷ es) e member (ground arith)) h

-- A blackout is reported just if a high-impact event of the calendar is near: it is scheduled within
-- the window before it (short of one more minute), it was scheduled within the window after it, or it
-- has been revised within the window after its revision (short of one more minute).
pub event_near-IsBlackout :
    (as_of : ℕ) (es : List MacroEvent) (x : MacroOptions)
    → ((evaluate_macro_event_risk as_of es x).is_in_blackout ≡ true) ↔ (
        (e : MacroEvent) × Memᴰ e es
        × (e.impact ≡ EventImpact.high)
        × IsBlackout as_of (windows x).0 (windows x).1 e)
event_near-IsBlackout as_of es x = (
  IsBlackout-has_event as_of es x,
  λ (e, member, high, near). event_has_blackout as_of es x e member high near,
)
