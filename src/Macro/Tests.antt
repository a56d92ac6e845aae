-- ===== src/Macro/Tests.antt =====
-- The macro gate of engine/cycles/events.py around one release that is revised later.
use aurum_iq.Prelude.{ℕ, ◌*◌, ◌≡◌, refl, inl, inr, true, none, some, [], ◌∷◌, arith, ◌↔◌}
use mathlib.Core.List.{Memᴰ}
use aurum_iq.Macro.Events.{
  EventImpact, MacroEvent, MacroOptions, minute, windows, evaluate_macro_event_risk,
}
use aurum_iq.Macro.Hindsight.{no_hindsight}
use aurum_iq.Macro.Blackout.{IsBlackout, event_has_blackout, event_near-IsBlackout}

abbrev options : MacroOptions
options = record {
  blackout_pre_minutes = none;
  blackout_post_minutes = none;
  blackout_minutes = none;
  profile = none;
  is_feed_healthy = none;
}

-- Scheduled and released at minute 100; where it is revised, that is at minute 200.
abbrev payrolls : MacroEvent
payrolls = record {
  name = 78 ∷ [];
  scheduled_at = 100 * minute;
  released_at = some (100 * minute);
  initial_value = some (49 ∷ []);
  revised_at = none;
  revised_value = none;
  impact = EventImpact.high;
}

abbrev revised_payrolls : MacroEvent
revised_payrolls = record payrolls {
  revised_at = some (200 * minute);
  revised_value = some (50 ∷ []);
}

abbrev as_of : ℕ
as_of = 120 * minute

no_hindsight_example :
    evaluate_macro_event_risk as_of (payrolls ∷ []) options
    ≡ evaluate_macro_event_risk as_of (revised_payrolls ∷ []) options
no_hindsight_example = no_hindsight as_of (payrolls ∷ []) (revised_payrolls ∷ []) options refl

near : IsBlackout as_of (windows options).0 (windows options).1 payrolls
unfolding windows
near = inr (inl (omega arith, omega arith))

event_near-IsBlackout_example :
    ((evaluate_macro_event_risk as_of (payrolls ∷ []) options).is_in_blackout ≡ true) ↔ (
      (e : MacroEvent) × Memᴰ e (payrolls ∷ [])
      × (e.impact ≡ EventImpact.high)
      × IsBlackout as_of (windows options).0 (windows options).1 e)
event_near-IsBlackout_example = event_near-IsBlackout as_of (payrolls ∷ []) options

in_blackout : (evaluate_macro_event_risk as_of (payrolls ∷ []) options).is_in_blackout ≡ true
in_blackout = event_has_blackout as_of (payrolls ∷ []) options payrolls (Memᴰ.head refl) refl near
