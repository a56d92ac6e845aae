-- ===== src/Macro/Events.antt =====
-- engine/cycles/events.py: `evaluate_macro_event_risk`. Instants are in UTC, as the code makes them;
-- strings are lists of code points; the windows are numbers of minutes that are not negative.
use aurum_iq.Prelude.{
  ℕ, ◌+◌, ◌-◌, ◌/◌, Bool, true, false, Option, none, some, List, [], ◌∷◌, ◌++◌, if◌then◌else◌, ltb,
  leb, or_else, given_or, filter,
}

pub data EventImpact : Type 0 where
  high medium low : EventImpact

abbrev pub Text : Type 0
Text = List ℕ

pub record MacroEvent : Type 0 where
  pub name : Text
  pub scheduled_at : ℕ
  pub released_at : Option ℕ
  pub initial_value : Option Text
  pub revised_at : Option ℕ
  pub revised_value : Option Text
  pub impact : EventImpact

pub record MacroEventContext : Type 0 where
  pub is_in_blackout : Bool
  pub minutes_to_next_event : Option ℕ
  pub minutes_since_last_event : Option ℕ
  pub active_event_name : Option Text
  pub point_in_time_value : Option Text
  pub is_feed_healthy : Bool

-- What the code reads of a Cycle3AProfile.
pub record MacroProfile : Type 0 where
  pub macro_blackout_pre_minutes : Option ℕ
  pub macro_blackout_post_minutes : Option ℕ

-- The arguments beside the time and the events.
pub record MacroOptions : Type 0 where
  pub blackout_pre_minutes : Option ℕ
  pub blackout_post_minutes : Option ℕ
  pub blackout_minutes : Option ℕ
  pub profile : Option MacroProfile
  pub is_feed_healthy : Option Bool

abbrev pub minute : ℕ
minute = 60000000

-- `pre_win` and `post_win` without a profile and without one window for both: what is given, and 30
-- minutes each where nothing is.
abbrev pub own_windows : Option ℕ → Option ℕ → Option ℕ × Option ℕ
own_windows none none = (some 30, some 30)
own_windows none (some post) = (none, some post)
own_windows (some pre) post = (some pre, post)

abbrev pub common_windows : MacroOptions → Option ℕ → Option ℕ × Option ℕ
common_windows x none = own_windows x.blackout_pre_minutes x.blackout_post_minutes
common_windows x (some both) =
    (given_or x.blackout_pre_minutes (some both), given_or x.blackout_post_minutes (some both))

abbrev pub profile_windows : MacroOptions → Option MacroProfile → Option ℕ × Option ℕ
profile_windows x none = common_windows x x.blackout_minutes
profile_windows x (some p) = (
  given_or x.blackout_pre_minutes p.macro_blackout_pre_minutes,
  given_or x.blackout_post_minutes p.macro_blackout_post_minutes,
)

unfoldable pub windows : MacroOptions → Option ℕ × Option ℕ
windows x = profile_windows x x.profile

-- The variables of the loop.
pub record Scan : Type 0 where
  pub is_in_blackout : Bool
  pub active_event_name : Option Text
  pub min_to_next : Option ℕ
  pub min_since_last : Option ℕ
  pub latest_past_event_time : Option ℕ
  pub latest_pit_value : Option Text

abbrev pub initial_scan : Scan
initial_scan = record {
  is_in_blackout = false;
  active_event_name = none;
  min_to_next = none;
  min_since_last = none;
  latest_past_event_time = none;
  latest_pit_value = none;
}

-- `if best is None or minutes < best`.
abbrev pub lower : Option ℕ → ℕ → Option ℕ
lower none m = some m
lower (some best) m = if ltb m best then some m else some best

-- `window is not None and minutes <= window`.
abbrev pub within : Option ℕ → ℕ → Bool
within none m = false
within (some w) m = leb m w

abbrev pub enter_blackout : Bool → Text → Scan → Scan
enter_blackout b name s =
    if b then record s { is_in_blackout = true; active_event_name = some name } else s

-- Whole minutes to an event that is not past, and minutes since a past one, where a part of a
-- minute counts as one: `//` rounds down, and a past event has negative minutes.
abbrev pub minutes_to : ℕ → ℕ → ℕ
minutes_to as_of sched = (sched - as_of) / minute

abbrev pub minutes_since : ℕ → ℕ → ℕ
minutes_since as_of sched = (as_of - sched + (minute - 1)) / minute

-- An event that is still to come, `m` minutes ahead, and one that is past, `m` minutes ago.
abbrev pub upcoming : Option ℕ → Text → ℕ → Scan → Scan
upcoming pre name m s =
    enter_blackout (within pre m) name (record s { min_to_next = lower s.min_to_next m })

abbrev pub past : Option ℕ → Text → ℕ → Scan → Scan
past post name m s =
    enter_blackout (within post m) name (record s { min_since_last = lower s.min_since_last m })

unfoldable pub proximity : ℕ → Option ℕ → Option ℕ → MacroEvent → Scan → Scan
proximity as_of pre post e s =
    if leb as_of e.scheduled_at
    then upcoming pre e.name (minutes_to as_of e.scheduled_at) s
    else past post e.name (minutes_since as_of e.scheduled_at) s

-- The text " (Revision)".
abbrev pub revision_suffix : Text
revision_suffix = 32 ∷ 40 ∷ 82 ∷ 101 ∷ 118 ∷ 105 ∷ 115 ∷ 105 ∷ 111 ∷ 110 ∷ 41 ∷ []

abbrev pub revision_from : ℕ → Option ℕ → Text → Option ℕ → Scan → Scan
revision_from as_of post name none s = s
revision_from as_of post name (some rev) s =
    if leb rev as_of
    then enter_blackout (within post ((as_of - rev) / minute)) (name ++ revision_suffix) s
    else s

unfoldable pub revision : ℕ → Option ℕ → MacroEvent → Scan → Scan
revision as_of post e s = revision_from as_of post e.name e.revised_at s

-- `revised_value or initial_value`: an empty string counts as none.
abbrev pub revised_or : Option Text → Option Text → Option Text
revised_or none initial = initial
revised_or (some []) initial = initial
revised_or (some (c ∷ cs)) initial = some (c ∷ cs)

-- The effective time and the value of a released event.
abbrev pub released_value : ℕ → ℕ → MacroEvent → Option ℕ → ℕ × Option Text
released_value as_of rel e none = (rel, e.initial_value)
released_value as_of rel e (some rev) =
    if leb rev as_of
    then (rev, revised_or e.revised_value e.initial_value)
    else (rel, e.initial_value)

-- `if latest is None or effective_time >= latest`.
abbrev pub is_latest : Option ℕ → ℕ → Bool
is_latest none t = true
is_latest (some latest) t = leb latest t

abbrev pub keep_value : ℕ × Option Text → Scan → Scan
keep_value (t, value) s =
    if is_latest s.latest_past_event_time t
    then record s { latest_past_event_time = some t; latest_pit_value = value }
    else s

abbrev pub value_from : ℕ → MacroEvent → Option ℕ → Scan → Scan
value_from as_of e none s = s
value_from as_of e (some rel) s =
    if leb rel as_of then keep_value (released_value as_of rel e e.revised_at) s else s

unfoldable pub pit_value : ℕ → MacroEvent → Scan → Scan
pit_value as_of e s = value_from as_of e e.released_at s

-- The body of the loop.
unfoldable pub step : ℕ → Option ℕ → Option ℕ → MacroEvent → Scan → Scan
step as_of pre post e s = pit_value as_of e (revision as_of post e (proximity as_of pre post e s))

unfoldable pub scan_events : ℕ → Option ℕ → Option ℕ → List MacroEvent → Scan → Scan
scan_events as_of pre post [] s = s
scan_events as_of pre post (e ∷ es) s = scan_events as_of pre post es (step as_of pre post e s)

abbrev pub is_high : MacroEvent → Bool
is_high e = elim e.impact [ EventImpact.high ↦ true | _ ↦ false ]

abbrev pub no_events : MacroOptions → MacroEventContext
no_events x = record {
  is_in_blackout = false;
  minutes_to_next_event = none;
  minutes_since_last_event = none;
  active_event_name = none;
  point_in_time_value = none;
  is_feed_healthy = or_else x.is_feed_healthy false;
}

abbrev pub context : Scan → MacroEventContext
context s = record {
  is_in_blackout = s.is_in_blackout;
  minutes_to_next_event = s.min_to_next;
  minutes_since_last_event = s.min_since_last;
  active_event_name = s.active_event_name;
  point_in_time_value = s.latest_pit_value;
  is_feed_healthy = true;
}

unfoldable pub evaluate_macro_event_risk : ℕ → List MacroEvent → MacroOptions → MacroEventContext
evaluate_macro_event_risk as_of [] x = no_events x
evaluate_macro_event_risk as_of (e ∷ es) x =
    let (pre, post) = windows x in
    context (scan_events as_of pre post (filter is_high (e ∷ es)) initial_scan)
