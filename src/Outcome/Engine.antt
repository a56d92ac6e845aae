-- ===== src/Outcome/Engine.antt =====
-- engine/backtest/xauusd_outcomes.py: the constructor of `XauUsdOutcomeEngine`. An entry model is its
-- execution policy; the texts that identify it are checked and left out. An empty text that is given
-- is handled as one that is missing.
use aurum_iq.Backtest.Repository.{same_text, lower}
use aurum_iq.Outcome.Trade.{XauUsdCostConfig, XauUsdOutcomeEngine}
use aurum_iq.Entry.Policy.{XauUsdExecutionPolicy}
use aurum_iq.Macro.Events.{Text}
use aurum_iq.Prelude.{
  [], value_error, ℕ, Result, Option, ◌∷◌, Bool, if◌then◌else◌, some, true, none, ◌||◌, ok, leb,
  ◌&&◌, ◌==◌,
}

pub record EngineInput : Type 0 where
  pub cost_config : XauUsdCostConfig
  pub long_entry_execution_model : Option XauUsdExecutionPolicy
  pub short_entry_execution_model : Option XauUsdExecutionPolicy
  pub entry_execution_model : Option XauUsdExecutionPolicy
  pub holding_horizon_bars_15m : Option ℕ
  pub holding_horizon : Option ℕ
  pub max_fill_wait_bars_15m : Option ℕ
  pub max_fill_wait : Option ℕ
  pub code_revision : Text
  pub execution_policy_config : Option XauUsdExecutionPolicy
  pub long_execution_policy : Option XauUsdExecutionPolicy
  pub short_execution_policy : Option XauUsdExecutionPolicy
  pub phase5_policy_fingerprint : Text

-- `str.isspace` of one character.
abbrev pub is_space : ℕ → Bool
is_space c =
    (leb 9 c && leb c 13)
    || (leb 28 c && leb c 32)
    || c == 133
    || c == 160
    || c == 5760
    || (leb 8192 c && leb c 8202)
    || c == 8232
    || c == 8233
    || c == 8239
    || c == 8287
    || c == 12288

-- `not s.strip()`.
unfoldable pub is_blank : Text → Bool
is_blank [] = true
is_blank (c ∷ s) = is_space c && is_blank s

unfoldable pub lstrip : Text → Text
lstrip [] = []
lstrip (c ∷ s) = let rest = lstrip s in if is_space c then rest else c ∷ s

-- `s.rstrip()`.
unfoldable pub rstrip : Text → Text
rstrip [] = []
rstrip (c ∷ s) = let rest = rstrip s in if is_blank (c ∷ s) then [] else c ∷ rest

-- "none".
abbrev pub none_word : Text
none_word = 110 ∷ 111 ∷ 110 ∷ 101 ∷ []

-- `s.strip().upper() == "NONE"`.
abbrev pub is_none_word : Text → Bool
is_none_word s = same_text (lower (rstrip (lstrip s))) none_word

-- `SideAwareEntryExecutionModel(...)`.
unfoldable pub new_model : Text → Text → XauUsdExecutionPolicy → Result XauUsdExecutionPolicy
new_model code_revision fingerprint policy =
    if is_blank code_revision
    then value_error
    else if is_blank fingerprint || is_none_word fingerprint
    then value_error
    else ok policy

abbrev pub both_models :
    Result XauUsdExecutionPolicy
    → Result XauUsdExecutionPolicy
    → Result (XauUsdExecutionPolicy × XauUsdExecutionPolicy)
both_models (ok long) (ok short) = ok (long, short)
both_models (ok long) value_error = value_error
both_models value_error short = value_error

module _ (i : EngineInput) where
  abbrev pub built : XauUsdExecutionPolicy → Result XauUsdExecutionPolicy
  built = new_model i.code_revision i.phase5_policy_fingerprint

  -- One model for both sides.
  abbrev pub single_model :
      Option XauUsdExecutionPolicy
      → Option XauUsdExecutionPolicy
      → Result (XauUsdExecutionPolicy × XauUsdExecutionPolicy)
  single_model (some model) config = ok (model, model)
  single_model none (some policy) = both_models (built policy) (built policy)
  single_model none none = value_error

  abbrev pub side_policies :
      Option XauUsdExecutionPolicy
      → Option XauUsdExecutionPolicy
      → Result (XauUsdExecutionPolicy × XauUsdExecutionPolicy)
  side_policies (some long) (some short) = both_models (built long) (built short)
  side_policies none short = single_model i.entry_execution_model i.execution_policy_config
  side_policies (some long) none = single_model i.entry_execution_model i.execution_policy_config

  abbrev pub side_models :
      Option XauUsdExecutionPolicy
      → Option XauUsdExecutionPolicy
      → Result (XauUsdExecutionPolicy × XauUsdExecutionPolicy)
  side_models (some long) (some short) = ok (long, short)
  side_models none short = side_policies i.long_execution_policy i.short_execution_policy
  side_models (some long) none = side_policies i.long_execution_policy i.short_execution_policy

  abbrev pub engine_of :
      Result (XauUsdExecutionPolicy × XauUsdExecutionPolicy) → Result XauUsdOutcomeEngine
  engine_of value_error = value_error
  engine_of (ok (long, short)) = ok (record {
    cost_config = i.cost_config;
    long_entry_policy = long;
    short_entry_policy = short;
    holding_horizon_bars_15m = i.holding_horizon_bars_15m;
    holding_horizon = i.holding_horizon;
    max_fill_wait_bars_15m = i.max_fill_wait_bars_15m;
    max_fill_wait = i.max_fill_wait;
  })

  abbrev pub with_wait : Option ℕ → Option ℕ → Result XauUsdOutcomeEngine
  with_wait none none = value_error
  with_wait (some bars) wait =
      engine_of (side_models i.long_entry_execution_model i.short_entry_execution_model)
  with_wait none (some wait) =
      engine_of (side_models i.long_entry_execution_model i.short_entry_execution_model)

  unfoldable pub new_engine : Result XauUsdOutcomeEngine
  new_engine = with_wait i.max_fill_wait_bars_15m i.max_fill_wait
