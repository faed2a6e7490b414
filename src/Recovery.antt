-- ===== src/Recovery.antt =====
-- apps/trading_worker/engines/exposure_recovery.py: `ExposureRecoveryEngine`, which rewrites the target
-- of a symbol between the allocator and the risk governor while the drawdown is at its trigger.
-- Quantities, percents and ratios are whole numbers of their units. `one` is the ratio 1, and the
-- unit of quantities is so small that a quantity times a ratio is a whole number of units. The
-- target's delta is a number, which the allocator makes sure of.
pub mod Brake
pub mod Orders
pub mod Episode
mod Tests
use blessing_ai.Prelude.{
  ℕ, ◌*◌, ◌/◌, String, Bool, true, false, ◌&&◌, ◌||◌, not, Option, none, some, ◌==◌, if◌then◌else◌,
}
use blessing_ai.Prelude.Int.{ℤ, pos, sub_ℕ, pos_part, neg_part, neg, abs, ltb_ℤ, leb_ℤ}
use blessing_ai.Prelude.Dict.{Dict, get, put}
use blessing_ai.Domain.{TargetExposure, finite, amount}

pub data RecoveryActionType : Type 0 where
  hold partial_hedge reduce_long harvest_hedge progressive_unwind emergency_flatten :
      RecoveryActionType

pub record RecoveryState : Type 0 where
  pub is_active : Bool
  pub action_type : RecoveryActionType
  pub hedge_ratio : ℤ
  pub last_update : ℕ
  pub locked_toxicity_level : ℤ

pub record ExposureRecoveryEngine : Type 0 where
  pub drawdown_trigger_pct : ℤ
  pub max_hedge_ratio : ℤ
  pub states : Dict RecoveryState

-- `RecoveryState(clock)`
abbrev pub new_state : ℕ → RecoveryState
new_state now = record {
  is_active = false;
  action_type = hold;
  hedge_ratio = pos 0;
  last_update = now;
  locked_toxicity_level = pos 0;
}

abbrev pub reset : RecoveryState → RecoveryState
reset s = record s {
  is_active = false;
  action_type = hold;
  hedge_ratio = pos 0;
  locked_toxicity_level = pos 0;
}

-- `self.states[symbol]`, after `_get_or_create_state` at the time `now`
unfoldable pub get_or_create_state : ExposureRecoveryEngine → String → ℕ → RecoveryState
get_or_create_state e symbol now = elim (get symbol e.states) [ none ↦ new_state now | some s ↦ s ]

abbrev pub set_state : ExposureRecoveryEngine → String → RecoveryState → ExposureRecoveryEngine
set_state e symbol s = record e { states = put symbol s e.states }

-- the product of a number and an integer
abbrev pub times : ℕ → ℤ → ℤ
times n z = sub_ℕ (n * pos_part z) (n * neg_part z)

-- `current_drawdown_pct >= drawdown_trigger_pct * Decimal(tenths / 10)`
abbrev pub reaches : ℕ → ℤ → ℤ → Bool
reaches tenths trigger drawdown = leb_ℤ (times tenths trigger) (times 10 drawdown)

abbrev pub is_long : ℤ → Bool
is_long qty = ltb_ℤ (pos 0) qty

abbrev pub is_short : ℤ → Bool
is_short qty = ltb_ℤ qty (pos 0)

-- `_determine_action` without the intensity, which each action determines
unfoldable pub determine_action : ℤ → ℤ → ℤ → ℤ → RecoveryActionType
determine_action trigger drawdown qty delta =
    if reaches 25 trigger drawdown
    then emergency_flatten
    else if reaches 15 trigger drawdown
    then progressive_unwind
    else if (is_long qty && ltb_ℤ delta (pos 0)) || (is_short qty && ltb_ℤ (pos 0) delta)
    then harvest_hedge
    else partial_hedge

-- the grid brake
unfoldable pub grid_brake : ℤ → ℤ → ℤ
grid_brake qty delta =
    if is_long qty && ltb_ℤ (pos 0) delta
    then pos 0
    else if is_short qty && ltb_ℤ delta (pos 0)
    then pos 0
    else delta

-- `-x if is_long else x`
abbrev pub against : ℤ → ℤ → ℤ
against qty x = if is_long qty then neg x else x

-- `min(max_hedge_ratio, abs(intensity) * volatility_factor)`, for the intensity 0.3
unfoldable pub required_hedge_ratio : ℤ → ℤ → ℤ
required_hedge_ratio max_ratio volatility_factor =
    let wanted =
      sub_ℕ (3 * pos_part volatility_factor / 10) (3 * neg_part volatility_factor / 10) in
    if leb_ℤ max_ratio wanted then max_ratio else wanted

-- `abs_qty * required_hedge_ratio`
abbrev pub hedge_qty : ℕ → ℕ → ℤ → ℤ
hedge_qty one size ratio = sub_ℕ (size * pos_part ratio / one) (size * neg_part ratio / one)

unfoldable pub hedged : ℤ → ℤ → ℤ → ℤ
hedged qty delta hedge_delta =
    if (is_long qty && ltb_ℤ hedge_delta delta) || (is_short qty && ltb_ℤ delta hedge_delta)
    then hedge_delta
    else delta

-- the delta that an action makes of the braked one
unfoldable pub act : ℕ → ℤ → ℤ → RecoveryActionType → ℤ → ℤ → ℤ
act one max_ratio vol emergency_flatten qty delta = neg qty
act one max_ratio vol progressive_unwind qty delta = against qty (pos (abs qty * 25 / 100))
act one max_ratio vol partial_hedge qty delta =
    hedged qty delta (against qty (hedge_qty one (abs qty) (required_hedge_ratio max_ratio vol)))
act one max_ratio vol harvest_hedge qty delta = delta
act one max_ratio vol hold qty delta = delta
act one max_ratio vol reduce_long qty delta = delta

-- the state when a toxic drawdown is seen, before the action is chosen
unfoldable pub activated : RecoveryState → ℤ → ℕ → RecoveryState
activated s drawdown now =
    if s.is_active
    then record s { last_update = now }
    else record s { is_active = true; locked_toxicity_level = drawdown; last_update = now }

-- the action and the delta under a toxic drawdown
unfoldable pub action_of : ExposureRecoveryEngine → ℤ → ℤ → ℤ → RecoveryActionType
action_of e drawdown qty delta =
    if abs qty == 0
    then hold
    else determine_action e.drawdown_trigger_pct drawdown qty (grid_brake qty delta)

unfoldable pub toxic_delta : ℕ → ExposureRecoveryEngine → ℤ → ℤ → ℤ → ℤ → ℤ
toxic_delta one e drawdown qty vol delta =
    if abs qty == 0
    then pos 0
    else act one e.max_hedge_ratio vol (action_of e drawdown qty delta) qty (grid_brake qty delta)

abbrev pub is_toxic : ExposureRecoveryEngine → ℤ → Bool
is_toxic e drawdown = leb_ℤ e.drawdown_trigger_pct drawdown

-- the state of the target's symbol after `process`
unfoldable pub next_state : ExposureRecoveryEngine → RecoveryState → ℤ → ℤ → ℤ → ℕ → RecoveryState
next_state e s drawdown qty delta now =
    if is_toxic e drawdown
    then record (activated s drawdown now) { action_type = action_of e drawdown qty delta }
    else if s.is_active
    then reset s
    else s

-- `process`; `created` and `now` are the readings of the clock
unfoldable pub process :
    ℕ
    → ExposureRecoveryEngine
    → TargetExposure
    → ℤ
    → ℤ
    → ℤ
    → ℕ
    → ℕ
    → TargetExposure × ExposureRecoveryEngine
process one e target drawdown qty vol created now =
    let delta = amount target.target_net_delta_qty in
    let s = get_or_create_state e target.symbol created in
    (
      if is_toxic e drawdown
          then record target {
            target_net_delta_qty = finite (toxic_delta one e drawdown qty vol delta);
          }
          else target,
      set_state e target.symbol (next_state e s drawdown qty delta now),
    )
