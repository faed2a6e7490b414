-- ===== src/Control/Orders.antt =====
-- apps/trading_worker/main.py: `_before_order_submission`, which the adapter awaits before it posts an
-- order, and the staged launch that it guards.
use blessing_ai.Prelude.{
  Bool, true, false, ◌||◌, not, Option, none, some, ◌≡◌, refl, ◌⊎◌, inl, inr, arith, if◌then◌else◌,
  str_eq, is_some, Bool-cases,
}
use blessing_ai.Control.{
  Control, LaunchSession, is_live, is_staged, is_autonomous, refresh_engine_state,
}
use blessing_ai.Control.Lifecycle.{pause}

-- `policy == MAINNET_LAUNCH_AUTONOMOUS`, which is not the default
abbrev pub has_autonomous_policy : Option LaunchSession → Bool
has_autonomous_policy none = false
has_autonomous_policy (some s) = str_eq s.policy "AUTONOMOUS_AFTER_REVIEW"

-- the session's policy and state admit an order that may increase the risk
abbrev pub is_open_launch : Control → Bool
is_open_launch c =
    if has_autonomous_policy c.launch_session then is_autonomous c else is_staged c.launch_session

-- `_before_order_submission`: `durable` is the answer of the outbox, and `reserved` that of the
-- reservation, none if it raises
abbrev pub reserve : Option Bool → Control → Bool × Control
reserve none c = (false, pause c)
reserve (some false) c = (false, pause c)
reserve (some true) c = (true, c)

unfoldable pub before_order_submission : Bool → Bool → Option Bool → Control → Bool × Control
before_order_submission increasing durable reserved c =
    if not increasing || not (is_live c.execution_mode)
    then (durable || not increasing, c)
    else if not durable || not (is_some c.launch_id) || not (is_open_launch c)
    then (false, pause c)
    else reserve reserved c

-- What lets an order that may increase the risk go to the exchange on Mainnet.
pub record IsReserved (durable : Bool) (reserved : Option Bool) (c : Control) : Type 0 where
  pub outbox : durable ≡ true
  pub launched : is_some c.launch_id ≡ true
  pub open_launch : (is_autonomous c ≡ true) ⊎ (is_staged c.launch_session ≡ true)
  pub slot : reserved ≡ some true

open_kinds :
    (c : Control)
    → is_open_launch c ≡ true
    → (is_autonomous c ≡ true) ⊎ (is_staged c.launch_session ≡ true)
open_kinds c h = ground (arith, h)

reserve_lem :
    (r : Option Bool) (c : Control)
    → (((reserve r c).0 ≡ true) × (r ≡ some true))
      ⊎ (((reserve r c).0 ≡ false) × ((reserve r c).1.pause_new_risk ≡ true))
unfolding refresh_engine_state
reserve_lem none c = inr (refl, refl)
reserve_lem (some false) c = inr (refl, refl)
reserve_lem (some true) c = inl (refl, refl)

-- On Mainnet an order that may increase the risk is posted only if it is in the durable outbox, a
-- launch is known, its session is an active autonomous one or a staged one, and the database has
-- reserved a slot for it; if it is not posted, new risk is paused.
pub order-IsReserved :
    (durable : Bool) (reserved : Option Bool) (c : Control)
    → is_live c.execution_mode ≡ true
    → let result = before_order_submission true durable reserved c in
      ((result.0 ≡ true) × IsReserved durable reserved c)
      ⊎ ((result.0 ≡ false) × (result.1.pause_new_risk ≡ true))
unfolding before_order_submission refresh_engine_state
order-IsReserved durable reserved c live =
    elim (Bool-cases (not durable || not (is_some c.launch_id) || not (is_open_launch c))) [
      | inl e ↦ inr (ground (arith, live, e))
      | inr e ↦ elim (reserve_lem reserved c) [
        | inl (ok, slot) ↦ inl (
          ground (arith, live, e, ok),
          record {
            outbox = ground (arith, e);
            launched = ground (arith, e);
            open_launch = open_kinds c (ground (arith, e));
            slot = slot;
          },
        )
        | inr (denied, paused) ↦
            inr (ground (arith, live, e, denied), ground (arith, live, e, paused))
      ]
    ]
