-- ===== src/Control.antt =====
-- apps/trading_worker/main.py: the controls of `TradingWorkerApp`, which say whether new risk is
-- allowed: the kill switch, the pause, the recovery mode, the configuration and the launch session.
-- The code is asynchronous, so each function here is what a method does between two awaits; what an
-- awaited call answers is an argument. A launch session is the row as the database gives it.
pub mod Switch
pub mod Lifecycle
pub mod Held
pub mod Orders
pub mod Steps
pub mod Kill
pub mod Resume
mod Tests
use blessing_ai.Prelude.{
  ℕ, String, Bool, true, false, ◌&&◌, ◌||◌, not, Option, none, some, ◌==◌, if◌then◌else◌, str_eq,
  is_some, ◌>>=◌,
}

pub data WorkerExecutionMode : Type 0 where
  paper testnet live : WorkerExecutionMode

pub data WorkerEngineState : Type 0 where
  disarmed arming armed paused_new_risk recovery_only degraded emergency : WorkerEngineState

pub record LaunchSession : Type 0 where
  pub launch_id : Option String
  pub policy : String
  pub state : String
  pub submitted_orders : ℕ

-- What the worker reads of its `BinanceExecutionAdapter`.
pub record ControlAdapter : Type 0 where
  pub connection_state : String
  pub authenticated : Bool
  pub trade_authorized : Bool
  pub private_stream_healthy : Bool
  pub last_status : String
  pub authentication_failed : Bool

pub record Control : Type 0 where
  pub execution_mode : WorkerExecutionMode
  pub engine_state : WorkerEngineState
  pub connection_state : String
  pub market_data_healthy : Bool
  pub private_stream_healthy : Bool
  pub authenticated : Bool
  pub reconciliation_status : String
  pub kill_switch_active : Bool
  pub pause_new_risk : Bool
  pub recovery_only : Bool
  pub has_configuration : Bool
  pub execution_adapter : Option ControlAdapter
  pub launch_id : Option String
  pub launch_session : Option LaunchSession

abbrev pub is_live : WorkerExecutionMode → Bool
is_live WorkerExecutionMode.paper = false
is_live WorkerExecutionMode.testnet = false
is_live WorkerExecutionMode.live = true

-- `execution_mode in {TESTNET, LIVE}`
abbrev pub is_exchange : WorkerExecutionMode → Bool
is_exchange WorkerExecutionMode.paper = false
is_exchange WorkerExecutionMode.testnet = true
is_exchange WorkerExecutionMode.live = true

-- `TradingWorkerApp()`
abbrev pub new_worker : Control
new_worker = record {
  execution_mode = WorkerExecutionMode.paper;
  engine_state = WorkerEngineState.disarmed;
  connection_state = "DISCONNECTED";
  market_data_healthy = false;
  private_stream_healthy = false;
  authenticated = false;
  reconciliation_status = "UNKNOWN";
  kill_switch_active = false;
  pause_new_risk = false;
  recovery_only = false;
  has_configuration = false;
  execution_adapter = none;
  launch_id = none;
  launch_session = none;
}

-- `_adapter_trade_authorized`
abbrev pub adapter_trade_authorized : Option ControlAdapter → Bool
adapter_trade_authorized none = false
adapter_trade_authorized (some a) = a.trade_authorized

abbrev pub is_degraded : Control → Bool
is_degraded c =
    is_exchange c.execution_mode
    && (not (str_eq c.connection_state "READY")
        || not c.authenticated
        || not (adapter_trade_authorized c.execution_adapter)
        || not c.private_stream_healthy
        || not (str_eq c.reconciliation_status "IN_SYNC"))

unfoldable pub derived_state : Control → WorkerEngineState
derived_state c =
    if c.kill_switch_active
    then WorkerEngineState.emergency
    else if not c.has_configuration
    then WorkerEngineState.disarmed
    else if is_degraded c
    then WorkerEngineState.degraded
    else if c.recovery_only
    then WorkerEngineState.recovery_only
    else if c.pause_new_risk
    then WorkerEngineState.paused_new_risk
    else WorkerEngineState.armed

unfoldable pub refresh_engine_state : Control → Control
refresh_engine_state c = record c { engine_state = derived_state c }

-- `BinanceExecutionAdapter.invalidate_authentication`
abbrev pub invalidate_authentication : ControlAdapter → ControlAdapter
invalidate_authentication a = record a {
  authenticated = false;
  trade_authorized = false;
  connection_state = "DEGRADED";
}

abbrev pub checked_authentication : ControlAdapter → ControlAdapter
checked_authentication a = if a.authentication_failed then invalidate_authentication a else a

abbrev pub with_adapter_state : Control → ControlAdapter → Control
with_adapter_state c a = record c {
  execution_adapter = some a;
  connection_state = a.connection_state;
  authenticated = a.authenticated;
  private_stream_healthy = a.private_stream_healthy;
  reconciliation_status = a.last_status;
}

-- `_sync_adapter_state`
abbrev pub synced_with : Control → Option ControlAdapter → Control
synced_with c none = c
synced_with c (some a) = refresh_engine_state (with_adapter_state c (checked_authentication a))

unfoldable pub sync_adapter_state : Control → Control
sync_adapter_state c = synced_with c c.execution_adapter

-- `_set_mainnet_launch_session`
abbrev pub set_mainnet_launch_session : Option LaunchSession → Control → Control
set_mainnet_launch_session s c = record c {
  launch_session = s;
  launch_id = s >>= (λ x. x.launch_id);
}

-- the policy and the state of the session, if there is one
abbrev pub is_launch : String → String → Option LaunchSession → Bool
is_launch policy state none = false
is_launch policy state (some s) = str_eq s.policy policy && str_eq s.state state

abbrev pub is_autonomous : Control → Bool
is_autonomous c = is_launch "AUTONOMOUS_AFTER_REVIEW" "AUTONOMOUS_ACTIVE" c.launch_session

abbrev pub is_staged_pending : Option LaunchSession → Bool
is_staged_pending none = false
is_staged_pending (some s) =
    str_eq s.policy "STAGED_FIRST_ORDER" && str_eq s.state "ACTIVE" && s.submitted_orders == 0

-- `session.get("policy") == MAINNET_LAUNCH_STAGED`, which is also the default without a session
abbrev pub is_staged : Option LaunchSession → Bool
is_staged none = true
is_staged (some s) = str_eq s.policy "STAGED_FIRST_ORDER"

abbrev pub needs_reauthorization : Option LaunchSession → Bool
needs_reauthorization none = false
needs_reauthorization (some s) = str_eq s.state "REAUTH_REQUIRED"

-- `_fence_autonomous_launch`, where `read_back` is the session after the fence, or none if one of
-- the two calls of the database fails
unfoldable pub fence_autonomous_launch : Option LaunchSession → Control → Control
fence_autonomous_launch read_back c =
    if is_live c.execution_mode && is_autonomous c
    then set_mainnet_launch_session (if needs_reauthorization read_back then read_back else none) c
    else c

-- `set_pause_new_risk`
abbrev pub may_resume : Control → Bool
may_resume c =
    not (is_live c.execution_mode) || is_autonomous c || is_staged_pending c.launch_session

unfoldable pub set_pause_new_risk : Bool → Control → Bool × Control
set_pause_new_risk active c =
    if not active && not (may_resume c)
    then (false, refresh_engine_state (record c { pause_new_risk = true }))
    else (true, refresh_engine_state (record c { pause_new_risk = active }))

unfoldable pub set_recovery_only : Bool → Control → Control
set_recovery_only active c = refresh_engine_state (record c { recovery_only = active })
