-- ===== src/Control/Lifecycle.antt =====
-- apps/trading_worker/main.py: the ways in and out of a configuration, what pauses new risk, and the
-- callbacks of the orders.
use blessing_ai.Prelude.{Bool, true, false, not, Option, none, some, if◌then◌else◌}
use blessing_ai.Control.{
  Control, LaunchSession, WorkerExecutionMode, WorkerEngineState, is_exchange, is_staged,
  refresh_engine_state, set_mainnet_launch_session,
}

abbrev pub without_exchange : Control → Control
without_exchange c = record c {
  execution_adapter = none;
  connection_state = "DISCONNECTED";
  market_data_healthy = false;
  private_stream_healthy = false;
  authenticated = false;
}

-- `_reset_after_failed_exchange_arm`
unfoldable pub reset_after_failed_exchange_arm : Control → Control
reset_after_failed_exchange_arm c = set_mainnet_launch_session none (record (without_exchange c) {
  execution_mode = WorkerExecutionMode.paper;
  reconciliation_status = "UNKNOWN";
  has_configuration = false;
  pause_new_risk = false;
  recovery_only = false;
  engine_state = WorkerEngineState.disarmed;
})

-- `_reset_after_failed_continuation`, after its fence
unfoldable pub reset_after_failed_continuation : Control → Control
reset_after_failed_continuation c = record (without_exchange c) {
  execution_mode = WorkerExecutionMode.live;
  reconciliation_status = "UNKNOWN";
  has_configuration = false;
  pause_new_risk = false;
  recovery_only = false;
  engine_state = WorkerEngineState.disarmed;
}

-- `disarm`, after its fence
unfoldable pub disarm : Control → Control
disarm c = record (without_exchange c) {
  reconciliation_status = "DISCONNECTED";
  has_configuration = false;
  launch_id = none;
  pause_new_risk = false;
  recovery_only = false;
  engine_state =
      if c.kill_switch_active then WorkerEngineState.emergency else WorkerEngineState.disarmed;
}

-- `arm`: its mode once the guards have passed, and its end
abbrev pub arm_started : WorkerExecutionMode → Control → Control
arm_started m c = record c {
  execution_mode = m;
  engine_state = if is_exchange m then WorkerEngineState.arming else c.engine_state;
}

abbrev pub arm_exchange : Control → Control
arm_exchange c = record c { engine_state = WorkerEngineState.armed; has_configuration = true }

abbrev pub arm_paper : Control → Control
arm_paper c = record (without_exchange c) {
  reconciliation_status = "UNKNOWN";
  engine_state = WorkerEngineState.armed;
  has_configuration = true;
}

-- `_ensure_live_runtime_for_continuation`, and the end of `continue_autonomous`
abbrev pub continuation_prepared : Control → Control
continuation_prepared c = record c {
  execution_mode = WorkerExecutionMode.live;
  engine_state = WorkerEngineState.arming;
}

unfoldable pub continue_autonomous : LaunchSession → Control → Control
continue_autonomous session c =
    refresh_engine_state (record (set_mainnet_launch_session (some session) c) {
      has_configuration = true;
      pause_new_risk = false;
      recovery_only = false;
    })

-- new risk is paused, after a refused order, an error of the market loop, or an emergency flatten
abbrev pub pause : Control → Control
pause c = refresh_engine_state (record c { pause_new_risk = true })

-- the same where the account is not known
abbrev pub pause_degraded : Control → Control
pause_degraded c =
    refresh_engine_state (record c { connection_state = "DEGRADED"; pause_new_risk = true })

-- `_on_order_submission_result` for an order that may increase the risk on Mainnet: confirmed,
-- where `marked` is the database's answer, and ambiguous
unfoldable pub order_confirmed : Bool → Option LaunchSession → Control → Control
order_confirmed marked read_back c =
    if not marked
    then record c {
      kill_switch_active = true;
      connection_state = "DEGRADED";
      reconciliation_status = "UNKNOWN";
    }
    else if is_staged c.launch_session
    then (let p = record c { pause_new_risk = true } in
        refresh_engine_state
          (elim read_back [ none ↦ p | some s ↦ set_mainnet_launch_session (some s) p ]))
    else refresh_engine_state (record c { pause_new_risk = false })

abbrev pub order_ambiguous : Control → Control
order_ambiguous c = record c {
  pause_new_risk = true;
  connection_state = "DEGRADED";
  reconciliation_status = "UNKNOWN";
}

-- the start of `_fail_closed_after_autonomous_execution_error`
abbrev pub fail_closed : Control → Control
fail_closed c = record c {
  pause_new_risk = true;
  connection_state = "DEGRADED";
  reconciliation_status = "UNKNOWN";
}
