-- ===== src/Control/Tests.antt =====
-- The controls of the worker at concrete inputs.
use blessing_ai.Prelude.{◌≡◌, refl, true, false, some, none, List, [], ◌∷◌, ◌++◌}
use blessing_ai.Prelude.Dict.{get}
use blessing_ai.Binance.Gates.Samples.{settings}
use blessing_ai.Binance.Gates.Decision.{check_decision, canonical_strategy_id}
use blessing_ai.Binance.Gates.Decision.Samples.{worker, decision}
use blessing_ai.Control.{
  Control, ControlAdapter, LaunchSession, WorkerExecutionMode, WorkerEngineState, derived_state,
  refresh_engine_state, sync_adapter_state, fence_autonomous_launch, set_pause_new_risk,
}
use blessing_ai.Control.Switch.{
  raised, answered, ReleaseReplies, block, Reconciliation, attempt, reconciled, release_kill_switch,
}
use blessing_ai.Control.Lifecycle.{continue_autonomous, order_confirmed}
use blessing_ai.Control.Steps.{
  Step, step, run, fenced, adapter_stale, reconciliation_tried, Occurs, released_with,
  continuation_ended,
}
use blessing_ai.Control.Kill.{Releases}
use blessing_ai.Control.Held.{Resumes}
use blessing_ai.Control.Resume.{no_silent_resume}

abbrev adapter : ControlAdapter
adapter = record {
  connection_state = "READY";
  authenticated = true;
  trade_authorized = true;
  private_stream_healthy = true;
  last_status = "IN_SYNC";
  authentication_failed = false;
}

abbrev launch : LaunchSession
launch = record {
  launch_id = some "L-1";
  policy = "AUTONOMOUS_AFTER_REVIEW";
  state = "AUTONOMOUS_ACTIVE";
  submitted_orders = 1;
}

-- an autonomous launch that runs
abbrev running : Control
running = record {
  execution_mode = WorkerExecutionMode.live;
  engine_state = WorkerEngineState.armed;
  connection_state = "READY";
  market_data_healthy = true;
  private_stream_healthy = true;
  authenticated = true;
  reconciliation_status = "IN_SYNC";
  kill_switch_active = false;
  pause_new_risk = false;
  recovery_only = false;
  has_configuration = true;
  execution_adapter = some adapter;
  launch_id = some "L-1";
  launch_session = some launch;
}

-- what is left of `set_kill_switch(True)` after its block, where the exchange cannot be reached
abbrev killing : List Step
killing =
    fenced (some (record launch { state = "REAUTH_REQUIRED" }))
    ∷ adapter_stale
    ∷ reconciliation_tried raised adapter
    ∷ []

abbrev in_sync : Reconciliation
in_sync = record { status = "IN_SYNC"; adapter = adapter; read_back = none }

abbrev release_replies : ReleaseReplies
release_replies = record { open_orders = answered (some 0); reconciliation = answered in_sync }

-- the running launch is in the state that is derived from its controls
derived_while_up : derived_state running ≡ WorkerEngineState.armed
unfolding derived_state
derived_while_up = refl

-- the switch is released, but the resume is denied, since the launch was fenced
denied :
    let killed = run killing (block running) in
    let free = (release_kill_switch release_replies killed).1 in
    ((set_pause_new_risk false free).0 ≡ false)
    × (free.kill_switch_active ≡ false)
    × (free.engine_state ≡ WorkerEngineState.paused_new_risk)
unfolding step fence_autonomous_launch attempt release_kill_switch reconciled sync_adapter_state
    refresh_engine_state derived_state set_pause_new_risk
denied = (refl, refl, refl)

-- an operator's pause does not last: the confirmation of an order in flight lifts it
pause_is_lifted :
    let paused = (set_pause_new_risk true running).1 in
    let c = order_confirmed true none paused in
    (paused.pause_new_risk ≡ true)
    × (c.pause_new_risk ≡ false)
    × (c.engine_state ≡ WorkerEngineState.armed)
unfolding set_pause_new_risk order_confirmed refresh_engine_state derived_state
pause_is_lifted = (refl, refl, refl)

abbrev steps : List Step
steps = killing ++ (released_with release_replies ∷ continuation_ended launch ∷ [])

no_silent_resume_example :
    Occurs Releases steps (block running) × Occurs Resumes steps (block running)
unfolding step fence_autonomous_launch attempt release_kill_switch reconciled sync_adapter_state
    refresh_engine_state derived_state continue_autonomous check_decision canonical_strategy_id get
no_silent_resume_example = no_silent_resume running steps 100 settings worker decision refl refl
