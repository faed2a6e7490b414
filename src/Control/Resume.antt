-- ===== src/Control/Resume.antt =====
-- What must happen between the kill switch and the next order that may increase the risk.
use blessing_ai.Prelude.{ℕ, String, Bool, true, false, List, ◌≡◌, refl, inl, inr, str_eq, eq_iff}
use blessing_ai.Binance.Gates.{Settings, allowed, is_risk_increasing}
use blessing_ai.Binance.Gates.Decision.{Worker, Decision, check_decision}
use blessing_ai.Binance.Gates.Decision.Lineage.{new_risk_armed, new_risk_unpaused}
use blessing_ai.Control.{Control, WorkerExecutionMode, WorkerEngineState}
use blessing_ai.Control.Switch.{block}
use blessing_ai.Control.Steps.{Step, run, Occurs, run_kept}
use blessing_ai.Control.Kill.{Releases, kill_switch_kept}
use blessing_ai.Control.Held.{is_armed, IsHeld, Resumes, step-IsHeld}

-- the text of a state, which the gate reads
abbrev pub state_name : WorkerEngineState → String
state_name WorkerEngineState.disarmed = "DISARMED"
state_name WorkerEngineState.arming = "ARMING"
state_name WorkerEngineState.armed = "ARMED"
state_name WorkerEngineState.paused_new_risk = "PAUSED_NEW_RISK"
state_name WorkerEngineState.recovery_only = "RECOVERY_ONLY"
state_name WorkerEngineState.degraded = "DEGRADED"
state_name WorkerEngineState.emergency = "EMERGENCY"

abbrev pub mode_name : WorkerExecutionMode → String
mode_name WorkerExecutionMode.paper = "PAPER"
mode_name WorkerExecutionMode.testnet = "TESTNET"
mode_name WorkerExecutionMode.live = "LIVE"

-- the worker as the decision gate sees it
abbrev pub as_seen : Control → Worker → Worker
as_seen c w = record w {
  execution_mode = mode_name c.execution_mode;
  engine_state = state_name c.engine_state;
  kill_switch_active = c.kill_switch_active;
  pause_new_risk = c.pause_new_risk;
  recovery_only = c.recovery_only;
}

unarmed_name : (s : WorkerEngineState) → is_armed s ≡ false → str_eq (state_name s) "ARMED" ≡ false
unarmed_name WorkerEngineState.disarmed n = refl
unarmed_name WorkerEngineState.arming n = refl
unarmed_name WorkerEngineState.armed n = cc
unarmed_name WorkerEngineState.paused_new_risk n = refl
unarmed_name WorkerEngineState.recovery_only n = refl
unarmed_name WorkerEngineState.degraded n = refl
unarmed_name WorkerEngineState.emergency n = refl

clash : {b : Bool} → b ≡ true → b ≡ false → ⊥
clash h k = cc

unpaused_armed :
    (c : Control) → IsHeld c → state_name c.engine_state ≡ "ARMED" → c.pause_new_risk ≡ false → ⊥
unpaused_armed c (inl p) e f = cc
unpaused_armed c (inr (k, n)) e f =
    clash ((eq_iff (state_name c.engine_state) "ARMED").1 e) (unarmed_name c.engine_state n)

-- After the first part of `set_kill_switch(True)`, the local block, and any steps of the worker, among
-- them the other parts of that call, a decision
-- that may increase the risk passes the decision gate only if one of those steps is a release that
-- has verified that no order is open and the exchange's state is known, or a release on paper without
-- an adapter, and one of them is a resume: the operator's, where it is granted, an arm, a continuation,
-- or the confirmation of an order of an autonomous launch.
pub no_silent_resume :
    (c : Control) (ss : List Step) (one : ℕ) (settings : Settings) (w : Worker) (d : Decision)
    → check_decision one settings (as_seen (run ss (block c)) w) d ≡ allowed tt
    → is_risk_increasing d.risk_class ≡ true
    → Occurs Releases ss (block c) × Occurs Resumes ss (block c)
no_silent_resume c ss one settings w d e up =
    let start = block c in
    let seen = as_seen (run ss start) w in
    let gate = new_risk_armed one settings seen d e up in
    let unpaused = new_risk_unpaused one settings seen d e up in
    (
      elim (kill_switch_kept ss start refl) [ inl still ↦ absurd (clash still gate.1) | inr o ↦ o ],
      elim (run_kept IsHeld Resumes step-IsHeld ss start (inl refl)) [
        | inl held ↦ absurd (unpaused_armed (run ss start) held gate.0 unpaused)
        | inr o ↦ o
      ],
    )
