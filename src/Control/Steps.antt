-- ===== src/Control/Steps.antt =====
-- Runs of the worker: the parts of its methods in any order, as the event loop interleaves them. The
-- release of the kill switch is one step, since it changes the switch only at its end.
use blessing_ai.Prelude.{Bool, Option, none, some, List, [], ◌∷◌, ◌⊎◌, inl, inr}
use blessing_ai.Control.{
  Control, ControlAdapter, LaunchSession, WorkerExecutionMode, refresh_engine_state,
  sync_adapter_state, set_mainnet_launch_session, fence_autonomous_launch, set_pause_new_risk,
  set_recovery_only,
}
use blessing_ai.Control.Switch.{
  Reconciliation, ReleaseReplies, reconciled, without_adapter, block, set_adapter,
  release_kill_switch, Reply, stale, attempt,
}
use blessing_ai.Control.Lifecycle.{
  reset_after_failed_exchange_arm, reset_after_failed_continuation, disarm, arm_started,
  arm_exchange, arm_paper, continuation_prepared, continue_autonomous, pause, pause_degraded,
  order_confirmed, order_ambiguous, fail_closed,
}

pub data Step : Type 0 where
  adapter_moved : ControlAdapter → Step
  adapter_attached : ControlAdapter → Step
  synced : Step
  refreshed : Step
  pause_set : Bool → Step
  recovery_set : Bool → Step
  blocked : Step
  fenced : Option LaunchSession → Step
  reconciliation_ended : Reconciliation → Step
  reconciliation_missing : Step
  adapter_stale : Step
  reconciliation_tried : Reply Reconciliation → ControlAdapter → Step
  released_with : ReleaseReplies → Step
  arm_began : WorkerExecutionMode → Step
  arm_ended : Step
  arm_ended_in_paper : Step
  arm_failed : Step
  session_read : Option LaunchSession → Step
  continuation_began : Step
  continuation_ended : LaunchSession → Step
  continuation_failed : Step
  disarmed : Step
  risk_paused : Step
  risk_paused_degraded : Step
  order_was_confirmed : Bool → Option LaunchSession → Step
  order_was_ambiguous : Step
  execution_failed : Step

-- the adapter's own code and its streams change what the worker reads of it
abbrev pub moved : ControlAdapter → Control → Control
moved a c = elim c.execution_adapter [ none ↦ c | some b ↦ set_adapter a c ]

unfoldable pub step : Step → Control → Control
step (adapter_moved a) c = moved a c
step (adapter_attached a) c = set_adapter a c
step synced c = sync_adapter_state c
step refreshed c = refresh_engine_state c
step (pause_set active) c = (set_pause_new_risk active c).1
step (recovery_set active) c = set_recovery_only active c
step blocked c = block c
step (fenced read_back) c = fence_autonomous_launch read_back c
step (reconciliation_ended r) c = reconciled r c
step reconciliation_missing c = without_adapter c
step adapter_stale c = stale c
step (reconciliation_tried reply a) c = (attempt reply a c).1
step (released_with k) c = (release_kill_switch k c).1
step (arm_began m) c = arm_started m c
step arm_ended c = arm_exchange c
step arm_ended_in_paper c = arm_paper c
step arm_failed c = reset_after_failed_exchange_arm c
step (session_read s) c = set_mainnet_launch_session s c
step continuation_began c = continuation_prepared c
step (continuation_ended s) c = continue_autonomous s c
step continuation_failed c = reset_after_failed_continuation c
step disarmed c = disarm c
step risk_paused c = pause c
step risk_paused_degraded c = pause_degraded c
step (order_was_confirmed marked read_back) c = order_confirmed marked read_back c
step order_was_ambiguous c = order_ambiguous c
step execution_failed c = fail_closed c

abbrev pub run : List Step → Control → Control
run [] c = c
run (s ∷ ss) c = run ss (step s c)

-- Some step of the run is such that `P` holds of it and of the controls before it.
pub data Occurs (P : Step → Control → Type 0) : List Step → Control → Type 0 where
  now : {s : Step} {ss : List Step} {c : Control} → P s c → Occurs P (s ∷ ss) c
  later : {s : Step} {ss : List Step} {c : Control} → Occurs P ss (step s c) → Occurs P (s ∷ ss) c

-- An invariant that each step keeps, or else is such that `P` holds of it, is kept by a run, or else
-- `P` holds of one of its steps.
module _ (I : Control → Type 0) (P : Step → Control → Type 0)
    (kept : (s : Step) (c : Control) → I c → I (step s c) ⊎ P s c) where
  pub run_kept : (ss : List Step) (c : Control) → I c → I (run ss c) ⊎ Occurs P ss c
  run_kept [] c h = inl h
  run_kept (s ∷ ss) c h = elim (kept s c h) [
    | inr p ↦ inr (now p)
    | inl i ↦ elim (run_kept ss (step s c) i) [ inl k ↦ inl k | inr o ↦ inr (later o) ]
  ]
