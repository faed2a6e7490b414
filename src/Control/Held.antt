-- ===== src/Control/Held.antt =====
-- New risk is held after the kill switch until something resumes it.
use blessing_ai.Prelude.{
  ℕ, Bool, true, false, ◌&&◌, not, Option, none, some, ◌≡◌, refl, ◌⊎◌, inl, inr, arith, str_eq,
  is_some, ◌==◌, if◌then◌else◌, Bool-cases, on_branches,
}
use blessing_ai.Control.{
  Control, ControlAdapter, LaunchSession, WorkerExecutionMode, WorkerEngineState, is_exchange,
  is_staged, may_resume, refresh_engine_state, derived_state, sync_adapter_state, synced_with,
  with_adapter_state, checked_authentication, fence_autonomous_launch, set_pause_new_risk,
  set_recovery_only, set_mainnet_launch_session,
}
use blessing_ai.Control.Switch.{
  Reply, raised, unauthenticated, answered, Reconciliation, KillStatus, ReleaseReplies, reconciled,
  restored, without_adapter, attempt, set_adapter, is_verified, release_reconciled, release_checked,
  release_active, release_kill_switch,
}
use blessing_ai.Control.Lifecycle.{
  arm_started, reset_after_failed_exchange_arm, reset_after_failed_continuation, disarm,
  order_confirmed,
}
use blessing_ai.Control.Steps.{
  Step, step, adapter_moved, adapter_attached, synced, refreshed, pause_set, recovery_set, blocked,
  fenced, reconciliation_ended, reconciliation_missing, adapter_stale, reconciliation_tried,
  released_with, arm_began, arm_ended, arm_ended_in_paper, arm_failed, session_read,
  continuation_began, continuation_ended, continuation_failed, disarmed, risk_paused,
  risk_paused_degraded, order_was_confirmed, order_was_ambiguous, execution_failed,
}

abbrev pub is_armed : WorkerEngineState → Bool
is_armed WorkerEngineState.disarmed = false
is_armed WorkerEngineState.arming = false
is_armed WorkerEngineState.armed = true
is_armed WorkerEngineState.paused_new_risk = false
is_armed WorkerEngineState.recovery_only = false
is_armed WorkerEngineState.degraded = false
is_armed WorkerEngineState.emergency = false

-- New risk is held: it is paused, or there is no configuration and the worker is not armed.
abbrev pub IsHeld : Control → Type 0
IsHeld c =
    (c.pause_new_risk ≡ true) ⊎ ((c.has_configuration ≡ false) × (is_armed c.engine_state ≡ false))

-- The ways to new risk: the operator's resume, where it is granted, the end of an arm or of a
-- continuation, and the confirmation of an order of an autonomous launch.
pub data Resumes : Step → Control → Type 0 where
  by_operator : {c : Control} → may_resume c ≡ true → Resumes (pause_set false) c
  by_arm : {c : Control} → Resumes arm_ended c
  by_arm_in_paper : {c : Control} → Resumes arm_ended_in_paper c
  by_continuation : {s : LaunchSession} {c : Control} → Resumes (continuation_ended s) c
  by_confirmation :
      {o : Option LaunchSession} {c : Control}
      → is_staged c.launch_session ≡ false
      → Resumes (order_was_confirmed true o) c

unconfigured_unarmed :
    (c : Control) → c.has_configuration ≡ false → is_armed (derived_state c) ≡ false
unfolding derived_state
unconfigured_unarmed c k = rw k (ground arith)

refresh-IsHeld : (c : Control) → IsHeld c → IsHeld (refresh_engine_state c)
unfolding refresh_engine_state
refresh-IsHeld c (inl p) = inl p
refresh-IsHeld c (inr (k, n)) = inr (k, unconfigured_unarmed c k)

synced_with-IsHeld : (c : Control) (o : Option ControlAdapter) → IsHeld c → IsHeld (synced_with c o)
synced_with-IsHeld c none h = h
synced_with-IsHeld c (some a) h = refresh-IsHeld (with_adapter_state c (checked_authentication a)) h

read_back-IsHeld :
    (c : Control) (o : Option LaunchSession)
    → IsHeld c
    → IsHeld (elim o [ none ↦ c | some s ↦ set_mainnet_launch_session (some s) c ])
read_back-IsHeld c none h = h
read_back-IsHeld c (some s) h = h

database-IsHeld :
    (c : Control) (o : Option (Option LaunchSession))
    → IsHeld c
    → IsHeld (elim o [ none ↦ c | some s ↦ set_mainnet_launch_session s c ])
database-IsHeld c none h = h
database-IsHeld c (some s) h = h

restored-IsHeld : (r : Reconciliation) (c : Control) → IsHeld c → IsHeld (restored r c)
restored-IsHeld r c h =
    on_branches IsHeld (str_eq r.status "IN_SYNC" && is_some c.launch_id)
      (λ _. database-IsHeld c r.read_back h) (λ _. h)

reconciled-IsHeld : (r : Reconciliation) (c : Control) → IsHeld c → IsHeld (reconciled r c)
unfolding reconciled sync_adapter_state
reconciled-IsHeld r c h =
    let s = record c { execution_adapter = some r.adapter; reconciliation_status = r.status } in
    restored-IsHeld r (sync_adapter_state s) (synced_with-IsHeld s (some r.adapter) h)

release_reconciled-IsHeld :
    (reply : Reply Reconciliation) (a : ControlAdapter) (c : Control)
    → IsHeld c
    → IsHeld ((release_reconciled reply a c).1)
release_reconciled-IsHeld raised a c h = h
release_reconciled-IsHeld unauthenticated a c h = h
release_reconciled-IsHeld (answered r) a c h =
    let after = reconciled-IsHeld r c h in
    on_branches (λ (x : KillStatus × Control). IsHeld (x.1))
      (is_verified r.status (reconciled r c).execution_adapter)
      (λ _. refresh-IsHeld (record (reconciled r c) { kill_switch_active = false }) after)
      (λ _. after)

release_checked-IsHeld :
    (orders : Reply (Option ℕ)) (reply : Reply Reconciliation) (a : ControlAdapter) (c : Control)
    → IsHeld c
    → IsHeld ((release_checked orders reply a c).1)
release_checked-IsHeld raised reply a c h = h
release_checked-IsHeld unauthenticated reply a c h = h
release_checked-IsHeld (answered none) reply a c h = h
release_checked-IsHeld (answered (some n)) reply a c h =
    on_branches (λ (x : KillStatus × Control). IsHeld (x.1)) (n == 0)
      (λ _. release_reconciled-IsHeld reply a c h) (λ _. h)

release_active-IsHeld :
    (k : ReleaseReplies) (o : Option ControlAdapter) (c : Control)
    → IsHeld c
    → IsHeld ((release_active k o c).1)
release_active-IsHeld k none c h =
    on_branches (λ (x : KillStatus × Control). IsHeld (x.1)) (is_exchange c.execution_mode) (λ _. h)
      (λ _. refresh-IsHeld (record c { kill_switch_active = false }) h)
release_active-IsHeld k (some a) c h =
    on_branches (λ (x : KillStatus × Control). IsHeld (x.1)) (is_exchange c.execution_mode)
      (λ _. release_checked-IsHeld k.open_orders k.reconciliation a c h) (λ _. h)

release-IsHeld :
    (k : ReleaseReplies) (c : Control) → IsHeld c → IsHeld ((release_kill_switch k c).1)
unfolding release_kill_switch
release-IsHeld k c h =
    on_branches (λ (x : KillStatus × Control). IsHeld (x.1)) (not c.kill_switch_active)
      (λ _. refresh-IsHeld c h) (λ _. release_active-IsHeld k c.execution_adapter c h)

pause_set-IsHeld :
    (active : Bool) (c : Control)
    → IsHeld c
    → IsHeld (step (pause_set active) c) ⊎ Resumes (pause_set active) c
unfolding step set_pause_new_risk
pause_set-IsHeld true c h = inl (refresh-IsHeld (record c { pause_new_risk = true }) (inl refl))
pause_set-IsHeld false c h = elim (Bool-cases (may_resume c)) [
  | inl e ↦ inr (by_operator e)
  | inr e ↦ inl (
      rw (step, set_pause_new_risk, e)
        (refresh-IsHeld (record c { pause_new_risk = true }) (inl refl)))
]

confirmed-IsHeld :
    (marked : Bool) (o : Option LaunchSession) (c : Control)
    → IsHeld c
    → IsHeld (step (order_was_confirmed marked o) c) ⊎ Resumes (order_was_confirmed marked o) c
unfolding step order_confirmed
confirmed-IsHeld false o c h = inl h
confirmed-IsHeld true o c h = elim (Bool-cases (is_staged c.launch_session)) [
  | inl e ↦ inl (
      rw e (
        let p = record c { pause_new_risk = true } in
        refresh-IsHeld _ (read_back-IsHeld p o (inl refl))))
  | inr e ↦ inr (by_confirmation e)
]

moved-IsHeld :
    (a : ControlAdapter) (c : Control) (o : Option ControlAdapter)
    → IsHeld c
    → IsHeld (elim o [ none ↦ c | some b ↦ set_adapter a c ])
moved-IsHeld a c none h = h
moved-IsHeld a c (some b) h = h

stale-IsHeld :
    (c : Control) (o : Option ControlAdapter)
    → IsHeld c
    → IsHeld (elim o [
      | none ↦ c
      | some a ↦
          if is_exchange c.execution_mode
          then set_adapter (record a { last_status = "UNKNOWN" }) c
          else c
    ])
stale-IsHeld c none h = h
stale-IsHeld c (some a) h = on_branches IsHeld (is_exchange c.execution_mode) (λ _. h) (λ _. h)

attempt-IsHeld :
    (reply : Reply Reconciliation) (a : ControlAdapter) (c : Control)
    → IsHeld c
    → IsHeld ((attempt reply a c).1)
unfolding attempt
attempt-IsHeld raised a c h = h
attempt-IsHeld unauthenticated a c h = h
attempt-IsHeld (answered r) a c h = reconciled-IsHeld r c h

arm_began-IsHeld : (m : WorkerExecutionMode) (c : Control) → IsHeld c → IsHeld (arm_started m c)
arm_began-IsHeld m c (inl p) = inl p
arm_began-IsHeld m c (inr (k, n)) = inr (k, ground (arith, n))

disarmed_unarmed :
    (killed : Bool)
    → is_armed (if killed then WorkerEngineState.emergency else WorkerEngineState.disarmed) ≡ false
disarmed_unarmed killed = ground arith

pub step-IsHeld : (s : Step) (c : Control) → IsHeld c → IsHeld (step s c) ⊎ Resumes s c
unfolding step fence_autonomous_launch set_recovery_only without_adapter
    reset_after_failed_exchange_arm reset_after_failed_continuation disarm sync_adapter_state
step-IsHeld (adapter_moved a) c h = inl (moved-IsHeld a c c.execution_adapter h)
step-IsHeld (adapter_attached a) c h = inl h
step-IsHeld synced c h = inl (synced_with-IsHeld c c.execution_adapter h)
step-IsHeld refreshed c h = inl (refresh-IsHeld c h)
step-IsHeld (pause_set active) c h = pause_set-IsHeld active c h
step-IsHeld (recovery_set active) c h = inl (refresh-IsHeld (record c { recovery_only = active }) h)
step-IsHeld blocked c h = inl (inl refl)
step-IsHeld (fenced o) c h = inl (on_branches IsHeld _ (λ _. h) (λ _. h))
step-IsHeld (reconciliation_ended r) c h = inl (reconciled-IsHeld r c h)
step-IsHeld reconciliation_missing c h = inl (on_branches IsHeld _ (λ _. h) (λ _. h))
step-IsHeld adapter_stale c h = inl (stale-IsHeld c c.execution_adapter h)
step-IsHeld (reconciliation_tried reply a) c h = inl (attempt-IsHeld reply a c h)
step-IsHeld (released_with k) c h = inl (release-IsHeld k c h)
step-IsHeld (arm_began m) c h = inl (arm_began-IsHeld m c h)
step-IsHeld arm_ended c h = inr by_arm
step-IsHeld arm_ended_in_paper c h = inr by_arm_in_paper
step-IsHeld arm_failed c h = inl (inr (refl, refl))
step-IsHeld (session_read s) c h = inl h
step-IsHeld continuation_began c h = inl (elim h [ inl p ↦ inl p | inr (k, n) ↦ inr (k, refl) ])
step-IsHeld (continuation_ended s) c h = inr by_continuation
step-IsHeld continuation_failed c h = inl (inr (refl, refl))
step-IsHeld disarmed c h = inl (inr (refl, disarmed_unarmed c.kill_switch_active))
step-IsHeld risk_paused c h = inl (refresh-IsHeld (record c { pause_new_risk = true }) (inl refl))
step-IsHeld risk_paused_degraded c h =
    inl (
      refresh-IsHeld (record c { connection_state = "DEGRADED"; pause_new_risk = true }) (inl refl))
step-IsHeld (order_was_confirmed marked o) c h = confirmed-IsHeld marked o c h
step-IsHeld order_was_ambiguous c h = inl (inl refl)
step-IsHeld execution_failed c h = inl (inl refl)
