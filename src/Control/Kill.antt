-- ===== src/Control/Kill.antt =====
-- What the kill switch holds, and how it is released.
use blessing_ai.Prelude.{
  ℕ, zero, suc, String, true, false, Option, none, some, List, ◌≡◌, refl, ◌⊎◌, inl, inr, arith,
  eq_iff, Bool-cases, Option-cases,
}
use blessing_ai.Control.{
  Control, ControlAdapter, is_exchange, refresh_engine_state, sync_adapter_state,
  checked_authentication, fence_autonomous_launch, set_pause_new_risk, set_recovery_only,
}
use blessing_ai.Control.Switch.{
  Reply, raised, unauthenticated, answered, Reconciliation, ReleaseReplies, reconciled,
  without_adapter, release_kill_switch, attempt, stale, is_verified, release_checked,
  release_reconciled, release_active,
}
use blessing_ai.Control.Lifecycle.{
  reset_after_failed_exchange_arm, reset_after_failed_continuation, disarm, continue_autonomous,
  order_confirmed,
}
use blessing_ai.Control.Steps.{
  Step, step, run, Occurs, run_kept, adapter_moved, adapter_attached, synced, refreshed, pause_set,
  recovery_set, blocked, fenced, reconciliation_ended, reconciliation_missing, adapter_stale,
  reconciliation_tried, released_with, arm_began, arm_ended, arm_ended_in_paper, arm_failed,
  session_read, continuation_began, continuation_ended, continuation_failed, disarmed, risk_paused,
  risk_paused_degraded, order_was_confirmed, order_was_ambiguous, execution_failed,
}

abbrev pub IsKilled : Control → Type 0
IsKilled c = c.kill_switch_active ≡ true

-- What the release found: a worker on paper without an adapter, or, on the exchange, no open order,
-- the books in sync after a new reconciliation, and an adapter that is authenticated and whose stream
-- is healthy.
abbrev pub IsVerifiedRelease : ReleaseReplies → Control → Type 0
IsVerifiedRelease k c =
    ((c.execution_adapter ≡ none) × (is_exchange c.execution_mode ≡ false))
    ⊎ ((r : Reconciliation) × (is_exchange c.execution_mode ≡ true)
        × (k.open_orders ≡ answered (some 0))
        × (k.reconciliation ≡ answered r)
        × (r.status ≡ "IN_SYNC")
        × ((checked_authentication r.adapter).private_stream_healthy ≡ true)
        × ((checked_authentication r.adapter).authenticated ≡ true))

abbrev pub Releases : Step → Control → Type 0
Releases s c = (k : ReleaseReplies) × (s ≡ released_with k) × IsVerifiedRelease k c

sync_keeps : (c : Control) → (sync_adapter_state c).kill_switch_active ≡ c.kill_switch_active
unfolding sync_adapter_state refresh_engine_state
sync_keeps c = elim (Option-cases c.execution_adapter) [
  | inl e ↦ rw e refl
  | inr (a, e) ↦ rw e refl
]

reconciled_keeps :
    (r : Reconciliation) (c : Control) → (reconciled r c).kill_switch_active ≡ c.kill_switch_active
unfolding reconciled sync_adapter_state refresh_engine_state
reconciled_keeps r c = ground arith

reconciled_adapter :
    (r : Reconciliation) (c : Control)
    → (reconciled r c).execution_adapter ≡ some (checked_authentication r.adapter)
unfolding reconciled sync_adapter_state refresh_engine_state
reconciled_adapter r c = ground arith

verified_parts :
    (t : String) (o : Option ControlAdapter) (a : ControlAdapter)
    → o ≡ some a
    → is_verified t o ≡ true
    → (t ≡ "IN_SYNC") × (a.private_stream_healthy ≡ true) × (a.authenticated ≡ true)
verified_parts t o a e h = let g = rw e at h in ground (arith, eq_iff t "IN_SYNC", g)

-- What a reconciliation must answer for the release.
abbrev IsInSync : Reply Reconciliation → Type 0
IsInSync reply =
    (r : Reconciliation) × (reply ≡ answered r)
    × (r.status ≡ "IN_SYNC")
    × ((checked_authentication r.adapter).private_stream_healthy ≡ true)
    × ((checked_authentication r.adapter).authenticated ≡ true)

release_reconciled_lem :
    (reply : Reply Reconciliation) (a : ControlAdapter) (c : Control)
    → IsKilled c
    → IsKilled ((release_reconciled reply a c).1) ⊎ IsInSync reply
release_reconciled_lem raised a c h = inl h
release_reconciled_lem unauthenticated a c h = inl h
release_reconciled_lem (answered r) a c h =
    elim (Bool-cases (is_verified r.status (reconciled r c).execution_adapter)) [
      | inl e ↦
          let (known, healthy, authenticated) =
            verified_parts r.status _ _ (reconciled_adapter r c) e in
          inr (r, refl, known, healthy, authenticated)
      | inr e ↦ inl (rw e (rw (reconciled_keeps r c) h))
    ]

release_checked_lem :
    (orders : Reply (Option ℕ)) (reply : Reply Reconciliation) (a : ControlAdapter) (c : Control)
    → IsKilled c
    → IsKilled ((release_checked orders reply a c).1)
      ⊎ ((orders ≡ answered (some 0)) × IsInSync reply)
release_checked_lem raised reply a c h = inl h
release_checked_lem unauthenticated reply a c h = inl h
release_checked_lem (answered none) reply a c h = inl h
release_checked_lem (answered (some zero)) reply a c h = elim (release_reconciled_lem reply a c h) [
  | inl i ↦ inl i
  | inr v ↦ inr (refl, v)
]
release_checked_lem (answered (some (suc n))) reply a c h = inl (ground (arith, h))

release_active_lem :
    (k : ReleaseReplies) (o : Option ControlAdapter) (c : Control)
    → c.execution_adapter ≡ o
    → IsKilled c
    → IsKilled ((release_active k o c).1) ⊎ IsVerifiedRelease k c
release_active_lem k none c e h = elim (Bool-cases (is_exchange c.execution_mode)) [
  | inl x ↦ inl (rw x h)
  | inr x ↦ inr (inl (e, x))
]
release_active_lem k (some a) c e h = elim (Bool-cases (is_exchange c.execution_mode)) [
  | inl x ↦ elim (release_checked_lem k.open_orders k.reconciliation a c h) [
    | inl i ↦ inl (rw x i)
    | inr (o, v) ↦
        let (r, same, known, healthy, up) = v in inr (inr (r, x, o, same, known, healthy, up))
  ]
  | inr x ↦ inl (rw x h)
]

-- A release that clears the switch has verified what it says.
release_verified :
    (k : ReleaseReplies) (c : Control)
    → IsKilled c
    → IsKilled ((release_kill_switch k c).1) ⊎ IsVerifiedRelease k c
unfolding release_kill_switch
release_verified k c h = elim (release_active_lem k c.execution_adapter c refl h) [
  | inl i ↦ inl (simp (h, i))
  | inr v ↦ inr v
]

attempt_keeps :
    (reply : Reply Reconciliation) (a : ControlAdapter) (c : Control)
    → ((attempt reply a c).1).kill_switch_active ≡ c.kill_switch_active
unfolding attempt
attempt_keeps raised a c = refl
attempt_keeps unauthenticated a c = refl
attempt_keeps (answered r) a c = reconciled_keeps r c

stale_keeps : (c : Control) → (stale c).kill_switch_active ≡ c.kill_switch_active
stale_keeps c = ground arith

step_kept : (s : Step) (c : Control) → IsKilled c → IsKilled (step s c) ⊎ Releases s c
unfolding step fence_autonomous_launch set_pause_new_risk set_recovery_only refresh_engine_state
    without_adapter reset_after_failed_exchange_arm reset_after_failed_continuation disarm
    continue_autonomous order_confirmed
step_kept (adapter_moved a) c h = inl (ground (arith, h))
step_kept (adapter_attached a) c h = inl h
step_kept synced c h = inl (rw (sync_keeps c) h)
step_kept refreshed c h = inl h
step_kept (pause_set active) c h = inl (ground (arith, h))
step_kept (recovery_set active) c h = inl h
step_kept blocked c h = inl refl
step_kept (fenced o) c h = inl (ground (arith, h))
step_kept (reconciliation_ended r) c h = inl (rw (reconciled_keeps r c) h)
step_kept reconciliation_missing c h = inl (ground (arith, h))
step_kept adapter_stale c h = inl (rw (stale_keeps c) h)
step_kept (reconciliation_tried reply a) c h = inl (rw (attempt_keeps reply a c) h)
step_kept (released_with k) c h = elim (release_verified k c h) [
  | inl i ↦ inl i
  | inr v ↦ inr (k, refl, v)
]
step_kept (arm_began m) c h = inl h
step_kept arm_ended c h = inl h
step_kept arm_ended_in_paper c h = inl h
step_kept arm_failed c h = inl h
step_kept (session_read s) c h = inl h
step_kept continuation_began c h = inl h
step_kept (continuation_ended s) c h = inl h
step_kept continuation_failed c h = inl h
step_kept disarmed c h = inl h
step_kept risk_paused c h = inl h
step_kept risk_paused_degraded c h = inl h
step_kept (order_was_confirmed marked o) c h = inl (ground (arith, h))
step_kept order_was_ambiguous c h = inl h
step_kept execution_failed c h = inl h

-- Once the kill switch is active it stays so over any steps of the worker, unless one of them is a
-- release that has verified that no order is open and the exchange's state is known, or one on paper
-- without an adapter.
pub kill_switch_kept :
    (ss : List Step) (c : Control)
    → c.kill_switch_active ≡ true
    → ((run ss c).kill_switch_active ≡ true) ⊎ Occurs Releases ss c
kill_switch_kept ss c h = run_kept IsKilled Releases step_kept ss c h
