-- ===== src/Control/Switch.antt =====
-- apps/trading_worker/main.py: the kill switch, and the reconciliation that it asks for.
use blessing_ai.Prelude.{
  ℕ, String, Bool, true, false, ◌&&◌, not, Option, none, some, ◌==◌, if◌then◌else◌, str_eq, is_some,
}
use blessing_ai.Control.{
  Control, ControlAdapter, LaunchSession, WorkerEngineState, is_exchange, refresh_engine_state,
  sync_adapter_state, set_mainnet_launch_session, invalidate_authentication,
}

-- What an awaited call of the exchange or the adapter comes to.
pub data Reply {ℓ} (A : Type ℓ) : Type ℓ where
  raised : Reply A
  unauthenticated : Reply A
  answered : A → Reply A

pub data KillStatus : Type 0 where
  confirmed partial unknown : KillStatus

-- What `reconcile` answers, with the adapter as it is then, and what the database gives
-- for the session that is read after it: none if a call of it raises.
pub record Reconciliation : Type 0 where
  pub status : String
  pub adapter : ControlAdapter
  pub read_back : Option (Option LaunchSession)

abbrev pub restored : Reconciliation → Control → Control
restored r c =
    if str_eq r.status "IN_SYNC" && is_some c.launch_id
    then (elim r.read_back [ none ↦ c | some s ↦ set_mainnet_launch_session s c ])
    else c

-- `trigger_reconciliation` once `reconcile` has answered, and without an adapter
unfoldable pub reconciled : Reconciliation → Control → Control
reconciled r c = restored r (
    sync_adapter_state
      (record c { execution_adapter = some r.adapter; reconciliation_status = r.status }))

unfoldable pub without_adapter : Control → Control
without_adapter c =
    if is_exchange c.execution_mode
    then record c {
      authenticated = false;
      private_stream_healthy = false;
      reconciliation_status = "UNKNOWN";
      connection_state = "DISCONNECTED";
    }
    else record c {
      reconciliation_status = "SIMULATED_SYNC";
      connection_state = "READY";
      private_stream_healthy = false;
      authenticated = false;
    }

-- the first part of `set_kill_switch(True)`
abbrev pub block : Control → Control
block c = record c {
  kill_switch_active = true;
  pause_new_risk = true;
  engine_state = WorkerEngineState.emergency;
}

abbrev pub set_adapter : ControlAdapter → Control → Control
set_adapter a c = record c { execution_adapter = some a }

-- `set_kill_switch(True)` is in parts, between which other tasks run: `block`, the fence of an autonomous
-- launch, `stale`, the cancellation, which changes no control, `attempt`, and the answer of `kill_status`.
abbrev pub stale : Control → Control
stale c = elim c.execution_adapter [
  | none ↦ c
  | some a ↦
      if is_exchange c.execution_mode
      then set_adapter (record a { last_status = "UNKNOWN" }) c
      else c
]

-- the reconciliation of the adapter `a`, whose failures are caught, with its answer
unfoldable pub attempt : Reply Reconciliation → ControlAdapter → Control → String × Control
attempt raised a c = ("UNKNOWN", c)
attempt unauthenticated a c = ("UNKNOWN", set_adapter (invalidate_authentication a) c)
attempt (answered r) a c = (r.status, reconciled r c)

abbrev pub is_verified : String → Option ControlAdapter → Bool
is_verified status none = false
is_verified status (some a) = str_eq status "IN_SYNC" && a.private_stream_healthy && a.authenticated

-- what `set_kill_switch(True)` answers for the status of the cancellation and that of the reconciliation
abbrev pub kill_status : KillStatus → String → Control → KillStatus
kill_status confirmed status c =
    if is_verified status c.execution_adapter then confirmed else partial
kill_status partial status c = partial
kill_status unknown status c = unknown

-- What `openOrders` comes to for `set_kill_switch(False)`: the number of orders, or no list.
pub record ReleaseReplies : Type 0 where
  pub open_orders : Reply (Option ℕ)
  pub reconciliation : Reply Reconciliation

abbrev pub released : Control → Control
released c = refresh_engine_state (record c { kill_switch_active = false })

-- the release once there are no orders
abbrev pub release_reconciled :
    Reply Reconciliation → ControlAdapter → Control → KillStatus × Control
release_reconciled raised a c = (unknown, c)
release_reconciled unauthenticated a c = (unknown, set_adapter (invalidate_authentication a) c)
release_reconciled (answered r) a c =
    let after = reconciled r c in
    if is_verified r.status after.execution_adapter
    then (confirmed, released after)
    else (partial, after)

-- the release once `openOrders` has answered
abbrev pub release_checked :
    Reply (Option ℕ) → Reply Reconciliation → ControlAdapter → Control → KillStatus × Control
release_checked raised reply a c = (unknown, c)
release_checked unauthenticated reply a c = (unknown, set_adapter (invalidate_authentication a) c)
release_checked (answered none) reply a c = (unknown, c)
release_checked (answered (some n)) reply a c =
    if n == 0 then release_reconciled reply a c else (partial, c)

abbrev pub release_active : ReleaseReplies → Option ControlAdapter → Control → KillStatus × Control
release_active k none c =
    if is_exchange c.execution_mode then (unknown, c) else (confirmed, released c)
release_active k (some a) c =
    if is_exchange c.execution_mode
    then release_checked k.open_orders k.reconciliation a c
    else (unknown, c)

-- `set_kill_switch(False)`
unfoldable pub release_kill_switch : ReleaseReplies → Control → KillStatus × Control
release_kill_switch k c =
    if not c.kill_switch_active
    then (confirmed, refresh_engine_state c)
    else release_active k c.execution_adapter c
