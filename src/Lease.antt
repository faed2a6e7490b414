-- ===== src/Lease.antt =====
-- apps/trading_worker/execution_lease.py: the shared in-memory lease store. The store's `asyncio`
-- lock makes each method one step. A clock reading is a number of ticks of `time.monotonic`; a
-- method takes as arguments the readings that it makes.
pub mod Trace
pub mod Fencing
pub mod Exclusion
pub mod Handle
pub mod Postgres
pub mod Agreement
mod Tests
use blessing_ai.Prelude.{
  ℕ, ◌+◌, String, Bool, true, false, ◌&&◌, Option, none, some, ltb, ◌==◌, str_eq, if◌then◌else◌,
}
use blessing_ai.Prelude.Dict.{Dict, get, put}

pub record LeaseRecord : Type 0 where
  pub owner_id : String
  pub fencing_token : ℕ
  pub expires_at : ℕ

abbrev pub Store : Type 0
Store = Dict LeaseRecord

-- `(current.fencing_token + 1) if current is not None else 1`
abbrev pub next_token : Option LeaseRecord → ℕ
next_token none = 1
next_token (some r) = r.fencing_token + 1

-- `current is not None and current.expires_at > now`
abbrev pub is_held : Option LeaseRecord → ℕ → Bool
is_held none now = false
is_held (some r) now = ltb now r.expires_at

-- `InMemoryExecutionLeaseStore.acquire`; `now` is read before the lock is taken
pub acquire : String → String → ℕ → ℕ → Store → Option ℕ × Store
acquire scope owner ttl now s =
    let current = get scope s in
    let token = next_token current in
    let fresh : LeaseRecord = record {
      owner_id = owner;
      fencing_token = token;
      expires_at = now + ttl;
    } in
    if is_held current now then (none, s) else (some token, put scope fresh s)

-- The negation of the guard of `renew` and `assert_valid`.
abbrev pub is_valid : Option LeaseRecord → String → ℕ → ℕ → Bool
is_valid none owner token now = false
is_valid (some r) owner token now =
    str_eq r.owner_id owner && r.fencing_token == token && ltb now r.expires_at

-- the assignment to `current.expires_at`
pub set_expiry : String → ℕ → Option LeaseRecord → Store → Store
set_expiry scope t none s = s
set_expiry scope t (some r) s = put scope (record r { expires_at = t }) s

-- `InMemoryExecutionLeaseStore.renew` reads the clock for its test and again for the new expiry
pub renew : String → String → ℕ → ℕ → ℕ → ℕ → Store → Bool × Store
renew scope owner token ttl now later s =
    let current = get scope s in
    if is_valid current owner token now
    then (true, set_expiry scope (later + ttl) current s)
    else (false, s)

-- `InMemoryExecutionLeaseStore.assert_valid`; `false` is the raise of `LeaseLostError`
pub assert_valid : String → String → ℕ → ℕ → Store → Bool
assert_valid scope owner token now s = is_valid (get scope s) owner token now

-- the test of `release`
abbrev pub is_owner : Option LeaseRecord → String → ℕ → Bool
is_owner none owner token = false
is_owner (some r) owner token = str_eq r.owner_id owner && r.fencing_token == token

-- `InMemoryExecutionLeaseStore.release` keeps the record, and so the token
pub release : String → String → ℕ → Store → Store
release scope owner token s =
    let current = get scope s in
    if is_owner current owner token then set_expiry scope 0 current s else s

-- `InMemoryExecutionLeaseStore.lose`
pub lose : String → Store → Store
lose scope s = set_expiry scope 0 (get scope s) s
