-- ===== src/Lease/Handle.antt =====
-- apps/trading_worker/execution_lease.py: `InMemoryExecutionLease`, a client's handle on the store.
use blessing_ai.Prelude.{ℕ, String, Bool, true, false, Option, none, some}
use blessing_ai.Lease
use blessing_ai.Lease.{Store}

pub record Handle : Type 0 where
  pub scope_key : String
  pub owner_id : String
  pub ttl_seconds : ℕ
  pub fencing_token : Option ℕ

-- `acquire`: a refused call leaves an old token in place
abbrev took : Handle → Option ℕ → Bool × Handle
took h none = (false, h)
took h (some token) = (true, record h { fencing_token = some token })

unfoldable pub acquire : ℕ → Handle → Store → Bool × Handle × Store
acquire now h s =
    let (token, s') = Lease.acquire h.scope_key h.owner_id h.ttl_seconds now s in
    let (done, h') = took h token in (done, h', s')

renew_token : Option ℕ → ℕ → ℕ → Handle → Store → Bool × Store
renew_token none now later h s = (false, s)
renew_token (some token) now later h s =
    Lease.renew h.scope_key h.owner_id token h.ttl_seconds now later s

unfoldable pub renew : ℕ → ℕ → Handle → Store → Bool × Store
unfolding renew_token
renew now later h s = renew_token h.fencing_token now later h s

-- `false` is the raise of `LeaseLostError`
assert_token : Option ℕ → ℕ → Handle → Store → Bool
assert_token none now h s = false
assert_token (some token) now h s = Lease.assert_valid h.scope_key h.owner_id token now s

unfoldable pub assert_valid : ℕ → Handle → Store → Bool
unfolding assert_token
assert_valid now h s = assert_token h.fencing_token now h s

release_token : Option ℕ → Handle → Store → Handle × Store
release_token none h s = (h, s)
release_token (some token) h s =
    (record h { fencing_token = none }, Lease.release h.scope_key h.owner_id token s)

unfoldable pub release : Handle → Store → Handle × Store
unfolding release_token
release h s = release_token h.fencing_token h s
