-- ===== src/Lease/Postgres.antt =====
-- apps/trading_worker/execution_lease.py: `PostgresExecutionLease`. The table `execution_leases`
-- holds one row for each scope. Each method is one SQL statement, which PostgreSQL runs as one
-- step; `now` is its `CURRENT_TIMESTAMP`, in ticks. The column `updated_at` is never read.
use blessing_ai.Prelude.{
  ℕ, ◌+◌, String, Bool, true, false, ◌&&◌, Option, none, some, ltb, leb, ◌==◌, str_eq,
  if◌then◌else◌,
}
use blessing_ai.Prelude.Dict.{Dict, get, put}
use blessing_ai.Lease.Handle.{Handle}

pub record Row : Type 0 where
  pub owner_id : String
  pub fencing_token : ℕ
  pub lease_until : ℕ

abbrev pub Table : Type 0
Table = Dict Row

-- INSERT … ON CONFLICT (scope_key) DO UPDATE … WHERE lease_until <= CURRENT_TIMESTAMP RETURNING
abbrev upsert : Handle → ℕ → Option Row → Table → Option ℕ × Table
upsert h now none t =
    let inserted : Row = record {
      owner_id = h.owner_id;
      fencing_token = 1;
      lease_until = now + h.ttl_seconds;
    } in
    (some 1, put h.scope_key inserted t)
upsert h now (some r) t =
    let updated : Row = record {
      owner_id = h.owner_id;
      fencing_token = r.fencing_token + 1;
      lease_until = now + h.ttl_seconds;
    } in
    if leb r.lease_until now
    then (some (r.fencing_token + 1), put h.scope_key updated t)
    else (none, t)

abbrev took : Handle → Option ℕ → Bool × Handle
took h none = (false, h)
took h (some token) = (true, record h { fencing_token = some token })

unfoldable pub acquire : ℕ → Handle → Table → Bool × Handle × Table
acquire now h t =
    let (token, t') = upsert h now (get h.scope_key t) t in
    let (done, h') = took h token in (done, h', t')

-- WHERE owner_id = $2 AND fencing_token = $3
abbrev pub is_owner : Handle → ℕ → Option Row → Bool
is_owner h token none = false
is_owner h token (some r) = str_eq r.owner_id h.owner_id && r.fencing_token == token

-- AND lease_until > CURRENT_TIMESTAMP
abbrev pub is_live : Handle → ℕ → ℕ → Option Row → Bool
is_live h token now none = false
is_live h token now (some r) =
    str_eq r.owner_id h.owner_id && r.fencing_token == token && ltb now r.lease_until

-- SET lease_until
unfoldable pub set_until : String → ℕ → Option Row → Table → Table
set_until scope until none t = t
set_until scope until (some r) t = put scope (record r { lease_until = until }) t

renew_token : Option ℕ → ℕ → Handle → Table → Bool × Table
renew_token none now h t = (false, t)
renew_token (some token) now h t =
    let row = get h.scope_key t in
    if is_live h token now row
    then (true, set_until h.scope_key (now + h.ttl_seconds) row t)
    else (false, t)

unfoldable pub renew : ℕ → Handle → Table → Bool × Table
unfolding renew_token
renew now h t = renew_token h.fencing_token now h t

-- `false` is the raise of `LeaseLostError`
assert_token : Option ℕ → ℕ → Handle → Table → Bool
assert_token none now h t = false
assert_token (some token) now h t = is_live h token now (get h.scope_key t)

unfoldable pub assert_valid : ℕ → Handle → Table → Bool
unfolding assert_token
assert_valid now h t = assert_token h.fencing_token now h t

release_token : Option ℕ → ℕ → Handle → Table → Handle × Table
release_token none now h t = (h, t)
release_token (some token) now h t =
    let row = get h.scope_key t in
    let t' = if is_owner h token row then set_until h.scope_key now row t else t in
    (record h { fencing_token = none }, t')

unfoldable pub release : ℕ → Handle → Table → Handle × Table
unfolding release_token
release now h t = release_token h.fencing_token now h t
