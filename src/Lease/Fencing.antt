-- ===== src/Lease/Fencing.antt =====
-- Fencing tokens only grow, whatever the schedule.
use blessing_ai.Prelude.{
  ℕ, ◌+◌, ◌≤◌, ◌<◌, String, ◌≡◌, ◌≢◌, inl, inr, false, Option, none, some, List, [], ◌∷◌, arith,
  str_eq, eq_iff, Option-cases, if◌then◌else◌,
}
use blessing_ai.Prelude.Dict.{get, get-put}
use blessing_ai.Lease.{LeaseRecord, Store, acquire, renew, release, lose, assert_valid, set_expiry}
use blessing_ai.Lease.Trace.{World, Event, wait, step, run}
use native.Mathlib.Nat.{le_trans, le_refl}

abbrev pub with_expiry : ℕ → Option LeaseRecord → Option LeaseRecord
with_expiry t none = none
with_expiry t (some r) = some (record r { expires_at = t })

pub get-set_expiry :
    (k scope : String) (t : ℕ) (s : Store)
    → get k (set_expiry scope t (get scope s) s)
      ≡ (if str_eq scope k then with_expiry t (get k s) else get k s)
unfolding set_expiry
get-set_expiry k scope t s = elim (Option-cases (get scope s)) [
  | inl e ↦ rw e (ground (arith, eq_iff scope k))
  | inr (r, e) ↦
      rw e (ground (arith, eq_iff scope k, get-put scope k (record r { expires_at = t }) s))
]

-- The last token that was given out for a scope, 0 before the first.
abbrev pub last_token : Option LeaseRecord → ℕ
last_token none = 0
last_token (some r) = r.fencing_token

abbrev pub token_of : String → Store → ℕ
token_of k s = last_token (get k s)

pub token_of-acquire :
    (k scope owner : String) (ttl now : ℕ) (s : Store)
    → token_of k s ≤ token_of k (acquire scope owner ttl now s).1
unfolding acquire
token_of-acquire k scope owner ttl now s = grind (arith, get-put, eq_iff)

token_of-set_expiry :
    (k scope : String) (t : ℕ) (s : Store)
    → token_of k (set_expiry scope t (get scope s) s) ≡ token_of k s
token_of-set_expiry k scope t s = ground (arith, get-set_expiry k scope t s)

pub token_of-step :
    (k : String) (e : Event) (w : World) → token_of k w.store ≤ token_of k (step e w).store
unfolding step renew release lose
token_of-step k (wait d) w = le_refl _
token_of-step k (Event.acquire scope owner ttl lag) w = token_of-acquire k scope owner ttl _ w.store
token_of-step k (Event.renew scope owner token ttl delay) w =
    ground (arith, token_of-set_expiry k scope (w.clock + delay + ttl) w.store)
token_of-step k (Event.release scope owner token) w =
    ground (arith, token_of-set_expiry k scope 0 w.store)
token_of-step k (Event.lose scope) w = ground (arith, token_of-set_expiry k scope 0 w.store)

pub token_of-run :
    (k : String) (es : List Event) (w : World) → token_of k w.store ≤ token_of k (run es w).store
unfolding run
token_of-run k [] w = le_refl _
token_of-run k (e ∷ es) w = le_trans (token_of-step k e w) (token_of-run k es (step e w))

-- A successful `acquire` returns the successor of the last token of its scope, and stores it.
pub acquire_token :
    (scope owner : String) (ttl now : ℕ) (s : Store) {n : ℕ}
    → (acquire scope owner ttl now s).0 ≡ some n
    → (n ≡ token_of scope s + 1) × (token_of scope (acquire scope owner ttl now s).1 ≡ n)
unfolding acquire
acquire_token scope owner ttl now s h = grind (arith, get-put, eq_iff)

assert_valid_token :
    (scope owner : String) (token now : ℕ) (s : Store)
    → token_of scope s ≢ token
    → assert_valid scope owner token now s ≡ false
unfolding assert_valid
assert_valid_token scope owner token now s h = ground arith

-- Once `acquire` has given out a token for a scope, every smaller token of that scope fails
-- `assert_valid` for ever, whoever presents it, whatever all clients do from there on and however
-- the clock moves.
pub stale_token_fenced :
    (scope owner : String) (ttl now : ℕ) (w : World) (es : List Event) (holder : String)
    (token t : ℕ) {n : ℕ}
    → (acquire scope owner ttl now w.store).0 ≡ some n
    → token < n
    → let w' = record w { store = (acquire scope owner ttl now w.store).1 } in
      assert_valid scope holder token t (run es w').store ≡ false
stale_token_fenced scope owner ttl now w es holder token t h lt =
    let w' = record w { store = (acquire scope owner ttl now w.store).1 } in
    let given = (acquire_token scope owner ttl now w.store h).1 in
    let grown = token_of-run scope es w' in
    assert_valid_token scope holder token t (run es w').store (omega (arith, given, grown))

-- Of two successful calls of `acquire` for one scope the later returns the larger token, whatever
-- happens in between.
pub acquire_tokens_increase :
    (scope first second : String) (ttl ttl' now now' : ℕ) (w : World) (es : List Event) {n m : ℕ}
    → (acquire scope first ttl now w.store).0 ≡ some n
    → let w' = run es (record w { store = (acquire scope first ttl now w.store).1 }) in
      (acquire scope second ttl' now' w'.store).0 ≡ some m → n < m
acquire_tokens_increase scope first second ttl ttl' now now' w es h k =
    let w' = record w { store = (acquire scope first ttl now w.store).1 } in
    let given = (acquire_token scope first ttl now w.store h).1 in
    let grown = token_of-run scope es w' in
    omega (arith, given, grown, (acquire_token scope second ttl' now' (run es w').store k).0)
