-- ===== src/Lease/Exclusion.antt =====
-- At most one owner holds a scope, and it keeps the lease until the lease expires.
use blessing_ai.Prelude.{
  ℕ, ◌+◌, ◌-◌, ◌≤◌, ◌<◌, String, ◌≡◌, ◌≢◌, inl, inr, true, Option, none, some, List, [], ◌∷◌, arith,
  eq_iff, All, Option-cases,
}
use blessing_ai.Prelude.Dict.{get, get-put}
use blessing_ai.Lease.{LeaseRecord, Store, acquire, renew, release, lose, assert_valid}
use blessing_ai.Lease.Trace.{World, Event, wait, step, run}
use blessing_ai.Lease.Fencing.{get-set_expiry}
use native.Mathlib.Nat.{le_trans, le-add_right, le_refl}

-- The record of a scope is this owner's, with this token, and expires at the deadline or later.
abbrev pub HeldBy : String → ℕ → ℕ → Option LeaseRecord → Type 0
HeldBy owner token deadline none = ⊥
HeldBy owner token deadline (some r) =
    (r.owner_id ≡ owner) × (r.fencing_token ≡ token) × (deadline ≤ r.expires_at)

pub HeldBy-assert_valid :
    (scope owner : String) (token deadline t : ℕ) (s : Store)
    → HeldBy owner token deadline (get scope s)
    → t < deadline
    → assert_valid scope owner token t s ≡ true
unfolding assert_valid
HeldBy-assert_valid scope owner token deadline t s h lt = elim (Option-cases (get scope s)) [
  | inl e ↦ absurd (rw e at h)
  | inr (r, e) ↦
      let held : HeldBy owner token deadline (some r) = rw e at h in
      rw e (ground (arith, eq_iff r.owner_id owner))
]

pub assert_valid-HeldBy :
    (scope owner : String) (token t : ℕ) (s : Store)
    → assert_valid scope owner token t s ≡ true
    → HeldBy owner token (t + 1) (get scope s)
unfolding assert_valid
assert_valid-HeldBy scope owner token t s h = elim (Option-cases (get scope s)) [
  | inl e ↦ ground arith
  | inr (r, e) ↦ rw e (ground (arith, eq_iff r.owner_id owner))
]

pub acquire_held :
    (scope owner other : String) (token deadline ttl now : ℕ) (s : Store)
    → HeldBy owner token deadline (get scope s)
    → now < deadline
    → acquire scope other ttl now s ≡ (none, s)
unfolding acquire
acquire_held scope owner other token deadline ttl now s h lt = elim (Option-cases (get scope s)) [
  | inl e ↦ absurd (rw e at h)
  | inr (r, e) ↦ let held : HeldBy owner token deadline (some r) = rw e at h in rw e (ground arith)
]

HeldBy-unique :
    (owner rival : String) (token token' d d' : ℕ) (o : Option LeaseRecord)
    → HeldBy owner token d o
    → HeldBy rival token' d' o
    → (rival ≡ owner) × (token' ≡ token)
HeldBy-unique owner rival token token' d d' (some r) h k = ground arith
HeldBy-unique owner rival token token' d d' none h k = absurd h

-- While a lease is valid no call of `acquire` for its scope succeeds or changes the store, not even
-- one with an older clock reading; and two leases that are valid at once for one scope have the
-- same owner and the same token.
pub valid_excludes :
    (scope owner other rival : String) (token token' ttl now t : ℕ) (s : Store)
    → assert_valid scope owner token t s ≡ true
    → now ≤ t
    → (acquire scope other ttl now s ≡ (none, s))
      × (assert_valid scope rival token' t s ≡ true → (rival ≡ owner) × (token' ≡ token))
valid_excludes scope owner other rival token token' ttl now t s h le =
    let held = assert_valid-HeldBy scope owner token t s h in
    (
      acquire_held scope owner other token (t + 1) ttl now s held (omega arith),
      λ k.
          HeldBy-unique owner rival token token' (t + 1) (t + 1) (get scope s) held
            (assert_valid-HeldBy scope rival token' t s k),
    )

acquire-HeldBy :
    (scope owner : String) (ttl now : ℕ) (s : Store) {n : ℕ}
    → (acquire scope owner ttl now s).0 ≡ some n
    → HeldBy owner n (now + ttl) (get scope (acquire scope owner ttl now s).1)
unfolding acquire
acquire-HeldBy scope owner ttl now s h =
    grind (arith, get-put, eq_iff scope scope, eq_iff owner owner)

-- What the others may do: anything but a call in the holder's name, or the test hook on its scope.
abbrev pub IsForeign : String → String → ℕ → Event → Type 0
IsForeign scope owner token (Event.renew k o n ttl delay) =
    ¬ ((k ≡ scope) × (o ≡ owner) × (n ≡ token))
IsForeign scope owner token (Event.release k o n) = ¬ ((k ≡ scope) × (o ≡ owner) × (n ≡ token))
IsForeign scope owner token (Event.lose k) = k ≢ scope
IsForeign scope owner token _ = Unit

module _ (scope owner : String) (token deadline : ℕ) where
  abbrev Keeps : World → Type 0
  Keeps w = HeldBy owner token deadline (get scope w.store)

  HeldBy-acquire :
      (k other : String) (ttl lag : ℕ) (w : World)
      → Keeps w
      → w.clock < deadline
      → HeldBy owner token deadline (get scope (acquire k other ttl (w.clock - lag) w.store).1)
  unfolding acquire
  HeldBy-acquire k other ttl lag w h lt = elim (Option-cases (get scope w.store)) [
    | inl e ↦ absurd (rw e at h)
    | inr (r, e) ↦
        let held : HeldBy owner token deadline (some r) = rw e at h in
        grind (arith, get-put, eq_iff k scope)
  ]

  HeldBy-step :
      (e : Event) (w : World)
      → IsForeign scope owner token e
      → Keeps w
      → w.clock < deadline
      → Keeps (step e w)
  unfolding step renew release lose
  HeldBy-step (wait d) w f h lt = h
  HeldBy-step (Event.acquire k other ttl lag) w f h lt = HeldBy-acquire k other ttl lag w h lt
  HeldBy-step (Event.renew k o n ttl delay) w f h lt = elim (Option-cases (get scope w.store)) [
    | inl e ↦ absurd (rw e at h)
    | inr (r, e) ↦
        let held : HeldBy owner token deadline (some r) = rw e at h in
        ground (
          arith,
          get-set_expiry scope k (w.clock + delay + ttl) w.store,
          eq_iff k scope,
          eq_iff r.owner_id o,
        )
  ]
  HeldBy-step (Event.release k o n) w f h lt = elim (Option-cases (get scope w.store)) [
    | inl e ↦ absurd (rw e at h)
    | inr (r, e) ↦
        let held : HeldBy owner token deadline (some r) = rw e at h in
        ground (arith, get-set_expiry scope k 0 w.store, eq_iff k scope, eq_iff r.owner_id o)
  ]
  HeldBy-step (Event.lose k) w f h lt =
      ground (arith, get-set_expiry scope k 0 w.store, eq_iff k scope)

clock-step : (e : Event) (w : World) → w.clock ≤ (step e w).clock
unfolding step
clock-step (wait d) w = le-add_right _ d
clock-step (Event.renew k o n ttl delay) w = le-add_right _ delay
clock-step _ w = le_refl _

clock-run : (es : List Event) (w : World) → w.clock ≤ (run es w).clock
unfolding run
clock-run [] w = le_refl _
clock-run (e ∷ es) w = le_trans (clock-step e w) (clock-run es (step e w))

HeldBy-run :
    (scope owner : String) (token deadline : ℕ) (es : List Event) (w : World)
    → All (IsForeign scope owner token) es
    → HeldBy owner token deadline (get scope w.store)
    → (run es w).clock < deadline
    → HeldBy owner token deadline (get scope (run es w).store)
unfolding run
HeldBy-run scope owner token deadline [] w f h lt = h
HeldBy-run scope owner token deadline (e ∷ es) w f h lt =
    let now : w.clock < deadline = omega (arith, clock-step e w, clock-run es (step e w)) in
    HeldBy-run scope owner token deadline es (step e w) f.1
      (HeldBy-step scope owner token deadline e w f.0 h now) lt

-- An owner whose `acquire` succeeded, on a current clock reading, passes `assert_valid` until its
-- time to live has run out, whatever the other clients do; it has made no further call itself.
pub acquired_until_expiry :
    (scope owner : String) (ttl : ℕ) (w : World) (es : List Event) {n : ℕ}
    → (acquire scope owner ttl w.clock w.store).0 ≡ some n
    → All (IsForeign scope owner n) es
    → let v = run es (record w { store = (acquire scope owner ttl w.clock w.store).1 }) in
      v.clock < w.clock + ttl → assert_valid scope owner n v.clock v.store ≡ true
acquired_until_expiry scope owner ttl w es {n} h f lt =
    let w' = record w { store = (acquire scope owner ttl w.clock w.store).1 } in
    let held =
      HeldBy-run scope owner n (w.clock + ttl) es w' f
        (acquire-HeldBy scope owner ttl w.clock w.store h) lt in
    HeldBy-assert_valid scope owner n (w.clock + ttl) (run es w').clock (run es w').store held lt
