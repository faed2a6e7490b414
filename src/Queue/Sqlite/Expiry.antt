-- ===== src/Queue/Sqlite/Expiry.antt =====
-- What becomes of a running job whose lease has ended.
use blessing_ai.Prelude.{
  ℕ, ◌≡◌, ◌≤◌, ◌<◌, ◌⊎◌, refl, inl, inr, true, false, Option, none, some, arith, Bool-cases,
  if◌then◌else◌, leb,
}
use blessing_ai.Queue.Models.{
  pending, running, failed, ready, blocked, JobRecord, ExternalEffectClass, cloud_effect,
  exchange_order, emergency_control, no_effect, repo_effect, is_unsafe,
}
use blessing_ai.Queue.Sqlite.Recover.{is_expired, has_expired}
use blessing_ai.Queue.Sqlite.Recovery.{recovered_self}

-- The job is running, and its lease ended before now.
abbrev pub IsLapsed : ℕ → JobRecord → Type 0
IsLapsed now j = (j.status ≡ running) × ((t : ℕ) × (j.lease_until ≡ some t) × (t < now))

-- an effect that must not be repeated
abbrev pub IsUnsafe : ExternalEffectClass → Type 0
IsUnsafe e = (e ≡ cloud_effect) ⊎ ((e ≡ exchange_order) ⊎ (e ≡ emergency_control))

-- A job and what it becomes: it is left as it is, or ends as failed and blocked, or waits again.
pub data IsRecovered (now : ℕ) (j : JobRecord) : JobRecord → Type 0 where
  kept : ¬ (IsLapsed now j) → IsRecovered now j j
  uncertain :
      IsLapsed now j
      → IsUnsafe j.external_effect_class
      → IsRecovered now j (record j {
        status = failed;
        gate_state = blocked;
        error_code = some "external_effect_uncertain";
        finished_at = some now;
        updated_at = now;
        lease_until = none;
        worker_id = none;
      })
  exhausted :
      IsLapsed now j
      → ¬ (IsUnsafe j.external_effect_class)
      → j.max_attempts ≤ j.attempt
      → IsRecovered now j (record j {
        status = failed;
        gate_state = blocked;
        error_code = some "lease_expired_attempts_exhausted";
        finished_at = some now;
        updated_at = now;
        lease_until = none;
        worker_id = none;
      })
  waiting :
      IsLapsed now j
      → ¬ (IsUnsafe j.external_effect_class)
      → j.attempt < j.max_attempts
      → IsRecovered now j (record j {
        status = pending;
        gate_state = ready;
        error_code = some "lease_expired";
        next_attempt_at = some now;
        updated_at = now;
        lease_until = none;
        worker_id = none;
      })

ended : (now : ℕ) (o : Option ℕ) → has_expired now o ≡ true → (t : ℕ) × (o ≡ some t) × (t < now)
ended now none h = cc
ended now (some t) h = (t, refl, ground arith)

has_ended : (now : ℕ) (o : Option ℕ) (t : ℕ) → o ≡ some t → t < now → has_expired now o ≡ true
has_ended now o t e lt = rw e (ground (arith, lt))

pub is_expired-IsLapsed : (now : ℕ) (j : JobRecord) → is_expired now j ≡ true → IsLapsed now j
is_expired-IsLapsed now j h = (ground (arith, h), ended now j.lease_until (ground (arith, h)))

pub not-IsLapsed : (now : ℕ) (j : JobRecord) → is_expired now j ≡ false → ¬ (IsLapsed now j)
not-IsLapsed now j h (r, (t, e, lt)) =
    let old = has_ended now j.lease_until t e lt in ground (arith, h, r, old)

is_unsafe-IsUnsafe : (e : ExternalEffectClass) → is_unsafe e ≡ true → IsUnsafe e
is_unsafe-IsUnsafe no_effect h = cc
is_unsafe-IsUnsafe repo_effect h = cc
is_unsafe-IsUnsafe cloud_effect h = inl refl
is_unsafe-IsUnsafe exchange_order h = inr (inl refl)
is_unsafe-IsUnsafe emergency_control h = inr (inr refl)

not-IsUnsafe : (e : ExternalEffectClass) → is_unsafe e ≡ false → ¬ (IsUnsafe e)
not-IsUnsafe e h (inl same) = ground (arith, h, same)
not-IsUnsafe e h (inr (inl same)) = ground (arith, h, same)
not-IsUnsafe e h (inr (inr same)) = ground (arith, h, same)

lapsed-IsRecovered :
    (now : ℕ) (j : JobRecord) → IsLapsed now j → IsRecovered now j (recovered_self now j)
lapsed-IsRecovered now j l = elim (Bool-cases (is_unsafe j.external_effect_class)) [
  | inl e ↦ rw e (uncertain l (is_unsafe-IsUnsafe j.external_effect_class e))
  | inr e ↦ elim (Bool-cases (leb j.max_attempts j.attempt)) [
    | inl f ↦ rw (e, f) (exhausted l (not-IsUnsafe j.external_effect_class e) (ground (arith, f)))
    | inr f ↦ rw (e, f) (waiting l (not-IsUnsafe j.external_effect_class e) (ground (arith, f)))
  ]
]

pub written-IsRecovered :
    (now : ℕ) (j : JobRecord)
    → IsRecovered now j (if is_expired now j then recovered_self now j else j)
written-IsRecovered now j = elim (Bool-cases (is_expired now j)) [
  | inl e ↦ rw e (lapsed-IsRecovered now j (is_expired-IsLapsed now j e))
  | inr e ↦ rw e (kept (not-IsLapsed now j e))
]
