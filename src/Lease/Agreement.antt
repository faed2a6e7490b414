-- ===== src/Lease/Agreement.antt =====
-- The in-memory lease and the PostgreSQL lease answer alike.
use blessing_ai.Prelude.{
  ℕ, ◌+◌, ◌≤◌, String, ◌≡◌, refl, ◌⊎◌, inl, inr, Bool, true, Option, none, some, List, [], ◌∷◌,
  arith, eq_iff, str_eq, Option-cases, if◌then◌else◌,
}
use mathlib.Core.Path.{ap₂}
use blessing_ai.Prelude.Dict.{get, get-put}
use blessing_ai.Lease
use blessing_ai.Lease.{LeaseRecord, Store, set_expiry}
use blessing_ai.Lease.Fencing.{get-set_expiry}
use blessing_ai.Lease.Handle
use blessing_ai.Lease.Handle.{Handle}
use blessing_ai.Lease.Postgres
use blessing_ai.Lease.Postgres.{Row, Table, set_until}

pub data Op : Type 0 where
  acquire renew assert_valid release : Op

-- One call on a handle with one clock reading: its answer and what is left of the handle. A release
-- answers nothing, written as `true`.
pub in_memory : Op → ℕ → Handle → Store → (Bool × Handle) × Store
in_memory Op.acquire now h s = let (b, h', s') = Handle.acquire now h s in ((b, h'), s')
in_memory Op.renew now h s = let (b, s') = Handle.renew now now h s in ((b, h), s')
in_memory Op.assert_valid now h s = ((Handle.assert_valid now h s, h), s)
in_memory Op.release now h s = let (h', s') = Handle.release h s in ((true, h'), s')

pub in_postgres : Op → ℕ → Handle → Table → (Bool × Handle) × Table
in_postgres Op.acquire now h t = let (b, h', t') = Postgres.acquire now h t in ((b, h'), t')
in_postgres Op.renew now h t = let (b, t') = Postgres.renew now h t in ((b, h), t')
in_postgres Op.assert_valid now h t = ((Postgres.assert_valid now h t, h), t)
in_postgres Op.release now h t = let (h', t') = Postgres.release now h t in ((true, h'), t')

-- The same owner and token, and the same expiry unless both are past it.
abbrev pub SameLease : ℕ → Option LeaseRecord → Option Row → Type 0
SameLease now none none = Unit
SameLease now (some m) (some p) =
    (m.owner_id ≡ p.owner_id)
    × (m.fencing_token ≡ p.fencing_token)
    × ((m.expires_at ≡ p.lease_until) ⊎ ((m.expires_at ≤ now) × (p.lease_until ≤ now)))
SameLease now _ _ = ⊥

abbrev pub Agree : ℕ → Store → Table → Type 0
Agree now s t = (k : String) → SameLease now (get k s) (get k t)

SameLease-mono :
    (now later : ℕ) (m : Option LeaseRecord) (p : Option Row)
    → now ≤ later
    → SameLease now m p
    → SameLease later m p
SameLease-mono now later none none le h = tt
SameLease-mono now later (some m) (some p) le h = ground arith
SameLease-mono now later none (some p) le h = h
SameLease-mono now later (some m) none le h = h

with_until : ℕ → Option Row → Option Row
with_until u none = none
with_until u (some r) = some (record r { lease_until = u })

get-set_until :
    (k scope : String) (u : ℕ) (t : Table)
    → get k (set_until scope u (get scope t) t)
      ≡ (if str_eq scope k then with_until u (get k t) else get k t)
unfolding set_until with_until
get-set_until k scope u t = elim (Option-cases (get scope t)) [
  | inl e ↦ rw e (ground (arith, eq_iff scope k))
  | inr (r, e) ↦
      rw e (ground (arith, eq_iff scope k, get-put scope k (record r { lease_until = u }) t))
]

module _ (now : ℕ) (h : Handle) (s : Store) (t : Table) (agree : Agree now s t) where
  acquire_answers : (in_memory Op.acquire now h s).0 ≡ (in_postgres Op.acquire now h t).0
  unfolding in_memory in_postgres Handle.acquire Postgres.acquire Lease.acquire
  acquire_answers = ground (arith, agree h.scope_key)

  acquire-Agree : Agree now (in_memory Op.acquire now h s).1 (in_postgres Op.acquire now h t).1
  unfolding in_memory in_postgres Handle.acquire Postgres.acquire Lease.acquire
  acquire-Agree k = grind (arith, agree h.scope_key, agree k, get-put, eq_iff h.scope_key k)

  assert_valid_answers :
      (in_memory Op.assert_valid now h s).0 ≡ (in_postgres Op.assert_valid now h t).0
  unfolding in_memory in_postgres Handle.assert_valid Postgres.assert_valid Lease.assert_valid
  assert_valid_answers = ground (arith, agree h.scope_key)

  renew_answers : (in_memory Op.renew now h s).0 ≡ (in_postgres Op.renew now h t).0
  unfolding in_memory in_postgres Handle.renew Postgres.renew Lease.renew
  renew_answers = ground (arith, agree h.scope_key)

  renew-Agree : Agree now (in_memory Op.renew now h s).1 (in_postgres Op.renew now h t).1
  unfolding in_memory in_postgres Handle.renew Postgres.renew Lease.renew with_until
  renew-Agree k = ground (
    arith,
    agree h.scope_key,
    agree k,
    get-set_expiry k h.scope_key (now + h.ttl_seconds) s,
    get-set_until k h.scope_key (now + h.ttl_seconds) t,
    eq_iff h.scope_key k,
  )

  release_answers : (in_memory Op.release now h s).0 ≡ (in_postgres Op.release now h t).0
  unfolding in_memory in_postgres Handle.release Postgres.release Lease.release
  release_answers = ground arith

  release-Agree : Agree now (in_memory Op.release now h s).1 (in_postgres Op.release now h t).1
  unfolding in_memory in_postgres Handle.release Postgres.release Lease.release with_until
  release-Agree k = ground (
    arith,
    agree h.scope_key,
    agree k,
    get-set_expiry k h.scope_key 0 s,
    get-set_until k h.scope_key now t,
    eq_iff h.scope_key k,
  )

answers_alike :
    (op : Op) (now : ℕ) (h : Handle) (s : Store) (t : Table)
    → Agree now s t
    → ((in_memory op now h s).0 ≡ (in_postgres op now h t).0)
      × Agree now (in_memory op now h s).1 (in_postgres op now h t).1
unfolding in_memory in_postgres
answers_alike Op.acquire now h s t a = (acquire_answers now h s t a, acquire-Agree now h s t a)
answers_alike Op.renew now h s t a = (renew_answers now h s t a, renew-Agree now h s t a)
answers_alike Op.assert_valid now h s t a = (assert_valid_answers now h s t a, a)
answers_alike Op.release now h s t a = (release_answers now h s t a, release-Agree now h s t a)

-- A call on some handle, made `delay` ticks after the one before it.
pub record Call : Type 0 where
  pub delay : ℕ
  pub op : Op
  pub handle : Handle

pub memory_answers : List Call → ℕ → Store → List (Bool × Handle)
memory_answers [] now s = []
memory_answers (c ∷ cs) now s =
    let r = in_memory c.op (now + c.delay) c.handle s in r.0 ∷ memory_answers cs (now + c.delay) r.1

pub postgres_answers : List Call → ℕ → Table → List (Bool × Handle)
postgres_answers [] now t = []
postgres_answers (c ∷ cs) now t =
    let r = in_postgres c.op (now + c.delay) c.handle t in
    r.0 ∷ postgres_answers cs (now + c.delay) r.1

-- From stores that agree, any calls on any handles, current or stale, are answered alike by the two
-- backends, one after the other, if each call reads one clock once.
pub backends_answer_alike :
    (cs : List Call) (now : ℕ) (s : Store) (t : Table)
    → Agree now s t
    → memory_answers cs now s ≡ postgres_answers cs now t
unfolding memory_answers postgres_answers
backends_answer_alike [] now s t a = refl
backends_answer_alike (c ∷ cs) now s t a =
    let later = now + c.delay in
    let a' : Agree later s t =
      λ k. SameLease-mono now later (get k s) (get k t) (omega arith) (a k) in
    let step = answers_alike c.op later c.handle s t a' in
    ap₂ ◌∷◌ step.0 (
      backends_answer_alike cs later (in_memory c.op later c.handle s).1
        (in_postgres c.op later c.handle t).1 step.1)
