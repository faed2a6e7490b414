-- ===== src/Lease/Tests.antt =====
-- Runs of the execution lease, and its theorems at concrete inputs.
use blessing_ai.Prelude.{
  String, ◌≢◌, ◌≡◌, refl, true, false, some, none, List, [], ◌∷◌, arith, eq_iff,
}
use blessing_ai.Prelude.Dict.{get, put}
use blessing_ai.Lease.{Store, acquire, renew, release, assert_valid, set_expiry}
use blessing_ai.Lease.Trace.{World, Event, wait, run}
use blessing_ai.Lease.Handle.{Handle}
use blessing_ai.Lease.Fencing.{stale_token_fenced}
use blessing_ai.Lease.Exclusion.{acquired_until_expiry}
use blessing_ai.Lease.Agreement.{Op, Call, memory_answers, postgres_answers, backends_answer_alike}

abbrev first : Store
first = ("MAINNET", record { owner_id = "a"; fencing_token = 1; expires_at = 15 }) ∷ []

lease_given : acquire "MAINNET" "a" 10 5 [] ≡ (some 1, first)
unfolding acquire get put
lease_given = refl

lease_taken_over : (acquire "MAINNET" "b" 10 15 first).0 ≡ some 2
unfolding acquire get put
lease_taken_over = refl

-- The token survives a release.
lease_after_release : (acquire "MAINNET" "b" 10 6 (release "MAINNET" "a" 1 first)).0 ≡ some 2
unfolding acquire release set_expiry get put
lease_after_release = refl

renewal_refused : renew "MAINNET" "a" 1 10 15 15 first ≡ (false, first)
unfolding renew get put
renewal_refused = refl

abbrev world : World
world = record { clock = 5; store = [] }

abbrev takeover : List Event
takeover = wait 10 ∷ Event.acquire "MAINNET" "b" 10 0 ∷ Event.renew "MAINNET" "a" 1 10 0 ∷ []

abbrev intrusion : List Event
intrusion =
    wait 3
    ∷ Event.acquire "MAINNET" "b" 10 1
    ∷ Event.release "MAINNET" "b" 1
    ∷ Event.lose "TESTNET"
    ∷ wait 4
    ∷ []

stale_token_fenced_example :
    let w : World = record { clock = 15; store = (acquire "MAINNET" "b" 10 15 first).1 } in
    assert_valid "MAINNET" "a" 1 16 (run takeover w).store ≡ false
stale_token_fenced_example =
    stale_token_fenced "MAINNET" "b" 10 15 (record { clock = 15; store = first }) takeover "a" 1 16
      lease_taken_over (omega arith)

second_acquire :
    let w' = run takeover (record world { store = (acquire "MAINNET" "a" 10 5 []).1 }) in
    (acquire "MAINNET" "c" 10 40 w'.store).0 ≡ some 3
unfolding acquire renew set_expiry get put run
second_acquire = refl

not_alice : ◌≢◌ {A = String} "b" "a"
not_alice = ground (arith, eq_iff "b" "a")

not_mainnet : ◌≢◌ {A = String} "TESTNET" "MAINNET"
not_mainnet = ground (arith, eq_iff "TESTNET" "MAINNET")

acquired_until_expiry_example :
    assert_valid "MAINNET" "a" 1 12 (run intrusion (record world { store = first })).store ≡ true
unfolding acquire get put run
acquired_until_expiry_example =
    acquired_until_expiry "MAINNET" "a" 10 world intrusion refl
      (tt, (tt, ((λ p. not_alice p.1), (not_mainnet, (tt, tt))))) (omega arith)

abbrev alice : Handle
alice = record { scope_key = "MAINNET"; owner_id = "a"; ttl_seconds = 10; fencing_token = none }

abbrev bob : Handle
bob = record { scope_key = "MAINNET"; owner_id = "b"; ttl_seconds = 10; fencing_token = some 1 }

abbrev calls : List Call
calls =
    record { delay = 1; op = Op.acquire; handle = alice }
    ∷ record { delay = 2; op = Op.acquire; handle = bob }
    ∷ record { delay = 0; op = Op.release; handle = record alice { fencing_token = some 1 } }
    ∷ record { delay = 0; op = Op.acquire; handle = bob }
    ∷ []

backends_answer_alike_example : memory_answers calls 0 [] ≡ postgres_answers calls 0 []
backends_answer_alike_example = backends_answer_alike calls 0 [] [] (λ k. unfold get in tt)
