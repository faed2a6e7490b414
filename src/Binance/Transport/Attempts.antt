-- ===== src/Binance/Transport/Attempts.antt =====
-- How often a request is sent.
use blessing_ai.Prelude.{
  ℕ, zero, suc, ◌≤◌, String, Bool, true, false, ◌&&◌, not, Option, some, ◌≡◌, refl, arith,
  on_branches, if◌then◌else◌,
}
use blessing_ai.Prelude.Int.{ℤ}
use blessing_ai.Binance.Transport.{
  RestClient, Exchange, Reply, lost, unreadable, response, Verdict, again, ends, limited, Outcome,
  outcome, after, loop, request, counted, verdict, error_verdict, numeric_error_code, is_read,
  is_allowed, is_order_mutation,
}

-- Only a read that was not sent again before is sent again.
again_read :
    (method : String) (retried : Bool) (status : ℕ) (code : ℤ) (retry_after : Option ℕ)
    (synced : Bool)
    → error_verdict method retried status code retry_after synced ≡ again
    → (is_read method ≡ true) × (retried ≡ false)
unfolding error_verdict
again_read method retried status code retry_after synced e = (ground arith, ground arith)

verdict_again :
    (method : String) (retried : Bool) (r : Reply) (synced : Bool)
    → verdict method retried r synced ≡ again
    → (is_read method ≡ true) × (retried ≡ false)
unfolding verdict
verdict_again method retried lost synced h = cc
verdict_again method retried unreadable synced h = cc
verdict_again method retried (response status code retry_after body) synced h =
    again_read method retried status (numeric_error_code code status) retry_after synced
      (ground (arith, h))

-- The loop ended after so many sends.
abbrev EndsBy : ℕ → Option Outcome → Type 0
EndsBy n o = (x : Outcome) × (o ≡ some x) × (x.sent ≤ n)

after-EndsBy :
    (v : Verdict) (c : RestClient) (now sent n : ℕ) (rest : Option Outcome)
    → sent ≤ n
    → (v ≡ again → EndsBy n rest)
    → EndsBy n (after v c now sent rest)
after-EndsBy again c now sent n rest le h = h refl
after-EndsBy (ends r) c now sent n rest le h = (outcome r c sent, refl, le)
after-EndsBy (limited d code) c now sent n rest le h = (_, refl, le)

-- The second round of the loop is the last.
last_round :
    (fuel : ℕ) (c : RestClient) (method : String) (replies : ℕ → Exchange) (n : ℕ)
    → EndsBy (suc n) (loop (suc fuel) c method true replies n)
unfolding loop
last_round fuel c method replies n =
    let x = replies n in
    after-EndsBy (verdict method true x.reply x.synchronizes) c x.now (suc n) (suc n) _
      (omega arith)
      (λ h. let (read, fresh) = verdict_again method true x.reply x.synchronizes h in cc)

-- The loop ends after two sends, and after one if the method is none of a read.
rounds :
    (fuel : ℕ) (c : RestClient) (method : String) (replies : ℕ → Exchange)
    → EndsBy (if is_read method then 2 else 1) (loop (suc (suc fuel)) c method false replies 0)
unfolding loop
rounds fuel c method replies =
    let x = replies 0 in
    after-EndsBy (verdict method false x.reply x.synchronizes) c x.now 1 _ _ (ground arith) (λ h.
      let (read, fresh) = verdict_again method false x.reply x.synchronizes h in
      rw read (last_round fuel c method replies 1))

-- Fuel 2 is enough: a request ends, having been sent at most twice, and at most once if its method
-- is none of a read, whatever the network does; an order is never posted twice by one request.
pub request_ends :
    (fuel : ℕ) (c : RestClient) (method path : String) (has_session : Bool) (replies : ℕ → Exchange)
    → 2 ≤ fuel
    → (x : Outcome) × (request fuel c method path has_session replies ≡ some x)
      × (x.sent ≤ (if is_read method then 2 else 1))
unfolding request
request_ends zero c method path has_session replies le = absurd (omega arith)
request_ends (suc zero) c method path has_session replies le = absurd (omega arith)
request_ends (suc (suc fuel)) c method path has_session replies le =
    let P = EndsBy (if is_read method then 2 else 1) in
    let counts = counted method path c in
    on_branches P (not (is_allowed method path)) (λ _. (_, refl, omega arith))
      (λ _.
        on_branches P (is_order_mutation method path && counts.read_only)
          (λ _. (_, refl, omega arith))
          (λ _.
            on_branches P (not has_session) (λ _. (_, refl, omega arith))
              (λ _. rounds fuel counts method replies)))
