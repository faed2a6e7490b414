-- ===== src/Binance/Transport/Tests.antt =====
-- The transport at concrete replies.
use blessing_ai.Prelude.{
  ℕ, zero, suc, ◌≤◌, true, false, some, none, ◌≡◌, refl, arith, if◌then◌else◌, ◌⊎◌,
}
use blessing_ai.Prelude.Int.{negsuc}
use blessing_ai.Prelude.Dict.{get}
use blessing_ai.Binance.Transport.{
  RestClient, Exchange, response, Outcome, outcome, returned, raised, loop, request, verdict,
  error_verdict, is_read, is_allowed, is_order_mutation, is_rejection, record_rate_limit,
  value_error, timestamp_error, definitive_rejection,
}
use blessing_ai.Binance.Transport.Attempts.{request_ends}
use blessing_ai.Binance.Transport.Meaning.{IsRejection, refusal_answered}
use blessing_ai.Binance.Transport.Admission.{IsOnAllowlist, IsHarmless, sent_admitted}

abbrev client : RestClient
client = record {
  read_only = false;
  order_endpoint_attempts = 0;
  throttle_until = 0;
  rate_limit_failures = 0;
}

-- the clock is wrong at first, then the exchange answers
abbrev late_clock : ℕ → Exchange
late_clock zero = record {
  reply = response 400 (some (negsuc 1020)) none "";
  synchronizes = true;
  now = 10;
}
late_clock (suc n) = record { reply = response 200 none none "[]"; synchronizes = true; now = 20 }

-- too little margin
abbrev poor : ℕ → Exchange
poor n = record { reply = response 400 (some (negsuc 2018)) none ""; synchronizes = true; now = 10 }

reads_again :
    request 2 client "GET" "/fapi/v1/openOrders" true late_clock
    ≡ some (outcome (returned "[]") client 2)
unfolding request loop verdict error_verdict is_allowed is_order_mutation get
reads_again = refl

-- an order is not posted again
posts_once :
    request 2 client "POST" "/fapi/v1/order" true late_clock
    ≡ some (
        outcome
          (raised (timestamp_error (negsuc 1020)))
          (record client { order_endpoint_attempts = 1 })
          1)
unfolding request loop verdict error_verdict is_allowed is_order_mutation get
posts_once = refl

stays_outside :
    request 2 client "DELETE" "/fapi/v2/account" true late_clock
    ≡ some (outcome (raised value_error) client 0)
unfolding request loop verdict error_verdict is_allowed is_order_mutation get
stays_outside = refl

-- the third rate limit delays by four seconds
delays :
    (record_rate_limit none 1000000 (record client { rate_limit_failures = 2 })).throttle_until
    ≡ 5000000
unfolding record_rate_limit
delays = refl

request_ends_example :
    (x : Outcome) × (request 2 client "POST" "/fapi/v1/order" true poor ≡ some x)
    × (x.sent ≤ (if is_read "POST" then 2 else 1))
request_ends_example = request_ends 2 client "POST" "/fapi/v1/order" true poor (omega arith)

refusal_answered_example : (n : ℕ) × (1 ≡ suc n) × IsRejection "POST" (negsuc 2018) (poor n).reply
unfolding request loop verdict error_verdict is_allowed is_order_mutation is_rejection get
refusal_answered_example =
    refusal_answered 2 client "POST" "/fapi/v1/order" true poor (negsuc 2018)
      {x = outcome (raised (definitive_rejection (negsuc 2018)))
        (record client { order_endpoint_attempts = 1 }) 1}
      refl refl

sent_admitted_example :
    IsOnAllowlist "DELETE" "/fapi/v1/order"
    × ((client.read_only ≡ false) ⊎ IsHarmless "DELETE" "/fapi/v1/order")
unfolding request loop verdict error_verdict is_allowed is_order_mutation get
sent_admitted_example =
    sent_admitted 2 client "DELETE" "/fapi/v1/order" true late_clock
      {x = outcome (raised (timestamp_error (negsuc 1020)))
        (record client { order_endpoint_attempts = 1 }) 1}
      refl (omega arith)
