-- ===== src/Binance/Transport.antt =====
-- apps/trading_worker/venues/binance/rest_client.py: `BinanceRestClient.request`, with the allowlist of
-- endpoints, the meaning of the exchange's errors and the delay after a rate limit. What the network
-- does is an argument: a reply for each time that the request is sent. Times are microseconds. The
-- signature, the parameters and the texts of the errors are left out.
pub mod Attempts
pub mod Meaning
pub mod Admission
mod Tests
use blessing_ai.Prelude.{
  ℕ, zero, suc, ◌+◌, ◌-◌, ◌*◌, ◌^◌, String, Bool, true, false, ◌&&◌, ◌||◌, not, Option, none, some,
  List, [], ◌∷◌, any, ◌==◌, leb, if◌then◌else◌, or_else,
}
use blessing_ai.Prelude.Int.{ℤ, pos, negsuc, leb_ℤ}
use blessing_ai.Prelude.Dict.{Dict, get}
use blessing_ai.Binance.Rules.{contains}

pub record RestClient : Type 0 where
  pub read_only : Bool
  pub order_endpoint_attempts : ℕ
  pub throttle_until : ℕ
  pub rate_limit_failures : ℕ

-- the exceptions, with the numeric code where they have one
pub data Failure : Type 0 where
  value_error permission_error transport_ambiguity : Failure
  timestamp_error authentication_error rate_limit_error definitive_rejection : ℤ → Failure

-- What comes back when a request is sent: a timeout or an error of the transport, a body that is no
-- JSON, or a status, with the body's `code` where it is a number and the header Retry-After where it
-- is a positive one.
pub data Reply : Type 0 where
  lost : Reply
  unreadable : Reply
  response : ℕ → Option ℤ → Option ℕ → String → Reply

-- A reply, whether the clock synchronizes after it, and the time.
pub record Exchange : Type 0 where
  pub reply : Reply
  pub synchronizes : Bool
  pub now : ℕ

pub data Result : Type 0 where
  returned : String → Result
  raised : Failure → Result

abbrev pub reads : List String
reads = "GET" ∷ []

abbrev pub orders : List String
orders = "GET" ∷ "POST" ∷ "PUT" ∷ "DELETE" ∷ []

abbrev pub listens : List String
listens = "POST" ∷ "PUT" ∷ "DELETE" ∷ []

-- `_ALLOWED_REQUEST_METHODS`
abbrev pub allowed_request_methods : Dict (List String)
allowed_request_methods =
    ("/fapi/v1/time", reads)
    ∷ ("/fapi/v1/exchangeInfo", reads)
    ∷ ("/fapi/v1/positionSide/dual", reads)
    ∷ ("/fapi/v2/account", reads)
    ∷ ("/fapi/v2/positionRisk", reads)
    ∷ ("/fapi/v1/openOrders", reads)
    ∷ ("/fapi/v1/userTrades", reads)
    ∷ ("/fapi/v1/income", reads)
    ∷ ("/fapi/v1/premiumIndex", reads)
    ∷ ("/fapi/v1/ticker/bookTicker", reads)
    ∷ ("/fapi/v1/order", orders)
    ∷ ("/fapi/v1/listenKey", listens)
    ∷ ("/papi/v1/account", reads)
    ∷ ("/papi/v1/balance", reads)
    ∷ ("/papi/v1/um/account", reads)
    ∷ ("/papi/v1/um/positionSide/dual", reads)
    ∷ ("/papi/v1/um/positionRisk", reads)
    ∷ ("/papi/v1/um/openOrders", reads)
    ∷ ("/papi/v1/um/userTrades", reads)
    ∷ ("/papi/v1/um/income", reads)
    ∷ ("/papi/v1/um/order", orders)
    ∷ ("/papi/v1/um/leverage", "POST" ∷ [])
    ∷ ("/papi/v1/um/leverageBracket", reads)
    ∷ ("/papi/v1/listenKey", listens)
    ∷ []

abbrev pub admits : Option (List String) → String → Bool
admits none method = false
admits (some ms) method = contains method ms

unfoldable pub is_allowed : String → String → Bool
is_allowed method path = admits (get path allowed_request_methods) method

unfoldable pub is_order_mutation : String → String → Bool
is_order_mutation method path =
    contains path ("/fapi/v1/order" ∷ "/papi/v1/um/order" ∷ [])
    && contains method ("POST" ∷ "PUT" ∷ "DELETE" ∷ [])

abbrev pub is_read : String → Bool
is_read method = contains method ("GET" ∷ "HEAD" ∷ [])

-- `-code in codes`, for a negative code
abbrev pub is_code : List ℕ → ℤ → Bool
is_code codes (pos n) = false
is_code codes (negsuc n) = any (λ k. k == suc n) codes

-- `_DEFINITIVE_REJECTION_CODES`, without their signs
abbrev pub definitive_rejection_codes : List ℕ
definitive_rejection_codes =
    1100 ∷ 1101 ∷ 1102 ∷ 1103 ∷ 1104 ∷ 1105 ∷ 1106 ∷ 1111 ∷ 1112 ∷ 1114 ∷ 1115 ∷ 1116 ∷ 1117 ∷ 1118
    ∷ 1119 ∷ 1121 ∷ 1125 ∷ 1013 ∷ 2010 ∷ 2011 ∷ 2013 ∷ 2019 ∷ 2020 ∷ 2021 ∷ 2022 ∷ 4164 ∷ 4165
    ∷ 4003 ∷ 4004 ∷ 4005 ∷ 4014 ∷ 4023 ∷ []

-- `_RATE_LIMIT_CODES`
abbrev pub rate_limit_codes : List ℕ
rate_limit_codes = 1003 ∷ 1008 ∷ 1015 ∷ []

abbrev pub is_one_of : List ℕ → ℕ → Bool
is_one_of ns n = any (λ k. k == n) ns

abbrev pub is_indeterminate : ℕ → Bool
is_indeterminate status = is_one_of (408 ∷ 500 ∷ 502 ∷ 503 ∷ 504 ∷ []) status

-- `_numeric_error_code`
abbrev pub numeric_error_code : Option ℤ → ℕ → ℤ
numeric_error_code none status = pos status
numeric_error_code (some code) status = code

unfoldable pub is_rejection : String → ℤ → Bool
is_rejection method code =
    is_code definitive_rejection_codes code
    && not (is_code (2013 ∷ []) code && contains method ("POST" ∷ []))

-- What the loop does after a reply: it sends the request again, or ends.
pub data Verdict : Type 0 where
  again : Verdict
  ends : Result → Verdict
  limited : Option ℕ → ℤ → Verdict

-- a status of 400 or more, which is none of the indeterminate ones
unfoldable pub error_verdict : String → Bool → ℕ → ℤ → Option ℕ → Bool → Verdict
error_verdict method retried status code retry_after synchronizes =
    if is_code (1021 ∷ []) code
    then (if not synchronizes
        then ends (raised transport_ambiguity)
        else if is_read method && not retried
        then again
        else ends (raised (timestamp_error code)))
    else if is_code (2014 ∷ 2015 ∷ []) code || is_one_of (401 ∷ 403 ∷ []) status
    then ends (raised (authentication_error code))
    else if is_code rate_limit_codes code || is_one_of (418 ∷ 429 ∷ []) status
    then limited retry_after code
    else if is_rejection method code
    then ends (raised (definitive_rejection code))
    else ends (raised transport_ambiguity)

unfoldable pub verdict : String → Bool → Reply → Bool → Verdict
verdict method retried lost synchronizes = ends (raised transport_ambiguity)
verdict method retried unreadable synchronizes = ends (raised transport_ambiguity)
verdict method retried (response status code retry_after body) synchronizes =
    if not (leb 400 status)
    then ends (returned body)
    else if is_indeterminate status
    then ends (raised transport_ambiguity)
    else error_verdict method retried status (numeric_error_code code status) retry_after
        synchronizes

abbrev pub min : ℕ → ℕ → ℕ
min a b = if leb a b then a else b

abbrev pub max : ℕ → ℕ → ℕ
max a b = if leb a b then b else a

-- the delay after so many rate limits, without the header
abbrev pub backoff : ℕ → ℕ
backoff failures = min 30000000 (2 ^ (failures - 1) * 1000000)

abbrev pub delay_of : Option ℕ → ℕ → ℕ
delay_of none failures = backoff failures
delay_of (some delay) failures = delay

-- `_record_rate_limit`
unfoldable pub record_rate_limit : Option ℕ → ℕ → RestClient → RestClient
record_rate_limit retry_after now c =
    let failures = min (c.rate_limit_failures + 1) 6 in
    record c {
      rate_limit_failures = failures;
      throttle_until = max c.throttle_until (now + delay_of retry_after failures);
    }

-- How a call ends, with the number of times that the request was sent.
pub record Outcome : Type 0 where
  pub result : Result
  pub client : RestClient
  pub sent : ℕ

abbrev pub outcome : Result → RestClient → ℕ → Outcome
outcome r c n = record { result = r; client = c; sent = n }

abbrev pub after : Verdict → RestClient → ℕ → ℕ → Option Outcome → Option Outcome
after again c now sent rest = rest
after (ends r) c now sent rest = some (outcome r c sent)
after (limited retry_after code) c now sent rest =
    some (outcome (raised (rate_limit_error code)) (record_rate_limit retry_after now c) sent)

-- the loop, on fuel, where `n` is how often the request was sent before
unfoldable pub loop : ℕ → RestClient → String → Bool → (ℕ → Exchange) → ℕ → Option Outcome
loop zero c method retried replies n = none
loop (suc fuel) c method retried replies n =
    let rest = loop fuel c method true replies (suc n) in
    let x = replies n in after (verdict method retried x.reply x.synchronizes) c x.now (suc n) rest

abbrev pub counted : String → String → RestClient → RestClient
counted method path c =
    if is_order_mutation method path
    then record c { order_endpoint_attempts = c.order_endpoint_attempts + 1 }
    else c

-- `request` once the endpoint is allowed
abbrev pub begun : ℕ → RestClient → String → String → Bool → (ℕ → Exchange) → Option Outcome
begun fuel c method path has_session replies =
    if is_order_mutation method path && c.read_only
    then some (outcome (raised permission_error) c 0)
    else if not has_session
    then some (outcome (raised transport_ambiguity) c 0)
    else loop fuel c method false replies 0

-- `request`; `has_session` is false if there is no session and its clock does not synchronize
unfoldable pub request : ℕ → RestClient → String → String → Bool → (ℕ → Exchange) → Option Outcome
request fuel c method path has_session replies =
    if not (is_allowed method path)
    then some (outcome (raised value_error) c 0)
    else begun fuel (counted method path c) method path has_session replies
