-- ===== src/Binance/Transport/Meaning.antt =====
-- What a sent request and its failure stand for.
use blessing_ai.Prelude.{
  ℕ, zero, suc, ◌≤◌, String, Bool, true, false, ◌&&◌, not, Option, none, some, ◌≡◌, refl, arith,
  on_branches, OnSome, OnSome-some, ap, List, [], ◌∷◌, any, In, here, there, ◌≢◌, ◌⊎◌, inl, inr,
  Bool-cases, subst, str_eq, eq_iff, ◌==◌, ◌∙◌,
}
use blessing_ai.Prelude.Int.{ℤ, pos, negsuc}
use blessing_ai.Binance.Transport.{
  RestClient, Exchange, Reply, lost, unreadable, response, Verdict, again, ends, limited, Outcome,
  after, loop, request, counted, verdict, error_verdict, numeric_error_code, is_allowed,
  is_order_mutation, is_indeterminate, is_rejection, is_code, definitive_rejection_codes, raised,
  definitive_rejection,
}

any-In : (p : ℕ → Bool) (xs : List ℕ) → any p xs ≡ true → (x : ℕ) × In x xs × (p x ≡ true)
any-In p [] h = cc
any-In p (x ∷ xs) h = elim (Bool-cases (p x)) [
  | inl e ↦ (x, here, e)
  | inr e ↦ let (y, i, k) = any-In p xs (ground (arith, h, e)) in (y, there i, k)
]

-- a code of the list, which has them without their signs
abbrev pub IsListed : ℤ → Type 0
IsListed code = (n : ℕ) × (code ≡ negsuc n) × In (suc n) definitive_rejection_codes

is_code-IsListed : (code : ℤ) → is_code definitive_rejection_codes code ≡ true → IsListed code
is_code-IsListed (ℤ.pos n) h = cc
is_code-IsListed (ℤ.negsuc n) h =
    let (x, i, e) = any-In (λ k. k == suc n) definitive_rejection_codes h in
    let same : x ≡ suc n = ground (arith, e) in
    (n, refl, subst (λ y. In y definitive_rejection_codes) same i)

-- An answer that does not say whether the exchange took the order has none of these statuses.
abbrev pub IsDeterminate : ℕ → Type 0
IsDeterminate status =
    (status ≢ 408) × (status ≢ 500) × (status ≢ 502) × (status ≢ 503) × (status ≢ 504)

is_indeterminate-IsDeterminate :
    (status : ℕ) → is_indeterminate status ≡ false → IsDeterminate status
is_indeterminate-IsDeterminate status h = (
  λ e. ground (arith, h, e),
  λ e. ground (arith, h, e),
  λ e. ground (arith, h, e),
  λ e. ground (arith, h, e),
  λ e. ground (arith, h, e),
)

rejection-IsListed : (method : String) (code : ℤ) → is_rejection method code ≡ true → IsListed code
unfolding is_rejection
rejection-IsListed method code h = is_code-IsListed code (ground (arith, h))

missing_order :
    (method : String) (code : ℤ)
    → is_rejection method code ≡ true
    → (code ≢ negsuc 2012) ⊎ (method ≢ "POST")
unfolding is_rejection
missing_order method code h = elim (Bool-cases (str_eq method "POST")) [
  | inl e ↦ inl (λ same. ground (arith, h, e, same))
  | inr e ↦ inr (λ same. let f = (eq_iff method "POST").1 same in ground (arith, e, f))
]

numeric_code :
    (k : Option ℤ) (status : ℕ) {code : ℤ}
    → IsListed code
    → numeric_error_code k status ≡ code
    → k ≡ some code
numeric_code none status {code} l e =
    let (n, same, i) = l in let bad : pos status ≡ negsuc n = e ∙ same in ground (arith, bad)
numeric_code (some c) status l e = ap some e

-- The exchange answered with an error whose code says that it did not take the order.
pub record IsRejection (method : String) (code : ℤ) (r : Reply) : Type 0 where
  pub status : ℕ
  pub body_code : Option ℤ
  pub retry_after : Option ℕ
  pub body : String
  pub answered : r ≡ response status body_code retry_after body
  pub error : 400 ≤ status
  pub determinate : IsDeterminate status
  pub same_code : body_code ≡ some code
  pub listed : IsListed code
  pub not_missing : (code ≢ negsuc 2012) ⊎ (method ≢ "POST")

error_rejection :
    (method : String) (retried : Bool) (status : ℕ) (k code : ℤ) (retry_after : Option ℕ)
    (synced : Bool)
    → error_verdict method retried status k retry_after synced
      ≡ ends (raised (definitive_rejection code))
    → (k ≡ code) × (is_rejection method k ≡ true)
unfolding error_verdict
error_rejection method retried status k code retry_after synced e = (ground arith, ground arith)

verdict-IsRejection :
    (method : String) (retried : Bool) (r : Reply) (synced : Bool) (code : ℤ)
    → verdict method retried r synced ≡ ends (raised (definitive_rejection code))
    → IsRejection method code r
unfolding verdict
verdict-IsRejection method retried lost synced code e = cc
verdict-IsRejection method retried unreadable synced code e = cc
verdict-IsRejection method retried (response status k retry_after body) synced code e =
    let on_error : error_verdict method retried status (numeric_error_code k status) retry_after
          synced
        ≡ ends (raised (definitive_rejection code)) =
      ground (arith, e) in
    let (same, listed) =
      error_rejection method retried status (numeric_error_code k status) code retry_after synced
        on_error in
    let on_list = rejection-IsListed method code (rw⁻¹ same listed) in
    record {
      status = status;
      body_code = k;
      retry_after = retry_after;
      body = body;
      answered = refl;
      error = ground (arith, e);
      determinate = is_indeterminate-IsDeterminate status (ground (arith, e));
      same_code = numeric_code k status on_list same;
      listed = on_list;
      not_missing = missing_order method code (rw⁻¹ same listed);
    }

-- A rejection that the call raises is the last reply's.
abbrev Explains : String → (ℕ → Exchange) → Outcome → Type 0
Explains method replies x =
    (code : ℤ)
    → x.result ≡ raised (definitive_rejection code)
    → (n : ℕ) × (x.sent ≡ suc n) × IsRejection method code (replies n).reply

after-Explains :
    (method : String) (replies : ℕ → Exchange) (v : Verdict) (c : RestClient) (now n : ℕ)
    (rest : Option Outcome)
    → ((code : ℤ)
        → v ≡ ends (raised (definitive_rejection code))
        → IsRejection method code (replies n).reply)
    → OnSome (Explains method replies) rest
    → OnSome (Explains method replies) (after v c now (suc n) rest)
after-Explains method replies again c now n rest h k = k
after-Explains method replies (ends r) c now n rest h k = λ code e. (n, refl, h code (ap ends e))
after-Explains method replies (limited d limit) c now n rest h k = λ code e. cc

loop-Explains :
    (fuel : ℕ) (c : RestClient) (method : String) (retried : Bool) (replies : ℕ → Exchange) (n : ℕ)
    → OnSome (Explains method replies) (loop fuel c method retried replies n)
unfolding loop
loop-Explains zero c method retried replies n = tt
loop-Explains (suc fuel) c method retried replies n =
    let x = replies n in
    after-Explains method replies (verdict method retried x.reply x.synchronizes) c x.now n _
      (verdict-IsRejection method retried x.reply x.synchronizes)
      (loop-Explains fuel c method true replies (suc n))

request-Explains :
    (fuel : ℕ) (c : RestClient) (method path : String) (has_session : Bool) (replies : ℕ → Exchange)
    → OnSome (Explains method replies) (request fuel c method path has_session replies)
unfolding request
request-Explains fuel c method path has_session replies =
    let P = OnSome (Explains method replies) in
    let counts = counted method path c in
    on_branches P (not (is_allowed method path)) (λ _. λ code e. cc)
      (λ _.
        on_branches P (is_order_mutation method path && counts.read_only) (λ _. λ code e. cc)
          (λ _.
            on_branches P (not has_session) (λ _. λ code e. cc)
              (λ _. loop-Explains fuel counts method false replies 0)))

-- A request that raises a definitive rejection was sent, and the exchange's answer to its last send has
-- a status of at least 400 that is none of 408, 500, 502, 503 and 504, and a body with that code, which
-- is on the list of rejections, and is not -2013, "no such order", for a POST.
pub refusal_answered :
    (fuel : ℕ) (c : RestClient) (method path : String) (has_session : Bool) (replies : ℕ → Exchange)
    (code : ℤ) {x : Outcome}
    → request fuel c method path has_session replies ≡ some x
    → x.result ≡ raised (definitive_rejection code)
    → (n : ℕ) × (x.sent ≡ suc n) × IsRejection method code (replies n).reply
refusal_answered fuel c method path has_session replies code e h =
    OnSome-some (Explains method replies) (request-Explains fuel c method path has_session replies)
      e code h
