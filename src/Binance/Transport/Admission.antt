-- ===== src/Binance/Transport/Admission.antt =====
-- Which requests are sent.
use blessing_ai.Prelude.{
  ℕ, ◌≤◌, String, Bool, true, false, ◌&&◌, not, Option, none, some, List, [], ◌∷◌, ◌≡◌, ◌≢◌, ◌⊎◌,
  inl, inr, refl, arith, on_branches, OnSome, OnSome-some, Bool-cases, str_eq, eq_iff, In,
}
use blessing_ai.Prelude.Dict.{get}
use blessing_ai.Binance.Rules.{contains}
use blessing_ai.Binance.Rules.Contains.{contains-In}
use blessing_ai.Binance.Transport.{
  RestClient, Exchange, Outcome, loop, request, counted, is_allowed, is_order_mutation,
  allowed_request_methods, admits,
}

-- The allowlist has the path, with the method among those of the path.
abbrev pub IsOnAllowlist : String → String → Type 0
IsOnAllowlist method path =
    (methods : List String) × (get path allowed_request_methods ≡ some methods) × In method methods

admits-In :
    (o : Option (List String)) (method : String)
    → admits o method ≡ true
    → (methods : List String) × (o ≡ some methods) × In method methods
admits-In none method h = cc
admits-In (some ms) method h = (ms, refl, contains-In method ms h)

is_allowed-IsOnAllowlist :
    (method path : String) → is_allowed method path ≡ true → IsOnAllowlist method path
unfolding is_allowed
is_allowed-IsOnAllowlist method path h = admits-In (get path allowed_request_methods) method h

-- It places, changes or cancels no order: its path is none of the two of orders, or its method is none
-- of the three that write.
abbrev pub IsHarmless : String → String → Type 0
IsHarmless method path =
    ((path ≢ "/fapi/v1/order") × (path ≢ "/papi/v1/um/order"))
    ⊎ ((method ≢ "POST") × (method ≢ "PUT") × (method ≢ "DELETE"))

unequal : (t u : String) → str_eq t u ≡ false → t ≢ u
unequal t u e same = let f = (eq_iff t u).1 same in ground (arith, e, f)

no_mutation-IsHarmless :
    (method path : String) → is_order_mutation method path ≡ false → IsHarmless method path
unfolding is_order_mutation
no_mutation-IsHarmless method path h =
    elim (Bool-cases (contains path ("/fapi/v1/order" ∷ "/papi/v1/um/order" ∷ []))) [
      | inl e ↦ inr (
        unequal method "POST" (ground (arith, h, e)),
        unequal method "PUT" (ground (arith, h, e)),
        unequal method "DELETE" (ground (arith, h, e)),
      )
      | inr e ↦ inl (
        unequal path "/fapi/v1/order" (ground (arith, e)),
        unequal path "/papi/v1/um/order" (ground (arith, e)),
      )
    ]

no_order :
    (method path : String) (r : Bool)
    → is_order_mutation method path && r ≡ false
    → (r ≡ false) ⊎ IsHarmless method path
no_order method path false h = inl refl
no_order method path true h = inr (no_mutation-IsHarmless method path (ground (arith, h)))

-- what holds of a request that is sent
abbrev IsAdmitted : RestClient → String → String → Outcome → Type 0
IsAdmitted c method path x =
    1 ≤ x.sent → IsOnAllowlist method path × ((c.read_only ≡ false) ⊎ IsHarmless method path)

always : {P : Outcome → Type 0} (o : Option Outcome) → ((x : Outcome) → P x) → OnSome P o
always none h = tt
always (some x) h = h x

-- A request that is sent has a path on the allowlist and a method that the allowlist has for this path;
-- and the client is not read-only, or the path is none of the two of orders, or the method is none of
-- POST, PUT and DELETE.
pub sent_admitted :
    (fuel : ℕ) (c : RestClient) (method path : String) (has_session : Bool) (replies : ℕ → Exchange)
    {x : Outcome}
    → request fuel c method path has_session replies ≡ some x
    → 1 ≤ x.sent
    → IsOnAllowlist method path × ((c.read_only ≡ false) ⊎ IsHarmless method path)
unfolding request
sent_admitted fuel c method path has_session replies e =
    let P = OnSome (IsAdmitted c method path) in
    let counts = counted method path c in
    OnSome-some (IsAdmitted c method path)
      (on_branches P (not (is_allowed method path)) (λ _. λ le. absurd (omega arith))
        (λ on_list.
          on_branches P (is_order_mutation method path && counts.read_only)
            (λ _. λ le. absurd (omega arith))
            (λ admitted.
              on_branches P (not has_session) (λ _. λ le. absurd (omega arith))
                (λ _. always (loop fuel counts method false replies 0) (λ x le. (
                  is_allowed-IsOnAllowlist method path (ground (arith, on_list)),
                  no_order method path c.read_only (ground (arith, admitted)),
                ))))))
      e
