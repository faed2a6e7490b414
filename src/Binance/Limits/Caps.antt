-- ===== src/Binance/Limits/Caps.antt =====
-- What the process environment cannot do to the limits of an order.
use blessing_ai.Prelude.{
  ◌||◌, not, ℕ, String, Bool, true, false, Option, none, some, List, [], ◌∷◌, arith, ◌≡◌,
  Bool-cases, inl, inr, on_branches, OnSome->>=, eq_iff, sym, subst, str_eq, OnSome-some,
}
use blessing_ai.Prelude.Int.{ℤ, ltb_ℤ, ◌≤ℤ◌}
use blessing_ai.Binance.Rules.{contains, min_ℤ, max_ℤ}
use blessing_ai.Binance.Limits.{
  is_mainnet, BinanceEnvironment, TestnetSafetyLimits, Variables, defaults, positive_decimal,
  or_symbols, intersection, symbols_of, limits_of, overrides_approved, from_environment,
  parse_environment,
}

-- Limits that allow no more than others.
pub record IsNoWider (a b : TestnetSafetyLimits) : Type 0 where
  pub symbols :
      (t : String) → contains t a.allowed_symbols ≡ true → contains t b.allowed_symbols ≡ true
  pub single_order : a.max_single_order_notional ≤ℤ b.max_single_order_notional
  pub total_open : a.max_total_open_notional ≤ℤ b.max_total_open_notional
  pub open_orders : a.max_open_orders ≤ℤ b.max_open_orders
  pub chains : a.max_active_exposure_chains ≤ℤ b.max_active_exposure_chains
  pub collateral : a.max_collateral ≤ℤ b.max_collateral
  pub daily_loss : a.max_daily_loss ≤ℤ b.max_daily_loss
  pub leverage : a.max_leverage ≤ℤ b.max_leverage

or_symbols-contains :
    (t : String) (xs ys : List String)
    → (contains t xs ≡ true → contains t ys ≡ true)
    → contains t (or_symbols xs ys) ≡ true
    → contains t ys ≡ true
or_symbols-contains t [] ys h = λ e. e
or_symbols-contains t (x ∷ xs) ys h = h

intersection-contains :
    (t : String) (xs ys : List String)
    → contains t (intersection xs ys) ≡ true
    → contains t ys ≡ true
intersection-contains t [] ys = ground arith
intersection-contains t (x ∷ xs) ys =
    let h = intersection-contains t xs ys in
    elim (Bool-cases (contains x ys)) [
      | inl e ↦ rw e (λ k. elim (Bool-cases (str_eq t x)) [
        | inl same ↦ subst (λ y. contains y ys ≡ true) (sym ((eq_iff t x).0 same)) e
        | inr other ↦ h (ground arith)
      ])
      | inr e ↦ rw e h
    ]

symbols_of-contains :
    (t : String) (o : Option (List String)) (allowed : List String)
    → contains t (symbols_of false o allowed) ≡ true
    → contains t allowed ≡ true
symbols_of-contains t none allowed = λ h. h
symbols_of-contains t (some parsed) allowed =
    or_symbols-contains t _ allowed (intersection-contains t (or_symbols parsed allowed) allowed)

min_ℤ-bound : (a b : ℤ) → min_ℤ a b ≤ℤ b
min_ℤ-bound a b = ground arith

largest_single :
    (one : ℕ) (e : BinanceEnvironment)
    → (defaults one e).max_single_order_notional ≤ℤ (defaults one e).max_total_open_notional
largest_single one BinanceEnvironment.testnet = omega arith
largest_single one BinanceEnvironment.mainnet = omega arith

-- the greater of two capped amounts is within the greater cap
max_of_capped : (a b low high : ℤ) → low ≤ℤ high → max_ℤ (min_ℤ a high) (min_ℤ b low) ≤ℤ high
max_of_capped a b low high h =
    let i = min_ℤ-bound a high in
    let j = min_ℤ-bound b low in
    on_branches (λ z. z ≤ℤ high) (ltb_ℤ (min_ℤ a high) (min_ℤ b low)) (λ e. omega arith) (λ e. i)

limits_of-IsNoWider :
    (one : ℕ) (flag : Bool) (v : Variables) (e : BinanceEnvironment)
    → overrides_approved flag e ≡ false
    → IsNoWider (limits_of one flag v e) (defaults one e)
limits_of-IsNoWider one flag v e h = rw h (record {
  symbols = λ t. symbols_of-contains t v.allowed_symbols (defaults one e).allowed_symbols;
  single_order = search min_ℤ-bound;
  total_open =
      max_of_capped
        (positive_decimal v.max_total_open_notional (defaults one e).max_total_open_notional)
        (positive_decimal v.max_single_order_notional (defaults one e).max_single_order_notional)
        (defaults one e).max_single_order_notional (defaults one e).max_total_open_notional
        (largest_single one e);
  open_orders = search min_ℤ-bound;
  chains = search min_ℤ-bound;
  collateral = search min_ℤ-bound;
  daily_loss = search min_ℤ-bound;
  leverage = search min_ℤ-bound;
})

not_approved :
    (flag : Bool) (e : BinanceEnvironment)
    → is_mainnet e || not flag ≡ true
    → overrides_approved flag e ≡ false
not_approved flag e h = ground arith

abbrev IsCapped : ℕ → Bool → TestnetSafetyLimits → Type 0
IsCapped one flag l =
    overrides_approved flag l.environment ≡ false → IsNoWider l (defaults one l.environment)

-- On Mainnet whatever the environment says, and on Testnet unless overrides are approved, the limits allow
-- no more than the built-in ones: no other symbol, and no cap is higher.
pub limits-IsNoWider :
    (one : ℕ) (flag : Bool) (variables : BinanceEnvironment → Variables) (name : String)
    (l : TestnetSafetyLimits)
    → from_environment one flag variables name ≡ some l
    → is_mainnet l.environment || not flag ≡ true
    → IsNoWider l (defaults one l.environment)
unfolding from_environment
limits-IsNoWider one flag variables name l e h =
    OnSome-some (IsCapped one flag)
      (OnSome->>= (IsCapped one flag) (parse_environment name) _
        (λ e'. limits_of-IsNoWider one flag (variables e') e'))
      e (not_approved flag l.environment h)
