-- ===== src/Binance/Gates/Passed.antt =====
-- What it takes for a check of guards to pass: every guard's condition is false, and every step succeeds.
use blessing_ai.Prelude.{
  ℕ, Bool, true, false, not, ◌||◌, ◌&&◌, is_some, none, some, if◌then◌else◌, Option, [], ◌∷◌, arith,
  ◌≡◌, refl, All, ap, subst,
}
use blessing_ai.Domain.{EconomicRiskClass, Value}
use blessing_ai.Binance.Rules.{SymbolTradingRules}
use blessing_ai.Binance.Gates.{GateResult, refused, allowed, Guards, guarded, ◌>>=◌, Settings}
use blessing_ai.Binance.Gates.Order.{
  check, route_guards, account_guards, market_guards, notional_of, notional_guards,
  reduction_guards, exposure_guards, order_of,
}
use blessing_ai.Binance.Gates.Order.Inputs.{Intent, Adapter, Answers, Options, PreparedOrder}
use blessing_ai.Binance.Gates.Order.Prepare.{
  intent_guards, rules_for, mode_guards, prepare_quantity, prepare_price, is_market,
}

abbrev pub AllPass : Guards → Type 0
AllPass gs = All (λ g. g.0 ≡ false) gs

pub guarded-allowed {ℓ} :
    {A : Type ℓ} (gs : Guards) {r : GateResult A} {a : A}
    → guarded gs r ≡ allowed a
    → AllPass gs × (r ≡ allowed a)
guarded-allowed [] e = (tt, e)
guarded-allowed ((true, reason) ∷ gs) e = ground arith
guarded-allowed ((false, reason) ∷ gs) e = let (h, k) = guarded-allowed gs e in ((refl, h), k)

pub >>=-allowed {ℓ κ} :
    {A : Type ℓ} {B : Type κ} (m : GateResult A) (f : A → GateResult B) {b : B}
    → (m >>= f) ≡ allowed b
    → (a : A) × (m ≡ allowed a) × (f a ≡ allowed b)
>>=-allowed (refused reason) f e = ground arith
>>=-allowed (allowed a) f e = (a, refl, e)

-- The value that was allowed, or another.
abbrev allowed_or {ℓ} : {A : Type ℓ} → A → GateResult A → A
allowed_or a (refused reason) = a
allowed_or a (allowed b) = b

pub allowed_injective {ℓ} : {A : Type ℓ} {a b : A} → allowed a ≡ allowed b → a ≡ b
allowed_injective {a = a} e = ap (allowed_or a) e

-- The steps of an order that passed.
pub record IsPassed (one : ℕ) (c : Settings) (a : Adapter) (i : Intent) (w : Answers) (o : Options)
    (risk : EconomicRiskClass) (p : PreparedOrder) : Type 0 where
  pub rules : SymbolTradingRules
  pub estimate : Option ℕ × Value
  pub route_pass : AllPass (route_guards c a w o risk)
  pub account_pass : AllPass (account_guards one c a o risk)
  pub intent_pass : AllPass (intent_guards a i)
  pub found : rules_for a i ≡ allowed rules
  pub mode_pass : AllPass (mode_guards a i)
  pub quantified : prepare_quantity rules (is_market i.order_type) i.quantity ≡ allowed p.quantity
  pub priced : prepare_price one rules i w ≡ allowed estimate
  pub market_pass : AllPass (market_guards c a i w o risk p.quantity)
  pub valued : notional_of p.quantity estimate.1 ≡ allowed (p.estimated_price, p.notional)
  pub notional_pass : AllPass (notional_guards one rules i o risk p.notional)
  pub reduction_pass : AllPass (reduction_guards a i risk p.quantity)
  pub exposure_pass : AllPass (exposure_guards one a i o risk p.notional)
  pub same_symbol : p.symbol ≡ i.symbol
  pub same_price : p.price ≡ estimate.0

pub check-IsPassed :
    (one : ℕ) (c : Settings) (a : Adapter) (i : Intent) (w : Answers) (o : Options)
    (risk : EconomicRiskClass) {p : PreparedOrder}
    → check one c a i w o risk ≡ allowed p
    → IsPassed one c a i w o risk p
unfolding check
check-IsPassed one c a i w o risk {p} e =
    let (route, e₁) = guarded-allowed (route_guards c a w o risk) e in
    let (account, e₂) = guarded-allowed (account_guards one c a o risk) e₁ in
    let (intent, e₃) = guarded-allowed (intent_guards a i) e₂ in
    let (r, found, e₄) = >>=-allowed (rules_for a i) _ e₃ in
    let (mode, e₅) = guarded-allowed (mode_guards a i) e₄ in
    let (q, quantified, e₆) =
      >>=-allowed (prepare_quantity r (is_market i.order_type) i.quantity) _ e₅ in
    let (est, priced, e₇) =
      >>=-allowed (prepare_price one r i w) (order_of one c a i w o risk r q) e₆ in
    let (market, e₈) = guarded-allowed (market_guards c a i w o risk q) e₇ in
    let (n, valued, e₉) = >>=-allowed (notional_of q est.1) _ e₈ in
    let (notional, f₁) = guarded-allowed (notional_guards one r i o risk n.1) e₉ in
    let (reduction, f₂) = guarded-allowed (reduction_guards a i risk q) f₁ in
    let (exposure, f₃) = guarded-allowed (exposure_guards one a i o risk n.1) f₂ in
    subst (IsPassed one c a i w o risk) (allowed_injective f₃) (record {
      rules = r;
      estimate = est;
      route_pass = route;
      account_pass = account;
      intent_pass = intent;
      found = found;
      mode_pass = mode;
      quantified = quantified;
      priced = priced;
      market_pass = market;
      valued = valued;
      notional_pass = notional;
      reduction_pass = reduction;
      exposure_pass = exposure;
      same_symbol = refl;
      same_price = refl;
    })

-- the guards of a branch that is taken
pub taken : {b : Bool} (gs hs : Guards) → b ≡ true → AllPass (if b then gs else hs) → AllPass gs
taken {b = true} gs hs e h = h
taken {b = false} gs hs e h = ground arith

pub is_known {ℓ} : {A : Type ℓ} (x : Option A) → not (is_some x) ≡ false → (a : A) × (x ≡ some a)
is_known none e = ground arith
is_known (some a) e = (a, refl)

pub both : {a b : Bool} → a ≡ true → b ≡ true → a && b ≡ true
both e f = rw (e, f) refl

pub neither : {a b : Bool} → a || b ≡ false → (a ≡ false) × (b ≡ false)
neither {a} {b} e = ground arith

pub granted : {b : Bool} → not b ≡ false → b ≡ true
granted {b} e = ground arith
