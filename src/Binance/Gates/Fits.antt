-- ===== src/Binance/Gates/Fits.antt =====
-- The order that the gate prepares, and the exchange's rules.
use blessing_ai.Prelude.{
  ℕ, ◌*◌, ◌≤◌, ◌<◌, Bool, true, false, not, ◌&&◌, Option, none, some, arith, ◌≡◌, refl, ap, ◌∙◌,
  sym, subst, if◌then◌else◌, ltb,
}
use blessing_ai.Prelude.Dict.{get}
use blessing_ai.Prelude.Int.{ℤ, pos, abs, ◌≤ℤ◌}
use blessing_ai.Domain.{EconomicRiskClass, Value, invalid, non_finite, finite, is_buy}
use blessing_ai.Binance.Rules.{
  SymbolTradingRules, is_above_zero, is_ready_for, contains, normalize_quantity, normalize_price,
  min_notional_for, max_notional_for, validate_percent_price,
}
use blessing_ai.Binance.Gates.{allowed, Settings}
use blessing_ai.Binance.Gates.Order.{check, value_guards, notional_of}
use blessing_ai.Binance.Gates.Order.Inputs.{Intent, Adapter, Answers, Options, PreparedOrder}
use blessing_ai.Binance.Gates.Order.Prepare.{
  ready_rules, ready_guards, limit_guards, percent_guards, min_qty_for, max_qty_for, is_market,
  is_limit, type_text, limit_price, prepare_limit, reference_price,
}
use blessing_ai.Binance.Gates.Passed.{
  check-IsPassed, guarded-allowed, >>=-allowed, allowed_injective, granted, neither,
}
use blessing_ai.Binance.Gates.Reduce.{prepare_quantity-lem, positive_number}

-- An order that the exchange's rules admit.
pub record FitsRules (one : ℕ) (i : Intent) (w : Answers) (r : SymbolTradingRules)
    (p : PreparedOrder) : Type 0 where
  pub ready : is_ready_for (type_text i.order_type) r ≡ true
  pub quantity :
      (v : ℤ) × (i.quantity ≡ finite v)
      × (normalize_quantity r v (is_market i.order_type) ≡ pos p.quantity)
  pub not_zero : 0 < p.quantity
  pub not_low : min_qty_for r (is_market i.order_type) ≤ℤ pos p.quantity
  pub not_high :
      is_above_zero (max_qty_for r (is_market i.order_type)) ≡ true
      → pos p.quantity ≤ℤ max_qty_for r (is_market i.order_type)
  pub notional : p.notional ≡ p.quantity * p.estimated_price
  pub notional_low :
      (m : ℕ) → min_notional_for (is_market i.order_type) r ≡ pos m → one * m ≤ p.notional
  pub notional_high :
      (m : ℕ) → max_notional_for (is_market i.order_type) r ≡ pos m → 0 < m → p.notional ≤ one * m
  pub limit :
      is_limit i.order_type ≡ true
      → (p.price ≡ some p.estimated_price)
        × ((v : ℤ) × (i.price ≡ some (finite v))
            × (normalize_price r v (not (is_buy i.side)) ≡ pos p.estimated_price))
        × (validate_percent_price one r p.estimated_price i.side (reference_price r w) ≡ true)

ready_rules-lem :
    (i : Intent) (o : Option SymbolTradingRules) (r : SymbolTradingRules)
    → ready_rules i o ≡ allowed r
    → (o ≡ some r) × (is_ready_for (type_text i.order_type) r ≡ true)
ready_rules-lem i none r e = ground arith
ready_rules-lem i (some r') r e =
    let (h, f) = guarded-allowed (ready_guards i r') e in
    let same : r' ≡ r = allowed_injective f in
    (ap some same, subst (λ x. is_ready_for (type_text i.order_type) x ≡ true) same (granted h.0))

notional_of-lem :
    (q : ℕ) (v : Value) (n k : ℕ)
    → notional_of q v ≡ allowed (n, k)
    → (v ≡ finite (pos n)) × (k ≡ q * n)
notional_of-lem q invalid n k e = ground arith
notional_of-lem q non_finite n k e = ground arith
notional_of-lem q (finite v) n k e =
    let (h, f) = guarded-allowed (value_guards q v) e in
    let same : (abs v, q * abs v) ≡ (n, k) = allowed_injective f in
    let whole = (positive_number v (neither h.0).1).0 in
    let priced : abs v ≡ n = ap (λ x. x.0) same in
    (ap finite (whole ∙ ap pos priced), sym (ap (λ x. x.1) same) ∙ ap (λ x. q * x) priced)

limit_price-lem :
    (r : SymbolTradingRules) (sells : Bool) (o : Option Value) (n : ℕ)
    → limit_price r sells o ≡ allowed n
    → (v : ℤ) × (o ≡ some (finite v)) × (normalize_price r v sells ≡ pos n)
limit_price-lem r sells none n e = ground arith
limit_price-lem r sells (some invalid) n e = ground arith
limit_price-lem r sells (some non_finite) n e = ground arith
limit_price-lem r sells (some (finite v)) n e =
    let p = normalize_price r v sells in
    let (h, f) = guarded-allowed (limit_guards r p) e in
    (v, refl, (positive_number p h.0).0 ∙ ap pos (allowed_injective f))

prepare_limit-lem :
    (one : ℕ) (r : SymbolTradingRules) (i : Intent) (w : Answers) (x : Option ℕ × Value)
    → prepare_limit one r i w ≡ allowed x
    → (n : ℕ) × (x ≡ (some n, finite (pos n)))
      × ((v : ℤ) × (i.price ≡ some (finite v))
          × (normalize_price r v (not (is_buy i.side)) ≡ pos n))
      × (validate_percent_price one r n i.side (reference_price r w) ≡ true)
prepare_limit-lem one r i w x e =
    let (n, f, g) = >>=-allowed (limit_price r (not (is_buy i.side)) i.price) _ e in
    let (h, k) = guarded-allowed (percent_guards one r i w n) g in
    (n, sym (allowed_injective k), limit_price-lem r (not (is_buy i.side)) i.price n f, granted h.0)

least :
    (one n m : ℕ) (l : ℤ) → is_above_zero l && ltb n (one * abs l) ≡ false → l ≡ pos m → one * m ≤ n
least one n m l e f =
    let g = subst (λ z. is_above_zero z && ltb n (one * abs z) ≡ false) f e in grind arith

most :
    (one n m : ℕ) (l : ℤ)
    → is_above_zero l && ltb (one * abs l) n ≡ false
    → l ≡ pos m
    → 0 < m
    → n ≤ one * m
most one n m l e f h =
    let g = subst (λ z. is_above_zero z && ltb (one * abs z) n ≡ false) f e in grind arith

-- the number that a value is, if it is one
abbrev number_of : Value → ℕ
number_of (finite (ℤ.pos n)) = n
number_of _ = 0

then_branch {ℓ} :
    {A : Type ℓ} {b : Bool} {x z : A} (y : A) → b ≡ true → (if b then x else y) ≡ z → x ≡ z
then_branch {b = true} y e h = h
then_branch {b = false} y e h = ground arith

limit_lem :
    (one : ℕ) (r : SymbolTradingRules) (i : Intent) (w : Answers) (p : PreparedOrder)
    (x : Option ℕ × Value)
    → prepare_limit one r i w ≡ allowed x
    → p.price ≡ x.0
    → x.1 ≡ finite (pos p.estimated_price)
    → (p.price ≡ some p.estimated_price)
      × ((v : ℤ) × (i.price ≡ some (finite v))
          × (normalize_price r v (not (is_buy i.side)) ≡ pos p.estimated_price))
      × (validate_percent_price one r p.estimated_price i.side (reference_price r w) ≡ true)
limit_lem one r i w p x e price worth =
    let (n, x_eq, given, within) = prepare_limit-lem one r i w x e in
    let n_eq : n ≡ p.estimated_price = ap number_of (sym (ap (λ y. y.1) x_eq) ∙ worth) in
    (
      price ∙ ap (λ y. y.0) x_eq ∙ ap some n_eq,
      subst
          (λ k.
            (v : ℤ) × (i.price ≡ some (finite v))
            × (normalize_price r v (not (is_buy i.side)) ≡ pos k))
          n_eq given,
      subst (λ k. validate_percent_price one r k i.side (reference_price r w) ≡ true) n_eq within,
    )

-- What passes is ready to be sent by the exchange's rules: the symbol is allowed and its rules are there, the
-- quantity is the intent's, cut to the step, and in the limits, a LIMIT price is the intent's, on the tick and within the
-- percent-price filters, and the notional is their product and within its limits.
pub prepared_order-FitsRules :
    (one : ℕ) (c : Settings) (a : Adapter) (i : Intent) (w : Answers) (o : Options)
    (risk : EconomicRiskClass) (p : PreparedOrder)
    → check one c a i w o risk ≡ allowed p
    → (contains p.symbol a.safety_limits.allowed_symbols ≡ true)
      × (r : SymbolTradingRules) × (get p.symbol a.symbol_rules ≡ some r)
      × FitsRules one i w r p
prepared_order-FitsRules one c a i w o risk p e =
    let s = check-IsPassed one c a i w o risk e in
    let r = s.rules in
    let (found, ready) = ready_rules-lem i (get i.symbol a.symbol_rules) r s.found in
    let (v, given, cut, not_zero, not_low, not_high) =
      prepare_quantity-lem r (is_market i.order_type) i.quantity p.quantity s.quantified in
    let (worth, product) =
      notional_of-lem p.quantity s.estimate.1 p.estimated_price p.notional s.valued in
    (
      subst (λ t. contains t a.safety_limits.allowed_symbols ≡ true) (sym s.same_symbol)
          (granted s.intent_pass.0),
      r,
      subst (λ t. get t a.symbol_rules ≡ some r) (sym s.same_symbol) found,
      record {
        ready = ready;
        quantity = (v, given, cut);
        not_zero = not_zero;
        not_low = not_low;
        not_high = not_high;
        notional = product;
        notional_low = λ m e'. least one p.notional m _ s.notional_pass.0 e';
        notional_high = λ m e' h. most one p.notional m _ s.notional_pass.1.0 e' h;
        limit =
            λ e'. limit_lem one r i w p s.estimate (then_branch _ e' s.priced) s.same_price worth;
      },
    )
