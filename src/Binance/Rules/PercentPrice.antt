-- ===== src/Binance/Rules/PercentPrice.antt =====
-- The percent-price filters, which bind an order's price to the mark price.
use blessing_ai.Prelude.{
  ℕ, true, ◌||◌, not, Option, some, arith, ◌≡◌, ◌↔◌, ◌*◌, ◌≤◌, if◌then◌else◌, ltb, refl, Bool-cases,
  inl, inr,
}
use blessing_ai.Prelude.Int.{ℤ, abs}
use blessing_ai.Domain.{OrderSide, finite, is_buy}
use blessing_ai.Binance.Rules.{
  SymbolTradingRules, has_seen, percent_price_rules_ready, validate_percent_price, factor,
  is_above_zero,
}

-- a price, times `one`, between the two multiples of the reference
abbrev IsWithin : ℕ → ℤ → Option ℤ → Option ℤ → Type 0
IsWithin scaled m down up = (abs m * factor down ≤ scaled) × (scaled ≤ abs m * factor up)

narrowed :
    (scaled l₁ u₁ l₂ u₂ : ℕ)
    → (not (
          ltb scaled
            (if ltb (if ltb 0 l₁ then l₁ else 0) l₂ then l₂ else (if ltb 0 l₁ then l₁ else 0))
          || ltb (if ltb u₂ u₁ then u₂ else u₁) scaled)
        ≡ true)
      ↔ (((l₁ ≤ scaled) × (scaled ≤ u₁)) × ((l₂ ≤ scaled) × (scaled ≤ u₂)))
narrowed scaled l₁ u₁ l₂ u₂ = ground arith

given_both {ℓ κ ι} :
    {A : Type ℓ} {B : Type κ} {C : Type ι}
    → A ↔ (B × C)
    → A ↔ ((true ≡ true → B) × (true ≡ true → C))
given_both h = ((λ a. ((λ e. (h.0 a).0), (λ e. (h.0 a).1))), (λ p. h.1 (p.0 refl, p.1 refl)))

-- Where the rules are ready and the reference price is positive, a price passes if and only if it lies between
-- the multiples of the reference that each of the symbol's percent-price filters names, the filter by
-- side with the multipliers of the order's side.
pub validate_percent_price_lem :
    (one : ℕ) (r : SymbolTradingRules) (price : ℕ) (side : OrderSide) (m : ℤ)
    → percent_price_rules_ready r ≡ true
    → is_above_zero m ≡ true
    → (validate_percent_price one r price side (some (finite m)) ≡ true) ↔ (
        (has_seen "PERCENT_PRICE" r ≡ true
          → IsWithin (one * price) m r.multiplier_down r.multiplier_up)
        × (has_seen "PERCENT_PRICE_BY_SIDE" r ≡ true
            → IsWithin
                (one * price)
                m
                (if is_buy side then r.bid_multiplier_down else r.ask_multiplier_down)
                (if is_buy side then r.bid_multiplier_up else r.ask_multiplier_up)))
unfolding validate_percent_price
validate_percent_price_lem one r price side m ready h =
    let down = if is_buy side then r.bid_multiplier_down else r.ask_multiplier_down in
    let up = if is_buy side then r.bid_multiplier_up else r.ask_multiplier_up in
    elim (Bool-cases (has_seen "PERCENT_PRICE" r)) [
      | inl e ↦ elim (Bool-cases (has_seen "PERCENT_PRICE_BY_SIDE" r)) [
        | inl e' ↦
            rw (e, e', ready, h)
              (given_both {B = IsWithin (one * price) m r.multiplier_down r.multiplier_up}
                {C = IsWithin (one * price) m down up}
                (narrowed (one * price) (abs m * factor r.multiplier_down)
                  (abs m * factor r.multiplier_up) (abs m * factor down) (abs m * factor up)))
        | inr e' ↦ rw (e, e', ready, h) (ground arith)
      ]
      | inr e ↦ elim (Bool-cases (has_seen "PERCENT_PRICE_BY_SIDE" r)) [
        | inl e' ↦ rw (e, e', ready, h) (ground arith)
        | inr e' ↦ rw (e, e') (ground arith)
      ]
    ]
