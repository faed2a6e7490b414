-- ===== src/Binance/Gates/Reduce.antt =====
-- What an order that reduces the risk has passed, and what every order has.
use blessing_ai.Prelude.{
  ℕ, ◌≤◌, ◌<◌, String, Bool, true, false, not, ◌&&◌, List, [], ◌∷◌, arith, ◌≡◌, inl, inr, refl, ap,
  ◌∙◌, subst, Bool-cases, In, here, there, ltb, eq_iff,
}
use blessing_ai.Prelude.Int.{ℤ, pos, negsuc, abs, ◌≤ℤ◌}
use blessing_ai.Domain.{
  ExchangePosition, EconomicRiskClass, OrderSide, PositionSide, Value, invalid, non_finite, finite,
}
use blessing_ai.Binance.Rules.{SymbolTradingRules, is_above_zero, normalize_quantity}
use blessing_ai.Binance.Gates.{allowed, Settings, is_risk_reducing}
use blessing_ai.Binance.Gates.Order.{check}
use blessing_ai.Binance.Gates.Order.Inputs.{Intent, Adapter, Answers, Options, PreparedOrder}
use blessing_ai.Binance.Gates.Order.Prepare.{
  prepare_quantity, quantity_guards, min_qty_for, max_qty_for, is_market,
}
use blessing_ai.Binance.Gates.Order.Exposure.{reducible_exposure, is_reducible, is_reduced_by}
use blessing_ai.Binance.Gates.Passed.{
  check-IsPassed, taken, both, guarded-allowed, allowed_injective,
}

-- A SELL is opposite to a positive quantity, a BUY to a negative one.
abbrev pub IsOpposite : OrderSide → ℤ → Type 0
IsOpposite OrderSide.sell q = (n : ℕ) × (q ≡ pos n) × (0 < n)
IsOpposite OrderSide.buy q = (n : ℕ) × (q ≡ negsuc n)

is_reduced_by-IsOpposite :
    (side : OrderSide) (q : ℤ) → is_reduced_by side q ≡ true → IsOpposite side q
is_reduced_by-IsOpposite OrderSide.sell (ℤ.pos n) e = (n, refl, ground arith)
is_reduced_by-IsOpposite OrderSide.sell (ℤ.negsuc n) e = ground arith
is_reduced_by-IsOpposite OrderSide.buy (ℤ.pos n) e = ground arith
is_reduced_by-IsOpposite OrderSide.buy (ℤ.negsuc n) e = (n, refl)

all_three : (a b : Bool) {c : Bool} → a && b && c ≡ true → (a ≡ true) × (c ≡ true)
all_three a b {c} e = ground arith

-- an exposure that is not zero is that of some position
reducible_position :
    (t : String) (position_side : PositionSide) (side : OrderSide) (ps : List ExchangePosition)
    → 0 < reducible_exposure t position_side side ps
    → (x : ExchangePosition) × (In x ps) × (x.symbol ≡ t) × IsOpposite side x.quantity
unfolding reducible_exposure
reducible_position t position_side side [] h = ground arith
reducible_position t position_side side (p ∷ ps) h =
    elim (Bool-cases (is_reducible t position_side side p)) [
      | inl e ↦
          let (same, opposite) = all_three _ _ e in
          (p, here, (eq_iff p.symbol t).0 same, is_reduced_by-IsOpposite side p.quantity opposite)
      | inr e ↦
          let (x, i, same, opposite) =
            reducible_position t position_side side ps (ground (arith, h, e)) in
          (x, there i, same, opposite)
    ]

pub positive_number : (z : ℤ) → not (is_above_zero z) ≡ false → (z ≡ pos (abs z)) × (0 < abs z)
positive_number (ℤ.pos n) e = (ground arith, ground arith)
positive_number (ℤ.negsuc n) e = ground arith

pub prepare_quantity-lem :
    (r : SymbolTradingRules) (market : Bool) (v : Value) (q : ℕ)
    → prepare_quantity r market v ≡ allowed q
    → (n : ℤ) × (v ≡ finite n)
      × (normalize_quantity r n market ≡ pos q)
      × (0 < q)
      × (min_qty_for r market ≤ℤ pos q)
      × (is_above_zero (max_qty_for r market) ≡ true → pos q ≤ℤ max_qty_for r market)
prepare_quantity-lem r market invalid q e = ground arith
prepare_quantity-lem r market non_finite q e = ground arith
prepare_quantity-lem r market (finite v) q e =
    let (h, f) = guarded-allowed (quantity_guards r market v (normalize_quantity r v market)) e in
    let n = normalize_quantity r v market in
    let (whole, above) = positive_number n h.1.0 in
    let q_eq : abs n ≡ q = allowed_injective f in
    let n_eq : n ≡ pos q = whole ∙ ap pos q_eq in
    (
      v,
      refl,
      n_eq,
      subst (λ k. 0 < k) q_eq above,
      ground (arith, h.1.1.0, n_eq),
      λ e'. ground (arith, h.1.1.1.0, n_eq, e'),
    )

at_most : {n q : ℕ} → ltb n q ≡ false → q ≤ n
at_most e = ground arith

-- A reduction passes only as a reduce-only order, if that is required, and a reduce-only reduction only if its quantity
-- is at most the exposure that its side reduces, so that there is a position of the symbol on
-- the other side.
pub reduction_only_reduces :
    (one : ℕ) (c : Settings) (a : Adapter) (i : Intent) (w : Answers) (o : Options)
    (risk : EconomicRiskClass) (p : PreparedOrder)
    → check one c a i w o risk ≡ allowed p
    → is_risk_reducing risk ≡ true
    → (o.require_reduce_only_for_risk_reduction ≡ true → i.reduce_only ≡ true)
      × (i.reduce_only ≡ true
          → (0 < p.quantity)
            × (p.quantity ≤ reducible_exposure i.symbol i.position_side i.side a.positions)
            × ((x : ExchangePosition) × (In x a.positions)
                × (x.symbol ≡ i.symbol)
                × IsOpposite i.side x.quantity))
reduction_only_reduces one c a i w o risk p e down =
    let s = check-IsPassed one c a i w o risk e in
    let (v, _, _, above, _, _) =
      prepare_quantity-lem s.rules (is_market i.order_type) i.quantity p.quantity s.quantified in
    (
      λ required. ground (arith, s.notional_pass.1.1.1.0, required, down),
      λ only.
          let held = taken _ _ (both only down) s.reduction_pass in
          let bound : p.quantity ≤ reducible_exposure i.symbol i.position_side i.side a.positions =
            at_most held.0 in
          (
            above,
            bound,
            reducible_position i.symbol i.position_side i.side a.positions
                (ground (arith, above, bound)),
          ),
    )
