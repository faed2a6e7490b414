-- ===== src/Governor/Risk.antt =====
-- What the governor lets through, and what it never stops.
use blessing_ai.Prelude.{
  ℕ, zero, suc, ◌+◌, ◌≤◌, ◌<◌, ◌≡◌, ap, ◌⊎◌, inl, inr, refl, true, false, Option, none, some, [],
  ◌∷◌, arith, Bool-cases, ◌==◌, if◌then◌else◌,
}
use blessing_ai.Prelude.Int.{ℤ, pos, negsuc, abs, ◌+ℤ◌, ltb_ℤ, neg}
use blessing_ai.Domain.{
  is_invalid, is_finite, invalid, non_finite, not_datetime, naive, OrderSide, RiskState,
  EconomicRiskClass, Value, Timestamp, TargetExposure, RiskSnapshot, finite, amount, aware,
}
use blessing_ai.Governor.{
  decide, rejected, too_small, order_intent, later_reason, new_risk_reason, judge, order, Verdict,
  evaluate, order_decision, decided, submit_order, ExecutionDecision, OrderIntent, unless, Reason,
  expiry_reason, or_reason, unknown_reason, state_reason, limit_reason, field_reason, rejection,
  classify_risk, is_position_reduction, reduces, is_risk_off, is_positive, Governor,
}

-- The order takes the position towards zero, and not past it.
abbrev pub IsReduction : ℤ → ℤ → Type 0
IsReduction delta qty = (abs (qty +ℤ delta) + abs delta ≡ abs qty)

-- The order takes the position away from zero, on its side.
abbrev pub IsIncrease : ℤ → ℤ → Type 0
IsIncrease delta qty = abs (qty +ℤ delta) ≡ abs qty + abs delta

classify_risk-IsReduction :
    (delta qty : ℤ) {c : EconomicRiskClass}
    → classify_risk delta qty ≡ some c
    → reduces c ≡ true
    → (is_position_reduction delta qty ≡ true) × IsReduction delta qty
unfolding classify_risk is_position_reduction ◌+ℤ◌
classify_risk-IsReduction (pos d) (pos q) h k = ground arith
classify_risk-IsReduction (pos d) (negsuc q) h k = ground arith
classify_risk-IsReduction (negsuc d) (pos q) h k = ground arith
classify_risk-IsReduction (negsuc d) (negsuc q) h k = ground arith

classify_risk-IsIncrease :
    (delta qty : ℤ) {c : EconomicRiskClass}
    → classify_risk delta qty ≡ some c
    → reduces c ≡ false
    → (is_position_reduction delta qty ≡ false) × IsIncrease delta qty
unfolding classify_risk is_position_reduction ◌+ℤ◌
classify_risk-IsIncrease (pos d) (pos q) h k = ground arith
classify_risk-IsIncrease (pos d) (negsuc q) h k = ground arith
classify_risk-IsIncrease (negsuc d) (pos q) h k = ground arith
classify_risk-IsIncrease (negsuc d) (negsuc q) h k = ground arith

-- A reduction that leaves nothing is a close.
abbrev pub reduction_class : ℤ → ℤ → EconomicRiskClass
reduction_class delta qty =
    if abs delta == abs qty then EconomicRiskClass.close else EconomicRiskClass.reduce_risk

reduction_classified :
    (delta qty : ℤ)
    → IsReduction delta qty
    → 0 < abs delta
    → (is_position_reduction delta qty ≡ true)
      × (classify_risk delta qty ≡ some (reduction_class delta qty))
unfolding classify_risk is_position_reduction ◌+ℤ◌
reduction_classified (pos d) (pos q) h k = ground arith
reduction_classified (pos d) (negsuc q) h k = ground arith
reduction_classified (negsuc d) (pos q) h k = ground arith
reduction_classified (negsuc d) (negsuc q) h k = ground arith

-- What an order does to the position once it is filled: a BUY adds its quantity, a SELL takes it.
abbrev pub traded_on : OrderSide → ℕ → ℤ
traded_on OrderSide.buy n = pos n
traded_on OrderSide.sell n = neg (pos n)

abbrev pub traded : OrderIntent → ℤ
traded o = traded_on o.side o.quantity

traded-delta :
    (delta : ℤ)
    → traded_on (if is_positive delta then OrderSide.buy else OrderSide.sell) (abs delta) ≡ delta
unfolding neg
traded-delta (pos zero) = ground arith
traded-delta (pos (suc n)) = ground arith
traded-delta (negsuc n) = ground arith

-- The inputs are numbers and the target has not expired.
pub record IsWellFormed (target : TargetExposure) (s : RiskSnapshot) (qty : Value) (now : ℕ)
    : Type 0 where
  pub delta_finite : target.target_net_delta_qty ≡ finite (amount target.target_net_delta_qty)
  pub qty_finite : qty ≡ finite (amount qty)
  pub deadline : ℕ
  pub expires : target.expires_at ≡ aware deadline
  pub current : now < deadline
  pub fields : field_reason s ≡ none

-- The snapshot does not stand against new risk: its state is known and is not one of the states
-- that stop new risk, and its drawdown, leverage and margin utilisation are below their limits.
pub record IsWithinLimits (g : Governor) (s : RiskSnapshot) : Type 0 where
  pub state : RiskState
  pub known : s.risk_state ≡ some state
  pub risk_on : is_risk_off state ≡ false
  pub drawdown : ltb_ℤ (amount s.current_drawdown_pct) g.max_drawdown_pct ≡ true
  pub leverage : ltb_ℤ (amount s.effective_leverage) g.max_leverage ≡ true
  pub margin : ltb_ℤ (amount s.margin_utilization_pct) g.max_margin_utilization_pct ≡ true

value_finite : (v : Value) → is_invalid v ≡ false → is_finite v ≡ true → v ≡ finite (amount v)
value_finite invalid h k = cc
value_finite non_finite h k = cc
value_finite (finite n) h k = refl

expiry_current :
    (e : Timestamp) (now : ℕ) → expiry_reason e now ≡ none → (t : ℕ) × (e ≡ aware t) × (now < t)
expiry_current not_datetime now h = cc
expiry_current naive now h = cc
expiry_current (aware t) now h = (t, refl, ground arith)

or_reason-none : (a b : Option Reason) → or_reason a b ≡ none → (a ≡ none) × (b ≡ none)
or_reason-none none b h = (refl, h)
or_reason-none (some r) b h = cc

limits_kept :
    (g : Governor) (s : RiskSnapshot) (o : Option RiskState)
    → s.risk_state ≡ o
    → unknown_reason o ≡ none
    → state_reason o ≡ none
    → limit_reason g s ≡ none
    → IsWithinLimits g s
limits_kept g s none e h k l = cc
limits_kept g s (some r) e h k l = record {
  state = r;
  known = e;
  risk_on = ground arith;
  drawdown = ground arith;
  leverage = ground arith;
  margin = ground arith;
}

module _ (g : Governor) (target : TargetExposure) (s : RiskSnapshot) (qty : Value) (now : ℕ) where
  no_rejection :
      rejection g target s qty now ≡ none
      → IsWellFormed target s qty now
        × (is_position_reduction (amount target.target_net_delta_qty) (amount qty) ≡ false
            → IsWithinLimits g s)
  unfolding rejection later_reason
  no_rejection h =
      let v = target.target_net_delta_qty in
      let a : is_invalid v ≡ false = ground arith in
      let b : is_invalid qty ≡ false = ground arith in
      let c : is_finite v ≡ true = ground arith in
      let d : is_finite qty ≡ true = ground arith in
      let reducing = is_position_reduction (amount v) (amount qty) in
      let rest : later_reason g target s reducing now ≡ none = ground arith in
      let (e, rest') = or_reason-none (expiry_reason target.expires_at now) _ rest in
      let (u, rest'') = or_reason-none (unless reducing (unknown_reason s.risk_state)) _ rest' in
      let (f, l) = or_reason-none (field_reason s) (unless reducing (new_risk_reason g s)) rest'' in
      let (t, at_t, lt) = expiry_current target.expires_at now e in
      (
        record {
          delta_finite = value_finite v a c;
          qty_finite = value_finite qty b d;
          deadline = t;
          expires = at_t;
          current = lt;
          fields = f;
        },
        λ n.
            let k = or_reason-none (state_reason s.risk_state) (limit_reason g s) (rw n at l) in
            limits_kept g s s.risk_state refl (rw n at u) k.0 k.1,
      )

  -- What an order of `judge` stands for.
  judge_order :
      (thousandth : ℕ) {c : EconomicRiskClass}
      → judge thousandth g target s qty now ≡ order c
      → (rejection g target s qty now ≡ none)
        × (thousandth ≤ abs (amount target.target_net_delta_qty))
        × (classify_risk (amount target.target_net_delta_qty) (amount qty) ≡ some c)
  unfolding judge
  judge_order thousandth h = ground arith

  judge_reduction :
      (thousandth : ℕ)
      → IsWellFormed target s qty now
      → IsReduction (amount target.target_net_delta_qty) (amount qty)
      → 0 < thousandth
      → thousandth ≤ abs (amount target.target_net_delta_qty)
      → judge thousandth g target s qty now
        ≡ order (reduction_class (amount target.target_net_delta_qty) (amount qty))
  unfolding judge rejection later_reason
  judge_reduction thousandth w r z le =
      let v = target.target_net_delta_qty in
      let k = reduction_classified (amount v) (amount qty) r (omega arith) in
      let a : is_invalid v ≡ false = ground arith in
      let b : is_invalid qty ≡ false = ground arith in
      let c : is_finite v ≡ true = ground arith in
      let d : is_finite qty ≡ true = ground arith in
      let e : expiry_reason target.expires_at now ≡ none = ground arith in
      let none_later : later_reason g target s true now ≡ none =
        rw (later_reason, e, w.fields) refl in
      let clear : rejection g target s qty now ≡ none =
        rw (rejection, a, b, c, d, k.0, none_later) refl in
      rw (judge, clear) (ground (arith, k.1))

-- A decision to submit comes from an order of `judge`.
decide_order :
    (g : Governor) (target : TargetExposure) (qty : Value) (v : Verdict) (now : ℕ)
    (later : Timestamp) {d : ExecutionDecision}
    → (decide g target qty v now later).0 ≡ decided d
    → d.action ≡ submit_order
    → (c : EconomicRiskClass) × (v ≡ order c)
      × (d ≡ order_decision g target c (amount target.target_net_delta_qty) (amount qty) now)
decide_order g target qty (rejected r) now not_datetime h k = cc
decide_order g target qty (rejected r) now naive h k = cc
decide_order g target qty (rejected r) now (aware t) h k = ground arith
decide_order g target qty too_small now later h k = ground arith
decide_order g target qty (order c) now later h k = (c, refl, cc)

order_direction :
    (g : Governor) (s : RiskSnapshot) (delta qty : ℤ) (c : EconomicRiskClass)
    → classify_risk delta qty ≡ some c
    → (is_position_reduction delta qty ≡ false → IsWithinLimits g s)
    → ((reduces c ≡ true) × IsReduction delta qty)
      ⊎ ((reduces c ≡ false) × IsIncrease delta qty × IsWithinLimits g s)
order_direction g s delta qty c h l = elim (Bool-cases (reduces c)) [
  | inl e ↦ inl (e, (classify_risk-IsReduction delta qty h e).1)
  | inr e ↦ let (off, away) = classify_risk-IsIncrease delta qty h e in inr (e, away, l off)
]

-- If `evaluate` decides to submit an order, then the clock gave a time, the inputs are numbers, the
-- snapshot's fields are not negative and the target has not expired; the decision holds one order, of
-- the target's symbol, of at least 0.001, whose side and quantity trade the target's whole delta; and
-- either the order is marked `reduce_only` and takes the position towards zero, not past it, or it is
-- not marked, takes the position away from zero, and the snapshot does not stand against new risk.
pub submitted_order_lem :
    (thousandth : ℕ) (g : Governor) (target : TargetExposure) (s : RiskSnapshot) (qty : Value)
    (first later : Timestamp) {d : ExecutionDecision}
    → (evaluate thousandth g target s qty first later).0 ≡ decided d
    → d.action ≡ submit_order
    → let delta = amount target.target_net_delta_qty in
      (now : ℕ) × (o : OrderIntent) × (first ≡ aware now)
      × IsWellFormed target s qty now
      × (d.orders ≡ o ∷ [])
      × (o.symbol ≡ target.symbol)
      × (traded o ≡ delta)
      × (o.quantity ≡ abs delta)
      × (thousandth ≤ o.quantity)
      × (((o.reduce_only ≡ true) × IsReduction delta (amount qty))
          ⊎ ((o.reduce_only ≡ false) × IsIncrease delta (amount qty) × IsWithinLimits g s))
unfolding evaluate
submitted_order_lem thousandth g target s qty not_datetime later h k = cc
submitted_order_lem thousandth g target s qty naive later h k = cc
submitted_order_lem thousandth g target s qty (aware now) later h k =
    let delta = amount target.target_net_delta_qty in
    let (c, e, same) =
      decide_order g target qty (judge thousandth g target s qty now) now later h k in
    let (clear, large, kind) = judge_order g target s qty now thousandth e in
    let (formed, limits) = no_rejection g target s qty now clear in
    (
      now,
      order_intent g target c delta (amount qty) now,
      refl,
      formed,
      ap (λ x. x.orders) same,
      refl,
      traded-delta delta,
      refl,
      large,
      order_direction g s delta (amount qty) c kind limits,
    )

-- The decision is to submit one order, of the target's symbol, that is marked `reduce_only`, and whose
-- side and quantity trade a delta.
pub record Submits (d : ExecutionDecision) (target : TargetExposure) (delta : ℤ) : Type 0 where
  pub order : OrderIntent
  pub submitted : d.action ≡ submit_order
  pub only : d.orders ≡ order ∷ []
  pub same_symbol : order.symbol ≡ target.symbol
  pub trades : traded order ≡ delta
  pub whole : order.quantity ≡ abs delta
  pub reducing : order.reduce_only ≡ true

-- A reduction is never stopped: for well-formed inputs whose delta, of at least 0.001, takes the
-- position towards zero and not past it, `evaluate` decides to submit one order of the symbol, marked
-- `reduce_only`, whose side and quantity trade the whole delta, whatever the risk state, known or not,
-- and the limits.
pub reduction_submitted :
    (thousandth now : ℕ) (g : Governor) (target : TargetExposure) (s : RiskSnapshot) (qty : Value)
    (later : Timestamp)
    → IsWellFormed target s qty now
    → IsReduction (amount target.target_net_delta_qty) (amount qty)
    → 0 < thousandth
    → thousandth ≤ abs (amount target.target_net_delta_qty)
    → (d : ExecutionDecision) × ((evaluate thousandth g target s qty (aware now) later).0
        ≡ decided d)
      × Submits d target (amount target.target_net_delta_qty)
unfolding evaluate
reduction_submitted thousandth now g target s qty later w r z le =
    let delta = amount target.target_net_delta_qty in
    let c = reduction_class delta (amount qty) in
    (
      order_decision g target c delta (amount qty) now,
      rw (judge_reduction g target s qty now thousandth w r z le) refl,
      record {
        order = order_intent g target c delta (amount qty) now;
        submitted = refl;
        only = refl;
        same_symbol = refl;
        trades = traded-delta delta;
        whole = refl;
        reducing = ground arith;
      },
    )
