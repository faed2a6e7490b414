-- ===== src/Recovery/Orders.antt =====
-- The recovery engine in front of the risk governor, as the worker calls them.
use blessing_ai.Prelude.{ℕ, ◌≤◌, ◌<◌, ◌≡◌, refl, arith, true, [], ◌∷◌, inl, inr}
use blessing_ai.Prelude.Int.{ℤ, pos, abs, ◌+ℤ◌, neg, ◌≤ℤ◌}
use blessing_ai.Domain.{TargetExposure, RiskSnapshot, Timestamp, finite, amount, aware}
use blessing_ai.Governor.{Governor, ExecutionDecision, OrderIntent, evaluate, decided, submit_order}
use blessing_ai.Governor.Risk.{
  IsReduction, IsIncrease, Submits, traded, IsWellFormed, submitted_order_lem, reduction_submitted,
}
use blessing_ai.Recovery.{
  ExposureRecoveryEngine, process, is_toxic, toxic_delta, action_of, determine_action, reaches, act,
}
use blessing_ai.Recovery.Brake.{NeverAdds, toxic_delta-NeverAdds}

-- A delta that never adds to the position does not increase it.
no_increase : (qty delta : ℤ) → NeverAdds qty delta → IsIncrease delta qty → 0 < abs delta → ⊥
unfolding ◌+ℤ◌
no_increase qty delta n i z = let f = n.flat in let l = n.long in let s = n.short in ground arith

process-NeverAdds :
    (one : ℕ) (e : ExposureRecoveryEngine) (target : TargetExposure) (drawdown qty vol : ℤ)
    (created now : ℕ)
    → is_toxic e drawdown ≡ true
    → NeverAdds qty
        (amount (process one e target drawdown qty vol created now).0.target_net_delta_qty)
unfolding process
process-NeverAdds one e target drawdown qty vol created now h =
    rw h (toxic_delta-NeverAdds one e drawdown qty vol (amount target.target_net_delta_qty))

-- While the drawdown is at its trigger, an order that the governor decides to submit for a target of
-- the engine is marked `reduce_only` and takes the position towards zero, not past it, whatever the
-- strategies ask, the limits of the governor and the state of the snapshot.
pub toxic_order-IsReduction :
    (one thousandth : ℕ) (e : ExposureRecoveryEngine) (g : Governor) (target : TargetExposure)
    (s : RiskSnapshot) (drawdown qty vol : ℤ) (created now : ℕ) (first later : Timestamp)
    {d : ExecutionDecision}
    → is_toxic e drawdown ≡ true
    → 0 < thousandth
    → let t = (process one e target drawdown qty vol created now).0 in
      (evaluate thousandth g t s (finite qty) first later).0 ≡ decided d
      → d.action ≡ submit_order
      → (o : OrderIntent) × (d.orders ≡ o ∷ [])
        × (o.symbol ≡ target.symbol)
        × (thousandth ≤ o.quantity)
        × (o.reduce_only ≡ true)
        × IsReduction (traded o) qty
unfolding process
toxic_order-IsReduction one thousandth e g target s drawdown qty vol created now first later t z h
      k =
    let x = process one e target drawdown qty vol created now in
    let (at, o, c, w, os, same, trades, n, le, dir) =
      submitted_order_lem thousandth g x.0 s (finite qty) first later h k in
    elim dir [
      | inl (r, away) ↦ (o, os, ground (arith, same), le, r, rw trades away)
      | inr (r, i, l) ↦ absurd (
          no_increase qty (amount x.0.target_net_delta_qty)
            (process-NeverAdds one e target drawdown qty vol created now t) i
            (omega (arith, n, le, z)))
    ]

neg-IsReduction : (qty : ℤ) → IsReduction (neg qty) qty
unfolding neg ◌+ℤ◌
neg-IsReduction qty = ground arith

flatten_delta :
    (one : ℕ) (e : ExposureRecoveryEngine) (drawdown qty vol delta : ℤ)
    → reaches 25 e.drawdown_trigger_pct drawdown ≡ true
    → 0 < abs qty
    → toxic_delta one e drawdown qty vol delta ≡ neg qty
unfolding toxic_delta action_of determine_action act
flatten_delta one e drawdown qty vol delta h z = ground arith

neg-size : (qty : ℤ) → abs (neg qty) ≡ abs qty
unfolding neg
neg-size qty = ground arith

-- the close of the whole position
close_submitted :
    (thousandth : ℕ) (g : Governor) (target : TargetExposure) (s : RiskSnapshot) (qty : ℤ) (now : ℕ)
    (later : Timestamp)
    → IsWellFormed target s (finite qty) now
    → 0 < thousandth
    → thousandth ≤ abs qty
    → let t = record target { target_net_delta_qty = finite (neg qty) } in
      (d : ExecutionDecision) × ((evaluate thousandth g t s (finite qty) (aware now) later).0
        ≡ decided d)
      × Submits d t (neg qty)
close_submitted thousandth g target s qty now later w z le =
    let t = record target { target_net_delta_qty = finite (neg qty) } in
    let formed : IsWellFormed t s (finite qty) now = record {
      delta_finite = refl;
      qty_finite = refl;
      deadline = w.deadline;
      expires = w.expires;
      current = w.current;
      fields = w.fields;
    } in
    let large : thousandth ≤ abs (neg qty) = rw (neg-size qty) le in
    reduction_submitted thousandth now g t s (finite qty) later formed (neg-IsReduction qty) z large

-- At 2.5 times the trigger, a position of at least 0.001 is closed: the governor decides to submit one
-- order of the symbol, marked `reduce_only`, whose side and quantity trade the opposite of the whole
-- position, whatever the strategies ask, the limits and the state of the snapshot, if the target has
-- not expired and the snapshot's fields are numbers and not negative.
pub emergency_close_submitted :
    (one thousandth : ℕ) (e : ExposureRecoveryEngine) (g : Governor) (target : TargetExposure)
    (s : RiskSnapshot) (drawdown qty vol : ℤ) (created now : ℕ) (later : Timestamp)
    → IsWellFormed target s (finite qty) now
    → pos 0 ≤ℤ e.drawdown_trigger_pct
    → reaches 25 e.drawdown_trigger_pct drawdown ≡ true
    → 0 < thousandth
    → thousandth ≤ abs qty
    → let t = (process one e target drawdown qty vol created now).0 in
      (d : ExecutionDecision) × ((evaluate thousandth g t s (finite qty) (aware now) later).0
        ≡ decided d)
      × Submits d target (neg qty)
unfolding process
emergency_close_submitted one thousandth e g target s drawdown qty vol created now later w p h z
      le =
    let toxic : is_toxic e drawdown ≡ true = ground arith in
    rw toxic (
      rw (flatten_delta one e drawdown qty vol _ h (omega arith)) (
        let (d, same, r) = close_submitted thousandth g target s qty now later w z le in
        (
          d,
          same,
          record {
            order = r.order;
            submitted = r.submitted;
            only = r.only;
            same_symbol = r.same_symbol;
            trades = r.trades;
            whole = r.whole;
            reducing = r.reducing;
          },
        )))
