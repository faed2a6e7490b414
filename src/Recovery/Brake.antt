-- ===== src/Recovery/Brake.antt =====
-- What a toxic drawdown leaves of a target.
use blessing_ai.Prelude.{ℕ, ◌*◌, ◌/◌, ◌≤◌, ◌<◌, ◌≡◌, refl, arith, inl, inr, Bool-cases, ◌==◌}
use native.Mathlib.Nat.{div-le_of_le-mul, mul-le-mul_left}
use blessing_ai.Prelude.Int.{ℤ, pos, negsuc, abs, ◌+ℤ◌, ◌≤ℤ◌, neg}
use blessing_ai.Governor.Risk.{IsReduction}
use blessing_ai.Recovery.{
  ExposureRecoveryEngine, RecoveryActionType, hold, partial_hedge, reduce_long, harvest_hedge,
  progressive_unwind, emergency_flatten, toxic_delta, action_of, act, grid_brake, hedge_qty, hedged,
  against, required_hedge_ratio,
}

-- The delta does not take the position away from zero: it is 0 without a position, at most 0 with a
-- long one and at least 0 with a short one.
pub record NeverAdds (qty delta : ℤ) : Type 0 where
  pub flat : abs qty ≡ 0 → abs delta ≡ 0
  pub long : pos 1 ≤ℤ qty → delta ≤ℤ pos 0
  pub short : qty ≤ℤ negsuc 0 → pos 0 ≤ℤ delta

grid_brake-NeverAdds : (qty delta : ℤ) → 0 < abs qty → NeverAdds qty (grid_brake qty delta)
unfolding grid_brake
grid_brake-NeverAdds qty delta z = record {
  flat = λ h. omega arith;
  long = λ h. ground arith;
  short = λ h. ground arith;
}

neg-NeverAdds : (qty : ℤ) → NeverAdds qty (neg qty)
unfolding neg
neg-NeverAdds qty = record {
  flat = λ h. ground arith;
  long = λ h. ground arith;
  short = λ h. ground arith;
}

against-NeverAdds : (qty : ℤ) (n : ℕ) → 0 < abs qty → NeverAdds qty (against qty (pos n))
unfolding neg
against-NeverAdds qty n z = record {
  flat = λ h. omega arith;
  long = λ h. ground arith;
  short = λ h. ground arith;
}

hedged-NeverAdds :
    (qty delta h : ℤ) → 0 < abs qty → NeverAdds qty delta → NeverAdds qty (hedged qty delta h)
unfolding hedged
hedged-NeverAdds qty delta h z n =
    let l = n.long in
    let s = n.short in
    record { flat = λ e. omega arith; long = λ e. ground arith; short = λ e. ground arith }

act-NeverAdds :
    (one : ℕ) (max_ratio vol : ℤ) (a : RecoveryActionType) (qty delta : ℤ)
    → 0 < abs qty
    → NeverAdds qty delta
    → NeverAdds qty (act one max_ratio vol a qty delta)
unfolding act
act-NeverAdds one max_ratio vol hold qty delta z n = n
act-NeverAdds one max_ratio vol partial_hedge qty delta z n = hedged-NeverAdds qty delta _ z n
act-NeverAdds one max_ratio vol reduce_long qty delta z n = n
act-NeverAdds one max_ratio vol harvest_hedge qty delta z n = n
act-NeverAdds one max_ratio vol progressive_unwind qty delta z n = against-NeverAdds qty _ z
act-NeverAdds one max_ratio vol emergency_flatten qty delta z n = neg-NeverAdds qty

pub toxic_delta-NeverAdds :
    (one : ℕ) (e : ExposureRecoveryEngine) (drawdown qty vol delta : ℤ)
    → NeverAdds qty (toxic_delta one e drawdown qty vol delta)
unfolding toxic_delta
toxic_delta-NeverAdds one e drawdown qty vol delta = elim (Bool-cases (abs qty == 0)) [
  | inl flat ↦
      rw flat record { flat = λ h. refl; long = λ h. omega arith; short = λ h. omega arith }
  | inr open_ ↦ rw open_ (
      let z : 0 < abs qty = ground arith in
      act-NeverAdds one e.max_hedge_ratio vol (action_of e drawdown qty delta) qty _ z
        (grid_brake-NeverAdds qty delta z))
]

-- A delta that never adds and is not larger than the position is a reduction.
bounded_reduces :
    (qty delta : ℤ) → NeverAdds qty delta → abs delta ≤ abs qty → IsReduction delta qty
unfolding ◌+ℤ◌
bounded_reduces (pos q) (pos d) n le = let l = n.long in ground arith
bounded_reduces (pos q) (negsuc d) n le = ground arith
bounded_reduces (negsuc q) (pos d) n le = ground arith
bounded_reduces (negsuc q) (negsuc d) n le = let s = n.short in ground arith

neg-bound : (qty : ℤ) → abs (neg qty) ≤ abs qty
unfolding neg
neg-bound qty = ground arith

against-bound : (qty x : ℤ) → abs (against qty x) ≡ abs x
unfolding neg
against-bound qty x = ground arith

grid_brake-bound : (qty delta : ℤ) → abs (grid_brake qty delta) ≤ abs delta
unfolding grid_brake
grid_brake-bound qty delta = ground arith

quotient_bound : (one size ratio : ℕ) → 0 < one → ratio ≤ one → size * ratio / one ≤ size
quotient_bound one size ratio z le = div-le_of_le-mul one (omega (arith, mul-le-mul_left size le))

ratio_capped : (max_ratio vol : ℤ) → required_hedge_ratio max_ratio vol ≤ℤ max_ratio
unfolding required_hedge_ratio
ratio_capped max_ratio vol = ground arith

-- a hedge in the right direction is at most the position
hedged-bound :
    (one : ℕ) (ratio qty delta : ℤ)
    → 0 < one
    → ratio ≤ℤ pos one
    → 0 < abs qty
    → NeverAdds qty delta
    → abs delta ≤ abs qty
    → abs (hedged qty delta (against qty (hedge_qty one (abs qty) ratio))) ≤ abs qty
unfolding hedged neg
hedged-bound one (pos r) qty delta z le o n d =
    let b = quotient_bound one (abs qty) r z (omega arith) in
    let l = n.long in let s = n.short in ground arith
hedged-bound one (negsuc r) qty delta z le o n d = let l = n.long in let s = n.short in ground arith

act-bound :
    (one : ℕ) (max_ratio vol : ℤ) (a : RecoveryActionType) (qty delta : ℤ)
    → 0 < one
    → max_ratio ≤ℤ pos one
    → 0 < abs qty
    → NeverAdds qty delta
    → abs delta ≤ abs qty
    → abs (act one max_ratio vol a qty delta) ≤ abs qty
unfolding act
act-bound one max_ratio vol hold qty delta z le o n d = d
act-bound one max_ratio vol partial_hedge qty delta z le o n d =
    let c = ratio_capped max_ratio vol in
    hedged-bound one (required_hedge_ratio max_ratio vol) qty delta z (omega arith) o n d
act-bound one max_ratio vol reduce_long qty delta z le o n d = d
act-bound one max_ratio vol harvest_hedge qty delta z le o n d = d
act-bound one max_ratio vol progressive_unwind qty delta z le o n d =
    rw (against-bound qty (pos (abs qty * 25 / 100))) (omega arith)
act-bound one max_ratio vol emergency_flatten qty delta z le o n d = neg-bound qty

toxic_delta-bound :
    (one : ℕ) (e : ExposureRecoveryEngine) (drawdown qty vol delta : ℤ)
    → 0 < one
    → e.max_hedge_ratio ≤ℤ pos one
    → abs delta ≤ abs qty
    → abs (toxic_delta one e drawdown qty vol delta) ≤ abs qty
unfolding toxic_delta
toxic_delta-bound one e drawdown qty vol delta z le d = elim (Bool-cases (abs qty == 0)) [
  | inl flat ↦ rw flat (omega arith)
  | inr open_ ↦ rw open_ (
      let o : 0 < abs qty = ground arith in
      let b = grid_brake-bound qty delta in
      act-bound one e.max_hedge_ratio vol (action_of e drawdown qty delta) qty _ z le o
        (grid_brake-NeverAdds qty delta o) (omega arith))
]

-- If the largest hedge ratio is at most 1 and the target is at most the position, the delta that is
-- made of it under a toxic drawdown takes the position towards zero and not past it.
pub toxic_delta-IsReduction :
    (one : ℕ) (e : ExposureRecoveryEngine) (drawdown qty vol delta : ℤ)
    → 0 < one
    → e.max_hedge_ratio ≤ℤ pos one
    → abs delta ≤ abs qty
    → IsReduction (toxic_delta one e drawdown qty vol delta) qty
toxic_delta-IsReduction one e drawdown qty vol delta z le d =
    bounded_reduces qty _ (toxic_delta-NeverAdds one e drawdown qty vol delta)
      (toxic_delta-bound one e drawdown qty vol delta z le d)
