-- ===== src/Governor/Ids.antt =====
-- The ids that the governor gives out.
use blessing_ai.Prelude.{ℕ, ◌<◌, List, [], ◌∷◌, ◌++◌, arith}
use blessing_ai.Domain.{Value, Timestamp, TargetExposure, RiskSnapshot, not_datetime, naive, aware}
use blessing_ai.Governor.{
  IdParts, OrderIntent, Governor, Outcome, Verdict, clock_error, decided, rejected, too_small,
  order, judge, decide, evaluate,
}

-- The arguments of one call of `evaluate`.
pub record Request : Type 0 where
  pub target : TargetExposure
  pub risk_snapshot : RiskSnapshot
  pub current_position_qty : Value
  pub first : Timestamp
  pub later : Timestamp

abbrev order_ids : List OrderIntent → List IdParts
order_ids [] = []
order_ids (o ∷ os) = o.client_order_id ∷ order_ids os

-- the ids in an outcome: those of its orders, then its own
abbrev pub ids_of : Outcome → List IdParts
ids_of clock_error = []
ids_of (decided d) = order_ids d.orders ++ d.decision_id ∷ []

-- the ids that a governor gives out over a number of calls
unfoldable pub ids_of_all : ℕ → List Request → Governor → List IdParts
ids_of_all thousandth [] g = []
ids_of_all thousandth (r ∷ rs) g =
    let e = evaluate thousandth g r.target r.risk_snapshot r.current_position_qty r.first r.later in
    ids_of e.0 ++ ids_of_all thousandth rs e.1

-- Each id has a larger sequence number than the one before it, and the first a larger one than `n`.
abbrev pub IsIncreasing : ℕ → List IdParts → Type 0
IsIncreasing n [] = Unit
IsIncreasing n (i ∷ is) = (n < i.sequence) × IsIncreasing i.sequence is

-- What is given out up to a governor's sequence number, and then from it.
abbrev IsContinued : Governor → Outcome → Governor → Type 0
IsContinued g o g' =
    (is : List IdParts) → IsIncreasing g'.sequence is → IsIncreasing g.sequence (ids_of o ++ is)

decide-IsContinued :
    (g : Governor) (target : TargetExposure) (qty : Value) (v : Verdict) (now : ℕ)
    (later : Timestamp)
    → IsContinued g (decide g target qty v now later).0 (decide g target qty v now later).1
decide-IsContinued g target qty (rejected r) now not_datetime is h = h
decide-IsContinued g target qty (rejected r) now naive is h = h
decide-IsContinued g target qty (rejected r) now (aware t) is h = (omega arith, h)
decide-IsContinued g target qty too_small now later is h = (omega arith, h)
decide-IsContinued g target qty (order c) now later is h = (omega arith, (omega arith, h))

evaluate-IsContinued :
    (thousandth : ℕ) (g : Governor) (target : TargetExposure) (s : RiskSnapshot) (qty : Value)
    (first later : Timestamp)
    → let e = evaluate thousandth g target s qty first later in IsContinued g e.0 e.1
unfolding evaluate
evaluate-IsContinued thousandth g target s qty not_datetime later is h = h
evaluate-IsContinued thousandth g target s qty naive later is h = h
evaluate-IsContinued thousandth g target s qty (aware now) later is h =
    decide-IsContinued g target qty (judge thousandth g target s qty now) now later is h

-- Over any calls of `evaluate`, those with a broken clock included, each id of an order or a decision
-- has a larger sequence number than the one given out before it.
pub ids_increase :
    (thousandth : ℕ) (rs : List Request) (g : Governor)
    → IsIncreasing g.sequence (ids_of_all thousandth rs g)
unfolding ids_of_all
ids_increase thousandth [] g = tt
ids_increase thousandth (r ∷ rs) g =
    let e = evaluate thousandth g r.target r.risk_snapshot r.current_position_qty r.first r.later in
    evaluate-IsContinued thousandth g r.target r.risk_snapshot r.current_position_qty r.first
      r.later (ids_of_all thousandth rs e.1) (ids_increase thousandth rs e.1)
