-- ===== src/Binance/Rules/Normal.antt =====
-- Quantities and prices on the exchange's grid.
use blessing_ai.Prelude.{
  ℕ, ◌+◌, ◌*◌, ◌/◌, ◌≤◌, ◌<◌, ◌≡◌, refl, sym, ap, ◌∙◌, Bool, true, false, ◌&&◌, arith,
  if◌then◌else◌, ltb, Bool-cases, inl, inr, none,
}
use blessing_ai.Prelude.Int.{pos, abs}
use blessing_ai.Binance.Rules.{SymbolTradingRules, or_nonzero, normalize_quantity, normalize_price}

-- the greatest multiple of the step that is not above the number
steps_below : (x s : ℕ) → 0 < s → (x / s * s ≤ x) × (x < x / s * s + s)
steps_below x s h = (grind arith, grind arith)

steps_again : (x s : ℕ) → 0 < s → x / s * s / s * s ≡ x / s * s
steps_again x s h = grind arith

-- A positive quantity is cut to the greatest multiple of the order type's step that is not above it,
-- if that step is not zero; and a quantity that was cut stays as it is.
pub normalize_quantity_lem :
    (r : SymbolTradingRules) (q : ℕ) (is_market : Bool)
    → 0 < q
    → let step = abs (or_nonzero (if is_market then r.market_step_size else none) r.step_size) in
      0 < step
      → (n k : ℕ) × (normalize_quantity r (pos q) is_market ≡ pos n)
        × (n ≡ k * step)
        × (n ≤ q)
        × (q < n + step)
        × (normalize_quantity r (pos n) is_market ≡ pos n)
unfolding normalize_quantity
normalize_quantity_lem r q is_market p h =
    let step = abs (or_nonzero (if is_market then r.market_step_size else none) r.step_size) in
    let (low, high) = steps_below q step h in
    let again = steps_again q step h in
    (q / step * step, q / step, ground arith, refl, low, high, ground (arith, again))

-- `p` on the grid of a tick `t`
abbrev pub on_tick : ℕ → ℕ → Bool → ℕ
on_tick p t round_up = let n = p / t * t in if round_up && ltb n p then n + t else n

abbrev ticks : ℕ → ℕ → Bool → ℕ
ticks p t round_up = if round_up && ltb (p / t * t) p then p / t + 1 else p / t

on_tick_bounds :
    (p t : ℕ) (round_up : Bool)
    → 0 < t
    → if round_up
      then (p ≤ on_tick p t round_up) × (on_tick p t round_up < p + t)
      else (on_tick p t round_up ≤ p) × (p < on_tick p t round_up + t)
on_tick_bounds p t true h = let (low, high) = steps_below p t h in ground arith
on_tick_bounds p t false h = steps_below p t h

on_tick-ticks : (p t : ℕ) (round_up : Bool) → on_tick p t round_up ≡ ticks p t round_up * t
on_tick-ticks p t round_up = elim (Bool-cases (round_up && ltb (p / t * t) p)) [
  | inl e ↦ rw e (grind arith)
  | inr e ↦ rw e refl
]

-- a multiple is on the grid
multiple_on_tick : (k t : ℕ) (round_up : Bool) → 0 < t → on_tick (k * t) t round_up ≡ k * t
multiple_on_tick k t round_up h = let whole : k * t / t * t ≡ k * t = grind arith in ground arith

normalize_price-on_tick :
    (r : SymbolTradingRules) (p t : ℕ) (round_up : Bool)
    → r.tick_size ≡ pos t
    → 0 < t
    → normalize_price r (pos p) round_up ≡ pos (on_tick p t round_up)
unfolding normalize_price
normalize_price-on_tick r p t round_up e h =
    let (low, high) = steps_below p t h in rw e (ground arith)

-- On a positive tick, a price that is not negative is moved to the grid: down for a BUY, so that it never rises,
-- and up for a SELL, so that it never falls, by less than a tick; and it then stays as it is.
pub normalize_price_lem :
    (r : SymbolTradingRules) (p t : ℕ) (round_up : Bool)
    → r.tick_size ≡ pos t
    → 0 < t
    → (n k : ℕ) × (normalize_price r (pos p) round_up ≡ pos n)
      × (n ≡ k * t)
      × (if round_up then (p ≤ n) × (n < p + t) else (n ≤ p) × (p < n + t))
      × (normalize_price r (pos n) round_up ≡ pos n)
normalize_price_lem r p t round_up e h =
    let n = on_tick p t round_up in
    let even = on_tick-ticks p t round_up in
    let kept : on_tick n t round_up ≡ n =
      ap (λ x. on_tick x t round_up) even
      ∙ multiple_on_tick (ticks p t round_up) t round_up h
      ∙ sym even in
    (
      n,
      ticks p t round_up,
      normalize_price-on_tick r p t round_up e h,
      even,
      on_tick_bounds p t round_up h,
      normalize_price-on_tick r n t round_up e h ∙ ap pos kept,
    )
