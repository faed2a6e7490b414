-- ===== src/Binance/Rules/Filters.antt =====
-- The notional filters of the exchange, and the limits of the rules that are parsed from them.
use blessing_ai.Prelude.{Bool, some, List, [], ◌∷◌, ◌≡◌, ◌≢◌, ◌⊎◌, In}
use blessing_ai.Prelude.Int.{ℤ, pos}
use blessing_ai.Binance.Rules.Parse.{Filter, decimal_filter_value, bool_filter_value}

-- The filter asks for a least notional, of MARKET orders too if `applies`.
abbrev pub AsksLeast : Filter → ℤ → Bool → Type 0
AsksLeast f v applies =
    ((f.filter_type ≡ "MIN_NOTIONAL")
      × (decimal_filter_value f ("notional" ∷ "minNotional" ∷ []) ≡ some v)
      × (bool_filter_value f "applyToMarket" ≡ some applies))
    ⊎ ((f.filter_type ≡ "NOTIONAL")
        × (decimal_filter_value f ("minNotional" ∷ "notional" ∷ []) ≡ some v)
        × (bool_filter_value f "applyMinToMarket" ≡ some applies))

-- The filter has a greatest notional, where 0 stands for none.
abbrev pub AsksMost : Filter → ℤ → Bool → Type 0
AsksMost f v applies =
    (f.filter_type ≡ "NOTIONAL")
    × (decimal_filter_value f ("maxNotional" ∷ []) ≡ some v)
    × (bool_filter_value f "applyMaxToMarket" ≡ some applies)
    × (v ≢ pos 0)

-- the constraint is among the least, or among the greatest
abbrev HasLeast : ℤ × Bool → List (ℤ × Bool) → ℤ → List (ℤ × Bool) → ℤ → Type 0
HasLeast c mins least maxs most = In c mins

abbrev HasMost : ℤ × Bool → List (ℤ × Bool) → ℤ → List (ℤ × Bool) → ℤ → Type 0
HasMost c mins least maxs most = In c maxs
