-- ===== src/Binance/Rules/Kept.antt =====
-- What each filter leaves of the notional constraints.
use blessing_ai.Prelude.{
  String, Bool, Option, List, [], ◌∷◌, OnSome, OnSome->>=, OnSome-some, on_branches, ◌>>=◌, inl,
  inr, Option-cases, str_eq,
}
use blessing_ai.Prelude.Int.{ℤ}
use blessing_ai.Binance.Rules.{SymbolTradingRules}
use blessing_ai.Binance.Rules.Parse.{
  Filter, apply_filter, apply_filters, price_filter, lot_size, market_lot_size, min_notional_filter,
  notional_filter, percent_price_filter, percent_price_by_side_filter, add_min_notional,
  add_max_notional, decimal_filter_value, bool_filter_value,
}

-- A property of the two lists of constraints and the two limits, which each step that adds one keeps, is
-- kept by the filters.
module _ (Q : List (ℤ × Bool) → ℤ → List (ℤ × Bool) → ℤ → Type 0) where
  abbrev pub Of : SymbolTradingRules → Type 0
  Of r = Q r.min_notional_constraints r.min_notional r.max_notional_constraints r.max_notional

module _ (Q : List (ℤ × Bool) → ℤ → List (ℤ × Bool) → ℤ → Type 0)
    (min_step : (value : ℤ) (applies : Bool) (r : SymbolTradingRules)
      → Of Q r
      → OnSome (Of Q) (add_min_notional value applies r))
    (max_step : (value : ℤ) (applies : Bool) (r : SymbolTradingRules)
      → Of Q r
      → OnSome (Of Q) (add_max_notional value applies r)) where
  reads :
      (f : Filter) (names : List String) (k : ℤ → Option SymbolTradingRules)
      → ((v : ℤ) → OnSome (Of Q) (k v))
      → OnSome (Of Q) (decimal_filter_value f names >>= k)
  reads f names k h = OnSome->>= (Of Q) (decimal_filter_value f names) k h

  min_notional_filter-kept :
      (f : Filter) (r : SymbolTradingRules) → Of Q r → OnSome (Of Q) (min_notional_filter f r)
  unfolding min_notional_filter
  min_notional_filter-kept f r h =
      reads f _ _ (λ value.
        OnSome->>= (Of Q) (bool_filter_value f _) _ (λ applies. min_step value applies r h))

  notional_filter-kept :
      (f : Filter) (r : SymbolTradingRules) → Of Q r → OnSome (Of Q) (notional_filter f r)
  unfolding notional_filter
  notional_filter-kept f r h = reads f _ _ (λ value.
      OnSome->>= (Of Q) (bool_filter_value f _) _ (λ applies.
        elim (Option-cases (add_min_notional value applies r)) [
          | inl e ↦ rw e tt
          | inr (r', e) ↦ rw e (
              reads f _ _ (λ most. OnSome->>= (Of Q) (bool_filter_value f _) _ (λ applies_max.
                max_step most applies_max r' (OnSome-some (Of Q) (min_step value applies r h) e))))
        ]))

  pub apply_filter-kept :
      (f : Filter) (r : SymbolTradingRules) → Of Q r → OnSome (Of Q) (apply_filter f r)
  unfolding apply_filter price_filter lot_size market_lot_size percent_price_filter
      percent_price_by_side_filter
  apply_filter-kept f r h =
      let R = OnSome (Of Q) in
      on_branches R (str_eq f.filter_type "PRICE_FILTER")
        (λ e. reads f _ _ (λ a. reads f _ _ (λ b. reads f _ _ (λ c. h))))
        (λ e.
          on_branches R (str_eq f.filter_type "LOT_SIZE")
            (λ e. reads f _ _ (λ a. reads f _ _ (λ b. reads f _ _ (λ c. h))))
            (λ e.
              on_branches R (str_eq f.filter_type "MARKET_LOT_SIZE")
                (λ e. reads f _ _ (λ a. reads f _ _ (λ b. reads f _ _ (λ c. h))))
                (λ e.
                  on_branches R (str_eq f.filter_type "MIN_NOTIONAL")
                    (λ e. min_notional_filter-kept f _ h)
                    (λ e.
                      on_branches R (str_eq f.filter_type "NOTIONAL")
                        (λ e. notional_filter-kept f _ h)
                        (λ e.
                          on_branches R (str_eq f.filter_type "PERCENT_PRICE")
                            (λ e. reads f _ _ (λ a. reads f _ _ (λ b. h)))
                            (λ e.
                              on_branches R (str_eq f.filter_type "PERCENT_PRICE_BY_SIDE")
                                (λ e.
                                  reads f _ _ (λ a.
                                    reads f _ _ (λ b. reads f _ _ (λ c. reads f _ _ (λ g. h)))))
                                (λ e. h)))))))

  pub apply_filters-kept :
      (fs : List Filter) (r : SymbolTradingRules) → Of Q r → OnSome (Of Q) (apply_filters fs r)
  unfolding apply_filters
  apply_filters-kept [] r h = h
  apply_filters-kept (f ∷ fs) r h = elim (Option-cases (apply_filter f r)) [
    | inl e ↦ rw e tt
    | inr (r', e) ↦ rw e (apply_filters-kept fs r' (OnSome-some (Of Q) (apply_filter-kept f r h) e))
  ]
