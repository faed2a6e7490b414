-- ===== src/Binance/Rules/Notional.antt =====
-- The notional limits of a symbol, as the parser keeps them: the strictest of the filters' values.
use blessing_ai.Prelude.{
  ℕ, String, Bool, true, false, ◌||◌, not, List, [], ◌∷◌, ◌++◌, arith, ◌≡◌, refl, if◌then◌else◌, In,
  here, there, OnSome, OnSome->>=, OnSome-some, on_branches, inl, inr, ◌⊎◌, Option-cases, ap,
}
use blessing_ai.Prelude.Int.{ℤ, ◌≤ℤ◌}
use blessing_ai.Binance.Rules.{
  SymbolTradingRules, applicable, values, largest, smallest, min_notional_for, max_notional_for,
  is_empty, is_above_zero, is_zero,
}
use blessing_ai.Binance.Rules.Kept.{apply_filters-kept}
use blessing_ai.Binance.Rules.Parse.{
  SymbolData, apply_filters, parse_exchange_info, add_min_notional, add_max_notional,
  parse_precision, blank_rules,
}

largest-bound : (vs : List ℤ) (v : ℤ) → In v vs → v ≤ℤ largest vs
unfolding largest
largest-bound [] v i = elim i [ ]
largest-bound (w ∷ []) v (there i) = elim i [ ]
largest-bound (w ∷ []) v here = ground arith
largest-bound (w ∷ x ∷ vs) v here = ground arith
largest-bound (w ∷ x ∷ vs) v (there i) = let h = largest-bound (x ∷ vs) v i in ground arith

smallest-bound : (vs : List ℤ) (v : ℤ) → In v vs → smallest vs ≤ℤ v
unfolding smallest
smallest-bound [] v i = elim i [ ]
smallest-bound (w ∷ []) v (there i) = elim i [ ]
smallest-bound (w ∷ []) v here = ground arith
smallest-bound (w ∷ x ∷ vs) v here = ground arith
smallest-bound (w ∷ x ∷ vs) v (there i) = let h = smallest-bound (x ∷ vs) v i in ground arith

In-values : (cs : List (ℤ × Bool)) (v : ℤ) (b : Bool) → In (v, b) cs → In v (values cs)
In-values [] v b i = elim i [ ]
In-values (c ∷ cs) v b here = here
In-values (c ∷ cs) v b (there i) = there (In-values cs v b i)

In-applicable : (cs : List (ℤ × Bool)) (v : ℤ) → In (v, true) cs → In v (applicable cs)
In-applicable [] v i = elim i [ ]
In-applicable (c ∷ cs) v here = here
In-applicable ((w, true) ∷ cs) v (there i) = there (In-applicable cs v i)
In-applicable ((w, false) ∷ cs) v (there i) = In-applicable cs v i

In-append {ℓ} : {A : Type ℓ} (xs : List A) (a b : A) → In a (xs ++ b ∷ []) → (a ≡ b) ⊎ In a xs
In-append [] a b here = inl refl
In-append [] a b (there i) = elim i [ ]
In-append (x ∷ xs) a b here = inr here
In-append (x ∷ xs) a b (there i) = elim (In-append xs a b i) [
  | inl e ↦ inl e
  | inr j ↦ inr (there j)
]

-- The limits of an order that is not a MARKET order are at least as strict as each constraint.
abbrev pub IsStrictFor : List (ℤ × Bool) → ℤ → List (ℤ × Bool) → ℤ → Type 0
IsStrictFor mins least maxs most =
    ((v : ℤ) (b : Bool) → In (v, b) mins → v ≤ℤ least)
    × ((v : ℤ) (b : Bool) → In (v, b) maxs → most ≤ℤ v)

abbrev pub IsStrict : SymbolTradingRules → Type 0
IsStrict r =
    IsStrictFor r.min_notional_constraints r.min_notional r.max_notional_constraints r.max_notional

add_min_notional-IsStrict :
    (value : ℤ) (applies : Bool) (r : SymbolTradingRules)
    → IsStrict r
    → OnSome IsStrict (add_min_notional value applies r)
add_min_notional-IsStrict value applies r h =
    on_branches (OnSome IsStrict) (not (is_above_zero value)) (λ e. tt)
      (λ e. (
        λ v b i. elim (In-append r.min_notional_constraints (v, b) (value, applies) i) [
          | inl same ↦ let at_value : v ≡ value = ap (λ c. c.0) same in rw at_value (ground arith)
          | inr j ↦ let low = h.0 v b j in ground arith
        ],
        h.1,
      ))

add_max_notional-IsStrict :
    (value : ℤ) (applies : Bool) (r : SymbolTradingRules)
    → IsStrict r
    → OnSome IsStrict (add_max_notional value applies r)
add_max_notional-IsStrict value applies r h =
    let cs = r.max_notional_constraints ++ (value, applies) ∷ [] in
    on_branches (OnSome IsStrict) (is_zero value) (λ e. h)
      (λ e.
        on_branches (OnSome IsStrict) (not (is_above_zero value)) (λ e'. tt)
          (λ e'. (h.0, λ v b i. smallest-bound (values cs) v (In-values cs v b i))))

pub parse_exchange_info-IsStrict :
    (places : ℤ → ℕ) (symbol : String) (d : SymbolData)
    → OnSome IsStrict (parse_exchange_info places symbol d)
unfolding parse_exchange_info
parse_exchange_info-IsStrict places symbol d =
    OnSome->>= IsStrict (parse_precision d.price_precision) _ (λ p.
      OnSome->>= IsStrict (parse_precision d.quantity_precision) _ (λ q.
        elim (Option-cases (apply_filters d.filters (blank_rules symbol d p q))) [
          | inl e ↦ rw e tt
          | inr (r', e) ↦ rw e (
              OnSome-some IsStrict
                (apply_filters-kept IsStrictFor add_min_notional-IsStrict add_max_notional-IsStrict
                  d.filters _ ((λ v b i. elim i [ ]), (λ v b i. elim i [ ])))
                e)
        ]))

least_bound :
    (cs : List (ℤ × Bool)) (m v : ℤ)
    → In (v, true) cs
    → v ≤ℤ (if is_empty cs then m else largest (applicable cs))
least_bound [] m v i = elim i [ ]
least_bound (c ∷ cs) m v i = largest-bound _ v (In-applicable (c ∷ cs) v i)

most_bound :
    (cs : List (ℤ × Bool)) (m v : ℤ)
    → In (v, true) cs
    → (if is_empty cs then m else smallest (applicable cs)) ≤ℤ v
most_bound [] m v i = elim i [ ]
most_bound (c ∷ cs) m v i = smallest-bound _ v (In-applicable (c ∷ cs) v i)

pub limits-IsStrict :
    (r : SymbolTradingRules) (is_market applies : Bool) (v : ℤ)
    → IsStrict r
    → (not is_market || applies) ≡ true
    → (In (v, applies) r.min_notional_constraints → v ≤ℤ min_notional_for is_market r)
      × (In (v, applies) r.max_notional_constraints → max_notional_for is_market r ≤ℤ v)
unfolding min_notional_for max_notional_for
limits-IsStrict r false applies v h e = (h.0 v applies, h.1 v applies)
limits-IsStrict r true false v h e = ground arith
limits-IsStrict r true true v h e = (least_bound _ _ v, most_bound _ _ v)
