-- ===== src/Binance/Ledger/Marks.antt =====
-- The positions that the ledger keeps have a mark price, so that the order gate can value them.
use blessing_ai.Prelude.{
  ℕ, ◌+◌, ◌*◌, String, Bool, true, false, not, Option, none, some, List, [], ◌∷◌, arith, ◌≡◌, ◌⊎◌,
  inl, inr, refl, All, Bool-cases, if◌then◌else◌, OnSome, OnSome->>=, OnSome-some, Option-cases,
  on_branches, str_eq,
}
use blessing_ai.Prelude.Int.{ℤ, abs}
use blessing_ai.Domain.{ExchangePosition, Value, finite, invalid, non_finite}
use blessing_ai.Binance.Rules.{is_above_zero, is_zero}
use blessing_ai.Binance.Gates.Order.Exposure.{positions_notional, marked}
use blessing_ai.Binance.Ledger.{
  InMemoryLedger, Call, upsert_raw_exchange_order, exchange_order, store_order, update_balances,
  mark_initialized, upsert_order, append_fill, read_positions, replace_positions, upsert_position,
  clear_positions_for_symbol, call, call_all, or_same, empty_ledger, put_position, without_symbol,
  is_same_position, balances, initialize, order, raw_order, fill, all_positions, position, clear,
}
use blessing_ai.Binance.Ledger.Positions.{
  RawPosition, to_exchange_position, parse_quantity, parse_side, lacks_required, parse_decimal,
  parse_mark, parse_margin_type, parse_liquidation,
}

-- flat, or with a mark price above 0
abbrev pub IsMarked : ExchangePosition → Type 0
IsMarked p =
    (is_zero p.quantity ≡ true) ⊎ ((m : ℤ) × (p.mark_price ≡ some m) × (is_above_zero m ≡ true))

abbrev IsGoodMark : ℤ → Option ℤ → Type 0
IsGoodMark q o = (is_zero q ≡ true) ⊎ ((m : ℤ) × (o ≡ some m) × (is_above_zero m ≡ true))

flat_mark : (q : ℤ) (o : Option (Option ℤ)) → is_zero q ≡ true → OnSome (IsGoodMark q) o
flat_mark q none e = tt
flat_mark q (some m) e = inl e

positive_mark : (q n : ℤ) → OnSome (IsGoodMark q) (parse_mark true (some (finite n)))
positive_mark q n = elim (Bool-cases (is_above_zero n)) [
  | inl e ↦ rw e (inr (n, refl, e))
  | inr e ↦ rw e tt
]

parse_mark-IsGoodMark :
    (q : ℤ) (is_active : Bool) (raw : Option Value)
    → is_active ≡ not (is_zero q)
    → OnSome (IsGoodMark q) (parse_mark is_active raw)
parse_mark-IsGoodMark q false raw e = flat_mark q _ (ground (arith, e))
parse_mark-IsGoodMark q true none e = tt
parse_mark-IsGoodMark q true (some invalid) e = tt
parse_mark-IsGoodMark q true (some non_finite) e = tt
parse_mark-IsGoodMark q true (some (finite n)) e = positive_mark q n

to_exchange_position-IsMarked : (raw : RawPosition) → OnSome IsMarked (to_exchange_position raw)
unfolding to_exchange_position
to_exchange_position-IsMarked raw = OnSome->>= IsMarked raw.symbol _ (λ symbol.
    OnSome->>= IsMarked (parse_quantity raw.position_amt) _ (λ q.
      OnSome->>= IsMarked
        (if lacks_required (not (is_zero q)) raw then none else parse_side raw.position_side) _
        (λ side. OnSome->>= IsMarked (parse_decimal raw.entry_price _ _ _) _ (λ entry.
          elim (Option-cases (parse_mark (not (is_zero q)) raw.mark_price)) [
            | inl e ↦ rw e tt
            | inr (mark, e) ↦ rw e (
                OnSome->>= IsMarked (parse_decimal raw.unrealized_profit _ _ _) _ (λ pnl.
                  OnSome->>= IsMarked (parse_margin_type raw.margin_type) _ (λ margin.
                    OnSome->>= IsMarked (parse_decimal raw.leverage _ _ _) _ (λ leverage.
                      OnSome->>= IsMarked (parse_liquidation raw.liquidation_price) _
                        (λ liquidation.
                          OnSome-some (IsGoodMark q)
                            (parse_mark-IsGoodMark q (not (is_zero q)) raw.mark_price refl) e)))))
          ]))))

marked_known :
    (q : ℤ) (o : Option ℤ) (m : ℤ) (rest : Option ℕ) (n : ℕ)
    → o ≡ some m
    → is_above_zero m ≡ true
    → rest ≡ some n
    → (k : ℕ) × ((if is_zero q then rest else marked q o rest) ≡ some k)
marked_known q o m rest n at above e = elim (Bool-cases (is_zero q)) [
  | inl z ↦ rw (z, e) (n, refl)
  | inr z ↦ rw (z, at, above, e) (abs q * abs m + n, refl)
]

positions_known :
    (ps : List ExchangePosition) → All IsMarked ps → (n : ℕ) × (positions_notional ps ≡ some n)
unfolding positions_notional
positions_known [] h = (0, refl)
positions_known (p ∷ ps) h =
    let (n, e) = positions_known ps h.1 in
    elim h.0 [
      | inl flat ↦ rw flat (n, e)
      | inr (m, at, above) ↦
          marked_known p.quantity p.mark_price m (positions_notional ps) n at above e
    ]

abbrev AllMarked : InMemoryLedger → Type 0
AllMarked l = All IsMarked l.positions

put_position-IsMarked :
    (p : ExchangePosition) (ps : List ExchangePosition)
    → IsMarked p
    → All IsMarked ps
    → All IsMarked (put_position p ps)
put_position-IsMarked p [] h hs = (h, tt)
put_position-IsMarked p (q ∷ qs) h hs =
    on_branches (All IsMarked) (is_same_position q p) (λ e. (h, hs.1))
      (λ e. (hs.0, put_position-IsMarked p qs h hs.1))

without_symbol-IsMarked :
    (t : String) (ps : List ExchangePosition) → All IsMarked ps → All IsMarked (without_symbol t ps)
without_symbol-IsMarked t [] h = tt
without_symbol-IsMarked t (p ∷ ps) h =
    let rest = without_symbol-IsMarked t ps h.1 in
    on_branches (All IsMarked) (str_eq p.symbol t) (λ e. rest) (λ e. (h.0, rest))

read_positions-IsMarked : (raws : List RawPosition) → OnSome (All IsMarked) (read_positions raws)
unfolding read_positions
read_positions-IsMarked [] = tt
read_positions-IsMarked (raw ∷ raws) = elim (Option-cases (to_exchange_position raw)) [
  | inl e ↦ rw e tt
  | inr (p, e) ↦ elim (Option-cases (read_positions raws)) [
    | inl f ↦ rw (e, f) tt
    | inr (ps, f) ↦
        rw (e, f)
          (
            OnSome-some IsMarked (to_exchange_position-IsMarked raw) e,
            OnSome-some (All IsMarked) (read_positions-IsMarked raws) f,
          )
  ]
]

-- a result that there is, or the ledger as it was
or_same-AllMarked :
    (o : Option InMemoryLedger) (l : InMemoryLedger)
    → OnSome AllMarked o
    → AllMarked l
    → AllMarked (or_same o l)
or_same-AllMarked none l h h' = h'
or_same-AllMarked (some m) l h h' = h

call-AllMarked : (c : Call) (l : InMemoryLedger) → AllMarked l → AllMarked (call c l)
unfolding call update_balances mark_initialized upsert_order upsert_raw_exchange_order store_order
    append_fill replace_positions upsert_position clear_positions_for_symbol
call-AllMarked (balances w m) l h = h
call-AllMarked initialize l h = h
call-AllMarked (order o) l h = h
call-AllMarked (raw_order now raw) l h =
    or_same-AllMarked (upsert_raw_exchange_order now raw l) l
      (OnSome->>= AllMarked (exchange_order now raw l) _ (λ o. h)) h
call-AllMarked (fill f) l h = on_branches AllMarked _ (λ e. h) (λ e. h)
call-AllMarked (all_positions raws mark) l h =
    or_same-AllMarked (replace_positions raws mark l) l
      (elim (Option-cases (read_positions raws)) [
        | inl e ↦ rw e tt
        | inr (ps, e) ↦ rw e (OnSome-some (All IsMarked) (read_positions-IsMarked raws) e)
      ])
      h
call-AllMarked (position raw) l h =
    or_same-AllMarked (upsert_position raw l) l
      (elim (Option-cases (to_exchange_position raw)) [
        | inl e ↦ rw e tt
        | inr (p, e) ↦ rw e (
            put_position-IsMarked p l.positions
              (OnSome-some IsMarked (to_exchange_position-IsMarked raw) e) h)
      ])
      h
call-AllMarked (clear t) l h = without_symbol-IsMarked t l.positions h

call_all-AllMarked : (cs : List Call) (l : InMemoryLedger) → AllMarked l → AllMarked (call_all cs l)
unfolding call_all
call_all-AllMarked [] l h = h
call_all-AllMarked (c ∷ cs) l h = call_all-AllMarked cs (call c l) (call-AllMarked c l h)

-- After any calls of its methods on an empty ledger, the positions that it read are flat or have a mark price above 0, so
-- that the order gate can add up their notional.
pub positions_valued :
    (cs : List Call)
    → All IsMarked (call_all cs empty_ledger).positions
      × ((n : ℕ) × (positions_notional (call_all cs empty_ledger).positions ≡ some n))
positions_valued cs = let h = call_all-AllMarked cs empty_ledger tt in (h, positions_known _ h)
