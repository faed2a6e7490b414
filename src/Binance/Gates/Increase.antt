-- ===== src/Binance/Gates/Increase.antt =====
-- What an order that may increase the risk has passed.
use blessing_ai.Prelude.{
  ℕ, String, List, ◌*◌, ◌+◌, In, ◌≤◌, Bool, true, false, not, ◌&&◌, Option, none, some, arith, ◌≡◌,
  ◌⊎◌, inl, inr, refl, length, Bool-cases, subst, str_eq,
}
use blessing_ai.Prelude.Int.{ℤ, pos, ◌≤ℤ◌, leb_ℤ}
use blessing_ai.Domain.{EconomicRiskClass}
use blessing_ai.Binance.Rules.{contains}
use blessing_ai.Binance.Limits.{is_mainnet}
use blessing_ai.Binance.Gates.{
  ExchangeAccountSnapshot, Settings, allowed, is_risk_increasing, available_balance_is_positive,
}
use blessing_ai.Binance.Gates.Order.{
  check, is_fallback, snapshot_of, stream_health, mainnet_account_guards,
}
use blessing_ai.Binance.Gates.Order.Inputs.{Intent, Adapter, Answers, Options, PreparedOrder}
use blessing_ai.Binance.Gates.Order.Exposure.{
  current_orders, orders_notional, positions_notional, active_symbols, is_over, notional_or_zero,
}
use blessing_ai.Binance.Rules.Contains.{contains-In}
use blessing_ai.Binance.Gates.Exposures.{
  Orders, Positions, IsActive, current-Orders, positions_notional-Positions,
}
use blessing_ai.Binance.Gates.Chains.{active_symbols-IsActive, IsActive-active_symbols}
use blessing_ai.Binance.Gates.Account.{IsSafeAccount, mainnet_guards-IsSafeAccount}
use blessing_ai.Binance.Gates.Passed.{AllPass, check-IsPassed, taken, both, is_known}

-- a notional, in units of a product, is at most a limit
abbrev pub IsWithin : ℕ → ℕ → ℤ → Type 0
IsWithin one n l = (k : ℕ) × (l ≡ pos k) × (n ≤ one * k)

is_over-IsWithin : (one : ℕ) (l : ℤ) (n : ℕ) → is_over one l n ≡ false → IsWithin one n l
is_over-IsWithin one (ℤ.pos k) n e = (k, refl, ground arith)
is_over-IsWithin one (ℤ.negsuc k) n e = ground arith

not_fallback :
    (o : Options) (risk : EconomicRiskClass)
    → is_risk_increasing risk ≡ true
    → not (is_fallback o risk) ≡ true
not_fallback o EconomicRiskClass.emergency e = ground arith
not_fallback o _ e = ground arith

one_more : (l : ℤ) (n : ℕ) → leb_ℤ l (pos n) ≡ false → pos (n + 1) ≤ℤ l
one_more l n e = ground arith

both_known :
    {x y : Option ℕ} {n k : ℕ}
    → x ≡ some n
    → y ≡ some k
    → notional_or_zero x + notional_or_zero y ≡ n + k
both_known e f = rw (e, f) refl

-- The symbols of the exposures are on a list that has room for one more.
abbrev pub HasRoom : Adapter → Options → Type 0
HasRoom a o =
    (symbols : List String) × ((s : String)
      → IsActive o.exclude_client_order_id a.orders a.positions s
      → In s symbols)
    × (pos (length symbols + 1) ≤ℤ a.safety_limits.max_active_exposure_chains)

-- The live orders are `number` with a notional of `of_orders`, the positions have one of
-- `of_positions`, and the order stays within the limits with them.
pub record IsWithinLimits (one : ℕ) (a : Adapter) (o : Options) (p : PreparedOrder)
    (of_orders number of_positions : ℕ) : Type 0 where
  pub orders_known : Orders o.exclude_client_order_id a.orders of_orders number
  pub positions_known : Positions a.positions of_positions
  pub within_total :
      IsWithin one
        (of_orders + of_positions + o.reserved_notional + p.notional)
        a.safety_limits.max_total_open_notional
  pub within_single : IsWithin one p.notional a.safety_limits.max_single_order_notional
  pub within_orders : pos (number + o.reserved_open_orders + 1) ≤ℤ a.safety_limits.max_open_orders
  pub within_chains : IsActive o.exclude_client_order_id a.orders a.positions p.symbol ⊎ HasRoom a o

chains :
    (a : Adapter) (o : Options) (symbol : String)
    → not (
          contains symbol
            (active_symbols (current_orders o.exclude_client_order_id a.orders) a.positions))
        && leb_ℤ a.safety_limits.max_active_exposure_chains (
            pos (
              length
                (active_symbols (current_orders o.exclude_client_order_id a.orders) a.positions)))
      ≡ false
    → IsActive o.exclude_client_order_id a.orders a.positions symbol ⊎ HasRoom a o
chains a o symbol e =
    let t = o.exclude_client_order_id in
    let active = active_symbols (current_orders t a.orders) a.positions in
    elim (Bool-cases (contains symbol active)) [
      | inl h ↦
          inl (active_symbols-IsActive t a.orders a.positions symbol (contains-In symbol active h))
      | inr h ↦ inr (
        active,
        (λ s. IsActive-active_symbols t a.orders a.positions s),
        one_more _ _ (ground (arith, h, e)),
      )
    ]

-- An order that may increase the risk passes only if each live order has a price above 0 and each position
-- that is not flat a known mark price above 0; their notional with the order's own and what is reserved
-- is at most the total limit, the order's is at most the single limit, the live orders, what is reserved
-- and this one are at most the limit of orders, and a live order or a position has its symbol, or the
-- symbols of these leave room for one more chain. A live order is one that is new or filled in part, but
-- not the one to leave out.
pub increase-IsWithinLimits :
    (one : ℕ) (c : Settings) (a : Adapter) (i : Intent) (w : Answers) (o : Options)
    (risk : EconomicRiskClass) (p : PreparedOrder)
    → check one c a i w o risk ≡ allowed p
    → is_risk_increasing risk ≡ true
    → (n number k : ℕ) × IsWithinLimits one a o p n number k
increase-IsWithinLimits one c a i w o risk p e up =
    let s = check-IsPassed one c a i w o risk e in
    let current = current_orders o.exclude_client_order_id a.orders in
    let gs = taken _ _ up s.exposure_pass in
    let (n, orders_known) = is_known (orders_notional current) gs.1.0 in
    let (k, positions_known) = is_known (positions_notional a.positions) gs.1.1.0 in
    let total : is_over one a.safety_limits.max_total_open_notional
          (n + k + o.reserved_notional + p.notional)
        ≡ false =
      subst
        (λ z.
          is_over one a.safety_limits.max_total_open_notional (z + o.reserved_notional + p.notional)
          ≡ false)
        (both_known orders_known positions_known) gs.1.1.1.0 in
    (
      n,
      length current,
      k,
      record {
        orders_known = current-Orders o.exclude_client_order_id a.orders n orders_known;
        positions_known = positions_notional-Positions a.positions k positions_known;
        within_total = is_over-IsWithin one _ _ total;
        within_single = is_over-IsWithin one _ _ gs.1.1.1.1.0;
        within_orders = one_more _ _ gs.0;
        within_chains = rw s.same_symbol (chains a o i.symbol gs.1.1.1.1.1.0);
      },
    )

given_unless : (f : Bool) {b : Bool} → not f ≡ true → not f && not b ≡ false → b ≡ true
given_unless f {b} e = ground arith

asked : (m f : Bool) {b : Bool} → m && not f && not b ≡ false → m ≡ true → not f ≡ true → b ≡ true
asked m f {b} e = ground arith

known_account :
    (one : ℕ) (a : Adapter) (x : Option ExchangeAccountSnapshot)
    → is_mainnet a.env ≡ true
    → not (available_balance_is_positive x) ≡ false
    → AllPass (mainnet_account_guards one a x)
    → (s : ExchangeAccountSnapshot) × (x ≡ some s) × IsSafeAccount one a.safety_limits s
known_account one a none m e h = ground arith
known_account one a (some s) m e h =
    (s, refl, mainnet_guards-IsSafeAccount one a.safety_limits s (taken _ _ m h))

-- On Mainnet an order that may increase the risk passes only if live trading was approved, the private
-- stream is healthy, the books are in sync, and the account's snapshot is fresh, in USDC, with balances
-- above 0 and within the cap, an effective and a configured leverage that are known and within the cap,
-- and a loss of the day that is known, in USDC, with fees and funding, over a window from midnight of at
-- most a day, and below its cap.
pub mainnet_increase_safe :
    (one : ℕ) (c : Settings) (a : Adapter) (i : Intent) (w : Answers) (o : Options)
    (risk : EconomicRiskClass) (p : PreparedOrder)
    → check one c a i w o risk ≡ allowed p
    → is_risk_increasing risk ≡ true
    → is_mainnet a.env ≡ true
    → (c.mainnet_live_approved ≡ true)
      × (stream_health a ≡ true)
      × (str_eq a.last_status "IN_SYNC" ≡ true)
      × (w.is_account_snapshot_fresh ≡ true)
      × ((s : ExchangeAccountSnapshot) × (snapshot_of a ≡ some s)
          × IsSafeAccount one a.safety_limits s)
mainnet_increase_safe one c a i w o risk p e up on_mainnet =
    let s = check-IsPassed one c a i w o risk e in
    let fallback = is_fallback o risk in
    let calm = not_fallback o risk up in
    let gs = s.route_pass in
    let hs = taken _ _ (both up calm) s.account_pass in
    (
      asked (is_mainnet a.env) fallback gs.1.1.1.1.0 on_mainnet calm,
      given_unless fallback calm gs.1.1.1.1.1.0,
      given_unless fallback calm gs.1.1.1.1.1.1.0,
      asked (is_risk_increasing risk) fallback gs.1.1.1.1.1.1.1.0 up calm,
      known_account one a (snapshot_of a) on_mainnet hs.0 hs.1.1.1,
    )
