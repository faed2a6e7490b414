-- ===== src/Binance/Gates/Account.antt =====
-- An account on which a Mainnet order may increase the risk.
use blessing_ai.Prelude.{
  ℕ, String, ◌*◌, ◌+◌, ◌%◌, ◌||◌, eq_iff, ◌≤◌, ◌<◌, true, false, not, arith, ◌≡◌, refl, str_eq,
}
use blessing_ai.Prelude.Int.{ℤ, pos, ◌≤ℤ◌, leb_ℤ, ltb_ℤ, neg, ◌+ℤ◌}
use blessing_ai.Domain.{Value, finite, is_finite, Timestamp, aware, naive, not_datetime}
use blessing_ai.Binance.Limits.{TestnetSafetyLimits}
use blessing_ai.Binance.Gates.{ExchangeAccountSnapshot}
use blessing_ai.Binance.Gates.Mainnet.{
  daily_loss, mainnet_guards, exceeds, exceeds_from_zero, window_is_invalid,
}
use blessing_ai.Binance.Gates.Passed.{AllPass, neither}

-- a value that is a finite number, above 0 and at most a cap
abbrev pub IsPositiveWithin : Value → ℤ → Type 0
IsPositiveWithin v cap = (n : ℕ) × (v ≡ finite (pos n)) × (0 < n) × (pos n ≤ℤ cap)

exceeds-IsPositiveWithin : (v : Value) (cap : ℤ) → exceeds v cap ≡ false → IsPositiveWithin v cap
exceeds-IsPositiveWithin Value.invalid cap e = ground arith
exceeds-IsPositiveWithin Value.non_finite cap e = ground arith
exceeds-IsPositiveWithin (finite (ℤ.pos n)) cap e = (n, refl, ground arith, ground arith)
exceeds-IsPositiveWithin (finite (ℤ.negsuc n)) cap e = ground arith

-- a value that is a finite number, at least 0 and at most a cap
abbrev pub IsWithinCap : Value → ℤ → Type 0
IsWithinCap v cap = (n : ℕ) × (v ≡ finite (pos n)) × (pos n ≤ℤ cap)

exceeds_from_zero-IsWithinCap :
    (v : Value) (cap : ℤ) → exceeds_from_zero v cap ≡ false → IsWithinCap v cap
exceeds_from_zero-IsWithinCap Value.invalid cap e = ground arith
exceeds_from_zero-IsWithinCap Value.non_finite cap e = ground arith
exceeds_from_zero-IsWithinCap (finite (ℤ.pos n)) cap e = (n, refl, ground arith)
exceeds_from_zero-IsWithinCap (finite (ℤ.negsuc n)) cap e = ground arith

-- A window of the loss that starts at midnight UTC and lasts at most a day, of 86,400,000,000
-- microseconds.
abbrev pub IsDay : Timestamp → Timestamp → Type 0
IsDay start end =
    (a b : ℕ) × (start ≡ aware a)
    × (end ≡ aware b)
    × (a % 86400000000 ≡ 0)
    × (a ≤ b)
    × (b ≤ a + 86400000000)

window-IsDay : (start end : Timestamp) → window_is_invalid start end ≡ false → IsDay start end
window-IsDay (aware a) (aware b) e = (a, b, refl, refl, ground arith, ground arith, ground arith)
window-IsDay (aware a) naive e = ground arith
window-IsDay (aware a) not_datetime e = ground arith
window-IsDay naive end e = ground arith
window-IsDay not_datetime end e = ground arith

both_texts : {t u v : String} → not (str_eq t v) || not (str_eq u v) ≡ false → (t ≡ v) × (u ≡ v)
both_texts {t} {u} {v} e = ((eq_iff t v).0 (ground arith), (eq_iff u v).0 (ground arith))

-- What the guards of Mainnet have found of it.
pub record IsSafeAccount (one : ℕ) (l : TestnetSafetyLimits) (s : ExchangeAccountSnapshot)
    : Type 0 where
  pub wallet : IsPositiveWithin s.wallet_balance l.max_collateral
  pub collateral : IsPositiveWithin s.margin_balance l.max_collateral
  pub configured_ten : IsPositiveWithin s.configured_leverage (pos (10 * one))
  pub configured : IsPositiveWithin s.configured_leverage l.max_leverage
  pub effective : (n : ℕ) × (s.effective_leverage ≡ finite (pos n)) × (pos n ≤ℤ l.max_leverage)
  pub leverage_known : s.configured_leverage_known ≡ true
  pub in_usdc : (s.collateral_asset ≡ "USDC") × (s.risk_currency ≡ "USDC")
  pub margin : s.margin_mode_known ≡ true
  pub loss_known : (s.daily_loss_known ≡ true) × (s.daily_loss_asset ≡ "USDC")
  pub loss_complete : (s.daily_pnl_includes_fees ≡ true) × (s.daily_pnl_includes_funding ≡ true)
  pub window : IsDay s.daily_loss_window_start s.daily_loss_window_end
  pub loss :
      (r u : ℤ) × (s.daily_realized_pnl ≡ finite r)
      × (s.unrealized_pnl ≡ finite u)
      × (ltb_ℤ (neg (r +ℤ u)) l.max_daily_loss ≡ true)

is_finite-number : (v : Value) → not (is_finite v) ≡ false → (n : ℤ) × (v ≡ finite n)
is_finite-number Value.invalid e = ground arith
is_finite-number Value.non_finite e = ground arith
is_finite-number (finite n) e = (n, refl)

loss_below :
    (l : ℤ) (x y : Value) (r u : ℤ)
    → x ≡ finite r
    → y ≡ finite u
    → leb_ℤ l (daily_loss x y) ≡ false
    → ltb_ℤ (neg (r +ℤ u)) l ≡ true
unfolding daily_loss
loss_below l x y r u e f = rw (e, f) (λ h. ground (arith, h))

pub mainnet_guards-IsSafeAccount :
    (one : ℕ) (l : TestnetSafetyLimits) (s : ExchangeAccountSnapshot)
    → AllPass (mainnet_guards one l s)
    → IsSafeAccount one l s
mainnet_guards-IsSafeAccount one l s h =
    let caps = h.1.1.1.1.0 in
    let leverage = h.1.1.1.1.1.1.0 in
    let numbers = h.1.1.1.1.1.1.1.1.1.1.1.0 in
    let loss = h.1.1.1.1.1.1.1.1.1.1.1.1.0 in
    let usdc = h.1.0 in
    let mode = h.1.1.0 in
    let complete = h.1.1.1.1.1.1.1.0 in
    let window = h.1.1.1.1.1.1.1.1.1.1.0 in
    let (r, e) = is_finite-number s.daily_realized_pnl (neither numbers).0 in
    let (u, f) = is_finite-number s.unrealized_pnl (neither numbers).1 in
    record {
      wallet = exceeds-IsPositiveWithin _ _ (neither caps).0;
      collateral = exceeds-IsPositiveWithin _ _ (neither caps).1;
      configured_ten = exceeds-IsPositiveWithin _ _ (neither (neither leverage).0).1;
      configured = exceeds-IsPositiveWithin _ _ (neither leverage).1;
      effective = exceeds_from_zero-IsWithinCap _ _ h.1.1.1.1.1.0;
      leverage_known = ground (arith, leverage);
      in_usdc = both_texts usdc;
      margin = ground (arith, mode);
      loss_known = (
        ground (arith, complete),
        (eq_iff s.daily_loss_asset "USDC").0 (ground (arith, complete)),
      );
      loss_complete = (ground (arith, complete), ground (arith, complete));
      window = window-IsDay _ _ window;
      loss = (r, u, e, f, loss_below _ _ _ r u e f loss);
    }
