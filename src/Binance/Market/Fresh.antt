-- ===== src/Binance/Market/Fresh.antt =====
-- A price that is given, and its age.
use blessing_ai.Prelude.{
  ℕ, ◌-◌, ◌≤◌, Bool, true, false, ◌&&◌, Option, none, some, arith, ◌≡◌, refl, ap, subst,
  if◌then◌else◌,
}
use blessing_ai.Prelude.Int.{ℤ, pos}
use blessing_ai.Domain.{Timestamp, aware}
use blessing_ai.Binance.Rules.{is_above_zero}
use blessing_ai.Binance.Gates.{is_fresh}
use blessing_ai.Binance.Market.{fresh_price}

gated :
    (b c : Bool) (q p : ℤ)
    → (if b && c then some q else none) ≡ some p
    → (some q ≡ some p) × (b ≡ true) × (c ≡ true)
gated true true q p e = (e, refl, refl)
gated true false q p e = ground arith
gated false c q p e = ground arith

abbrev amount_of : Option ℤ → ℤ
amount_of none = pos 0
amount_of (some p) = p

pub fresh_price-lem :
    (max_age now : ℕ) (at : Option Timestamp) (o : Option ℤ) (p : ℤ)
    → fresh_price max_age at now o ≡ some p
    → (o ≡ some p) × (is_above_zero p ≡ true) × (is_fresh max_age at now ≡ true)
fresh_price-lem max_age now at none p e = ground arith
fresh_price-lem max_age now at (some q) p e =
    let (same, positive, fresh) = gated (is_above_zero q) (is_fresh max_age at now) q p e in
    (same, subst (λ z. is_above_zero z ≡ true) (ap amount_of same) positive, fresh)

-- a time that is fresh
pub is_fresh-lem :
    (max_age now t : ℕ)
    → is_fresh max_age (some (aware t)) now ≡ true
    → (t ≤ now) × (now - t ≤ max_age)
is_fresh-lem max_age now t e = (ground arith, ground arith)
