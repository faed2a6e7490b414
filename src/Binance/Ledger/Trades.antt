-- ===== src/Binance/Ledger/Trades.antt =====
-- Which fills are of one trade.
use text.Mathlib.TextBridge.{IsPrefix}
use text.Mathlib.TextEquality.{starts_with_iff}
use blessing_ai.Prelude.{
  String, true, false, List, [], ◌∷◌, ◌≡◌, ◌≢◌, ◌⊎◌, inl, inr, refl, sym, ◌∙◌, arith, In, here,
  there, Bool-cases, str_eq, eq_iff, subst,
}
use blessing_ai.Binance.Ledger.{ExchangeFill, get_fill_key, key_eq, scan, venue_of, is_labelled}

-- The source is the label, or the label with a phase.
abbrev pub IsLabelled : String → String → String → Type 0
IsLabelled label prefix source = (source ≡ label) ⊎ IsPrefix prefix source

-- The venue that a source names.
pub data IsVenue (source : String) : String → Type 0 where
  of_testnet :
      IsLabelled "BINANCE_TESTNET" "BINANCE_TESTNET_" source → IsVenue source "BINANCE_TESTNET"
  of_mainnet :
      ¬ (IsLabelled "BINANCE_TESTNET" "BINANCE_TESTNET_" source)
      → IsLabelled "BINANCE_MAINNET" "BINANCE_MAINNET_" source
      → IsVenue source "BINANCE_MAINNET"
  of_none : source ≡ "" → IsVenue source "UNKNOWN"
  of_other :
      ¬ (IsLabelled "BINANCE_TESTNET" "BINANCE_TESTNET_" source)
      → ¬ (IsLabelled "BINANCE_MAINNET" "BINANCE_MAINNET_" source)
      → source ≢ ""
      → IsVenue source source

-- The fills are of the same venue, symbol and trade id.
abbrev pub IsSameTrade : ExchangeFill → ExchangeFill → Type 0
IsSameTrade f g =
    ((venue : String) × IsVenue f.source venue × IsVenue g.source venue)
    × (f.symbol ≡ g.symbol)
    × (f.exchange_trade_id ≡ g.exchange_trade_id)

labelled :
    (label prefix source : String)
    → is_labelled label prefix source ≡ true
    → IsLabelled label prefix source
labelled label prefix source h = elim (Bool-cases (str_eq source label)) [
  | inl e ↦ inl ((eq_iff source label).0 e)
  | inr e ↦ inr ((starts_with_iff source prefix).0 (ground (arith, h, e)))
]

is_labelled-true :
    (label prefix source : String)
    → IsLabelled label prefix source
    → is_labelled label prefix source ≡ true
is_labelled-true label prefix source (inl e) =
    let f = (eq_iff source label).1 e in ground (arith, f)
is_labelled-true label prefix source (inr p) =
    let f = (starts_with_iff source prefix).1 p in ground (arith, f)

unlabelled :
    (label prefix source : String)
    → is_labelled label prefix source ≡ false
    → ¬ (IsLabelled label prefix source)
unlabelled label prefix source h l =
    let t = is_labelled-true label prefix source l in ground (arith, h, t)

is_labelled-false :
    (label prefix source : String)
    → ¬ (IsLabelled label prefix source)
    → is_labelled label prefix source ≡ false
is_labelled-false label prefix source n = elim (Bool-cases (is_labelled label prefix source)) [
  | inl e ↦ absurd (n (labelled label prefix source e))
  | inr e ↦ e
]

venue_of-IsVenue : (source : String) → IsVenue source (venue_of source)
unfolding venue_of
venue_of-IsVenue source =
    elim (Bool-cases (is_labelled "BINANCE_TESTNET" "BINANCE_TESTNET_" source)) [
      | inl t ↦ rw t (of_testnet (labelled _ _ source t))
      | inr t ↦ elim (Bool-cases (is_labelled "BINANCE_MAINNET" "BINANCE_MAINNET_" source)) [
        | inl m ↦ rw (t, m) (of_mainnet (unlabelled _ _ source t) (labelled _ _ source m))
        | inr m ↦ elim (Bool-cases (str_eq source "")) [
          | inl e ↦ rw (t, m, e) (of_none ((eq_iff source "").0 e))
          | inr e ↦
              rw (t, m, e)
                (of_other (unlabelled _ _ source t) (unlabelled _ _ source m)
                  (λ same. let f = (eq_iff source "").1 same in ground (arith, e, f)))
        ]
      ]
    ]

IsVenue-venue_of : (source v : String) → IsVenue source v → venue_of source ≡ v
unfolding venue_of
IsVenue-venue_of source v (of_testnet l) = rw (is_labelled-true _ _ source l) refl
IsVenue-venue_of source v (of_mainnet n l) =
    rw (is_labelled-false _ _ source n, is_labelled-true _ _ source l) refl
IsVenue-venue_of source v (of_none e) = rw e refl
IsVenue-venue_of source v (of_other n m ne) = elim (Bool-cases (str_eq source "")) [
  | inl e ↦ absurd (ne ((eq_iff source "").0 e))
  | inr e ↦ rw (is_labelled-false _ _ source n, is_labelled-false _ _ source m, e) refl
]

key_eq-IsSameTrade :
    (f g : ExchangeFill) → key_eq (get_fill_key g) (get_fill_key f) ≡ true → IsSameTrade f g
key_eq-IsSameTrade f g h =
    let same : venue_of g.source ≡ venue_of f.source =
      (eq_iff (venue_of g.source) (venue_of f.source)).0 (ground (arith, h)) in
    (
      (
        venue_of f.source,
        venue_of-IsVenue f.source,
        subst (λ v. IsVenue g.source v) same (venue_of-IsVenue g.source),
      ),
      sym ((eq_iff g.symbol f.symbol).0 (ground (arith, h))),
      sym ((eq_iff g.exchange_trade_id f.exchange_trade_id).0 (ground (arith, h))),
    )

IsSameTrade-key_eq :
    (f g : ExchangeFill) → IsSameTrade f g → key_eq (get_fill_key g) (get_fill_key f) ≡ true
IsSameTrade-key_eq f g ((v, a, b), s, t) =
    let venues : venue_of g.source ≡ venue_of f.source =
      IsVenue-venue_of g.source v b ∙ sym (IsVenue-venue_of f.source v a) in
    let x = (eq_iff (venue_of g.source) (venue_of f.source)).1 venues in
    let y = (eq_iff g.symbol f.symbol).1 (sym s) in
    let z = (eq_iff g.exchange_trade_id f.exchange_trade_id).1 (sym t) in ground (arith, x, y, z)

pub scan-IsSameTrade :
    (f : ExchangeFill) (fs : List ExchangeFill)
    → scan (get_fill_key f) fs ≡ true
    → (g : ExchangeFill) × In g fs × IsSameTrade f g
scan-IsSameTrade f [] h = cc
scan-IsSameTrade f (g ∷ fs) h = elim (Bool-cases (key_eq (get_fill_key g) (get_fill_key f))) [
  | inl e ↦ (g, here, key_eq-IsSameTrade f g e)
  | inr e ↦ let (x, i, s) = scan-IsSameTrade f fs (ground (arith, h, e)) in (x, there i, s)
]

pub scan-new :
    (f : ExchangeFill) (fs : List ExchangeFill)
    → scan (get_fill_key f) fs ≡ false
    → (g : ExchangeFill) → In g fs
    → ¬ (IsSameTrade f g)
scan-new f [] h g i s = elim i [ ]
scan-new f (x ∷ fs) h g here s = let e = IsSameTrade-key_eq f x s in ground (arith, h, e)
scan-new f (x ∷ fs) h g (there i) s = scan-new f fs (ground (arith, h)) g i s
