-- ===== src/Binance/Gates/Chains.antt =====
-- The symbols of the live orders and of the positions that are open.
use blessing_ai.Prelude.{
  String, ◌&&◌, not, Option, List, [], ◌∷◌, ◌≡◌, ◌⊎◌, inl, inr, refl, In, here, there, Bool-cases,
  subst,
}
use blessing_ai.Domain.{ExecutionOrder, ExchangePosition}
use blessing_ai.Binance.Rules.{contains, is_zero}
use blessing_ai.Binance.Rules.Contains.{contains-In}
use blessing_ai.Binance.Gates.Order.Exposure.{
  is_open, is_excluded, current_orders, add_symbol, order_symbols, active_symbols,
}
use blessing_ai.Binance.Gates.Exposures.{IsLive, IsActive, live, not_live, not_zero, is_zero-pos}

first_or : (s u : String) (ts : List String) → In s (u ∷ ts) → (u ≡ s) ⊎ In s ts
first_or s u ts here = inl refl
first_or s u ts (there i) = inr i

add_symbol-split : (s u : String) (ts : List String) → In s (add_symbol u ts) → (u ≡ s) ⊎ In s ts
add_symbol-split s u ts i = elim (Bool-cases (contains u ts)) [
  | inl h ↦ inr (rw h at i)
  | inr h ↦ first_or s u ts (rw h at i)
]

add_symbol-keeps : (s u : String) (ts : List String) → In s ts → In s (add_symbol u ts)
add_symbol-keeps s u ts i = elim (Bool-cases (contains u ts)) [
  | inl h ↦ rw h i
  | inr h ↦ rw h (there i)
]

add_symbol-adds : (u : String) (ts : List String) → In u (add_symbol u ts)
add_symbol-adds u ts = elim (Bool-cases (contains u ts)) [
  | inl h ↦ rw h (contains-In u ts h)
  | inr h ↦ rw h here
]

module _ (t : Option String) where
  live_symbol :
      (s : String) (os : List ExecutionOrder)
      → In s (order_symbols (current_orders t os))
      → (order : ExecutionOrder) × In order os × IsLive t order × (order.symbol ≡ s)
  live_symbol s [] i = elim i [ ]
  live_symbol s (o ∷ os) i = elim (Bool-cases (is_open o && not (is_excluded t o))) [
    | inl h ↦ elim (add_symbol-split s o.symbol (order_symbols (current_orders t os)) (rw h at i)) [
      | inl e ↦ (o, here, live t o h, e)
      | inr j ↦ let (x, k, l, e) = live_symbol s os j in (x, there k, l, e)
    ]
    | inr h ↦ let (x, k, l, e) = live_symbol s os (rw h at i) in (x, there k, l, e)
  ]

  symbol_live :
      (os : List ExecutionOrder) {o : ExecutionOrder}
      → In o os
      → IsLive t o
      → In o.symbol (order_symbols (current_orders t os))
  symbol_live [] i l = elim i [ ]
  symbol_live (o ∷ os) here l = elim (Bool-cases (is_open o && not (is_excluded t o))) [
    | inl h ↦ rw h (add_symbol-adds o.symbol (order_symbols (current_orders t os)))
    | inr h ↦ absurd (not_live t o h l)
  ]
  symbol_live (x ∷ os) {o} (there i) l = elim (Bool-cases (is_open x && not (is_excluded t x))) [
    | inl h ↦ rw h (
        add_symbol-keeps o.symbol x.symbol (order_symbols (current_orders t os))
          (symbol_live os i l))
    | inr h ↦ rw h (symbol_live os i l)
  ]

  later-IsActive :
      (os : List ExecutionOrder) (p : ExchangePosition) (ps : List ExchangePosition) (s : String)
      → IsActive t os ps s
      → IsActive t os (p ∷ ps) s
  later-IsActive os p ps s (inl a) = inl a
  later-IsActive os p ps s (inr (q, i, n, e)) = inr (q, there i, n, e)

  -- A listed symbol is active.
  pub active_symbols-IsActive :
      (os : List ExecutionOrder) (ps : List ExchangePosition) (s : String)
      → In s (active_symbols (current_orders t os) ps)
      → IsActive t os ps s
  active_symbols-IsActive os [] s i = inl (live_symbol s os i)
  active_symbols-IsActive os (p ∷ ps) s i =
      let rest = active_symbols (current_orders t os) ps in
      elim (Bool-cases (is_zero p.quantity)) [
        | inl h ↦ later-IsActive os p ps s (active_symbols-IsActive os ps s (rw h at i))
        | inr h ↦ elim (add_symbol-split s p.symbol rest (rw h at i)) [
          | inl e ↦ inr (p, here, not_zero p.quantity h, e)
          | inr j ↦ later-IsActive os p ps s (active_symbols-IsActive os ps s j)
        ]
      ]

  -- An active symbol is listed.
  pub IsActive-active_symbols :
      (os : List ExecutionOrder) (ps : List ExchangePosition) (s : String)
      → IsActive t os ps s
      → In s (active_symbols (current_orders t os) ps)
  IsActive-active_symbols os [] s (inl (o, i, l, e)) =
      subst (λ x. In x (order_symbols (current_orders t os))) e (symbol_live os i l)
  IsActive-active_symbols os [] s (inr (p, i, n, e)) = elim i [ ]
  IsActive-active_symbols os (p ∷ ps) s (inl a) =
      let rest = IsActive-active_symbols os ps s (inl a) in
      elim (Bool-cases (is_zero p.quantity)) [
        | inl h ↦ rw h rest
        | inr h ↦ rw h (add_symbol-keeps s p.symbol (active_symbols (current_orders t os) ps) rest)
      ]
  IsActive-active_symbols os (p ∷ ps) s (inr (q, here, n, e)) =
      elim (Bool-cases (is_zero p.quantity)) [
        | inl h ↦ absurd (n (is_zero-pos p.quantity h))
        | inr h ↦ rw h (
            subst (λ x. In x (add_symbol p.symbol (active_symbols (current_orders t os) ps))) e
              (add_symbol-adds p.symbol (active_symbols (current_orders t os) ps)))
      ]
  IsActive-active_symbols os (p ∷ ps) s (inr (q, there i, n, e)) =
      let rest = IsActive-active_symbols os ps s (inr (q, i, n, e)) in
      elim (Bool-cases (is_zero p.quantity)) [
        | inl h ↦ rw h rest
        | inr h ↦ rw h (add_symbol-keeps s p.symbol (active_symbols (current_orders t os) ps) rest)
      ]
