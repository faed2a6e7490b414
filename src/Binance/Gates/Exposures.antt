-- ===== src/Binance/Gates/Exposures.antt =====
-- The orders that are live and the positions that are open, with their notional, without the sums of the
-- program.
use blessing_ai.Prelude.{
  ℕ, suc, ◌*◌, ◌+◌, ◌<◌, String, true, false, ◌&&◌, not, Option, none, some, List, [], ◌∷◌, ◌≡◌,
  ◌≢◌, ◌⊎◌, inl, inr, refl, arith, In, Bool-cases, str_eq, eq_iff, subst, length, if◌then◌else◌,
}
use blessing_ai.Prelude.Int.{ℤ, pos, abs}
use blessing_ai.Domain.{ExecutionOrder, ExchangePosition}
use blessing_ai.Binance.Rules.{is_above_zero, is_zero}
use blessing_ai.Binance.Gates.Order.Exposure.{
  is_open, is_excluded, current_orders, plus, orders_notional, marked, positions_notional,
}

-- The exchange has the order, as new or as filled in part, and it is not the one to leave out.
abbrev pub IsLive : Option String → ExecutionOrder → Type 0
IsLive t order =
    ((order.status ≡ "NEW") ⊎ (order.status ≡ "PARTIALLY_FILLED"))
    × (t ≢ some order.client_order_id)

-- The notional of the live orders, each with a price above 0, and their number.
pub data Orders (t : Option String) : List ExecutionOrder → ℕ → ℕ → Type 0 where
  no_orders : Orders t [] 0 0
  passed :
      {order : ExecutionOrder} {os : List ExecutionOrder} {n k : ℕ}
      → ¬ (IsLive t order)
      → Orders t os n k
      → Orders t (order ∷ os) n k
  counted :
      {order : ExecutionOrder} {os : List ExecutionOrder} {n k p : ℕ}
      → IsLive t order
      → order.price ≡ pos p
      → 0 < p
      → Orders t os n k
      → Orders t (order ∷ os) (abs order.quantity * p + n) (suc k)

-- The notional of the positions that are not flat, each with a mark price above 0.
pub data Positions : List ExchangePosition → ℕ → Type 0 where
  no_positions : Positions [] 0
  flat :
      {p : ExchangePosition} {ps : List ExchangePosition} {n : ℕ}
      → p.quantity ≡ pos 0
      → Positions ps n
      → Positions (p ∷ ps) n
  valued :
      {p : ExchangePosition} {ps : List ExchangePosition} {n m : ℕ}
      → p.quantity ≢ pos 0
      → p.mark_price ≡ some (pos m)
      → 0 < m
      → Positions ps n
      → Positions (p ∷ ps) (abs p.quantity * m + n)

-- A live order or a position that is not flat has the symbol.
abbrev pub IsActive : Option String → List ExecutionOrder → List ExchangePosition → String → Type 0
IsActive t os ps symbol =
    ((order : ExecutionOrder) × In order os × IsLive t order × (order.symbol ≡ symbol))
    ⊎ ((p : ExchangePosition) × In p ps × (p.quantity ≢ pos 0) × (p.symbol ≡ symbol))

open_status :
    (order : ExecutionOrder)
    → is_open order ≡ true
    → (order.status ≡ "NEW") ⊎ (order.status ≡ "PARTIALLY_FILLED")
open_status order h = elim (Bool-cases (str_eq order.status "NEW")) [
  | inl e ↦ inl ((eq_iff order.status "NEW").0 e)
  | inr e ↦ inr ((eq_iff order.status "PARTIALLY_FILLED").0 (ground (arith, h, e)))
]

status_open :
    (order : ExecutionOrder)
    → (order.status ≡ "NEW") ⊎ (order.status ≡ "PARTIALLY_FILLED")
    → is_open order ≡ true
status_open order (inl e) = let f = (eq_iff order.status "NEW").1 e in ground (arith, f)
status_open order (inr e) =
    let f = (eq_iff order.status "PARTIALLY_FILLED").1 e in ground (arith, f)

not_excluded :
    (t : Option String) (order : ExecutionOrder)
    → is_excluded t order ≡ false
    → t ≢ some order.client_order_id
not_excluded none order h e = cc
not_excluded (some t) order h e =
    let same : order.client_order_id ≡ t = cc in
    let f = (eq_iff order.client_order_id t).1 same in ground (arith, h, f)

excluded :
    (t : Option String) (order : ExecutionOrder)
    → is_excluded t order ≡ true
    → t ≡ some order.client_order_id
excluded none order h = cc
excluded (some t) order h = let e = (eq_iff order.client_order_id t).0 h in rw e refl

pub live :
    (t : Option String) (order : ExecutionOrder)
    → is_open order && not (is_excluded t order) ≡ true
    → IsLive t order
live t order h = (open_status order (ground (arith, h)), not_excluded t order (ground (arith, h)))

pub not_live :
    (t : Option String) (order : ExecutionOrder)
    → is_open order && not (is_excluded t order) ≡ false
    → ¬ (IsLive t order)
not_live t order h (s, other) =
    let o = status_open order s in other (excluded t order (ground (arith, h, o)))

above_zero : (p : ℤ) → is_above_zero p ≡ true → (n : ℕ) × (p ≡ pos n) × (0 < n)
above_zero (ℤ.pos n) h = (n, refl, ground arith)
above_zero (ℤ.negsuc n) h = ground arith

pub is_zero-pos : (q : ℤ) → is_zero q ≡ true → q ≡ pos 0
is_zero-pos q h = ground (arith, h)

pub not_zero : (q : ℤ) → is_zero q ≡ false → q ≢ pos 0
not_zero q h e = ground (arith, h, e)

plus-some : (k n : ℕ) (o : Option ℕ) → plus k o ≡ some n → (j : ℕ) × (o ≡ some j) × (n ≡ k + j)
plus-some k n none e = cc
plus-some k n (some j) e = (j, refl, ground (arith, e))

added :
    (q p : ℤ) (o : Option ℕ) (n : ℕ)
    → (if is_above_zero p then plus (abs q * abs p) o else none) ≡ some n
    → (m j : ℕ) × (p ≡ pos m) × (0 < m) × (o ≡ some j) × (n ≡ abs q * m + j)
added q p o n e = elim (Bool-cases (is_above_zero p)) [
  | inl h ↦
      let (m, same, up) = above_zero p h in
      let (j, rest, sum) = plus-some (abs q * abs p) n o (rw h at e) in
      let size : abs p ≡ m = ground (arith, same) in
      (m, j, same, up, rest, subst (λ z. n ≡ abs q * z + j) size sum)
  | inr h ↦ let bad : none ≡ some n = rw h at e in cc
]

pub current-Orders :
    (t : Option String) (os : List ExecutionOrder) (n : ℕ)
    → orders_notional (current_orders t os) ≡ some n
    → Orders t os n (length (current_orders t os))
unfolding orders_notional
current-Orders t [] n e = let same : n ≡ 0 = ground (arith, e) in rw same no_orders
current-Orders t (order ∷ os) n e = elim (Bool-cases (is_open order && not (is_excluded t order))) [
  | inl h ↦
      let (m, j, price, up, rest, sum) =
        added order.quantity order.price (orders_notional (current_orders t os)) n (rw h at e) in
      rw (h, sum) (counted (live t order h) price up (current-Orders t os j rest))
  | inr h ↦ rw h (passed (not_live t order h) (current-Orders t os n (rw h at e)))
]

marked_sum :
    (q : ℤ) (mark : Option ℤ) (o : Option ℕ) (n : ℕ)
    → marked q mark o ≡ some n
    → (m j : ℕ) × (mark ≡ some (pos m)) × (0 < m) × (o ≡ some j) × (n ≡ abs q * m + j)
marked_sum q none o n e = cc
marked_sum q (some p) o n e =
    let (m, j, same, up, rest, sum) = added q p o n e in (m, j, rw same refl, up, rest, sum)

pub positions_notional-Positions :
    (ps : List ExchangePosition) (n : ℕ) → positions_notional ps ≡ some n → Positions ps n
unfolding positions_notional
positions_notional-Positions [] n e = let same : n ≡ 0 = ground (arith, e) in rw same no_positions
positions_notional-Positions (p ∷ ps) n e = elim (Bool-cases (is_zero p.quantity)) [
  | inl h ↦ flat (is_zero-pos p.quantity h) (positions_notional-Positions ps n (rw h at e))
  | inr h ↦
      let (m, j, mark, up, rest, sum) =
        marked_sum p.quantity p.mark_price (positions_notional ps) n (rw h at e) in
      rw sum (valued (not_zero p.quantity h) mark up (positions_notional-Positions ps j rest))
]
