-- ===== src/Binance/Ledger/Orders.antt =====
-- The orders that the ledger keeps, and what is kept of an order when the exchange reports it.
use blessing_ai.Prelude.{
  ℕ, ◌+◌, String, Option, some, arith, ◌≡◌, ◌≢◌, refl, ◌∙◌, if◌then◌else◌, str_eq, eq_iff, OnSome,
  OnSome-some, Option-cases, inl, inr, none, [], ◌⊎◌, ◌>>=◌,
}
use blessing_ai.Prelude.Dict.{get, get-put}
use blessing_ai.Domain.{ExecutionOrder, EconomicRiskClass}
use blessing_ai.Binance.Ledger.{
  InMemoryLedger, RawOrder, exchange_order, store_order, upsert_raw_exchange_order,
  get_order_by_client_id, strategy_of, decision_of, target_of, intents_of, class_of,
}

-- the lineage of an order that the ledger had
pub record IsInherited (old new : ExecutionOrder) : Type 0 where
  pub same_strategy : new.strategy_id ≡ old.strategy_id
  pub same_decision : new.decision_id ≡ old.decision_id
  pub same_target : new.target_exposure_id ≡ old.target_exposure_id
  pub same_intents : new.source_intent_ids ≡ old.source_intent_ids
  pub same_class : new.risk_class ≡ old.risk_class

-- the lineage of an order that is new to the ledger
pub record IsUnattributed (new : ExecutionOrder) : Type 0 where
  pub of_portfolio : new.strategy_id ≡ "portfolio"
  pub without_decision : new.decision_id ≡ none
  pub without_target : new.target_exposure_id ≡ none
  pub without_intents : new.source_intent_ids ≡ []
  pub no_class : new.risk_class ≡ EconomicRiskClass.noop

abbrev pub IsKept : Option ExecutionOrder → ExecutionOrder → Type 0
IsKept known new =
    ((known ≡ none) × IsUnattributed new)
    ⊎ ((old : ExecutionOrder) × (known ≡ some old) × IsInherited old new)

-- The order says what the report says.
pub record IsReported (raw : RawOrder) (new : ExecutionOrder) : Type 0 where
  pub symbol : raw.symbol ≡ some new.symbol
  pub id : raw.client_order_id ≡ some new.client_order_id
  pub status : raw.status ≡ some new.status
  pub side : raw.side ≡ some new.side
  pub quantity : raw.orig_qty ≡ some new.quantity
  pub exchange_id : raw.order_id ≡ new.exchange_order_id
  pub price : raw.price ≡ some new.price
  pub position : raw.position_side ≡ some new.position_side
  pub only_reduces : raw.reduce_only ≡ new.reduce_only

abbrev IsKeptIn : RawOrder → InMemoryLedger → ExecutionOrder → Type 0
IsKeptIn raw l new = IsReported raw new × IsKept (get new.client_order_id l.orders) new

-- the order that is made, whatever is known
lineage-IsKept :
    (known : Option ExecutionOrder) (new : ExecutionOrder)
    → new.strategy_id ≡ strategy_of known
    → new.decision_id ≡ decision_of known
    → new.target_exposure_id ≡ target_of known
    → new.source_intent_ids ≡ intents_of known
    → new.risk_class ≡ class_of known
    → IsKept known new
lineage-IsKept none new a b c d e = inl (
  refl,
  record {
    of_portfolio = a;
    without_decision = b;
    without_target = c;
    without_intents = d;
    no_class = e;
  },
)
lineage-IsKept (some old) new a b c d e = inr (
  old,
  refl,
  record {
    same_strategy = a;
    same_decision = b;
    same_target = c;
    same_intents = d;
    same_class = e;
  },
)

-- an optional field that must be there
module _ {A : Type 0} (P : ExecutionOrder → Type 0) (f : A → Option ExecutionOrder) where
  given : (o : Option A) → ((a : A) → o ≡ some a → OnSome P (f a)) → OnSome P (o >>= f)
  given none h = tt
  given (some a) h = h a refl

exchange_order-IsKept :
    (now : ℕ) (raw : RawOrder) (l : InMemoryLedger)
    → OnSome (IsKeptIn raw l) (exchange_order now raw l)
unfolding exchange_order
exchange_order-IsKept now raw l =
    let P = IsKeptIn raw l in
    given P _ raw.symbol (λ a ea. given P _ raw.client_order_id (λ b eb.
      given P _ raw.status (λ c ec. given P _ raw.side (λ d ed. given P _ raw.orig_qty (λ e ee.
        given P _ raw.order_id (λ f ef. given P _ raw.price (λ g eg.
          given P _ raw.position_side (λ h eh. given P _ raw.time_in_force (λ i ei. (
            record {
              symbol = ea;
              id = eb;
              status = ec;
              side = ed;
              quantity = ee;
              exchange_id = ef;
              price = eg;
              position = eh;
              only_reduces = refl;
            },
            lineage-IsKept (get b l.orders) _ refl refl refl refl refl,
          ))))))))))

-- the ledger that holds an order
abbrev Holds : ℕ → RawOrder → InMemoryLedger → InMemoryLedger → Type 0
Holds now raw l m =
    (new : ExecutionOrder) × IsReported raw new
    × (get_order_by_client_id new.client_order_id m ≡ some new)
    × IsKept (get_order_by_client_id new.client_order_id l) new
    × ((k : String)
        → new.client_order_id ≢ k
        → get_order_by_client_id k m ≡ get_order_by_client_id k l)
    × (m.version ≡ l.version + 1)

store_order-lem :
    (new : ExecutionOrder) (l : InMemoryLedger) (k : String)
    → get_order_by_client_id k (store_order new l)
      ≡ (if str_eq new.client_order_id k then some new else get_order_by_client_id k l)
unfolding store_order get_order_by_client_id
store_order-lem new l k = get-put new.client_order_id k new l.orders

upsert_raw-Holds :
    (now : ℕ) (raw : RawOrder) (l : InMemoryLedger)
    → OnSome (Holds now raw l) (upsert_raw_exchange_order now raw l)
unfolding upsert_raw_exchange_order store_order get_order_by_client_id
upsert_raw-Holds now raw l = elim (Option-cases (exchange_order now raw l)) [
  | inl e ↦ rw e tt
  | inr (new, e) ↦
      let kept = OnSome-some (IsKeptIn raw l) (exchange_order-IsKept now raw l) e in
      rw e (
        new,
        kept.0,
        store_order-lem new l new.client_order_id
            ∙ ground (arith, eq_iff new.client_order_id new.client_order_id),
        kept.1,
        λ k other. store_order-lem new l k ∙ ground (arith, eq_iff new.client_order_id k),
        refl,
      )
]

-- When the exchange's report of an order is stored, an order is found by its client id that has the
-- symbol, status, side, quantity, id, price, position side and reduce-only mark of the report; its
-- strategy, decision, target, intents and risk class are those of the order that the ledger had under
-- that id, or, if it had none, "portfolio", none, none, an empty list and no-op; no other order changes, and the
-- version is one higher.
pub raw_order_round_trip :
    (now : ℕ) (raw : RawOrder) (l m : InMemoryLedger)
    → upsert_raw_exchange_order now raw l ≡ some m
    → (new : ExecutionOrder) × IsReported raw new
      × (get_order_by_client_id new.client_order_id m ≡ some new)
      × IsKept (get_order_by_client_id new.client_order_id l) new
      × ((k : String)
          → new.client_order_id ≢ k
          → get_order_by_client_id k m ≡ get_order_by_client_id k l)
      × (m.version ≡ l.version + 1)
raw_order_round_trip now raw l m e = OnSome-some (Holds now raw l) (upsert_raw-Holds now raw l) e
