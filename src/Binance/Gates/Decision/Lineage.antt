-- ===== src/Binance/Gates/Decision/Lineage.antt =====
-- What a decision that may increase the risk has passed.
use blessing_ai.Prelude.{
  ℕ, String, Bool, true, false, ◌&&◌, not, Option, none, some, List, [], ◌∷◌, ◌++◌, arith, ◌≡◌, ◌⊎◌,
  inl, inr, refl, subst, All, Bool-cases, is_some, str_eq, eq_iff,
}
use blessing_ai.Prelude.Dict.{get}
use blessing_ai.Binance.Rules.{contains}
use blessing_ai.Binance.Gates.{allowed, Guards, Settings, is_risk_increasing}
use blessing_ai.Binance.Gates.Order.{stream_health}
use blessing_ai.Binance.Gates.Order.Inputs.{Adapter}
use blessing_ai.Binance.Gates.Passed.{AllPass, guarded-allowed, taken, granted, neither}
use blessing_ai.Binance.Gates.Decision.{
  DecisionOrder, Decision, Worker, known_only, system_strategies, lineage_prefix_to_strategy,
  canonical_strategy_id, is_enabled, strategy_guards, lineage_guards, order_prefixes,
  disabled_strategy_guards, worker_guards, adapter_guards, decision_guards, symbol_guards,
  new_risk_guards, with_adapter, check_decision, is_live,
}

-- a strategy of the system, or one that is enabled
abbrev pub IsTraceable : List String → DecisionOrder → Type 0
IsTraceable enabled o =
    (contains o.strategy_id system_strategies ≡ true)
    ⊎ ((k : String) × (canonical_strategy_id o.strategy_id ≡ some k) × (contains k enabled ≡ true))

-- a prefix that names a strategy names one that is enabled
abbrev pub IsLineage : List String → String → Type 0
IsLineage enabled prefix =
    (k : String) → get prefix lineage_prefix_to_strategy ≡ some k → contains k enabled ≡ true

abbrev pub IsSampled : Worker → DecisionOrder → Type 0
IsSampled w o = w.has_market_sample o.symbol ≡ true

append-AllPass : (gs hs : Guards) → AllPass (gs ++ hs) → AllPass gs × AllPass hs
append-AllPass [] hs h = (tt, h)
append-AllPass (g ∷ gs) hs h = let (p, q) = append-AllPass gs hs h.1 in ((h.0, p), q)

known_only-contains :
    (k : String) (ts : List String) → contains k (known_only ts) ≡ true → contains k ts ≡ true
known_only-contains k [] e = e
known_only-contains k (t ∷ ts) e = let h = known_only-contains k ts in ground (arith, h, e)

enabled_strategy :
    (ts : List String) (o : Option String)
    → not (is_enabled (known_only ts) o) ≡ false
    → (k : String) × (o ≡ some k) × (contains k ts ≡ true)
enabled_strategy ts none e = ground arith
enabled_strategy ts (some k) e = (k, refl, known_only-contains k ts (granted e))

strategy_guards-IsTraceable :
    (ts : List String) (os : List DecisionOrder)
    → AllPass (strategy_guards (known_only ts) os)
    → All (IsTraceable ts) os
strategy_guards-IsTraceable ts [] h = tt
strategy_guards-IsTraceable ts (o ∷ os) h = (
  elim (Bool-cases (contains o.strategy_id system_strategies)) [
    | inl e ↦ inl e
    | inr e ↦
        inr (enabled_strategy ts (canonical_strategy_id o.strategy_id) (ground (arith, e, h.1.0)))
  ],
  strategy_guards-IsTraceable ts os h.1.1,
)

enabled_lineage :
    (ts : List String) (o : Option String) (k : String)
    → is_some o && not (is_enabled ts o) ≡ false
    → o ≡ some k
    → contains k ts ≡ true
enabled_lineage ts o k h e =
    let g = subst (λ x. is_some x && not (is_enabled ts x) ≡ false) e h in granted g

lineage_guards-IsLineage :
    (ts : List String) (ps : List String)
    → AllPass (lineage_guards (known_only ts) ps)
    → All (IsLineage ts) ps
lineage_guards-IsLineage ts [] h = tt
lineage_guards-IsLineage ts (prefix ∷ ps) h = (
  λ k e.
      known_only-contains k ts
        (enabled_lineage (known_only ts) (get prefix lineage_prefix_to_strategy) k h.0 e),
  lineage_guards-IsLineage ts ps h.1,
)

symbol_guards-IsSampled :
    (c : Settings) (w : Worker) (os : List DecisionOrder)
    → AllPass (symbol_guards c w os)
    → All (IsSampled w) os
symbol_guards-IsSampled c w [] h = tt
symbol_guards-IsSampled c w (o ∷ os) h = (granted h.0, symbol_guards-IsSampled c w os h.1.1)

with_adapter-lem :
    (one : ℕ) (c : Settings) (w : Worker) (d : Decision) (x : Option Adapter)
    → with_adapter one c w d x ≡ allowed tt
    → (a : Adapter) × (x ≡ some a)
      × AllPass (adapter_guards a)
      × AllPass (disabled_strategy_guards w d)
      × AllPass (new_risk_guards one c w a d)
with_adapter-lem one c w d none e = ground arith
with_adapter-lem one c w d (some a) e =
    let (on_adapter, e₁) = guarded-allowed (adapter_guards a) e in
    let (on_decision, e₂) = guarded-allowed (decision_guards d) e₁ in
    let (on_strategy, e₃) = guarded-allowed (disabled_strategy_guards w d) e₂ in
    let (on_risk, e₄) = guarded-allowed (new_risk_guards one c w a d) e₃ in
    (a, refl, on_adapter, on_strategy, on_risk)

armed :
    (t : String)
    → contains t ("ARMED" ∷ "PAUSED_NEW_RISK" ∷ "RECOVERY_ONLY" ∷ []) ≡ true
    → str_eq t "PAUSED_NEW_RISK" ≡ false
    → str_eq t "RECOVERY_ONLY" ≡ false
    → t ≡ "ARMED"
armed t e f g = (eq_iff t "ARMED").0 (ground (arith, e, f, g))

live_approved :
    {live approved : Bool} → live && not approved ≡ false → live ≡ true → approved ≡ true
live_approved {live} {approved} e f = ground arith

-- A decision that may increase the risk passes only in the ARMED state, with the kill switch off, on Mainnet with the
-- approval, over an adapter that is ready, healthy and in sync, where every order has a market sample and is of the system or of a strategy
-- that is enabled, and no lineage id names one that is not.
pub new_risk_armed :
    (one : ℕ) (c : Settings) (w : Worker) (d : Decision)
    → check_decision one c w d ≡ allowed tt
    → is_risk_increasing d.risk_class ≡ true
    → (w.engine_state ≡ "ARMED")
      × (w.kill_switch_active ≡ false)
      × (is_live w ≡ true → c.mainnet_live_approved ≡ true)
      × All (IsSampled w) d.orders
      × All (IsTraceable w.enabled_strategies) d.orders
      × All (IsLineage w.enabled_strategies) (d.source_prefixes ++ order_prefixes d.orders)
      × (a : Adapter) × (w.execution_adapter ≡ some a)
      × (a.is_ready ≡ true)
      × (stream_health a ≡ true)
      × (str_eq a.last_status "IN_SYNC" ≡ true)
unfolding check_decision
new_risk_armed one c w d e up =
    let (gs, e₁) = guarded-allowed (worker_guards c w) e in
    let (a, found, on_adapter, on_strategy, on_risk) =
      with_adapter-lem one c w d w.execution_adapter e₁ in
    let hs = taken _ _ up on_risk in
    let enabled = known_only w.enabled_strategies in
    let (strategies, lineage) =
      append-AllPass (strategy_guards enabled d.orders)
        (lineage_guards enabled (d.source_prefixes ++ order_prefixes d.orders))
        (taken _ _ up on_strategy) in
    (
      armed w.engine_state (granted gs.1.1.0) (neither hs.0).1 (neither hs.1.0).1,
      gs.1.1.1.0,
      live_approved gs.1.0,
      symbol_guards-IsSampled c w d.orders hs.1.1.1.1.1.1.1,
      strategy_guards-IsTraceable w.enabled_strategies d.orders strategies,
      lineage_guards-IsLineage w.enabled_strategies _ lineage,
      a,
      found,
      granted on_adapter.0,
      granted on_adapter.1.1.1.0,
      granted on_adapter.1.1.1.1.0,
    )

-- a decision that may increase the risk does not pass while new risk is paused
pub new_risk_unpaused :
    (one : ℕ) (c : Settings) (w : Worker) (d : Decision)
    → check_decision one c w d ≡ allowed tt
    → is_risk_increasing d.risk_class ≡ true
    → w.pause_new_risk ≡ false
unfolding check_decision
new_risk_unpaused one c w d e up =
    let (gs, e₁) = guarded-allowed (worker_guards c w) e in
    let (a, found, on_adapter, on_strategy, on_risk) =
      with_adapter-lem one c w d w.execution_adapter e₁ in
    (neither (taken _ _ up on_risk).0).0
