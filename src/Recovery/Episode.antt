-- ===== src/Recovery/Episode.antt =====
-- The states of the engine over any calls: a symbol's episode lasts while its drawdown is toxic.
use blessing_ai.Prelude.{
  ℕ, String, ◌≡◌, refl, arith, true, false, Option, none, some, List, [], ◌∷◌, or_else, str_eq,
  if◌then◌else◌, eq_iff, Bool-cases, inl, inr, subst, sym,
}
use blessing_ai.Prelude.Int.{ℤ, leb_ℤ}
use blessing_ai.Prelude.Dict.{get, get-put}
use blessing_ai.Domain.{TargetExposure, amount}
use blessing_ai.Recovery.{
  ExposureRecoveryEngine, RecoveryState, process, is_toxic, get_or_create_state, set_state,
  next_state, activated,
}

-- a call of `process`
pub record Call : Type 0 where
  pub target : TargetExposure
  pub drawdown : ℤ
  pub qty : ℤ
  pub vol : ℤ
  pub created : ℕ
  pub now : ℕ

abbrev pub after : ℕ → ExposureRecoveryEngine → Call → ExposureRecoveryEngine
after one e c = (process one e c.target c.drawdown c.qty c.vol c.created c.now).1

abbrev pub after_all : ℕ → ExposureRecoveryEngine → List Call → ExposureRecoveryEngine
after_all one e [] = e
after_all one e (c ∷ cs) = after_all one (after one e c) cs

-- The drawdown at which the symbol's running episode began, if one is running: the first toxic
-- drawdown since the last one that was not.
abbrev pub episode : ℤ → String → Option ℤ → List Call → Option ℤ
episode trigger symbol o [] = o
episode trigger symbol o (c ∷ cs) =
    let o' =
      if str_eq c.target.symbol symbol
      then (if leb_ℤ trigger c.drawdown then or_else o (some c.drawdown) else none)
      else o in
    episode trigger symbol o' cs

-- The state is active while an episode is running, and keeps the drawdown at which it began.
abbrev pub Shows : RecoveryState → Option ℤ → Type 0
Shows s none = (s.is_active ≡ false)
Shows s (some drawdown) = (s.is_active ≡ true) × (s.locked_toxicity_level ≡ drawdown)

abbrev pub Tracks : ExposureRecoveryEngine → String → Option ℤ → Type 0
Tracks e symbol o = (created : ℕ) → Shows (get_or_create_state e symbol created) o

next-Shows :
    (e : ExposureRecoveryEngine) (s : RecoveryState) (drawdown qty delta : ℤ) (now : ℕ)
    (o : Option ℤ)
    → Shows s o
    → Shows
        (next_state e s drawdown qty delta now)
        (if is_toxic e drawdown then or_else o (some drawdown) else none)
unfolding next_state activated
next-Shows e s drawdown qty delta now none h = elim (Bool-cases (is_toxic e drawdown)) [
  | inl t ↦ rw t (rw h (refl, refl))
  | inr t ↦ rw t (simp (h))
]
next-Shows e s drawdown qty delta now (some d) h = elim (Bool-cases (is_toxic e drawdown)) [
  | inl t ↦ rw t (rw h.0 (refl, h.1))
  | inr t ↦ rw t (simp (h.0))
]

new_Tracks : (e : ExposureRecoveryEngine) (symbol : String) → e.states ≡ [] → Tracks e symbol none
unfolding get_or_create_state get
new_Tracks e symbol h created = rw h refl

get_or_create_state-set_state :
    (e : ExposureRecoveryEngine) (t symbol : String) (v : RecoveryState) (created : ℕ)
    → get_or_create_state (set_state e t v) symbol created
      ≡ (if str_eq t symbol then v else get_or_create_state e symbol created)
unfolding get_or_create_state
get_or_create_state-set_state e t symbol v created = ground (arith, get-put t symbol v e.states)

call-Tracks :
    (one : ℕ) (e : ExposureRecoveryEngine) (c : Call) (symbol : String) (o : Option ℤ)
    → Tracks e symbol o
    → Tracks (after one e c) symbol (
        if str_eq c.target.symbol symbol
        then (if is_toxic e c.drawdown then or_else o (some c.drawdown) else none)
        else o)
unfolding process
call-Tracks one e c symbol o h created =
    let v =
      next_state e (get_or_create_state e c.target.symbol c.created) c.drawdown c.qty
        (amount c.target.target_net_delta_qty) c.now in
    rw (get_or_create_state-set_state e c.target.symbol symbol v created)
      (elim (Bool-cases (str_eq c.target.symbol symbol)) [
        | inl k ↦ rw k (
            let same = (eq_iff c.target.symbol symbol).0 k in
            next-Shows e (get_or_create_state e c.target.symbol c.created) c.drawdown c.qty
              (amount c.target.target_net_delta_qty) c.now o
              (subst (λ t. Shows (get_or_create_state e t c.created) o) (sym same) (h c.created)))
        | inr k ↦ rw k (h created)
      ])

tracked :
    (one : ℕ) (e : ExposureRecoveryEngine) (cs : List Call) (symbol : String) (o : Option ℤ)
    → Tracks e symbol o
    → Tracks (after_all one e cs) symbol (episode e.drawdown_trigger_pct symbol o cs)
unfolding process
tracked one e [] symbol o h = h
tracked one e (c ∷ cs) symbol o h =
    tracked one (after one e c) cs symbol _ (call-Tracks one e c symbol o h)

-- After any calls of a new engine, for any symbols, the state of a symbol is active exactly while an
-- episode of it is running, and its locked level is the drawdown at which that episode began.
pub episode_tracked :
    (one : ℕ) (e : ExposureRecoveryEngine) (cs : List Call) (symbol : String)
    → e.states ≡ []
    → Tracks (after_all one e cs) symbol (episode e.drawdown_trigger_pct symbol none cs)
episode_tracked one e cs symbol h = tracked one e cs symbol none (new_Tracks e symbol h)
