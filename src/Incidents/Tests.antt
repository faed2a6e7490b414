-- ===== src/Incidents/Tests.antt =====
-- The incidents at concrete calls.
use blessing_ai.Prelude.{true, false, none, some, List, [], ◌∷◌, ◌≡◌, refl, is_some}
use blessing_ai.Prelude.Dict.{get, put}
use blessing_ai.Incidents.{
  TradeLineage, OutcomeGrade, create_incident_from_lineage, advance_and_close, advanced,
  incident_of, has_active,
}
use blessing_ai.Incidents.Discipline.{
  Call, opened, closing, call_all, new_manager, WasWorked, closed-WasWorked,
}
use blessing_ai.Incidents.Coverage.{open_contained}

abbrev slipped : TradeLineage
slipped = record {
  lineage_id = "LIN-1";
  symbol = "BTCUSDT";
  outcome_grade = OutcomeGrade.excess_slippage;
  rule_zero = false;
  problem = "30 bps";
}

abbrev breached : TradeLineage
breached = record slipped { lineage_id = "LIN-2"; rule_zero = true }

abbrev two_opened : List Call
two_opened = opened "8D-1" (some "why") slipped ∷ opened "8D-2" (some "why") breached ∷ []

abbrev one_closed : List Call
one_closed =
    opened "8D-1" (some "why") slipped
    ∷ opened "8D-2" (some "why") breached
    ∷ closing "8D-1" "log" "post only" "depth" "ops"
    ∷ []

-- the breach of rule 0 asks for a global pause, which a later incident of the symbol replaces
replaced :
    get "BTCUSDT"
      (call_all
        (opened "8D-2" (some "why") breached ∷ opened "8D-1" (some "why") slipped ∷ [])
        new_manager).active_containments
    ≡ some "COOL_DOWN_SYMBOL"
unfolding create_incident_from_lineage get put
replaced = refl

-- a blank text closes nothing
refused :
    (advance_and_close "8D-1" "log" "" "depth" "ops" (call_all two_opened new_manager)).0 ≡ false
unfolding create_incident_from_lineage advance_and_close get put
refused = refl

closed-WasWorked_example :
    WasWorked (advanced "log" "post only" "depth" "ops" (incident_of "8D-1" "why" slipped))
unfolding create_incident_from_lineage advance_and_close get put
closed-WasWorked_example = closed-WasWorked one_closed "8D-1" refl refl

-- the analysis of the third raises: it leaves its containment, and no incident
abbrev one_raised : List Call
one_raised = opened "8D-3" none (record slipped { symbol = "ETHUSDT" }) ∷ one_closed

left_over :
    let m = call_all one_raised new_manager in
    (get "ETHUSDT" m.active_containments ≡ some "COOL_DOWN_SYMBOL")
    × (has_active "ETHUSDT" m.incidents ≡ false)
unfolding create_incident_from_lineage advance_and_close get put has_active
left_over = (refl, refl)

open_contained_example :
    is_some (get "BTCUSDT" (call_all one_raised new_manager).active_containments) ≡ true
unfolding create_incident_from_lineage advance_and_close get put
open_contained_example =
    open_contained one_raised "8D-2" {i = incident_of "8D-2" "why" breached}
      (refl, (refl, (refl, (tt, tt)))) refl refl
