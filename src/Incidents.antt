-- ===== src/Incidents.antt =====
-- domain/eight_d.py and apps/learning_engine/eight_d_manager.py: the incidents of the eight disciplines,
-- from their creation for a closed trade to their closing. The text of a field, or of the parts of a
-- record of texts, is one text; the new id is an argument, and so is the tree of causes, which is none if
-- its analysis raises. A text that is blank is empty.
pub mod Discipline
pub mod Containment
pub mod Coverage
mod Tests
use blessing_ai.Prelude.{
  ℕ, suc, String, Bool, true, false, ◌&&◌, ◌||◌, not, Option, none, some, List, [], ◌∷◌, ◌++◌, any,
  if◌then◌else◌, str_eq, is_some,
}
use blessing_ai.Prelude.Dict.{Dict, get, put, remove}

pub data IncidentSeverity : Type 0 where
  low medium high critical : IncidentSeverity

pub data IncidentStatus : Type 0 where
  established described contained root_cause_found pca_chosen pca_verified prevention_applied
        closed :
      IncidentStatus

pub data IncidentTriggerType : Type 0 where
  drawdown_breach slippage_spike unexpected_loss regime_mismatch edge_decay data_quality
        rule_zero_breach :
      IncidentTriggerType

pub data OutcomeGrade : Type 0 where
  alpha acceptable_profit acceptable_loss excess_slippage regime_mismatch unexpected_loss :
      OutcomeGrade

-- `TradeLineage`, as far as the manager decides by it: `rule_zero` says that its lessons name RULE_ZERO.
pub record TradeLineage : Type 0 where
  pub lineage_id : String
  pub symbol : String
  pub outcome_grade : OutcomeGrade
  pub rule_zero : Bool
  pub problem : String

pub record EightDIncident : Type 0 where
  pub incident_id : String
  pub severity : IncidentSeverity
  pub status : IncidentStatus
  pub trigger_type : IncidentTriggerType
  pub symbol : String
  pub lineage_id : String
  pub d2_problem : Option String
  pub d3_containment : Option String
  pub d4_root_cause : Option String
  pub d5_pca : List String
  pub d6_verification : Option (String × Bool)
  pub d7_prevention : List String
  pub d8_closure : Option (String × String)

-- `EightDIncident.create`
abbrev pub create :
    String → IncidentSeverity → IncidentTriggerType → String → String → EightDIncident
create id severity trigger symbol lineage_id = record {
  incident_id = id;
  severity = severity;
  status = IncidentStatus.established;
  trigger_type = trigger;
  symbol = symbol;
  lineage_id = lineage_id;
  d2_problem = none;
  d3_containment = none;
  d4_root_cause = none;
  d5_pca = [];
  d6_verification = none;
  d7_prevention = [];
  d8_closure = none;
}

abbrev pub set_d2_problem : String → EightDIncident → EightDIncident
set_d2_problem t i = record i { d2_problem = some t; status = IncidentStatus.described }

abbrev pub set_d3_containment : String → EightDIncident → EightDIncident
set_d3_containment t i = record i { d3_containment = some t; status = IncidentStatus.contained }

abbrev pub set_d4_root_cause : String → EightDIncident → EightDIncident
set_d4_root_cause t i = record i {
  d4_root_cause = some t;
  status = IncidentStatus.root_cause_found;
}

abbrev pub add_d5_pca : String → EightDIncident → EightDIncident
add_d5_pca t i = record i { d5_pca = i.d5_pca ++ (t ∷ []); status = IncidentStatus.pca_chosen }

abbrev pub set_d6_verification : String → Bool → EightDIncident → EightDIncident
set_d6_verification t passed i = record i {
  d6_verification = some (t, passed);
  status = if passed then IncidentStatus.pca_verified else i.status;
}

abbrev pub add_d7_prevention : String → EightDIncident → EightDIncident
add_d7_prevention t i = record i {
  d7_prevention = i.d7_prevention ++ (t ∷ []);
  status = IncidentStatus.prevention_applied;
}

abbrev pub close_incident : String → String → EightDIncident → EightDIncident
close_incident summary user i = record i {
  d8_closure = some (summary, user);
  status = IncidentStatus.closed;
}

abbrev pub is_closed : IncidentStatus → Bool
is_closed IncidentStatus.established = false
is_closed IncidentStatus.described = false
is_closed IncidentStatus.contained = false
is_closed IncidentStatus.root_cause_found = false
is_closed IncidentStatus.pca_chosen = false
is_closed IncidentStatus.pca_verified = false
is_closed IncidentStatus.prevention_applied = false
is_closed IncidentStatus.closed = true

abbrev pub is_pca_chosen : IncidentStatus → Bool
is_pca_chosen IncidentStatus.established = false
is_pca_chosen IncidentStatus.described = false
is_pca_chosen IncidentStatus.contained = false
is_pca_chosen IncidentStatus.root_cause_found = false
is_pca_chosen IncidentStatus.pca_chosen = true
is_pca_chosen IncidentStatus.pca_verified = false
is_pca_chosen IncidentStatus.prevention_applied = false
is_pca_chosen IncidentStatus.closed = false

-- `EightDManager`; of an active containment the value is the text of its parameters
pub record EightDManager : Type 0 where
  pub incidents : Dict EightDIncident
  pub active_containments : Dict String

abbrev pub graded : OutcomeGrade → IncidentSeverity × IncidentTriggerType
graded alpha = (low, edge_decay)
graded acceptable_profit = (low, edge_decay)
graded acceptable_loss = (low, edge_decay)
graded excess_slippage = (high, slippage_spike)
graded OutcomeGrade.regime_mismatch = (medium, IncidentTriggerType.regime_mismatch)
graded OutcomeGrade.unexpected_loss = (high, IncidentTriggerType.unexpected_loss)

abbrev pub assessed : TradeLineage → IncidentSeverity × IncidentTriggerType
assessed l = if l.rule_zero then (critical, rule_zero_breach) else graded l.outcome_grade

abbrev pub is_critical : IncidentSeverity → Bool
is_critical low = false
is_critical medium = false
is_critical high = false
is_critical critical = true

-- the containment's action
abbrev pub containment_action : IncidentSeverity → String
containment_action severity =
    if is_critical severity then "PAUSE_NEW_RISK_GLOBAL" else "COOL_DOWN_SYMBOL"

-- the title of the corrective action
abbrev pub pca_of : IncidentTriggerType → String
pca_of drawdown_breach = "Tighten Stop Distance and Allocation Cap"
pca_of slippage_spike = "Enforce Maker Post-Only Routing"
pca_of IncidentTriggerType.unexpected_loss = "Tighten Stop Distance and Allocation Cap"
pca_of IncidentTriggerType.regime_mismatch = "Shorten Regime Volatility Lookback"
pca_of edge_decay = "Tighten Stop Distance and Allocation Cap"
pca_of data_quality = "Tighten Stop Distance and Allocation Cap"
pca_of rule_zero_breach = "Tighten Stop Distance and Allocation Cap"

abbrev pub incident_of : String → String → TradeLineage → EightDIncident
incident_of id tree l =
    let (severity, trigger) = assessed l in
    add_d5_pca (pca_of trigger) (
      set_d4_root_cause tree (
        set_d3_containment (containment_action severity)
          (set_d2_problem l.problem (create id severity trigger l.symbol l.lineage_id))))

-- The containment is set before the analysis, and the incident is stored after it.
unfoldable pub create_incident_from_lineage :
    String → Option String → TradeLineage → EightDManager → EightDManager
create_incident_from_lineage id none l m = record m {
  active_containments = put l.symbol (containment_action ((assessed l).0)) m.active_containments;
}
create_incident_from_lineage id (some tree) l m = record {
  incidents = put id (incident_of id tree l) m.incidents;
  active_containments = put l.symbol (containment_action ((assessed l).0)) m.active_containments;
}

abbrev pub is_empty : List String → Bool
is_empty [] = true
is_empty (t ∷ ts) = false

-- the guards of `advance_and_close`
abbrev pub may_close : String → String → String → String → EightDIncident → Bool
may_close evidence prevention lessons user i =
    is_pca_chosen i.status
    && is_some i.d4_root_cause
    && not (is_empty i.d5_pca)
    && (not (str_eq evidence "")
        && not (str_eq prevention "")
        && not (str_eq lessons "")
        && not (str_eq user ""))

abbrev pub advanced : String → String → String → String → EightDIncident → EightDIncident
advanced evidence prevention lessons user i =
    close_incident lessons user (add_d7_prevention prevention (set_d6_verification evidence true i))

-- another incident of the symbol is not closed
unfoldable pub has_active : String → Dict EightDIncident → Bool
has_active symbol [] = false
has_active symbol ((id, i) ∷ d) =
    (str_eq i.symbol symbol && not (is_closed i.status)) || has_active symbol d

abbrev pub lifted : String → Dict EightDIncident → Dict String → Dict String
lifted symbol d cs = if has_active symbol d then cs else remove symbol cs

abbrev pub close_found :
    String → String → String → String → String → EightDIncident → EightDManager → EightDManager
close_found id evidence prevention lessons user i m =
    let d = put id (advanced evidence prevention lessons user i) m.incidents in
    record { incidents = d; active_containments = lifted i.symbol d m.active_containments }

abbrev pub close_with :
    String
    → String
    → String
    → String
    → String
    → Option EightDIncident
    → EightDManager
    → Bool × EightDManager
close_with id evidence prevention lessons user none m = (false, m)
close_with id evidence prevention lessons user (some i) m =
    if may_close evidence prevention lessons user i
    then (true, close_found id evidence prevention lessons user i m)
    else (false, m)

unfoldable pub advance_and_close :
    String → String → String → String → String → EightDManager → Bool × EightDManager
advance_and_close id evidence prevention lessons user m =
    close_with id evidence prevention lessons user (get id m.incidents) m
