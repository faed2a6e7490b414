-- ===== src/Incidents/Discipline.antt =====
-- What a closed incident has gone through.
use blessing_ai.Prelude.{
  String, Bool, true, false, not, Option, none, some, List, [], ◌∷◌, ◌≡◌, ◌≢◌, refl, arith, str_eq,
  eq_iff, on_branches, OnSome-some, is_some, ◌++◌, In, here, there,
}
use blessing_ai.Prelude.Dict.{get, Values, Values-put, Values-get}
use blessing_ai.Incidents.{
  EightDIncident, EightDManager, TradeLineage, create_incident_from_lineage, advance_and_close,
  incident_of, advanced, close_with, may_close, is_closed, is_empty,
}

pub data Call : Type 0 where
  opened : String → Option String → TradeLineage → Call
  closing : String → String → String → String → String → Call

abbrev pub call : Call → EightDManager → EightDManager
call (opened id tree l) m = create_incident_from_lineage id tree l m
call (closing id evidence prevention lessons user) m =
    (advance_and_close id evidence prevention lessons user m).1

abbrev pub call_all : List Call → EightDManager → EightDManager
call_all [] m = m
call_all (c ∷ cs) m = call_all cs (call c m)

abbrev pub new_manager : EightDManager
new_manager = record { incidents = []; active_containments = [] }

-- If it is closed, its cause was found, an action was chosen and verified with evidence, a prevention
-- was applied, and someone signed it off with lessons; none of these four texts is blank.
pub record WasWorked (i : EightDIncident) : Type 0 where
  pub cause : is_some i.d4_root_cause ≡ true
  pub actions : is_empty i.d5_pca ≡ false
  pub evidence : String
  pub verified : i.d6_verification ≡ some (evidence, true)
  pub prevention : String
  pub prevented : In prevention i.d7_prevention
  pub lessons : String
  pub user : String
  pub signed : i.d8_closure ≡ some (lessons, user)
  pub not_blank : (evidence ≢ "") × (prevention ≢ "") × (lessons ≢ "") × (user ≢ "")

abbrev pub IsDisciplined : EightDIncident → Type 0
IsDisciplined i = is_closed i.status ≡ true → WasWorked i

appended : (ts : List String) (t : String) → In t (ts ++ (t ∷ []))
appended [] t = here
appended (x ∷ ts) t = there (appended ts t)

filled : (t : String) → not (str_eq t "") ≡ true → t ≢ ""
filled t h e = let g = (eq_iff t "").1 e in ground (arith, g, h)

advanced-IsDisciplined :
    (evidence prevention lessons user : String) (i : EightDIncident)
    → may_close evidence prevention lessons user i ≡ true
    → IsDisciplined (advanced evidence prevention lessons user i)
advanced-IsDisciplined evidence prevention lessons user i h c = record {
  cause = ground (arith, h);
  actions = ground (arith, h);
  evidence = evidence;
  verified = refl;
  prevention = prevention;
  prevented = appended i.d7_prevention prevention;
  lessons = lessons;
  user = user;
  signed = refl;
  not_blank = (
    filled evidence (ground (arith, h)),
    filled prevention (ground (arith, h)),
    filled lessons (ground (arith, h)),
    filled user (ground (arith, h)),
  );
}

closed-IsDisciplined :
    (id evidence prevention lessons user : String) (o : Option EightDIncident) (m : EightDManager)
    → Values IsDisciplined m.incidents
    → Values IsDisciplined ((close_with id evidence prevention lessons user o m).1).incidents
closed-IsDisciplined id evidence prevention lessons user none m h = h
closed-IsDisciplined id evidence prevention lessons user (some i) m h =
    on_branches (λ (x : Bool × EightDManager). Values IsDisciplined (x.1).incidents)
      (may_close evidence prevention lessons user i)
      (λ may.
        Values-put IsDisciplined id (advanced evidence prevention lessons user i) m.incidents
          (advanced-IsDisciplined evidence prevention lessons user i may) h)
      (λ _. h)

call-IsDisciplined :
    (c : Call) (m : EightDManager)
    → Values IsDisciplined m.incidents
    → Values IsDisciplined (call c m).incidents
unfolding create_incident_from_lineage advance_and_close
call-IsDisciplined (opened id none l) m h = h
call-IsDisciplined (opened id (some tree) l) m h =
    Values-put IsDisciplined id (incident_of id tree l) m.incidents (λ e. cc) h
call-IsDisciplined (closing id evidence prevention lessons user) m h =
    closed-IsDisciplined id evidence prevention lessons user (get id m.incidents) m h

call_all-IsDisciplined :
    (cs : List Call) (m : EightDManager)
    → Values IsDisciplined m.incidents
    → Values IsDisciplined (call_all cs m).incidents
call_all-IsDisciplined [] m h = h
call_all-IsDisciplined (c ∷ cs) m h =
    call_all-IsDisciplined cs (call c m) (call-IsDisciplined c m h)

-- After any calls of a new manager, an incident that is closed has a root cause, a corrective action
-- that was verified with evidence, a prevention, and a closure with lessons that someone signed, and the
-- texts of the evidence, the prevention, the lessons and the signature are not blank.
pub closed-WasWorked :
    (cs : List Call) (id : String) {i : EightDIncident}
    → get id (call_all cs new_manager).incidents ≡ some i
    → is_closed i.status ≡ true
    → WasWorked i
closed-WasWorked cs id e c =
    OnSome-some IsDisciplined
      (Values-get IsDisciplined id (call_all cs new_manager).incidents
        (call_all-IsDisciplined cs new_manager tt))
      e c
