-- ===== src/Incidents/Coverage.antt =====
-- An incident that is open, and the containment of its symbol, also where an analysis raises.
use blessing_ai.Prelude.{
  String, Bool, true, false, ◌||◌, Option, none, some, List, [], ◌∷◌, ◌≡◌, refl, arith, Bool-cases,
  on_branches, is_some, inl, inr, str_eq, eq_iff, sym, ◌∙◌,
}
use blessing_ai.Prelude.Dict.{Dict, get, put, get-put, get-remove}
use blessing_ai.Incidents.{
  EightDIncident, EightDManager, TradeLineage, create_incident_from_lineage, advance_and_close,
  incident_of, advanced, close_with, may_close, is_closed, has_active, lifted,
}
use blessing_ai.Incidents.Discipline.{Call, opened, closing, call, call_all, new_manager}
use blessing_ai.Incidents.Containment.{
  IsFresh, AreFresh, has_active-new, has_active-closed, chosen_open, get-here, get-there, some_eq,
}

abbrev IsCovered : EightDManager → Type 0
IsCovered m =
    (symbol : String)
    → has_active symbol m.incidents ≡ true
    → is_some (get symbol m.active_containments) ≡ true

opened-IsCovered :
    (id : String) (tree : Option String) (l : TradeLineage) (m : EightDManager)
    → get id m.incidents ≡ none
    → IsCovered m
    → IsCovered (create_incident_from_lineage id tree l m)
unfolding create_incident_from_lineage
opened-IsCovered id none l m e h symbol a =
    let old = h symbol a in rw (get-put l.symbol symbol) (ground (arith, old))
opened-IsCovered id (some tree) l m e h symbol a =
    let fresh = has_active-new symbol id (incident_of id tree l) m.incidents e refl in
    rw (get-put l.symbol symbol) (elim (Bool-cases (has_active symbol m.incidents)) [
      | inl b ↦ let old = h symbol b in ground (arith, old)
      | inr b ↦ ground (arith, fresh, a, b)
    ])

lifted-IsCovered :
    (t symbol : String) (d d' : Dict EightDIncident) (cs : Dict String)
    → (has_active symbol d ≡ true → is_some (get symbol cs) ≡ true)
    → has_active symbol d ≡ (str_eq t symbol || has_active symbol d')
    → has_active symbol d' ≡ true
    → is_some (get symbol (lifted t d' cs)) ≡ true
lifted-IsCovered t symbol d d' cs h k a =
    let old = h (rw (k, a) (ground arith)) in
    elim (Bool-cases (has_active t d')) [
      | inl b ↦ rw b old
      | inr b ↦ rw (b, get-remove t symbol cs) (ground (arith, old, a, b, eq_iff t symbol))
    ]

closed-IsCovered :
    (id evidence prevention lessons user : String) (o : Option EightDIncident) (m : EightDManager)
    → get id m.incidents ≡ o
    → IsCovered m
    → IsCovered ((close_with id evidence prevention lessons user o m).1)
closed-IsCovered id evidence prevention lessons user none m e h = h
closed-IsCovered id evidence prevention lessons user (some i) m e h =
    on_branches (λ (x : Bool × EightDManager). IsCovered (x.1))
      (may_close evidence prevention lessons user i)
      (λ may symbol.
        let x = advanced evidence prevention lessons user i in
        let left =
          has_active-closed symbol id i x m.incidents e
            (chosen_open evidence prevention lessons user i may) refl refl in
        lifted-IsCovered i.symbol symbol m.incidents (put id x m.incidents) m.active_containments
          (h symbol) left)
      (λ _. h)

call-IsCovered : (c : Call) (m : EightDManager) → IsFresh c m → IsCovered m → IsCovered (call c m)
unfolding advance_and_close
call-IsCovered (opened id tree l) m e h = opened-IsCovered id tree l m e h
call-IsCovered (closing id evidence prevention lessons user) m e h =
    closed-IsCovered id evidence prevention lessons user (get id m.incidents) m refl h

call_all-IsCovered :
    (cs : List Call) (m : EightDManager) → AreFresh cs m → IsCovered m → IsCovered (call_all cs m)
call_all-IsCovered [] m f h = h
call_all-IsCovered (c ∷ cs) m f h = call_all-IsCovered cs (call c m) f.1 (call-IsCovered c m f.0 h)

new-IsCovered : IsCovered new_manager
unfolding has_active
new-IsCovered symbol a = cc

open_active :
    (id : String) (i : EightDIncident) (d : Dict EightDIncident)
    → get id d ≡ some i
    → is_closed i.status ≡ false
    → has_active i.symbol d ≡ true
unfolding has_active get
open_active id i [] e o = cc
open_active id i ((j, k) ∷ d) e o = elim (Bool-cases (str_eq j id)) [
  | inl q ↦
      let same : k ≡ i = some_eq (sym (get-here id j k d q) ∙ e) in
      rw (same, o) (ground (arith, eq_iff i.symbol i.symbol))
  | inr q ↦ let rest = open_active id i d (sym (get-there id j k d q) ∙ e) o in ground (arith, rest)
]

-- After any calls of a new manager, whose new ids are fresh, also where an analysis raised, the symbol of
-- an incident that is not closed has an active containment.
pub open_contained :
    (cs : List Call) (id : String) {i : EightDIncident}
    → AreFresh cs new_manager
    → get id (call_all cs new_manager).incidents ≡ some i
    → is_closed i.status ≡ false
    → is_some (get i.symbol (call_all cs new_manager).active_containments) ≡ true
open_contained cs id {i} f e o =
    call_all-IsCovered cs new_manager f new-IsCovered i.symbol
      (open_active id i (call_all cs new_manager).incidents e o)
