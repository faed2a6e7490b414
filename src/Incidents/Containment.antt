-- ===== src/Incidents/Containment.antt =====
-- The containments and the incidents that are open.
use blessing_ai.Prelude.{
  String, true, false, ◌||◌, Option, none, some, List, [], ◌∷◌, ◌≡◌, ◌≢◌, refl, arith, Bool-cases,
  is_some, inl, inr, str_eq, sym, ◌∙◌,
}
use blessing_ai.Prelude.Dict.{Dict, get, put}
use blessing_ai.Incidents.{EightDIncident, EightDManager, may_close, is_closed, has_active}
use blessing_ai.Incidents.Discipline.{Call, opened, closing, call}

abbrev pub IsContained : EightDManager → Type 0
IsContained m =
    (symbol : String) → is_some (get symbol m.active_containments) ≡ has_active symbol m.incidents

found_not_missing : {A : Type 0} {o : Option A} {a : A} → o ≡ some a → o ≡ none → ⊥
found_not_missing e f = cc

pub some_eq : {A : Type 0} {a b : A} → some a ≡ some b → a ≡ b
some_eq e = cc

pub get-here :
    (id j : String) (k : EightDIncident) (d : Dict EightDIncident)
    → str_eq j id ≡ true
    → get id ((j, k) ∷ d) ≡ some k
unfolding get
get-here id j k d q = rw q refl

pub get-there :
    (id j : String) (k : EightDIncident) (d : Dict EightDIncident)
    → str_eq j id ≡ false
    → get id ((j, k) ∷ d) ≡ get id d
unfolding get
get-there id j k d q = rw q refl

-- A new incident is active.
pub has_active-new :
    (symbol id : String) (i : EightDIncident) (d : Dict EightDIncident)
    → get id d ≡ none
    → is_closed i.status ≡ false
    → has_active symbol (put id i d) ≡ (str_eq i.symbol symbol || has_active symbol d)
unfolding has_active put get
has_active-new symbol id i [] e o = ground (arith, o)
has_active-new symbol id i ((j, k) ∷ d) e o = elim (Bool-cases (str_eq j id)) [
  | inl q ↦ absurd (found_not_missing (get-here id j k d q) e)
  | inr q ↦ rw q (
      let rest = has_active-new symbol id i d (sym (get-there id j k d q) ∙ e) o in
      ground (arith, rest))
]

-- An incident that is closed was active.
pub has_active-closed :
    (symbol id : String) (i x : EightDIncident) (d : Dict EightDIncident)
    → get id d ≡ some i
    → is_closed i.status ≡ false
    → x.symbol ≡ i.symbol
    → is_closed x.status ≡ true
    → has_active symbol d ≡ (str_eq i.symbol symbol || has_active symbol (put id x d))
unfolding has_active put get
has_active-closed symbol id i x [] e o s c = cc
has_active-closed symbol id i x ((j, k) ∷ d) e o s c = elim (Bool-cases (str_eq j id)) [
  | inl q ↦
      let same : k ≡ i = some_eq (sym (get-here id j k d q) ∙ e) in
      rw (q, s, c, same, o) (ground arith)
  | inr q ↦ rw q (
      let rest = has_active-closed symbol id i x d (sym (get-there id j k d q) ∙ e) o s c in
      ground (arith, rest))
]

pub chosen_open :
    (evidence prevention lessons user : String) (i : EightDIncident)
    → may_close evidence prevention lessons user i ≡ true
    → is_closed i.status ≡ false
chosen_open evidence prevention lessons user i h = ground (arith, h)

-- The ids that are given out are new.
abbrev pub IsFresh : Call → EightDManager → Type 0
IsFresh (opened id tree l) m = get id m.incidents ≡ none
IsFresh (closing id evidence prevention lessons user) m = Unit

-- No analysis raises.
abbrev pub AreAnalysed : List Call → Type 0
AreAnalysed [] = Unit
AreAnalysed (opened id tree l ∷ cs) = (tree ≢ none) × AreAnalysed cs
AreAnalysed (closing id evidence prevention lessons user ∷ cs) = AreAnalysed cs

abbrev pub AreFresh : List Call → EightDManager → Type 0
AreFresh [] m = Unit
AreFresh (c ∷ cs) m = IsFresh c m × AreFresh cs (call c m)
