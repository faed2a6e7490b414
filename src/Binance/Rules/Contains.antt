-- ===== src/Binance/Rules/Contains.antt =====
-- The membership test on lists of texts, and membership.
use blessing_ai.Prelude.{
  String, true, List, [], ◌∷◌, ◌≡◌, arith, In, here, there, Bool-cases, inl, inr, str_eq, eq_iff,
  subst, sym,
}
use blessing_ai.Binance.Rules.{contains}

pub contains-In : (t : String) (ts : List String) → contains t ts ≡ true → In t ts
contains-In t [] h = cc
contains-In t (u ∷ us) h = elim (Bool-cases (str_eq t u)) [
  | inl e ↦ subst (λ v. In v (u ∷ us)) (sym ((eq_iff t u).0 e)) here
  | inr e ↦ there (contains-In t us (ground (arith, h, e)))
]
