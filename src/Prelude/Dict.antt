-- ===== src/Prelude/Dict.antt =====
-- Python's `dict` with text keys: the first entry of a key is its value, and a new key
-- comes last, as Python keeps it.
use mathlib.Core.Path.{◌≡◌, refl}
use mathlib.Core.Option.{Option, none, some}
use mathlib.Core.List.{List, [], ◌∷◌}
use Prim.Native.String.{String}
use text.Mathlib.Text.{◌==◌}
use text.Mathlib.TextEquality.{eq_iff}
use native.Mathlib.Omega.{arith}
use blessing_ai.Prelude.Tests.{if◌then◌else◌, on_branches, OnSome}

abbrev pub Dict {ℓ} : Type ℓ → Type ℓ
Dict V = List (String × V)

module _ {ℓ} {V : Type ℓ} where
  -- `d.get(k)`
  unfoldable pub get : String → Dict V → Option V
  get k [] = none
  get k ((j, v) ∷ d) = if j == k then some v else get k d

  -- `d[k] = v`
  unfoldable pub put : String → V → Dict V → Dict V
  put k v [] = (k, v) ∷ []
  put k v ((j, w) ∷ d) = if j == k then (k, v) ∷ d else (j, w) ∷ put k v d

  pub get-put :
      (k j : String) (v : V) (d : Dict V) → get j (put k v d) ≡ (if k == j then some v else get j d)
  unfolding get put
  get-put k j v [] = refl
  get-put k j v ((i, w) ∷ d) = ground (arith, eq_iff k j, eq_iff i k, eq_iff i j, get-put k j v d)

  -- `d.pop(k, None)`
  unfoldable pub remove : String → Dict V → Dict V
  remove k [] = []
  remove k ((j, v) ∷ d) = let rest = remove k d in if j == k then rest else (j, v) ∷ rest

  pub get-remove :
      (k j : String) (d : Dict V) → get j (remove k d) ≡ (if k == j then none else get j d)
  unfolding get remove
  get-remove k j [] = ground arith
  get-remove k j ((i, w) ∷ d) = ground (arith, eq_iff k j, eq_iff i k, eq_iff i j, get-remove k j d)

  -- What holds of each value.
  abbrev pub Values {κ} : (V → Type κ) → Dict V → Type κ
  Values P [] = Unit
  Values P ((k, v) ∷ d) = P v × Values P d

module _ {ℓ κ} {V : Type ℓ} (P : V → Type κ) where
  pub Values-put : (k : String) (v : V) (d : Dict V) → P v → Values P d → Values P (put k v d)
  unfolding put
  Values-put k v [] p h = (p, tt)
  Values-put k v ((j, w) ∷ d) p h =
      on_branches (Values P) (j == k) (λ _. (p, h.1)) (λ _. (h.0, Values-put k v d p h.1))

  pub Values-get : (k : String) (d : Dict V) → Values P d → OnSome P (get k d)
  unfolding get
  Values-get k [] h = tt
  Values-get k ((j, v) ∷ d) h = on_branches (OnSome P) (j == k) (λ _. h.0) (λ _. Values-get k d h.1)
