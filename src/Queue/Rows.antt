-- ===== src/Queue/Rows.antt =====
-- The SQL statements that the queue uses, on a table as the list of its rows, and what a SELECT
-- gives.
use mathlib.Core.Path.{subst}
use blessing_ai.Prelude.{
  on_branches, ℕ, ◌+◌, ◌≡◌, inl, inr, Bool, true, false, Option, none, some, List, [], ◌∷◌, ◌++◌,
  if◌then◌else◌, In, here, there, Bool-cases,
}

module _ {ℓ} {A : Type ℓ} where
  -- UPDATE … SET f WHERE p
  abbrev pub update_where : (A → Bool) → (A → A) → List A → List A
  update_where p f [] = []
  update_where p f (x ∷ xs) = (if p x then f x else x) ∷ update_where p f xs

  -- the `rowcount` of an UPDATE, and COUNT(*)
  abbrev pub count_where : (A → Bool) → List A → ℕ
  count_where p [] = 0
  count_where p (x ∷ xs) = (if p x then 1 else 0) + count_where p xs

  -- SELECT … WHERE p, then `fetchone`
  abbrev pub select_one : (A → Bool) → List A → Option A
  select_one p [] = none
  select_one p (x ∷ xs) = if p x then some x else select_one p xs

  -- SELECT … WHERE p, then `fetchall`
  abbrev pub select_all : (A → Bool) → List A → List A
  select_all p [] = []
  select_all p (x ∷ xs) = let rest = select_all p xs in if p x then x ∷ rest else rest

  -- ORDER BY … LIMIT 1, over a test for "comes strictly before"
  abbrev pub earlier : (A → A → Bool) → A → Option A → A
  earlier before x none = x
  earlier before x (some y) = if before y x then y else x

  abbrev pub first_by : (A → A → Bool) → List A → Option A
  first_by before [] = none
  first_by before (x ∷ xs) = some (earlier before x (first_by before xs))

-- What holds of the head and of each later entry holds of any entry.
In-cases {ℓ κ} :
    {A : Type ℓ} (P : A → Type κ) {x y : A} {ys : List A}
    → In x (y ∷ ys)
    → P y
    → (In x ys → P x)
    → P x
In-cases P here h k = h
In-cases P (there i) h k = k i

module _ {ℓ} {A : Type ℓ} (p : A → Bool) where
  pub select_one-In : (xs : List A) {x : A} → select_one p xs ≡ some x → In x xs × (p x ≡ true)
  select_one-In [] h = cc
  select_one-In (y ∷ ys) {x} h = elim (Bool-cases (p y)) [
    | inl e ↦
        let h' : some y ≡ some x = rw e at h in
        let q : y ≡ x = cc h' in subst (λ z. In z (y ∷ ys) × (p z ≡ true)) q (here, e)
    | inr e ↦ let (i, q) = select_one-In ys {x = x} (rw e at h) in (there i, q)
  ]

  pub In-select_all : (xs : List A) {x : A} → In x (select_all p xs) → In x xs × (p x ≡ true)
  In-select_all [] i = elim i [ ]
  In-select_all (y ∷ ys) {x} i = elim (Bool-cases (p y)) [
    | inl e ↦
        let i' : In x (y ∷ select_all p ys) = rw e at i in
        In-cases (λ z. In z (y ∷ ys) × (p z ≡ true)) i' (here, e)
          (λ k. let (j, q) = In-select_all ys k in (there j, q))
    | inr e ↦ let (j, q) = In-select_all ys {x = x} (rw e at i) in (there j, q)
  ]

  pub select_all-In : (xs : List A) {x : A} → In x xs → p x ≡ true → In x (select_all p xs)
  select_all-In [] i h = elim i [ ]
  select_all-In (x ∷ xs) here h = rw h here
  select_all-In (y ∷ xs) (there i) h = elim (Bool-cases (p y)) [
    | inl e ↦ rw e (there (select_all-In xs i h))
    | inr e ↦ rw e (select_all-In xs i h)
  ]

-- An entry that no other comes before.
abbrev pub IsFirst {ℓ} : {A : Type ℓ} → (A → A → Bool) → List A → A → Type ℓ
IsFirst {A} before xs x = In x xs × ((z : A) → In z xs → before z x ≡ false)

module _ {ℓ} {A : Type ℓ} (before : A → A → Bool) (irrefl : (a : A) → before a a ≡ false)
    (asym : (a b : A) → before a b ≡ true → before b a ≡ false)
    (trans : (a b c : A) → before a b ≡ false → before b c ≡ false → before a c ≡ false) where
  earliest-IsFirst :
      (x : A) (xs : List A) → IsFirst before (x ∷ xs) (earlier before x (first_by before xs))
  earliest-IsFirst x [] =
      (here, λ z i. In-cases (λ z. before z x ≡ false) i (irrefl x) (λ k. elim k [ ]))
  earliest-IsFirst x (w ∷ ws) =
      let y = earlier before w (first_by before ws) in
      let (i, l) = earliest-IsFirst w ws in
      on_branches (IsFirst before (x ∷ w ∷ ws)) (before y x)
        (λ e. (there i, λ z j. In-cases (λ z. before z y ≡ false) j (asym y x e) (l z)))
        (λ e. (
          here,
          λ z j. In-cases (λ z. before z x ≡ false) j (irrefl x) (λ k. trans z y x (l z k) e),
        ))

  -- ORDER BY … LIMIT 1 gives an entry that no other comes before.
  pub first_by-IsFirst : (xs : List A) {x : A} → first_by before xs ≡ some x → IsFirst before xs x
  first_by-IsFirst [] h = cc
  first_by-IsFirst (y ∷ ys) {x} h =
      let e : earlier before y (first_by before ys) ≡ x = cc h in
      subst (IsFirst before (y ∷ ys)) e (earliest-IsFirst y ys)

pub first_by-ne-none {ℓ} :
    {A : Type ℓ} (before : A → A → Bool) (xs : List A) {x : A}
    → first_by before xs ≡ none
    → ¬ (In x xs)
first_by-ne-none before [] h i = elim i [ ]
first_by-ne-none before (y ∷ ys) h i = cc h

pub In-update_where {ℓ} :
    {A : Type ℓ} (p : A → Bool) (f : A → A) (xs : List A) {x : A}
    → In x xs
    → In (if p x then f x else x) (update_where p f xs)
In-update_where p f [] i = elim i [ ]
In-update_where p f (x ∷ xs) here = here
In-update_where p f (x ∷ xs) (there i) = there (In-update_where p f xs i)

pub In-append {ℓ} : {A : Type ℓ} (xs ys : List A) {x : A} → In x xs → In x (xs ++ ys)
In-append [] ys i = elim i [ ]
In-append (x ∷ xs) ys here = here
In-append (x ∷ xs) ys (there i) = there (In-append xs ys i)

-- The two lists have the same length, and a relation holds of the entries at each position.
pub data Pointwise {ℓ} {A : Type ℓ} (R : A → A → Type ℓ) : List A → List A → Type ℓ where
  ends : Pointwise R [] []
  next : {x y : A} {xs ys : List A} → R x y → Pointwise R xs ys → Pointwise R (x ∷ xs) (y ∷ ys)

pub update_where-Pointwise {ℓ} :
    {A : Type ℓ} (R : A → A → Type ℓ) (p : A → Bool) (f : A → A) (xs : List A)
    → ((x : A) → In x xs → R x (if p x then f x else x))
    → Pointwise R xs (update_where p f xs)
update_where-Pointwise R p f [] h = ends
update_where-Pointwise R p f (x ∷ xs) h =
    next (h x here) (update_where-Pointwise R p f xs (λ y i. h y (there i)))
