-- ===== src/Base/Tables.antt =====
-- A table of the database by its primary key: the rows in the order in which they were inserted
-- (which is the order of `created_at`), at most one for each key.
use Prim.Native.Nat.{ℕ}
use mathlib.Core.Path.{◌≡◌, refl, sym, ap, ◌∙◌, subst}
use mathlib.Core.Logic.{◌≢◌, ◌⊎◌, inl, inr}
use mathlib.Core.Bool.{Bool, true, false}
use mathlib.Core.Option.{Option, none, some, some-injective}
use mathlib.Core.List.{List, [], ◌∷◌}
use native.Mathlib.Omega.{arith}
use investment_backend.Base.Tests.{◌==◌, if◌then◌else◌, Bool-cases, ==_iff}

abbrev pub Dict {ℓ} : Type ℓ → Type ℓ
Dict V = List (ℕ × V)

module _ {ℓ} {V : Type ℓ} where
  abbrev pub lookup : ℕ → Dict V → Option V
  lookup key [] = none
  lookup key ((j, row) ∷ rows) = if key == j then some row else lookup key rows

  -- A new key goes to the end; a known one keeps its place.
  abbrev pub insert : ℕ → V → Dict V → Dict V
  insert k v [] = (k, v) ∷ []
  insert k v ((j, w) ∷ rows) = if k == j then (j, v) ∷ rows else (j, w) ∷ insert k v rows

  -- `order by created_at limit 1` under a condition on the row.
  abbrev pub find_first : (V → Bool) → Dict V → Option (ℕ × V)
  find_first p [] = none
  find_first p ((j, v) ∷ rows) = if p v then some (j, v) else find_first p rows

  -- A row other than `k` meets the condition.
  abbrev pub any_other : ℕ → (V → Bool) → Dict V → Bool
  any_other k p [] = false
  any_other k p ((j, v) ∷ rows) =
      if k == j then any_other k p rows else if p v then true else any_other k p rows

  -- `update … where p`.
  abbrev pub update_where : (V → Bool) → (V → V) → Dict V → Dict V
  update_where p f [] = []
  update_where p f ((j, v) ∷ rows) = (j, if p v then f v else v) ∷ update_where p f rows

  pub lookup-insert :
      (j k : ℕ) (v : V) (rows : Dict V)
      → lookup j (insert k v rows) ≡ (if j == k then some v else lookup j rows)
  lookup-insert j k v [] = refl
  lookup-insert j k v ((i, w) ∷ rows) = ground (arith, lookup-insert j k v rows)

  pub lookup-insert_self : (k : ℕ) (v : V) (rows : Dict V) → lookup k (insert k v rows) ≡ some v
  lookup-insert_self k v [] = ground arith
  lookup-insert_self k v ((i, w) ∷ rows) = ground (arith, lookup-insert_self k v rows)

  pub lookup-insert_ne :
      (j k : ℕ) (v : V) (rows : Dict V) → j ≢ k → lookup j (insert k v rows) ≡ lookup j rows
  lookup-insert_ne j k v [] h = ground arith
  lookup-insert_ne j k v ((i, w) ∷ rows) h = ground (arith, lookup-insert_ne j k v rows h)

  -- A row that is there after a write is the one written, or was there before under another key.
  pub insert-cases :
      (j k : ℕ) (v : V) (rows : Dict V) {w : V}
      → lookup j (insert k v rows) ≡ some w
      → ((j ≡ k) × (w ≡ v)) ⊎ ((j ≢ k) × (lookup j rows ≡ some w))
  insert-cases j k v rows {w} e = elim (Bool-cases (j == k)) [
    | inl same ↦ inl (
      (==_iff j k).0 same,
      sym (
          some-injective v w (
            sym (
              lookup-insert j k v rows
              ∙ ap (λ (b : Bool). if b then some v else lookup j rows) same)
            ∙ e)),
    )
    | inr other ↦ inr (
      λ q. cc ((==_iff j k).1 q),
      sym (lookup-insert j k v rows ∙ ap (λ (b : Bool). if b then some v else lookup j rows) other)
          ∙ e,
    )
  ]

  -- A key that is missing is not one that is there.
  pub ne_of_missing :
      (j k : ℕ) (rows : Dict V) {v : V} → lookup k rows ≡ none → lookup j rows ≡ some v → j ≢ k
  ne_of_missing j k rows missing found same = cc (ap (λ (x : ℕ). lookup x rows) same)

  pub any_other-lookup :
      (k j : ℕ) (p : V → Bool) (rows : Dict V) {v : V}
      → lookup j rows ≡ some v
      → p v ≡ true
      → j ≢ k
      → any_other k p rows ≡ true
  any_other-lookup k j p [] e h ne = cc
  any_other-lookup k j p ((i, w) ∷ rows) e h ne =
      ground (arith, λ (x : lookup j rows ≡ some _). any_other-lookup k j p rows x h ne)

  -- A row that is new stands at the end, behind every row that was there.
  pub find_first-insert :
      (p : V → Bool) (id : ℕ) (m : V) (rows : Dict V)
      → lookup id rows ≡ none
      → find_first p rows ≡ none
      → p m ≡ true
      → find_first p (insert id m rows) ≡ some (id, m)
  find_first-insert p id m [] new missing fits = rw fits refl
  find_first-insert p id m ((j, v) ∷ rest) new missing fits = elim (Bool-cases (id == j)) [
    | inl same ↦ let there : lookup id ((j, v) ∷ rest) ≡ some v = rw same refl in cc
    | inr apart ↦ elim (Bool-cases (p v)) [
      | inl good ↦ let found : find_first p ((j, v) ∷ rest) ≡ some (j, v) = rw good refl in cc
      | inr other ↦
          let later : lookup id ((j, v) ∷ rest) ≡ lookup id rest = rw apart refl in
          let behind : find_first p ((j, v) ∷ rest) ≡ find_first p rest = rw other refl in
          rw apart
            (rw other (find_first-insert p id m rest (sym later ∙ new) (sym behind ∙ missing) fits))
    ]
  ]

-- Every row meets the predicate.
abbrev pub AllRows {ℓ κ} : {V : Type ℓ} → (V → Type κ) → Dict V → Type κ
AllRows P [] = Unit
AllRows P ((k, v) ∷ rows) = P v × AllRows P rows

module _ {ℓ κ} {V : Type ℓ} (P : V → Type κ) where
  pub AllRows-insert :
      (k : ℕ) (v : V) (rows : Dict V) → P v → AllRows P rows → AllRows P (insert k v rows)
  AllRows-insert k v [] p h = (p, tt)
  AllRows-insert k v ((j, w) ∷ rows) p h = elim (Bool-cases (k == j)) [
    | inl same ↦ rw same (p, h.1)
    | inr other ↦ rw other (h.0, AllRows-insert k v rows p h.1)
  ]

  pub AllRows-lookup :
      (k : ℕ) (rows : Dict V) {v : V} → AllRows P rows → lookup k rows ≡ some v → P v
  AllRows-lookup k [] h e = cc
  AllRows-lookup k ((j, w) ∷ rows) {v} h e = at_key (k == j) e (AllRows-lookup k rows h.1)
    where
      at_key :
          (b : Bool)
          → (if b then some w else lookup k rows) ≡ some v
          → (lookup k rows ≡ some v → P v)
          → P v
      at_key true same rest = subst P (some-injective w v same) h.0
      at_key false other rest = rest other
