-- ===== src/Prelude/Assoc.antt =====
-- A Go map as an association list with one entry for each key.
use angie_guardian.Prelude.{
  ℕ, ◌+◌, ◌≤◌, ◌≡◌, refl, ◌≢◌, Bool, true, Option, none, some, List, [], ◌∷◌, inl, inr, arith,
  KeyEq, ◌==◌, if◌then◌else◌, Bool-cases, length,
}

abbrev pub Map {ℓ κ} : Type ℓ → Type κ → Type (ℓ ⊔ κ)
Map K V = List (K × V)

module _ {ℓ κ} {K : Type ℓ} {V : Type κ} ⦃e : KeyEq K⦄ where
  unfoldable pub lookup : K → Map K V → Option V
  lookup sought [] = none
  lookup sought ((at, found) ∷ others) = if at == sought then some found else lookup sought others

  unfoldable pub insert : K → V → Map K V → Map K V
  insert key value [] = (key, value) ∷ []
  insert key value ((at, found) ∷ others) =
      let further = (at, found) ∷ insert key value others in
      if at == key then (key, value) ∷ others else further

  unfoldable pub delete : K → Map K V → Map K V
  delete k [] = []
  delete k ((j, v) ∷ m) = let rest = delete k m in if j == k then rest else (j, v) ∷ rest

  -- `for k, v := range m { if !keep(k, v) { delete(m, k) } }`
  unfoldable pub retain : (K → V → Bool) → Map K V → Map K V
  retain keep [] = []
  retain keep ((j, v) ∷ m) = let rest = retain keep m in if keep j v then (j, v) ∷ rest else rest

  abbrev pub size : Map K V → ℕ
  size m = length m

  -- No entry has the key.
  abbrev pub Absent : K → Map K V → Type ℓ
  Absent k [] = Unit
  Absent k ((j, _) ∷ m) = (j ≢ k) × Absent k m

  -- Each key stands once, as in a Go map.
  abbrev pub Distinct : Map K V → Type ℓ
  Distinct [] = Unit
  Distinct ((j, _) ∷ m) = Absent j m × Distinct m

pub ==_refl {ℓ} : {K : Type ℓ} ⦃e : KeyEq K⦄ (k : K) → (k == k) ≡ true
==_refl ⦃e⦄ k = (e.same_iff k k).1 refl

module _ {ℓ κ} {K : Type ℓ} {V : Type κ} ⦃e : KeyEq K⦄ where
  pub lookup-insert :
      (key sought : K) (value : V) (m : Map K V)
      → lookup sought (insert key value m) ≡ (if key == sought then some value else lookup sought m)
  unfolding insert lookup
  lookup-insert key sought value [] = refl
  lookup-insert key sought value ((at, found) ∷ others) = ground (
    lookup-insert key sought value others,
    e.same_iff at sought,
    e.same_iff at key,
    e.same_iff key sought,
    arith,
  )

  pub lookup-delete :
      (k j : K) (m : Map K V) → lookup j (delete k m) ≡ (if k == j then none else lookup j m)
  unfolding lookup delete
  lookup-delete k j [] = ground arith
  lookup-delete k j ((i, w) ∷ m) =
      ground (arith, e.same_iff k j, e.same_iff i k, e.same_iff i j, lookup-delete k j m)

  pub lookup-Absent : (k : K) (m : Map K V) → Absent k m → lookup k m ≡ none
  unfolding lookup
  lookup-Absent k [] h = refl
  lookup-Absent k ((j, v) ∷ m) h = ground (arith, e.same_iff j k, lookup-Absent k m h.1)

  retain-Absent :
      (keep : K → V → Bool) (k : K) (m : Map K V) → Absent k m → Absent k (retain keep m)
  unfolding retain
  retain-Absent keep k [] h = tt
  retain-Absent keep k ((j, v) ∷ m) h = elim (Bool-cases (keep j v)) [
    | inl y ↦ rw (y, retain) (h.0, retain-Absent keep k m h.1)
    | inr n ↦ rw (n, retain) (retain-Absent keep k m h.1)
  ]

  pub retain-Distinct : (keep : K → V → Bool) (m : Map K V) → Distinct m → Distinct (retain keep m)
  unfolding retain
  retain-Distinct keep [] h = tt
  retain-Distinct keep ((j, v) ∷ m) h = elim (Bool-cases (keep j v)) [
    | inl y ↦ rw (y, retain) (retain-Absent keep j m h.0, retain-Distinct keep m h.1)
    | inr n ↦ rw (n, retain) (retain-Distinct keep m h.1)
  ]

  delete-Absent : (d k : K) (m : Map K V) → Absent k m → Absent k (delete d m)
  unfolding delete
  delete-Absent d k [] h = tt
  delete-Absent d k ((j, v) ∷ m) h = elim (Bool-cases (j == d)) [
    | inl y ↦ rw (y, delete) (delete-Absent d k m h.1)
    | inr n ↦ rw (n, delete) (h.0, delete-Absent d k m h.1)
  ]

  pub delete-Distinct : (d : K) (m : Map K V) → Distinct m → Distinct (delete d m)
  unfolding delete
  delete-Distinct d [] h = tt
  delete-Distinct d ((j, v) ∷ m) h = elim (Bool-cases (j == d)) [
    | inl y ↦ rw (y, delete) (delete-Distinct d m h.1)
    | inr n ↦ rw (n, delete) (delete-Absent d j m h.0, delete-Distinct d m h.1)
  ]

  insert-Absent :
      (i : K) (w : V) (k : K) (m : Map K V) → i ≢ k → Absent k m → Absent k (insert i w m)
  unfolding insert
  insert-Absent i w k [] n h = (n, tt)
  insert-Absent i w k ((j, v) ∷ m) n h = elim (Bool-cases (j == i)) [
    | inl y ↦ rw (y, insert) (n, h.1)
    | inr o ↦ rw (o, insert) (h.0, insert-Absent i w k m n h.1)
  ]

  pub insert-Distinct : (i : K) (w : V) (m : Map K V) → Distinct m → Distinct (insert i w m)
  unfolding insert
  insert-Distinct i w [] h = (tt, tt)
  insert-Distinct i w ((j, v) ∷ m) h = elim (Bool-cases (j == i)) [
    | inl y ↦ rw (y, insert, ← (e.same_iff j i).0 y) h
    | inr o ↦
        rw (o, insert)
          (
            insert-Absent i w j m (λ q. ground (arith, e.same_iff j i)) h.0,
            insert-Distinct i w m h.1,
          )
  ]

  -- What a sweep keeps can still be read, and nothing else.
  pub lookup-retain :
      (keep : K → V → Bool) (k : K) (m : Map K V)
      → Distinct m
      → lookup k (retain keep m)
        ≡ (elim (lookup k m) [ none ↦ none | some v ↦ if keep k v then some v else none ])
  unfolding lookup retain
  lookup-retain keep k [] h = refl
  lookup-retain keep k ((j, v) ∷ m) h = ground (
    arith,
    e.same_iff j k,
    lookup-retain keep k m h.1,
    lookup-Absent k (retain keep m),
    λ (q : j ≡ k). retain-Absent keep k m (rw q at h.0),
  )

  pub size-insert :
      (k : K) (v : V) (m : Map K V)
      → size (insert k v m) ≡ (elim (lookup k m) [ none ↦ size m + 1 | some _ ↦ size m ])
  unfolding lookup insert
  size-insert k v [] = refl
  size-insert k v ((j, w) ∷ m) = ground (arith, e.same_iff j k, size-insert k v m)

  pub size-delete-le : (k : K) (m : Map K V) → size (delete k m) ≤ size m
  unfolding delete
  size-delete-le k [] = omega arith
  size-delete-le k ((j, w) ∷ m) = ground (arith, size-delete-le k m)

  pub size-retain-le : (keep : K → V → Bool) (m : Map K V) → size (retain keep m) ≤ size m
  unfolding retain
  size-retain-le keep [] = omega arith
  size-retain-le keep ((j, w) ∷ m) = ground (arith, size-retain-le keep m)
