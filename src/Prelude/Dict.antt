-- ===== src/Prelude/Dict.antt =====
-- The persistent maps of a contract: association lists keyed by numbers, one entry for each key
-- that was set, and the sum of an amount over the entries.
use stellarlend.Prelude.{
  ℕ, ◌≡◌, refl, ◌≢◌, Option, none, some, List, [], ◌∷◌, arith, ◌==◌, if◌then◌else◌,
}
use stellarlend.Prelude.Int.{ℤ, pos, ◌+ℤ◌, ◌≤ℤ◌, int_laws}

abbrev pub Dict {ℓ} : Type ℓ → Type ℓ
Dict V = List (ℕ × V)

module _ {ℓ} {V : Type ℓ} where
  unfoldable pub lookup : ℕ → Dict V → Option V
  lookup key [] = none
  lookup key ((other, value) ∷ rest) = if key == other then some value else lookup key rest

  unfoldable pub insert : ℕ → V → Dict V → Dict V
  insert key value [] = (key, value) ∷ []
  insert key value ((other, old) ∷ rest) =
      if key == other then (key, value) ∷ rest else (other, old) ∷ insert key value rest

  -- What is set is read back, and no other key is touched.
  pub lookup-insert :
      (j k : ℕ) (v : V) (d : Dict V)
      → lookup j (insert k v d) ≡ (if j == k then some v else lookup j d)
  unfolding lookup insert
  lookup-insert j k v [] = refl
  lookup-insert j k v (e ∷ d) = ground (arith, lookup-insert j k v d)

  pub lookup-insert_self : (k : ℕ) (v : V) (d : Dict V) → lookup k (insert k v d) ≡ some v
  lookup-insert_self k v d = ground (arith, lookup-insert k k v d)

  pub lookup-insert_ne :
      (j k : ℕ) (v : V) (d : Dict V) → j ≢ k → lookup j (insert k v d) ≡ lookup j d
  lookup-insert_ne j k v d h = ground (arith, lookup-insert j k v d)

  -- The amount that the entry of a key counts for, and the sum over all entries.
  abbrev pub amount_of : (V → ℤ) → Option V → ℤ
  amount_of f none = pos 0
  amount_of f (some v) = f v

  unfoldable pub sum_by : (V → ℤ) → Dict V → ℤ
  sum_by f [] = pos 0
  sum_by f ((_, v) ∷ d) = f v +ℤ sum_by f d

  pub sum_by-insert :
      (f : V → ℤ) (k : ℕ) (v : V) (d : Dict V)
      → sum_by f (insert k v d) +ℤ amount_of f (lookup k d) ≡ sum_by f d +ℤ f v
  unfolding sum_by lookup insert
  sum_by-insert f k v [] = omega int_laws
  sum_by-insert f k v (e ∷ d) = grind (int_laws, sum_by-insert f k v d)

  abbrev pub AllNonneg : (V → ℤ) → Dict V → Type 0
  AllNonneg f [] = Unit
  AllNonneg f ((_, v) ∷ d) = (pos 0 ≤ℤ f v) × AllNonneg f d

  pub insert-AllNonneg :
      (f : V → ℤ) (k : ℕ) (v : V) (d : Dict V)
      → pos 0 ≤ℤ f v
      → AllNonneg f d
      → AllNonneg f (insert k v d)
  unfolding insert
  insert-AllNonneg f k v [] p h = (p, tt)
  insert-AllNonneg f k v (e ∷ d) p h = ground (arith, insert-AllNonneg f k v d p h.1)

  -- In a map of amounts that are not negative, an entry is at most the sum.
  pub amount_of-lookup-nonneg :
      (f : V → ℤ) (k : ℕ) (d : Dict V)
      → AllNonneg f d
      → (pos 0 ≤ℤ amount_of f (lookup k d)) × (amount_of f (lookup k d) ≤ℤ sum_by f d)
  unfolding lookup sum_by
  amount_of-lookup-nonneg f k [] h = omega arith
  amount_of-lookup-nonneg f k (e ∷ d) h = grind (int_laws, amount_of-lookup-nonneg f k d h.1)
