-- ===== src/Prelude/Table.antt =====
-- Persistent maps whose keys are not numbers alone: texts, pairs and structs, with a test for equal
-- keys.
use Prim.Native.String.{String}
use text.Mathlib.Text.{◌==◌ as str_eq}
use text.Mathlib.TextEquality.{eq_iff}
use stellarlend.Prelude.{
  ℕ, ◌+◌, ◌≡◌, refl, ◌↔◌, Bool, true, ◌&&◌, Option, none, some, List, [], ◌∷◌, arith, ◌==◌,
  if◌then◌else◌,
}

pub record Key (K : Type 0) : Type 0 where
  pub same : K → K → Bool
  pub same_iff : (a b : K) → (same a b ≡ true) ↔ (a ≡ b)

pub ==_iff : (a b : ℕ) → ((a == b) ≡ true) ↔ (a ≡ b)
==_iff a b = (λ h. ground arith, λ h. ground arith)

instance abbrev pub nat_key : Key ℕ
nat_key = record { same = ◌==◌; same_iff = ==_iff }

instance abbrev pub string_key : Key String
string_key = record { same = str_eq; same_iff = eq_iff }

module _ {K L : Type 0} ⦃k : Key K⦄ ⦃l : Key L⦄ where
  abbrev pub same_pair : K × L → K × L → Bool
  same_pair (a, b) (c, d) = k.same a c && l.same b d

  pub same_pair_iff : (p q : K × L) → (same_pair p q ≡ true) ↔ (p ≡ q)
  same_pair_iff (a, b) (c, d) = (
    λ h. ground (arith, k.same_iff a c, l.same_iff b d),
    λ h. ground (arith, k.same_iff a c, l.same_iff b d),
  )

  instance abbrev pub pair_key : Key (K × L)
  pair_key = record { same = same_pair; same_iff = same_pair_iff }

abbrev pub Table : Type 0 → Type 0 → Type 0
Table K V = List (K × V)

pub same_refl : {K : Type 0} ⦃e : Key K⦄ (key : K) → e.same key key ≡ true
same_refl ⦃e⦄ key = (e.same_iff key key).1 refl

module _ {K V : Type 0} ⦃e : Key K⦄ where
  unfoldable pub find : K → Table K V → Option V
  find key [] = none
  find key ((other, value) ∷ rest) = if e.same key other then some value else find key rest

  unfoldable pub put : K → V → Table K V → Table K V
  put key value [] = (key, value) ∷ []
  put key value ((other, old) ∷ rest) =
      if e.same key other then (key, value) ∷ rest else (other, old) ∷ put key value rest

  unfoldable pub erase : K → Table K V → Table K V
  erase key [] = []
  erase key ((other, old) ∷ rest) =
      if e.same key other then erase key rest else (other, old) ∷ erase key rest

  -- What is set is read back, and no other key is touched.
  pub find-put :
      (j key : K) (v : V) (t : Table K V)
      → find j (put key v t) ≡ (if e.same j key then some v else find j t)
  unfolding find put
  find-put j key v [] = refl
  find-put j key v ((i, w) ∷ t) =
      ground (arith, e.same_iff j key, e.same_iff j i, e.same_iff key i, find-put j key v t)

  pub find-put_self : (key : K) (v : V) (t : Table K V) → find key (put key v t) ≡ some v
  find-put_self key v t = ground (arith, find-put key key v t, same_refl key)

  pub find-erase :
      (j key : K) (t : Table K V) → find j (erase key t) ≡ (if e.same j key then none else find j t)
  unfolding find erase
  find-erase j key [] = ground arith
  find-erase j key ((i, w) ∷ t) =
      ground (arith, e.same_iff j key, e.same_iff j i, e.same_iff key i, find-erase j key t)

  -- The number of entries that a test holds of.
  unfoldable pub count_by : (K → V → Bool) → Table K V → ℕ
  count_by p [] = 0
  count_by p ((key, v) ∷ rest) = (if p key v then 1 else 0) + count_by p rest

  pub count_by-put_new :
      (p : K → V → Bool) (key : K) (v : V) (t : Table K V)
      → find key t ≡ none
      → count_by p (put key v t) ≡ count_by p t + (if p key v then 1 else 0)
  unfolding count_by find put
  count_by-put_new p key v [] h = omega arith
  count_by-put_new p key v ((i, w) ∷ t) h = ground (arith, count_by-put_new p key v t)
