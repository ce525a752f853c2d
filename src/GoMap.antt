-- ===== src/GoMap.antt =====
-- Go's `map` as an association list. The list's order is the order in which a `range` loop
-- happens to visit the entries, which Go leaves open: what a program computes from a loop over a
-- map is proved for every order of the list.
pub mod Unique
use go_cluster.Prelude.{
  Eq, ◌==◌, ◌≡◌, refl, Option, none, some, Bool, List, [], ◌∷◌, arith, if◌then◌else◌, is_some,
}

abbrev pub GoMap {ℓ κ} : Type ℓ → Type κ → Type (ℓ ⊔ κ)
GoMap K V = List (K × V)

module _ {ℓ κ} {K : Type ℓ} {V : Type κ} ⦃e : Eq K⦄ where
  -- `v, ok := m[k]`
  unfoldable pub lookup : K → GoMap K V → Option V
  lookup key [] = none
  lookup key ((i, value) ∷ rest) = if i == key then some value else lookup key rest

  -- `m[k] = v`
  unfoldable pub insert : K → V → GoMap K V → GoMap K V
  insert key value [] = (key, value) ∷ []
  insert key value ((i, old) ∷ rest) =
      if i == key then (key, value) ∷ rest else (i, old) ∷ insert key value rest

  -- `delete(m, k)`
  unfoldable pub delete : K → GoMap K V → GoMap K V
  delete k [] = []
  delete k ((j, w) ∷ m) = let rest = delete k m in if j == k then rest else (j, w) ∷ rest

  -- `_, ok := m[k]`
  abbrev pub has : K → GoMap K V → Bool
  has k m = is_some (lookup k m)

  pub lookup-insert :
      (key j : K) (value : V) (rest : GoMap K V)
      → lookup j (insert key value rest) ≡ (if key == j then some value else lookup j rest)
  unfolding lookup insert
  lookup-insert key j value [] = refl
  lookup-insert key j value ((i, old) ∷ rest) =
      ground
        (arith, lookup-insert key j value rest, e.same_iff i key, e.same_iff key j, e.same_iff i j)

  pub lookup-delete :
      (k j : K) (m : GoMap K V) → lookup j (delete k m) ≡ (if k == j then none else lookup j m)
  unfolding lookup delete
  lookup-delete k j [] = ground arith
  lookup-delete k j ((i, w) ∷ m) =
      ground (arith, e.same_iff k j, e.same_iff i k, e.same_iff i j, lookup-delete k j m)
