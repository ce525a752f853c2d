-- ===== src/GoMap/Unique.antt =====
-- Every key of a Go map stands in it once; `insert` and `delete` keep that.
use go_cluster.Prelude.{Eq, ◌≡◌, refl, none, [], ◌∷◌, arith}
use go_cluster.GoMap.{GoMap, lookup, insert, delete, lookup-insert, lookup-delete}

module _ {ℓ κ} {K : Type ℓ} {V : Type κ} ⦃e : Eq K⦄ where
  abbrev pub IsUnique : GoMap K V → Type κ
  IsUnique [] = Unit
  IsUnique ((k, v) ∷ m) = (lookup k m ≡ none) × IsUnique m

  pub insert-IsUnique : (k : K) (v : V) (m : GoMap K V) → IsUnique m → IsUnique (insert k v m)
  unfolding lookup insert
  insert-IsUnique k v [] h = (refl, tt)
  insert-IsUnique k v ((i, w) ∷ m) (fresh, h) =
      ground (arith, e.same_iff k i, e.same_iff i k, lookup-insert k i v m, insert-IsUnique k v m h)

  pub delete-IsUnique : (k : K) (m : GoMap K V) → IsUnique m → IsUnique (delete k m)
  unfolding lookup delete
  delete-IsUnique k [] h = tt
  delete-IsUnique k ((i, w) ∷ m) (fresh, h) =
      ground (arith, lookup-delete k i m, delete-IsUnique k m h)
