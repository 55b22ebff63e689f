-- ===== src/Base/Assoc.antt =====
-- `std::unordered_map` as an association list. The order of its entries stands for the order of an
-- iteration, which the standard leaves open.
use Prim.Native.Nat.{◌+◌, ◌≤◌}
use mathlib.Core.Path.{◌≡◌, refl}
use mathlib.Core.List.{List, [], ◌∷◌}
use mathlib.Core.Option.{Option, none, some}
use native.Mathlib.Omega.{arith}
use wav2letter.Base.Tests.{if◌then◌else◌}
use wav2letter.Base.Lists.{length}
use wav2letter.Base.Equality.{Eq, ◌=?◌, =?_refl}

module _ {ℓ κ} {K : Type ℓ} {V : Type κ} ⦃e : Eq K⦄ where
  unfoldable pub lookup : K → List (K × V) → Option V
  lookup k [] = none
  lookup k ((j, v) ∷ m) = if j =? k then some v else lookup k m

  -- `m[k] = v`
  unfoldable pub assign : K → V → List (K × V) → List (K × V)
  assign k v [] = (k, v) ∷ []
  assign k v ((j, w) ∷ m) = if j =? k then (j, v) ∷ m else (j, w) ∷ assign k v m

  pub lookup-assign :
      (k j : K) (v : V) (m : List (K × V))
      → lookup j (assign k v m) ≡ (if k =? j then some v else lookup j m)
  unfolding lookup assign
  lookup-assign k j v [] = refl
  lookup-assign k j v ((i, w) ∷ m) = ground (
    arith,
    (e.beq_iff k j).0,
    (e.beq_iff k j).1,
    (e.beq_iff i k).0,
    (e.beq_iff i k).1,
    (e.beq_iff i j).0,
    (e.beq_iff i j).1,
    lookup-assign k j v m,
  )

  pub lookup-assign_self : (k : K) (v : V) (m : List (K × V)) → lookup k (assign k v m) ≡ some v
  lookup-assign_self k v m = simp (lookup-assign, =?_refl)

  pub length-assign :
      (k : K) (v : V) (m : List (K × V)) → lookup k m ≡ none → length (assign k v m) ≡ length m + 1
  unfolding lookup assign
  length-assign k v [] h = omega arith
  length-assign k v ((i, w) ∷ m) h = ground (arith, length-assign k v m)

  pub length-assign-le : (k : K) (v : V) (m : List (K × V)) → length (assign k v m) ≤ length m + 1
  unfolding assign
  length-assign-le k v [] = omega arith
  length-assign-le k v ((i, w) ∷ m) = ground (arith, length-assign-le k v m)
