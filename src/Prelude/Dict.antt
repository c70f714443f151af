-- ===== src/Prelude/Dict.antt =====
-- Python's dict as an association list: a write to a new key goes to the end, and a write to a key
-- that is there keeps its place.
use Prim.Native.Nat.{◌+◌, ◌≤◌}
use mathlib.Core.Path.{◌≡◌, refl}
use mathlib.Core.Bool.{Bool, true, false}
use mathlib.Core.List.{List, [], ◌∷◌, map}
use mathlib.Core.Option.{Option, none, some}
use native.Mathlib.Omega.{arith}
use remoulade.Prelude.Tests.{Eq, ◌==◌, if◌then◌else◌}
use remoulade.Prelude.Lists.{length}

abbrev pub Dict : Type 0 → Type 0 → Type 0
Dict K V = List (K × V)

module _ {K V : Type 0} where
  abbrev pub keys : Dict K V → List K
  keys = map (λ e. e.0)

module _ {K V : Type 0} ⦃e : Eq K⦄ where
  unfoldable pub lookup : K → Dict K V → Option V
  lookup key [] = none
  lookup key ((other, value) ∷ rest) = if other == key then some value else lookup key rest

  unfoldable pub insert : K → V → Dict K V → Dict K V
  insert key value [] = (key, value) ∷ []
  insert key value ((other, old) ∷ rest) =
      if other == key then (other, value) ∷ rest else (other, old) ∷ insert key value rest

  -- `d.pop(key, None)`, `del d[key]`: every entry of the key goes, and a dict has one at most.
  unfoldable pub remove : K → Dict K V → Dict K V
  remove key [] = []
  remove key ((other, old) ∷ rest) =
      if other == key then remove key rest else (other, old) ∷ remove key rest

  -- `key in d`
  unfoldable pub has : K → Dict K V → Bool
  unfolding lookup
  has key rest = elim (lookup key rest) [ none ↦ false | some _ ↦ true ]

  pub lookup-insert :
      (key other : K) (value : V) (rest : Dict K V)
      → lookup other (insert key value rest)
        ≡ (if key == other then some value else lookup other rest)
  unfolding lookup insert
  lookup-insert key other value [] = refl
  lookup-insert key other value ((i, old) ∷ rest) = ground (
    arith,
    e.equal_iff key other,
    e.equal_iff i key,
    e.equal_iff i other,
    lookup-insert key other value rest,
  )

  pub lookup-remove :
      (key other : K) (rest : Dict K V)
      → lookup other (remove key rest) ≡ (if key == other then none else lookup other rest)
  unfolding lookup remove
  lookup-remove key other [] = ground arith
  lookup-remove key other ((i, old) ∷ rest) = ground (
    arith,
    e.equal_iff key other,
    e.equal_iff i key,
    e.equal_iff i other,
    lookup-remove key other rest,
  )

  pub length-insert :
      (key : K) (value : V) (rest : Dict K V)
      → length (insert key value rest) ≡ (if has key rest then length rest else length rest + 1)
  unfolding has insert
  length-insert key value [] = omega arith
  length-insert key value ((other, old) ∷ rest) = ground (arith, length-insert key value rest)

  pub length-remove-le : (key : K) (rest : Dict K V) → length (remove key rest) ≤ length rest
  unfolding remove
  length-remove-le key [] = omega arith
  length-remove-le key ((other, old) ∷ rest) = ground (arith, length-remove-le key rest)
