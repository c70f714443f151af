-- ===== src/Chunks.antt =====
-- remoulade/common.py: `chunk`, which cuts what an iterator gives into lists of a size.
mod Samples
use remoulade.Prelude.{
  ℕ, zero, suc, ◌≤◌, ◌<◌, ◌-◌, ◌+◌, ◌≡◌, refl, ap, ◌∙◌, List, [], ◌∷◌, ◌++◌, take, drop, length,
  take-append-drop, length-take-le, length-take, length-drop, All, arith,
}

-- `while piece:`, of the lists that `islice` takes.
unfoldable pub chunk_from : ℕ → List ℕ → List ℕ → ℕ → List (List ℕ)
chunk_from size [] rest fuel = []
chunk_from size (x ∷ piece) rest zero = (x ∷ piece) ∷ []
chunk_from size (x ∷ piece) rest (suc fuel) =
    (x ∷ piece) ∷ chunk_from size (take size rest) (drop size rest) fuel

-- `chunk`, with the number of entries for fuel.
unfoldable pub chunk : ℕ → List ℕ → List (List ℕ)
unfolding chunk_from
chunk size xs = chunk_from size (take size xs) (drop size xs) (length xs)

abbrev pub concat : List (List ℕ) → List ℕ
concat [] = []
concat (piece ∷ pieces) = piece ++ concat pieces

chunk_from-concat :
    (size fuel : ℕ) (piece rest : List ℕ)
    → 0 < size
    → length rest ≤ fuel
    → (length piece ≡ 0 → length rest ≡ 0)
    → concat (chunk_from size piece rest fuel) ≡ piece ++ rest
unfolding chunk_from
chunk_from-concat size fuel [] [] positive enough last = refl
chunk_from-concat size fuel [] (y ∷ rest) positive enough last = absurd (ground (arith, last refl))
chunk_from-concat size zero (x ∷ piece) [] positive enough last = refl
chunk_from-concat size zero (x ∷ piece) (y ∷ rest) positive enough last = absurd (omega arith)
chunk_from-concat size (suc fuel) (x ∷ piece) rest positive enough last =
    ap (λ ys. (x ∷ piece) ++ ys)
      (chunk_from-concat size fuel (take size rest) (drop size rest) positive
          (omega (arith, length-drop size rest))
          (λ e. omega (arith, e, length-take size rest, length-drop size rest))
        ∙ take-append-drop size rest)

chunk_from-sizes :
    (size fuel : ℕ) (piece rest : List ℕ)
    → length piece ≤ size
    → All (λ p. (0 < length p) × (length p ≤ size)) (chunk_from size piece rest fuel)
unfolding chunk_from
chunk_from-sizes size fuel [] rest le = tt
chunk_from-sizes size zero (x ∷ piece) rest le = ((omega arith, le), tt)
chunk_from-sizes size (suc fuel) (x ∷ piece) rest le = (
  (omega arith, le),
  chunk_from-sizes size fuel (take size rest) (drop size rest) (length-take-le size rest),
)

-- With a positive size the chunks are what was given, in order, and each has an entry at least and
-- `size` of them at most; the number of entries is fuel enough.
pub chunk-concat :
    (size : ℕ) (xs : List ℕ)
    → 0 < size
    → (concat (chunk size xs) ≡ xs) × All (λ p. (0 < length p) × (length p ≤ size)) (chunk size xs)
unfolding chunk
chunk-concat size xs positive = (
  chunk_from-concat size (length xs) (take size xs) (drop size xs) positive
        (omega (arith, length-drop size xs))
        (λ e. omega (arith, e, length-take size xs, length-drop size xs))
      ∙ take-append-drop size xs,
  chunk_from-sizes size (length xs) (take size xs) (drop size xs) (length-take-le size xs),
)
