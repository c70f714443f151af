-- ===== src/Chunks/Samples.antt =====
-- Tests of chunks.
use remoulade.Prelude.{◌≡◌, refl, [], ◌∷◌}
use remoulade.Chunks.{chunk, chunk_from}

test-chunk : chunk 2 (1 ∷ 2 ∷ 3 ∷ []) ≡ (1 ∷ 2 ∷ []) ∷ (3 ∷ []) ∷ []
unfolding chunk chunk_from
test-chunk = refl
