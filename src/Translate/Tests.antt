-- ===== src/Translate/Tests.antt =====
-- Runs of the collection of embeddings, and its theorems at concrete input.
use ollame.Prelude.{
  ℕ, ◌≡◌, ◌↔◌, Bytes, codes, List, [], ◌∷◌, none, some, false, arith, length, flatten, ℤ, pos,
}
use ollame.Translate.Batches.{EmbeddingBatch, done, new_embedding_batches}
use ollame.Translate.Batches.Collect.{collect, Coherent, vectors_of, collect_iff}
use ollame.Stream.Assemble.{estimate}
use ollame.Translate.Estimate.{estimate_usage, estimate_usage-flatten}

-- Vectors of two numbers.
abbrev batch : List (List ℕ) → ℕ → EmbeddingBatch (List ℕ)
batch vs bytes = record {
  vectors = vs;
  width = 2;
  prompt_tokens = none;
  estimated = false;
  retained_bytes = pos bytes;
}

abbrev batches : List (EmbeddingBatch (List ℕ))
batches = batch ((1 ∷ 2 ∷ []) ∷ (3 ∷ 4 ∷ []) ∷ []) 32 ∷ batch ((5 ∷ 6 ∷ []) ∷ []) 16 ∷ []

collect_iff_example :
    ((collect (new_embedding_batches (pos 3) (pos 48)) batches).1 ≡ done (vectors_of batches))
    ↔ (Coherent 3 48 batches × (vectors_of batches ≡ vectors_of batches))
collect_iff_example = collect_iff 3 48 batches (vectors_of batches) (omega arith)

abbrev inputs : List Bytes
inputs = codes "abc" ∷ codes "de" ∷ []

estimate_usage-flatten_example :
    ((batch [] 0).prompt_tokens ≡ none
      → (estimate_usage inputs (batch [] 0)).prompt_tokens
        ≡ some (pos (estimate (length (flatten inputs)))))
    × ((known : ℤ)
        → (batch [] 0).prompt_tokens ≡ some known
        → estimate_usage inputs (batch [] 0) ≡ batch [] 0)
estimate_usage-flatten_example = estimate_usage-flatten inputs (batch [] 0)
