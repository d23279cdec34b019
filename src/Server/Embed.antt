-- ===== src/Server/Embed.antt =====
-- internal/server/embed.go: the loop of `embedding` over the batches of its inputs.
pub mod Whole
mod Tests
use ollame.Prelude.{
  ℕ, zero, suc, ◌+◌, Bool, true, false, Option, none, some, List, [], ◌∷◌, Bytes, length, take,
  drop, ℤ, pos, leb_ℤ, pos_part, Result, ok, err, if◌then◌else◌,
}
use ollame.Translate.Batches.{
  EmbeddingBatch, EmbeddingBatches, Finished, done, invalid, Reason, new_embedding_batches, add,
  finish,
}
use ollame.Translate.Estimate.{estimate_usage}

-- The vectors that are sent, or the error that is: of the collection, or of a round before it adds
-- its batch.
pub data Outcome (E V : Type 0) : Type 0 where
  sent : List V → Outcome E V
  refused : Reason → Outcome E V
  stopped : E → Outcome E V
  out_of_fuel : Outcome E V

-- `batchSize`
abbrev pub size_of : ℤ → ℕ → ℕ
size_of batch_size inputs = if leb_ℤ batch_size (pos 0) then inputs else pos_part batch_size

-- `if EstimateTokens { batch.EstimateUsage(inputs[start:end]) }`
abbrev pub estimated_for : {V : Type 0} → Bool → List Bytes → EmbeddingBatch V → EmbeddingBatch V
estimated_for true inputs batch = estimate_usage inputs batch
estimated_for false inputs batch = batch

-- What follows `Add`.
abbrev pub after_add :
    {E V : Type 0}
    → (EmbeddingBatches V → EmbeddingBatches V × Outcome E V)
    → EmbeddingBatches V × Option Reason
    → EmbeddingBatches V × Outcome E V
after_add again (b, none) = again b
after_add again (b, some e) = (b, refused e)

-- What follows `Finish`.
abbrev pub after_finish :
    {E V : Type 0} → EmbeddingBatches V × Finished V → EmbeddingBatches V × Outcome E V
after_finish (b, done vectors) = (b, sent vectors)
after_finish (b, invalid e) = (b, refused e)

-- `answer` is what a round makes of the inputs from `start` on: the request to the upstream, its
-- status and the decoding of the response, or the error of one of them.
module _ {E V : Type 0} (answer : ℕ → List Bytes → Result E (EmbeddingBatch V))
    (estimates : Bool) where
  -- The loop, on fuel: a round takes one input at least.
  unfoldable pub embed_loop :
      ℕ → ℕ → ℕ → List Bytes → EmbeddingBatches V → EmbeddingBatches V × Outcome E V
  embed_loop fuel size start [] b = after_finish (finish b)
  embed_loop zero size start (i ∷ inputs) b = (b, out_of_fuel)
  embed_loop (suc fuel) size start (i ∷ inputs) b =
      let round = take size (i ∷ inputs) in
      elim (answer start round) [
        | err e ↦ (b, stopped e)
        | ok batch ↦
            after_add (embed_loop fuel size (start + size) (drop size (i ∷ inputs)))
              (add b (estimated_for estimates round batch))
      ]

  -- The collection with the configured batch size and limit.
  unfoldable pub embed : ℤ → ℤ → List Bytes → EmbeddingBatches V × Outcome E V
  unfolding embed_loop
  embed batch_size limit inputs =
      embed_loop (length inputs) (size_of batch_size (length inputs)) 0 inputs
        (new_embedding_batches (pos (length inputs)) limit)
