-- ===== src/Translate/Estimate.antt =====
-- The estimates of token counts, a quarter of the bytes rounded up:
-- internal/translate/embeddings.go `EmbeddingBatch.EstimateUsage`, and the rounding of
-- internal/stream/assemble.go `Assembler.EstimateUsage`.
use ollame.Prelude.{
  ℕ, ◌+◌, ◌*◌, ◌/◌, ◌%◌, ◌<◌, ◌≡◌, refl, ap, ◌∙◌, arith, true, Option, none, some, List, [], ◌∷◌,
  Bytes, length, flatten, length-append, ◌==◌, if◌then◌else◌, ℤ, pos,
}
use ollame.Stream.Assemble.{estimate}
use ollame.Translate.Batches.{EmbeddingBatch}

-- The loop over the inputs: `count` and `remainder`.
estimate_loop : List Bytes → ℕ → ℕ → ℕ × ℕ
estimate_loop [] count remainder = (count, remainder)
estimate_loop (input ∷ inputs) count remainder =
    let r = remainder + length input % 4 in
    estimate_loop inputs (count + length input / 4 + r / 4) (r % 4)

pub estimated_count : List Bytes → ℕ
unfolding estimate_loop
estimated_count inputs =
    let (count, remainder) = estimate_loop inputs 0 0 in if remainder == 0 then count else count + 1

estimate_unless : {V : Type 0} → List Bytes → EmbeddingBatch V → Option ℤ → EmbeddingBatch V
estimate_unless inputs b (some known) = b
estimate_unless inputs b none = record b {
  prompt_tokens = some (pos (estimated_count inputs));
  estimated = true;
}

unfoldable pub estimate_usage : {V : Type 0} → List Bytes → EmbeddingBatch V → EmbeddingBatch V
unfolding estimate_unless
estimate_usage inputs b = estimate_unless inputs b b.prompt_tokens

-- The vectors are left alone.
pub estimate_usage-vectors :
    {V : Type 0} (inputs : List Bytes) (b : EmbeddingBatch V)
    → (estimate_usage inputs b).vectors ≡ b.vectors
unfolding estimate_usage estimate_unless
estimate_usage-vectors inputs b = go b.prompt_tokens
  where
    go : (o : Option ℤ) → (estimate_unless inputs b o).vectors ≡ b.vectors
    go none = refl
    go (some known) = refl

estimate_loop-total :
    (inputs : List Bytes) (count remainder : ℕ)
    → remainder < 4
    → (4 * (estimate_loop inputs count remainder).0 + (estimate_loop inputs count remainder).1
        ≡ 4 * count + remainder + length (flatten inputs))
      × ((estimate_loop inputs count remainder).1 < 4)
unfolding estimate_loop
estimate_loop-total [] count remainder h = (omega arith, h)
estimate_loop-total (input ∷ inputs) count remainder h =
    let r = remainder + length input % 4 in
    let (total, small) =
      estimate_loop-total inputs (count + length input / 4 + r / 4) (r % 4) (omega arith) in
    (omega (arith, total, length-append input (flatten inputs)), small)

estimated_count_lem :
    (inputs : List Bytes) → estimated_count inputs ≡ estimate (length (flatten inputs))
unfolding estimated_count estimate
estimated_count_lem inputs = ground (arith, estimate_loop-total inputs 0 0 (omega arith))

-- A batch without usage gets a quarter of the bytes of all its inputs together, rounded up once,
-- the number that the assembler takes for a text of that size; usage that is there is kept.
pub estimate_usage-flatten :
    {V : Type 0} (inputs : List Bytes) (b : EmbeddingBatch V)
    → (b.prompt_tokens ≡ none
        → (estimate_usage inputs b).prompt_tokens ≡ some (pos (estimate (length (flatten inputs)))))
      × ((known : ℤ) → b.prompt_tokens ≡ some known → estimate_usage inputs b ≡ b)
unfolding estimate_usage
estimate_usage-flatten inputs b = (
  λ h.
      ap (λ o. (estimate_unless inputs b o).prompt_tokens) h
      ∙ ap (λ n. some (pos n)) (estimated_count_lem inputs),
  λ known h. ap (estimate_unless inputs b) h,
)
