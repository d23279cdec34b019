-- ===== src/Translate/Batches/Steps.antt =====
-- What becomes of one batch.
use ollame.Prelude.{
  ℕ, ◌+◌, ◌-◌, ◌<◌, ◌≡◌, ◌↔◌, refl, sym, ap, ◌∙◌, arith, Bool, true, false, ◌||◌, Option, none,
  some, ◌++◌, length, leb, if◌then◌else◌, ℤ, pos, negsuc, ◌≤ℤ◌, pos_part, max_int,
}
use ollame.Translate.Batches.{
  EmbeddingBatch, EmbeddingBatches, count_usage, append_batch, fail, add, add_unless,
}

module _ {V : Type 0} where
  -- What a batch must be to fit behind those before it.
  pub record Fits (b : EmbeddingBatches V) (x : EmbeddingBatch V) : Type 0 where
    pub same_width : 0 < length b.vectors → x.width ≡ b.width
    pub room : pos (length b.vectors + length x.vectors) ≤ℤ b.expected
    pub size : x.retained_bytes ≡ pos (pos_part x.retained_bytes)
    pub memory : pos (b.bytes + pos_part x.retained_bytes) ≤ℤ b.limit

  -- The state behind a batch that fits; what is said of usage stands elsewhere.
  pub record Added (b : EmbeddingBatches V) (x : EmbeddingBatch V) (b' : EmbeddingBatches V)
      : Type 0 where
    pub vectors : b'.vectors ≡ b.vectors ++ x.vectors
    pub expected : b'.expected ≡ b.expected
    pub width : b'.width ≡ x.width
    pub bytes : b'.bytes ≡ b.bytes + pos_part x.retained_bytes
    pub limit : b'.limit ≡ b.limit
    pub failed : b'.failed ≡ none

  append_batch-Fits :
      (b : EmbeddingBatches V) (x : EmbeddingBatch V) → (append_batch b x).1 ≡ none → Fits b x
  unfolding append_batch fail
  append_batch-Fits b x h = ground arith

  append_batch-Added :
      (b : EmbeddingBatches V) (x : EmbeddingBatch V)
      → b.failed ≡ none
      → Fits b x
      → ((append_batch b x).1 ≡ none) × Added b x (append_batch b x).0
  unfolding append_batch fail
  append_batch-Added b x f h = ground arith

  -- Counting usage leaves everything else alone.
  record Counted (b c : EmbeddingBatches V) : Type 0 where
    vectors : c.vectors ≡ b.vectors
    expected : c.expected ≡ b.expected
    width : c.width ≡ b.width
    bytes : c.bytes ≡ b.bytes
    limit : c.limit ≡ b.limit
    failed : c.failed ≡ b.failed

  usage_only :
      (b : EmbeddingBatches V) (n : ℕ) (known estimated : Bool)
      → Counted b (record b { usage = n; usage_known = known; estimated = estimated })
  usage_only b n known estimated = record {
    vectors = refl;
    expected = refl;
    width = refl;
    bytes = refl;
    limit = refl;
    failed = refl;
  }

  Counted-if :
      (b c d : EmbeddingBatches V) (t : Bool)
      → Counted b c
      → Counted b d
      → Counted b (if t then c else d)
  Counted-if b c d true h k = h
  Counted-if b c d false h k = k

  count_usage-Counted :
      (b : EmbeddingBatches V) (x : EmbeddingBatch V) (t : Option ℤ) → Counted b (count_usage b x t)
  unfolding count_usage
  count_usage-Counted b x none = usage_only b b.usage false b.estimated
  count_usage-Counted b x (some (negsuc n)) = usage_only b b.usage false b.estimated
  count_usage-Counted b x (some (pos n)) =
      Counted-if b _ _ (leb n (max_int - b.usage))
        (usage_only b (b.usage + n) b.usage_known (b.estimated || x.estimated))
        (usage_only b b.usage false b.estimated)

  Fits-Counted :
      (b c : EmbeddingBatches V) (x : EmbeddingBatch V) → Counted b c → Fits b x ↔ Fits c x
  Fits-Counted b c x k = (
    λ f. record {
      same_width = λ h. f.same_width (rw k.vectors at h) ∙ sym k.width;
      room = rw (k.vectors, k.expected) f.room;
      size = f.size;
      memory = rw (k.bytes, k.limit) f.memory;
    },
    λ f. record {
      same_width = λ h. f.same_width (rw k.vectors h) ∙ k.width;
      room = rw (k.vectors, k.expected) at f.room;
      size = f.size;
      memory = rw (k.bytes, k.limit) at f.memory;
    },
  )

  add_lem :
      (b : EmbeddingBatches V) (x : EmbeddingBatch V)
      → b.failed ≡ none
      → add b x ≡ append_batch (count_usage b x x.prompt_tokens) x
  unfolding add add_unless
  add_lem b x f = ap (add_unless b x) f

  pub add-Fits :
      (b : EmbeddingBatches V) (x : EmbeddingBatch V)
      → b.failed ≡ none
      → (add b x).1 ≡ none
      → Fits b x
  add-Fits b x f h =
      let c = count_usage b x x.prompt_tokens in
      let k = count_usage-Counted b x x.prompt_tokens in
      (Fits-Counted b c x k).1 (append_batch-Fits c x (rw (add_lem b x f) at h))

  pub add-Added :
      (b : EmbeddingBatches V) (x : EmbeddingBatch V)
      → b.failed ≡ none
      → Fits b x
      → ((add b x).1 ≡ none) × Added b x (add b x).0
  add-Added b x f h =
      let c = count_usage b x x.prompt_tokens in
      let k = count_usage-Counted b x x.prompt_tokens in
      let (e, a) = append_batch-Added c x (k.failed ∙ f) ((Fits-Counted b c x k).0 h) in
      rw (add_lem b x f) (
        e,
        record {
          vectors = a.vectors ∙ ap (λ w. w ++ x.vectors) k.vectors;
          expected = a.expected ∙ k.expected;
          width = a.width;
          bytes = a.bytes ∙ ap (λ n. n + pos_part x.retained_bytes) k.bytes;
          limit = a.limit ∙ k.limit;
          failed = a.failed;
        },
      )
