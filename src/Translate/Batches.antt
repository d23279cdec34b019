-- ===== src/Translate/Batches.antt =====
-- internal/translate/embedding_batches.go: the vectors of several upstream batches, kept until the
-- whole input has succeeded. A vector is a value of any type V.
pub mod Collect
pub mod Steps
use ollame.Prelude.{
  ℕ, zero, suc, ◌+◌, ◌-◌, ◌≡◌, Bool, true, false, not, ◌&&◌, ◌||◌, Option, none, some, List, [],
  ◌∷◌, ◌++◌, Bytes, codes, length, ltb, leb, ◌==◌, if◌then◌else◌, ℤ, pos, negsuc, ◌-ℤ◌, ltb_ℤ,
  pos_part, max_int,
}

-- The reasons that `ErrInvalidEmbeddings` is wrapped with.
pub data Reason : Type 0 where
  inconsistent_dimensions too_many_vectors retained_size incomplete_batches : Reason

-- Of `translate.EmbeddingBatch`, the fields that are read here; a `Width` is a length.
pub record EmbeddingBatch (V : Type 0) : Type 0 where
  pub vectors : List V
  pub width : ℕ
  pub prompt_tokens : Option ℤ
  pub estimated : Bool
  pub retained_bytes : ℤ

-- `bytes` and `usage` start at 0 and are only added to. `failed` is the reason of the error.
pub record EmbeddingBatches (V : Type 0) : Type 0 where
  pub vectors : List V
  pub expected : ℤ
  pub width : ℕ
  pub bytes : ℕ
  pub limit : ℤ
  pub usage : ℕ
  pub usage_known : Bool
  pub estimated : Bool
  pub failed : Option Reason

abbrev pub new_embedding_batches : {V : Type 0} → ℤ → ℤ → EmbeddingBatches V
new_embedding_batches expected limit = record {
  vectors = [];
  expected = expected;
  width = 0;
  bytes = 0;
  limit = limit;
  usage = 0;
  usage_known = true;
  estimated = false;
  failed = none;
}

-- The vectors, or the reason of the error.
pub data Finished (V : Type 0) : Type 0 where
  done : List V → Finished V
  invalid : Reason → Finished V

-- Equality of `int` values.
abbrev eq_ℤ : ℤ → ℤ → Bool
eq_ℤ a b = not (ltb_ℤ a b) && not (ltb_ℤ b a)

-- The first reason is kept.
set_failed : Option Reason → Reason → Reason
set_failed none reason = reason
set_failed (some e) reason = e

module _ {V : Type 0} where
  -- The usage of a batch, counted before its vectors are looked at.
  pub count_usage : EmbeddingBatches V → EmbeddingBatch V → Option ℤ → EmbeddingBatches V
  count_usage b batch (some (pos tokens)) =
      if leb tokens (max_int - b.usage)
      then record b { usage = b.usage + tokens; estimated = b.estimated || batch.estimated }
      else record b { usage_known = false }
  count_usage b batch _ = record b { usage_known = false }

  pub fail : Reason → EmbeddingBatches V → EmbeddingBatches V × Option Reason
  unfolding set_failed
  fail reason b =
      let e = set_failed b.failed reason in (record b { failed = some e; vectors = [] }, some e)

  -- The part of `Add` behind the count of usage.
  pub append_batch : EmbeddingBatches V → EmbeddingBatch V → EmbeddingBatches V × Option Reason
  unfolding fail
  append_batch b batch =
      if ltb 0 (length b.vectors) && not (batch.width == b.width)
      then fail inconsistent_dimensions b
      else if ltb_ℤ (b.expected -ℤ pos (length b.vectors)) (pos (length batch.vectors))
      then fail too_many_vectors b
      else if ltb_ℤ batch.retained_bytes (pos 0)
          || ltb_ℤ (b.limit -ℤ pos b.bytes) batch.retained_bytes
      then fail retained_size b
      else (
        record b {
          width = batch.width;
          bytes = b.bytes + pos_part batch.retained_bytes;
          vectors = b.vectors ++ batch.vectors;
        },
        none,
      )

  pub add_unless :
      EmbeddingBatches V → EmbeddingBatch V → Option Reason → EmbeddingBatches V × Option Reason
  unfolding append_batch count_usage
  add_unless b batch (some e) = (b, some e)
  add_unless b batch none = append_batch (count_usage b batch batch.prompt_tokens) batch

  pub add : EmbeddingBatches V → EmbeddingBatch V → EmbeddingBatches V × Option Reason
  unfolding add_unless
  add b batch = add_unless b batch b.failed

  incomplete : EmbeddingBatches V → EmbeddingBatches V × Finished V
  unfolding set_failed
  incomplete b =
      let reason = incomplete_batches in ((fail reason b).0, invalid (set_failed b.failed reason))

  pub finish_unless : EmbeddingBatches V → Option Reason → EmbeddingBatches V × Finished V
  unfolding incomplete fail
  finish_unless b (some e) = (b, invalid e)
  finish_unless b none =
      if not (eq_ℤ (pos (length b.vectors)) b.expected) then incomplete b else (b, done b.vectors)

  pub finish : EmbeddingBatches V → EmbeddingBatches V × Finished V
  unfolding finish_unless
  finish b = finish_unless b b.failed
