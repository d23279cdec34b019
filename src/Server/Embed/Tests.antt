-- ===== src/Server/Embed/Tests.antt =====
-- Runs of the embedding loop, and its theorem at a concrete input.
use ollame.Prelude.{
  ℕ, suc, ◌≡◌, ◌≢◌, ◌↔◌, refl, sym, ap, ◌∙◌, true, false, List, [], ◌∷◌, map, Bytes, codes, length,
  pos, none, Result, ok, err, ok_injective,
}
use ollame.Translate.Batches.{EmbeddingBatch}
use ollame.Translate.Batches.Collect.{vectors_of}
use ollame.Server.Embed.{sent, stopped, out_of_fuel, size_of, embed}
use ollame.Server.Embed.Whole.{Answers, Counts, Agree, embed_iff}

-- The vector of a text has its length alone.
abbrev vector_of : Bytes → List ℕ
vector_of text = length text ∷ []

abbrev by_length : ℕ → List Bytes → Result Bytes (EmbeddingBatch (List ℕ))
by_length start texts = ok (record {
  vectors = map vector_of texts;
  width = 1;
  prompt_tokens = none;
  estimated = false;
  retained_bytes = pos 8;
})

by_length-Counts : Counts by_length true
by_length-Counts start texts x h =
    ap (λ (b : EmbeddingBatch (List ℕ)). length b.vectors) (sym (ok_injective h)) ∙ mapped texts
  where
    mapped : (ts : List Bytes) → length (map vector_of ts) ≡ length ts
    mapped [] = refl
    mapped (t ∷ ts) = ap (λ (n : ℕ). suc n) (mapped ts)

abbrev vectors : List (List ℕ)
vectors = (3 ∷ []) ∷ (2 ∷ []) ∷ (4 ∷ []) ∷ []

embed_iff_example :
    (((embed by_length true (pos 2) (pos 16) (codes "abc" ∷ codes "de" ∷ codes "fghi" ∷ [])).1
        ≡ sent vectors)
      ↔ ((batches : List (EmbeddingBatch (List ℕ))) × Answers by_length true
            (size_of (pos 2) 3)
            0
            (codes "abc" ∷ codes "de" ∷ codes "fghi" ∷ [])
            batches
          × Agree 16 batches
          × (vectors ≡ vectors_of batches)))
    × ((embed by_length true (pos 2) (pos 16) (codes "abc" ∷ codes "de" ∷ codes "fghi" ∷ [])).1
        ≢ out_of_fuel)
embed_iff_example =
    embed_iff by_length true by_length-Counts (pos 2) 16 (codes "abc")
      (codes "de" ∷ codes "fghi" ∷ []) vectors

abbrev unreachable : ℕ → List Bytes → Result Bytes (EmbeddingBatch (List ℕ))
unreachable start texts = err (codes "no upstream")

first_error :
    (embed unreachable true (pos 0) (pos 16) (codes "abc" ∷ codes "de" ∷ [])).1
    ≡ stopped (codes "no upstream")
unfolding embed
first_error = refl
