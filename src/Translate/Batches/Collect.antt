-- ===== src/Translate/Batches/Collect.antt =====
-- What becomes of a sequence of batches.
use ollame.Prelude.{
  ℕ, ◌+◌, ◌≤◌, ◌<◌, ◌≡◌, ◌↔◌, refl, sym, ap, ◌∙◌, arith, Option, none, some, List, [], ◌∷◌, ◌++◌,
  append-nil, append_assoc, length, length-append, All, pos, pos_part,
}
use ollame.Translate.Batches.{
  EmbeddingBatch, EmbeddingBatches, Finished, done, invalid, new_embedding_batches, add, finish,
  finish_unless, incomplete, Reason,
}
use ollame.Translate.Batches.Steps.{Fits, Added, add-Fits, add-Added}

module _ {V : Type 0} where
  abbrev pub next :
      EmbeddingBatches V × Finished V
      → EmbeddingBatches V × Option Reason
      → EmbeddingBatches V × Finished V
  next more (b, none) = more
  next more (b, some e) = (b, invalid e)

  -- `Add` for every batch up to the first error, and `Finish` behind them.
  abbrev pub collect :
      EmbeddingBatches V → List (EmbeddingBatch V) → EmbeddingBatches V × Finished V
  collect b [] = finish b
  collect b (x ∷ batches) = next (collect (add b x).0 batches) (add b x)

  abbrev pub vectors_of : List (EmbeddingBatch V) → List V
  vectors_of [] = []
  vectors_of (x ∷ batches) = x.vectors ++ vectors_of batches

  abbrev pub bytes_of : List (EmbeddingBatch V) → ℕ
  bytes_of [] = 0
  bytes_of (x ∷ batches) = pos_part x.retained_bytes + bytes_of batches

  -- All vectors are as wide, sizes are not negative, and the limits are kept exactly.
  pub record Coherent (expected limit : ℕ) (batches : List (EmbeddingBatch V)) : Type 0 where
    pub width : ℕ
    pub widths : All (λ x. x.width ≡ width) batches
    pub sizes : All (λ x. x.retained_bytes ≡ pos (pos_part x.retained_bytes)) batches
    pub memory : bytes_of batches ≤ limit
    pub count : length (vectors_of batches) ≡ expected

  -- The state behind some batches that were added.
  record Before (expected limit : ℕ) (b : EmbeddingBatches V) : Type 0 where
    failed : b.failed ≡ none
    expects : b.expected ≡ pos expected
    limits : b.limit ≡ pos limit
    memory : b.bytes ≤ limit

  -- What is still to come is coherent with what is there.
  record Rest (expected limit : ℕ) (b : EmbeddingBatches V) (batches : List (EmbeddingBatch V))
      : Type 0 where
    width : ℕ
    known : 0 < length b.vectors → b.width ≡ width
    widths : All (λ x. x.width ≡ width) batches
    sizes : All (λ x. x.retained_bytes ≡ pos (pos_part x.retained_bytes)) batches
    memory : b.bytes + bytes_of batches ≤ limit
    count : length b.vectors + length (vectors_of batches) ≡ expected

  abbrev pub Nonempty : List (EmbeddingBatch V) → Type 0
  Nonempty batches = All (λ x. 0 < length x.vectors) batches

  Added-Before :
      {n m : ℕ} (b b' : EmbeddingBatches V) (x : EmbeddingBatch V)
      → Before n m b
      → Fits b x
      → Added b x b'
      → Before n m b'
  Added-Before b b' x p f a = record {
    failed = a.failed;
    expects = a.expected ∙ p.expects;
    limits = a.limit ∙ p.limits;
    memory = omega (arith, a.bytes, rw p.limits at f.memory);
  }

  finish-done :
      (n : ℕ) (b : EmbeddingBatches V) (vs : List V)
      → b.failed ≡ none
      → b.expected ≡ pos n
      → (finish b).1 ≡ done vs
      → (length b.vectors ≡ n) × (vs ≡ b.vectors)
  unfolding finish finish_unless incomplete
  finish-done n b vs f e h =
      let g : (finish_unless b none).1 ≡ done vs = ap (λ o. (finish_unless b o).1) (sym f) ∙ h in
      ground arith

  done-finish :
      (n : ℕ) (b : EmbeddingBatches V)
      → b.failed ≡ none
      → b.expected ≡ pos n
      → length b.vectors ≡ n
      → (finish b).1 ≡ done b.vectors
  unfolding finish finish_unless
  done-finish n b f e h = ap (λ o. (finish_unless b o).1) f ∙ ground arith

  pub next-done :
      (more : EmbeddingBatches V × Finished V) (o : EmbeddingBatches V × Option Reason)
      (vs : List V)
      → (next more o).1 ≡ done vs
      → (o.1 ≡ none) × (more.1 ≡ done vs)
  next-done more (b, none) vs h = (refl, h)
  next-done more (b, some e) vs h = absurd (ground arith)

  pub next-none :
      (more : EmbeddingBatches V × Finished V) (o : EmbeddingBatches V × Option Reason)
      → o.1 ≡ none
      → next more o ≡ more
  next-none more (b, none) h = refl
  next-none more (b, some e) h = absurd (ground arith)

  -- What is to come seen from behind the next batch.
  Rest-cons :
      {n m : ℕ} (b b' : EmbeddingBatches V) (x : EmbeddingBatch V)
      (batches : List (EmbeddingBatch V))
      → 0 < length x.vectors
      → Fits b x
      → Added b x b'
      → Rest n m b' batches
      → Rest n m b (x ∷ batches)
  Rest-cons b b' x batches ne f a r =
      let some_there : 0 < length b'.vectors =
        omega (arith, length-append b.vectors x.vectors, ap length a.vectors) in
      let w : x.width ≡ r.width = sym a.width ∙ r.known some_there in
      record {
        width = r.width;
        known = λ h. sym (f.same_width h) ∙ w;
        widths = (w, r.widths);
        sizes = (f.size, r.sizes);
        memory = omega (arith, a.bytes, r.memory);
        count = omega (
          arith,
          r.count,
          ap length a.vectors,
          length-append b.vectors x.vectors,
          length-append x.vectors (vectors_of batches),
        );
      }

  collect-Rest :
      {n m : ℕ} (batches : List (EmbeddingBatch V)) (b : EmbeddingBatches V) (vs : List V)
      → Before n m b
      → Nonempty batches
      → (collect b batches).1 ≡ done vs
      → Rest n m b batches × (vs ≡ b.vectors ++ vectors_of batches)
  collect-Rest {n} [] b vs p ne h =
      let (count, same) = finish-done n b vs p.failed p.expects h in
      (
        record {
          width = b.width;
          known = λ h. refl;
          widths = tt;
          sizes = tt;
          memory = omega (arith, p.memory);
          count = omega (arith, count);
        },
        same ∙ sym (append-nil b.vectors),
      )
  collect-Rest (x ∷ batches) b vs p ne h =
      let (e, more) = next-done _ (add b x) vs h in
      let f = add-Fits b x p.failed e in
      let (_, a) = add-Added b x p.failed f in
      let (r, same) =
        collect-Rest batches (add b x).0 vs (Added-Before b (add b x).0 x p f a) ne.1 more in
      (
        Rest-cons b (add b x).0 x batches ne.0 f a r,
        same ∙ ap (λ w. w ++ vectors_of batches) a.vectors ∙ append_assoc b.vectors x.vectors _,
      )

  -- A batch that is part of a coherent rest fits.
  Rest-Fits :
      {n m : ℕ} (b : EmbeddingBatches V) (x : EmbeddingBatch V) (batches : List (EmbeddingBatch V))
      → Before n m b
      → Rest n m b (x ∷ batches)
      → Fits b x
  Rest-Fits b x batches p r = record {
    same_width = λ h. r.widths.0 ∙ sym (r.known h);
    room = rw p.expects (omega (arith, r.count, length-append x.vectors (vectors_of batches)));
    size = r.sizes.0;
    memory = rw p.limits (omega (arith, r.memory));
  }

  Rest-tail :
      {n m : ℕ} (b b' : EmbeddingBatches V) (x : EmbeddingBatch V)
      (batches : List (EmbeddingBatch V))
      → Added b x b'
      → Rest n m b (x ∷ batches)
      → Rest n m b' batches
  Rest-tail b b' x batches a r = record {
    width = r.width;
    known = λ h. a.width ∙ r.widths.0;
    widths = r.widths.1;
    sizes = r.sizes.1;
    memory = omega (arith, a.bytes, r.memory);
    count = omega (
      arith,
      r.count,
      ap length a.vectors,
      length-append b.vectors x.vectors,
      length-append x.vectors (vectors_of batches),
    );
  }

  Rest-collect :
      {n m : ℕ} (batches : List (EmbeddingBatch V)) (b : EmbeddingBatches V)
      → Before n m b
      → Rest n m b batches
      → (collect b batches).1 ≡ done (b.vectors ++ vectors_of batches)
  Rest-collect {n} [] b p r =
      done-finish n b p.failed p.expects (omega (arith, r.count))
      ∙ ap done (sym (append-nil b.vectors))
  Rest-collect (x ∷ batches) b p r =
      let f = Rest-Fits b x batches p r in
      let (e, a) = add-Added b x p.failed f in
      rw (next-none (collect (add b x).0 batches) (add b x) e) (
        Rest-collect batches (add b x).0 (Added-Before b (add b x).0 x p f a)
          (Rest-tail b (add b x).0 x batches a r)
        ∙ ap done
            (ap (λ w. w ++ vectors_of batches) a.vectors ∙ append_assoc b.vectors x.vectors _))

  -- Where every batch brings vectors, adding all to a new collection and finishing it succeeds
  -- exactly if the batches are coherent:
  -- all as wide, no size negative, the sizes together within the limit, and as many vectors as
  -- were expected. Its result then is all the vectors in their order.
  pub collect_iff :
      (n m : ℕ) (batches : List (EmbeddingBatch V)) (vs : List V)
      → Nonempty batches
      → ((collect (new_embedding_batches (pos n) (pos m)) batches).1 ≡ done vs)
        ↔ (Coherent n m batches × (vs ≡ vectors_of batches))
  collect_iff n m batches vs ne =
      let b : EmbeddingBatches V = new_embedding_batches (pos n) (pos m) in
      let p : Before n m b = record {
        failed = refl;
        expects = refl;
        limits = refl;
        memory = omega arith;
      } in
      (
        λ h.
            let (r, same) = collect-Rest batches b vs p ne h in
            (
              record {
                width = r.width;
                widths = r.widths;
                sizes = r.sizes;
                memory = omega (arith, r.memory);
                count = omega (arith, r.count);
              },
              same,
            ),
        λ (c, same).
            Rest-collect batches b p (record {
              width = c.width;
              known = λ h. absurd (omega arith);
              widths = c.widths;
              sizes = c.sizes;
              memory = omega (arith, c.memory);
              count = omega (arith, c.count);
            })
            ∙ ap done (sym same),
      )
