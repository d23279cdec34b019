-- ===== src/Server/Embed/Whole.antt =====
-- When the handler sends vectors, and which.
use ollame.Prelude.{
  ℕ, zero, suc, ◌+◌, ◌≤◌, ◌<◌, ◌≡◌, ◌≢◌, ◌↔◌, refl, ap, ◌∙◌, inl, inr, arith, Bool, true, false,
  Option, none, some, List, [], ◌∷◌, Bytes, length, take, drop, length-append, length-take,
  length-drop, ℤ, pos, negsuc, pos_part, All, Result, ok, Result-cases,
}
use mathlib.Core.Path.{subst}
use ollame.Translate.Batches.{
  EmbeddingBatch, EmbeddingBatches, Finished, done, invalid, Reason, new_embedding_batches, add,
  finish,
}
use ollame.Translate.Batches.Collect.{
  next-done, next-none, collect, vectors_of, bytes_of, Nonempty, Coherent, collect_iff,
}
use ollame.Translate.Estimate.{estimate_usage-vectors}
use ollame.Server.Embed.{
  Outcome, sent, out_of_fuel, size_of, estimated_for, after_add, after_finish, embed_loop, embed,
}

-- Batches of one width, of sizes that are not negative and together within the limit.
abbrev pub Agree : {V : Type 0} → ℕ → List (EmbeddingBatch V) → Type 0
Agree limit batches =
    (width : ℕ) × All (λ x. x.width ≡ width) batches
    × All (λ x. x.retained_bytes ≡ pos (pos_part x.retained_bytes)) batches
    × (bytes_of batches ≤ limit)

size_of-positive : (batch_size : ℤ) (n : ℕ) → 0 < size_of batch_size (suc n)
size_of-positive (pos zero) n = omega arith
size_of-positive (pos (suc k)) n = ground arith
size_of-positive (negsuc k) n = ground arith

module _ {E V : Type 0} (answer : ℕ → List Bytes → Result E (EmbeddingBatch V))
    (estimates : Bool) where
  -- Every round is answered: the inputs from `start` on, so many at a time, give these batches.
  abbrev pub Answers : ℕ → ℕ → List Bytes → List (EmbeddingBatch V) → Type 0
  Answers size start [] [] = Unit {0}
  Answers size start [] (y ∷ batches) = ⊥
  Answers size start (i ∷ inputs) [] = ⊥
  Answers size start (i ∷ inputs) (y ∷ batches) =
      ((x : EmbeddingBatch V) × (answer start (take size (i ∷ inputs)) ≡ ok x)
        × (y ≡ estimated_for estimates (take size (i ∷ inputs)) x))
      × Answers size (start + size) (drop size (i ∷ inputs)) batches

  after_add-sent :
      (again : EmbeddingBatches V → EmbeddingBatches V × Outcome E V)
      (r : EmbeddingBatches V × Option Reason) (vs : List V)
      → (after_add again r).1 ≡ sent vs
      → (r.1 ≡ none) × ((again r.0).1 ≡ sent vs)
  after_add-sent again (b, none) vs h = (refl, h)
  after_add-sent again (b, some e) vs h = absurd cc

  after_add-none :
      (again : EmbeddingBatches V → EmbeddingBatches V × Outcome E V)
      (r : EmbeddingBatches V × Option Reason)
      → r.1 ≡ none
      → after_add again r ≡ again r.0
  after_add-none again (b, none) h = refl
  after_add-none again (b, some e) h = absurd cc

  after_finish-sent :
      (r : EmbeddingBatches V × Finished V) (vs : List V)
      → ((after_finish {E = E} r).1 ≡ sent vs) ↔ (r.1 ≡ done vs)
  after_finish-sent (b, done ws) vs = (λ h. ap done cc, λ h. ap sent cc)
  after_finish-sent (b, invalid e) vs = (λ h. absurd cc, λ h. absurd cc)

  next_shorter :
      (fuel size : ℕ) (i : Bytes) (inputs : List Bytes)
      → 0 < size
      → length (i ∷ inputs) ≤ suc fuel
      → length (drop size (i ∷ inputs)) ≤ fuel
  next_shorter fuel size i inputs p l = omega (arith, length-drop size (i ∷ inputs), l, p)

  loop_collects :
      (fuel size start : ℕ) (inputs : List Bytes) (b : EmbeddingBatches V) (vs : List V)
      → (embed_loop answer estimates fuel size start inputs b).1 ≡ sent vs
      → (batches : List (EmbeddingBatch V)) × Answers size start inputs batches
        × ((collect b batches).1 ≡ done vs)
  unfolding embed_loop
  loop_collects fuel size start [] b vs h = ([], tt, (after_finish-sent (finish b) vs).0 h)
  loop_collects zero size start (i ∷ inputs) b vs h = absurd cc
  loop_collects (suc fuel) size start (i ∷ inputs) b vs h =
      let now = take size (i ∷ inputs) in
      let later = drop size (i ∷ inputs) in
      elim (Result-cases (answer start now)) [
        | inr (e, bad) ↦ absurd (cc (rw (embed_loop, bad) at h))
        | inl (x, good) ↦
            let y = estimated_for estimates now x in
            let (fits, more) =
              after_add-sent (embed_loop answer estimates fuel size (start + size) later) (add b y)
                vs (rw (embed_loop, good) at h) in
            let (batches, all, collected) =
              loop_collects fuel size (start + size) later (add b y).0 vs more in
            (
              y ∷ batches,
              ((x, good, refl), all),
              rw (next-none (collect (add b y).0 batches) (add b y) fits) collected,
            )
      ]

  collects_loop :
      (fuel size start : ℕ) (inputs : List Bytes) (batches : List (EmbeddingBatch V))
      (b : EmbeddingBatches V) (vs : List V)
      → 0 < size
      → length inputs ≤ fuel
      → Answers size start inputs batches
      → (collect b batches).1 ≡ done vs
      → (embed_loop answer estimates fuel size start inputs b).1 ≡ sent vs
  unfolding embed_loop
  collects_loop fuel size start [] [] b vs p l a h = (after_finish-sent (finish b) vs).1 h
  collects_loop fuel size start [] (y ∷ batches) b vs p l a h = absurd a
  collects_loop fuel size start (i ∷ inputs) [] b vs p l a h = absurd a
  collects_loop zero size start (i ∷ inputs) (y ∷ batches) b vs p l a h = absurd (omega (arith, l))
  collects_loop (suc fuel) size start (i ∷ inputs) (y ∷ batches) b vs p l ((x, good, made), all) h =
      let later = drop size (i ∷ inputs) in
      let again = embed_loop answer estimates fuel size (start + size) later in
      let z = estimated_for estimates (take size (i ∷ inputs)) x in
      let h' = subst (λ (w : EmbeddingBatch V). (collect b (w ∷ batches)).1 ≡ done vs) made h in
      let (fits, more) = next-done (collect (add b z).0 batches) (add b z) vs h' in
      let rest =
        collects_loop fuel size (start + size) later batches (add b z).0 vs p
          (next_shorter fuel size i inputs p l) all more in
      rw (embed_loop, good) (rw (after_add-none again (add b z) fits) rest)

  -- The fuel is enough.
  loop_fuel :
      (fuel size start : ℕ) (inputs : List Bytes) (b : EmbeddingBatches V)
      → 0 < size
      → length inputs ≤ fuel
      → (embed_loop answer estimates fuel size start inputs b).1 ≢ out_of_fuel
  unfolding embed_loop
  loop_fuel fuel size start [] b p l h = finished (finish b) h
    where
      finished : (r : EmbeddingBatches V × Finished V) → (after_finish {E = E} r).1 ≢ out_of_fuel
      finished (b, done vs) h = absurd cc
      finished (b, invalid e) h = absurd cc
  loop_fuel zero size start (i ∷ inputs) b p l h = absurd (omega (arith, l))
  loop_fuel (suc fuel) size start (i ∷ inputs) b p l h =
      let now = take size (i ∷ inputs) in
      let later = drop size (i ∷ inputs) in
      elim (Result-cases (answer start now)) [
        | inr (e, bad) ↦ absurd (cc (rw (embed_loop, bad) at h))
        | inl (x, good) ↦
            added (embed_loop answer estimates fuel size (start + size) later)
              (add b (estimated_for estimates now x))
              (λ c.
                loop_fuel fuel size (start + size) later c p (next_shorter fuel size i inputs p l))
              (rw (embed_loop, good) at h)
      ]
    where
      added :
          (again : EmbeddingBatches V → EmbeddingBatches V × Outcome E V)
          (r : EmbeddingBatches V × Option Reason)
          → ((c : EmbeddingBatches V) → (again c).1 ≢ out_of_fuel)
          → (after_add again r).1 ≢ out_of_fuel
      added again (c, none) n = n c
      added again (c, some e) n = λ h. absurd cc

  estimated_for-vectors :
      (b : Bool) (inputs : List Bytes) (x : EmbeddingBatch V)
      → (estimated_for b inputs x).vectors ≡ x.vectors
  estimated_for-vectors true inputs x = estimate_usage-vectors inputs x
  estimated_for-vectors false inputs x = refl

  -- A decoded response has one vector for each input of its round.
  abbrev pub Counts : Type 0
  Counts =
      (start : ℕ) (inputs : List Bytes) (x : EmbeddingBatch V)
      → answer start inputs ≡ ok x
      → length x.vectors ≡ length inputs

  module _ (counts : Counts) where
    answered_length :
        (size start : ℕ) (i : Bytes) (inputs : List Bytes) (y : EmbeddingBatch V)
        → (x : EmbeddingBatch V) × (answer start (take size (i ∷ inputs)) ≡ ok x)
          × (y ≡ estimated_for estimates (take size (i ∷ inputs)) x)
        → length y.vectors ≡ length (take size (i ∷ inputs))
    answered_length size start i inputs y (x, good, made) =
        let now = take size (i ∷ inputs) in
        ap (λ (z : EmbeddingBatch V). length z.vectors) made
        ∙ ap length (estimated_for-vectors estimates now x)
        ∙ counts start now x good

    Answers-Nonempty :
        (size start : ℕ) (inputs : List Bytes) (batches : List (EmbeddingBatch V))
        → 0 < size
        → Answers size start inputs batches
        → Nonempty batches
    Answers-Nonempty size start inputs [] p a = tt
    Answers-Nonempty size start [] (y ∷ batches) p a = absurd a
    Answers-Nonempty size start (i ∷ inputs) (y ∷ batches) p (first, a) = (
      omega (arith, p, answered_length size start i inputs y first, length-take size (i ∷ inputs)),
      Answers-Nonempty size (start + size) (drop size (i ∷ inputs)) batches p a,
    )

    Answers-count :
        (size start : ℕ) (inputs : List Bytes) (batches : List (EmbeddingBatch V))
        → Answers size start inputs batches
        → length (vectors_of batches) ≡ length inputs
    Answers-count size start [] [] a = refl
    Answers-count size start (i ∷ inputs) [] a = absurd a
    Answers-count size start [] (y ∷ batches) a = absurd a
    Answers-count size start (i ∷ inputs) (y ∷ batches) (first, a) = omega (
      arith,
      answered_length size start i inputs y first,
      Answers-count size (start + size) (drop size (i ∷ inputs)) batches a,
      length-append y.vectors (vectors_of batches),
      length-take size (i ∷ inputs),
      length-drop size (i ∷ inputs),
    )

    -- Where the handler has an input and every response that it decodes has a vector for each input
    -- of its round: it sends vectors exactly if every round is answered, the batches, cut from the
    -- inputs in their order by the configured size (all inputs where that is not positive), are of
    -- one width, and their sizes are not negative and together within the limit. The vectors then
    -- are those of all batches in their order. The loop never stops for lack of fuel.
    pub embed_iff :
        (batch_size : ℤ) (limit : ℕ) (i : Bytes) (inputs : List Bytes) (vs : List V)
        → (((embed answer estimates batch_size (pos limit) (i ∷ inputs)).1 ≡ sent vs) ↔ (
            (batches : List (EmbeddingBatch V)) × Answers
              (size_of batch_size (length (i ∷ inputs)))
              0
              (i ∷ inputs)
              batches
            × Agree limit batches
            × (vs ≡ vectors_of batches)))
          × ((embed answer estimates batch_size (pos limit) (i ∷ inputs)).1 ≢ out_of_fuel)
    unfolding embed
    embed_iff batch_size limit i inputs vs =
        let n = length (i ∷ inputs) in
        let size = size_of batch_size n in
        let p = size_of-positive batch_size (length inputs) in
        let b = new_embedding_batches {V = V} (pos n) (pos limit) in
        (
          (
            λ h.
                let (batches, all, collected) = loop_collects n size 0 (i ∷ inputs) b vs h in
                let nonempty = Answers-Nonempty size 0 (i ∷ inputs) batches p all in
                let (c, same) = (collect_iff n limit batches vs nonempty).0 collected in
                (batches, all, (c.width, c.widths, c.sizes, c.memory), same),
            λ (batches, all, (width, widths, sizes, memory), same).
                let nonempty = Answers-Nonempty size 0 (i ∷ inputs) batches p all in
                let c : Coherent n limit batches = record {
                  width = width;
                  widths = widths;
                  sizes = sizes;
                  memory = memory;
                  count = Answers-count size 0 (i ∷ inputs) batches all;
                } in
                collects_loop n size 0 (i ∷ inputs) batches b vs p (omega arith) all
                  ((collect_iff n limit batches vs nonempty).1 (c, same)),
          ),
          loop_fuel n size 0 (i ∷ inputs) b p (omega arith),
        )
