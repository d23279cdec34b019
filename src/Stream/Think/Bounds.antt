-- ===== src/Stream/Think/Bounds.antt =====
-- What the splitter keeps between calls, and which errors it returns, for any emit function.
use ollame.Prelude.{
  ℕ, zero, suc, ◌+◌, ◌-◌, ◌<◌, ◌≡◌, inl, inr, refl, Bool, true, false, not, Option, none, some, [],
  ◌∷◌, ◌++◌, arith, Bytes, index, length, take, drop, Bool-cases, Option-cases, starts_with,
}
use ollame.Stream.{Failure, Emit}
use ollame.Stream.Think.{
  Text, ThinkSplitter, Outcome, tag_of, toggle, hold, output, after_output, pass, feed_loop, feed,
}
use ollame.Stream.Think.Hold.{begins, held, held-le, hold-held}
use ollame.Stream.Think.Chunks.{fresh, toggle_fields, tag_length, tags_left}

-- Only a possible beginning of the next tag is kept, and nothing once the block is extracted.
pub record IsValid (s : ThinkSplitter) : Type 0 where
  pub begins_tag : begins (tag_of s.inside) s.pending ≡ true
  pub once : s.extracted ≡ true → (s.inside ≡ false) × (s.pending ≡ [])

begins-held : (tag x : Bytes) → 0 < length tag → begins tag (drop (length x - held tag x) x) ≡ true
unfolding held starts_with
begins-held tag [] h = ground arith
begins-held tag (c ∷ x) h = elim (Bool-cases (begins tag (c ∷ x))) [
  | inl b ↦ let z : length (c ∷ x) - length (c ∷ x) ≡ 0 = omega arith in rw b (rw z b)
  | inr b ↦
      let z : length (c ∷ x) - held tag x ≡ suc (length x - held tag x) =
        omega (arith, held-le tag x) in
      rw b (rw z (begins-held tag x h))
]

fresh-IsValid :
    (inside extracted : Bool)
    → (extracted ≡ true → inside ≡ false)
    → IsValid (fresh inside extracted)
unfolding starts_with
fresh-IsValid true extracted h = record { begins_tag = refl; once = λ e. (h e, refl) }
fresh-IsValid false extracted h = record { begins_tag = refl; once = λ e. (h e, refl) }

tags_left-lt : (a b : Bool) → tags_left a b < 3
unfolding tags_left
tags_left-lt true b = omega arith
tags_left-lt false true = omega arith
tags_left-lt false false = omega arith

module _ {S : Type 0} (emit : Emit Text S) where
  -- The splitter that a call leaves is valid.
  abbrev Leaves : Outcome S → Type 0
  Leaves (s, w, e) = IsValid s

  after_output-Leaves :
      (next : S → Outcome S) (s : ThinkSplitter) (o : S × Option Failure)
      → IsValid s
      → ((w : S) → Leaves (next w))
      → Leaves (after_output emit next s o)
  unfolding after_output
  after_output-Leaves next s (w, none) v h = h w
  after_output-Leaves next s (w, some e) v h = v

  pass-Leaves :
      (next : ThinkSplitter → Bytes → S → Outcome S) (inside : Bool) (x : Bytes) (o : Option ℕ)
      (w : S)
      → ((y : Bytes) (w' : S) → Leaves (next (fresh (not inside) inside) y w'))
      → Leaves (pass emit next (fresh inside false) x o w)
  unfolding pass
  pass-Leaves next inside x (some at) w h =
      let y = drop (at + length (tag_of inside)) x in
      after_output-Leaves (next (toggle (fresh inside false)) y) (fresh inside false)
        (output emit (fresh inside false) (take at x) w) (fresh-IsValid inside false (λ e. cc))
        (λ w'. rw (toggle_fields inside) (h y w'))
  pass-Leaves next inside x none w h =
      rw (hold-held (tag_of inside) x (tag_length inside))
        (record { begins_tag = begins-held (tag_of inside) x (tag_length inside); once = λ e. cc })

  feed_loop-Leaves :
      (rounds : ℕ) (inside extracted : Bool) (x : Bytes) (w : S)
      → (extracted ≡ true → inside ≡ false)
      → Leaves (feed_loop emit rounds (fresh inside extracted) x w)
  unfolding feed_loop
  feed_loop-Leaves zero inside extracted x w h = fresh-IsValid inside extracted h
  feed_loop-Leaves (suc rounds) inside extracted [] w h = fresh-IsValid inside extracted h
  feed_loop-Leaves (suc rounds) inside true (c ∷ x) w h = fresh-IsValid inside true h
  feed_loop-Leaves (suc rounds) inside false (c ∷ x) w h =
      pass-Leaves (feed_loop emit rounds) inside (c ∷ x) _ w
        (λ y w'. feed_loop-Leaves rounds (not inside) inside y w' (flips inside))
    where
      flips : (b : Bool) → b ≡ true → not b ≡ false
      flips b e = rw e

  -- Whatever the emit function does, `Feed` keeps back only a beginning of the tag that it waits
  -- for, and nothing behind the block.
  pub feed-IsValid :
      (s : ThinkSplitter) (x : Bytes) (w : S) → IsValid s → IsValid (feed emit s x w).0
  unfolding feed
  feed-IsValid s x w v =
      feed_loop-Leaves 3 s.inside s.extracted (s.pending ++ x) w (λ e. (v.once e).0)

  -- The error of a call is none or one of the emit function's.
  module _ (P : Option Failure → Type 0) (fine : P none)
      (calls : (t : Text) (w : S) → P (emit t w).1) where
    output_error : (s : ThinkSplitter) (u : Bytes) (w : S) → P (output emit s u w).1
    unfolding output
    output_error s [] w = fine
    output_error s (c ∷ u) w = elim (Bool-cases s.inside) [
      | inl e ↦ rw e (calls _ w)
      | inr e ↦ rw e (calls _ w)
    ]

    after_output_error :
        (next : S → Outcome S) (s : ThinkSplitter) (o : S × Option Failure)
        → P o.1
        → ((w : S) → P (next w).2)
        → P (after_output emit next s o).2
    unfolding after_output
    after_output_error next s (w, none) p h = h w
    after_output_error next s (w, some e) p h = p

    feed_loop_error :
        (rounds : ℕ) (inside extracted : Bool) (x : Bytes) (w : S)
        → tags_left extracted inside < rounds
        → P (feed_loop emit rounds (fresh inside extracted) x w).2
    unfolding feed_loop pass tags_left
    feed_loop_error zero inside extracted x w m = absurd (omega arith)
    feed_loop_error (suc rounds) inside extracted [] w m = fine
    feed_loop_error (suc rounds) inside true (c ∷ x) w m = calls _ w
    feed_loop_error (suc rounds) inside false (c ∷ x) w m =
        elim (Option-cases (index (tag_of inside) (c ∷ x))) [
          | inl n ↦
              let kept = length (c ∷ x) - hold (tag_of inside) (c ∷ x) in
              rw n (output_error (fresh inside false) (take kept (c ∷ x)) w)
          | inr (at, n) ↦
              let y = drop (at + length (tag_of inside)) (c ∷ x) in
              rw n (
                after_output_error (feed_loop emit rounds (toggle (fresh inside false)) y)
                  (fresh inside false) (output emit (fresh inside false) (take at (c ∷ x)) w)
                  (output_error (fresh inside false) (take at (c ∷ x)) w)
                  (λ w'.
                    rw (toggle_fields inside)
                      (feed_loop_error rounds (not inside) inside y w' (less inside m))))
        ]
      where
        less : (b : Bool) → tags_left false b < suc rounds → tags_left b (not b) < rounds
        less true h = omega arith
        less false h = omega arith

    -- `Feed` ends with no error or with one that the emit function gave: three rounds are enough.
    pub feed_error : (s : ThinkSplitter) (x : Bytes) (w : S) → P (feed emit s x w).2
    unfolding feed
    feed_error s x w =
        feed_loop_error 3 s.inside s.extracted _ w (tags_left-lt s.extracted s.inside)
