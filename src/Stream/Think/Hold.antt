-- ===== src/Stream/Think/Hold.antt =====
-- The bytes that are kept back: the loop of `Feed` finds the longest end of the text that could
-- begin a tag.
use ollame.Prelude.{
  ℕ, zero, suc, ◌+◌, ◌-◌, ◌≤◌, ◌<◌, ◌≡◌, ◌⊎◌, inl, inr, refl, Bool, true, false, ◌&&◌, [], ◌∷◌, min,
  arith, Bytes, ends_with, starts_with, bytes_eq, length, take, if◌then◌else◌, ltb, lt→ltb,
  Bool-cases, length-take, sym, ◌∙◌,
}
use mathlib.Core.Bool.{false≢true}
use native.Mathlib.Decide.{dec_lt, dec_le}
use ollame.Stream.Think.{hold_from, hold}

-- The text is a beginning of the tag, and not all of it.
abbrev pub begins : Bytes → Bytes → Bool
begins tag text = starts_with text tag && ltb (length text) (length tag)

-- The length of the longest end of the text that begins the tag.
unfoldable pub held : Bytes → Bytes → ℕ
held tag [] = 0
held tag (c ∷ text) = if begins tag (c ∷ text) then suc (length text) else held tag text

ends_with-cons :
    (p : Bytes) (c : ℕ) (text : Bytes)
    → length p ≤ length text
    → ends_with p (c ∷ text) ≡ ends_with p text
unfolding ends_with
ends_with-cons p c text h =
    let e : suc (length text) - length p ≡ suc (length text - length p) = omega arith in
    rw e (ground arith)

ends_with_whole : (p text : Bytes) → length p ≡ length text → ends_with p text ≡ bytes_eq text p
unfolding ends_with
ends_with_whole p text h = let e : length text - length p ≡ 0 = omega arith in rw e (ground arith)

starts_with-take :
    (p s : Bytes) → length p ≤ length s → starts_with p s ≡ bytes_eq p (take (length p) s)
unfolding starts_with bytes_eq
starts_with-take [] s h = refl
starts_with-take (x ∷ p) [] h = absurd (omega arith)
starts_with-take (x ∷ p) (y ∷ s) h = ground (arith, starts_with-take p s)

length-take_le : (n : ℕ) (s : Bytes) → n ≤ length s → length (take n s) ≡ n
length-take_le n s h = omega (arith, length-take n s)

-- At its full length the text fits exactly if it begins the tag.
ends_with-begins :
    (tag text : Bytes)
    → length text < length tag
    → ends_with (take (length text) tag) text ≡ begins tag text
ends_with-begins tag text h =
    ends_with_whole _ text (length-take_le (length text) tag (omega arith))
    ∙ sym (starts_with-take text tag (omega arith))
    ∙ rw (lt→ltb _ _ h) (ground arith)

pub held-le : (tag text : Bytes) → held tag text ≤ length text
unfolding held
held-le tag [] = omega arith
held-le tag (c ∷ text) = ground (arith, held-le tag text)

pub held-lt : (tag text : Bytes) → 0 < length tag → held tag text < length tag
unfolding held
held-lt tag [] h = h
held-lt tag (c ∷ text) h = ground (arith, held-lt tag text h)

-- What is kept back does begin the tag.
held_fits :
    (tag text : Bytes)
    → 0 < held tag text
    → 0 < length tag
    → ends_with (take (held tag text) tag) text ≡ true
unfolding held
held_fits tag [] h t = absurd (omega arith)
held_fits tag (c ∷ text) h t = elim (Bool-cases (begins tag (c ∷ text))) [
  | inl e ↦ rw e (ends_with-begins tag (c ∷ text) (ground arith) ∙ e)
  | inr e ↦
      let f : held tag (c ∷ text) ≡ held tag text = rw e in
      rw f (
        ends_with-cons _ c text (omega (arith, length-take (held tag text) tag, held-le tag text))
        ∙ held_fits tag text (ground arith) t)
]

-- Nothing longer does.
held_longest :
    (tag text : Bytes) (n : ℕ)
    → n < length tag
    → n ≤ length text
    → ends_with (take n tag) text ≡ true
    → n ≤ held tag text
unfolding held
held_longest tag [] n a b e = b
held_longest tag (c ∷ text) n a b e = elim (dec_le n (length text)) [
  | yes p ↦
      let shorter =
        held_longest tag text n a p
          (sym (ends_with-cons (take n tag) c text (omega (arith, length-take n tag))) ∙ e) in
      ground (arith, shorter)
  | no p ↦
      let w : n ≡ length (c ∷ text) = omega arith in
      let g : begins tag (c ∷ text) ≡ true =
        sym (ends_with-begins tag (c ∷ text) (omega arith)) ∙ (rw w at e) in
      rw g b
]

hold_from-held :
    (tag text : Bytes) (rounds n h : ℕ)
    → n + rounds ≤ length tag
    → n + rounds ≤ length text + 1
    → held tag text < n + rounds
    → 0 < n
    → (held tag text < n → h ≡ held tag text)
    → hold_from tag text rounds n h ≡ held tag text
unfolding hold_from
hold_from-held tag text zero n h a b c d inv = inv (omega arith)
hold_from-held tag text (suc rounds) n h a b c d inv =
    hold_from-held tag text rounds (n + 1) _ (omega arith) (omega arith) (omega arith) (omega arith)
      (λ less. step (Bool-cases (ends_with (take n tag) text)) less)
  where
    step :
        (ends_with (take n tag) text ≡ true) ⊎ (ends_with (take n tag) text ≡ false)
        → held tag text < n + 1
        → (if ends_with (take n tag) text then n else h) ≡ held tag text
    step (inl e) less = rw e (omega (arith, held_longest tag text n (omega arith) (omega arith) e))
    step (inr e) less = rw e (
        inv (elim (dec_lt (held tag text) n) [
          | yes p ↦ p
          | no p ↦
              let w : n ≡ held tag text = omega arith in
              let f : ends_with (take n tag) text ≡ true =
                rw w (held_fits tag text (omega arith) (omega arith)) in
              absurd (false≢true (sym e ∙ f))
        ]))

-- The loop keeps back the longest end of the text that begins the tag.
pub hold-held : (tag text : Bytes) → 0 < length tag → hold tag text ≡ held tag text
unfolding hold
hold-held tag text h =
    hold_from-held tag text (min (length tag - 1) (length text)) 1 0 (omega arith) (omega arith)
      (omega (arith, held-le tag text, held-lt tag text h)) (omega arith) (λ l. omega arith)
