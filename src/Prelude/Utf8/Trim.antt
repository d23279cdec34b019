-- ===== src/Prelude/Utf8/Trim.antt =====
-- `TrimSpace` leaves a text with no space in it as it is.
use Prim.Native.Nat.{ℕ}
use mathlib.Core.Path.{◌≡◌, refl, sym, ◌∙◌}
use mathlib.Core.Logic.{inl, inr}
use mathlib.Core.Bool.{true, false}
use mathlib.Core.List.{[], ◌∷◌, ◌++◌, reverse, reverse-reverse, reverse_aux-eq}
use native.Mathlib.Omega.{arith}
use ollame.Prelude.Tests.{leb, Bool-cases}
use ollame.Prelude.Texts.{Bytes, lower, to_lower}
use ollame.Prelude.Utf8.{has_space, space_width, space_width_back, drop_spaces, trim_space}

has_space-append_right : (s t : Bytes) → has_space (s ++ t) ≡ false → has_space t ≡ false
unfolding has_space
has_space-append_right [] t h = h
has_space-append_right (c ∷ s) t h = ground (arith, has_space-append_right s t)

has_space_cons :
    (c : ℕ) (s : Bytes)
    → has_space (c ∷ s) ≡ false
    → (space_width (c ∷ s) ≡ 0) × (has_space s ≡ false)
unfolding has_space
has_space_cons c s h = ground arith

no_space-width : (s : Bytes) → has_space s ≡ false → space_width s ≡ 0
unfolding space_width
no_space-width [] h = refl
no_space-width (c ∷ s) h = (has_space_cons c s h).0

drop_spaces-zero : (width : Bytes → ℕ) (s : Bytes) → width s ≡ 0 → drop_spaces width 0 s ≡ s
unfolding drop_spaces
drop_spaces-zero width [] h = refl
drop_spaces-zero width (c ∷ s) h = rw (drop_spaces, h)

space_width_back-zero : (r : Bytes) → has_space (reverse r) ≡ false → space_width_back r ≡ 0
unfolding space_width_back
space_width_back-zero [] h = refl
space_width_back-zero (a ∷ []) h = (has_space_cons a [] h).0
space_width_back-zero (b ∷ a ∷ []) h =
    let (wide, h') = has_space_cons a (b ∷ []) h in ground (arith, has_space_cons b [] h')
space_width_back-zero (c ∷ b ∷ a ∷ r) h =
    let tail = has_space-append_right (reverse r) (a ∷ b ∷ c ∷ []) (rw (reverse_aux-eq r) at h) in
    let (three, h') = has_space_cons a (b ∷ c ∷ []) tail in
    let (two, h'') = has_space_cons b (c ∷ []) h' in ground (arith, has_space_cons c [] h'')

pub trim_space-no_space : (s : Bytes) → has_space s ≡ false → trim_space s ≡ s
unfolding trim_space
trim_space-no_space s h = rw (drop_spaces-zero space_width s (no_space-width s h)) (
    rw
      (drop_spaces-zero space_width_back (reverse s)
        (space_width_back-zero (reverse s) (rw (reverse-reverse s) h)))
      (reverse-reverse s))

-- No space reaches over an ASCII byte that is not one.
space_width-colon :
    (c : ℕ) (s t : Bytes) → space_width (c ∷ s) ≡ 0 → space_width (c ∷ (s ++ b':' ∷ t)) ≡ 0
unfolding space_width
space_width-colon c [] [] h = ground arith
space_width-colon c [] (d ∷ t) h = ground arith
space_width-colon c (d ∷ []) t h = ground arith
space_width-colon c (d ∷ e ∷ s) t h = h

has_space-cons :
    (c : ℕ) (s : Bytes) → space_width (c ∷ s) ≡ 0 → has_space s ≡ false → has_space (c ∷ s) ≡ false
unfolding has_space
has_space-cons c s h k = rw (has_space, h, k)

colon_width : (t : Bytes) → space_width (b':' ∷ t) ≡ 0
unfolding space_width
colon_width [] = refl
colon_width (b ∷ []) = refl
colon_width (b ∷ c ∷ t) = refl

pub has_space-colon :
    (s t : Bytes) → has_space s ≡ false → has_space t ≡ false → has_space (s ++ b':' ∷ t) ≡ false
has_space-colon [] t hs ht = has_space-cons b':' t (colon_width t) ht
has_space-colon (c ∷ s) t hs ht =
    let (wide, hs') = has_space_cons c s hs in
    has_space-cons c (s ++ b':' ∷ t) (space_width-colon c s t wide) (has_space-colon s t hs' ht)

space_width-colon_back :
    (c : ℕ) (s t : Bytes) → space_width (c ∷ (s ++ b':' ∷ t)) ≡ 0 → space_width (c ∷ s) ≡ 0
unfolding space_width
space_width-colon_back c [] [] h = ground arith
space_width-colon_back c [] (d ∷ t) h = ground arith
space_width-colon_back c (d ∷ []) t h = ground arith
space_width-colon_back c (d ∷ e ∷ s) t h = h

pub has_space-colon_back :
    (s t : Bytes)
    → has_space (s ++ b':' ∷ t) ≡ false
    → (has_space s ≡ false) × (has_space t ≡ false)
unfolding has_space
has_space-colon_back [] t h = (refl, (has_space_cons b':' t h).1)
has_space-colon_back (c ∷ s) t h =
    let (wide, h') = has_space_cons c (s ++ b':' ∷ t) h in
    let (hs, ht) = has_space-colon_back s t h' in
    (has_space-cons c s (space_width-colon_back c s t wide) hs, ht)

lower_high : (c : ℕ) → leb 128 c ≡ true → lower c ≡ c
lower_high c h = ground arith

lower_low : (c : ℕ) → leb 128 c ≡ false → leb 128 (lower c) ≡ false
lower_low c h = ground arith

-- The third byte counts only from 128 on, the second only where the first does.
third_low :
    (a b c d : ℕ) (s : Bytes)
    → leb 128 c ≡ false
    → leb 128 d ≡ false
    → space_width (a ∷ b ∷ c ∷ s) ≡ space_width (a ∷ b ∷ d ∷ s)
unfolding space_width
third_low a b c d s hc hd = ground arith

second_low :
    (a b d c e : ℕ) (s : Bytes)
    → leb 128 b ≡ false
    → leb 128 d ≡ false
    → space_width (a ∷ b ∷ c ∷ s) ≡ space_width (a ∷ d ∷ e ∷ s)
unfolding space_width
second_low a b d c e s hb hd = ground arith

first_low :
    (a b c : ℕ) (s : Bytes) → leb 128 a ≡ false → space_width (a ∷ b ∷ c ∷ s) ≡ space_width (a ∷ [])
unfolding space_width
first_low a b c s h = ground arith

lower_single : (a : ℕ) → space_width (a ∷ []) ≡ 0 → space_width (lower a ∷ []) ≡ 0
unfolding space_width
lower_single a h = ground arith

lower_three :
    (a b c : ℕ) (s : Bytes)
    → space_width (a ∷ b ∷ c ∷ s) ≡ 0
    → space_width (lower a ∷ lower b ∷ lower c ∷ s) ≡ 0
lower_three a b c s h = elim (Bool-cases (leb 128 a)) [
  | inr low ↦
      first_low (lower a) (lower b) (lower c) s (lower_low a low)
      ∙ lower_single a (sym (first_low a b c s low) ∙ h)
  | inl high ↦ rw (lower_high a high) (elim (Bool-cases (leb 128 b)) [
    | inr low ↦ second_low a (lower b) b (lower c) c s (lower_low b low) low ∙ h
    | inl high' ↦ rw (lower_high b high') (elim (Bool-cases (leb 128 c)) [
      | inr low ↦ third_low a b (lower c) c s (lower_low c low) low ∙ h
      | inl high'' ↦ rw (lower_high c high'') h
    ])
  ])
]

space_width-third :
    (a b c : ℕ) (s t : Bytes) → space_width (a ∷ b ∷ c ∷ s) ≡ space_width (a ∷ b ∷ c ∷ t)
unfolding space_width
space_width-third a b c s t = refl

space_width-to_lower : (s : Bytes) → space_width s ≡ 0 → space_width (to_lower s) ≡ 0
unfolding space_width
space_width-to_lower [] h = refl
space_width-to_lower (a ∷ []) h = lower_single a h
space_width-to_lower (a ∷ b ∷ []) h = ground arith
space_width-to_lower (a ∷ b ∷ c ∷ s) h =
    space_width-third (lower a) (lower b) (lower c) (to_lower s) s ∙ lower_three a b c s h

pub has_space-to_lower : (s : Bytes) → has_space s ≡ false → has_space (to_lower s) ≡ false
has_space-to_lower [] h = h
has_space-to_lower (c ∷ s) h =
    let (wide, h') = has_space_cons c s h in
    has_space-cons _ (to_lower s) (space_width-to_lower (c ∷ s) wide) (has_space-to_lower s h')
