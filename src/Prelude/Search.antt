-- ===== src/Prelude/Search.antt =====
-- Laws of searching in a text to which more is appended.
use Prim.Native.Nat.{ℕ, zero, suc, ◌+◌, ◌≤◌}
use mathlib.Core.Path.{◌≡◌, refl, ap, ◌∙◌}
use mathlib.Core.Bool.{true, false}
use mathlib.Core.List.{[], ◌∷◌, ◌++◌}
use mathlib.Core.Option
use mathlib.Core.Option.{Option, none, some}
use mathlib.Core.Logic.{◌⊎◌, inl, inr}
use native.Mathlib.Omega.{arith}
use ollame.Prelude.Tests.{Bool-cases, Option-cases}
use ollame.Prelude.Lists.{length, take, drop}
use ollame.Prelude.Texts.{Bytes, starts_with, index, count, cut}

pub starts_with-length : (p s : Bytes) → starts_with p s ≡ true → length p ≤ length s
unfolding starts_with
starts_with-length [] s h = omega arith
starts_with-length (x ∷ p) [] h = cc
starts_with-length (x ∷ p) (y ∷ s) h = ground (arith, starts_with-length p s)

pub starts_with-append : (p s t : Bytes) → starts_with p s ≡ true → starts_with p (s ++ t) ≡ true
unfolding starts_with
starts_with-append [] s t h = refl
starts_with-append (x ∷ p) [] t h = cc
starts_with-append (x ∷ p) (y ∷ s) t h = ground (arith, starts_with-append p s t)

-- A prefix that is no longer than the first part is a prefix of it.
pub starts_with-append_short :
    (p s t : Bytes) → length p ≤ length s → starts_with p (s ++ t) ≡ starts_with p s
unfolding starts_with
starts_with-append_short [] s t h = refl
starts_with-append_short (x ∷ p) [] t h = absurd (omega arith)
starts_with-append_short (x ∷ p) (y ∷ s) t h = ground (arith, starts_with-append_short p s t)

-- A prefix that is longer begins with the first part.
pub starts_with-append_long :
    (p s t : Bytes) → starts_with p (s ++ t) ≡ true → length s ≤ length p → starts_with s p ≡ true
unfolding starts_with
starts_with-append_long p [] t h l = refl
starts_with-append_long [] (y ∷ s) t h l = absurd (omega arith)
starts_with-append_long (x ∷ p) (y ∷ s) t h l = ground (arith, starts_with-append_long p s t)

pub drop-append : (n : ℕ) (s t : Bytes) → n ≤ length s → drop n (s ++ t) ≡ drop n s ++ t
drop-append zero s t h = refl
drop-append (suc n) [] t h = absurd (omega arith)
drop-append (suc n) (x ∷ s) t h = drop-append n s t (omega arith)

cut_map :
    (p : Bytes) (c : ℕ) (s : Bytes) (o : Option ℕ)
    → Option.map
        (λ (u, v). (c ∷ u, v))
        (Option.map {B = Bytes × Bytes} (λ at. (take at s, drop (at + length p) s)) o)
      ≡ Option.map {B = Bytes × Bytes}
          (λ at. (take at (c ∷ s), drop (at + length p) (c ∷ s)))
          (Option.map suc o)
cut_map p c s none = refl
cut_map p c s (some at) = let e : suc at + length p ≡ suc (at + length p) = omega arith in rw e

-- `Cut` slices at `Index`.
pub cut-index :
    (p s : Bytes) → cut p s ≡ Option.map (λ at. (take at s, drop (at + length p) s)) (index p s)
unfolding cut index starts_with
cut-index [] [] = refl
cut-index (x ∷ p) [] = refl
cut-index p (c ∷ s) = elim (Bool-cases (starts_with p (c ∷ s))) [
  | inl e ↦ let z : 0 + length p ≡ length p = omega arith in rw e (rw z)
  | inr e ↦ rw e (rw (cut-index p s) (cut_map p c s (index p s)))
]

-- How a successful cut of a longer text arises.
pub cut_cons :
    (p : Bytes) (c : ℕ) (s u v : Bytes)
    → cut p (c ∷ s) ≡ some (u, v)
    → ((starts_with p (c ∷ s) ≡ true) × (u ≡ []) × (v ≡ drop (length p) (c ∷ s)))
      ⊎ ((w : Bytes) × (starts_with p (c ∷ s) ≡ false) × (u ≡ c ∷ w) × (cut p s ≡ some (w, v)))
unfolding cut
cut_cons p c s u v h = elim (Bool-cases (starts_with p (c ∷ s))) [
  | inl e ↦ inl (e, ground arith, ground arith)
  | inr e ↦ elim (Option-cases (cut p s)) [
    | inl n ↦ absurd (ground arith)
    | inr ((w, v'), n) ↦ inr (w, e, ground arith, ground arith)
  ]
]

pub cut-length : (p s u v : Bytes) → cut p s ≡ some (u, v) → length p ≤ length s
unfolding cut
cut-length [] [] u v h = omega arith
cut-length (x ∷ p) [] u v h = ground arith
cut-length p (c ∷ s) u v h = elim (cut_cons p c s u v h) [
  | inl (e, _, _) ↦ starts_with-length p (c ∷ s) e
  | inr (w, _, _, e) ↦ omega (arith, cut-length p s w v e)
]

-- What is found stays found when more text comes.
pub cut-append : (p s t u v : Bytes) → cut p s ≡ some (u, v) → cut p (s ++ t) ≡ some (u, v ++ t)
unfolding cut
cut-append [] [] [] u v h = ground arith
cut-append [] [] (d ∷ t) u v h = ground arith
cut-append (x ∷ p) [] t u v h = absurd (ground arith)
cut-append p (c ∷ s) t u v h = elim (cut_cons p c s u v h) [
  | inl (e, hu, hv) ↦
      rw (starts_with-append p (c ∷ s) t e)
        (rw (drop-append (length p) (c ∷ s) t (starts_with-length p (c ∷ s) e)) (ground arith))
  | inr (w, e, hu, hc) ↦
      let short : length p ≤ length (c ∷ s) = omega (arith, cut-length p s w v hc) in
      rw (starts_with-append_short p (c ∷ s) t short ∙ e)
        (rw (cut-append p s t w v hc) (ground arith))
]

pub starts_with-splits : (p s : Bytes) → starts_with p s ≡ true → s ≡ p ++ drop (length p) s
unfolding starts_with
starts_with-splits [] s h = refl
starts_with-splits (x ∷ p) [] h = absurd cc
starts_with-splits (x ∷ p) (y ∷ s) h = ground (arith, starts_with-splits p s)

-- The parts that `Cut` returns, with the separator between them, are the text.
pub cut-splits : (p s u v : Bytes) → cut p s ≡ some (u, v) → s ≡ u ++ (p ++ v)
unfolding cut starts_with
cut-splits [] [] u v h = ground arith
cut-splits (x ∷ p) [] u v h = absurd (ground arith)
cut-splits p (c ∷ s) u v h = elim (cut_cons p c s u v h) [
  | inl (e, hu, hv) ↦ rw (hu, hv) (starts_with-splits p (c ∷ s) e)
  | inr (w, _, hu, e) ↦ rw hu (ap (◌∷◌ c) (cut-splits p s w v e))
]

-- `Cut` at a byte leaves none of it in the first part.
pub cut-count : (c : ℕ) (s u v : Bytes) → cut (c ∷ []) s ≡ some (u, v) → count c u ≡ 0
unfolding cut starts_with
cut-count c [] u v h = absurd (ground arith)
cut-count c (x ∷ s) u v h = elim (cut_cons (c ∷ []) x s u v h) [
  | inl (_, none_before, _) ↦ rw none_before refl
  | inr (w, other, first, e) ↦ rw first (ground (arith, cut-count c s w v e))
]

-- `Cut` at a byte that the first part does not have.
pub cut_byte : (c : ℕ) (u v : Bytes) → count c u ≡ 0 → cut (c ∷ []) (u ++ c ∷ v) ≡ some (u, v)
unfolding cut starts_with
cut_byte c [] v h = ground arith
cut_byte c (x ∷ u) v h = ground (arith, cut_byte c u v)
