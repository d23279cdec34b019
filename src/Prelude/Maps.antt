-- ===== src/Prelude/Maps.antt =====
-- Go's maps with string keys, as association lists. Their order stands for the order of iteration.
use Prim.Native.Nat.{◌+◌, ◌≤◌}
use mathlib.Core.Path.{◌≡◌, refl}
use mathlib.Core.Logic.{inl, inr}
use mathlib.Core.Bool.{Bool, false, ◌||◌}
use mathlib.Core.List.{List, [], ◌∷◌}
use mathlib.Core.Option.{Option, none, some}
use native.Mathlib.Omega.{arith}
use ollame.Prelude.Tests.{if◌then◌else◌, Bool-cases}
use ollame.Prelude.Lists.{length}
use ollame.Prelude.Texts.{Bytes, bytes_eq, bytes_eq_iff}

abbrev pub Dict : Type 0 → Type 0
Dict V = List (Bytes × V)

-- `slices.Contains`, and a `map[string]bool` that is only set to true
unfoldable pub contains : List Bytes → Bytes → Bool
contains [] k = false
contains (x ∷ xs) k = bytes_eq x k || contains xs k

-- No text stands twice.
abbrev pub Apart : List Bytes → Type 0
Apart [] = Unit {0}
Apart (x ∷ xs) = (contains xs x ≡ false) × Apart xs

module _ {V : Type 0} where
  unfoldable pub lookup : Bytes → Dict V → Option V
  lookup k [] = none
  lookup k ((j, v) ∷ m) = if bytes_eq j k then some v else lookup k m

  unfoldable pub insert : Bytes → V → Dict V → Dict V
  insert k v [] = (k, v) ∷ []
  insert k v ((j, w) ∷ m) = if bytes_eq j k then (k, v) ∷ m else (j, w) ∷ insert k v m

  unfoldable pub delete : Bytes → Dict V → Dict V
  delete k [] = []
  delete k ((j, w) ∷ m) = if bytes_eq j k then delete k m else (j, w) ∷ delete k m

  pub lookup-insert :
      (k j : Bytes) (v : V) (m : Dict V)
      → lookup j (insert k v m) ≡ (if bytes_eq k j then some v else lookup j m)
  unfolding lookup insert
  lookup-insert k j v [] = refl
  lookup-insert k j v ((i, w) ∷ m) =
      ground (arith, bytes_eq_iff k j, bytes_eq_iff i k, bytes_eq_iff i j, lookup-insert k j v m)

  pub lookup-delete :
      (k j : Bytes) (m : Dict V)
      → lookup j (delete k m) ≡ (if bytes_eq k j then none else lookup j m)
  unfolding lookup delete
  lookup-delete k j [] = ground arith
  lookup-delete k j ((i, w) ∷ m) =
      ground (arith, bytes_eq_iff k j, bytes_eq_iff i k, bytes_eq_iff i j, lookup-delete k j m)

  pub length-insert : (k : Bytes) (v : V) (m : Dict V) → length (insert k v m) ≤ length m + 1
  unfolding insert
  length-insert k v [] = omega arith
  length-insert k v ((j, w) ∷ m) = ground (arith, length-insert k v m)

-- Every entry has the property, with its key.
module _ {V : Type 0} (P : Bytes → V → Type 0) where
  abbrev pub AllEntries : Dict V → Type 0
  AllEntries [] = Unit {0}
  AllEntries ((k, v) ∷ m) = P k v × AllEntries m

  pub insert-AllEntries :
      (k : Bytes) (v : V) (m : Dict V) → P k v → AllEntries m → AllEntries (insert k v m)
  unfolding insert
  insert-AllEntries k v [] p a = (p, tt)
  insert-AllEntries k v ((j, w) ∷ m) p a = elim (Bool-cases (bytes_eq j k)) [
    | inl e ↦ rw e (p, a.1)
    | inr e ↦ rw e (a.0, insert-AllEntries k v m p a.1)
  ]

  pub lookup-AllEntries :
      (k : Bytes) (v : V) (m : Dict V) → AllEntries m → lookup k m ≡ some v → P k v
  unfolding lookup
  lookup-AllEntries k v [] a h = absurd cc
  lookup-AllEntries k v ((j, w) ∷ m) a h = elim (Bool-cases (bytes_eq j k)) [
    | inl e ↦
        let same : j ≡ k = (bytes_eq_iff j k).0 e in
        let found : ◌≡◌ {A = Option V} (some w) (some v) = rw e at h in
        let w_eq : w ≡ v = cc in rw (← same, ← w_eq) a.0
    | inr e ↦ lookup-AllEntries k v m a.1 (rw e at h)
  ]

pub AllEntries-map :
    {V : Type 0} {P Q : Bytes → V → Type 0} (m : Dict V)
    → ((k : Bytes) (v : V) → P k v → Q k v)
    → AllEntries P m
    → AllEntries Q m
AllEntries-map [] f a = tt
AllEntries-map ((k, v) ∷ m) f a = (f k v a.0, AllEntries-map m f a.1)
