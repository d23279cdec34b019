-- ===== src/Prelude/Sorting.antt =====
-- `sort.Ints` on numbers.
use Prim.Native.Nat.{ℕ, ◌<◌}
use mathlib.Core.Path.{◌≡◌, ◌∙◌}
use mathlib.Core.Bool.{Bool, false, ◌||◌}
use mathlib.Core.List.{List, [], ◌∷◌}
use native.Mathlib.Omega.{arith}
use ollame.Prelude.Tests.{ltb, ◌==◌, if◌then◌else◌}
use ollame.Prelude.Lists.{All}

insert_sorted : ℕ → List ℕ → List ℕ
insert_sorted n [] = n ∷ []
insert_sorted n (m ∷ ms) = let rest = insert_sorted n ms in if ltb n m then n ∷ m ∷ ms else m ∷ rest

unfoldable pub sort_ints : List ℕ → List ℕ
unfolding insert_sorted
sort_ints [] = []
sort_ints (n ∷ ns) = insert_sorted n (sort_ints ns)

abbrev pub member : ℕ → List ℕ → Bool
member n [] = false
member n (m ∷ ms) = n == m || member n ms

-- No number stands twice.
abbrev pub Distinct : List ℕ → Type 0
Distinct [] = Unit {0}
Distinct (n ∷ ns) = (member n ns ≡ false) × Distinct ns

-- Every number is less than those behind it.
abbrev pub Ascending : List ℕ → Type 0
Ascending [] = Unit {0}
Ascending (n ∷ ns) = All (λ m. n < m) ns × Ascending ns

member-insert_sorted :
    (k n : ℕ) (ns : List ℕ) → member k (insert_sorted n ns) ≡ (k == n || member k ns)
unfolding insert_sorted
member-insert_sorted k n [] = ground arith
member-insert_sorted k n (m ∷ ms) = ground (arith, member-insert_sorted k n ms)

pub member-sort_ints : (k : ℕ) (ns : List ℕ) → member k (sort_ints ns) ≡ member k ns
unfolding sort_ints
member-sort_ints k [] = ground arith
member-sort_ints k (n ∷ ns) =
    ground (arith, member-insert_sorted k n (sort_ints ns), member-sort_ints k ns)

All-less : (n m : ℕ) (ns : List ℕ) → n < m → All (λ k. m < k) ns → All (λ k. n < k) ns
All-less n m [] h a = tt
All-less n m (k ∷ ns) h a = (omega (arith, a.0), All-less n m ns h a.1)

All-insert_sorted :
    (n m : ℕ) (ns : List ℕ) → m < n → All (λ k. m < k) ns → All (λ k. m < k) (insert_sorted n ns)
unfolding insert_sorted
All-insert_sorted n m [] h a = (h, tt)
All-insert_sorted n m (k ∷ ns) h a = ground (arith, All-insert_sorted n m ns h a.1)

insert_sorted-Ascending :
    (n : ℕ) (ns : List ℕ) → member n ns ≡ false → Ascending ns → Ascending (insert_sorted n ns)
unfolding insert_sorted
insert_sorted-Ascending n [] h a = (tt, tt)
insert_sorted-Ascending n (m ∷ ns) h a =
    ground (arith, insert_sorted-Ascending n ns, All-less n m ns, All-insert_sorted n m ns)

pub sort_ints-Ascending : (ns : List ℕ) → Distinct ns → Ascending (sort_ints ns)
unfolding sort_ints
sort_ints-Ascending [] d = tt
sort_ints-Ascending (n ∷ ns) d =
    insert_sorted-Ascending n (sort_ints ns) (member-sort_ints n ns ∙ d.0)
      (sort_ints-Ascending ns d.1)
