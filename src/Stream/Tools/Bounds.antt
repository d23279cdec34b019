-- ===== src/Stream/Tools/Bounds.antt =====
-- What the accumulator stores at most, and how it fails.
use ollame.Prelude.{
  ℕ, ◌+◌, ◌≤◌, ◌≡◌, inl, inr, refl, arith, Bool, true, false, ◌||◌, Option, none, some, List, [],
  ◌∷◌, All, length, length-append, ◌==◌, leb, ℤ, pos, negsuc, Bool-cases,
}
use ollame.Prelude.Sorting.{member, Distinct}
use ollame.Stream.{Failure, limit}
use ollame.Stream.Tools.{
  ToolFragment, ToolParts, ToolAccumulator, Calls, no_parts, find, store, extend, exceeds, fail,
  write, add_call, add_at, add_unless, add, indexes_of,
}
use ollame.Stream.Tools.Gather.{add_all, and_then}

abbrev pub Fits : ℕ → ToolParts → Type 0
Fits max parts =
    (length parts.id ≤ max) × (length parts.name ≤ max) × (length parts.arguments ≤ max)

-- No index stands twice, there are not too many, and no field is too long.
pub record IsValid (a : ToolAccumulator) : Type 0 where
  pub distinct : Distinct (indexes_of a.calls)
  pub few : length a.calls ≤ a.max_calls
  pub short : All (λ (i, parts). Fits a.max_bytes parts) a.calls

member-store :
    (k i : ℕ) (parts : ToolParts) (calls : Calls)
    → member k (indexes_of (store i parts calls)) ≡ (k == i || member k (indexes_of calls))
unfolding store
member-store k i parts [] = ground arith
member-store k i parts ((j, old) ∷ calls) = ground (arith, member-store k i parts calls)

store-Distinct :
    (i : ℕ) (parts : ToolParts) (calls : Calls)
    → Distinct (indexes_of calls)
    → Distinct (indexes_of (store i parts calls))
unfolding store
store-Distinct i parts [] d = (refl, tt)
store-Distinct i parts ((j, old) ∷ calls) d =
    ground (arith, member-store j i parts calls, store-Distinct i parts calls d.1)

length-store :
    (i : ℕ) (parts : ToolParts) (calls : Calls)
    → length (store i parts calls)
      ≡ (elim (find i calls) [ none ↦ length calls + 1 | some _ ↦ length calls ])
unfolding store find
length-store i parts [] = refl
length-store i parts ((j, old) ∷ calls) = ground (arith, length-store i parts calls)

store-All :
    (max i : ℕ) (parts : ToolParts) (calls : Calls)
    → Fits max parts
    → All (λ (i, parts). Fits max parts) calls
    → All (λ (i, parts). Fits max parts) (store i parts calls)
unfolding store
store-All max i parts [] f h = (f, tt)
store-All max i parts ((j, old) ∷ calls) f h = ground (arith, store-All max i parts calls f h.1)

extend-Fits :
    (a : ToolAccumulator) (parts : ToolParts) (f : ToolFragment)
    → exceeds a parts f ≡ false
    → Fits a.max_bytes (extend parts f)
extend-Fits a parts f h = ground (
  arith,
  length-append parts.id f.id,
  length-append parts.name f.name,
  length-append parts.arguments f.arguments,
)

fail-IsValid : (e : Failure) (a : ToolAccumulator) → IsValid (fail e a).0
unfolding fail
fail-IsValid e a = record { distinct = tt; few = omega arith; short = tt }

write-IsValid :
    (a : ToolAccumulator) (f : ToolFragment) (i : ℕ) (parts : ToolParts)
    → IsValid a
    → length (store i (extend parts f) a.calls) ≤ a.max_calls
    → IsValid (write a f i parts).0
unfolding write
write-IsValid a f i parts v room = elim (Bool-cases (exceeds a parts f)) [
  | inl h ↦ rw h (fail-IsValid limit (record a { calls = store i parts a.calls }))
  | inr h ↦ rw h (record {
    distinct = store-Distinct i (extend parts f) a.calls v.distinct;
    few = room;
    short = store-All a.max_bytes i (extend parts f) a.calls (extend-Fits a parts f h) v.short;
  })
]

add_call-IsValid :
    (a : ToolAccumulator) (f : ToolFragment) (i : ℕ) (o : Option ToolParts)
    → find i a.calls ≡ o
    → IsValid a
    → IsValid (add_call a f i o).0
unfolding add_call
add_call-IsValid a f i none k v = elim (Bool-cases (leb a.max_calls (length a.calls))) [
  | inl h ↦ rw h (fail-IsValid limit a)
  | inr h ↦
      rw h (
        write-IsValid a f i no_parts v (ground (arith, length-store i (extend no_parts f) a.calls)))
]
add_call-IsValid a f i (some parts) k v =
    write-IsValid a f i parts v (ground (arith, v.few, length-store i (extend parts f) a.calls))

-- Adding a fragment, also one that brings an error, leaves the accumulator within its bounds.
pub add-IsValid : (a : ToolAccumulator) (f : ToolFragment) → IsValid a → IsValid (add a f).0
unfolding add add_at fail add_unless
add-IsValid a f v = unless a.terminal a.finished
  where
    at : (n : ℤ) → IsValid (add_at a f n).0
    at (negsuc n) = fail-IsValid _ a
    at (pos i) = add_call-IsValid a f i (find i a.calls) refl v

    unless : (t : Option Failure) (d : Bool) → IsValid (add_unless a f t d).0
    unless (some e) d = v
    unless none true = v
    unless none false = at f.index

-- Behind any fragments, with an error or without, the accumulator is within its bounds.
pub add_all-IsValid :
    (fragments : List ToolFragment) (a : ToolAccumulator)
    → IsValid a
    → IsValid (add_all a fragments).0
add_all-IsValid [] a v = v
add_all-IsValid (f ∷ fragments) a v =
    joined (add a f) (add-IsValid a f v) (add_all-IsValid fragments (add a f).0 (add-IsValid a f v))
  where
    joined :
        (o : ToolAccumulator × Option Failure)
        → IsValid o.0
        → IsValid (add_all (add a f).0 fragments).0
        → IsValid (and_then (add_all (add a f).0 fragments) o).0
    joined (b, none) w m = m
    joined (b, some e) w m = w
