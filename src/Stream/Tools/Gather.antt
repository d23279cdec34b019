-- ===== src/Stream/Tools/Gather.antt =====
-- What the accumulator holds behind a sequence of fragments.
use ollame.Prelude.{
  ℕ, ◌≡◌, refl, ap, ◌∙◌, arith, Bool, true, false, Option, none, some, List, [], ◌∷◌, ◌==◌,
  if◌then◌else◌, ℤ, pos, negsuc,
}
use ollame.Stream.{Failure}
use ollame.Stream.Tools.{
  ToolFragment, ToolParts, ToolAccumulator, Calls, no_parts, find, store, extend, fail, write,
  add_call, add_at, add_unless, add,
}

abbrev pub and_then :
    ToolAccumulator × Option Failure
    → ToolAccumulator × Option Failure
    → ToolAccumulator × Option Failure
and_then more (a, none) = more
and_then more (a, some e) = (a, some e)

-- The loop over the fragments, which ends at an error.
abbrev pub add_all : ToolAccumulator → List ToolFragment → ToolAccumulator × Option Failure
add_all a [] = (a, none)
add_all a (f ∷ fragments) = and_then (add_all (add a f).0 fragments) (add a f)

abbrev pub so_far : Option ToolParts → ToolParts
so_far none = no_parts
so_far (some parts) = parts

abbrev pub has_index : ℕ → ℤ → Bool
has_index i (pos j) = j == i
has_index i (negsuc n) = false

-- All that the fragments say of an index, in their order.
abbrev pub seen : ℕ → List ToolFragment → Option ToolParts → Option ToolParts
seen i [] prior = prior
seen i (f ∷ fragments) prior =
    seen i fragments (if has_index i f.index then some (extend (so_far prior) f) else prior)

find-store :
    (i j : ℕ) (parts : ToolParts) (calls : Calls)
    → find j (store i parts calls) ≡ (if i == j then some parts else find j calls)
unfolding find store
find-store i j parts [] = refl
find-store i j parts ((k, old) ∷ calls) = ground (arith, find-store i j parts calls)

write-find :
    (a : ToolAccumulator) (f : ToolFragment) (i j : ℕ) (parts : ToolParts)
    → (write a f i parts).1 ≡ none
    → find j (write a f i parts).0.calls
      ≡ (if i == j then some (extend parts f) else find j a.calls)
unfolding write fail
write-find a f i j parts h = ground (arith, find-store i j (extend parts f) a.calls)

add_call-find :
    (a : ToolAccumulator) (f : ToolFragment) (i j : ℕ) (o : Option ToolParts)
    → find i a.calls ≡ o
    → (add_call a f i o).1 ≡ none
    → find j (add_call a f i o).0.calls
      ≡ (if i == j then some (extend (so_far (find j a.calls)) f) else find j a.calls)
unfolding add_call fail
add_call-find a f i j none k h = ground (arith, write-find a f i j no_parts)
add_call-find a f i j (some parts) k h = ground (arith, write-find a f i j parts)

-- Where no error comes an accumulator takes exactly the fragment in.
pub add-find :
    (a : ToolAccumulator) (f : ToolFragment) (j : ℕ)
    → (add a f).1 ≡ none
    → find j (add a f).0.calls
      ≡ (if has_index j f.index then some (extend (so_far (find j a.calls)) f) else find j a.calls)
unfolding add add_at fail add_unless
add-find a f j = unless a.terminal a.finished
  where
    at :
        (n : ℤ)
        → (add_at a f n).1 ≡ none
        → find j (add_at a f n).0.calls
          ≡ (if has_index j n then some (extend (so_far (find j a.calls)) f) else find j a.calls)
    at (negsuc n) h = absurd (ground arith)
    at (pos i) h = add_call-find a f i j (find i a.calls) refl h

    unless :
        (t : Option Failure) (d : Bool)
        → (add_unless a f t d).1 ≡ none
        → find j (add_unless a f t d).0.calls ≡ (
            if has_index j f.index
            then some (extend (so_far (find j a.calls)) f)
            else find j a.calls)
    unless (some e) d h = absurd (ground arith)
    unless none true h = absurd (ground arith)
    unless none false h = at f.index h

pub and_then_ok :
    (more o : ToolAccumulator × Option Failure)
    → (and_then more o).1 ≡ none
    → (o.1 ≡ none) × (and_then more o ≡ more)
and_then_ok more (a, none) h = (refl, refl)
and_then_ok more (a, some e) h = absurd (ground arith)

-- Behind fragments that bring no error the accumulator holds under every index the ids, names and
-- arguments of the fragments with that index, joined in their order, and nothing under others.
pub add_all-seen :
    (fragments : List ToolFragment) (a : ToolAccumulator) (j : ℕ)
    → (add_all a fragments).1 ≡ none
    → find j (add_all a fragments).0.calls ≡ seen j fragments (find j a.calls)
add_all-seen [] a j h = refl
add_all-seen (f ∷ fragments) a j h =
    let (e, same) = and_then_ok (add_all (add a f).0 fragments) (add a f) h in
    rw same (
      add_all-seen fragments (add a f).0 j (rw same at h)
      ∙ ap (seen j fragments) (add-find a f j e))
