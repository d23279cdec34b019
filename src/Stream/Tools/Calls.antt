-- ===== src/Stream/Tools/Calls.antt =====
-- The calls that `Finish` returns, and the errors that stay.
use ollame.Prelude.{
  ℕ, ◌≤◌, ◌≡◌, ◌≢◌, ◌↔◌, ◌⊎◌, inl, inr, refl, sym, ap, ap₂, ◌∙◌, arith, Bool, true, false, Option,
  none, some, List, [], ◌∷◌, map, All, Bytes, length, ◌==◌, ltb, if◌then◌else◌, ℤ, pos, negsuc,
  Bool-cases, Result, ok, err, ok_injective, bind_ok,
}
use ollame.Prelude.Sorting.{member, Ascending, sort_ints, member-sort_ints, sort_ints-Ascending}
use ollame.Stream.{Failure, malformed}
use ollame.Stream.Tools.{
  no_parts, ToolFragment, ToolParts, ToolCall, ToolAccumulator, Calls, new_tool_accumulator, find,
  fail, write, add_call, add_at, add_unless, add, finish, finish_unless, finish_calls, finish_call,
  arguments_of, parts_of, close, indexes_of,
}
use ollame.Stream.Tools.Gather.{add_all, seen, add_all-seen}
use ollame.Stream.Tools.Bounds.{IsValid, add_all-IsValid}

-- A call with all of its parts; the arguments are checked and within the bound.
pub record Complete (policy : Bytes) (max : ℕ) (parts_at : ℕ → Option ToolParts) (c : ToolCall)
    : Type 0 where
  pub parts : ToolParts
  pub present : parts_at c.index ≡ some parts
  pub id : c.id ≡ parts.id
  pub name : c.name ≡ parts.name
  pub wrapped : Bool
  pub arguments : arguments_of policy parts.arguments ≡ ok (c.arguments, wrapped)
  pub short : length c.arguments ≤ max

abbrev pub call_indexes : List ToolCall → List ℕ
call_indexes calls = map (λ c. c.index) calls

find-member :
    (i : ℕ) (calls : Calls)
    → (member i (indexes_of calls) ≡ true) ↔ ((parts : ToolParts) × (find i calls ≡ some parts))
unfolding find
find-member i [] = (λ h. absurd cc, λ (parts, h). absurd cc)
find-member i ((j, p) ∷ calls) = elim (Bool-cases (j == i)) [
  | inl h ↦ (λ m. (p, rw h refl), λ k. ground arith)
  | inr h ↦
      rw h (
        λ m. (find-member i calls).0 (ground arith),
        λ k. ground (arith, (find-member i calls).1 k),
      )
]

finish_call-Complete :
    (a : ToolAccumulator) (i : ℕ) (parts : ToolParts) (c : ToolCall) (w : Bool)
    → find i a.calls ≡ some parts
    → finish_call a i parts ≡ ok (c, w)
    → (c.index ≡ i) × Complete a.policy a.max_bytes (λ j. find j a.calls) c
unfolding finish_call
finish_call-Complete a i parts c w k h =
    let ((arguments, wrapped), e, later) = bind_ok (arguments_of a.policy parts.arguments) _ h in
    elim (Bool-cases (ltb a.max_bytes (length arguments))) [
      | inl t ↦ absurd (ground arith)
      | inr t ↦
          let same = ok_injective (rw t at later) in
          let same_call : record {
            id = parts.id;
            index = i;
            name = parts.name;
            arguments = arguments;
          }
              ≡ c =
            ap (λ x. x.0) same in
          rw (← same_call) (
            refl,
            record {
              parts = parts;
              present = k;
              id = refl;
              name = refl;
              wrapped = wrapped;
              arguments = e;
              short = ground arith;
            },
          )
    ]

finish_calls-Complete :
    (a : ToolAccumulator) (indexes : List ℕ) (calls : List ToolCall) (n : ℕ)
    → ((i : ℕ) → member i indexes ≡ true → member i (indexes_of a.calls) ≡ true)
    → finish_calls a indexes ≡ ok (calls, n)
    → (call_indexes calls ≡ indexes)
      × All (λ c. Complete a.policy a.max_bytes (λ j. find j a.calls) c) calls
unfolding finish_calls
finish_calls-Complete a [] calls n k h =
    let same : [] ≡ calls = ap (λ x. x.0) (ok_injective h) in rw (← same) (refl, tt)
finish_calls-Complete a (i ∷ indexes) calls n k h =
    let (parts, p) = (find-member i a.calls).0 (k i (ground arith)) in
    let ((c, w), e, later) = bind_ok (finish_call a i (parts_of (find i a.calls))) _ h in
    let ((rest, count), e', last) = bind_ok (finish_calls a indexes) _ later in
    let same : c ∷ rest ≡ calls = ap (λ x. x.0) (ok_injective last) in
    let (at, complete) = finish_call-Complete a i parts c w p (rw p at e) in
    let (all, completes) =
      finish_calls-Complete a indexes rest count (λ j m. k j (ground arith)) e' in
    rw (← same) (rw (at, all) refl, (complete, completes))

close-ok :
    (a : ToolAccumulator) (r : Result Failure (List ToolCall × ℕ)) (x : List ToolCall × ℕ)
    → (close a r).1 ≡ ok x
    → r ≡ ok x
unfolding close
close-ok a (ok y) x h = h
close-ok a (err e) x h = absurd cc

finish-ok :
    (a : ToolAccumulator) (x : List ToolCall × ℕ)
    → (finish a).1 ≡ ok x
    → finish_calls a (sort_ints (indexes_of a.calls)) ≡ ok x
unfolding finish finish_unless
finish-ok a x h = unless a.terminal a.finished h
  where
    unless :
        (t : Option Failure) (d : Bool)
        → (finish_unless a t d).1 ≡ ok x
        → finish_calls a (sort_ints (indexes_of a.calls)) ≡ ok x
    unless (some e) d h = absurd cc
    unless none true h = absurd cc
    unless none false h = close-ok (record a { finished = true }) _ x h

pub finish-Complete :
    (a : ToolAccumulator) (calls : List ToolCall) (n : ℕ)
    → IsValid a
    → (finish a).1 ≡ ok (calls, n)
    → Ascending (call_indexes calls)
      × ((i : ℕ) → member i (call_indexes calls) ≡ member i (indexes_of a.calls))
      × All (λ c. Complete a.policy a.max_bytes (λ j. find j a.calls) c) calls
finish-Complete a calls n v h =
    let keys = indexes_of a.calls in
    let (same, complete) =
      finish_calls-Complete a (sort_ints keys) calls n (λ i m. sym (member-sort_ints i keys) ∙ m)
        (finish-ok a (calls, n) h) in
    (
      rw same (sort_ints-Ascending keys v.distinct),
      λ i. rw same (member-sort_ints i keys),
      complete,
    )

if-ok :
    {E A : Type 0} (b : Bool) (e : E) (x : A) {a : A} → (if b then err e else ok x) ≡ ok a → x ≡ a
if-ok true e x h = absurd cc
if-ok false e x h = cc

new-lem :
    (max_calls max_bytes : ℤ) (policy : Bytes) (a : ToolAccumulator)
    → new_tool_accumulator max_calls max_bytes policy ≡ ok a
    → (a.calls ≡ []) × IsValid a
unfolding new_tool_accumulator
new-lem max_calls max_bytes policy a h =
    rw (← if-ok _ _ _ h) (refl, record { distinct = tt; few = omega arith; short = tt })

known : (o : Option ToolParts) → ((parts : ToolParts) × (o ≡ some parts)) ↔ (o ≢ none)
known none = (λ (p, e). absurd cc, λ n. absurd (n refl))
known (some p) = (λ _ e. cc, λ n. (p, refl))

Complete-All :
    (policy : Bytes) (max : ℕ) (at at' : ℕ → Option ToolParts) (calls : List ToolCall)
    → ((i : ℕ) → at i ≡ at' i)
    → All (λ c. Complete policy max at c) calls
    → All (λ c. Complete policy max at' c) calls
Complete-All p m at at' [] h k = tt
Complete-All p m at at' (c ∷ calls) h k = (
  record {
    parts = k.0.parts;
    present = sym (h c.index) ∙ k.0.present;
    id = k.0.id;
    name = k.0.name;
    wrapped = k.0.wrapped;
    arguments = k.0.arguments;
    short = k.0.short;
  },
  Complete-All p m at at' calls h k.1,
)

-- Where a new accumulator takes in all fragments and finishes without an error, the calls have
-- exactly the indexes that occur among the fragments, in ascending order, and each call has the
-- joined ids and names of its fragments, and their joined arguments as a checked text.
pub finish-seen :
    (max_calls max_bytes : ℤ) (policy : Bytes) (a : ToolAccumulator)
    → new_tool_accumulator max_calls max_bytes policy ≡ ok a
    → (fragments : List ToolFragment) → (add_all a fragments).1 ≡ none
    → (calls : List ToolCall) (n : ℕ) → (finish (add_all a fragments).0).1 ≡ ok (calls, n)
    → let b = (add_all a fragments).0 in
      Ascending (call_indexes calls)
      × ((i : ℕ) → (member i (call_indexes calls) ≡ true) ↔ (seen i fragments none ≢ none))
      × All (λ c. Complete b.policy b.max_bytes (λ i. seen i fragments none) c) calls
unfolding find
finish-seen max_calls max_bytes policy a h fragments e calls n f =
    let b = (add_all a fragments).0 in
    let (empty, v) = new-lem max_calls max_bytes policy a h in
    let (up, keys, complete) = finish-Complete b calls n (add_all-IsValid fragments a v) f in
    let held : (i : ℕ) → find i b.calls ≡ seen i fragments none =
      λ i. add_all-seen fragments a i e ∙ ap (λ m. seen i fragments (find i m)) empty in
    (
      up,
      λ i. (
        λ m. (known _).0 (
            let (parts, p) = (find-member i b.calls).0 (sym (keys i) ∙ m) in
            (parts, sym (held i) ∙ p)),
        λ s.
            let (parts, p) = (known _).1 s in
            keys i ∙ (find-member i b.calls).1 (parts, held i ∙ p),
      ),
      Complete-All b.policy b.max_bytes (λ i. find i b.calls) (λ i. seen i fragments none) calls
          held complete,
    )

-- Nothing can be done any more.
abbrev Stuck : ToolAccumulator → Failure → Type 0
Stuck a e = (a.terminal ≡ some e) ⊎ ((a.terminal ≡ none) × (a.finished ≡ true) × (e ≡ malformed))

write-Stuck :
    (a : ToolAccumulator) (f : ToolFragment) (i : ℕ) (parts : ToolParts) (e : Failure)
    → (write a f i parts).1 ≡ some e
    → (write a f i parts).0.terminal ≡ some e
unfolding write fail
write-Stuck a f i parts e h = ground arith

add-Stuck :
    (a : ToolAccumulator) (f : ToolFragment) (e : Failure)
    → (add a f).1 ≡ some e
    → Stuck (add a f).0 e
unfolding add add_at add_unless fail add_call
add-Stuck a f e = unless a.terminal a.finished refl refl
  where
    call :
        (i : ℕ) (o : Option ToolParts)
        → (add_call a f i o).1 ≡ some e
        → (add_call a f i o).0.terminal ≡ some e
    call i none h = ground (arith, write-Stuck a f i no_parts e)
    call i (some parts) h = write-Stuck a f i parts e h

    at : (n : ℤ) → (add_at a f n).1 ≡ some e → (add_at a f n).0.terminal ≡ some e
    at (negsuc n) h = h
    at (pos i) h = call i (find i a.calls) h

    unless :
        (t : Option Failure) (d : Bool)
        → a.terminal ≡ t
        → a.finished ≡ d
        → (add_unless a f t d).1 ≡ some e
        → Stuck (add_unless a f t d).0 e
    unless (some x) d k l h = inl (k ∙ h)
    unless none true k l h = inr (k, l, cc)
    unless none false k l h = inl (at f.index h)

Stuck-stays :
    (a : ToolAccumulator) (g : ToolFragment) (e : Failure)
    → Stuck a e
    → (add a g ≡ (a, some e)) × (finish a ≡ (a, err e))
unfolding add add_unless finish finish_unless
Stuck-stays a g e (inl h) =
    (ap (λ t. add_unless a g t a.finished) h, ap (λ t. finish_unless a t a.finished) h)
Stuck-stays a g e (inr (h, d, m)) = (
  ap₂ (add_unless a g) h d ∙ ap (λ x. (a, some x)) (sym m),
  ap₂ (finish_unless a) h d ∙ ap (λ x. (a, err x)) (sym m),
)

-- An error stays: whatever is added later, and at the end, the same error comes and nothing
-- changes.
pub add_error :
    (a : ToolAccumulator) (f g : ToolFragment) (e : Failure)
    → (add a f).1 ≡ some e
    → (add (add a f).0 g ≡ ((add a f).0, some e)) × (finish (add a f).0 ≡ ((add a f).0, err e))
add_error a f g e h = Stuck-stays (add a f).0 g e (add-Stuck a f e h)
