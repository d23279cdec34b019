-- ===== src/Stream/Tools/Tests.antt =====
-- Runs of the accumulator, and its theorems at concrete input.
use ollame.Prelude.{
  ℕ, ◌≡◌, ◌≢◌, ◌↔◌, refl, true, false, none, some, List, [], ◌∷◌, bytes_eq, starts_with, arith,
  String, codes, All, ℤ, pos, negsuc, ok, err,
}
use ollame.Prelude.Sorting.{Ascending, member}
use ollame.Prelude.Utf8.{quote}
use ollame.Stream.{malformed, tool_arguments}
use ollame.Stream.Tools.{
  ToolFragment, ToolCall, ToolAccumulator, new_tool_accumulator, find, add, finish,
}
use ollame.Stream.Tools.Gather.{add_all, seen, add_all-seen}
use ollame.Stream.Tools.Bounds.{IsValid, add-IsValid}
use ollame.Stream.Tools.Calls.{Complete, call_indexes, finish-seen, add_error}

abbrev fragment : ℤ → String → String → String → ToolFragment
fragment i id name arguments = record {
  index = i;
  id = codes id;
  name = codes name;
  arguments = codes arguments;
}

abbrev fragments : List ToolFragment
fragments =
    fragment (pos 2) "b" "time" ""
    ∷ fragment (pos 0) "a" "ls" "{\"p\": "
    ∷ fragment (pos 0) "" "" "\"/\"}"
    ∷ []

abbrev start : ToolAccumulator
start = record {
  calls = [];
  max_calls = 2;
  max_bytes = 40;
  policy = codes "wrap";
  terminal = none;
  finished = false;
}

abbrev calls : List ToolCall
calls =
    record { id = codes "a"; index = 0; name = codes "ls"; arguments = codes "{\"p\":\"/\"}" }
    ∷ record { id = codes "b"; index = 2; name = codes "time"; arguments = codes "{}" }
    ∷ []

started : new_tool_accumulator (pos 2) (pos 40) (codes "wrap") ≡ ok start
unfolding new_tool_accumulator bytes_eq
started = refl

added : (add_all start fragments).1 ≡ none
unfolding add
added = refl

finished : (finish (add_all start fragments).0).1 ≡ ok (calls, 0)
unfolding add finish starts_with bytes_eq
finished = refl

finish-seen_example :
    let b = (add_all start fragments).0 in
    Ascending (call_indexes calls)
    × ((i : ℕ) → (member i (call_indexes calls) ≡ true) ↔ (seen i fragments none ≢ none))
    × All (λ c. Complete b.policy b.max_bytes (λ i. seen i fragments none) c) calls
finish-seen_example =
    finish-seen (pos 2) (pos 40) (codes "wrap") start started fragments added calls 0 finished

add_all-seen_example :
    find 0 (add_all start fragments).0.calls ≡ seen 0 fragments (find 0 start.calls)
add_all-seen_example = add_all-seen fragments start 0 added

add-IsValid_example : IsValid (add start (fragment (pos 7) "" "f" "x")).0
add-IsValid_example =
    add-IsValid start (fragment (pos 7) "" "f" "x")
      (record { distinct = tt; few = omega arith; short = tt })

negative : (add start (fragment (negsuc 0) "" "f" "x")).1 ≡ some malformed
unfolding add
negative = refl

add_error_example :
    let a = (add start (fragment (negsuc 0) "" "f" "x")).0 in
    (add a (fragment (pos 0) "" "" "") ≡ (a, some malformed)) × (finish a ≡ (a, err malformed))
add_error_example =
    add_error start (fragment (negsuc 0) "" "f" "x") (fragment (pos 0) "" "" "") malformed negative

-- A text that is no object is wrapped, also one that is cut off.
wrapped :
    (finish (add start (fragment (pos 0) "" "" "{\"p\"")).0).1
    ≡ ok (
      (record { id = []; index = 0; name = []; arguments = codes "{\"_raw\":\"{\\\"p\\\"\"}" }
          ∷ []),
      1,
    )
unfolding add finish starts_with bytes_eq quote
wrapped = refl

-- The no-break space in front is trimmed for the checks, and then refused by `Compact`, so the
-- text is neither compacted nor wrapped.
spaced :
    (finish
      (add start
        (record { index = pos 0; id = []; name = []; arguments = 194 ∷ 160 ∷ codes "{}" })).0).1
    ≡ err tool_arguments
unfolding add finish starts_with bytes_eq
spaced = refl
