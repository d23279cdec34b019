-- ===== src/Stream/Tools.antt =====
-- internal/stream/tools.go: tool calls put together from fragments.
pub mod Gather
pub mod Bounds
pub mod Calls
mod Tests
use ollame.Prelude.{
  ℕ, zero, suc, ◌+◌, ◌≡◌, Bool, true, false, not, ◌&&◌, ◌||◌, Option, none, some, List, [], ◌∷◌,
  ◌++◌, map, Bytes, codes, bytes_eq, starts_with, length, ltb, leb, ◌==◌, if◌then◌else◌, ℤ, pos,
  negsuc, ltb_ℤ, leb_ℤ, pos_part, Result, ok, err, ◌>>=◌,
}
use ollame.Prelude.Json.{valid, compact}
use ollame.Prelude.Utf8.{trim_space, quote}
use ollame.Prelude.Sorting.{sort_ints}
use ollame.Stream.{Failure, limit, malformed, tool_arguments}

-- Of decode.go; the fields of `Function` stand beside the others.
pub record ToolFragment : Type 0 where
  pub index : ℤ
  pub id : Bytes
  pub name : Bytes
  pub arguments : Bytes

-- `translate.ToolCall`, likewise
pub record ToolCall : Type 0 where
  pub id : Bytes
  pub index : ℕ
  pub name : Bytes
  pub arguments : Bytes

pub record ToolParts : Type 0 where
  pub id : Bytes
  pub name : Bytes
  pub arguments : Bytes

abbrev pub no_parts : ToolParts
no_parts = record { id = []; name = []; arguments = [] }

-- The map `calls`; its keys are not negative.
abbrev pub Calls : Type 0
Calls = List (ℕ × ToolParts)

pub find : ℕ → Calls → Option ToolParts
find i [] = none
find i ((j, parts) ∷ calls) = if j == i then some parts else find i calls

pub store : ℕ → ToolParts → Calls → Calls
store i parts [] = (i, parts) ∷ []
store i parts ((j, old) ∷ calls) =
    let rest = store i parts calls in if j == i then (i, parts) ∷ calls else (j, old) ∷ rest

pub record ToolAccumulator : Type 0 where
  pub calls : Calls
  pub max_calls : ℕ
  pub max_bytes : ℕ
  pub policy : Bytes
  pub terminal : Option Failure
  pub finished : Bool

unfoldable pub new_tool_accumulator : ℤ → ℤ → Bytes → Result Failure ToolAccumulator
new_tool_accumulator max_calls max_bytes policy =
    if leb_ℤ max_calls (pos 0)
      || leb_ℤ max_bytes (pos 0)
      || (not (bytes_eq policy (codes "wrap")) && not (bytes_eq policy (codes "error")))
    then err limit
    else ok (record {
      calls = [];
      max_calls = pos_part max_calls;
      max_bytes = pos_part max_bytes;
      policy = policy;
      terminal = none;
      finished = false;
    })

pub fail : Failure → ToolAccumulator → ToolAccumulator × Option Failure
fail e a = (record a { terminal = some e; calls = [] }, some e)

abbrev pub extend : ToolParts → ToolFragment → ToolParts
extend parts fragment = record {
  id = parts.id ++ fragment.id;
  name = parts.name ++ fragment.name;
  arguments = parts.arguments ++ fragment.arguments;
}

-- `len(x) > maxBytes - len(y)` for one of the three fields
abbrev pub exceeds : ToolAccumulator → ToolParts → ToolFragment → Bool
exceeds a parts fragment =
    ltb a.max_bytes (length parts.id + length fragment.id)
    || ltb a.max_bytes (length parts.name + length fragment.name)
    || ltb a.max_bytes (length parts.arguments + length fragment.arguments)

pub write : ToolAccumulator → ToolFragment → ℕ → ToolParts → ToolAccumulator × Option Failure
unfolding fail store
write a fragment i parts =
    if exceeds a parts fragment
    then fail limit (record a { calls = store i parts a.calls })
    else (record a { calls = store i (extend parts fragment) a.calls }, none)

pub add_call :
    ToolAccumulator → ToolFragment → ℕ → Option ToolParts → ToolAccumulator × Option Failure
unfolding fail write
add_call a fragment i none =
    if leb a.max_calls (length a.calls) then fail limit a else write a fragment i no_parts
add_call a fragment i (some parts) = write a fragment i parts

pub add_at : ToolAccumulator → ToolFragment → ℤ → ToolAccumulator × Option Failure
unfolding fail add_call find
add_at a fragment (negsuc n) = fail malformed a
add_at a fragment (pos i) = add_call a fragment i (find i a.calls)

pub add_unless :
    ToolAccumulator → ToolFragment → Option Failure → Bool → ToolAccumulator × Option Failure
unfolding add_at
add_unless a fragment (some e) finished = (a, some e)
add_unless a fragment none true = (a, some malformed)
add_unless a fragment none false = add_at a fragment fragment.index

unfoldable pub add : ToolAccumulator → ToolFragment → ToolAccumulator × Option Failure
unfolding add_unless
add a fragment = add_unless a fragment a.terminal a.finished

abbrev is_object : Bytes → Bool
is_object trimmed = starts_with (codes "{") trimmed && valid trimmed

wrap : Bytes → Bytes
wrap raw = codes "{\"_raw\":" ++ (quote raw ++ codes "}")

-- The arguments of a call, and whether they were wrapped.
pub arguments_of : Bytes → Bytes → Result Failure (Bytes × Bool)
unfolding wrap trim_space valid
arguments_of policy raw =
    let arguments = if bytes_eq raw [] then codes "{}" else raw in
    if not (is_object (trim_space arguments))
    then (if bytes_eq policy (codes "error") then err tool_arguments else ok (wrap raw, true))
    else elim (compact arguments) [
      | none ↦ err tool_arguments
      | some compacted ↦ ok (compacted, false)
    ]

-- A round of the loop of `Finish`.
pub finish_call : ToolAccumulator → ℕ → ToolParts → Result Failure (ToolCall × Bool)
unfolding arguments_of
finish_call a i parts = do
  (arguments, wrapped) ← arguments_of a.policy parts.arguments
  if ltb a.max_bytes (length arguments)
      then err limit
      else ok
          (record { id = parts.id; index = i; name = parts.name; arguments = arguments }, wrapped)

-- A missing key is not met: the indexes are the keys.
abbrev parts_of : Option ToolParts → ToolParts
parts_of none = no_parts
parts_of (some parts) = parts

pub finish_calls : ToolAccumulator → List ℕ → Result Failure (List ToolCall × ℕ)
unfolding finish_call
finish_calls a [] = ok ([], 0)
finish_calls a (i ∷ indexes) = do
  (call, wrapped) ← finish_call a i (parts_of (find i a.calls))
  (calls, count) ← finish_calls a indexes
  ok (call ∷ calls, if wrapped then count + 1 else count)

abbrev pub indexes_of : Calls → List ℕ
indexes_of calls = map (λ (i, _). i) calls

pub close :
    ToolAccumulator
    → Result Failure (List ToolCall × ℕ)
    → ToolAccumulator × Result Failure (List ToolCall × ℕ)
unfolding fail
close a (err e) = ((fail e a).0, err e)
close a (ok result) = (record a { calls = [] }, ok result)

pub finish_unless :
    ToolAccumulator → Option Failure → Bool → ToolAccumulator × Result Failure (List ToolCall × ℕ)
unfolding close finish_calls sort_ints
finish_unless a (some e) finished = (a, err e)
finish_unless a none true = (a, err malformed)
finish_unless a none false =
    close (record a { finished = true }) (finish_calls a (sort_ints (indexes_of a.calls)))

unfoldable pub finish : ToolAccumulator → ToolAccumulator × Result Failure (List ToolCall × ℕ)
unfolding finish_unless
finish a = finish_unless a a.terminal a.finished
