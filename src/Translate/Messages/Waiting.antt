-- ===== src/Translate/Messages/Waiting.antt =====
-- The calls that wait for a result, in the state of the translation and in its result.
use ollame.Prelude.{
  ◌≡◌, refl, ap, ◌∙◌, arith, Bool, true, false, Option, none, some, List, [], ◌∷◌, ◌++◌, map, Bytes,
  Dict, codes, bytes_eq, bytes_eq_iff, contains, insert, lookup-insert, if◌then◌else◌,
}
use ollame.Translate.Messages.{OpenAiToolCall, OpenAiMessage, is_consumed, choose}

abbrev pub is_tool : OpenAiMessage → Bool
is_tool m = bytes_eq m.role (codes "tool")

abbrev pub call_ids : List OpenAiToolCall → List Bytes
call_ids calls = map (λ c. c.id) calls

abbrev pub without : Bytes → List Bytes → List Bytes
without id [] = []
without id (x ∷ xs) = if bytes_eq x id then without id xs else x ∷ without id xs

abbrev is_empty : List Bytes → Bool
is_empty [] = true
is_empty (x ∷ xs) = false

-- The calls that are due behind some messages; `none` where a tool message answers no due call,
-- or where another message comes while calls are due.
abbrev pub settle : List Bytes → List OpenAiMessage → Option (List Bytes)
settle due [] = some due
settle due (m ∷ ms) =
    if is_tool m
    then (if contains due m.tool_call_id then settle (without m.tool_call_id due) ms else none)
    else if is_empty due
    then settle (call_ids m.tool_calls) ms
    else none

-- The ids of the pending calls that are not consumed.
abbrev pub waiting : Dict Bytes → List OpenAiToolCall → List Bytes
waiting consumed [] = []
waiting consumed (call ∷ pending) =
    if is_consumed consumed call.id
    then waiting consumed pending
    else call.id ∷ waiting consumed pending

abbrev pub Unique : List OpenAiToolCall → Type 0
Unique [] = Unit {0}
Unique (call ∷ calls) = (contains (call_ids calls) call.id ≡ false) × Unique calls

settle_then : Option (List Bytes) → List OpenAiMessage → Option (List Bytes)
settle_then none ms = none
settle_then (some due) ms = settle due ms

settle-append :
    (ms ns : List OpenAiMessage) (due : List Bytes)
    → settle due (ms ++ ns) ≡ settle_then (settle due ms) ns
unfolding settle_then
settle-append [] ns due = refl
settle-append (m ∷ ms) ns due = ground (
  arith,
  settle-append ms ns (without m.tool_call_id due),
  settle-append ms ns (call_ids m.tool_calls),
)

-- A message behind others.
pub settle-snoc :
    (ms : List OpenAiMessage) (m : OpenAiMessage) (due : List Bytes)
    → settle [] ms ≡ some due
    → settle [] (ms ++ m ∷ []) ≡ settle due (m ∷ [])
unfolding settle_then
settle-snoc ms m due h = settle-append ms (m ∷ []) [] ∙ ap (λ o. settle_then o (m ∷ [])) h

pub contains-waiting :
    (consumed : Dict Bytes) (calls : List OpenAiToolCall) (id : Bytes)
    → contains (call_ids calls) id ≡ false
    → without id (waiting consumed calls) ≡ waiting consumed calls
unfolding contains
contains-waiting consumed [] id h = refl
contains-waiting consumed (call ∷ calls) id h = ground (arith, contains-waiting consumed calls id)

pub waiting-insert :
    (consumed : Dict Bytes) (calls : List OpenAiToolCall) (id content : Bytes)
    → waiting (insert id content consumed) calls ≡ without id (waiting consumed calls)
waiting-insert consumed [] id content = refl
waiting-insert consumed (call ∷ calls) id content = ground (
  arith,
  waiting-insert consumed calls id content,
  lookup-insert id call.id content consumed,
  bytes_eq_iff id call.id,
  bytes_eq_iff call.id id,
)

pub choose-waiting :
    (test : OpenAiToolCall → Bool) (consumed : Dict Bytes) (calls : List OpenAiToolCall)
    (call : OpenAiToolCall)
    → choose test consumed calls ≡ some call
    → (contains (waiting consumed calls) call.id ≡ true)
      × (contains (call_ids calls) call.id ≡ true)
unfolding choose contains
choose-waiting test consumed [] call h = absurd cc
choose-waiting test consumed (c ∷ calls) call h =
    ground (arith, choose-waiting test consumed calls call, bytes_eq_iff call.id call.id)

pub choose-none :
    (consumed : Dict Bytes) (calls : List OpenAiToolCall)
    → choose (λ call. true) consumed calls ≡ none
    → waiting consumed calls ≡ []
unfolding choose
choose-none consumed [] h = refl
choose-none consumed (c ∷ calls) h = ground (arith, choose-none consumed calls)
