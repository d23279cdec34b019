-- ===== src/Stream/Assemble/Runs.antt =====
-- A whole response in the two modes.
use ollame.Prelude.{
  ℕ, ◌+◌, ◌≤◌, ◌≡◌, refl, sym, ap, ap₂, ◌∙◌, arith, Bool, true, false, none, some, List, [], ◌∷◌,
  append-nil, Bytes, length, ltb, if◌then◌else◌, pos, ◌≤ℤ◌, max_int, Result, ok, err, ok_injective,
}
use ollame.Stream.{Failure, Emit}
use ollame.Stream.Tools
use ollame.Stream.Tools.{ToolFragment, ToolCall, ToolAccumulator, new_tool_accumulator}
use ollame.Stream.Decode.{Chunk}
use ollame.Stream.Assemble.{
  Output, no_output, Assembly, Assembler, Step, new_assembler, assembler_with, after, count_text,
  total, hide_thinking, send, deliver, output, feed, finish_content, finish_calls, finish, yielding,
  after_content,
}
use ollame.Stream.Assemble.Twin.{
  gather, join, twin, shown, Aggregates, Along, after-Along, send-gather,
}
use ollame.Stream.Assemble.Steps.{feed-Along, finish_content-Along}

-- The result of a call of `Finish` beside the states.
abbrev pub Ended : Type 0 → Type 0
Ended S = (Assembler × S) × Result Failure Output

module _ {S : Type 0} (emit : Emit Output S)
    (probabilities : Bytes → Result Failure (List Bytes)) where
  -- The chunks of a response with their times.
  abbrev pub feed_all : List (Chunk × ℕ) → Assembler → S → Step S
  feed_all [] a w = ((a, w), none)
  feed_all ((chunk, now) ∷ chunks) a w =
      after (feed emit probabilities chunk now a w) (λ a w. feed_all chunks a w)

  abbrev pub run : List (Chunk × ℕ) → Assembler → S → Ended S
  run chunks a w = after_content (feed_all chunks a w) (λ a w. finish emit a w)

feed_all-Along :
    {S : Type 0} (emit : Emit Output S) (probabilities : Bytes → Result Failure (List Bytes))
    (chunks : List (Chunk × ℕ)) (a : Assembler) (w : S)
    → Aggregates a
    → Along
        (feed_all emit probabilities chunks a w)
        (feed_all gather probabilities chunks (twin a) (shown a))
feed_all-Along emit probabilities [] a w g = λ e. (g, refl)
feed_all-Along emit probabilities ((chunk, now) ∷ chunks) a w g =
    after-Along (λ a w. feed_all emit probabilities chunks a w)
      (λ a w. feed_all gather probabilities chunks a w) (feed emit probabilities chunk now a w)
      (feed gather probabilities chunk now (twin a) (shown a))
      (feed-Along emit probabilities chunk now a w g)
      (λ a w g. feed_all-Along emit probabilities chunks a w g)

count_text-zero :
    {S : Type 0} (a : Assembler) (w : S)
    → a.text_bytes ≤ max_int
    → count_text 0 a w ≡ ((a, w), none)
unfolding count_text
count_text-zero a w h =
    let f : ltb max_int (a.text_bytes + 0) ≡ false = ground arith in
    let same : a.text_bytes + 0 ≡ a.text_bytes = omega arith in
    rw f (ap (λ n. ((record a { text_bytes = n }, w), none)) same)

-- A run that aggregates gives what a run that streams sends.
abbrev pub Streams : {S : Type 0} → Ended S → Ended Output → Type 0
Streams (x, r) o =
    (out : Output)
    → r ≡ ok out
    → (o.0.1 ≡ out)
      × (o.1 ≡ ok no_output)
      × (pos (length out.content + length out.thinking + total out.logprobs)
          ≤ℤ x.0.options.max_aggregate_bytes)

output-calls :
    (calls : List ToolCall) (a : Assembler) (w : Output)
    → a.text_bytes ≤ max_int
    → output gather (record no_output { tool_calls = calls }) (twin a) w
      ≡ ((twin a, join w (record no_output { tool_calls = calls })), none)
unfolding output deliver
output-calls calls a w h =
    ap (λ s. after s (λ b w. after (count_text 0 b w) (λ b w. deliver gather o b w)))
      (count_text-zero (twin a) w h)
    ∙ ap (λ s. after s (λ b w. deliver gather o b w)) (count_text-zero (twin a) w h)
    ∙ by a.options.visible
  where
    o : Output
    o = record no_output { tool_calls = calls }

    by : (v : Bool) → send gather (hide_thinking v o) (twin a) w ≡ ((twin a, join w o), none)
    by true = send-gather [] [] calls [] (twin a) w
    by false = send-gather [] [] calls [] (twin a) w

join-calls :
    (calls : List ToolCall) (a : Assembler)
    → join (shown a) (record no_output { tool_calls = calls }) ≡ record {
      content = a.content;
      thinking = a.thinking;
      tool_calls = calls;
      logprobs = a.logprobs;
    }
join-calls calls a = rw (append-nil a.content, append-nil a.thinking, append-nil a.logprobs) refl

finish_calls-Streams :
    {S : Type 0} (emit : Emit Output S) (t : ToolAccumulator × Result Failure (List ToolCall × ℕ))
    (a : Assembler) (w : S)
    → Aggregates a
    → Streams (finish_calls emit t a w) (finish_calls gather t (twin a) (shown a))
unfolding finish_calls
finish_calls-Streams emit (tools, err e) a w g = λ out h. absurd cc
finish_calls-Streams {S} emit (tools, ok (calls, wrapped)) a w g = by a.options.aggregate g.mode
  where
    b : Assembler
    b = record a { tools = tools; wrapped_tools = wrapped }

    all : Output
    all = record {
      content = a.content;
      thinking = a.thinking;
      tool_calls = calls;
      logprobs = a.logprobs;
    }

    streamed : Ended Output
    streamed =
        yielding (output gather (record no_output { tool_calls = calls }) (twin b) (shown b))
          no_output

    streamed_lem : streamed ≡ ((twin b, all), ok no_output)
    streamed_lem =
        ap (λ s. yielding s no_output) (output-calls calls b (shown b) g.counted)
        ∙ ap (λ o. ((twin b, o), ok no_output)) (join-calls calls b)

    by :
        (m : Bool)
        → m ≡ true
        → Streams
            (if m
              then ((b, w), ok all)
              else yielding (output emit (record no_output { tool_calls = calls }) b w) no_output)
            streamed
    by false e = λ out h. absurd cc
    by true e = λ out h.
        let q : all ≡ out = ok_injective h in
        rw (← q)
          (ap (λ o. o.0.1) streamed_lem, ap (λ o. o.1) streamed_lem, omega (arith, g.sum, g.within))

after_content-Streams :
    {S : Type 0} (next : Assembler → S → Ended S) (next' : Assembler → Output → Ended Output)
    (o : Step S) (o' : Step Output)
    → Along o o'
    → ((a : Assembler) (w : S) → Aggregates a → Streams (next a w) (next' (twin a) (shown a)))
    → Streams (after_content o next) (after_content o' next')
after_content-Streams next next' ((a, w), none) o' h k = let (g, e) = h refl in rw e (k a w g)
after_content-Streams next next' ((a, w), some x) o' h k = λ out e. absurd cc

finish-Streams :
    {S : Type 0} (emit : Emit Output S) (a : Assembler) (w : S)
    → Aggregates a
    → Streams (finish emit a w) (finish gather (twin a) (shown a))
unfolding finish
finish-Streams emit a w g =
    after_content-Streams (λ a w. finish_calls emit (Tools.finish a.tools) a w)
      (λ a w. finish_calls gather (Tools.finish a.tools) a w) (finish_content emit a.splitter a w)
      (finish_content gather a.splitter (twin a) (shown a))
      (finish_content-Along emit a.splitter a w g)
      (λ a w g. finish_calls-Streams emit (Tools.finish a.tools) a w g)

Streams-moved :
    {S : Type 0} (x : Ended S) {o o' : Ended Output} → o ≡ o' → Streams x o' → Streams x o
Streams-moved (x, r) e s = λ out h. rw e (s out h)

new-twin :
    (options : Assembly) (a b : Assembler)
    → options.aggregate ≡ true
    → pos 0 ≤ℤ options.max_aggregate_bytes
    → new_assembler options ≡ ok a
    → new_assembler (record options { aggregate = false }) ≡ ok b
    → Aggregates a × (b ≡ twin a) × (shown a ≡ no_output)
unfolding new_assembler
new-twin options a b m l = by (
    new_tool_accumulator options.max_tool_calls options.max_tool_call_bytes
      options.bad_tool_arguments)
  where
    by :
        (r : Result Failure ToolAccumulator)
        → assembler_with options r ≡ ok a
        → assembler_with (record options { aggregate = false }) r ≡ ok b
        → Aggregates a × (b ≡ twin a) × (shown a ≡ no_output)
    by (err e) h k = absurd cc
    by (ok tools) h k = rw (← ok_injective h) (
      record { mode = m; counted = omega arith; sum = omega arith; within = l },
      sym (ok_injective k),
      refl,
    )

-- Where the aggregate mode gives a result, streaming the same chunks sends, all calls together,
-- the same content, thinking, tool calls and log probabilities and ends without an error, whatever
-- the chunks are; and what was kept is within the limit of the aggregate mode.
pub run-Streams :
    {S : Type 0} (emit : Emit Output S) (probabilities : Bytes → Result Failure (List Bytes))
    (options : Assembly) (a b : Assembler)
    → options.aggregate ≡ true
    → pos 0 ≤ℤ options.max_aggregate_bytes
    → new_assembler options ≡ ok a
    → new_assembler (record options { aggregate = false }) ≡ ok b
    → (chunks : List (Chunk × ℕ)) (w : S)
    → Streams (run emit probabilities chunks a w) (run gather probabilities chunks b no_output)
run-Streams emit probabilities options a b m l h k chunks w =
    let (g, same, empty) = new-twin options a b m l h k in
    Streams-moved (run emit probabilities chunks a w)
      (ap₂ (run gather probabilities chunks) same (sym empty))
      (after_content-Streams (λ a w. finish emit a w) (λ a w. finish gather a w)
        (feed_all emit probabilities chunks a w)
        (feed_all gather probabilities chunks (twin a) (shown a))
        (feed_all-Along emit probabilities chunks a w g) (λ a w g. finish-Streams emit a w g))
