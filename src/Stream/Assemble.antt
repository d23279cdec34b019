-- ===== src/Stream/Assemble.antt =====
-- internal/stream/assemble.go: the state of a response, chunk by chunk. The state of the emit
-- function is threaded through, and `Logprobs` is an argument.
pub mod Twin
pub mod Steps
pub mod Runs
mod Tests
use ollame.Prelude.{
  ℕ, zero, suc, ◌+◌, ◌/◌, ◌%◌, ◌≡◌, Bool, true, false, not, ◌&&◌, ◌||◌, Option, none, some, List,
  [], ◌∷◌, ◌++◌, Bytes, codes, bytes_eq, length, ltb, leb, ◌==◌, if◌then◌else◌, ℤ, pos, negsuc,
  ◌-ℤ◌, ltb_ℤ, max_int, Result, ok, err,
}
use ollame.Stream.{Failure, limit, Emit}
use ollame.Stream.Think
use ollame.Stream.Think.{Text, ThinkSplitter, new_think_splitter}
use ollame.Stream.Tools
use ollame.Stream.Tools.{ToolFragment, ToolCall, ToolAccumulator, new_tool_accumulator}
use ollame.Stream.Decode.{Delta, Choice, Usage, Chunk}

pub record Output : Type 0 where
  pub content : Bytes
  pub thinking : Bytes
  pub tool_calls : List ToolCall
  pub logprobs : List Bytes

abbrev pub no_output : Output
no_output = record { content = []; thinking = []; tool_calls = []; logprobs = [] }

-- Of `config.Limits`, the three fields that are read.
pub record Assembly : Type 0 where
  pub aggregate : Bool
  pub visible : Bool
  pub think_tags : Bool
  pub think_initial : Bool
  pub max_aggregate_bytes : ℤ
  pub max_tool_calls : ℤ
  pub max_tool_call_bytes : ℤ
  pub bad_tool_arguments : Bytes

-- The zero time is `none`. `retained` and `text_bytes` start at 0 and are only added to.
pub record Assembler : Type 0 where
  pub options : Assembly
  pub tools : ToolAccumulator
  pub splitter : Option ThinkSplitter
  pub content : Bytes
  pub thinking : Bytes
  pub logprobs : List Bytes
  pub retained : ℕ
  pub usage : Option Usage
  pub usage_estimated : Bool
  pub text_bytes : ℕ
  pub first : Option ℕ
  pub last : Option ℕ
  pub reason : Bytes
  pub content_filtered : Bool
  pub wrapped_tools : ℕ

pub assembler_with : Assembly → Result Failure ToolAccumulator → Result Failure Assembler
assembler_with options (err e) = err e
assembler_with options (ok tools) = ok (record {
  options = options;
  tools = tools;
  splitter = if options.think_tags then some (new_think_splitter options.think_initial) else none;
  content = [];
  thinking = [];
  logprobs = [];
  retained = 0;
  usage = none;
  usage_estimated = false;
  text_bytes = 0;
  first = none;
  last = none;
  reason = codes "stop";
  content_filtered = false;
  wrapped_tools = 0;
})

pub new_assembler : Assembly → Result Failure Assembler
unfolding assembler_with
new_assembler options = assembler_with options (
    new_tool_accumulator options.max_tool_calls options.max_tool_call_bytes
      options.bad_tool_arguments)

-- The assembler and the state of the emit function, with the error.
abbrev pub Step : Type 0 → Type 0
Step S = (Assembler × S) × Option Failure

-- `if err := …; err != nil { return err }`
abbrev pub after : {S : Type 0} → Step S → (Assembler → S → Step S) → Step S
after ((a, w), none) next = next a w
after ((a, w), some e) next = ((a, w), some e)

pub count_text : {S : Type 0} → ℕ → Assembler → S → Step S
count_text size a w =
    if ltb max_int (a.text_bytes + size)
    then ((a, w), some limit)
    else ((record a { text_bytes = a.text_bytes + size }, w), none)

abbrev pub total : List Bytes → ℕ
total [] = 0
total (raw ∷ raws) = length raw + total raws

-- The branch of the aggregate mode.
pub retain : {S : Type 0} → Output → Assembler → S → Step S
retain o a w =
    let additional = length o.content + length o.thinking + total o.logprobs in
    if ltb_ℤ (a.options.max_aggregate_bytes -ℤ pos a.retained) (pos additional)
    then ((a, w), some limit)
    else (
      (
        record a {
          retained = a.retained + additional;
          content = a.content ++ o.content;
          thinking = a.thinking ++ o.thinking;
          logprobs = a.logprobs ++ o.logprobs;
        },
        w,
      ),
      none,
    )

abbrev pub is_empty : {A : Type 0} → List A → Bool
is_empty [] = true
is_empty (x ∷ xs) = false

abbrev pub nothing_in : Output → Bool
nothing_in o =
    is_empty o.content && is_empty o.thinking && is_empty o.tool_calls && is_empty o.logprobs

abbrev pub hide_thinking : Bool → Output → Output
hide_thinking visible o = if not visible then record o { thinking = [] } else o

abbrev pub beside : {S : Type 0} → Assembler → S × Option Failure → Step S
beside a (w, e) = ((a, w), e)

-- What the splitter leaves, written back.
abbrev pub with_splitter : {S : Type 0} → Think.Outcome (Assembler × S) → Step S
with_splitter (s, (a, w), e) = ((record a { splitter = some s }, w), e)

abbrev pub with_tools : {S : Type 0} → Assembler → S → ToolAccumulator × Option Failure → Step S
with_tools a w (tools, e) = ((record a { tools = tools }, w), e)

pub note_reason : Option Bytes → Assembler → Assembler
note_reason none a = a
note_reason (some reason) a = record a {
  reason = if bytes_eq reason (codes "length") then codes "length" else codes "stop";
  content_filtered = a.content_filtered || bytes_eq reason (codes "content_filter");
}

abbrev pub or_else : Bytes → Bytes → Bytes
or_else [] other = other
or_else (c ∷ s) other = c ∷ s

abbrev pub first_time : Option ℕ → ℕ → Option ℕ
first_time none now = some now
first_time (some t) now = some t

pub note_time : Bool → ℕ → Assembler → Assembler
note_time false now a = a
note_time true now a = record a { first = first_time a.first now; last = some now }

abbrev pub is_zero : ℤ → Bool
is_zero (pos n) = n == 0
is_zero (negsuc n) = false

abbrev pub note_usage : Option Usage → Assembler → Assembler
note_usage none a = a
note_usage (some u) a = record a { usage = some u }

-- The result beside the state; the empty output where an error is returned.
abbrev pub yielding : {S : Type 0} → Step S → Output → (Assembler × S) × Result Failure Output
yielding (x, none) o = (x, ok o)
yielding (x, some e) o = (x, err e)

abbrev pub after_content :
    {S : Type 0}
    → Step S
    → (Assembler → S → (Assembler × S) × Result Failure Output)
    → (Assembler × S) × Result Failure Output
after_content ((a, w), none) next = next a w
after_content (x, some e) next = (x, err e)

module _ {S : Type 0} (emit : Emit Output S) where
  pub send : Output → Assembler → S → Step S
  send o a w = if nothing_in o then ((a, w), none) else beside a (emit o w)

  -- The part of `output` behind the counts.
  pub deliver : Output → Assembler → S → Step S
  unfolding retain send
  deliver o a w =
      let shown = hide_thinking a.options.visible o in
      if a.options.aggregate then retain shown a w else send shown a w

  pub output : Output → Assembler → S → Step S
  unfolding count_text deliver
  output o a w =
      after (count_text (length o.content) a w)
        (λ a w. after (count_text (length o.thinking) a w) (λ a w. deliver o a w))

  -- The function that is handed to the splitter.
  pub on_text : Emit Text (Assembler × S)
  unfolding output
  on_text text (a, w) =
      output
        (record {
          content = text.content;
          thinking = text.thinking;
          tool_calls = [];
          logprobs = [];
        })
        a w

  pub feed_content : Option ThinkSplitter → Bytes → Assembler → S → Step S
  unfolding on_text
  feed_content (some s) content a w = with_splitter (Think.feed on_text s content (a, w))
  feed_content none content a w = output (record no_output { content = content }) a w

  -- The loop over the tool fragments.
  pub add_tools : List ToolFragment → Assembler → S → Step S
  unfolding count_text
  add_tools [] a w = ((a, w), none)
  add_tools (part ∷ parts) a w =
      after (count_text (length part.arguments) a w)
        (λ a w. after (with_tools a w (Tools.add a.tools part)) (λ a w. add_tools parts a w))

  pub send_logprobs : Result Failure (List Bytes) → Assembler → S → Step S
  unfolding output
  send_logprobs (err e) a w = ((a, w), some e)
  send_logprobs (ok values) a w = output (record no_output { logprobs = values }) a w

  module _ (probabilities : Bytes → Result Failure (List Bytes)) where
    pub feed_logprobs : Bytes → Assembler → S → Step S
    unfolding send_logprobs
    feed_logprobs raw a w =
        if is_empty raw || bytes_eq raw (codes "null")
        then ((a, w), none)
        else send_logprobs (probabilities raw) a w

    -- The calls that a choice makes, in their order.
    pub feed_parts : Choice → Bytes → Bytes → Assembler → S → Step S
    unfolding output feed_content add_tools feed_logprobs
    feed_parts choice content reasoning a w =
        after (output (record no_output { thinking = reasoning }) a w) (λ a w.
          after (feed_content a.splitter content a w) (λ a w.
            after (add_tools choice.delta.tool_calls a w)
              (λ a w. feed_logprobs choice.logprobs a w)))

    -- The body of the loop, for a choice with the index 0.
    pub feed_choice : Choice → ℕ → Assembler → S → Step S
    unfolding feed_parts note_reason note_time
    feed_choice choice now a w =
        let delta = choice.delta in
        let content = or_else delta.content choice.text in
        let reasoning = or_else delta.reasoning_content delta.reasoning in
        let some_text =
          not (is_empty content) || not (is_empty reasoning) || not (is_empty delta.tool_calls) in
        feed_parts choice content reasoning
          (note_time some_text now (note_reason choice.finish_reason a)) w

    pub feed_choices : List Choice → ℕ → Assembler → S → Step S
    unfolding feed_choice
    feed_choices [] now a w = ((a, w), none)
    feed_choices (choice ∷ choices) now a w =
        after (if is_zero choice.index then feed_choice choice now a w else ((a, w), none))
          (λ a w. feed_choices choices now a w)

    pub feed : Chunk → ℕ → Assembler → S → Step S
    unfolding feed_choices
    feed chunk now a w = feed_choices chunk.choices now (note_usage chunk.usage a) w

  pub finish_content : Option ThinkSplitter → Assembler → S → Step S
  unfolding on_text
  finish_content none a w = ((a, w), none)
  finish_content (some s) a w = with_splitter (Think.finish on_text s (a, w))

  pub finish_calls :
      ToolAccumulator × Result Failure (List ToolCall × ℕ)
      → Assembler
      → S
      → (Assembler × S) × Result Failure Output
  unfolding output
  finish_calls (tools, err e) a w = ((record a { tools = tools }, w), err e)
  finish_calls (tools, ok (calls, wrapped)) a w =
      let b = record a { tools = tools; wrapped_tools = wrapped } in
      if b.options.aggregate
      then (
        (b, w),
        ok (record {
          content = b.content;
          thinking = b.thinking;
          tool_calls = calls;
          logprobs = b.logprobs;
        }),
      )
      else yielding (output (record no_output { tool_calls = calls }) b w) no_output

  pub finish : Assembler → S → (Assembler × S) × Result Failure Output
  unfolding finish_content finish_calls
  finish a w =
      after_content (finish_content a.splitter a w) (λ a w. finish_calls (Tools.finish a.tools) a w)

-- The function `estimate` of `EstimateUsage`.
unfoldable pub estimate : ℕ → ℕ
estimate size = if size % 4 == 0 then size / 4 else size / 4 + 1

pub estimate_unless : ℤ → Option Usage → Assembler → Assembler
unfolding estimate
estimate_unless prompt_bytes (some u) a = a
estimate_unless (negsuc n) none a = a
estimate_unless (pos n) none a = record a {
  usage = some (record {
    prompt_tokens = pos (estimate n);
    completion_tokens = pos (estimate a.text_bytes);
    prompt_tokens_details = none;
  });
  usage_estimated = true;
}

pub estimate_usage : ℤ → Assembler → Assembler
unfolding estimate_unless
estimate_usage prompt_bytes a = estimate_unless prompt_bytes a.usage a
