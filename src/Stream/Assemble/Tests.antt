-- ===== src/Stream/Assemble/Tests.antt =====
-- Runs of the assembler, and its theorems at concrete input.
use ollame.Prelude.{
  ℕ, ◌≡◌, refl, true, false, none, some, List, [], ◌∷◌, Bytes, String, codes, bytes_eq, starts_with,
  ends_with, index, arith, pos, Result, ok, err,
}
use ollame.Stream.{Failure, malformed}
use ollame.Stream.Think.{new_think_splitter}
use ollame.Stream.Think
use ollame.Stream.Tools
use ollame.Stream.Tools.{ToolFragment, new_tool_accumulator}
use ollame.Stream.Decode.{Delta, Chunk}
use ollame.Stream.Assemble.{Output, no_output, Assembly, Assembler, new_assembler, feed, finish}
use ollame.Stream.Assemble.Twin.{gather, twin}
use ollame.Stream.Assemble.Runs.{run, Streams, run-Streams}

abbrev options : Assembly
options = record {
  aggregate = true;
  visible = true;
  think_tags = true;
  think_initial = false;
  max_aggregate_bytes = pos 100;
  max_tool_calls = pos 2;
  max_tool_call_bytes = pos 40;
  bad_tool_arguments = codes "wrap";
}

abbrev start : Assembler
start = record {
  options = options;
  tools = record {
    calls = [];
    max_calls = 2;
    max_bytes = 40;
    policy = codes "wrap";
    terminal = none;
    finished = false;
  };
  splitter = some (new_think_splitter false);
  content = [];
  thinking = [];
  logprobs = [];
  retained = 0;
  usage = none;
  usage_estimated = false;
  text_bytes = 0;
  first = none;
  last = none;
  reason = codes "stop";
  content_filtered = false;
  wrapped_tools = 0;
}

started : new_assembler options ≡ ok start
unfolding new_assembler new_tool_accumulator bytes_eq
started = refl

started_twin : new_assembler (record options { aggregate = false }) ≡ ok (twin start)
unfolding new_assembler new_tool_accumulator bytes_eq
started_twin = refl

abbrev delta : String → List ToolFragment → Delta
delta content parts = record {
  role = [];
  content = codes content;
  reasoning_content = [];
  reasoning = [];
  tool_calls = parts;
}

abbrev chunk : String → List ToolFragment → Chunk
chunk content parts = record {
  choices =
      record {
        index = pos 0;
        delta = delta content parts;
        text = [];
        finish_reason = none;
        logprobs = [];
      }
      ∷ [];
  usage = none;
}

abbrev call : ToolFragment
call = record { index = pos 0; id = codes "c"; name = codes "f"; arguments = [] }

abbrev chunks : List (Chunk × ℕ)
chunks = (chunk "<thi" [], 1) ∷ (chunk "nk>a</think>b" (call ∷ []), 2) ∷ []

abbrev refuse_logprobs : Bytes → Result Failure (List Bytes)
refuse_logprobs raw = err malformed

abbrev result : Output
result = record {
  content = codes "b";
  thinking = codes "a";
  tool_calls = record { id = codes "c"; index = 0; name = codes "f"; arguments = codes "{}" } ∷ [];
  logprobs = [];
}

aggregated : (run gather refuse_logprobs chunks start no_output).1 ≡ ok result
unfolding feed finish bytes_eq starts_with ends_with index Think.feed Think.finish Tools.add
    Tools.finish
aggregated = refl

run-Streams_example :
    Streams
      (run gather refuse_logprobs chunks start no_output)
      (run gather refuse_logprobs chunks (twin start) no_output)
run-Streams_example =
    run-Streams gather refuse_logprobs options start (twin start) refl (omega arith) started
      started_twin chunks no_output
